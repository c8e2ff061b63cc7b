-- ===== src/Fasit/Client.antt =====
-- api/fasit.go: the client of Fasit, over the web. http, json, gabs, the regular expression for
-- properties and strconv.Atoi are parameters.
pub mod Scoped
pub mod Calls
pub mod Balancer
pub mod Laws
use nais_api.AppError.{AppError, app_error}
use nais_api.Fasit.{Scope}
use nais_api.Fasit.Payload.{ApplicationInstancePayload, ResourcePayload}
use nais_api.Prelude.{
  Bool, List, Option, String, [], eqb, if◌then◌else◌, inl, inr, ltb, none, some, ℕ, ◌<>◌, ◌==◌, ◌∷◌,
  ◌⊎◌,
}
use nais_api.Prelude.Dict.{Dict, erase, insert, lookup}
use nais_api.Prelude.Int.{pos, ℤ}
use nais_api.Prelude.Outcome.{GoError, M, Outcome, err, errorf, ok, panic}
use nais_api.Prelude.Text.{itoa, join, split}
use nais_api.Request.{Deploy}

pub record HttpRequest : Type 0 where
  pub method : String
  pub url : String
  pub query : Dict String
  pub credentials : Option (String × String)
  pub headers : Dict String
  pub payload : String

-- `body` and `read_error` are what ReadAll gives, and `location` the header of that name.
pub record HttpReply : Type 0 where
  pub status : ℕ
  pub body : String
  pub read_error : Option GoError
  pub location : String

pub record FasitResource : Type 0 where
  pub id : ℤ
  pub alias : String
  pub resource_type : String
  pub scope : Scope
  pub properties : Dict String
  pub secrets : Dict (Dict String)
  pub certificates : Dict String

-- `request_error` is the error of http.NewRequest for a method and a url. `consume` is gabs.Consume:
-- the text at each path, where there is one. `parse_load_balancers` lists what the two paths
-- "properties.url" and "properties.contextRoots" hold in each child: none for what is no text.
pub record Net (S : Type 0) : Type 0 where
  pub request_error : String → String → Option GoError
  pub send : HttpRequest → S → (HttpReply ⊎ GoError) × S
  pub parse_resource : String → FasitResource ⊎ GoError
  pub parse_environment_class : String → String ⊎ GoError
  pub marshal_resource : ResourcePayload → String ⊎ GoError
  pub marshal_instance : ApplicationInstancePayload → String ⊎ GoError
  pub encode : Dict String → String
  pub consume : Dict String → (String → Option String) ⊎ GoError
  pub print_files : Dict String → String
  pub parse_load_balancers : String → Option (List (Option String × Option String))
  pub is_property_line : String → Bool
  pub trim_space : String → String
  pub atoi : String → ℤ ⊎ GoError

abbrev pub get_request : String → Dict String → HttpRequest
get_request url query = record {
  method = "GET";
  url = url;
  query = query;
  credentials = none;
  headers = [];
  payload = "";
}

-- The headers of a request that writes on behalf of someone.
abbrev pub write_headers : Deploy → Dict String
write_headers r =
    ("Content-Type", "application/json")
    ∷ (if r.on_behalf_of == "" then [] else ("x-onbehalfof", r.on_behalf_of) ∷ [])

abbrev pub write_request : String → String → Deploy → String → HttpRequest
write_request method url r payload = record {
  method = method;
  url = url;
  query = [];
  credentials = some (r.fasit_username, r.fasit_password);
  headers = write_headers r;
  payload = payload;
}

module _ {S : Type 0} (net : Net S) where
  abbrev pub received : (HttpReply ⊎ GoError) × S → (String ⊎ AppError) × S
  received (inr e, s) = (inr (app_error (some e) "Error contacting fasit" 500), s)
  received (inl reply, s) = elim reply.read_error [
    | some e ↦ (inr (app_error (some e) "Could not read body" 500), s)
    | none ↦
        if eqb reply.status 404
        then (inr (app_error none ("item not found in Fasit: " <> reply.body) 404), s)
        else if ltb 299 reply.status
        then (inr (app_error none ("error contacting Fasit: " <> reply.body) reply.status), s)
        else (inl reply.body, s)
  ]

  unfoldable pub do_request : HttpRequest → S → (String ⊎ AppError) × S
  do_request request s = received (net.send request s)

  -- The first occurrence of "=" parts a line; a line of the right form has one.
  unfoldable pub put_property : String → Dict String → Dict String
  unfolding split join
  put_property line properties = elim (split "=" line) [
    | [] ↦ properties
    | key ∷ rest ↦ insert key (join "=" rest) properties
  ]

  unfoldable pub put_property_lines : List String → Dict String → Dict String
  unfolding put_property
  put_property_lines [] properties = properties
  put_property_lines (l ∷ lines) properties =
      let line = net.trim_space l in
      put_property_lines lines
        (if net.is_property_line line then put_property line properties else properties)

  unfoldable pub application_properties : Dict String → Dict String
  unfolding put_property_lines split
  application_properties properties =
      let text : String = elim (lookup "applicationProperties" properties) [
        | some t ↦ t
        | none ↦ ""
      ] in
      erase "applicationProperties" (put_property_lines (split "\n" text) properties)

  abbrev secret_received : (HttpReply ⊎ GoError) × S → Outcome (Dict String) × S
  secret_received (inr e, s) =
      (err (errorf ("error contacting fasit when resolving secret: " <> e.text)), s)
  secret_received (inl reply, s) =
      if ltb 299 reply.status
      then (
        err (
            errorf (
              "fasit gave error message when resolving secret: "
              <> reply.body
              <> " (HTTP "
              <> itoa (pos reply.status)
              <> ")")),
        s,
      )
      else (ok (("password", reply.body) ∷ []), s)

  -- The address in the first of the secrets, as Go's range meets them; none of them has no address.
  abbrev secret_ref : Dict (Dict String) → String
  secret_ref [] = ""
  secret_ref ((key, fields) ∷ more) = elim (lookup "ref" fields) [ some ref ↦ ref | none ↦ "" ]

  unfoldable pub resolve_secret : Dict (Dict String) → String → String → M S (Dict String)
  unfolding itoa
  resolve_secret secrets username password s =
      let url = secret_ref secrets in
      elim (net.request_error "GET" url) [
        | some e ↦ (err e, s)
        | none ↦
            secret_received
              (net.send (record (get_request url []) { credentials = some (username, password) }) s)
      ]

  abbrev file_received : String → (HttpReply ⊎ GoError) × S → Outcome (Dict String) × S
  file_received name (inr e, s) =
      (err (errorf ("error contacting fasit when resolving file: " <> e.text)), s)
  file_received name (inl reply, s) = elim reply.read_error [
    | none ↦ (ok ((name, reply.body) ∷ []), s)
    | some e ↦ (err (errorf ("error downloading file: " <> e.text)), s)
  ]

  abbrev consumed : Dict String → (String → Option String) ⊎ GoError → Outcome (String × String)
  consumed files (inr e) =
      err (errorf ("error parsing fasit json: " <> net.print_files files <> " "))
  consumed files (inl text_at) = elim (text_at "keystore.filename") [
    | none ↦
        err (
          errorf ("error parsing fasit json. Filename not found: " <> net.print_files files <> " "))
    | some name ↦ elim (text_at "keystore.ref") [
      | none ↦
          err (
            errorf
              ("error parsing fasit json. Fileurl not found: " <> net.print_files files <> " "))
      | some url ↦ ok (name, url)
    ]
  ]

  unfoldable pub parse_files_object : Dict String → Outcome (String × String)
  parse_files_object files = consumed files (net.consume files)

  abbrev download_file : Outcome (String × String) → M S (Dict String)
  download_file (ok (name, url)) s = file_received name (net.send (get_request url []) s)
  download_file (err e) s = (err e, s)
  download_file panic s = (panic, s)

  unfoldable pub resolve_certificates : Dict String → M S (Dict String)
  unfolding parse_files_object
  resolve_certificates files s = download_file (parse_files_object files) s
