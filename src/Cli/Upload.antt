-- ===== src/Cli/Upload.antt =====
-- cli/cmd/upload.go and cli/cmd/version.go: the command that uploads a manifest to Nexus, and the one
-- that prints the version.
use Prim.Native.Char.{Char}
use nais_api.Cli.Shell.{
  Cmd, Flags, Os, Stored, WebAnswer, act, done, exit, fail, or_exit, print, read_flags, ◌>>=◌,
}
use nais_api.Fasit.Client.Calls.{answer}
use nais_api.Prelude.{
  List, Option, String, [], if◌then◌else◌, ltb, none, some, ◌&&◌, ◌<>◌, ◌==◌, ◌∷◌,
}
use nais_api.Prelude.Outcome.{GoError}
use nais_api.Prelude.Text.{is_char}

abbrev pub default_nexus_url : String
default_nexus_url = "https://repo.adeo.no/repository/raw"

pub record NexusUploadRequest : Type 0 where
  pub username : String
  pub password : String
  pub app : String
  pub version : String
  pub file : String

-- A map, whose order is open.
abbrev pub upload_flags : List (Stored NexusUploadRequest)
upload_flags =
    ("app", λ v r. record r { app = v })
    ∷ ("version", λ v r. record r { version = v })
    ∷ ("username", λ v r. record r { username = v })
    ∷ ("password", λ v r. record r { password = v })
    ∷ ("file", λ v r. record r { file = v })
    ∷ []

abbrev pub upload_flag_error : String → GoError → String
upload_flag_error key e = "failed getting flag: " <> key <> ". " <> e.text <> "\n"

-- strings.TrimRight for one character
unfoldable pub trim_right : Char → String → String
trim_right c String.[] = ""
trim_right c (String.◌∷◌ d s) =
    let rest = trim_right c s in if is_char c d && rest == "" then "" else String.◌∷◌ d rest

abbrev pub nexus_base : Option String → String
unfolding trim_right
nexus_base none = default_nexus_url
nexus_base (some url) = trim_right "/" url

unfoldable pub nexus_url : Option String → NexusUploadRequest → String
unfolding trim_right
nexus_url url r = nexus_base url <> "/nais/" <> r.app <> "/" <> r.version <> "/nais.yaml"

module _ {W : Type 0} (os : Os W) (flags : Flags) where
  abbrev pub uploaded : WebAnswer → Cmd W (Unit {0})
  uploaded answer = print ("response Status: " <> answer.status <> "\n") >>= λ _.
      print ("response Body: " <> answer.body <> "\n") >>= λ _.
      if ltb 299 answer.code then exit 1 else done tt

  abbrev pub created : Option GoError → Cmd W (Unit {0})
  created none = done tt
  created (some e) = fail ("failed to create http request: " <> e.text <> "\n")

  -- A file that can be opened can be read.
  abbrev pub upload_with : NexusUploadRequest → Cmd W (Unit {0})
  unfolding nexus_url
  upload_with r =
      or_exit fail (λ e. "failed to open file: " <> e.text <> "\n") (os.read_file r.file)
      >>= λ content.
          created (os.request_error "PUT" (nexus_url (os.lookup_env "NEXUS_URL") r)) >>= λ _.
          act (os.http_put (nexus_url (os.lookup_env "NEXUS_URL") r) r.username r.password content)
          >>= or_exit fail (λ e. "error while uploading file: " <> e.text <> "\n")
          >>= uploaded

  -- `order` is an order of `upload_flags`.
  unfoldable pub upload_command : List (Stored NexusUploadRequest) → Cmd W (Unit {0})
  unfolding read_flags nexus_url
  upload_command order =
      read_flags upload_flag_error flags order (record {
        username = os.getenv "NEXUS_USERNAME";
        password = os.getenv "NEXUS_PASSWORD";
        app = "";
        version = "";
        file = "";
      })
      >>= upload_with

unfoldable pub version_command : {W : Type 0} → String → String → Cmd W (Unit {0})
version_command version revision =
    print ("Version " <> version <> ", revision " <> revision <> "\n")

-- The command without a name.
unfoldable pub root_command : {W : Type 0} → Cmd W (Unit {0})
root_command = print "Velkommen til en skikkelig nais plattform!!\n"
