-- ===== src/Fasit/Payload.antt =====
-- api/fasit.go: what is written to Fasit.
use nais_api.Fasit.{NaisResource, Scope}
use nais_api.Fasit.Sync.{generate_scope}
use nais_api.Manifest.{ExposedResource}
use nais_api.Prelude.{Bool, List, String, [], if◌then◌else◌, map, ◌<>◌, ◌==◌, ◌||◌, ◌∷◌}
use nais_api.Prelude.Dict.{Dict}
use nais_api.Prelude.Int.{ℤ}
use nais_api.Prelude.Text.{join, split, to_lower}
use nais_api.Request.{Deploy}

pub record Resource : Type 0 where
  pub id : ℤ

pub record ApplicationInstancePayload : Type 0 where
  pub application : String
  pub environment : String
  pub version : String
  pub exposed_resources : List Resource
  pub used_resources : List Resource
  pub cluster_name : String
  pub domain : String

pub record RestProperties : Type 0 where
  pub url : String
  pub description : String

pub record WebserviceProperties : Type 0 where
  pub endpoint_url : String
  pub wsdl_url : String
  pub security_token : String
  pub description : String

-- The interface ResourcePayload. `no_payload` is nil.
pub data ResourcePayload : Type 0 where
  rest_payload : String → Scope → RestProperties → ResourcePayload
  webservice_payload : String → String → Scope → WebserviceProperties → ResourcePayload
  no_payload : ResourcePayload

-- strings.EqualFold, for the texts of ASCII
unfoldable pub equal_fold : String → String → Bool
unfolding to_lower
equal_fold a b = to_lower a == to_lower b

-- strings.Join(strings.Split(subDomain, ".")[1:], ".")
abbrev pub without_first : List String → List String
without_first [] = []
without_first (p ∷ ps) = ps

unfoldable pub build_application_instance_payload :
    Deploy → String → String → List ℤ → List ℤ → ApplicationInstancePayload
unfolding split join
build_application_instance_payload request environment subdomain exposed used = record {
  application = request.application;
  environment = environment;
  version = request.version;
  cluster_name = "nais";
  domain = join "." (without_first (split "." subdomain));
  exposed_resources = map (λ i. record { id = i }) exposed;
  used_resources = map (λ i. record { id = i }) used;
}

-- `encode` is Encode of url.Values, on the parameters in the order in which they are added.
unfoldable pub build_resource_payload :
    (Dict String → String)
    → ExposedResource
    → NaisResource
    → String
    → String
    → String
    → String
    → ResourcePayload
unfolding equal_fold generate_scope
build_resource_payload encode r existing class environment zone hostname =
    let scope = generate_scope r existing class environment zone in
    if equal_fold "restservice" r.resource_type
    then rest_payload r.alias scope
        (record { url = "https://" <> hostname <> r.path; description = r.description })
    else if equal_fold "WebserviceEndpoint" r.resource_type
        || equal_fold "SoapService" r.resource_type
    then webservice_payload r.resource_type r.alias scope (record {
      endpoint_url = "https://" <> hostname <> r.path;
      wsdl_url =
          "http://maven.adeo.no/nexus/service/local/artifact/maven/redirect?"
          <> encode (
              ("r", "m2internal")
              ∷ ("g", r.wsdl_group_id)
              ∷ ("a", r.wsdl_artifact_id)
              ∷ ("v", r.wsdl_version)
              ∷ ("e", "zip")
              ∷ []);
      security_token = r.security_token;
      description = r.description;
    })
    else no_payload
