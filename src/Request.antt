-- ===== src/Request.antt =====
-- api/naisrequest/deploy.go: a deployment request and its validation.
pub mod Laws
use nais_api.App.{zone_fss, zone_iapp, zone_sbs}
use nais_api.Prelude.{Bool, List, String, [], if◌then◌else◌, map, not, ◌&&◌, ◌++◌, ◌<>◌, ◌==◌, ◌∷◌}
use nais_api.Prelude.Dict.{Dict}
use nais_api.Prelude.Outcome.{GoError, errorf}

pub record Deploy : Type 0 where
  pub application : String
  pub version : String
  pub zone : String
  pub manifest_url : String
  pub skip_fasit : Bool
  pub fasit_environment : String
  pub fasit_username : String
  pub fasit_password : String
  pub on_behalf_of : String
  pub namespace : String
  pub environment : String
  pub cluster_name : String

-- The map of the fields that must not be empty. Its order is open.
unfoldable pub required_fields : Deploy → Dict String
required_fields r =
    ("application", r.application)
    ∷ ("version", r.version)
    ∷ ("zone", r.zone)
    ∷ ("namespace", r.namespace)
    ∷ (if r.skip_fasit
        then []
        else ("fasitEnvironment", r.fasit_environment)
          ∷ ("fasitUsername", r.fasit_username)
          ∷ ("fasitPassword", r.fasit_password)
          ∷ [])

unfoldable pub missing_errors : Dict String → List GoError
missing_errors [] = []
missing_errors ((key, value) ∷ fields) =
    let rest = missing_errors fields in
    if value == "" then errorf (key <> " is required and is empty") ∷ rest else rest

abbrev pub illegal_namespaces : List String
illegal_namespaces =
    "kube-system" ∷ "istio-system" ∷ "k8s-dashboard" ∷ "kubernetes-dashboard" ∷ "nais-rook" ∷ "tpa"
    ∷ "reboot-coordinator" ∷ []

unfoldable pub namespace_errors : String → List String → List GoError
namespace_errors namespace [] = []
namespace_errors namespace (illegal ∷ more) =
    let rest = namespace_errors namespace more in
    if namespace == illegal then errorf "deploying to system namespaces disallowed" ∷ rest else rest

unfoldable pub zone_errors : String → List GoError
zone_errors zone =
    if not (zone == zone_fss) && not (zone == zone_sbs) && not (zone == zone_iapp)
    then errorf "zone can only be fss, sbs or iapp" ∷ []
    else []

-- `label_errors` is validation.IsDNS1123Label: the complaints about a name, none if it is a label.
module _ (label_errors : String → List String) where
  unfoldable pub validate : Deploy → List GoError
  unfolding required_fields missing_errors namespace_errors zone_errors
  validate r =
      missing_errors (required_fields r)
      ++ (namespace_errors r.namespace illegal_namespaces
          ++ (zone_errors r.zone
              ++ map (λ e. errorf ("invalid application name: " <> e))
                  (label_errors r.application)))

-- What `String` marshals: the request without its credentials.
unfoldable pub masked : Deploy → Deploy
masked r = record r { fasit_password = "***"; fasit_username = "***" }
