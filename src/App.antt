-- ===== src/App.antt =====
-- api/app/spec.go and api/constant/constant.go: what names an application's resources.
use nais_api.Prelude.{String}

pub record Spec : Type 0 where
  pub application : String
  pub namespace : String
  pub team : String

unfoldable pub resource_name : Spec → String
resource_name s = s.application

abbrev pub zone_sbs : String
zone_sbs = "sbs"

abbrev pub zone_iapp : String
zone_iapp = "iapp"

abbrev pub zone_fss : String
zone_fss = "fss"

abbrev pub environment_p : String
environment_p = "p"
