-- ===== src/Fasit.antt =====
-- api/fasit.go: the resources of Fasit, and the names under which an application sees them.
pub mod Naming
pub mod Sync
pub mod Payload
pub mod Client
use nais_api.Prelude.{List, Option, String, [], if◌then◌else◌, none, not, some, ◌<>◌, ◌==◌}
use nais_api.Prelude.Dict.{Dict, lookup}
use nais_api.Prelude.Int.{pos, ℤ}
use nais_api.Prelude.Text.{contains_char, replace_char, to_lower, to_upper}

pub record Scope : Type 0 where
  pub environment_class : String
  pub environment : String
  pub zone : String

pub record FasitIngress : Type 0 where
  pub host : String
  pub path : String

pub record ResourceRequest : Type 0 where
  pub alias : String
  pub resource_type : String
  pub property_map : Dict String

-- The maps that the program tests against nil are options.
pub record NaisResource : Type 0 where
  pub id : ℤ
  pub name : String
  pub resource_type : String
  pub scope : Scope
  pub properties : Dict String
  pub property_map : Dict String
  pub secret : Option (Dict String)
  pub certificates : Option (Dict String)
  pub ingresses : List FasitIngress

-- The zero value `NaisResource{}`.
abbrev pub no_resource : NaisResource
no_resource = record {
  id = pos 0;
  name = "";
  resource_type = "";
  scope = record { environment_class = ""; environment = ""; zone = "" };
  properties = [];
  property_map = [];
  secret = none;
  certificates = none;
  ingresses = [];
}

abbrev pub root_mount_point : String
root_mount_point = "/var/run/secrets/naisd.io/"

unfoldable pub normalize_property_name : String → String
unfolding contains_char replace_char
normalize_property_name name =
    let dots = if contains_char "." name then replace_char "." "_" name else name in
    let colons = if contains_char ":" dots then replace_char ":" "_" dots else dots in
    if contains_char "-" colons then replace_char "-" "_" colons else colons

abbrev pub full_name : NaisResource → String → String
full_name r property = elim (lookup property r.property_map) [
  | some value ↦ value
  | none ↦
      if not (r.resource_type == "applicationproperties")
      then r.name <> "_" <> property
      else property
]

unfoldable pub to_resource_variable : NaisResource → String → String
unfolding normalize_property_name to_lower
to_resource_variable r property = to_lower (normalize_property_name (full_name r property))

unfoldable pub to_environment_variable : NaisResource → String → String
unfolding to_resource_variable to_upper
to_environment_variable r property = to_upper (to_resource_variable r property)

unfoldable pub mount_point : NaisResource → String → String
unfolding to_resource_variable
mount_point r property = root_mount_point <> to_resource_variable r property
