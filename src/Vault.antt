-- ===== src/Vault.antt =====
-- internal/vault/vaultcontainer.go: the containers and the volume that fetch secrets from Vault.
pub mod Laws
use nais_api.App.{Spec}
use nais_api.Creator.Environment.{create_env_var}
use nais_api.Kubernetes.Objects.{
  Container, PodSpec, ResourceAmounts, Volume, VolumeMount, empty_dir,
}
use nais_api.Prelude.{
  Bool, List, String, [], false, if◌then◌else◌, map, none, true, ◌++◌, ◌<>◌, ◌==◌, ◌∷◌,
}
use nais_api.Prelude.Outcome.{GoError, Outcome, err, errorf, ok}
use nais_api.Prelude.Text.{format_bool}

abbrev mount_path : String
mount_path = "/var/run/secrets/nais.io/vault"

abbrev pub env_vault_addr : String
env_vault_addr = "NAISD_VAULT_ADDR"

abbrev pub env_init_container_image : String
env_init_container_image = "NAISD_VAULT_INIT_CONTAINER_IMAGE"

abbrev pub env_vault_auth_path : String
env_vault_auth_path = "NAISD_VAULT_AUTH_PATH"

abbrev pub env_vault_kv_path : String
env_vault_kv_path = "NAISD_VAULT_KV_PATH"

abbrev pub env_vault_enabled : String
env_vault_enabled = "NAISD_VAULT_ENABLED"

pub record Config : Type 0 where
  pub vault_addr : String
  pub init_container_image : String
  pub auth_path : String
  pub kv_path : String
  pub sidecar : Bool

abbrev pub missing : String → String → List GoError
missing value message = if value == "" then errorf message ∷ [] else []

-- The errors that `validate` collects; the configuration is good if there are none.
unfoldable pub config_errors : Config → List GoError
config_errors c =
    missing c.vault_addr ("vault address not found in environment. Missing " <> env_vault_addr)
    ++ (missing c.init_container_image
          ("vault address not found in environment. Missing " <> env_init_container_image)
        ++ (missing c.auth_path
              ("auth path not found in environment. Missing " <> env_vault_auth_path)
            ++ missing c.kv_path
                ("kv path not found in environment. Missing " <> env_vault_kv_path)))

pub record Initializer : Type 0 where
  pub spec : Spec
  pub config : Config

-- viper, with the settings by name, and the text of a multierror
pub record VaultSettings : Type 0 where
  pub get_bool : String → Bool
  pub get_string : String → String
  pub multierror : List GoError → String

abbrev pub vault_enabled : VaultSettings → Bool
vault_enabled v = v.get_bool env_vault_enabled

unfoldable pub read_config : VaultSettings → Bool → Config
read_config v sidecar = record {
  vault_addr = v.get_string env_vault_addr;
  init_container_image = v.get_string env_init_container_image;
  auth_path = v.get_string env_vault_auth_path;
  kv_path = v.get_string env_vault_kv_path;
  sidecar = sidecar;
}

unfoldable pub new_initializer : VaultSettings → Spec → Bool → Outcome Initializer
unfolding config_errors read_config
new_initializer v spec sidecar =
    let config = read_config v sidecar in
    elim (config_errors config) [
      | [] ↦ ok (record { spec = spec; config = config })
      | e ∷ es ↦ err (errorf (v.multierror (e ∷ es)))
    ]

abbrev pub vault_volume : Volume
vault_volume = record { name = "vault-secrets"; source = empty_dir "Memory" }

abbrev pub vault_mount : VolumeMount
vault_mount = record { name = "vault-secrets"; mount_path = mount_path }

unfoldable pub kv_path : Initializer → String
kv_path i = i.config.kv_path <> "/" <> i.spec.application <> "/" <> i.spec.namespace

unfoldable pub vault_role : Initializer → String
vault_role i = i.spec.application

abbrev pub no_amounts_set : ResourceAmounts
no_amounts_set = record { requests = []; limits = [] }

unfoldable pub vault_container : Initializer → VolumeMount → Bool → Container
unfolding kv_path vault_role format_bool
vault_container i mount sidecar = record {
  name = if sidecar then "vks-sidecar" else "vks-init";
  volume_mounts = mount ∷ [];
  image = i.config.init_container_image;
  env =
      create_env_var "VKS_VAULT_ADDR" i.config.vault_addr
      ∷ create_env_var "VKS_AUTH_PATH" i.config.auth_path
      ∷ create_env_var "VKS_KV_PATH" (kv_path i)
      ∷ create_env_var "VKS_VAULT_ROLE" (vault_role i)
      ∷ create_env_var "VKS_SECRET_DEST_PATH" mount_path
      ∷ create_env_var "VKS_IS_SIDECAR" (format_bool sidecar)
      ∷ [];
  ports = [];
  resources = no_amounts_set;
  liveness_probe = none;
  readiness_probe = none;
  image_pull_policy = "";
  pre_stop = none;
  args = [];
}

unfoldable pub mount_secrets : Initializer → VolumeMount → Container → Container
mount_secrets i mount c =
    if c.name == i.spec.application
    then record c { volume_mounts = c.volume_mounts ++ mount ∷ [] }
    else c

unfoldable pub add_vault_containers : Initializer → PodSpec → PodSpec
unfolding mount_secrets vault_container
add_vault_containers i pod =
    let mutated = map (mount_secrets i vault_mount) pod.containers in
    record pod {
      volumes = pod.volumes ++ vault_volume ∷ [];
      containers =
          if i.config.sidecar then mutated ++ vault_container i vault_mount true ∷ [] else mutated;
      init_containers = pod.init_containers ++ vault_container i vault_mount false ∷ [];
    }
