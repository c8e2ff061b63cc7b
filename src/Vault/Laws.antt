-- ===== src/Vault/Laws.antt =====
-- When Vault can be set up (internal/vault/vaultcontainer.go).
use nais_api.App.{Spec}
use nais_api.Prelude.{Bool, List, String, [], ap, arith, eq_iff, refl, sym, ◌↔◌, ◌∷◌, ◌≡◌, ◌≢◌}
use nais_api.Prelude.Outcome.{GoError, ok}
use nais_api.Vault.{
  Config, Initializer, VaultSettings, config_errors, env_init_container_image, env_vault_addr,
  env_vault_auth_path, env_vault_kv_path, missing, new_initializer, read_config,
}

missing-eq_nil : (value message : String) → (missing value message ≡ []) ↔ (value ≢ "")
missing-eq_nil value message = ground (arith, eq_iff value "")

config_errors-eq_nil :
    (c : Config)
    → (config_errors c ≡ []) ↔ (
        (c.vault_addr ≢ "") × (c.init_container_image ≢ "") × (c.auth_path ≢ "") × (c.kv_path ≢ ""))
unfolding config_errors
config_errors-eq_nil c = ground (
  arith,
  eq_iff c.vault_addr "",
  eq_iff c.init_container_image "",
  eq_iff c.auth_path "",
  eq_iff c.kv_path "",
)

-- The containers for Vault can be set up exactly if the four settings are given, and then they are
-- those of the application.
pub new_initializer-eq_ok :
    (v : VaultSettings) (spec : Spec) (sidecar : Bool) (i : Initializer)
    → (new_initializer v spec sidecar ≡ ok i) ↔ (
        (i ≡ record { spec = spec; config = read_config v sidecar })
        × (v.get_string env_vault_addr ≢ "")
        × (v.get_string env_init_container_image ≢ "")
        × (v.get_string env_vault_auth_path ≢ "")
        × (v.get_string env_vault_kv_path ≢ ""))
unfolding new_initializer read_config
new_initializer-eq_ok v spec sidecar i = go (config_errors (read_config v sidecar)) refl
  where
    go :
        (es : List GoError)
        → config_errors (read_config v sidecar) ≡ es
        → (new_initializer v spec sidecar ≡ ok i) ↔ (
            (i ≡ record { spec = spec; config = read_config v sidecar })
            × (v.get_string env_vault_addr ≢ "")
            × (v.get_string env_init_container_image ≢ "")
            × (v.get_string env_vault_auth_path ≢ "")
            × (v.get_string env_vault_kv_path ≢ ""))
    go [] p =
        let (a, b, c, d) = (config_errors-eq_nil (read_config v sidecar)).0 p in
        rw (p, new_initializer) (λ h. (cc, a, b, c, d), λ (h, a', b', c', d'). ap ok (sym h))
    go (e ∷ es) p =
        rw (p, new_initializer)
          (
            λ h. cc,
            λ (h, a, b, c, d).
                cc (p, (config_errors-eq_nil (read_config v sidecar)).1 (a, b, c, d)),
          )
