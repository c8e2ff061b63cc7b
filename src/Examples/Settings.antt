-- ===== src/Examples/Settings.antt =====
-- The settings for Vault at work.
use nais_api.Examples.{app_spec, test_platform}
use nais_api.Prelude.{refl, true, ◌≡◌}
use nais_api.Prelude.Outcome.{ok}
use nais_api.Vault.{Initializer, new_initializer, read_config}

abbrev app_initializer : Initializer
app_initializer = record { spec = app_spec; config = read_config test_platform.vault true }

new_initializer_runs : new_initializer test_platform.vault app_spec true ≡ ok app_initializer
unfolding new_initializer read_config
new_initializer_runs = refl
