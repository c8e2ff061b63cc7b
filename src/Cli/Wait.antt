-- ===== src/Cli/Wait.antt =====
-- cli/cmd/wait.go: the command that waits for a deployment.
pub mod Laws
pub mod Options
pub mod Waiting
use nais_api.Cli.{
  PollReply, Waited, deployed, gave_up, get_cluster_url, status_endpoint, still_waiting,
  wait_for_deploy,
}
use nais_api.Cli.Shell.{Cmd, Flags, Os, Stored, fail, from_outcome, print, read_flags, waits, ◌>>=◌}
use nais_api.Prelude.{List, String, [], if◌then◌else◌, ℕ, ◌<>◌, ◌==◌, ◌∷◌}
use nais_api.Prelude.Outcome.{GoError}

pub record WaitOptions : Type 0 where
  pub app : String
  pub namespace : String
  pub cluster : String

-- A map, whose order is open.
abbrev pub wait_flags : List (Stored WaitOptions)
wait_flags =
    ("app", λ v o. record o { app = v })
    ∷ ("namespace", λ v o. record o { namespace = v })
    ∷ ("cluster", λ v o. record o { cluster = v })
    ∷ []

abbrev pub flag_error : String → GoError → String
flag_error key e = "Error when getting flag: " <> key <> ". " <> e.text <> "\n"

abbrev pub url_error : GoError → String
url_error e = "Error: " <> e.text <> "\n"

module _ {W : Type 0} where
  abbrev pub waited : String → Waited → Cmd W (Unit {0})
  waited elapsed deployed = print ("Deploy successful, took " <> elapsed <> "\n")
  waited elapsed still_waiting = λ s. (waits, s)
  waited elapsed (gave_up e) = fail (e.text <> "\n")

  -- `polls url` are the answers to http.Get at `url`, in turn. The loop makes `fuel` rounds.
  abbrev pub waiting_at : ℕ → (String → ℕ → PollReply) → String → String → Cmd W (Unit {0})
  unfolding wait_for_deploy
  waiting_at fuel polls elapsed url = waited elapsed (wait_for_deploy fuel (polls url))

abbrev pub status_path : String → String → String
status_path a b = status_endpoint <> ("/" <> (a <> ("/" <> b)))

-- The path at which the command asks for the status.
abbrev pub waited_path : WaitOptions → String
waited_path o = status_path o.namespace o.app

module _ {W : Type 0} (os : Os W) (flags : Flags) (fuel : ℕ) (polls : String → ℕ → PollReply)
    (elapsed : String) where
  abbrev pub wait_with : WaitOptions → Cmd W (Unit {0})
  unfolding get_cluster_url wait_for_deploy
  wait_with o =
      if o.app == ""
      then fail "Application cannot be empty\n"
      else (from_outcome fail url_error (get_cluster_url (os.getenv "NAIS_CLUSTER_URL") o.cluster)
          >>= λ cluster_url. waiting_at fuel polls elapsed (cluster_url <> waited_path o))

  -- `order` is an order of `wait_flags`, the one in which Go meets them.
  unfoldable pub wait_command : List (Stored WaitOptions) → Cmd W (Unit {0})
  unfolding read_flags get_cluster_url wait_for_deploy
  wait_command order =
      read_flags flag_error flags order (record { app = ""; namespace = ""; cluster = "" })
      >>= wait_with
