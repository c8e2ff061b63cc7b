-- ===== src/Cli.antt =====
-- cli/cmd/deploy.go and cli/cmd/wait.go: which daemon the command line asks, and how it waits.
pub mod Laws
pub mod Shell
pub mod Deploy
pub mod Wait
pub mod Validate
pub mod Upload
pub mod Environment
use nais_api.Prelude.{
  String, [], eqb, if◌then◌else◌, none, not, some, suc, zero, ℕ, ◌&&◌, ◌<>◌, ◌==◌, ◌∷◌,
}
use nais_api.Prelude.Dict.{Dict, lookup}
use nais_api.Prelude.Int.{pos}
use nais_api.Prelude.Outcome.{GoError, Outcome, and_then, err, errorf, ok}
use nais_api.Prelude.Text.{itoa}

abbrev pub deploy_endpoint : String
deploy_endpoint = "/deploy"

abbrev pub status_endpoint : String
status_endpoint = "/deploystatus"

abbrev pub default_cluster : String
default_cluster = "preprod-fss"

abbrev pub clusters_dict : Dict String
clusters_dict =
    ("ci", "nais-ci.devillo.no")
    ∷ ("nais-dev", "nais.devillo.no")
    ∷ ("preprod-fss", "nais.preprod.local")
    ∷ ("prod-fss", "nais.adeo.no")
    ∷ ("preprod-iapp", "nais-iapp.preprod.local")
    ∷ ("prod-iapp", "nais-iapp.adeo.no")
    ∷ ("preprod-sbs", "nais.oera-q.local")
    ∷ ("prod-sbs", "nais.oera.no")
    ∷ []

unfoldable pub key_list : Dict String → String
key_list [] = ""
key_list ((key, url) ∷ clusters) = key <> ", " <> key_list clusters

unfoldable pub validate_cluster : String → Outcome String
unfolding key_list
validate_cluster cluster = elim (lookup cluster clusters_dict) [
  | some url ↦ ok url
  | none ↦ err (errorf ("Cluster is not valid, please choose one of: " <> key_list clusters_dict))
]

-- `url_env` is the variable NAIS_CLUSTER_URL, empty if it is not set.
unfoldable pub get_cluster_url : String → String → Outcome String
unfolding validate_cluster
get_cluster_url url_env cluster =
    if cluster == "" && not (url_env == "")
    then ok url_env
    else and_then (validate_cluster (if cluster == "" then default_cluster else cluster))
        (λ url. ok ("https://daemon." <> url))

-- What http.Get gives: an error, or the status of an answer.
pub data PollReply : Type 0 where
  unanswered : GoError → PollReply
  answered_with : ℕ → PollReply

-- `still_waiting` says that the fuel ran out while every answer was 202.
pub data Waited : Type 0 where
  deployed still_waiting : Waited
  gave_up : GoError → Waited

-- One round of the loop, with what the later rounds come to.
abbrev pub poll_round : PollReply → Waited → Waited
poll_round (unanswered e) later = gave_up e
poll_round (answered_with code) later =
    if eqb code 200
    then deployed
    else if eqb code 202
    then later
    else gave_up (errorf ("Deploy failed: " <> itoa (pos code) <> "\n"))

-- The loop has no end of its own: `fuel` counts its rounds, and `replies` are the answers in turn.
unfoldable pub wait_for_deploy : ℕ → (ℕ → PollReply) → Waited
wait_for_deploy zero replies = still_waiting
wait_for_deploy (suc fuel) replies =
    poll_round (replies 0) (wait_for_deploy fuel (λ n. replies (suc n)))
