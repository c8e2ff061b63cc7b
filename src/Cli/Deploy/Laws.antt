-- ===== src/Cli/Deploy/Laws.antt =====
-- When the command line has deployed (cli/cmd/deploy.go).
use nais_api.Cli.{PollReply, deploy_endpoint, deployed, get_cluster_url, wait_for_deploy}
use nais_api.Cli.Deploy.{Codec, answered_by, checked, deployed_path, post_request, wait_if_asked}
use nais_api.Cli.Shell.{
  Cmd, Console, Flags, Os, WebAnswer, act, exit, fail, from_outcome, go_on, goes, or_exit, print,
  ◌>>=◌,
}
use nais_api.Cli.Shell.Laws.{from_outcome-goes, or_exit-goes}
use nais_api.Cli.Wait.{url_error}
use nais_api.Cli.Wait.Waiting.{waited-goes}
use nais_api.Fasit.Client.Calls.{answer}
use nais_api.Prelude.{
  Bool, Bool-cases, List, String, [], arith, false, if◌then◌else◌, inl, inr, ltb, refl, true, ℕ,
  ◌<>◌, ◌↔◌, ◌∷◌, ◌≡◌, ◌≤◌, ◌⊎◌,
}
use nais_api.Prelude.Outcome.{GoError, ok}
use nais_api.Request.{Deploy, masked, validate}

module _ {W : Type 0} (os : Os W) (flags : Flags) (codec : Codec) (fuel : ℕ)
    (polls : String → ℕ → PollReply) (elapsed : String) where
  -- The wait, if it is asked for, has ended well.
  abbrev pub IsAwaited : String → Deploy → Bool ⊎ GoError → Type 0
  IsAwaited url r (inr e) = Unit
  IsAwaited url r (inl false) = Unit
  IsAwaited url r (inl true) = wait_for_deploy fuel (polls (url <> deployed_path r)) ≡ deployed

  wait_if_asked-goes :
      (url : String) (r : Deploy) (asked : Bool ⊎ GoError) (s : Console × W)
      → ((wait_if_asked os flags codec fuel polls elapsed url r asked s).0 ≡ goes tt)
        ↔ IsAwaited url r asked
  unfolding wait_if_asked
  wait_if_asked-goes url r (inr e) s = (λ h. tt, λ h. refl)
  wait_if_asked-goes url r (inl false) s = (λ h. tt, λ h. refl)
  wait_if_asked-goes url r (inl true) s =
      waited-goes elapsed (wait_for_deploy fuel (polls (url <> deployed_path r))) s

  not_above : (n : ℕ) → (ltb 299 n ≡ false) ↔ (n ≤ 299)
  not_above n = ground arith

  tested-goes :
      (n : ℕ) (m : Cmd W (Unit {0})) (s : Console × W) (P : Type 0)
      → ((m s).0 ≡ goes tt) ↔ P
      → (((if ltb 299 n then exit 1 else m) s).0 ≡ goes tt) ↔ ((n ≤ 299) × P)
  tested-goes n m s P i = elim (Bool-cases (ltb 299 n)) [
    | inl e ↦ rw e (λ h. cc, λ h. cc (e, (not_above n).1 h.0))
    | inr e ↦ rw e (λ h. ((not_above n).0 e, i.0 h), λ h. i.1 h.1)
  ]

  answered_by-goes :
      (url : String) (r : Deploy) (answer : WebAnswer) (s : Console × W)
      → ((answered_by os flags codec fuel polls elapsed url r answer s).0 ≡ goes tt)
        ↔ ((answer.code ≤ 299) × IsAwaited url r (flags.get_bool "wait"))
  unfolding answered_by
  answered_by-goes url r answer (console, w) =
      tested-goes answer.code
        (wait_if_asked os flags codec fuel polls elapsed url r (flags.get_bool "wait")) _
        (IsAwaited url r (flags.get_bool "wait"))
        (wait_if_asked-goes url r (flags.get_bool "wait") _)

  checked-goes :
      (r : Deploy) (es : List GoError) (f : Unit {0} → Cmd W (Unit {0})) (s : Console × W)
      → ((go_on (checked os flags codec fuel polls elapsed r es s) f).0 ≡ goes tt)
        ↔ ((es ≡ []) × ((f tt s).0 ≡ goes tt))
  checked-goes r [] f s = (λ h. (refl, h), λ h. h.1)
  checked-goes r (e ∷ es) f s = (λ h. cc, λ h. cc (h.0))

  -- The request was valid, the cluster known, and the daemon answered the POST with a code up to 299.
  abbrev pub IsPosted : String → Deploy → W → Type 0
  IsPosted cluster r w =
      (validate codec.label_errors r ≡ [])
      × ((url : String) × (get_cluster_url (os.getenv "NAIS_CLUSTER_URL") cluster ≡ ok url)
          × ((json : String) × (codec.marshal r ≡ inl json)
              × ((answer : WebAnswer) × ((os.http_post (url <> deploy_endpoint) "application/json"
                      json w).0
                    ≡ inl answer)
                  × (answer.code ≤ 299)
                  × IsAwaited url r (flags.get_bool "wait"))))

  abbrev posted_at : String → Deploy → String → Cmd W (Unit {0})
  unfolding masked wait_for_deploy
  posted_at url r json = print (codec.print_request (masked r) <> "\n") >>= λ _.
      act (os.http_post (url <> deploy_endpoint) "application/json" json)
      >>= or_exit fail (λ e. "Error while POSTing to API: " <> e.text <> "\n")
      >>= answered_by os flags codec fuel polls elapsed url r

  abbrev marshalled_at : Deploy → String → Cmd W (Unit {0})
  marshalled_at r url =
      or_exit fail (λ e. "Error while marshalling JSON: " <> e.text <> "\n") (codec.marshal r)
      >>= posted_at url r

  abbrev located : String → Deploy → Cmd W (Unit {0})
  located cluster r =
      from_outcome fail url_error (get_cluster_url (os.getenv "NAIS_CLUSTER_URL") cluster)
      >>= marshalled_at r

  posted_at-goes :
      (url : String) (r : Deploy) (json : String) (console : Console) (w : W)
      → ((posted_at url r json (console, w)).0 ≡ goes tt) ↔ (
          (answer : WebAnswer) × ((os.http_post
              (url <> deploy_endpoint)
              "application/json"
              json
              w).0
            ≡ inl answer)
          × (answer.code ≤ 299)
          × IsAwaited url r (flags.get_bool "wait"))
  unfolding posted_at
  posted_at-goes url r json console w = (
    λ h.
        let (answer, p, k) =
          (or_exit-goes _ reply (answered_by os flags codec fuel polls elapsed url r) _ tt).0 h in
        let (low, over) = (answered_by-goes url r answer _).0 k in (answer, p, low, over),
    λ (answer, p, low, over).
        (or_exit-goes _ reply (answered_by os flags codec fuel polls elapsed url r) _ tt).1
          (answer, p, (answered_by-goes url r answer _).1 (low, over)),
  )
    where
      reply : WebAnswer ⊎ GoError
      reply = (os.http_post (url <> deploy_endpoint) "application/json" json w).0

  -- A complete request is deployed, and the command ends well, exactly if the request is valid, the
  -- cluster is known, the daemon answers the POST with a code up to 299, and the wait, if it is asked
  -- for, ends well.
  pub post_request-goes :
      (cluster : String) (r : Deploy) (console : Console) (w : W)
      → ((post_request os flags codec fuel polls elapsed cluster r (console, w)).0 ≡ goes tt)
        ↔ IsPosted cluster r w
  unfolding post_request
  post_request-goes cluster r console w = (
    λ h.
        let (v, h1) =
          (checked-goes r (validate codec.label_errors r) (λ _. located cluster r) (console, w)).0
            h in
        let (url, p, h2) =
          (from_outcome-goes url_error (get_cluster_url (os.getenv "NAIS_CLUSTER_URL") cluster)
              (marshalled_at r) (console, w) tt).0
            h1 in
        let (json, q, h3) =
          (or_exit-goes _ (codec.marshal r) (posted_at url r) (console, w) tt).0 h2 in
        (v, (url, p, (json, q, (posted_at-goes url r json console w).0 h3))),
    λ (v, (url, p, (json, q, x))).
        (checked-goes r (validate codec.label_errors r) (λ _. located cluster r) (console, w)).1 (
          v,
          (from_outcome-goes url_error (get_cluster_url (os.getenv "NAIS_CLUSTER_URL") cluster)
                (marshalled_at r) (console, w) tt).1
              (
                url,
                p,
                (or_exit-goes _ (codec.marshal r) (posted_at url r) (console, w) tt).1
                    (json, q, (posted_at-goes url r json console w).1 x),
              ),
        ),
  )
