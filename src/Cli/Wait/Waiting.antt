-- ===== src/Cli/Wait/Waiting.antt =====
-- The command that waits, from its flags to its exit code (cli/cmd/wait.go).
use mathlib.Core.List.{Permᴰ}
use nais_api.Cli.{
  PollReply, Waited, deployed, gave_up, get_cluster_url, still_waiting, wait_for_deploy,
}
use nais_api.Cli.Laws.{IsDoneAt, wait_for_deploy-eq_deployed}
use nais_api.Cli.Shell.{Cmd, Console, Flags, Os, Stored, goes}
use nais_api.Cli.Shell.Laws.{from_outcome-goes}
use nais_api.Cli.Shell.Reading.{read_flags-goes, stored}
use nais_api.Cli.Wait.{
  WaitOptions, flag_error, status_path, url_error, wait_command, wait_flags, wait_with, waited,
  waited_path, waiting_at,
}
use nais_api.Cli.Wait.Options.{no_options, stored-eq_some}
use nais_api.Prelude.{
  Bool-cases, List, String, eq_iff, inl, inr, refl, some, ℕ, ◌<>◌, ◌<◌, ◌==◌, ◌↔◌, ◌≡◌, ◌≢◌,
}
use nais_api.Prelude.Outcome.{Outcome, ok}

module _ {W : Type 0} where
  pub waited-goes :
      (elapsed : String) (o : Waited) (s : Console × W)
      → ((waited elapsed o s).0 ≡ goes tt) ↔ (o ≡ deployed)
  waited-goes elapsed deployed s = (λ h. refl, λ h. refl)
  waited-goes elapsed still_waiting s = (λ h. cc, λ h. cc)
  waited-goes elapsed (gave_up e) s = (λ h. cc, λ h. cc)

module _ {W : Type 0} (os : Os W) (flags : Flags) (fuel : ℕ) (polls : String → ℕ → PollReply)
    (elapsed : String) where
  -- The three flags can be read, there is an application, the cluster is known, and its daemon says
  -- in time that the deployment is done.
  pub record IsWaited : Type 0 where
    pub app : String
    pub namespace : String
    pub cluster : String
    pub url : String
    pub rounds : ℕ
    pub app_read : flags.get_string "app" ≡ inl app
    pub namespace_read : flags.get_string "namespace" ≡ inl namespace
    pub cluster_read : flags.get_string "cluster" ≡ inl cluster
    pub app_given : app ≢ ""
    pub url_known : get_cluster_url (os.getenv "NAIS_CLUSTER_URL") cluster ≡ ok url
    pub in_time : rounds < fuel
    pub is_done : IsDoneAt (polls (url <> status_path namespace app)) rounds

  -- With the options that are stored: an application, a known cluster, and a daemon that says in time
  -- that the deployment is done.
  abbrev Reaches : WaitOptions → Type 0
  Reaches o =
      (o.app ≢ "")
      × ((url : String) × (get_cluster_url (os.getenv "NAIS_CLUSTER_URL") o.cluster ≡ ok url)
          × (wait_for_deploy fuel (polls (url <> waited_path o)) ≡ deployed))

  wait_with-goes :
      (o : WaitOptions) (s : Console × W)
      → ((wait_with os flags fuel polls elapsed o s).0 ≡ goes tt) ↔ Reaches o
  unfolding wait_with get_cluster_url wait_for_deploy
  wait_with-goes o s = elim (Bool-cases (o.app == "")) [
    | inl p ↦ rw p (λ h. cc, λ (given, _). absurd (given ((eq_iff o.app "").0 p)))
    | inr p ↦ rw p (
      λ h.
          let (url, q, h1) = (from_outcome-goes url_error located (at o) s tt).0 h in
          (λ e. cc (p, (eq_iff o.app "").1 e), (url, q, (waited-goes elapsed _ s).0 h1)),
      λ (given, (url, q, h)).
          (from_outcome-goes url_error located (at o) s tt).1
            (url, q, (waited-goes elapsed _ s).1 h),
    )
  ]
    where
      located : Outcome String
      located = get_cluster_url (os.getenv "NAIS_CLUSTER_URL") o.cluster

      at : WaitOptions → String → Cmd W (Unit {0})
      at o url = waiting_at fuel polls elapsed (url <> waited_path o)

  IsWaited-eq :
      (order : List (Stored WaitOptions))
      → Permᴰ order wait_flags
      → ((o : WaitOptions) × (stored flags order no_options ≡ some o) × Reaches o) ↔ IsWaited
  IsWaited-eq order p = (
    λ (o, q, (given, (url, known, h))).
        let (app_is, namespace_is, cluster_is) = (stored-eq_some flags order p o).0 q in
        let (n, soon, ended) =
          (wait_for_deploy-eq_deployed fuel (polls (url <> waited_path o))).0 h in
        record {
          app = o.app;
          namespace = o.namespace;
          cluster = o.cluster;
          url = url;
          rounds = n;
          app_read = app_is;
          namespace_read = namespace_is;
          cluster_read = cluster_is;
          app_given = given;
          url_known = known;
          in_time = soon;
          is_done = ended;
        },
    λ w.
        let o : WaitOptions = record {
          app = w.app;
          namespace = w.namespace;
          cluster = w.cluster;
        } in
        (
          o,
          (stored-eq_some flags order p o).1 (w.app_read, w.namespace_read, w.cluster_read),
          (
            w.app_given,
            (
              w.url,
              w.url_known,
              (wait_for_deploy-eq_deployed fuel (polls (w.url <> waited_path o))).1
                  (w.rounds, w.in_time, w.is_done),
            ),
          ),
        ),
  )

  -- In whatever order the flags are read, the command ends well exactly if all three can be read, there
  -- is an application, the cluster is known, and so many rounds of the wait meet answers with 202 and
  -- then one with 200.
  pub wait_command-goes :
      (order : List (Stored WaitOptions))
      → Permᴰ order wait_flags
      → (s : Console × W)
      → ((wait_command os flags fuel polls elapsed order s).0 ≡ goes tt) ↔ IsWaited
  unfolding wait_command
  wait_command-goes order p s =
      let (there, back) =
        read_flags-goes flags flag_error order no_options (wait_with os flags fuel polls elapsed) s
          tt in
      let (gives, takes) = IsWaited-eq order p in
      (
        λ h. let (o, q, r) = there h in gives (o, q, (wait_with-goes o s).0 r),
        λ w. let (o, q, r) = takes w in back (o, q, (wait_with-goes o s).1 r),
      )
