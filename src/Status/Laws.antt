-- ===== src/Status/Laws.antt =====
-- Which rollouts count as done, failed or under way (api/deploymentstatus.go).
use nais_api.Kubernetes.Objects.{Condition, Deployment, DeploymentStatus}
use nais_api.Prelude.{
  Bool, List, String, [], arith, eq_iff, false, if◌then◌else◌, not, refl, subst, sym, true, ◌↔◌,
  ◌∷◌, ◌≡◌, ◌⊎◌,
}
use nais_api.Prelude.Int.{ltb_ℤ, ℤ, ◌≤ℤ◌}
use nais_api.Status.{
  DeployStatus, deployment_exceeded_progress_deadline, exceeds_deadline, failed, in_progress,
  rollout, success,
}

-- The cluster has seen the newest specification.
abbrev pub IsObserved : Deployment → Type 0
IsObserved d = d.meta.generation ≤ℤ d.status.observed_generation

-- No fewer than the desired replicas are new, none that runs is old, and the new ones are available.
abbrev pub IsRolledOut : ℤ → Deployment → Type 0
IsRolledOut desired d =
    (desired ≤ℤ d.status.updated_replicas)
    × (d.status.replicas ≤ℤ d.status.updated_replicas)
    × (d.status.updated_replicas ≤ℤ d.status.available_replicas)

abbrev pub IsLate : Deployment → Type 0
IsLate d = deployment_exceeded_progress_deadline d.status ≡ true

-- A condition of the given kind and reason is among the conditions.
abbrev pub HasCondition : String → String → List Condition → Type 0
HasCondition type reason [] = ⊥
HasCondition type reason (c ∷ cs) =
    ((c.type ≡ type) × (c.reason ≡ reason)) ⊎ HasCondition type reason cs

exceeds_deadline_iff :
    (cs : List Condition)
    → (exceeds_deadline cs ≡ true) ↔ HasCondition "Progressing" "ProgressDeadlineExceeded" cs
unfolding exceeds_deadline
exceeds_deadline_iff [] = (λ h. cc, λ h. absurd h)
exceeds_deadline_iff (c ∷ cs) = ground (
  arith,
  eq_iff c.type "Progressing",
  eq_iff c.reason "ProgressDeadlineExceeded",
  exceeds_deadline_iff cs,
)

-- The ladder of tests, over any reasons.
abbrev ladder :
    Bool
    → Bool
    → Bool
    → Bool
    → Bool
    → (String × String × String)
    → (String × String × String)
    → DeployStatus × String
ladder unseen late few old waiting (r1, r2, r3) (r4, r5, r6) =
    if not unseen
    then (if late
        then (failed, r1)
        else if few
        then (in_progress, r2)
        else if old
        then (in_progress, r3)
        else if waiting
        then (in_progress, r4)
        else (success, r5))
    else (in_progress, r6)

ladder-eq_success :
    (unseen late few old waiting : Bool) (r r' : String × String × String)
    → ((ladder unseen late few old waiting r r').0 ≡ success)
      ↔ ((unseen ≡ false) × (late ≡ false) × (few ≡ false) × (old ≡ false) × (waiting ≡ false))
ladder-eq_success unseen late few old waiting r r' = ground arith

ladder-eq_failed :
    (unseen late few old waiting : Bool) (r r' : String × String × String)
    → ((ladder unseen late few old waiting r r').0 ≡ failed) ↔ ((unseen ≡ false) × (late ≡ true))
ladder-eq_failed unseen late few old waiting r r' = ground arith

not_ltb_ℤ : (a b : ℤ) → (ltb_ℤ a b ≡ false) ↔ (b ≤ℤ a)
not_ltb_ℤ a b = ground arith

deadline-eq_false :
    (status : DeploymentStatus)
    → (deployment_exceeded_progress_deadline status ≡ false)
      ↔ (¬ HasCondition "Progressing" "ProgressDeadlineExceeded" status.conditions)
unfolding deployment_exceeded_progress_deadline
deadline-eq_false status = ground (arith, exceeds_deadline_iff status.conditions)

late_iff :
    (status : DeploymentStatus)
    → (deployment_exceeded_progress_deadline status ≡ true)
      ↔ HasCondition "Progressing" "ProgressDeadlineExceeded" status.conditions
unfolding deployment_exceeded_progress_deadline
late_iff status = exceeds_deadline_iff status.conditions

module _ (pointer : String) (quoted : String → String) (desired : ℤ) (d : Deployment) where
  abbrev unseen : Bool
  unseen = ltb_ℤ d.status.observed_generation d.meta.generation

  abbrev late : Bool
  late = deployment_exceeded_progress_deadline d.status

  abbrev few : Bool
  few = ltb_ℤ d.status.updated_replicas desired

  abbrev old : Bool
  old = ltb_ℤ d.status.updated_replicas d.status.replicas

  abbrev waiting : Bool
  waiting = ltb_ℤ d.status.available_replicas d.status.updated_replicas

  rollout-ladder :
      (r r' : String × String × String) × (rollout pointer quoted desired d
        ≡ ladder unseen late few old waiting r r')
  unfolding rollout
  rollout-ladder = ((_, _, _), (_, _, _), refl)

  -- A rollout counts as done exactly if the cluster has seen the newest specification, no condition
  -- says that the deadline was exceeded, at least as many replicas as are desired are new, no more
  -- replicas run than are new, and at least as many are available as are new.
  pub rollout-eq_success : ((rollout pointer quoted desired d).0 ≡ success) ↔ (
      IsObserved d
      × (¬ HasCondition "Progressing" "ProgressDeadlineExceeded" d.status.conditions)
      × IsRolledOut desired d)
  rollout-eq_success =
      let (r, r', e) = rollout-ladder in
      let tests = ladder-eq_success unseen late few old waiting r r' in
      let seen = not_ltb_ℤ d.status.observed_generation d.meta.generation in
      let on_time = deadline-eq_false d.status in
      let enough = not_ltb_ℤ d.status.updated_replicas desired in
      let clean = not_ltb_ℤ d.status.updated_replicas d.status.replicas in
      let ready = not_ltb_ℤ d.status.available_replicas d.status.updated_replicas in
      (
        λ h.
            let (a, b, c, f, g) = tests.0 (rw e at h) in
            (seen.0 a, on_time.0 b, (enough.0 c, clean.0 f, ready.0 g)),
        λ (a, b, (c, f, g)).
            subst (λ v. v.0 ≡ success) (sym e)
              (tests.1 (seen.1 a, on_time.1 b, enough.1 c, clean.1 f, ready.1 g)),
      )

  -- A rollout counts as failed exactly if the cluster has seen the newest specification and a
  -- condition says that the deadline was exceeded.
  pub rollout-eq_failed :
      ((rollout pointer quoted desired d).0 ≡ failed)
      ↔ (IsObserved d × HasCondition "Progressing" "ProgressDeadlineExceeded" d.status.conditions)
  rollout-eq_failed =
      let (r, r', e) = rollout-ladder in
      let tests = ladder-eq_failed unseen late few old waiting r r' in
      let seen = not_ltb_ℤ d.status.observed_generation d.meta.generation in
      (
        λ h. let (a, b) = tests.0 (rw e at h) in (seen.0 a, (late_iff d.status).0 b),
        λ (a, b). subst (λ v. v.0 ≡ failed) (sym e) (tests.1 (seen.1 a, (late_iff d.status).1 b)),
      )
