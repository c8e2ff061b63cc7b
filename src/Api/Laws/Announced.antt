-- ===== src/Api/Laws/Announced.antt =====
-- Which deployments are announced to Sensu and as events (api/api.go).
use nais_api.Api.{
  Handler, Response, Server, completed, failure, has_resources, or_fail, spec_of, written,
}
use nais_api.Api.Deployed.{generated-Post}
use nais_api.Api.Deployment.{
  World, admitted, announced, applied, apply_resources, classified, deploy, deploy_request,
  event_of, fetched, registered, unauthenticated, with_resources,
}
use nais_api.AppError.{AppError}
use nais_api.Creator.Apply.Laws.{Post-any}
use nais_api.Fasit.{NaisResource}
use nais_api.Kubernetes.Cluster.{Cluster}
use nais_api.Manifest.{NaisManifest}
use nais_api.Manifest.Download.{generate_manifest, generated}
use nais_api.Prelude.{
  Bool-cases, List, Option, String, [], inl, inr, none, not, refl, some, subst, sym, ℕ, ◌&&◌, ◌==◌,
  ◌∙◌, ◌≡◌, ◌⊎◌,
}
use nais_api.Prelude.Int.{pos}
use nais_api.Prelude.Keeps.{Post}
use nais_api.Prelude.Outcome.{Outcome, continue, err, ok, panic}
use nais_api.Request.{Deploy}
use nais_api.Sensu.{notify_sensu_about_deploy}
use nais_api.Sensu.Laws.{notify_sensu_about_deploy_cases}

module _ {F N : Type 0} (c : Cluster) (server : Server c F N) where
  -- The network after Sensu and the handler of events have been told.
  abbrev pub told : Deploy → NaisManifest → N → N
  told r m n =
      let n1 =
        (notify_sensu_about_deploy server.socket (spec_of r m) r server.cluster_name (server.now n)
          n).1 in
      server.deployment_event_handler (event_of c server r m n1) n1

  -- With a status, the network ends as `D` says, and with an error it is still `n`.
  abbrev pub Ends : (N → Type 0) → N → Outcome Response × World c server → Type 0
  Ends D n (ok (written code body), w) = D w.1.1
  Ends D n (ok (failure e), w) = w.1.1 ≡ n
  Ends D n (err e, w) = Unit
  Ends D n (panic, w) = Unit

  pub Ends-map :
      {D E : N → Type 0} (f : (n : N) → D n → E n) (n : N) (o : Outcome Response × World c server)
      → Ends D n o
      → Ends E n o
  Ends-map f n (ok (written code body), w) h = f w.1.1 h
  Ends-map f n (ok (failure e), w) h = h
  Ends-map f n (err e, w) h = tt
  Ends-map f n (panic, w) h = tt

  -- Sensu and the handler of events were told, with the manifest of the request.
  abbrev pub IsTold : Deploy → N → N → Type 0
  IsTold r n k =
      (m : NaisManifest) × (generate_manifest server.outside r ≡ generated m) × (k ≡ told r m n)

  module _ (n : N) (D : N → Type 0) where
    or_fail-Ends :
        {A : Type 0} (P : A → Type 0) (message : String) (code : ℕ) (o : Outcome A × World c server)
        (next : A → Handler (World c server))
        → Post o (λ a _. P a)
        → o.1.1.1 ≡ n
        → ((a : A) (w : World c server) → P a → w.1.1 ≡ n → Ends D n (next a w))
        → Ends D n (or_fail message code o next)
    unfolding or_fail
    or_fail-Ends P message code (ok a, w) next p h k = k a w p h
    or_fail-Ends P message code (err e, w) next p h k = h
    or_fail-Ends P message code (panic, w) next p h k = tt

    -- The steps before the announcement leave the network alone.
    step-Ends :
        {A : Type 0} (message : String) (code : ℕ) (o : Outcome A × World c server)
        (next : A → Handler (World c server))
        → o.1.1.1 ≡ n
        → ((a : A) (w : World c server) → w.1.1 ≡ n → Ends D n (next a w))
        → Ends D n (or_fail message code o next)
    step-Ends message code o next h k =
        or_fail-Ends (λ _. Unit) message code o next (Post-any o) h (λ a w _. k a w)

    fetched-Ends :
        (r : Deploy) (m : NaisManifest) (class : String) (w : World c server)
        (next : List NaisResource × String → Handler (World c server))
        → w.1.1 ≡ n
        → ((x : List NaisResource × String) (w : World c server) → w.1.1 ≡ n → Ends D n (next x w))
        → Ends D n (fetched c server r m class w next)
    fetched-Ends r m class w next h k =
        step-Ends _ _ _ _ h λ resources w1 h1. k (resources, class) w1 h1

    classified-Ends :
        (r : Deploy) (m : NaisManifest) (w : World c server)
        (next : List NaisResource × String → Handler (World c server))
        → w.1.1 ≡ n
        → ((x : List NaisResource × String) (w : World c server) → w.1.1 ≡ n → Ends D n (next x w))
        → Ends D n (classified c server r m w next)
    classified-Ends r m w next h k = elim (Bool-cases (r.fasit_environment == "")) [
      | inl e ↦ rw e h
      | inr e ↦ rw e (
          step-Ends _ _ _ _ h
            λ _ w1 h1. step-Ends _ _ _ _ h1 λ class w2 h2. fetched-Ends r m class w2 next h2 k)
    ]

    with_resources-Ends :
        (r : Deploy) (m : NaisManifest) (w : World c server)
        (next : List NaisResource × String → Handler (World c server))
        → w.1.1 ≡ n
        → ((x : List NaisResource × String) (w : World c server) → w.1.1 ≡ n → Ends D n (next x w))
        → Ends D n (with_resources c server r m w next)
    with_resources-Ends r m w next h k = elim (Bool-cases r.skip_fasit) [
      | inl e ↦ rw e (k ([], "") w h)
      | inr e ↦ elim (Bool-cases (has_resources m)) [
        | inl g ↦ rw (e, g) (classified-Ends r m w next h k)
        | inr g ↦ rw (e, g) (fetched-Ends r m "" w next h k)
      ]
    ]

  registered_network :
      (r : Deploy) (m : NaisManifest) (resources : List NaisResource) (class : String)
      (w : World c server)
      → (registered c server r m resources class w).1.1.1 ≡ w.1.1
  registered_network r m resources class w =
      elim (Bool-cases (not r.skip_fasit && has_resources m)) [
        | inl e ↦ rw e refl
        | inr e ↦ rw e refl
      ]

  module _ (r : Deploy) (n : N) where
    continued_cases :
        (o : Outcome (Unit {0}) × N) (g : N → N)
        → (o.0 ≡ ok tt) ⊎ (o.0 ≡ panic)
        → (continue o (λ _ k. (ok tt, g k)) ≡ (ok tt, g o.1))
          ⊎ ((continue {B = Unit {0}} o (λ _ k. (ok tt, g k))).0 ≡ panic)
    continued_cases (ok u, k) g h = inl refl
    continued_cases (err e, k) g h = elim h [ inl p ↦ cc | inr p ↦ cc ]
    continued_cases (panic, k) g h = inr refl

    announced_cases :
        (m : NaisManifest)
        → (announced c server r m n ≡ (ok tt, told r m n)) ⊎ ((announced c server r m n).0 ≡ panic)
    unfolding announced
    announced_cases m =
        continued_cases
          (notify_sensu_about_deploy server.socket (spec_of r m) r server.cluster_name
            (server.now n) n)
          (λ k. server.deployment_event_handler (event_of c server r m k) k)
          (notify_sensu_about_deploy_cases server.socket (spec_of r m) r server.cluster_name
            (server.now n) n)

    answered-Ends :
        (m : NaisManifest) (body : String) (a : Outcome (Unit {0}) × N) (s : c.State) (f : F)
        → generate_manifest server.outside r ≡ generated m
        → (a ≡ (ok tt, told r m n)) ⊎ (a.0 ≡ panic)
        → Ends
            (IsTold r n)
            n
            (or_fail "" 500 (a.0, (s, (f, a.1))) λ _ w. (ok (written (pos 200) body), w))
    unfolding or_fail
    answered-Ends m body (ok u, k) s f g h = elim h [ inl p ↦ (m, g, cc p) | inr p ↦ cc ]
    answered-Ends m body (err e, k) s f g h = elim h [ inl p ↦ cc | inr p ↦ cc ]
    answered-Ends m body (panic, k) s f g h = tt

    apply_resources-Ends :
        (m : NaisManifest) (x : List NaisResource × String) (w : World c server)
        → generate_manifest server.outside r ≡ generated m
        → w.1.1 ≡ n
        → Ends (IsTold r n) n (apply_resources c server r m x w)
    unfolding apply_resources
    apply_resources-Ends m x w g h =
        step-Ends n (IsTold r n) _ _ (applied c server r m x.0 w) _ h λ d w1 h1.
          step-Ends n (IsTold r n) _ _ (registered c server r m x.0 x.1 w1) _
            (registered_network r m x.0 x.1 w1 ∙ h1)
            λ _ w2 h2. answered-Ends m _ (announced c server r m w2.1.1) w2.0 w2.1.0 g (
              subst
                (λ k.
                  (announced c server r m k ≡ (ok tt, told r m n))
                  ⊎ ((announced c server r m k).0 ≡ panic))
                (sym h2) (announced_cases m))

    deploy_request-Ends :
        (w : World c server) → w.1.1 ≡ n → Ends (IsTold r n) n (deploy_request c server r w)
    unfolding deploy_request
    deploy_request-Ends w h =
        or_fail-Ends n (IsTold r n) (λ m. generate_manifest server.outside r ≡ generated m) _ _ _ _
          (generated-Post c server r w (generate_manifest server.outside r)) h
          λ m w1 g h1.
            with_resources-Ends n (IsTold r n) r m w1 (apply_resources c server r m) h1
              λ x w2 h2. apply_resources-Ends m x w2 g h2

  -- A deployment that is answered with a status was announced to Sensu and as an event, with the
  -- manifest of its request; one that is answered with an error was not.
  pub deploy-Ends :
      (r : Deploy) (user : String × String) (w : World c server)
      → Ends (IsTold (completed server.cluster_name r) w.1.1) w.1.1 (deploy c server (inl r) user w)
  unfolding deploy
  deploy-Ends r user w = go (unauthenticated c server user)
    where
      go :
          (e : Option AppError)
          → Ends
              (IsTold (completed server.cluster_name r) w.1.1)
              w.1.1
              (admitted c server e (inl r) w)
      go (some e) = refl
      go none = deploy_request-Ends (completed server.cluster_name r) w.1.1 w refl
