-- ===== src/Api/Deployed.antt =====
-- What stands behind the answer to a deployment (api/api.go).
use nais_api.Api.{Handler, Server, as_outcome, has_resources, on_network, spec_of}
use nais_api.Api.Answers.{
  Answers, and_left-Post, left-Post, of_returned, on_cluster-Post, on_fasit-Post, or_fail-Answers,
  returned-Post,
}
use nais_api.Api.Deployment.{
  World, announced, applied, apply_resources, classified, deploy_request, fetched, registered,
  with_resources,
}
use nais_api.Api.Told.{all_of, create_response-told, told_of, warning_of}
use nais_api.Creator.Apply.{DeploymentResult, create_or_update_k8s_resources}
use nais_api.Creator.Apply.Laws.{IsAsRequested, create_or_update_k8s_resources-IsAsRequested}
use nais_api.Fasit.{NaisResource}
use nais_api.Fasit.Sync.{fetch_fasit_resources}
use nais_api.Kubernetes.Cluster.{Cluster}
use nais_api.Manifest.{NaisManifest}
use nais_api.Manifest.Download.{
  Generated, generate_manifest, generated, invalid, not_downloaded, not_merged, panicked,
}
use nais_api.Prelude.{
  Bool-cases, List, String, [], false, inl, inr, not, refl, subst, sym, true, ◌&&◌, ◌<>◌, ◌==◌, ◌∙◌,
  ◌≡◌, ◌⊎◌,
}
use nais_api.Prelude.Int.{pos, ℤ}
use nais_api.Prelude.Keeps.{Post}
use nais_api.Prelude.Outcome.{M, Outcome, err, ok, panic}
use nais_api.Request.{Deploy}

module _ {F N : Type 0} (c : Cluster) (server : Server c F N) where
  pub generated-Post :
      (r : Deploy) (w : World c server) (g : Generated)
      → Post (as_outcome server.multierror g, w) (λ m _. g ≡ generated m)
  generated-Post r w (generated m) = refl
  generated-Post r w (not_downloaded es) = tt
  generated-Post r w (not_merged e) = tt
  generated-Post r w (invalid es) = tt
  generated-Post r w panicked = tt

  -- None if the request skips Fasit, and else those that Fasit gave for what the manifest uses.
  abbrev pub AreFetched : Deploy → NaisManifest → List NaisResource → Type 0
  AreFetched r m resources =
      ((r.skip_fasit ≡ true) × (resources ≡ []))
      ⊎ ((r.skip_fasit ≡ false)
          × ((f f' : F) × (fetch_fasit_resources (server.fasit r.fasit_username r.fasit_password)
                  r.application r.fasit_environment r.zone m.fasit_resources.used f
                ≡ (ok resources, f'))))

  -- The objects were made in the cluster as it was before, which is now as this left it.
  abbrev pub AreMade :
      Deploy → NaisManifest → List NaisResource → c.State → DeploymentResult → c.State → Type 0
  AreMade r m resources s d t =
      create_or_update_k8s_resources c server.platform server.marshal
        (record { application = r.application; namespace = r.namespace; team = m.team }) r m
        resources server.cluster_subdomain server.istio_enabled s
      ≡ (ok d, t)

  -- What stands behind a response to a deployment that is written.
  abbrev pub IsDeployed : Deploy → c.State → ℤ → String → World c server → Type 0
  IsDeployed r s code body w =
      (code ≡ pos 200)
      × ((m : NaisManifest) × (resources : List NaisResource) × (d : DeploymentResult)
          × (generate_manifest server.outside r ≡ generated m)
          × AreFetched r m resources
          × AreMade r m resources s d w.0
          × IsAsRequested m d
          × (body ≡ "result: \n" <> (all_of (told_of d) <> warning_of r.environment)))

  module _ (r : Deploy) (m : NaisManifest) (s : c.State) (Q : ℤ → String → World c server → Type 0)
      (next : List NaisResource × String → Handler (World c server))
      (k : (x : List NaisResource × String) (w : World c server)
        → w.0 ≡ s
        → AreFetched r m x.0
        → Answers (next x w) Q) where
    fetched-Answers :
        (class : String) (w : World c server)
        → w.0 ≡ s
        → r.skip_fasit ≡ false
        → Answers (fetched c server r m class w next) Q
    fetched-Answers class (s', (f, n)) still asked =
        or_fail-Answers (λ resources t. (t.0 ≡ s') × Fetched resources) Q _ _ _ _
          (on_fasit-Post Fetched (fetch f) s' n (given (fetch f) refl))
          λ resources w1 (still1, (f', e)).
            k (resources, class) w1 (still1 ∙ still) (inr (asked, (f, f', e)))
      where
        fetch : M F (List NaisResource)
        fetch =
            fetch_fasit_resources (server.fasit r.fasit_username r.fasit_password) r.application
              r.fasit_environment r.zone m.fasit_resources.used

        Fetched : List NaisResource → Type 0
        Fetched resources = (f' : F) × (fetch f ≡ (ok resources, f'))

        given : (o : Outcome (List NaisResource) × F) → fetch f ≡ o → Post o (λ a _. Fetched a)
        given (ok a, f') e = (f', e)
        given (err x, f') e = tt
        given (panic, f') e = tt

    classified-Answers :
        (w : World c server)
        → w.0 ≡ s
        → r.skip_fasit ≡ false
        → Answers (classified c server r m w next) Q
    classified-Answers w still asked = elim (Bool-cases (r.fasit_environment == "")) [
      | inl e ↦ rw e tt
      | inr e ↦ rw e (
          or_fail-Answers (λ _ t. t.0 ≡ s) Q _ _ _ _ (left-Post (λ t. t.0 ≡ s) _ still)
            λ _ w1 still1.
              or_fail-Answers (λ _ t. t.0 ≡ s) Q _ _ _ _ (left-Post (λ t. t.0 ≡ s) _ still1)
                λ class w2 still2. fetched-Answers class w2 still2 asked)
    ]

    with_resources-Answers :
        (w : World c server) → w.0 ≡ s → Answers (with_resources c server r m w next) Q
    with_resources-Answers w still = elim (Bool-cases r.skip_fasit) [
      | inl e ↦ rw e (k ([], "") w still (inl (e, refl)))
      | inr e ↦ elim (Bool-cases (has_resources m)) [
        | inl h ↦ rw (e, h) (classified-Answers w still e)
        | inr h ↦ rw (e, h) (fetched-Answers "" w still e)
      ]
    ]

  pub registered_cluster :
      (r : Deploy) (m : NaisManifest) (resources : List NaisResource) (class : String)
      (w : World c server)
      → (registered c server r m resources class w).1.0 ≡ w.0
  registered_cluster r m resources class w =
      elim (Bool-cases (not r.skip_fasit && has_resources m)) [
        | inl e ↦ rw e refl
        | inr e ↦ rw e refl
      ]

  module _ (r : Deploy) (s : c.State) where
    apply_resources-IsDeployed :
        (m : NaisManifest) (x : List NaisResource × String) (w : World c server)
        → generate_manifest server.outside r ≡ generated m
        → AreFetched r m x.0
        → w.0 ≡ s
        → Answers (apply_resources c server r m x w) (IsDeployed r s)
    unfolding apply_resources
    apply_resources-IsDeployed m x w hm hx still =
        or_fail-Answers (λ d t. AreMade r m x.0 w.0 d t.0) (IsDeployed r s) _ _
          (applied c server r m x.0 w) _
          (on_cluster-Post (AreMade r m x.0 w.0) (create w.0) w.1 (returned-Post (create w.0)))
          λ d w1 hd.
            or_fail-Answers (λ _ t. t.0 ≡ w1.0) (IsDeployed r s) _ _
              (registered c server r m x.0 x.1 w1) _
              (left-Post (λ t. t.0 ≡ w1.0) (registered c server r m x.0 x.1 w1)
                (registered_cluster r m x.0 x.1 w1))
              λ _ w2 still2.
                or_fail-Answers (λ _ t. t.0 ≡ w2.0) (IsDeployed r s) _ _
                  (on_network (announced c server r m) w2) _
                  (left-Post (λ t. t.0 ≡ w2.0) (on_network (announced c server r m) w2) refl)
                  λ _ w3 still3. (
                    refl,
                    (
                      m,
                      x.0,
                      d,
                      hm,
                      hx,
                      subst (λ v. AreMade r m x.0 v d w3.0) still
                          (subst (AreMade r m x.0 w.0 d) (sym (still3 ∙ still2)) hd),
                      of_returned (create w.0) (λ d _. IsAsRequested m d) d w1.0 (as_requested w.0)
                          hd,
                      create_response-told d r,
                    ),
                  )
      where
        create : M c.State DeploymentResult
        create =
            create_or_update_k8s_resources c server.platform server.marshal (spec_of r m) r m x.0
              server.cluster_subdomain server.istio_enabled

        as_requested : (v : c.State) → Post (create v) (λ d _. IsAsRequested m d)
        as_requested =
            create_or_update_k8s_resources-IsAsRequested c server.platform server.marshal
              (spec_of r m) r m x.0 server.cluster_subdomain server.istio_enabled

    pub deploy_request-IsDeployed :
        (w : World c server) → w.0 ≡ s → Answers (deploy_request c server r w) (IsDeployed r s)
    unfolding deploy_request
    deploy_request-IsDeployed w still =
        or_fail-Answers (λ m t. IsFrom m × (t.0 ≡ s)) (IsDeployed r s) _ _ outcome _
          (and_left-Post IsFrom (λ (t : World c server). t.0 ≡ s) outcome
            (generated-Post r w (generate_manifest server.outside r)) still)
          λ m w1 (hm, still1).
            with_resources-Answers r m s (IsDeployed r s) (apply_resources c server r m)
              (λ x w2 still2 hx. apply_resources-IsDeployed m x w2 hm hx still2) w1 still1
      where
        IsFrom : NaisManifest → Type 0
        IsFrom m = generate_manifest server.outside r ≡ generated m

        outcome : Outcome NaisManifest × World c server
        outcome = (as_outcome server.multierror (generate_manifest server.outside r), w)
