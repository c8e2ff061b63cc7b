-- ===== src/Api/Skipping.antt =====
-- Requests that skip Fasit (api/api.go).
use nais_api.Api.{Handler, Response, Server, as_outcome, on_network, or_fail}
use nais_api.Api.Deployment.{
  World, announced, applied, apply_resources, deploy_request, registered, with_resources,
}
use nais_api.Fasit.{NaisResource}
use nais_api.Kubernetes.Cluster.{Cluster}
use nais_api.Manifest.{NaisManifest}
use nais_api.Manifest.Download.{generate_manifest}
use nais_api.Prelude.{List, String, [], ap, refl, subst, true, ℕ, ◌∙◌, ◌≡◌}
use nais_api.Prelude.Outcome.{Outcome, err, ok, panic}
use nais_api.Request.{Deploy}

module _ {F N : Type 0} (c : Cluster) (server : Server c F N) where
  -- Fasit's state is left as `f`.
  record LeavesFasit (f : F) (o : Outcome Response × World c server) : Type 0 where
    pub same : o.1.1.0 ≡ f

  or_fail-LeavesFasit :
      {A : Type 0} (f : F) (message : String) (code : ℕ) (o : Outcome A × World c server)
      (next : A → Handler (World c server))
      → o.1.1.0 ≡ f
      → ((a : A) (w : World c server) → w.1.0 ≡ f → LeavesFasit f (next a w))
      → LeavesFasit f (or_fail message code o next)
  unfolding or_fail
  or_fail-LeavesFasit f message code (ok a, w) next h k = k a w h
  or_fail-LeavesFasit f message code (err e, w) next h k = record { same = h }
  or_fail-LeavesFasit f message code (panic, w) next h k = record { same = h }

  registered-skipped :
      (r : Deploy) (m : NaisManifest) (resources : List NaisResource) (class : String)
      (w : World c server)
      → r.skip_fasit ≡ true
      → (registered c server r m resources class w).1 ≡ w
  registered-skipped r m resources class w skip = rw skip refl

  apply_resources-LeavesFasit :
      (r : Deploy) (m : NaisManifest) (x : List NaisResource × String) (f : F) (w : World c server)
      → r.skip_fasit ≡ true
      → w.1.0 ≡ f
      → LeavesFasit f (apply_resources c server r m x w)
  unfolding apply_resources
  apply_resources-LeavesFasit r m x f w skip h =
      or_fail-LeavesFasit f _ _ (applied c server r m x.0 w) _ h λ d w1 h1.
        or_fail-LeavesFasit f _ _ (registered c server r m x.0 x.1 w1) _
          (ap (λ (v : World c server). v.1.0) (registered-skipped r m x.0 x.1 w1 skip) ∙ h1)
          λ _ w2 h2.
            or_fail-LeavesFasit f _ _ (on_network (announced c server r m) w2) _ h2
              λ _ w3 h3. record { same = h3 }

  with_resources-skipped :
      (r : Deploy) (m : NaisManifest) (w : World c server)
      (next : List NaisResource × String → Handler (World c server))
      → r.skip_fasit ≡ true
      → next ([], "") w ≡ with_resources c server r m w next
  with_resources-skipped r m w next skip = rw skip refl

  pub deploy_request-skips_fasit :
      (r : Deploy) (w : World c server)
      → r.skip_fasit ≡ true
      → (deploy_request c server r w).1.1.0 ≡ w.1.0
  unfolding deploy_request
  deploy_request-skips_fasit r w skip =
      (or_fail-LeavesFasit w.1.0 _ _
        (as_outcome server.multierror (generate_manifest server.outside r), w) _ refl
        λ m w1 h1.
          subst (LeavesFasit w.1.0)
            (with_resources-skipped r m w1 (apply_resources c server r m) skip)
            (apply_resources-LeavesFasit r m ([], "") w.1.0 w1 skip h1)).same
