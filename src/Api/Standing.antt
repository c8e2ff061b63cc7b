-- ===== src/Api/Standing.antt =====
-- What a deployment leaves in the cluster (api/api.go).
use nais_api.Api.{
  Handler, Response, Server, as_outcome, completed, failure, has_resources, on_network, or_fail,
  spec_of, written,
}
use nais_api.Api.Deployed.{registered_cluster}
use nais_api.Api.Deployment.{
  World, admitted, announced, applied, apply_resources, classified, deploy, deploy_request, fetched,
  registered, unauthenticated, with_resources,
}
use nais_api.Api.Handlers.{deployment_status_handler, status_response}
use nais_api.App.{resource_name}
use nais_api.AppError.{AppError}
use nais_api.Creator.Apply.{create_or_update_k8s_resources}
use nais_api.Creator.Apply.Laws.{Post-any}
use nais_api.Creator.Apply.Standing.{create_or_update_k8s_resources-Standing}
use nais_api.Fasit.{NaisResource}
use nais_api.Kubernetes.Cluster.{Cluster, IsPresent, Presence}
use nais_api.Kubernetes.Objects.{Deployment, deployments}
use nais_api.Manifest.{NaisManifest}
use nais_api.Manifest.Download.{generate_manifest}
use nais_api.Prelude.{
  Bool-cases, List, Option, String, [], inl, inr, none, refl, some, subst, sym, ℕ, ◌==◌, ◌≡◌, ◌≢◌,
}
use nais_api.Prelude.Int.{ℤ}
use nais_api.Prelude.Keeps.{Post}
use nais_api.Prelude.Outcome.{Outcome, err, ok, panic}
use nais_api.Request.{Deploy}
use nais_api.Status.{DeploymentStatusView, deployment_status_and_view, deployment_status_view}

module _ {F N : Type 0} (c : Cluster) (api : Presence c) (server : Server c F N) where
  -- The condition on the state after a response that was written.
  abbrev pub Leaves : (World c server → Type 0) → Outcome Response × World c server → Type 0
  Leaves Q (ok (written code body), w) = Q w
  Leaves Q (ok (failure e), w) = Unit
  Leaves Q (err e, w) = Unit
  Leaves Q (panic, w) = Unit

  Leaves-map :
      (Q Q' : World c server → Type 0)
      → ((w : World c server) → Q w → Q' w)
      → (o : Outcome Response × World c server) → Leaves Q o
      → Leaves Q' o
  Leaves-map Q Q' f (ok (written code body), w) h = f w h
  Leaves-map Q Q' f (ok (failure e), w) h = tt
  Leaves-map Q Q' f (err e, w) h = tt
  Leaves-map Q Q' f (panic, w) h = tt

  module _ (Q : World c server → Type 0) where
    or_fail-Leaves :
        {A : Type 0} (P : A → World c server → Type 0) (message : String) (code : ℕ)
        (o : Outcome A × World c server) (next : A → Handler (World c server))
        → Post o P
        → ((a : A) (w : World c server) → P a w → Leaves Q (next a w))
        → Leaves Q (or_fail message code o next)
    unfolding or_fail
    or_fail-Leaves P message code (ok a, w) next h k = k a w h
    or_fail-Leaves P message code (err e, w) next h k = tt
    or_fail-Leaves P message code (panic, w) next h k = tt

    then_Leaves :
        {A : Type 0} (message : String) (code : ℕ) (o : Outcome A × World c server)
        (next : A → Handler (World c server))
        → ((a : A) (w : World c server) → Leaves Q (next a w))
        → Leaves Q (or_fail message code o next)
    then_Leaves message code o next k =
        or_fail-Leaves (λ _ _. Unit) message code o next (Post-any o) (λ a w _. k a w)

    module _ (r : Deploy) (m : NaisManifest)
        (next : List NaisResource × String → Handler (World c server))
        (k : (x : List NaisResource × String) (w : World c server) → Leaves Q (next x w)) where
      fetched-Leaves :
          (class : String) (w : World c server) → Leaves Q (fetched c server r m class w next)
      fetched-Leaves class w = then_Leaves _ _ _ _ λ resources w1. k (resources, class) w1

      classified-Leaves : (w : World c server) → Leaves Q (classified c server r m w next)
      classified-Leaves w = elim (Bool-cases (r.fasit_environment == "")) [
        | inl e ↦ rw e tt
        | inr e ↦
            rw e
              (then_Leaves _ _ _ _ λ _ w1. then_Leaves _ _ _ _ λ class w2. fetched-Leaves class w2)
      ]

      with_resources-Leaves : (w : World c server) → Leaves Q (with_resources c server r m w next)
      with_resources-Leaves w = elim (Bool-cases r.skip_fasit) [
        | inl e ↦ rw e (k ([], "") w)
        | inr e ↦ elim (Bool-cases (has_resources m)) [
          | inl g ↦ rw (e, g) (classified-Leaves w)
          | inr g ↦ rw (e, g) (fetched-Leaves "" w)
        ]
      ]

  module _ (r : Deploy) where
    abbrev pub Stands : World c server → Type 0
    Stands w = IsPresent c deployments r.namespace r.application w.0

    applied-Post :
        (m : NaisManifest) (resources : List NaisResource) (w : World c server)
        → Post (applied c server r m resources w) (λ _ t. Stands t)
    unfolding resource_name
    applied-Post m resources w =
        on_cluster_state
          (create_or_update_k8s_resources c server.platform server.marshal (spec_of r m) r m
            resources server.cluster_subdomain server.istio_enabled w.0)
          w.1
          (create_or_update_k8s_resources-Standing c api server.platform server.marshal
            (spec_of r m) r m resources server.cluster_subdomain server.istio_enabled w.0)
      where
        on_cluster_state :
            {A : Type 0} (o : Outcome A × c.State) (x : F × N)
            → Post o (λ _ t. IsPresent c deployments r.namespace r.application t)
            → Post {S = World c server} (o.0, (o.1, x)) (λ _ t. Stands t)
        on_cluster_state (ok a, s) x h = h
        on_cluster_state (err e, s) x h = tt
        on_cluster_state (panic, s) x h = tt

    -- A step that leaves the cluster alone.
    still-Post :
        {A : Type 0} (o : Outcome A × World c server) (w : World c server)
        → o.1.0 ≡ w.0
        → Stands w
        → Post o (λ _ t. Stands t)
    still-Post (ok a, t) w unchanged h =
        subst (λ s. IsPresent c deployments r.namespace r.application s) (sym unchanged) h
    still-Post (err e, t) w unchanged h = tt
    still-Post (panic, t) w unchanged h = tt

    apply_resources-Leaves :
        (m : NaisManifest) (x : List NaisResource × String) (w : World c server)
        → Leaves Stands (apply_resources c server r m x w)
    unfolding apply_resources
    apply_resources-Leaves m x w =
        or_fail-Leaves Stands (λ _ t. Stands t) _ _ (applied c server r m x.0 w) _
          (applied-Post m x.0 w)
          λ d w1 h1.
            or_fail-Leaves Stands (λ _ t. Stands t) _ _ (registered c server r m x.0 x.1 w1) _
              (still-Post (registered c server r m x.0 x.1 w1) w1
                (registered_cluster c server r m x.0 x.1 w1) h1)
              λ _ w2 h2.
                or_fail-Leaves Stands (λ _ t. Stands t) _ _ (on_network (announced c server r m) w2)
                  _ (still-Post (on_network (announced c server r m) w2) w2 refl h2) λ _ w3 h3. h3

    deploy_request-Leaves : (w : World c server) → Leaves Stands (deploy_request c server r w)
    unfolding deploy_request
    deploy_request-Leaves w =
        then_Leaves Stands _ _
          (as_outcome server.multierror (generate_manifest server.outside r), w) _
          λ m w1.
            with_resources-Leaves Stands r m (apply_resources c server r m)
              (apply_resources-Leaves m) w1

  -- What is found has a status, or has no number of replicas, which panics.
  viewed-ne_failure :
      (json : DeploymentStatusView → Option String) (pointer : String) (quoted : String → String)
      (d : Deployment) (e : AppError)
      → status_response c json (deployment_status_and_view pointer quoted d) ≢ ok (failure e)
  unfolding deployment_status_and_view
  viewed-ne_failure json pointer quoted d e h = go d.spec.replicas refl h
    where
      go :
          (n : Option ℤ)
          → d.spec.replicas ≡ n
          → ¬ (
              status_response c json (deployment_status_and_view pointer quoted d) ≡ ok (failure e))
      go none p k = cc (rw (p, deployment_status_and_view) at k)
      go (some i) p k = cc (rw (p, deployment_status_and_view) at k)

  -- An application that stands is not answered with an error when its status is asked for.
  Stands-HasStatus :
      (r : Deploy) (w : World c server) (json : DeploymentStatusView → Option String)
      (pointer : String) (quoted : String → String) (e : AppError)
      → Stands r w
      → deployment_status_handler c json pointer quoted r.namespace r.application w.0
        ≢ ok (failure e)
  unfolding deployment_status_handler deployment_status_view resource_name
  Stands-HasStatus r w json pointer quoted e (d, there) h =
      viewed-ne_failure json pointer quoted d e (rw (there, deployment_status_view) at h)

  -- The deployment stands, and whoever asks for its status is not answered with an error.
  abbrev pub IsAskable : Deploy → World c server → Type 0
  IsAskable r t =
      Stands r t
      × ((json : DeploymentStatusView → Option String) (pointer : String) (quoted : String → String)
            (e : AppError)
          → deployment_status_handler c json pointer quoted r.namespace r.application t.0
            ≢ ok (failure e))

  -- In a cluster that keeps to its API, a deployment that is answered with a status leaves the
  -- deployment of the application there, in the namespace of the request, which is "default" if
  -- the request has none: whoever asks for its status then is not answered with an error.
  pub deploy-Leaves :
      (r : Deploy) (user : String × String) (w : World c server)
      → Leaves (IsAskable (completed server.cluster_name r)) (deploy c server (inl r) user w)
  unfolding deploy
  deploy-Leaves r user w = go (unauthenticated c server user)
    where
      asked : Deploy
      asked = completed server.cluster_name r

      go : (e : Option AppError) → Leaves (IsAskable asked) (admitted c server e (inl r) w)
      go (some e) = tt
      go none =
          Leaves-map (Stands asked) (IsAskable asked)
            (λ t h. (h, λ json pointer quoted e. Stands-HasStatus asked t json pointer quoted e h))
            (deploy_request c server asked w) (deploy_request-Leaves asked w)
