-- ===== src/Creator/Apply/Standing.antt =====
-- The deployment stands in the cluster after a creation (api/resourcecreator.go).
use nais_api.Alerts.{PrometheusAlertGroups}
use nais_api.App.{Spec, resource_name}
use nais_api.Creator.Access.{create_or_update_resource, found, get_existing}
use nais_api.Creator.Accounts.{
  create_or_update_role_binding, create_role_ref, create_service_account_if_not_exist,
}
use nais_api.Creator.Apply.{
  create_or_update_deployment, create_or_update_k8s_resources, create_or_update_redis,
  create_or_update_service,
}
use nais_api.Creator.Apply.Kept.{
  alerts-Keeps, autoscaler-Keeps, create_or_update_resource-Post, ingress-Keeps, secret-Keeps,
}
use nais_api.Creator.Apply.Laws.{then_any}
use nais_api.Creator.Meta.{add_labels_to_object_meta, create_object_meta, generate_object_meta}
use nais_api.Creator.Pod.{
  Platform, create_deployment_def, create_deployment_spec, deployment_def_of,
}
use nais_api.Fasit.{NaisResource}
use nais_api.Kubernetes.Cluster.{Cluster, IsPresent, Presence, Reply}
use nais_api.Kubernetes.Objects.{Deployment, DeploymentSpec, deployments}
use nais_api.Manifest.{NaisManifest}
use nais_api.Prelude.{
  Bool, List, Option, String, false, inl, inr, none, refl, some, subst, true, ◌≡◌,
}
use nais_api.Prelude.Keeps.{
  Keeps, Keeps-bind, Keeps-pure, Keeps-wrap, Post, Post-continue, Post-wrap,
}
use nais_api.Prelude.Outcome.{M, Outcome, and_then-eq_ok, err, lift, ok, ok-inj, panic, wrap}
use nais_api.Request.{Deploy}

module _ (c : Cluster) (api : Presence c) where
  module _ (p : Platform) (spec : Spec) (request : Deploy) (manifest : NaisManifest)
      (resources : List NaisResource) (istio : Bool) where
    abbrev HasItsName : Option Deployment → Type 0
    HasItsName none = Unit
    HasItsName (some d) = d.meta.name ≡ resource_name spec

    existing-HasItsName :
        (s : c.State)
        → Post
            (get_existing c deployments (resource_name spec) spec.namespace s)
            (λ existing _. HasItsName existing)
    unfolding get_existing
    existing-HasItsName s = go (c.get deployments spec.namespace (resource_name spec) s) refl
      where
        go :
            (r : Reply Deployment)
            → c.get deployments spec.namespace (resource_name spec) s ≡ r
            → Post (found r, s) (λ existing _. HasItsName existing)
        go (inl d) e = api.name_of_get deployments spec.namespace (resource_name spec) d s e
        go (inr e) h = missing e.not_found refl
          where
            missing :
                (b : Bool)
                → e.not_found ≡ b
                → Post {S = c.State}
                    (found {A = Deployment} (inr e), s)
                    (λ existing _. HasItsName existing)
            missing true q = rw q tt
            missing false q = rw q tt

    made-HasItsName :
        (existing : Option Deployment) (x : DeploymentSpec)
        → HasItsName existing
        → (deployment_def_of spec existing x).meta.name ≡ resource_name spec
    unfolding deployment_def_of generate_object_meta add_labels_to_object_meta create_object_meta
    made-HasItsName none x named = refl
    made-HasItsName (some d) x named = named

    def-HasItsName :
        (existing : Option Deployment) (d : Deployment)
        → HasItsName existing
        → create_deployment_def p spec resources manifest request existing istio ≡ ok d
        → d.meta.name ≡ resource_name spec
    unfolding create_deployment_def
    def-HasItsName existing d named h =
        let (x, is_made, same) =
          and_then-eq_ok (create_deployment_spec p spec request manifest resources istio)
            (λ x. ok (deployment_def_of spec existing x)) d h in
        subst (λ (e : Deployment). e.meta.name ≡ resource_name spec)
          (ok-inj (deployment_def_of spec existing x) d same) (made-HasItsName existing x named)

    lifted-Post :
        {A : Type 0} (context : String) (r : Outcome A) (s : c.State)
        → Post (wrap context (lift r) s) (λ a _. r ≡ ok a)
    lifted-Post context (ok a) s = refl
    lifted-Post context (err e) s = tt
    lifted-Post context panic s = tt

    abbrev Stands : c.State → Type 0
    Stands = IsPresent c deployments spec.namespace (resource_name spec)

    create_or_update_deployment-Post :
        (s : c.State)
        → Post
            (create_or_update_deployment c p spec request manifest resources istio s)
            (λ _ t. Stands t)
    unfolding create_or_update_deployment
    create_or_update_deployment-Post s =
        let read = get_existing c deployments (resource_name spec) spec.namespace in
        let read_error : String = "unable to get existing deployment: " in
        let create_error : String = "unable to create deployment: " in
        Post-continue (wrap read_error read s) _ (λ existing _. HasItsName existing)
          (λ _ t. Stands t)
          (Post-wrap read_error (read s) (λ existing _. HasItsName existing)
            (existing-HasItsName s))
          λ existing t named.
            let def = create_deployment_def p spec resources manifest request existing istio in
            Post-continue (wrap create_error (lift def) t) _ (λ d _. def ≡ ok d) (λ _ t. Stands t)
              (lifted-Post create_error def t)
              λ d u is_made.
                subst
                  (λ n.
                    Post (create_or_update_resource c deployments d spec.namespace u)
                      (λ _ v. IsPresent c deployments spec.namespace n v))
                  (def-HasItsName existing d named is_made)
                  (create_or_update_resource-Post c api deployments d spec.namespace u)

    Post-of_Keeps :
        {A : Type 0} (m : M c.State A) (s : c.State)
        → Keeps Stands m
        → Stands s
        → Post (m s) (λ _ t. Stands t)
    Post-of_Keeps m s k h = from (m s) (k.at s h)
      where
        from : {A : Type 0} (o : Outcome A × c.State) → Stands o.1 → Post o (λ _ t. Stands t)
        from (ok a, t) g = g
        from (err e, t) g = tt
        from (panic, t) g = tt

  module _ (p : Platform) (marshal : PrometheusAlertGroups → Outcome String) (spec : Spec)
      (request : Deploy) (manifest : NaisManifest) (resources : List NaisResource)
      (subdomain : String) (istio : Bool) where
    abbrev Standing : c.State → Type 0
    Standing = IsPresent c deployments spec.namespace (resource_name spec)

    -- A creation that returns no error leaves the deployment of the application in the cluster.
    pub create_or_update_k8s_resources-Standing :
        (s : c.State)
        → Post
            (create_or_update_k8s_resources c p marshal spec request manifest resources subdomain
              istio s)
            (λ _ t. Standing t)
    unfolding create_or_update_k8s_resources
    create_or_update_k8s_resources-Standing s =
        then_any
          (wrap "failed while creating service account: "
            (create_service_account_if_not_exist c spec))
          _ _ s
          λ account s1.
            then_any
              (wrap "failed while creating role binding: " (
                create_or_update_role_binding c spec
                  (create_role_ref "ClusterRole" "serviceaccount-in-app-namespace")))
              _ _ s1
              λ binding s2.
                then_any (wrap "failed while creating service: " (create_or_update_service c spec))
                  _ _ s2
                  λ service s3.
                    then_any (create_or_update_redis c p spec manifest) _ _ s3 λ redis s4.
                      Post-continue
                        (wrap "failed while creating or updating deployment: "
                          (create_or_update_deployment c p spec request manifest resources istio)
                          s4)
                        _ (λ _ t. Standing t) (λ _ t. Standing t)
                        (Post-wrap "failed while creating or updating deployment: "
                          (create_or_update_deployment c p spec request manifest resources istio s4)
                          (λ _ t. Standing t)
                          (create_or_update_deployment-Post p spec request manifest resources istio
                            s4))
                        λ deployment s5 stands.
                          Post-of_Keeps p spec request manifest resources istio _ s5
                            (Keeps-bind _ _
                              (Keeps-wrap _ _ (
                                secret-Keeps c api deployments spec.namespace (resource_name spec)
                                  spec resources))
                              λ secret.
                                Keeps-bind _ _
                                  (Keeps-wrap _ _ (
                                    autoscaler-Keeps c api deployments spec.namespace
                                      (resource_name spec) spec manifest))
                                  λ autoscaler.
                                    Keeps-bind _ _
                                      (Keeps-wrap _ _ (
                                        alerts-Keeps c api deployments spec.namespace
                                          (resource_name spec) marshal spec manifest))
                                      λ alerts.
                                        Keeps-bind _ _
                                          (ingress-Keeps c api deployments spec.namespace
                                            (resource_name spec) spec manifest request subdomain
                                            resources)
                                          λ ingress. Keeps-pure _)
                            stands
