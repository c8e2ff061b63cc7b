-- ===== src/Deleter/Laws/Released.antt =====
-- A deletion without error has released the objects of the application (api/resourcedeleter.go).
use nais_api.App.{Spec, resource_name}
use nais_api.Creator.Accounts.{delete_service_account, unless_not_found}
use nais_api.Deleter.{
  Deleted, account_deleted, delete_autoscaler, delete_config_map_rules, delete_deployment,
  delete_ingress, delete_k8s_resources, delete_redis_deployment, delete_redis_service,
  delete_secret, delete_service, or_return,
}
use nais_api.Deleter.Laws.Steps.{
  Key, ReleasedKey, and_note-Post, delete_config_map_rules-keeps, delete_found-Releases,
  delete_named-Releases, or_return-Post, released-All,
}
use nais_api.Kubernetes.Cluster.{Cluster, Contract}
use nais_api.Kubernetes.Objects.{
  Kind, autoscalers, deployments, ingresses, secrets, service_accounts, services,
}
use nais_api.Prelude.{All, List, Option, String, [], arith, none, refl, some, true, ◌<>◌, ◌∷◌, ◌≡◌}
use nais_api.Prelude.Keeps.{Post, Post-continue}
use nais_api.Prelude.Outcome.{GoError, ok, pure, ◌>>=◌}

-- The keys that a deletion releases, the last one first.
abbrev pub deleted_keys : Spec → List Key
deleted_keys spec =
    (service_accounts, spec.namespace, resource_name spec)
    ∷ (autoscalers, spec.namespace, resource_name spec)
    ∷ (ingresses, spec.namespace, resource_name spec)
    ∷ (secrets, spec.namespace, resource_name spec)
    ∷ (deployments, spec.namespace, resource_name spec)
    ∷ (services, spec.namespace, resource_name spec)
    ∷ []

module _ (c : Cluster) (api : Contract c) (spec : Spec) where
  delete_service_account-Post :
      (keys : List Key) (results : List String) (s : c.State)
      → All (ReleasedKey c api s) keys
      → Post ((delete_service_account c spec >>= λ a. pure (account_deleted results a)) s) (λ d t.
        d.1 ≡ none
        → All (ReleasedKey c api t) ((service_accounts, spec.namespace, resource_name spec) ∷ keys))
  unfolding delete_service_account
  delete_service_account-Post keys results s h q = (
    go (c.delete service_accounts spec.namespace (resource_name spec) s).0 refl q,
    released-All c api service_accounts spec.namespace (resource_name spec) s keys h,
  )
    where
      go :
          (e : Option GoError)
          → (c.delete service_accounts spec.namespace (resource_name spec) s).0 ≡ e
          → (account_deleted results (
              unless_not_found
                (c.delete service_accounts spec.namespace (resource_name spec) s).0)).1
            ≡ none
          → api.Released service_accounts spec.namespace
              (resource_name spec)
              (c.delete service_accounts spec.namespace (resource_name spec) s).1
      go none p q = api.released_of_delete service_accounts spec.namespace (resource_name spec) s p
      go (some e) p q =
          api.released_of_missing service_accounts spec.namespace (resource_name spec) s e p
            (missing (rw p at q))
        where
          missing :
              (account_deleted results (unless_not_found (some e))).1 ≡ none → e.not_found ≡ true
          missing q = ground arith

  abbrev keys_of : List Kind → List Key
  keys_of [] = []
  keys_of (k ∷ kinds) = (k, spec.namespace, resource_name spec) ∷ keys_of kinds

  -- The kinds released before the alert rules are removed.
  abbrev before_rules : List Kind
  before_rules = autoscalers ∷ ingresses ∷ secrets ∷ deployments ∷ services ∷ []

  AllDeleted : c.State → Type 0
  AllDeleted t = All (ReleasedKey c api t) (deleted_keys spec)

  rules_and_account-Post :
      (results : List String) (s : c.State)
      → All (ReleasedKey c api s) (keys_of before_rules)
      → Post
          ((delete_config_map_rules c spec >>= λ rules.
              or_return c results rules
                (λ r. delete_service_account c spec >>= λ a. pure (account_deleted r a)))
            s)
          (λ d t. d.1 ≡ none → AllDeleted t)
  unfolding AllDeleted
  rules_and_account-Post results s h =
      Post-continue (delete_config_map_rules c spec s) _ _ _
        (delete_config_map_rules-keeps c api spec (keys_of before_rules) s (ground arith) h) go
    where
      go :
          (d : Deleted) (t : c.State)
          → All (ReleasedKey c api t) (keys_of before_rules)
          → Post
              (or_return c results d
                (λ r. delete_service_account c spec >>= λ a. pure (account_deleted r a))
                t)
              (λ d u. d.1 ≡ none → All (ReleasedKey c api u) (deleted_keys spec))
      go (r, none) t kept = delete_service_account-Post (keys_of before_rules) _ t kept
      go (r, some e) t kept = λ q. cc

  secrets_on-Post :
      (results : List String) (s : c.State)
      → All (ReleasedKey c api s) (keys_of (deployments ∷ services ∷ []))
      → Post
          ((delete_secret c spec >>= λ secret. or_return c results secret λ r5.
              delete_ingress c spec >>= λ ingress. or_return c r5 ingress λ r6.
                delete_autoscaler c spec >>= λ autoscaler. or_return c r6 autoscaler λ r7.
                  delete_config_map_rules c spec >>= λ rules.
                  or_return c r7 rules
                    (λ r. delete_service_account c spec >>= λ a. pure (account_deleted r a)))
            s)
          (λ d t. d.1 ≡ none → AllDeleted t)
  unfolding delete_secret delete_ingress delete_autoscaler
  secrets_on-Post results s h =
      let ns = spec.namespace in
      let n = resource_name spec in
      or_return-Post c api (secrets, ns, n) (keys_of (deployments ∷ services ∷ []))
        (delete_secret c spec) _ results s AllDeleted
        (delete_named-Releases c api secrets ns n "secret: OK" "secret: "
          (keys_of (deployments ∷ services ∷ [])) s h)
        λ r5 t5 h5.
          or_return-Post c api (ingresses, ns, n) (keys_of (secrets ∷ deployments ∷ services ∷ []))
            (delete_ingress c spec) _ r5 t5 AllDeleted
            (delete_found-Releases c api ingresses spec "ingress OK" "ingress: "
              (keys_of (secrets ∷ deployments ∷ services ∷ [])) t5 h5)
            λ r6 t6 h6.
              or_return-Post c api (autoscalers, ns, n)
                (keys_of (ingresses ∷ secrets ∷ deployments ∷ services ∷ []))
                (delete_autoscaler c spec) _ r6 t6 AllDeleted
                (delete_found-Releases c api autoscalers spec "autoscaler: OK" "autoscaler: "
                  (keys_of (ingresses ∷ secrets ∷ deployments ∷ services ∷ [])) t6 h6)
                rules_and_account-Post

  delete_k8s_resources-Post :
      (s : c.State) → Post (delete_k8s_resources c spec s) (λ d t. d.1 ≡ none → AllDeleted t)
  unfolding delete_k8s_resources delete_service delete_deployment delete_redis_deployment
      delete_redis_service delete_secret delete_ingress delete_autoscaler
  delete_k8s_resources-Post s =
      let ns = spec.namespace in
      let n = resource_name spec in
      or_return-Post c api (services, ns, n) [] (delete_service c spec) _ [] s AllDeleted
        (delete_named-Releases c api services ns n "service: OK" "service: " [] s tt)
        λ r1 t1 h1.
          or_return-Post c api (deployments, ns, n) (keys_of (services ∷ []))
            (delete_deployment c spec) _ r1 t1 AllDeleted
            (delete_named-Releases c api deployments ns n "deployment: OK" "deployment: "
              (keys_of (services ∷ [])) t1 h1)
            λ r2 t2 h2.
              and_note-Post c api (keys_of (deployments ∷ services ∷ []))
                (delete_redis_deployment c spec) _ r2 t2 AllDeleted
                (released-All c api deployments ns (n <> "-redis") t2
                  (keys_of (deployments ∷ services ∷ [])) h2)
                λ r3 t3 h3.
                  and_note-Post c api (keys_of (deployments ∷ services ∷ []))
                    (delete_redis_service c spec) _ r3 t3 AllDeleted
                    (released-All c api services ns (n <> "-redis") t3
                      (keys_of (deployments ∷ services ∷ [])) h3)
                    λ r4 t4 h4. secrets_on-Post r4 t4 h4

  -- In a cluster that keeps to its API, a deletion that returns no error has released the service, the
  -- deployment, the secret, the ingress, the autoscaler and the service account of the application:
  -- each is gone, or the cluster has accepted its deletion.
  pub delete_k8s_resources-released :
      (s : c.State) (results : List String) (t : c.State)
      → delete_k8s_resources c spec s ≡ (ok (results, none), t)
      → All (ReleasedKey c api t) (deleted_keys spec)
  delete_k8s_resources-released s results t h =
      unfold AllDeleted in (rw h at (delete_k8s_resources-Post s)) refl
