-- ===== src/Api/Handlers/Laws.antt =====
-- What an answer to a deletion or to a question for the status says (api/api.go).
use nais_api.Alerts.{alerts_config_map_name, alerts_config_map_namespace}
use nais_api.Api.{Response, written}
use nais_api.Api.Handlers.{
  delete_application, deletion_response, deployment_status_handler, named, status_code_of,
}
use nais_api.App.{resource_name}
use nais_api.Deleter.{Deletions, delete_k8s_resources}
use nais_api.Deleter.Laws.Released.{delete_k8s_resources-released, deleted_keys}
use nais_api.Deleter.Laws.Rules.{delete_k8s_resources-needs_rules}
use nais_api.Deleter.Laws.Steps.{ReleasedKey}
use nais_api.Kubernetes.Cluster.{Cluster, Contract, IsPresent}
use nais_api.Kubernetes.Objects.{Deployment, config_maps, deployments}
use nais_api.Prelude.{All, Option, String, ap, arith, inl, none, refl, some, sym, ◌↔◌, ◌∙◌, ◌≡◌}
use nais_api.Prelude.Int.{pos, ℤ}
use nais_api.Prelude.Outcome.{Outcome, err, ok, panic}
use nais_api.Status.{
  DeployStatus, DeploymentStatusView, deployment_status_and_view, deployment_status_view,
  deployment_status_view_from, failed, in_progress, rollout, success,
}
use nais_api.Status.Laws.{HasCondition, IsObserved, IsRolledOut, rollout-eq_success}

module _ (c : Cluster) (api : Contract c) (namespace application : String) where
  -- In a cluster that keeps to its API, a deletion that is answered with a status has released all that
  -- is listed for the application, and the config map of the alert rules was there: without it, the
  -- deletion panics or ends in an error.
  pub delete_application-released :
      (s : c.State) (code : ℤ) (body : String) (t : c.State)
      → delete_application c namespace application s ≡ (ok (written code body), t)
      → All (ReleasedKey c api t) (deleted_keys (named namespace application))
        × IsPresent c config_maps alerts_config_map_namespace alerts_config_map_name s
  unfolding delete_application
  delete_application-released s code body t h =
      go (delete_k8s_resources c (named namespace application) s) refl h
    where
      go :
          (o : Outcome Deletions × c.State)
          → delete_k8s_resources c (named namespace application) s ≡ o
          → deletion_response o ≡ (ok (written code body), t)
          → All (ReleasedKey c api t) (deleted_keys (named namespace application))
            × IsPresent c config_maps alerts_config_map_namespace alerts_config_map_name s
      go (ok (results, none), u) e p =
          let returned =
            e
            ∙ ap (λ v. (ok (results, none), v)) (ap (λ (q : Outcome Response × c.State). q.1) p) in
          (
            delete_k8s_resources-released c api (named namespace application) s results t returned,
            delete_k8s_resources-needs_rules c api (named namespace application) s results t
                returned,
          )
      go (ok (results, some x), u) e p = cc (ap (λ (q : Outcome Response × c.State). q.0) p)
      go (err x, u) e p = cc (ap (λ (q : Outcome Response × c.State). q.0) p)
      go (panic, u) e p = cc (ap (λ (q : Outcome Response × c.State). q.0) p)

module _ (c : Cluster) (json : DeploymentStatusView → Option String) (pointer : String)
    (quoted : String → String) (namespace deploy_name : String) where
  status_code-eq_200 :
      (status : DeployStatus) → (status_code_of status ≡ pos 200) ↔ (status ≡ success)
  status_code-eq_200 in_progress = ground arith
  status_code-eq_200 failed = ground arith
  status_code-eq_200 success = ground arith

  -- The body that goes with the status.
  abbrev shown : ℤ → Deployment → String
  shown desired d =
      let (status, reason) = rollout pointer quoted desired d in
      elim (json (deployment_status_view_from status reason desired d)) [
        | some text ↦ text
        | none ↦ ""
      ]

  handler-eq_written :
      (s : c.State) (d : Deployment) (desired : ℤ)
      → c.get deployments namespace deploy_name s ≡ inl d
      → d.spec.replicas ≡ some desired
      → deployment_status_handler c json pointer quoted namespace deploy_name s
        ≡ ok (written (status_code_of (rollout pointer quoted desired d).0) (shown desired d))
  unfolding deployment_status_handler deployment_status_view deployment_status_and_view
      resource_name
  handler-eq_written s d desired present replicas =
      rw
        (
          deployment_status_handler, deployment_status_view, present, deployment_status_and_view,
          replicas,
        )
        refl

  written-inj :
      (code code' : ℤ) (body body' : String)
      → Path (Outcome Response) (ok (written code body)) (ok (written code' body'))
      → code ≡ code'
  written-inj code code' body body' h = cc

  -- For a deployment that the cluster has, with a number of replicas, the status is 200 exactly if it
  -- is rolled out: the newest specification is seen, no condition says that the deadline is exceeded,
  -- at least as many replicas as are desired are new, no more replicas run than are new, and at least
  -- as many are available as are new.
  pub status_handler-eq_200 :
      (s : c.State) (d : Deployment) (desired : ℤ)
      → c.get deployments namespace deploy_name s ≡ inl d
      → d.spec.replicas ≡ some desired
      → ((body : String) × (deployment_status_handler c json pointer quoted namespace deploy_name s
            ≡ ok (written (pos 200) body)))
        ↔ (IsObserved d
            × (¬ HasCondition "Progressing" "ProgressDeadlineExceeded" d.status.conditions)
            × IsRolledOut desired d)
  status_handler-eq_200 s d desired present replicas =
      let e = handler-eq_written s d desired present replicas in
      let code = status_code-eq_200 (rollout pointer quoted desired d).0 in
      let rolled_out = rollout-eq_success pointer quoted desired d in
      (
        λ (body, p).
            rolled_out.0 (code.0 (written-inj _ (pos 200) (shown desired d) body (sym e ∙ p))),
        λ h. (
          shown desired d,
          e ∙ ap (λ n. ok (written n (shown desired d))) (code.1 (rolled_out.1 h)),
        ),
      )
