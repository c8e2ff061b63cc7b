-- ===== src/Api/Deployment.antt =====
-- The handler of POST /deploy (api/api.go).
use nais_api.Api.{
  Handler, Response, Server, as_outcome, authenticate, completed, create_response,
  ensure_property_compatibility, environment_class, failure, has_resources, on_cluster, on_fasit,
  on_network, or_fail, spec_of, validate_fasit_requirements, written,
}
use nais_api.AppError.{AppError, app_error}
use nais_api.Creator.Apply.{DeploymentResult, create_or_update_k8s_resources}
use nais_api.Creator.Network.{create_ingress_hostname}
use nais_api.Event.{Event, new_deployment_event}
use nais_api.Fasit.{NaisResource}
use nais_api.Fasit.Sync.{Adapter, fetch_fasit_resources, update_fasit}
use nais_api.Kubernetes.Cluster.{Cluster}
use nais_api.Manifest.{NaisManifest}
use nais_api.Manifest.Download.{generate_manifest}
use nais_api.Prelude.{
  List, Option, String, [], if◌then◌else◌, inl, inr, none, not, some, ◌&&◌, ◌==◌, ◌⊎◌,
}
use nais_api.Prelude.Int.{pos}
use nais_api.Prelude.Outcome.{GoError, M, Outcome, errorf, ok, pure, ◌>>=◌}
use nais_api.Request.{Deploy}
use nais_api.Sensu.{notify_sensu_about_deploy}

module _ {F N : Type 0} (c : Cluster) (server : Server c F N) where
  abbrev pub World : Type 0
  World = c.State × (F × N)

  abbrev fasit_of : Deploy → Adapter F
  fasit_of r = server.fasit r.fasit_username r.fasit_password

  -- The resources that are used, and the environment class, which stays empty if no resource is used
  -- or exposed.
  abbrev pub fetched :
      Deploy
      → NaisManifest
      → String
      → World
      → (List NaisResource × String → Handler World)
      → Outcome Response × World
  fetched r manifest class w next =
      or_fail "unable to fetch fasit resources" 400
        (on_fasit
          (fetch_fasit_resources (fasit_of r) r.application r.fasit_environment r.zone
            manifest.fasit_resources.used)
          w)
        (λ resources. next (resources, class))

  abbrev pub classified :
      Deploy
      → NaisManifest
      → World
      → (List NaisResource × String → Handler World)
      → Outcome Response × World
  classified r manifest w next =
      if r.fasit_environment == ""
      then (
        ok (
            failure (
              app_error none
                "no fasit environment provided, but contains resources to be consumed or exposed"
                500)),
        w,
      )
      else or_fail "validating requirements for deployment failed" 500
          (on_fasit (validate_fasit_requirements (fasit_of r) r.application r.fasit_environment) w)
          λ _ w1.
            -- never an error
            or_fail "" 500 (on_fasit (environment_class (fasit_of r) r.fasit_environment) w1)
              λ class w2. fetched r manifest class w2 next

  abbrev pub with_resources :
      Deploy
      → NaisManifest
      → World
      → (List NaisResource × String → Handler World)
      → Outcome Response × World
  with_resources r manifest w next =
      if r.skip_fasit
      then next ([], "") w
      else if has_resources manifest
      then classified r manifest w next
      else fetched r manifest "" w next

  abbrev pub registered : Deploy → NaisManifest → List NaisResource → String → M World (Unit {0})
  registered r manifest resources class =
      if not r.skip_fasit && has_resources manifest
      then on_fasit (
          update_fasit (fasit_of r) r resources manifest
            (create_ingress_hostname r.application r.namespace server.cluster_subdomain) class
            r.fasit_environment server.cluster_subdomain)
      else pure tt

  abbrev pub applied : Deploy → NaisManifest → List NaisResource → M World DeploymentResult
  applied r manifest resources = on_cluster (
      create_or_update_k8s_resources c server.platform server.marshal (spec_of r manifest) r
        manifest resources server.cluster_subdomain server.istio_enabled)

  -- The event of the deployment, for what handles it.
  abbrev pub event_of : Deploy → NaisManifest → N → Event
  event_of r manifest n =
      new_deployment_event server.parse_image (server.now n) (server.new_uuid n) r manifest
        server.cluster_name

  -- Sensu is told, and then the handler of events.
  unfoldable pub announced : Deploy → NaisManifest → M N (Unit {0})
  unfolding notify_sensu_about_deploy new_deployment_event
  announced r manifest =
      (λ n.
        notify_sensu_about_deploy server.socket (spec_of r manifest) r server.cluster_name
          (server.now n) n)
      >>= λ _ n. (ok tt, server.deployment_event_handler (event_of r manifest n) n)

  -- The objects first, then Fasit, then Sensu and the event, then the response.
  unfoldable pub apply_resources :
      Deploy → NaisManifest → List NaisResource × String → Handler World
  unfolding has_resources update_fasit create_ingress_hostname create_or_update_k8s_resources
      create_response ensure_property_compatibility or_fail announced
  apply_resources r manifest (resources, class) w =
      or_fail "failed while creating or updating k8s-resources" 500 (applied r manifest resources w)
        λ result w1.
          or_fail "failed while updating Fasit" 500 (registered r manifest resources class w1)
            λ _ w2.
              -- never an error
              or_fail "" 500 (on_network (announced r manifest) w2) λ _ w3. (
                ok (written (pos 200) (create_response result (ensure_property_compatibility r))),
                w3,
              )

  -- The request, completed, from the manifest on.
  unfoldable pub deploy_request : Deploy → Handler World
  unfolding has_resources fetch_fasit_resources validate_fasit_requirements environment_class
      generate_manifest apply_resources or_fail
  deploy_request r w =
      or_fail "unable to generate manifest/nais.yaml" 500
        (as_outcome server.multierror (generate_manifest server.outside r), w)
        λ manifest w1. with_resources r manifest w1 (apply_resources r manifest)

  abbrev pub unauthenticated : String × String → Option AppError
  unauthenticated (username, password) =
      if not server.authentication_enabled
      then none
      else if server.azure_is_set
      then authenticate (server.post_form username password)
      else some (app_error (some (errorf "missing Azure AD configuration")) "" 500)

  abbrev pub admitted : Option AppError → Deploy ⊎ GoError → Handler World
  admitted (some e) read w = (ok (failure e), w)
  admitted none (inr e) w =
      (ok (failure (app_error (some e) "unable to unmarshal deployment request" 400)), w)
  admitted none (inl r) w = deploy_request (completed server.cluster_name r) w

  -- `read` is the request in the body, or why there is none, and `user` is the basic authentication.
  -- The error of the body is looked at after the authentication.
  unfoldable pub deploy : Deploy ⊎ GoError → String × String → Handler World
  unfolding authenticate completed deploy_request
  deploy read user = admitted (unauthenticated user) read
