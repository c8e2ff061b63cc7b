-- ===== src/Creator/Pod/Mounts.antt =====
-- Every mount of a pod has its volume (api/resourcecreator.go, internal/vault/vaultcontainer.go).
use nais_api.App.{Spec}
use nais_api.Creator.Containers.{
  create_leader_election_container, create_resource_limits, elector_container, main_pod, must_parse,
}
use nais_api.Creator.Environment.{create_environment_variables}
use nais_api.Creator.Pod.{
  Platform, create_pod_spec, set_elector_path, with_certificates, with_elector,
  with_leader_election, with_vault,
}
use nais_api.Creator.Pod.Certificates.{with_certificates-IsMounted}
use nais_api.Creator.Pod.Volumes.{
  All-map, All-mapped, All-on_main, HasItsVolumes, HasItsVolumes-append, HasItsVolumes-mount,
  HasVolume-last, IsMounted,
}
use nais_api.Fasit.{NaisResource}
use nais_api.Kubernetes.Objects.{Container, EnvVar, PodSpec, ResourceAmounts, Volume}
use nais_api.Manifest.{NaisManifest}
use nais_api.Prelude.{
  All-append, Bool, Bool-cases, List, Option, String, [], false, inl, inr, map, refl, subst, true,
  ◌&&◌, ◌++◌, ◌==◌, ◌||◌, ◌∷◌, ◌≡◌,
}
use nais_api.Prelude.Outcome.{Outcome, and_then, and_then-eq_ok, err, ok, ok-inj, panic}
use nais_api.Request.{Deploy}
use nais_api.Vault.{
  Initializer, VaultSettings, add_vault_containers, mount_secrets, new_initializer, vault_container,
  vault_enabled, vault_mount, vault_volume,
}

vault_container-HasItsVolumes :
    (i : Initializer) (sidecar : Bool) (vs : List Volume)
    → HasItsVolumes (vs ++ vault_volume ∷ []) (vault_container i vault_mount sidecar)
unfolding vault_container
vault_container-HasItsVolumes i sidecar vs = (HasVolume-last vault_volume vs, tt)

mount_secrets-HasItsVolumes :
    (i : Initializer) (vs : List Volume) (c : Container)
    → HasItsVolumes vs c
    → HasItsVolumes (vs ++ vault_volume ∷ []) (mount_secrets i vault_mount c)
unfolding mount_secrets
mount_secrets-HasItsVolumes i vs c h = elim (Bool-cases (c.name == i.spec.application)) [
  | inl e ↦ rw e (HasItsVolumes-mount vault_volume vault_mount vs c refl h)
  | inr e ↦ rw e (HasItsVolumes-append vs (vault_volume ∷ []) c h)
]

add_vault_containers-IsMounted :
    (i : Initializer) (pod : PodSpec) → IsMounted pod → IsMounted (add_vault_containers i pod)
unfolding add_vault_containers
add_vault_containers-IsMounted i pod h =
    let vs = pod.volumes ++ vault_volume ∷ [] in
    let mutated =
      All-mapped (HasItsVolumes pod.volumes) (HasItsVolumes vs) (mount_secrets i vault_mount)
        pod.containers (mount_secrets-HasItsVolumes i pod.volumes) h.0 in
    (
      elim (Bool-cases i.config.sidecar) [
        | inl e ↦ rw e (
            All-append (HasItsVolumes vs) (map (mount_secrets i vault_mount) pod.containers) _
              mutated (vault_container-HasItsVolumes i true pod.volumes, tt))
        | inr e ↦ rw e mutated
      ],
      All-append (HasItsVolumes vs) pod.init_containers _
          (All-map (HasItsVolumes pod.volumes) (HasItsVolumes vs) pod.init_containers
            (HasItsVolumes-append pod.volumes (vault_volume ∷ [])) h.1)
          (vault_container-HasItsVolumes i false pod.volumes, tt),
    )

with_leader_election-IsMounted :
    (quantity_error : String → Option String) (spec : Spec) (manifest : NaisManifest)
    (pod pod' : PodSpec)
    → IsMounted pod
    → with_leader_election quantity_error spec manifest pod ≡ ok pod'
    → IsMounted pod'
unfolding with_leader_election create_leader_election_container
with_leader_election-IsMounted quantity_error spec manifest pod pod' mounted h =
    elim (Bool-cases manifest.leader_election) [
      | inl e ↦ go (must_parse quantity_error "100m") (rw e at h)
      | inr e ↦ subst IsMounted (ok-inj pod pod' (rw e at h)) mounted
    ]
  where
    go :
        (cpu : Outcome String)
        → and_then
            (and_then cpu (λ cpu. ok (elector_container spec cpu)))
            (λ elector. ok (with_elector pod elector))
          ≡ ok pod'
        → IsMounted pod'
    go (ok cpu) e =
        subst IsMounted (ok-inj (with_elector pod (elector_container spec cpu)) pod' e) (
          All-on_main (HasItsVolumes pod.volumes) (HasItsVolumes pod.volumes) set_elector_path
              (pod.containers ++ elector_container spec cpu ∷ []) (λ c h. h) (λ c h. h)
              (All-append (HasItsVolumes pod.volumes) pod.containers _ mounted.0 (tt, tt)),
          mounted.1,
        )
    go (err x) e = cc
    go panic e = cc

with_vault-IsMounted :
    (v : VaultSettings) (spec : Spec) (manifest : NaisManifest) (pod pod' : PodSpec)
    → IsMounted pod
    → with_vault v spec manifest pod ≡ ok pod'
    → IsMounted pod'
unfolding with_vault
with_vault-IsMounted v spec manifest pod pod' mounted h =
    elim (Bool-cases (vault_enabled v && (manifest.secrets || manifest.vault.enabled))) [
      | inl e ↦ go (new_initializer v spec manifest.vault.sidecar) (rw e at h)
      | inr e ↦ subst IsMounted (ok-inj pod pod' (rw e at h)) mounted
    ]
  where
    go :
        (i : Outcome Initializer)
        → and_then i (λ initializer. ok (add_vault_containers initializer pod)) ≡ ok pod'
        → IsMounted pod'
    go (ok i) p = subst IsMounted (ok-inj _ pod' p) (add_vault_containers-IsMounted i pod mounted)
    go (err x) p = cc
    go panic p = cc

main_pod-IsMounted :
    (spec : Spec) (request : Deploy) (manifest : NaisManifest) (env_vars : List EnvVar)
    (amounts : ResourceAmounts)
    → IsMounted (main_pod spec request manifest env_vars amounts)
unfolding main_pod
main_pod-IsMounted spec request manifest env_vars amounts = ((tt, tt), tt)

-- Every container of a pod that is made, and every init container, mounts only volumes that the pod
-- has.
pub create_pod_spec-IsMounted :
    (p : Platform) (spec : Spec) (request : Deploy) (manifest : NaisManifest)
    (resources : List NaisResource) (pod : PodSpec)
    → create_pod_spec p spec request manifest resources ≡ ok pod
    → IsMounted pod
unfolding create_pod_spec
create_pod_spec-IsMounted p spec request manifest resources pod h =
    let (env_vars, h1, h2) =
      and_then-eq_ok (create_environment_variables p.proxy spec request manifest resources) _ pod
        h in
    let (amounts, h3, h4) =
      and_then-eq_ok
        (create_resource_limits p.quantity_error manifest.resources.requests.cpu
          manifest.resources.requests.memory manifest.resources.limits.cpu
          manifest.resources.limits.memory)
        _ pod h2 in
    let main : PodSpec = main_pod spec request manifest env_vars amounts in
    let (elected, h5, h6) =
      and_then-eq_ok (with_leader_election p.quantity_error spec manifest main) _ pod h4 in
    with_vault-IsMounted p.vault spec manifest (with_certificates spec resources elected) pod
      (with_certificates-IsMounted spec resources elected (
        with_leader_election-IsMounted p.quantity_error spec manifest main elected
          (main_pod-IsMounted spec request manifest env_vars amounts) h5))
      h6
