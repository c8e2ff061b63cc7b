-- ===== src/Cli/Environment/Laws.antt =====
-- The variables of the command line beside those of a pod (cli/cmd/environment.go and
-- api/resourcecreator.go).
use mathlib.Core.List.Perm
use mathlib.Core.List.{Perm, append_assoc, map-append, perm_append_comm}
use nais_api.App.{Spec}
use nais_api.Cli.Environment.{command_variables, command_variables_of}
use nais_api.Creator.Environment.{
  ProxySettings, base_variables, certificate_variable, create_environment_variables,
  property_variable, resource_variables, secret_variable,
}
use nais_api.Creator.Environment.Laws.{create_environment_variables-eq_ok, resources_environment}
use nais_api.Fasit.{NaisResource, mount_point, to_environment_variable}
use nais_api.Kubernetes.Objects.{EnvVar}
use nais_api.Manifest.{NaisManifest}
use nais_api.Prelude.{List, String, [], ap, false, map, refl, subst, ◌++◌, ◌∷◌, ◌≡◌}
use nais_api.Prelude.Dict.{Dict, or_empty}
use nais_api.Prelude.Outcome.{ok}
use nais_api.Request.{Deploy}

abbrev pub env_names : List EnvVar → List String
env_names = map (λ v. v.name)

abbrev pub variable_names : List (String × String) → List String
variable_names = map (λ x. x.0)

module _ (spec : Spec) where
  property_names :
      (res : NaisResource) (d : Dict String)
      → env_names (map (λ (_, v). v) (map (property_variable res) d))
        ≡ variable_names (map (λ (k, v). (to_environment_variable res k, v)) d)
  property_names res [] = refl
  property_names res ((k, v) ∷ d) =
      ap (λ x. to_environment_variable res k ∷ x) (property_names res d)

  secret_names :
      (res : NaisResource) (d : Dict String)
      → env_names (map (λ (_, v). v) (map (secret_variable spec res) d))
        ≡ variable_names (map (λ (k, v). (to_environment_variable res k, v)) d)
  secret_names res [] = refl
  secret_names res ((k, v) ∷ d) = ap (λ x. to_environment_variable res k ∷ x) (secret_names res d)

  certificate_names :
      (res : NaisResource) (d : Dict String)
      → env_names (map (λ (_, v). v) (map (certificate_variable res) d))
        ≡ variable_names (map (λ (k, v). (to_environment_variable res k, mount_point res k)) d)
  certificate_names res [] = refl
  certificate_names res ((k, v) ∷ d) =
      ap (λ x. to_environment_variable res k ∷ x) (certificate_names res d)

  swap_front : (p s c : List String) → Perm (p ++ (s ++ c)) (s ++ (p ++ c))
  swap_front p s c =
      subst (λ x. Perm x (s ++ (p ++ c))) (append_assoc p s c)
        (subst (λ x. Perm ((p ++ s) ++ c) x) (append_assoc s p c)
          (Perm.append_right c (perm_append_comm p s)))

  named_alike : (res : NaisResource) → Dict String → List String
  named_alike res d = variable_names (map (λ (k, v). (to_environment_variable res k, v)) d)

  named_mounts : (res : NaisResource) → Dict String → List String
  named_mounts res d =
      variable_names (map (λ (k, v). (to_environment_variable res k, mount_point res k)) d)

  pod_names :
      (res : NaisResource)
      → env_names (map (λ (_, v). v) (resource_variables spec res))
        ≡ named_alike res res.properties
          ++ (named_alike res (or_empty res.secret) ++ named_mounts res (or_empty res.certificates))
  unfolding resource_variables named_alike named_mounts
  pod_names res = simp (map-append, property_names res, secret_names res, certificate_names res)

  command_names :
      (res : NaisResource)
      → variable_names (command_variables_of res)
        ≡ named_alike res (or_empty res.secret)
          ++ (named_alike res res.properties ++ named_mounts res (or_empty res.certificates))
  unfolding command_variables_of named_alike named_mounts
  command_names res = simp (map-append)

  -- A pod has the properties before the secrets.
  resource_names-perm :
      (res : NaisResource)
      → Perm
          (env_names (map (λ (_, v). v) (resource_variables spec res)))
          (variable_names (command_variables_of res))
  resource_names-perm res =
      rw (pod_names res, command_names res)
        (swap_front (named_alike res res.properties) (named_alike res (or_empty res.secret))
          (named_mounts res (or_empty res.certificates)))

  resources_names-perm :
      (resources : List NaisResource)
      → Perm
          (env_names (resources_environment spec resources))
          (variable_names (command_variables resources))
  unfolding command_variables
  resources_names-perm [] = Perm.refl []
  resources_names-perm (res ∷ resources) =
      rw
        (
          map-append (λ (v : EnvVar). v.name) (map (λ (_, v). v) (resource_variables spec res))
              (resources_environment spec resources),
          map-append (λ (x : String × String). x.0) (command_variables_of res)
              (command_variables resources),
        )
        (Perm.append (resource_names-perm res) (resources_names-perm resources))

-- Without the web proxy, the environment of a pod has the names that the command line prints for the
-- same resources, each as often, beside those of the base variables.
pub environment-perm :
    (p : ProxySettings) (spec : Spec) (r : Deploy) (manifest : NaisManifest)
    (resources : List NaisResource) (env : List EnvVar)
    → manifest.webproxy ≡ false
    → create_environment_variables p spec r manifest resources ≡ ok env
    → Perm
        (env_names env)
        (env_names (base_variables spec r manifest) ++ variable_names (command_variables resources))
environment-perm p spec r manifest resources env off h =
    let (e, unique) =
      (create_environment_variables-eq_ok p spec r manifest resources env off).0 h in
    rw e (
      rw (map-append) (
        Perm.append_left (env_names (base_variables spec r manifest))
          (resources_names-perm spec resources)))
