-- ===== src/Creator/Accounts.antt =====
-- api/serviceaccount.go and api/rolebinding.go.
use nais_api.App.{Spec, resource_name}
use nais_api.Creator.Access.{replied}
use nais_api.Creator.Meta.{generate_object_meta}
use nais_api.Kubernetes.Cluster.{Cluster}
use nais_api.Kubernetes.Objects.{
  RoleBinding, RoleRef, ServiceAccount, role_bindings, service_accounts,
}
use nais_api.Prelude.{Option, String, [], if◌then◌else◌, inl, inr, none, some, ◌∷◌}
use nais_api.Prelude.Outcome.{GoError, M, ok}

unfoldable pub create_service_account_def : Spec → ServiceAccount
unfolding generate_object_meta
create_service_account_def spec = record {
  type_meta = record { kind = "ServiceAccount"; api_version = "v1" };
  meta = generate_object_meta spec;
}

unfoldable pub create_role_ref : String → String → RoleRef
create_role_ref kind name = record { kind = kind; name = name }

unfoldable pub create_role_binding_def : Spec → RoleRef → RoleBinding
unfolding generate_object_meta
create_role_binding_def subject role_ref = record {
  meta = generate_object_meta subject;
  subjects =
      record {
        kind = "ServiceAccount";
        name = resource_name subject;
        namespace = subject.namespace;
      }
      ∷ [];
  role_ref = role_ref;
}

-- e != nil && !errors.IsNotFound(e)
abbrev pub unless_not_found : Option GoError → Option GoError
unless_not_found none = none
unless_not_found (some e) = if e.not_found then none else some e

module _ (c : Cluster) where
  -- An account that can be read is returned as it is. Any error of the read leads to a create.
  unfoldable pub create_service_account_if_not_exist : Spec → M c.State ServiceAccount
  unfolding create_service_account_def
  create_service_account_if_not_exist spec s =
      elim (c.get service_accounts spec.namespace (resource_name spec) s) [
        | inl account ↦ (ok account, s)
        | inr e ↦
            replied (c.create service_accounts spec.namespace (create_service_account_def spec) s)
      ]

  unfoldable pub delete_service_account : Spec → M c.State (Option GoError)
  delete_service_account spec s =
      let (e, t) = c.delete service_accounts spec.namespace (resource_name spec) s in
      (ok (unless_not_found e), t)

  unfoldable pub create_or_update_role_binding : Spec → RoleRef → M c.State RoleBinding
  unfolding create_role_binding_def
  create_or_update_role_binding subject role_ref s =
      elim (c.get role_bindings subject.namespace (resource_name subject) s) [
        | inl existing ↦
            replied (
              c.update role_bindings subject.namespace (create_role_binding_def subject role_ref) s)
        | inr e ↦
            replied (
              c.create role_bindings subject.namespace (create_role_binding_def subject role_ref) s)
      ]

  unfoldable pub delete_role_binding : Spec → M c.State (Option GoError)
  delete_role_binding spec s =
      let (e, t) = c.delete role_bindings spec.namespace (resource_name spec) s in
      (ok (unless_not_found e), t)
