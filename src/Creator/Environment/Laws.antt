-- ===== src/Creator/Environment/Laws.antt =====
-- An application's environment holds no name twice (api/resourcecreator.go).
use mathlib.Core.List.{append-nil, append_assoc}
use nais_api.App.{Spec}
use nais_api.Creator.Environment.{
  ProxySettings, add_resources, add_variable, add_variables, base_variables, check_for_duplicates,
  create_environment_variables, create_proxy_environment_variables, resource_variables,
}
use nais_api.Creator.Environment.Unique.{
  HasOtherKey, IsApart, IsUnique, IsUnique-of_append, IsUnique-snoc, check_for_duplicates-eq_none,
}
use nais_api.Fasit.{NaisResource}
use nais_api.Kubernetes.Objects.{EnvVar, SecretKeyRef}
use nais_api.Manifest.{NaisManifest}
use nais_api.Prelude.{
  All, Bool, List, Option, String, [], ap, arith, eq_iff, false, if◌then◌else◌, map, none, not,
  refl, some, sym, true, ◌&&◌, ◌++◌, ◌==◌, ◌↔◌, ◌∙◌, ◌∷◌, ◌≡◌,
}
use nais_api.Prelude.Outcome.{GoError, Outcome, and_then, err, ok, panic}
use nais_api.Request.{Deploy}

-- The variables of the resources, in the order in which they are visited.
abbrev pub resources_environment : Spec → List NaisResource → List EnvVar
resources_environment spec [] = []
resources_environment spec (res ∷ resources) =
    map (λ (_, v). v) (resource_variables spec res) ++ resources_environment spec resources

abbrev variables_of : List (String × EnvVar) → List EnvVar
variables_of items = map (λ (_, v). v) items

module _ (res : NaisResource) where
  -- Adding variables one by one gives them all, apart from one another, or an error.
  add_variables_sound :
      (items : List (String × EnvVar)) (xs out : List EnvVar)
      → IsUnique xs
      → add_variables res items xs ≡ ok out
      → (out ≡ xs ++ variables_of items) × IsUnique out
  unfolding add_variables
  add_variables_sound [] xs out u h = let e : xs ≡ out = cc in (rw append-nil (sym e), rw e at u)
  add_variables_sound ((p, new) ∷ items) xs out u h =
      go (check_for_duplicates xs new p res) refl h (add_variables_sound items)
    where
      go :
          (c : Option GoError)
          → check_for_duplicates xs new p res ≡ c
          → add_variables res ((p, new) ∷ items) xs ≡ ok out
          → ((ys out : List EnvVar)
              → IsUnique ys
              → add_variables res items ys ≡ ok out
              → (out ≡ ys ++ variables_of items) × IsUnique out)
          → (out ≡ xs ++ variables_of ((p, new) ∷ items)) × IsUnique out
      go (some e) c h ih = cc (rw (c, add_variable) at h)
      go none c h ih =
          let apart = (check_for_duplicates-eq_none xs new p res).0 c in
          let (e, v) =
            ih (xs ++ new ∷ []) out ((IsUnique-snoc xs new).1 (u, apart))
              (rw (c, add_variable) at h) in
          (e ∙ rw append_assoc, v)

  add_variables_complete :
      (items : List (String × EnvVar)) (xs : List EnvVar)
      → IsUnique (xs ++ variables_of items)
      → add_variables res items xs ≡ ok (xs ++ variables_of items)
  unfolding add_variables
  add_variables_complete [] xs u = rw append-nil
  add_variables_complete ((p, new) ∷ items) xs u =
      let whole : IsUnique ((xs ++ new ∷ []) ++ variables_of items) = rw append_assoc u in
      let start = IsUnique-of_append (xs ++ new ∷ []) (variables_of items) whole in
      let apart = ((IsUnique-snoc xs new).0 start).1 in
      rw ((check_for_duplicates-eq_none xs new p res).1 apart, add_variable)
        (add_variables_complete items (xs ++ new ∷ []) whole ∙ rw append_assoc)

module _ (spec : Spec) where
  add_resources_sound :
      (resources : List NaisResource) (xs out : List EnvVar)
      → IsUnique xs
      → add_resources spec resources xs ≡ ok out
      → (out ≡ xs ++ resources_environment spec resources) × IsUnique out
  unfolding add_resources
  add_resources_sound [] xs out u h = let e : xs ≡ out = cc in (rw append-nil (sym e), rw e at u)
  add_resources_sound (res ∷ resources) xs out u h =
      go (add_variables res (resource_variables spec res) xs) refl h (add_resources_sound resources)
    where
      go :
          (r : Outcome (List EnvVar))
          → add_variables res (resource_variables spec res) xs ≡ r
          → add_resources spec (res ∷ resources) xs ≡ ok out
          → ((ys out : List EnvVar)
              → IsUnique ys
              → add_resources spec resources ys ≡ ok out
              → (out ≡ ys ++ resources_environment spec resources) × IsUnique out)
          → (out ≡ xs ++ resources_environment spec (res ∷ resources)) × IsUnique out
      go (ok ys) c h ih =
          let (e, v) = add_variables_sound res (resource_variables spec res) xs ys u c in
          let (f, w) = ih ys out v (rw (c, add_resources) at h) in
          (
            f
                ∙ rw e (
                    append_assoc xs (variables_of (resource_variables spec res))
                      (resources_environment spec resources)),
            w,
          )
      go (err e) c h ih = cc (rw (c, add_resources) at h)
      go panic c h ih = cc (rw (c, add_resources) at h)

  add_resources_complete :
      (resources : List NaisResource) (xs : List EnvVar)
      → IsUnique (xs ++ resources_environment spec resources)
      → add_resources spec resources xs ≡ ok (xs ++ resources_environment spec resources)
  unfolding add_resources
  add_resources_complete [] xs u = rw append-nil
  add_resources_complete (res ∷ resources) xs u =
      let own = variables_of (resource_variables spec res) in
      let whole : IsUnique ((xs ++ own) ++ resources_environment spec resources) =
        rw append_assoc u in
      rw
        (add_variables_complete res (resource_variables spec res) xs
          (IsUnique-of_append (xs ++ own) _ whole))
        (add_resources_complete resources (xs ++ own) whole ∙ rw append_assoc)

abbrev is_plain : Option SecretKeyRef → Bool
is_plain none = true
is_plain (some _) = false

-- Tests on variables without secrets.
abbrev is_new : EnvVar → List EnvVar → Bool
is_new x [] = true
is_new x (y ∷ ys) = (not (y.name == x.name) && is_plain y.value_from) && is_new x ys

abbrev names_differ : List EnvVar → Bool
names_differ [] = true
names_differ (x ∷ xs) = is_new x xs && names_differ xs

HasOtherKey-of_plain : (a b : Option SecretKeyRef) → is_plain a ≡ true → HasOtherKey a b
HasOtherKey-of_plain none b h = tt
HasOtherKey-of_plain (some a) b h = cc

is_new-IsApart :
    (x : EnvVar) (ys : List EnvVar) → is_new x ys ≡ true → All (λ new. IsApart new x) ys
is_new-IsApart x [] h = tt
is_new-IsApart x (y ∷ ys) h = ground (
  arith,
  eq_iff y.name x.name,
  HasOtherKey-of_plain y.value_from x.value_from,
  is_new-IsApart x ys,
)

names_differ-IsUnique : (xs : List EnvVar) → names_differ xs ≡ true → IsUnique xs
names_differ-IsUnique [] h = tt
names_differ-IsUnique (x ∷ xs) h = ground (arith, is_new-IsApart x xs, names_differ-IsUnique xs)

base_variables-IsUnique :
    (spec : Spec) (r : Deploy) (manifest : NaisManifest) → IsUnique (base_variables spec r manifest)
unfolding base_variables
base_variables-IsUnique spec r manifest =
    names_differ-IsUnique (base_variables spec r manifest) (ground arith)

module _ (p : ProxySettings) (spec : Spec) (r : Deploy) (manifest : NaisManifest) where
  -- Without the web proxy, the environment is created exactly if the base variables and those of the
  -- resources are all apart, and it consists of these, in order.
  pub create_environment_variables-eq_ok :
      (resources : List NaisResource) (out : List EnvVar)
      → manifest.webproxy ≡ false
      → (create_environment_variables p spec r manifest resources ≡ ok out) ↔ (
          (out ≡ base_variables spec r manifest ++ resources_environment spec resources)
          × IsUnique out)
  unfolding create_environment_variables
  create_environment_variables-eq_ok resources out off = (
    λ h.
        add_resources_sound spec resources (base_variables spec r manifest) out
          (base_variables-IsUnique spec r manifest)
          (go (add_resources spec resources (base_variables spec r manifest)) h),
    λ (e, u).
        rw (off, add_resources_complete spec resources (base_variables spec r manifest) (rw e at u))
          (ap ok (sym e)),
  )
    where
      go :
          (o : Outcome (List EnvVar))
          → and_then o (λ env_vars.
            if manifest.webproxy
            then create_proxy_environment_variables p env_vars
            else ok env_vars)
            ≡ ok out
          → o ≡ ok out
      go (ok vars) h = rw off at h
      go (err e) h = h
      go panic h = h
