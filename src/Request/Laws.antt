-- ===== src/Request/Laws.antt =====
-- What an accepted request satisfies (api/naisrequest/deploy.go).
use nais_api.Prelude.{
  All, Bool-cases, List, String, [], arith, eq_iff, false≢true, inl, inr, map, refl, true, ◌++◌,
  ◌↔◌, ◌∷◌, ◌≡◌, ◌≢◌, ◌⊎◌,
}
use nais_api.Prelude.Dict.{Dict}
use nais_api.Request.{
  Deploy, illegal_namespaces, missing_errors, namespace_errors, required_fields, validate,
  zone_errors,
}

-- A list that is appended to another is empty if the whole is.
append-eq-nil {ℓ} : {A : Type ℓ} (xs ys : List A) → xs ++ ys ≡ [] → (xs ≡ []) × (ys ≡ [])
append-eq-nil [] ys h = (refl, h)
append-eq-nil (x ∷ xs) ys h = cc

missing_errors-eq-nil :
    (fields : Dict String) → (missing_errors fields ≡ []) ↔ All (λ f. f.1 ≢ "") fields
unfolding missing_errors
missing_errors-eq-nil [] = (λ _. tt, λ _. refl)
missing_errors-eq-nil ((k, v) ∷ fields) = ground (arith, eq_iff v "", missing_errors-eq-nil fields)

namespace_errors-eq-nil :
    (n : String) (illegal : List String)
    → (namespace_errors n illegal ≡ []) ↔ All (λ i. n ≢ i) illegal
unfolding namespace_errors
namespace_errors-eq-nil n [] = (λ _. tt, λ _. refl)
namespace_errors-eq-nil n (i ∷ illegal) =
    ground (arith, eq_iff n i, namespace_errors-eq-nil n illegal)

zone_errors-eq-nil :
    (z : String) → (zone_errors z ≡ []) ↔ ((z ≡ "fss") ⊎ (z ≡ "sbs") ⊎ (z ≡ "iapp"))
unfolding zone_errors
zone_errors-eq-nil z = ground (arith, eq_iff z "fss", eq_iff z "sbs", eq_iff z "iapp")

map-eq-nil {ℓ κ} : {A : Type ℓ} {B : Type κ} (f : A → B) (xs : List A) → (map f xs ≡ []) ↔ (xs ≡ [])
map-eq-nil f [] = (λ _. refl, λ _. refl)
map-eq-nil f (x ∷ xs) = (λ h. cc, λ h. cc)

-- The name of a group of the system's.
abbrev IsSystemNamespace : String → Type 0
IsSystemNamespace n =
    (n ≡ "kube-system")
    ⊎ (n ≡ "istio-system")
    ⊎ (n ≡ "k8s-dashboard")
    ⊎ (n ≡ "kubernetes-dashboard")
    ⊎ (n ≡ "nais-rook")
    ⊎ (n ≡ "tpa")
    ⊎ (n ≡ "reboot-coordinator")

-- What `Validate` accepts.
pub record IsAccepted (label_errors : String → List String) (r : Deploy) : Type 0 where
  pub application_given : r.application ≢ ""
  pub version_given : r.version ≢ ""
  pub zone_given : r.zone ≢ ""
  pub namespace_given : r.namespace ≢ ""
  pub fasit_given :
      (r.skip_fasit ≡ true)
      ⊎ ((r.fasit_environment ≢ "") × (r.fasit_username ≢ "") × (r.fasit_password ≢ ""))
  pub namespace_allowed : ¬ IsSystemNamespace r.namespace
  pub zone_known : (r.zone ≡ "fss") ⊎ (r.zone ≡ "sbs") ⊎ (r.zone ≡ "iapp")
  pub label : label_errors r.application ≡ []

module _ (label_errors : String → List String) (r : Deploy) where
  -- The fields that the request must give.
  abbrev IsGiven : Type 0
  IsGiven =
      (r.application ≢ "")
      × (r.version ≢ "")
      × (r.zone ≢ "")
      × (r.namespace ≢ "")
      × ((r.skip_fasit ≡ true)
          ⊎ ((r.fasit_environment ≢ "") × (r.fasit_username ≢ "") × (r.fasit_password ≢ "")))

  required_fields-given : All (λ (f : String × String). f.1 ≢ "") (required_fields r) ↔ IsGiven
  unfolding required_fields
  required_fields-given = elim (Bool-cases r.skip_fasit) [
    | inl e ↦
        rw e (
          λ (a, (b, (c, (d, _)))). (a, b, c, d, inl refl),
          λ (a, b, c, d, _). (a, (b, (c, (d, tt)))),
        )
    | inr e ↦ rw e (
      λ (a, (b, (c, (d, (f, (g, (h, _))))))). (a, b, c, d, inr (f, g, h)),
      λ (a, b, c, d, x). (
        a,
        (b, (c, (d, elim x [ inl y ↦ absurd (false≢true y) | inr (f, g, h) ↦ (f, (g, (h, tt))) ]))),
      ),
    )
  ]

  illegal_namespaces-allowed :
      All (λ i. r.namespace ≢ i) illegal_namespaces ↔ (¬ IsSystemNamespace r.namespace)
  illegal_namespaces-allowed = ground arith

  -- `Validate` reports no error exactly when the application, the version, the zone and the namespace
  -- are given, and the environment, the name and the password for Fasit unless it is skipped, the
  -- namespace is none of the seven of the system, the zone is fss, sbs or iapp, and the application's
  -- name is a DNS label.
  pub validate-eq-nil : (validate label_errors r ≡ []) ↔ IsAccepted label_errors r
  unfolding validate
  validate-eq-nil = (
    λ h.
        let fields = append-eq-nil (missing_errors (required_fields r)) _ h in
        let namespaces =
          append-eq-nil (namespace_errors r.namespace illegal_namespaces) _ fields.1 in
        let zones = append-eq-nil (zone_errors r.zone) _ namespaces.1 in
        let (application, version, zone, namespace, fasit) =
          required_fields-given.0 ((missing_errors-eq-nil (required_fields r)).0 fields.0) in
        record {
          application_given = application;
          version_given = version;
          zone_given = zone;
          namespace_given = namespace;
          fasit_given = fasit;
          namespace_allowed =
              illegal_namespaces-allowed.0
                ((namespace_errors-eq-nil r.namespace illegal_namespaces).0 namespaces.0);
          zone_known = (zone_errors-eq-nil r.zone).0 zones.0;
          label = (map-eq-nil _ (label_errors r.application)).0 zones.1;
        },
    λ a.
        rw
          (
            (missing_errors-eq-nil (required_fields r)).1 (
                required_fields-given.1 (
                  a.application_given, a.version_given, a.zone_given, a.namespace_given,
                  a.fasit_given,
                )),
            (namespace_errors-eq-nil r.namespace illegal_namespaces).1
                (illegal_namespaces-allowed.1 a.namespace_allowed),
            (zone_errors-eq-nil r.zone).1 a.zone_known,
          )
          ((map-eq-nil _ (label_errors r.application)).1 a.label),
  )
