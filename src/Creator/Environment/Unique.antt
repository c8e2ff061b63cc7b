-- ===== src/Creator/Environment/Unique.antt =====
-- Environment variables that are apart (api/resourcecreator.go, checkForDuplicates).
-- Two variables refer to different keys of the secret, if both refer to one.
use mathlib.Core.List.{append-nil, append_assoc}
use nais_api.Creator.Environment.{check_for_duplicates, clash, same_key}
use nais_api.Fasit.{NaisResource}
use nais_api.Kubernetes.Objects.{EnvVar, SecretKeyRef}
use nais_api.Prelude.{
  All, List, Option, Pairwise, String, [], arith, eq_iff, false, none, refl, some, ◌++◌, ◌↔◌, ◌∷◌,
  ◌≡◌, ◌≢◌,
}

abbrev pub HasOtherKey : Option SecretKeyRef → Option SecretKeyRef → Type 0
HasOtherKey none _ = Unit
HasOtherKey (some a) none = Unit
HasOtherKey (some a) (some b) = a.key ≢ b.key

abbrev pub IsApart : EnvVar → EnvVar → Type 0
IsApart new existing = (new.name ≢ existing.name) × HasOtherKey new.value_from existing.value_from

-- Each variable is apart from those before it.
abbrev pub IsUnique : List EnvVar → Type 0
IsUnique env_vars = Pairwise (λ existing new. IsApart new existing) env_vars

All-snoc :
    (P : EnvVar → Type 0) (xs : List EnvVar) (x : EnvVar) → All P (xs ++ x ∷ []) ↔ (All P xs × P x)
All-snoc P [] x = (λ h. (tt, h.0), λ h. (h.1, tt))
All-snoc P (y ∷ xs) x = (
  λ h. let (a, b) = (All-snoc P xs x).0 h.1 in ((h.0, a), b),
  λ h. (h.0.0, (All-snoc P xs x).1 (h.0.1, h.1)),
)

pub IsUnique-snoc :
    (xs : List EnvVar) (new : EnvVar)
    → IsUnique (xs ++ new ∷ []) ↔ (IsUnique xs × All (IsApart new) xs)
IsUnique-snoc [] new = (λ _. (tt, tt), λ _. (tt, tt))
IsUnique-snoc (x ∷ xs) new = (
  λ h.
      let (before, apart) = (All-snoc (λ new'. IsApart new' x) xs new).0 h.0 in
      let (unique, others) = (IsUnique-snoc xs new).0 h.1 in ((before, unique), (apart, others)),
  λ h. (
    (All-snoc (λ new'. IsApart new' x) xs new).1 (h.0.0, h.1.0),
    (IsUnique-snoc xs new).1 (h.0.1, h.1.1),
  ),
)

-- What stands before an appended list is unique if the whole is.
pub IsUnique-of_append : (xs ys : List EnvVar) → IsUnique (xs ++ ys) → IsUnique xs
IsUnique-of_append xs [] h = rw append-nil at h
IsUnique-of_append xs (y ∷ ys) h =
    ((IsUnique-snoc xs y).0 (IsUnique-of_append (xs ++ y ∷ []) ys (rw append_assoc h))).0

same_key-eq_false : (a b : Option SecretKeyRef) → (same_key a b ≡ false) ↔ HasOtherKey a b
same_key-eq_false none b = (λ _. tt, λ _. refl)
same_key-eq_false (some a) none = (λ _. tt, λ _. refl)
same_key-eq_false (some a) (some b) = ground (arith, eq_iff a.key b.key)

clash-eq_none :
    (existing new : EnvVar) (property : String) (res : NaisResource)
    → (clash existing new property res ≡ none) ↔ IsApart new existing
unfolding clash
clash-eq_none existing new property res =
    ground
      (arith, eq_iff new.name existing.name, same_key-eq_false new.value_from existing.value_from)

pub check_for_duplicates-eq_none :
    (xs : List EnvVar) (new : EnvVar) (property : String) (res : NaisResource)
    → (check_for_duplicates xs new property res ≡ none) ↔ All (IsApart new) xs
unfolding check_for_duplicates
check_for_duplicates-eq_none [] new property res = (λ _. tt, λ _. refl)
check_for_duplicates-eq_none (x ∷ xs) new property res =
    ground
      (arith, clash-eq_none x new property res, check_for_duplicates-eq_none xs new property res)
