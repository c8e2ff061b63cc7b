-- ===== src/Examples/Router.antt =====
-- Paths and patterns at work: a small stand-in for goji.
use text.Mathlib.TextLemmas.{cons-append, nil-append, append_assoc}
use nais_api.Api.Routes.{delete_pattern, status_pattern}
use nais_api.Api.Routes.Laws.{IsSegment, Matches}
use nais_api.Prelude.{
  Bool, List, Option, String, [], ap, eq_iff, false, if◌then◌else◌, none, or-eq_false, refl, some,
  true, ◌<>◌, ◌==◌, ◌∙◌, ◌∷◌, ◌≡◌,
}
use nais_api.Prelude.Dict.{Dict}
use nais_api.Prelude.Text.{contains_char, is_char, split}

-- Text without a slash ends at the next slash, or at the end of the text.
split-segment :
    (a s : String) → contains_char "/" a ≡ false → split "/" (a <> ("/" <> s)) ≡ a ∷ split "/" s
unfolding split contains_char
split-segment String.[] s h = rw nil-append (rw (cons-append "/" "" s) (rw nil-append refl))
split-segment (String.◌∷◌ c a) s h =
    let (first, later) = or-eq_false (is_char "/" c) (contains_char "/" a) h in
    rw (cons-append c a ("/" <> s)) (rw (first, split-segment a s later) refl)

split-last : (b : String) → contains_char "/" b ≡ false → split "/" b ≡ b ∷ []
unfolding split contains_char
split-last String.[] h = refl
split-last (String.◌∷◌ c b) h =
    let (first, later) = or-eq_false (is_char "/" c) (contains_char "/" b) h in
    rw (first, split-last b later) refl

-- The two variables of a path with so many parts.
two_parts : String → List String → Option (Dict String)
two_parts prefix [] = none
two_parts prefix (e ∷ []) = none
two_parts prefix (e ∷ p ∷ []) = none
two_parts prefix (e ∷ p ∷ a ∷ []) = none
two_parts prefix (e ∷ p ∷ a ∷ b ∷ []) =
    if p == prefix then some (("namespace", a) ∷ ("deployName", b) ∷ []) else none
two_parts prefix (e ∷ p ∷ a ∷ b ∷ d ∷ more) = none

unfoldable pub small_match : String → String → Option (Dict String)
unfolding two_parts split contains_char
small_match pattern path =
    if contains_char ":" pattern
    then two_parts (if pattern == status_pattern then "deploystatus" else "app") (split "/" path)
    else if path == pattern
    then some []
    else none

split-slash : (s : String) → split "/" ("/" <> s) ≡ "" ∷ split "/" s
unfolding split
split-slash s = rw (cons-append "/" "" s) (rw nil-append refl)

parts :
    (prefix a b : String)
    → contains_char "/" prefix ≡ false
    → IsSegment a
    → IsSegment b
    → split "/" (("/" <> prefix) <> ("/" <> (a <> ("/" <> b)))) ≡ "" ∷ prefix ∷ a ∷ b ∷ []
parts prefix a b hp ha hb =
    ap (split "/") (append_assoc "/" prefix ("/" <> (a <> ("/" <> b))))
    ∙ (split-slash (prefix <> ("/" <> (a <> ("/" <> b))))
        ∙ ap (λ x. "" ∷ x)
            (split-segment prefix (a <> ("/" <> b)) hp
              ∙ ap (λ x. prefix ∷ x)
                  (split-segment a b ha.1 ∙ ap (λ x. a ∷ x) (split-last b hb.1))))

found_status :
    (a b : String)
    → IsSegment a
    → IsSegment b
    → small_match status_pattern ("/deploystatus/" <> (a <> ("/" <> b)))
      ≡ some (("namespace", a) ∷ ("deployName", b) ∷ [])
unfolding small_match
found_status a b ha hb = ap (two_parts "deploystatus") (
    ap (split "/") (append_assoc "/deploystatus" "/" (a <> ("/" <> b)))
    ∙ parts "deploystatus" a b refl ha hb)

found_deletion :
    (a b : String)
    → IsSegment a
    → IsSegment b
    → small_match delete_pattern ("/app/" <> (a <> ("/" <> b)))
      ≡ some (("namespace", a) ∷ ("deployName", b) ∷ [])
unfolding small_match
found_deletion a b ha hb =
    ap (two_parts "app")
      (ap (split "/") (append_assoc "/app" "/" (a <> ("/" <> b))) ∙ parts "app" a b refl ha hb)

found_plain :
    (pattern path : String) (v : Dict String)
    → contains_char ":" pattern ≡ false
    → small_match pattern path ≡ some v
    → path ≡ pattern
unfolding small_match
found_plain pattern path v fixed h =
    (eq_iff path pattern).0 (given (path == pattern) (rw (fixed, small_match) at h))
  where
    given : (b : Bool) → (if b then some [] else none) ≡ some v → b ≡ true
    given true h = refl
    given false h = cc

pub small_match-Matches : Matches small_match
small_match-Matches = record {
  plain = found_plain;
  status = found_status;
  deletion = found_deletion;
}
