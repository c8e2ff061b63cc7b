-- ===== src/Prelude/Splits.antt =====
-- strings.Split and strings.Join undo each other where no piece holds the separator.
use Prim.Native.Char.{Char}
use Prim.Native.String.{String, ◌++◌ as ◌<>◌}
use mathlib.Core.Bool.{true, false}
use mathlib.Core.List.{List, [], ◌∷◌}
use mathlib.Core.Logic.{◌≢◌, inl, inr}
use mathlib.Core.Path.{◌≡◌, refl, ap, ◌∙◌}
use text.Mathlib.TextLemmas.{cons-append, nil-append}
use text.Mathlib.Text.{◌==◌}
use text.Mathlib.TextEquality.{eq_iff}
use nais_api.Prelude.Lists.{All}
use nais_api.Prelude.Tests.{Bool-cases, or-eq_false}
use nais_api.Prelude.Text.{any_char, contains_char, is_char, join, onto_head, split}

-- The text of one character.
abbrev pub single : Char → String
single c = String.◌∷◌ c ""

pub ne-eq_false : {s t : String} → s ≢ t → (s == t) ≡ false
ne-eq_false {s} {t} h = elim (Bool-cases (s == t)) [
  | inl e ↦ absurd (h ((eq_iff s t).0 e))
  | inr e ↦ e
]

module _ (c : Char) where
  abbrev pub Lacks : String → Type 0
  Lacks s = contains_char c s ≡ false

  pub Lacks-append : (s t : String) → Lacks s → Lacks t → Lacks (s <> t)
  unfolding contains_char any_char
  Lacks-append String.[] t h k = rw nil-append k
  Lacks-append (String.◌∷◌ d s) t h k =
      let (here, later) = or-eq_false (is_char c d) _ h in
      rw (cons-append d s t) (rw here (Lacks-append s t later k))

  pub Lacks-join :
      (sep : String) (ps : List String) → Lacks sep → All Lacks ps → Lacks (join sep ps)
  unfolding join contains_char any_char
  Lacks-join sep [] h k = refl
  Lacks-join sep (p ∷ []) h (k, _) = k
  Lacks-join sep (p ∷ q ∷ ps) h (k, ks) =
      Lacks-append p _ k (Lacks-append sep _ h (Lacks-join sep (q ∷ ps) h ks))

  onto_head-Lacks :
      (d : Char) (ps : List String)
      → is_char c d ≡ false
      → All Lacks ps
      → All Lacks (onto_head d ps)
  unfolding contains_char any_char
  onto_head-Lacks d [] h k = (rw h refl, tt)
  onto_head-Lacks d (p ∷ ps) h (k, ks) = (rw h k, ks)

  -- A text that lacks a character is split into pieces that lack it.
  pub split-Lacks : (sep : Char) (s : String) → Lacks s → All Lacks (split sep s)
  unfolding contains_char any_char split
  split-Lacks sep String.[] h = (refl, tt)
  split-Lacks sep (String.◌∷◌ d s) h =
      let (here, later) = or-eq_false (is_char c d) _ h in
      elim (Bool-cases (is_char sep d)) [
        | inl e ↦ rw e (refl, split-Lacks sep s later)
        | inr e ↦ rw e (onto_head-Lacks d (split sep s) here (split-Lacks sep s later))
      ]

onto_head-ne-nil : (c : Char) (ps : List String) → onto_head c ps ≢ []
onto_head-ne-nil c [] e = cc
onto_head-ne-nil c (p ∷ ps) e = cc

pub split-ne-nil : (sep : Char) (s : String) → split sep s ≢ []
unfolding split
split-ne-nil sep String.[] = λ e. cc
split-ne-nil sep (String.◌∷◌ c s) = elim (Bool-cases (is_char sep c)) [
  | inl p ↦ rw p (λ e. cc)
  | inr p ↦ rw p (onto_head-ne-nil c (split sep s))
]

module _ (sep : Char) (same : is_char sep sep ≡ true) where
  split-lacking : (p : String) → Lacks sep p → split sep p ≡ p ∷ []
  unfolding contains_char any_char split
  split-lacking String.[] h = refl
  split-lacking (String.◌∷◌ d p) h =
      let (here, later) = or-eq_false (is_char sep d) _ h in rw (here, split-lacking p later) refl

  split-first : (p s : String) → Lacks sep p → split sep (p <> (single sep <> s)) ≡ p ∷ split sep s
  unfolding contains_char any_char split
  split-first String.[] s h = rw (nil-append, cons-append sep "" s, nil-append, same) refl
  split-first (String.◌∷◌ d p) s h =
      let (here, later) = or-eq_false (is_char sep d) _ h in
      rw (cons-append d p (single sep <> s), here, split-first p s later) refl

  -- Splitting what was joined gives the pieces back, if there is one and none holds the separator.
  pub split-join :
      (ps : List String) → ps ≢ [] → All (Lacks sep) ps → split sep (join (single sep) ps) ≡ ps
  unfolding join
  split-join [] given h = absurd (given refl)
  split-join (p ∷ []) given (h, _) = split-lacking p h
  split-join (p ∷ q ∷ ps) given (h, hs) =
      split-first p (join (single sep) (q ∷ ps)) h ∙ ap (◌∷◌ p) (split-join (q ∷ ps) (λ e. cc) hs)
