-- ===== src/Fasit/Naming.antt =====
-- Which characters the names of a resource's variables are free of (api/fasit.go).
use Prim.Native.Char.{Char, code}
use Prim.Native.String.{char_at}
use nais_api.Fasit.{
  NaisResource, full_name, normalize_property_name, to_environment_variable, to_resource_variable,
}
use nais_api.Prelude.{
  Bool, Bool-cases, String, ap, arith, eqb, false, if◌then◌else◌, inl, inr, not, or-eq_false, refl,
  suc, sym, true, zero, ℕ, ◌&&◌, ◌-◌, ◌<◌, ◌||◌, ◌∙◌, ◌≡◌,
}
use nais_api.Prelude.Text.{
  any_char, contains_char, is_char, is_lower, is_upper, lower_char, map_chars, replace_char,
  to_lower, to_upper, upper_char,
}

-- The test holds of every number below the bound.
unfoldable all_below : ℕ → (ℕ → Bool) → Bool
all_below zero p = true
all_below (suc k) p = p k && all_below k p

all_below-at : (k n : ℕ) (p : ℕ → Bool) → all_below k p ≡ true → n < k → p n ≡ true
unfolding all_below
all_below-at zero n p h l = absurd (omega (arith, l))
all_below-at (suc k) n p h l = elim (Bool-cases (eqb n k)) [
  | inl e ↦ ground (arith, e, h)
  | inr e ↦ all_below-at k n p (ground (arith, h)) (ground (arith, e, l))
]

any_char-map_chars :
    (p : Char → Bool) (f : Char → Char) (s : String)
    → ((c : Char) → p (f c) ≡ false)
    → any_char p (map_chars f s) ≡ false
unfolding any_char map_chars
any_char-map_chars p f String.[] h = refl
any_char-map_chars p f (String.◌∷◌ c s) h = rw (h c) (any_char-map_chars p f s h)

map_chars-map_chars :
    (f g : Char → Char) (s : String) → map_chars f (map_chars g s) ≡ map_chars (λ c. f (g c)) s
unfolding map_chars
map_chars-map_chars f g String.[] = refl
map_chars-map_chars f g (String.◌∷◌ c s) =
    ap (λ t. String.◌∷◌ (f (g c)) t) (map_chars-map_chars f g s)

abbrev swap_char : Char → Char → Char → Char
swap_char old new c = if is_char old c then new else c

-- Replacing a character that is absent changes nothing, so the test before it may be dropped.
map_chars_absent :
    (old new : Char) (s : String)
    → contains_char old s ≡ false
    → map_chars (swap_char old new) s ≡ s
unfolding contains_char any_char map_chars
map_chars_absent old new String.[] h = refl
map_chars_absent old new (String.◌∷◌ c s) h =
    let (here, later) = or-eq_false (is_char old c) _ h in
    rw here (ap (λ t. String.◌∷◌ c t) (map_chars_absent old new s later))

guarded :
    (old new : Char) (s : String)
    → (if contains_char old s then replace_char old new s else s) ≡ map_chars (swap_char old new) s
unfolding replace_char
guarded old new s = elim (Bool-cases (contains_char old s)) [
  | inl e ↦ rw e refl
  | inr e ↦ rw e (sym (map_chars_absent old new s e))
]

abbrev clean_char : Char → Char
clean_char c = swap_char "-" "_" (swap_char ":" "_" (swap_char "." "_" c))

normalize_property_name-eq :
    (name : String) → normalize_property_name name ≡ map_chars clean_char name
unfolding normalize_property_name
normalize_property_name-eq name =
    let dots = map_chars (swap_char "." "_") name in
    let colons = map_chars (swap_char ":" "_") dots in
    rw (guarded "." "_" name, guarded ":" "_" dots, guarded "-" "_" colons)
      (map_chars-map_chars (swap_char "-" "_") (swap_char ":" "_") dots
        ∙ map_chars-map_chars (λ c. swap_char "-" "_" (swap_char ":" "_" c)) (swap_char "." "_")
            name)

-- No dot, colon or dash, which Kubernetes or a shell would not take in a name.
abbrev pub is_separator : Char → Bool
is_separator c = is_char "." c || is_char ":" c || is_char "-" c

clean_char-no_separator : (c : Char) → is_separator (clean_char c) ≡ false
clean_char-no_separator c = elim (Bool-cases (is_char "." c)) [
  | inl e ↦ rw e refl
  | inr e ↦ elim (Bool-cases (is_char ":" c)) [
    | inl d ↦ rw (e, d) refl
    | inr d ↦ elim (Bool-cases (is_char "-" c)) [
      | inl b ↦ rw (e, d, b) refl
      | inr b ↦ rw (e, d, b, e, d, b) refl
    ]
  ]
]

-- Neither a separator nor an upper-case (lower-case) letter.
abbrev pub unfit_lower : Char → Bool
unfit_lower c = is_separator c || is_upper c

abbrev pub unfit_upper : Char → Bool
unfit_upper c = is_separator c || is_lower c

lower_letters : (n : ℕ) → n < 26 → not (unfit_lower (char_at "abcdefghijklmnopqrstuvwxyz" n)) ≡ true
unfolding all_below
lower_letters n l =
    all_below-at 26 n (λ n. not (unfit_lower (char_at "abcdefghijklmnopqrstuvwxyz" n))) refl l

upper_letters : (n : ℕ) → n < 26 → not (unfit_upper (char_at "ABCDEFGHIJKLMNOPQRSTUVWXYZ" n)) ≡ true
unfolding all_below
upper_letters n l =
    all_below-at 26 n (λ n. not (unfit_upper (char_at "ABCDEFGHIJKLMNOPQRSTUVWXYZ" n))) refl l

not-true : (b : Bool) → not b ≡ true → b ≡ false
not-true b h = ground (arith, h)

lower_char-fits : (c : Char) → is_separator c ≡ false → unfit_lower (lower_char c) ≡ false
unfolding lower_char
lower_char-fits c h = elim (Bool-cases (is_upper c)) [
  | inl u ↦ rw u (not-true _ (lower_letters (code c - 65) (ground (arith, u))))
  | inr u ↦ rw (u, h, u) refl
]

upper_char-fits : (c : Char) → is_separator c ≡ false → unfit_upper (upper_char c) ≡ false
unfolding upper_char
upper_char-fits c h = elim (Bool-cases (is_lower c)) [
  | inl l ↦ rw l (not-true _ (upper_letters (code c - 97) (ground (arith, l))))
  | inr l ↦ rw (l, h, l) refl
]

to_lower-eq :
    (s : String)
    → to_lower (normalize_property_name s) ≡ map_chars (λ c. lower_char (clean_char c)) s
unfolding to_lower
to_lower-eq s = rw (normalize_property_name-eq s) (map_chars-map_chars lower_char clean_char s)

named_lower : (s : String) → any_char unfit_lower (to_lower (normalize_property_name s)) ≡ false
named_lower s = rw (to_lower-eq s) (
    any_char-map_chars unfit_lower (λ c. lower_char (clean_char c)) s
      λ c. lower_char-fits (clean_char c) (clean_char-no_separator c))

named_upper :
    (s : String) → any_char unfit_upper (to_upper (to_lower (normalize_property_name s))) ≡ false
unfolding to_upper
named_upper s =
    rw (to_lower-eq s, map_chars-map_chars upper_char (λ c. lower_char (clean_char c)) s)
      (any_char-map_chars unfit_upper (λ c. upper_char (lower_char (clean_char c))) s
        λ c.
          upper_char-fits (lower_char (clean_char c))
            ((or-eq_false _ _ (lower_char-fits (clean_char c) (clean_char-no_separator c))).0))

-- The name of a resource's variable has no dot, colon or dash and no upper-case letter, and the name
-- of its environment variable has none of these separators and no lower-case letter.
pub variable_names-fit :
    (r : NaisResource) (property : String)
    → (any_char unfit_lower (to_resource_variable r property) ≡ false)
      × (any_char unfit_upper (to_environment_variable r property) ≡ false)
unfolding to_environment_variable to_resource_variable
variable_names-fit r property =
    (named_lower (full_name r property), named_upper (full_name r property))
