-- ===== src/Cli/Shell/Reading.antt =====
-- What the reading of a command's flags comes to, in whatever order they are met (cli/cmd/wait.go,
-- cli/cmd/deploy.go and cli/cmd/upload.go).
use mathlib.Core.List.{Memᴰ, Permᴰ}
use nais_api.Cli.Shell.{Cmd, Console, Flags, Stored, fail, go_on, goes, or_exit, read_flags}
use nais_api.Prelude.{
  All, Bool, Bool-cases, List, Option, Pairwise, String, [], ap, eq_iff, false, if◌then◌else◌, inl,
  inr, none, refl, some, subst, sym, true, ◌==◌, ◌↔◌, ◌∙◌, ◌∷◌, ◌≡◌, ◌⊎◌,
}
use nais_api.Prelude.Outcome.{GoError}

module _ {D : Type 0} where
  -- A flag that is not empty is stored.
  abbrev pub kept : (String → D → D) → D → String ⊎ GoError → Option D
  kept store d (inl value) = some (if value == "" then d else store value d)
  kept store d (inr e) = none

  abbrev pub then_some : Option D → (D → Option D) → Option D
  then_some (some d) f = f d
  then_some none f = none

  then_some_assoc :
      (o : Option D) (f g : D → Option D)
      → then_some (then_some o f) g ≡ then_some o (λ d. then_some (f d) g)
  then_some_assoc (some d) f g = refl
  then_some_assoc none f g = refl

pub kept-eq :
    {D : Type 0} (store : String → D → D) (d : D)
    → store "" d ≡ d
    → (v : String) → (if v == "" then d else store v d) ≡ store v d
kept-eq store d h v = elim (Bool-cases (v == "")) [
  | inl p ↦ rw p (sym h ∙ ap (λ x. store x d) (sym ((eq_iff v "").0 p)))
  | inr p ↦ rw p refl
]

module _ {D : Type 0} (flags : Flags) where
  abbrev pub kept_of : Stored D → D → Option D
  kept_of (key, store) d = kept store d (flags.get_string key)

  -- What is stored when all flags are read; nothing if one cannot be read.
  unfoldable pub stored : List (Stored D) → D → Option D
  stored [] d = some d
  stored (x ∷ more) d = then_some (kept_of x d) (stored more)

  -- It does not matter which of two values is stored first.
  abbrev pub Apart : Stored D → Stored D → Type 0
  Apart x y = (v w : String) (d : D) → y.1 w (x.1 v d) ≡ x.1 v (y.1 w d)

  -- The two flags may be read in either order.
  abbrev pub Commute : Stored D → Stored D → Type 0
  Commute x y = (d : D) → then_some (kept_of x d) (kept_of y) ≡ then_some (kept_of y d) (kept_of x)

  pub Commute-stores :
      (x y : Stored D) → ((v w : String) (d : D) → y.1 w (x.1 v d) ≡ x.1 v (y.1 w d)) → Commute x y
  Commute-stores (key, store) (key', store') h d = go (flags.get_string key) (flags.get_string key')
    where
      go :
          (a b : String ⊎ GoError)
          → then_some (kept store d a) (λ d'. kept store' d' b)
            ≡ then_some (kept store' d b) (λ d'. kept store d' a)
      go (inl v) (inl w) = ap some (chosen (v == "") (w == ""))
        where
          chosen :
              (p q : Bool)
              → (if q then if p then d else store v d else store' w (if p then d else store v d))
                ≡ (if p then if q then d else store' w d else store v (if q then d else store' w d))
          chosen true true = refl
          chosen true false = refl
          chosen false true = refl
          chosen false false = h v w d
      go (inl v) (inr e) = refl
      go (inr e) (inl w) = refl
      go (inr e) (inr e') = refl

  stored-swap :
      (x y : Stored D) (more : List (Stored D))
      → Commute x y
      → (d : D) → stored (x ∷ y ∷ more) d ≡ stored (y ∷ x ∷ more) d
  unfolding stored
  stored-swap x y more h d =
      sym (then_some_assoc (kept_of x d) (kept_of y) (stored more))
      ∙ (ap (λ o. then_some o (stored more)) (h d)
          ∙ then_some_assoc (kept_of y d) (kept_of x) (stored more))

  abbrev pub Commuting : List (Stored D) → Type 0
  Commuting order = (x y : Stored D) → Memᴰ x order → Memᴰ y order → Commute x y

  All-memᴰ :
      (P : Stored D → Type 0) {x : Stored D} (order : List (Stored D))
      → All P order
      → Memᴰ x order
      → P x
  All-memᴰ P [] _ m = elim m [ ]
  All-memᴰ P (y ∷ order) (here, later) (Memᴰ.head e) = subst P (sym e) here
  All-memᴰ P (y ∷ order) (here, later) (Memᴰ.tail m) = All-memᴰ P order later m

  Pairwise-Commuting : (order : List (Stored D)) → Pairwise Commute order → Commuting order
  Pairwise-Commuting [] _ x y m n = elim m [ ]
  Pairwise-Commuting (z ∷ order) (here, later) x y (Memᴰ.head e) (Memᴰ.head f) =
      subst (λ a. Commute a y) (sym e) (subst (Commute z) (sym f) (λ d. refl))
  Pairwise-Commuting (z ∷ order) (here, later) x y (Memᴰ.head e) (Memᴰ.tail n) =
      subst (λ a. Commute a y) (sym e) (All-memᴰ (Commute z) order here n)
  Pairwise-Commuting (z ∷ order) (here, later) x y (Memᴰ.tail m) (Memᴰ.head f) =
      subst (Commute x) (sym f) (λ d. sym (All-memᴰ (Commute z) order here m d))
  Pairwise-Commuting (z ∷ order) (here, later) x y (Memᴰ.tail m) (Memᴰ.tail n) =
      Pairwise-Commuting order later x y m n

  All-Commute :
      (x : Stored D) (order : List (Stored D)) → All (Apart x) order → All (Commute x) order
  All-Commute x [] h = tt
  All-Commute x (y ∷ order) (h, hs) = (Commute-stores x y h, All-Commute x order hs)

  Pairwise-Commute : (order : List (Stored D)) → Pairwise Apart order → Pairwise Commute order
  Pairwise-Commute [] h = tt
  Pairwise-Commute (x ∷ order) (h, hs) = (All-Commute x order h, Pairwise-Commute order hs)

  -- Flags that are stored apart may be read in either order, two by two.
  pub Apart-Commuting : (order : List (Stored D)) → Pairwise Apart order → Commuting order
  Apart-Commuting order h = Pairwise-Commuting order (Pairwise-Commute order h)

  memᴰ-perm :
      {x : Stored D} {front back : List (Stored D)} → Permᴰ front back → Memᴰ x back → Memᴰ x front
  memᴰ-perm Permᴰ.nil m = m
  memᴰ-perm (Permᴰ.cons e p) (Memᴰ.head q) = Memᴰ.head (q ∙ sym e)
  memᴰ-perm (Permᴰ.cons e p) (Memᴰ.tail m) = Memᴰ.tail (memᴰ-perm p m)
  memᴰ-perm (Permᴰ.swap e f) (Memᴰ.head q) = Memᴰ.tail (Memᴰ.head (q ∙ sym f))
  memᴰ-perm (Permᴰ.swap e f) (Memᴰ.tail (Memᴰ.head q)) = Memᴰ.head (q ∙ sym e)
  memᴰ-perm (Permᴰ.swap e f) (Memᴰ.tail (Memᴰ.tail m)) = Memᴰ.tail (Memᴰ.tail m)
  memᴰ-perm (Permᴰ.trans p q) m = memᴰ-perm p (memᴰ-perm q m)

  -- If the flags may be read in either order, two by two, they may be read in every order.
  pub stored-perm :
      {front back : List (Stored D)}
      → Permᴰ front back
      → Commuting front
      → (d : D) → stored front d ≡ stored back d
  unfolding stored
  stored-perm Permᴰ.nil h d = refl
  stored-perm (Permᴰ.cons {a = x} {b = y} {l₁ = front} {l₂ = back} e p) h d = λ i.
      then_some (kept_of (e i) d)
        (λ d'. stored-perm p (λ x y m n. h x y (Memᴰ.tail m) (Memᴰ.tail n)) d' i)
  stored-perm (Permᴰ.swap {a = x} {b = y} {l = more} e f) h d =
      stored-swap x y more (h x y (Memᴰ.head refl) (Memᴰ.tail (Memᴰ.head refl))) d
      ∙ (λ i. stored (f i ∷ e i ∷ more) d)
  stored-perm (Permᴰ.trans p q) h d =
      stored-perm p h d ∙ stored-perm q (λ x y m n. h x y (memᴰ-perm p m) (memᴰ-perm p n)) d

  module _ {W B : Type 0} (message : String → GoError → String) where
    -- A command goes on with what is stored.
    pub read_flags-goes :
        (order : List (Stored D)) (d : D) (f : D → Cmd W B) (s : Console × W) (b : B)
        → ((go_on (read_flags message flags order d s) f).0 ≡ goes b)
          ↔ ((x : D) × (stored order d ≡ some x) × ((f x s).0 ≡ goes b))
    unfolding read_flags stored
    read_flags-goes [] d f s b =
        (λ h. (d, refl, h), λ (x, p, h). subst (λ y. (f y s).0 ≡ goes b) (cc p) h)
    read_flags-goes ((key, store) ∷ more) d f s b =
        go (flags.get_string key) (λ d'. read_flags-goes more d' f s b)
      where
        go :
            (r : String ⊎ GoError)
            → ((d' : D)
                → ((go_on (read_flags message flags more d' s) f).0 ≡ goes b)
                  ↔ ((x : D) × (stored more d' ≡ some x) × ((f x s).0 ≡ goes b)))
            → ((go_on
                  (go_on (or_exit fail (message key) r s) (λ value.
                    read_flags message flags more (if value == "" then d else store value d)))
                  f).0
                ≡ goes b)
              ↔ ((x : D) × (then_some (kept store d r) (stored more) ≡ some x)
                  × ((f x s).0 ≡ goes b))
        go (inl value) rest = rest (if value == "" then d else store value d)
        go (inr e) rest = (λ h. cc, λ (x, p, h). cc)
