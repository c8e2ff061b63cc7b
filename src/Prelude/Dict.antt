-- ===== src/Prelude/Dict.antt =====
-- Go's maps with text keys, as lists of entries. Go leaves the order of a map's entries open: a
-- range over a map visits them in the order of the list, and the theorems hold for every list.
use Prim.Native.String.{String}
use mathlib.Core.Path.{◌≡◌, refl}
use mathlib.Core.List.{List, [], ◌∷◌}
use mathlib.Core.Option.{Option, none, some}
use native.Mathlib.Omega.{arith}
use text.Mathlib.Text.{◌==◌}
use text.Mathlib.TextEquality.{eq_iff}
use nais_api.Prelude.Tests.{if◌then◌else◌}

abbrev pub Dict {ℓ} : Type ℓ → Type ℓ
Dict V = List (String × V)

-- A map that may be nil.
abbrev pub or_empty {ℓ} : {V : Type ℓ} → Option (Dict V) → Dict V
or_empty none = []
or_empty (some m) = m

module _ {ℓ} {V : Type ℓ} where
  -- delete(m, key)
  unfoldable pub erase : String → Dict V → Dict V
  erase key [] = []
  erase key ((name, held) ∷ entries) =
      let rest = erase key entries in if name == key then rest else (name, held) ∷ rest

  -- value, ok := m[key]
  unfoldable pub lookup : String → Dict V → Option V
  lookup key [] = none
  lookup key ((name, held) ∷ entries) = if name == key then some held else lookup key entries

  pub lookup-erase :
      (key asked : String) (entries : Dict V)
      → lookup asked (erase key entries) ≡ (if key == asked then none else lookup asked entries)
  unfolding lookup erase
  lookup-erase key asked [] = ground arith
  lookup-erase key asked ((name, held) ∷ entries) =
      ground (
        arith,
        eq_iff key asked,
        eq_iff name key,
        eq_iff name asked,
        lookup-erase key asked entries,
      )

  -- m[key] = value
  unfoldable pub insert : String → V → Dict V → Dict V
  insert key value [] = (key, value) ∷ []
  insert key value ((name, held) ∷ entries) =
      if name == key then (key, value) ∷ entries else (name, held) ∷ insert key value entries

  pub lookup-insert :
      (key asked : String) (value : V) (entries : Dict V)
      → lookup asked (insert key value entries)
        ≡ (if key == asked then some value else lookup asked entries)
  unfolding lookup insert
  lookup-insert key asked value [] = refl
  lookup-insert key asked value ((name, held) ∷ entries) = ground (
    arith,
    eq_iff name asked,
    eq_iff name key,
    eq_iff key asked,
    lookup-insert key asked value entries,
  )
