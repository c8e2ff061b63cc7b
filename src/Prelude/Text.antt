-- ===== src/Prelude/Text.antt =====
-- Go's `strings` and `strconv`, as far as the program uses them. Texts are native strings. The case
-- mappings are those of ASCII; every other character is left alone.
use Prim.Native.Char.{Char, code}
use Prim.Native.Nat.{ℕ, zero, suc, ◌+◌, ◌-◌, ◌/◌, ◌%◌}
use Prim.Native.String.{String, ◌++◌ as ◌<>◌, char_at}
use mathlib.Core.Bool.{Bool, true, false, ◌&&◌, ◌||◌}
use mathlib.Core.List.{List, [], ◌∷◌}
use text.Mathlib.Text.{starts_with}
use nais_api.Prelude.Tests.{leb, eqb, if◌then◌else◌}
use nais_api.Prelude.Int.{ℤ, pos, negsuc}

-- Every character under a function.
unfoldable pub map_chars : (Char → Char) → String → String
map_chars f String.[] = ""
map_chars f (String.◌∷◌ c s) = String.◌∷◌ (f c) (map_chars f s)

-- Some character of the text passes the test.
unfoldable pub any_char : (Char → Bool) → String → Bool
any_char p String.[] = false
any_char p (String.◌∷◌ c s) = p c || any_char p s

abbrev pub is_upper : Char → Bool
is_upper c = leb 65 (code c) && leb (code c) 90

abbrev pub is_lower : Char → Bool
is_lower c = leb 97 (code c) && leb (code c) 122

unfoldable pub lower_char : Char → Char
lower_char c = if is_upper c then char_at "abcdefghijklmnopqrstuvwxyz" (code c - 65) else c

unfoldable pub upper_char : Char → Char
upper_char c = if is_lower c then char_at "ABCDEFGHIJKLMNOPQRSTUVWXYZ" (code c - 97) else c

-- strings.ToLower, strings.ToUpper
unfoldable pub to_lower : String → String
unfolding map_chars lower_char
to_lower = map_chars lower_char

unfoldable pub to_upper : String → String
unfolding map_chars upper_char
to_upper = map_chars upper_char

abbrev pub is_char : Char → Char → Bool
is_char c d = eqb (code c) (code d)

-- strings.Contains(s, c) and strings.Replace(s, old, new, -1), for texts of one character
unfoldable pub contains_char : Char → String → Bool
unfolding any_char
contains_char c s = any_char (is_char c) s

unfoldable pub replace_char : Char → Char → String → String
unfolding map_chars
replace_char old new s = map_chars (λ c. if is_char old c then new else c) s

-- `drop_chars n s` is `s` without its first `n` characters.
unfoldable pub drop_chars : ℕ → String → String
drop_chars zero s = s
drop_chars (suc n) String.[] = ""
drop_chars (suc n) (String.◌∷◌ c s) = drop_chars n s

unfoldable pub char_count : String → ℕ
char_count String.[] = 0
char_count (String.◌∷◌ c s) = suc (char_count s)

-- strings.Replace(s, old, new, -1) for a text `old` that is not empty: the scan skips what is left
-- of a match before it looks for the next.
unfoldable pub replace_from : String → String → ℕ → String → String
replace_from old new skip String.[] = ""
replace_from old new (suc skip) (String.◌∷◌ c s) = replace_from old new skip s
replace_from old new zero (String.◌∷◌ c s) =
    if starts_with (String.◌∷◌ c s) old
    then new <> replace_from old new (char_count old - 1) s
    else String.◌∷◌ c (replace_from old new 0 s)

unfoldable pub replace_all : String → String → String → String
unfolding replace_from char_count
replace_all old new s = replace_from old new 0 s

-- strings.Replace(s, old, new, 1) for a text `old` that is not empty
unfoldable pub replace_first : String → String → String → String
replace_first old new String.[] = ""
replace_first old new (String.◌∷◌ c s) =
    if starts_with (String.◌∷◌ c s) old
    then new <> drop_chars (char_count old) (String.◌∷◌ c s)
    else String.◌∷◌ c (replace_first old new s)

-- The first piece is extended by a character.
abbrev pub onto_head : Char → List String → List String
onto_head c [] = String.◌∷◌ c "" ∷ []
onto_head c (p ∷ ps) = String.◌∷◌ c p ∷ ps

-- strings.Split(s, sep) for a separator of one character: never an empty list
unfoldable pub split : Char → String → List String
split sep String.[] = "" ∷ []
split sep (String.◌∷◌ c s) =
    let pieces = split sep s in if is_char sep c then "" ∷ pieces else onto_head c pieces

-- strings.Join
unfoldable pub join : String → List String → String
join sep [] = ""
join sep (s ∷ []) = s
join sep (s ∷ t ∷ ts) = s <> sep <> join sep (t ∷ ts)

-- strings.LastIndex(s, c) + 1 in characters, so that 0 says "not found"
unfoldable pub last_index_from : Char → ℕ → ℕ → String → ℕ
last_index_from c at found String.[] = found
last_index_from c at found (String.◌∷◌ d s) =
    last_index_from c (at + 1) (if is_char c d then at + 1 else found) s

unfoldable pub last_position : Char → String → ℕ
unfolding last_index_from
last_position c s = last_index_from c 0 0 s

-- Decimal digits before `acc`; `fuel` above the number is enough.
unfoldable pub digits_onto : ℕ → ℕ → String → String
digits_onto zero n acc = acc
digits_onto (suc fuel) n acc =
    let rest = digits_onto fuel (n / 10) (String.◌∷◌ (char_at "0123456789" (n % 10)) acc) in
    if leb n 9 then String.◌∷◌ (char_at "0123456789" (n % 10)) acc else rest

-- strconv.Itoa and %d
unfoldable pub itoa : ℤ → String
unfolding digits_onto
itoa (pos n) = digits_onto (suc n) n ""
itoa (negsuc n) = "-" <> digits_onto (suc (suc n)) (suc n) ""

-- strconv.FormatBool and %t
unfoldable pub format_bool : Bool → String
format_bool true = "true"
format_bool false = "false"
