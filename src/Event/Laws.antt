-- ===== src/Event/Laws.antt =====
-- How well an event tells the time and the image of a deployment (api/deploymentevent.go).
use nais_api.Event.{
  convert_timestamp, get_timestamp_as_time, nanos_per_second, plus, times_second, unix,
}
use nais_api.Prelude.{ap, arith, sym, ℕ, ◌%◌, ◌*◌, ◌+◌, ◌-◌, ◌/◌, ◌<◌, ◌↔◌, ◌∙◌, ◌≡◌}
use nais_api.Prelude.Int.{int32, neg_part, negsuc, pos, pos_part, ℤ, ◌<ℤ◌, ◌≤ℤ◌}

-- A multiple, of either sign.
abbrev pub IsMultiple : ℕ → ℤ → Type 0
IsMultiple m (pos n) = n % m ≡ 0
IsMultiple m (negsuc n) = (n + 1) % m ≡ 0

int32_range : (t : ℤ) → (negsuc 2147483647 ≤ℤ int32 t) × (int32 t ≤ℤ pos 2147483647)
unfolding int32
int32_range t = ground arith

-- t.Nanosecond(): what is left of a time after its seconds.
abbrev pub nanosecond : ℤ → ℕ
nanosecond (pos n) = n % nanos_per_second
nanosecond (negsuc n) = nanos_per_second - 1 - n % nanos_per_second

second_split : (t : ℤ) → t ≡ plus (times_second (unix t)) (pos (nanosecond t))
unfolding plus
second_split (pos n) = ground arith
second_split (negsuc n) = ground arith

nanosecond_range : (t : ℤ) → nanosecond t < nanos_per_second
nanosecond_range (pos n) = omega arith
nanosecond_range (negsuc n) = omega arith

plus_parts :
    (a b : ℤ)
    → pos_part (plus a b) + neg_part a + neg_part b ≡ neg_part (plus a b) + pos_part a + pos_part b
unfolding plus
plus_parts a b = ground arith

plus_cancel : (s a b : ℤ) → (plus s a ≡ plus s b) ↔ (a ≡ b)
unfolding plus
plus_cancel s a b = ground arith

-- 10 ^ 9 has the factor 2 ^ 9, and no more of 2 ^ 32.
seconds_iff : (q : ℕ) → (q * 1000000000 % 4294967296 ≡ 0) ↔ (q % 8388608 ≡ 0)
seconds_iff q = ground arith

-- The 32 bits that are kept of the nanoseconds since 1970 are those of the nanoseconds within the
-- second exactly if 2 ^ 32 divides the rest, a number of whole seconds.
int32-eq_nanosecond : (t : ℤ) → (int32 t ≡ pos (nanosecond t)) ↔ IsMultiple 8388608 (unix t)
unfolding int32
int32-eq_nanosecond (pos n) = ground (arith, seconds_iff (n / nanos_per_second))
int32-eq_nanosecond (negsuc n) = ground (arith, seconds_iff (n / nanos_per_second + 1))

-- An event's time, read back, is the time of the deployment exactly if the number of whole seconds
-- from 1970 to the deployment is a multiple of 8,388,608.
pub get_timestamp_as_time-eq :
    (t : ℤ) → (get_timestamp_as_time (convert_timestamp t) ≡ t) ↔ IsMultiple 8388608 (unix t)
unfolding get_timestamp_as_time convert_timestamp
get_timestamp_as_time-eq t =
    let (there, back) = int32-eq_nanosecond t in
    (
      λ h. there (
          (plus_cancel (times_second (unix t)) (int32 t) (pos (nanosecond t))).0
            (h ∙ second_split t)),
      λ m. ap (plus (times_second (unix t))) (back m) ∙ sym (second_split t),
    )

-- An event's time, read back, is less than 3,147,483,648 nanoseconds from the time of the deployment.
pub get_timestamp_as_time_bounds :
    (t : ℤ)
    → (plus t (negsuc 3147483647) <ℤ get_timestamp_as_time (convert_timestamp t))
      × (get_timestamp_as_time (convert_timestamp t) <ℤ plus t (pos 3147483648))
unfolding get_timestamp_as_time convert_timestamp
get_timestamp_as_time_bounds t =
    let start = times_second (unix t) in
    let whole = second_split t in
    omega (
      arith,
      int32_range t,
      nanosecond_range t,
      ap pos_part whole,
      ap neg_part whole,
      plus_parts start (int32 t),
      plus_parts start (pos (nanosecond t)),
      plus_parts t (negsuc 3147483647),
      plus_parts t (pos 3147483648),
    )
