-- ===== src/Proxy/Line.antt =====
-- How the Java virtual machine reads a line of options (proxyopts/proxyopts.go).
use Prim.Native.Char.{Char}
use text.Mathlib.TextLemmas.{cons-append, nil-append}
use nais_api.Prelude.{
  All, List, Option, String, [], ap, if◌then◌else◌, map, none, or-eq_false, refl, some, ◌&&◌, ◌<>◌,
  ◌∙◌, ◌∷◌, ◌≡◌, ◌≢◌,
}
use nais_api.Prelude.Splits.{Lacks, Lacks-append, split-join}
use nais_api.Prelude.Text.{any_char, contains_char, is_char, split}
use nais_api.Proxy.{JavaOption, format_option, format_options}

onto_key : Char → Option (String × String) → Option (String × String)
onto_key c none = none
onto_key c (some (key, value)) = some (String.◌∷◌ c key, value)

-- The key and the value of an option, which the first separator parts.
cut : Char → String → Option (String × String)
cut sep String.[] = none
cut sep (String.◌∷◌ c s) =
    let later = cut sep s in if is_char sep c then some ("", s) else onto_key c later

-- A word of the line: `-Dkey=value`.
read_word : String → Option (String × String)
read_word String.[] = none
read_word (String.◌∷◌ c String.[]) = none
read_word (String.◌∷◌ c (String.◌∷◌ d s)) =
    if is_char "-" c && is_char "D" d then cut "=" s else none

-- The words of the line, which spaces part.
pub read_line : String → List (Option (String × String))
unfolding read_word split
read_line line = map read_word (split " " line)

cut-append :
    (key value : String) → Lacks "=" key → cut "=" (key <> ("=" <> value)) ≡ some (key, value)
unfolding cut onto_key contains_char any_char
cut-append String.[] value h = rw (nil-append, cons-append "=" "" value, nil-append) refl
cut-append (String.◌∷◌ c key) value h =
    let (here, later) = or-eq_false (is_char "=" c) _ h in
    rw (cons-append c key ("=" <> value), here, cut-append key value later) refl

read_word-format_option :
    (o : JavaOption) → Lacks "=" o.key → read_word (format_option o) ≡ some (o.key, o.value)
unfolding read_word format_option
read_word-format_option o h =
    rw (cons-append "-" "D" _, cons-append "D" "" _, nil-append) (cut-append o.key o.value h)

abbrev pub entry : JavaOption → Option (String × String)
entry o = some (o.key, o.value)

-- The key has no space and no `=`, and the value no space.
abbrev pub IsPlain : JavaOption → Type 0
IsPlain o = Lacks " " o.key × Lacks "=" o.key × Lacks " " o.value

format_option-Lacks : (o : JavaOption) → IsPlain o → Lacks " " (format_option o)
unfolding format_option contains_char
format_option-Lacks o (h, _, k) =
    Lacks-append " " "-D" (o.key <> ("=" <> o.value)) refl
      (Lacks-append " " o.key ("=" <> o.value) h (Lacks-append " " "=" o.value refl k))

words-Lacks :
    (options : List JavaOption) → All IsPlain options → All (Lacks " ") (map format_option options)
words-Lacks [] h = tt
words-Lacks (o ∷ options) (h, hs) = (format_option-Lacks o h, words-Lacks options hs)

words-read :
    (options : List JavaOption)
    → All IsPlain options
    → map read_word (map format_option options) ≡ map entry options
words-read [] h = refl
words-read (o ∷ options) ((_, h, _), hs) =
    rw (read_word-format_option o h, words-read options hs) refl

-- The options of a line are read back, if there is one.
pub read_line-format_options :
    (options : List JavaOption)
    → options ≢ []
    → All IsPlain options
    → read_line (format_options options) ≡ map entry options
unfolding read_line format_options
read_line-format_options [] given h = absurd (given refl)
read_line-format_options (o ∷ options) given h =
    ap (map read_word) (
      split-join " " refl (map format_option (o ∷ options)) (λ e. cc) (words-Lacks (o ∷ options) h))
    ∙ words-read (o ∷ options) h
