-- ===== src/Api/Routes/Laws.antt =====
-- Which handler a path leads to (api/api.go).

use Prim.Native.Char.{Char, code}
use text.Mathlib.TextLemmas.{cons-append}
use nais_api.Api.{Server}
use nais_api.Api.Deployment.{World}
use nais_api.Api.Routes.{
  HttpCall, Printer, answered, delete, delete_pattern, delete_route, dispatch, get, handler,
  isalive_pattern, metrics_pattern, route, status_of, status_pattern, status_route, version_pattern,
}
use nais_api.Kubernetes.Cluster.{Cluster}
use nais_api.Prelude.{
  Option, Option-cases, String, [], ap, arith, false, inl, inr, none, refl, some, sym, ℕ, ◌<>◌, ◌∙◌,
  ◌∷◌, ◌≡◌, ◌≢◌,
}
use nais_api.Prelude.Dict.{Dict, lookup}
use nais_api.Prelude.Text.{contains_char}

-- The code of the second character.
abbrev second : String → ℕ
second String.[] = 0
second (String.◌∷◌ c String.[]) = 0
second (String.◌∷◌ c (String.◌∷◌ d s)) = code d

second-append : (c d : Char) (s t : String) → second ((String.◌∷◌ c (String.◌∷◌ d s)) <> t) ≡ code d
second-append c d s t = rw (cons-append c (String.◌∷◌ d s) t, cons-append d s t) refl

-- The path of a status is none of the fixed ones for the method.
status_path-ne : (pattern t : String) → second pattern ≢ 100 → "/deploystatus/" <> t ≢ pattern
status_path-ne pattern t other h =
    other (sym (ap second h) ∙ second-append "/" "d" "eploystatus/" t)

-- A part of a path.
abbrev pub IsSegment : String → Type 0
IsSegment s = (s ≢ "") × (contains_char "/" s ≡ false)

-- What goji documents of patterns: one without a variable is met by no path but itself, and a
-- variable stands for one part of a path.
pub record Matches (match_path : String → String → Option (Dict String)) : Type 0 where
  pub plain :
      (pattern path : String) (v : Dict String)
      → contains_char ":" pattern ≡ false
      → match_path pattern path ≡ some v
      → path ≡ pattern
  pub status :
      (a b : String)
      → IsSegment a
      → IsSegment b
      → match_path status_pattern ("/deploystatus/" <> a <> "/" <> b)
        ≡ some (("namespace", a) ∷ ("deployName", b) ∷ [])
  pub deletion :
      (a b : String)
      → IsSegment a
      → IsSegment b
      → match_path delete_pattern ("/app/" <> a <> "/" <> b)
        ≡ some (("namespace", a) ∷ ("deployName", b) ∷ [])

module _ (match_path : String → String → Option (Dict String)) (goji : Matches match_path) where
  passed_by :
      (pattern path : String)
      → contains_char ":" pattern ≡ false
      → path ≢ pattern
      → match_path pattern path ≡ none
  passed_by pattern path fixed other = elim (Option-cases (match_path pattern path)) [
    | inl p ↦ p
    | inr (v, p) ↦ absurd (other (goji.plain pattern path v fixed p))
  ]

  -- The patterns that come before that of a status.
  route-status :
      (a b : String)
      → IsSegment a
      → IsSegment b
      → route match_path get ("/deploystatus/" <> a <> "/" <> b)
        ≡ status_route (("namespace", a) ∷ ("deployName", b) ∷ [])
  unfolding route contains_char
  route-status a b ha hb =
      rw
        (passed_by isalive_pattern ("/deploystatus/" <> a <> "/" <> b) refl
          (status_path-ne isalive_pattern (a <> "/" <> b) (λ h. omega (arith, h))))
        (rw
          (passed_by metrics_pattern ("/deploystatus/" <> a <> "/" <> b) refl
            (status_path-ne metrics_pattern (a <> "/" <> b) (λ h. omega (arith, h))))
          (rw
            (passed_by version_pattern ("/deploystatus/" <> a <> "/" <> b) refl
              (status_path-ne version_pattern (a <> "/" <> b) (λ h. omega (arith, h))))
            (rw (goji.status a b ha hb))))

  route-delete :
      (a b : String)
      → IsSegment a
      → IsSegment b
      → route match_path delete ("/app/" <> a <> "/" <> b)
        ≡ delete_route (("namespace", a) ∷ ("deployName", b) ∷ [])
  unfolding route
  route-delete a b ha hb = rw (goji.deletion a b ha hb)

  module _ {F N : Type 0} (c : Cluster) (server : Server c F N) (printer : Printer)
      (version revision : String) where
    -- The status of a deployment is asked for by its path.
    pub handler-status :
        (a b : String) (call : HttpCall) (w : World c server)
        → IsSegment a
        → IsSegment b
        → call.method ≡ get
        → call.path ≡ "/deploystatus/" <> a <> "/" <> b
        → handler c server printer version revision match_path call w
          ≡ answered (status_of c server printer version revision a b w)
    unfolding handler dispatch lookup
    handler-status a b call w ha hb by_get at =
        ap (λ r. dispatch c server printer version revision r call w)
          (ap (λ m. route match_path m call.path) by_get
            ∙ (ap (route match_path get) at ∙ route-status a b ha hb))
