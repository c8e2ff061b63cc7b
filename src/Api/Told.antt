-- ===== src/Api/Told.antt =====
-- What the answer to a deployment tells (api/api.go).

use text.Mathlib.TextLemmas.{append-nil, append_assoc, nil-append}
use nais_api.Api.{
  create_response, ensure_property_compatibility, line_if, warning_lines, warnings_text,
}
use nais_api.Creator.Apply.{DeploymentResult}
use nais_api.Event.{environment}
use nais_api.Prelude.{
  Bool-cases, List, Option, String, [], ap, if◌then◌else◌, inl, inr, none, refl, some, sym, ◌++◌,
  ◌<>◌, ◌==◌, ◌∙◌, ◌∷◌, ◌≡◌,
}
use nais_api.Request.{Deploy}

-- A line, if there is something to tell.
abbrev pub told : {A : Type 0} → Option A → String → List String
told none line = []
told (some a) line = line ∷ []

abbrev pub all_of : List String → String
all_of [] = ""
all_of (line ∷ lines) = line <> all_of lines

-- What was made, a line each.
abbrev pub told_of : DeploymentResult → List String
told_of d =
    told d.deployment "- created deployment\n"
    ++ (told d.secret "- created secret\n"
        ++ (told d.service "- created service\n"
            ++ (told d.ingress "- created ingress\n"
                ++ (told d.autoscaler "- created autoscaler\n"
                    ++ (told d.alerts_config_map "- updated alerts configmap (app-rules)\n"
                        ++ (told d.redis "- created redis\n"
                            ++ (told d.redis_service "- created redis service\n"
                                ++ (told d.service_account "- created serviceaccount\n"
                                    ++ told d.role_binding "- created rolebinding\n"))))))))

-- The warning that goes with a request which gives an environment.
abbrev pub warning_of : String → String
warning_of environment =
    if environment == ""
    then ""
    else "\nWarnings:\n- Specifying environment is deprecated, specify namespace instead.\n"

-- A line before what the later ones make.
line_if-told :
    {A : Type 0} (o : Option A) (line : String) (more : List String) (rest text : String)
    → text ≡ all_of more <> rest
    → line_if o line <> text ≡ all_of (told o line ++ more) <> rest
line_if-told none line more rest text h = nil-append text ∙ h
line_if-told (some a) line more rest text h =
    ap (λ s. line <> s) h ∙ sym (append_assoc line (all_of more) rest)

last_told :
    {A : Type 0} (o : Option A) (line rest : String)
    → line_if o line <> rest ≡ all_of (told o line) <> rest
last_told none line rest = refl
last_told (some a) line rest = ap (λ s. s <> rest) (sym (append-nil line))

warnings-eq :
    (r : Deploy) → warnings_text (ensure_property_compatibility r) ≡ warning_of r.environment
unfolding ensure_property_compatibility warning_lines
warnings-eq r = elim (Bool-cases (r.environment == "")) [ inl e ↦ rw e refl | inr e ↦ rw e refl ]

pub create_response-told :
    (d : DeploymentResult) (r : Deploy)
    → create_response d (ensure_property_compatibility r)
      ≡ "result: \n" <> (all_of (told_of d) <> warning_of r.environment)
unfolding create_response
create_response-told d r =
    ap (λ s. "result: \n" <> s)
      (line_if-told d.deployment _ _ _ _ (
        line_if-told d.secret _ _ _ _ (
          line_if-told d.service _ _ _ _ (
            line_if-told d.ingress _ _ _ _ (
              line_if-told d.autoscaler _ _ _ _ (
                line_if-told d.alerts_config_map _ _ _ _ (
                  line_if-told d.redis _ _ _ _ (
                    line_if-told d.redis_service _ _ _ _ (
                      line_if-told d.service_account _ _ _ _ (
                        ap (λ s. line_if d.role_binding "- created rolebinding\n" <> s)
                          (warnings-eq r)
                        ∙ last_told d.role_binding "- created rolebinding\n" _))))))))))
