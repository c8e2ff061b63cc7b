-- ===== src/AppError.antt =====
-- The error of a handler, with its status code (api/api.go).
use nais_api.Prelude.{Option, String, none, some, ℕ, ◌<>◌}
use nais_api.Prelude.Int.{pos, ℤ}
use nais_api.Prelude.Outcome.{GoError}
use nais_api.Prelude.Text.{itoa}

-- `original` is none for a nil error.
pub record AppError : Type 0 where
  pub original : Option GoError
  pub message : String
  pub status_code : ℤ

-- appError.Error
unfoldable pub describe : AppError → String
unfolding itoa
describe e = elim e.original [
  | some o ↦ e.message <> ": " <> o.text <> " (" <> itoa e.status_code <> ")"
  | none ↦ e.message <> " (" <> itoa e.status_code <> ")"
]

abbrev pub app_error : Option GoError → String → ℕ → AppError
app_error original message code = record {
  original = original;
  message = message;
  status_code = pos code;
}
