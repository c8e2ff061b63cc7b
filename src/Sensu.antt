-- ===== src/Sensu.antt =====
-- api/sensuclient.go: the message that tells Sensu of a deployment. The socket, json.Marshal and the
-- clock are parameters.
pub mod Laws
use Prim.Native.Char.{Char, code, nul}
use nais_api.App.{Spec}
use nais_api.Prelude.{
  List, Option, String, [], eqb, if◌then◌else◌, inl, inr, none, some, suc, zero, ℕ, ◌<>◌, ◌==◌, ◌∷◌,
  ◌⊎◌,
}
use nais_api.Prelude.Int.{ℤ}
use nais_api.Prelude.Outcome.{GoError, M, Outcome, err, errorf, ok, panic}
use nais_api.Prelude.Text.{itoa}
use nais_api.Request.{Deploy}

abbrev pub default_sensu_host : String
default_sensu_host = "sensu.nais:3030"

abbrev pub stop_character : String
stop_character = "\n"

pub record Message : Type 0 where
  pub name : String
  pub message_type : String
  pub handlers : List String
  pub output : String

-- net.Dial and the connection that it gives. A failed write is not noticed. `read` gives the bytes
-- that one Read found, of which the buffer takes the first 1024. `print` is `%s` on a message.
pub record Socket (N : Type 0) : Type 0 where
  pub dial : String → N → Option GoError × N
  pub write : String → N → N
  pub read : N → (String ⊎ GoError) × N
  pub close : N → N
  pub marshal : Message → String ⊎ GoError
  pub print : Message → String

abbrev pub deploy_message : Spec → Deploy → String → ℤ → Message
deploy_message spec r cluster_name now = record {
  name = "naisd.deployment";
  message_type = "metric";
  handlers = "events_nano" ∷ [];
  output =
      "naisd.deployment,application="
      <> spec.application
      <> ",clusterName="
      <> cluster_name
      <> ",namespace="
      <> spec.namespace
      <> " version=\""
      <> r.version
      <> "\" "
      <> itoa now;
}

abbrev pub onto : Char → Option String → Option String
onto c none = none
onto c (some s) = some (String.◌∷◌ c s)

-- What stands before the first zero byte of a buffer that has `room` bytes, of which those after the
-- text are zero. A buffer with no zero byte has none.
unfoldable pub before_zero : ℕ → String → Option String
before_zero zero s = none
before_zero (suc room) String.[] = some ""
before_zero (suc room) (String.◌∷◌ c s) =
    let rest = before_zero room s in if eqb (code c) 0 then some "" else onto c rest

-- The whole buffer as a text.
unfoldable pub buffer_text : ℕ → String → String
buffer_text zero s = ""
buffer_text (suc room) String.[] = String.◌∷◌ nul (buffer_text room "")
buffer_text (suc room) (String.◌∷◌ c s) = String.◌∷◌ c (buffer_text room s)

abbrev pub buffer_size : ℕ
buffer_size = 1024

-- The slice up to the zero byte panics where there is none.
unfoldable pub judge_reply : String → Outcome (Unit {0})
unfolding before_zero buffer_text
judge_reply reply = elim (before_zero buffer_size reply) [
  | none ↦ panic
  | some text ↦
      if text == "ok"
      then ok tt
      else err (
          errorf (
            "sensu repsonded with something other than 'ok'. Response was: '"
            <> buffer_text buffer_size reply
            <> "'"))
]

module _ {N : Type 0} (socket : Socket N) where
  abbrev pub marshalled : Message → String ⊎ GoError → Outcome String
  marshalled m (inl text) = ok text
  marshalled m (inr e) = err (
      errorf (
        "can't marshal message for Sensu. Message was: "
        <> socket.print m
        <> "\nError was: "
        <> e.text))

  unfoldable pub generate_deploy_message : Spec → Deploy → String → ℤ → Outcome String
  unfolding itoa
  generate_deploy_message spec r cluster_name now =
      let m = deploy_message spec r cluster_name now in marshalled m (socket.marshal m)

  abbrev pub replied : (String ⊎ GoError) × N → Outcome (Unit {0}) × N
  replied (inl reply, n) = (judge_reply reply, socket.close n)
  replied (inr e, n) =
      (err (errorf ("problem reading response from sensu\nError was: " <> e.text)), socket.close n)

  abbrev pub dialled : String → Option GoError × N → Outcome (Unit {0}) × N
  dialled message (some e, n) = (
    err (
        errorf
          ("problem connecting to sensu on " <> default_sensu_host <> "\nError was: " <> e.text)),
    n,
  )
  dialled message (none, n) =
      replied (socket.read (socket.write stop_character (socket.write message n)))

  unfoldable pub send_message : String → M N (Unit {0})
  unfolding judge_reply
  send_message message n = dialled message (socket.dial default_sensu_host n)

  -- An error is only logged.
  abbrev pub logged : Outcome (Unit {0}) × N → Outcome (Unit {0}) × N
  logged (ok u, n) = (ok tt, n)
  logged (err e, n) = (ok tt, n)
  logged (panic, n) = (panic, n)

  abbrev pub notify_with : Outcome String → M N (Unit {0})
  unfolding send_message
  notify_with (ok message) n = logged (send_message message n)
  notify_with (err e) n = (ok tt, n)
  notify_with panic n = (panic, n)

  unfoldable pub notify_sensu_about_deploy : Spec → Deploy → String → ℤ → M N (Unit {0})
  unfolding generate_deploy_message send_message
  notify_sensu_about_deploy spec r cluster_name now =
      notify_with (generate_deploy_message spec r cluster_name now)
