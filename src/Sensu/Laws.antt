-- ===== src/Sensu/Laws.antt =====
-- When telling Sensu of a deployment panics (api/sensuclient.go).
use Prim.Native.Char.{code}
use nais_api.App.{Spec}
use nais_api.Prelude.{
  Bool, Option, String, arith, false, if◌then◌else◌, inl, inr, none, refl, some, subst, suc, true,
  zero, ℕ, ◌↔◌, ◌≡◌, ◌≢◌, ◌⊎◌,
}
use nais_api.Prelude.Int.{ℤ}
use nais_api.Prelude.Outcome.{GoError, Outcome, err, ok, panic}
use nais_api.Request.{Deploy}
use nais_api.Sensu.{
  Message, Socket, before_zero, buffer_size, default_sensu_host, deploy_message, dialled,
  generate_deploy_message, judge_reply, logged, marshalled, notify_sensu_about_deploy, notify_with,
  replied, send_message, stop_character,
}

-- A text has so many characters, and none of these is a zero byte.
abbrev pub Fills : ℕ → String → Type 0
Fills zero s = Unit
Fills (suc room) String.[] = ⊥
Fills (suc room) (String.◌∷◌ c s) = (code c ≢ 0) × Fills room s

before_zero-eq_none : (room : ℕ) (s : String) → (before_zero room s ≡ none) ↔ Fills room s
unfolding before_zero
before_zero-eq_none zero s = (λ h. tt, λ h. refl)
before_zero-eq_none (suc room) String.[] = (λ h. cc, λ h. absurd h)
before_zero-eq_none (suc room) (String.◌∷◌ c s) = ground (arith, before_zero-eq_none room s)

answer-ne_panic :
    (b : Bool) (e : GoError) → ¬ (◌≡◌ {A = Outcome (Unit {0})} (if b then ok tt else err e) panic)
answer-ne_panic true e h = cc
answer-ne_panic false e h = cc

judge_reply-eq_panic : (reply : String) → (judge_reply reply ≡ panic) ↔ Fills buffer_size reply
unfolding judge_reply
judge_reply-eq_panic reply = go (before_zero buffer_size reply) refl
  where
    go :
        (t : Option String)
        → before_zero buffer_size reply ≡ t
        → (judge_reply reply ≡ panic) ↔ Fills buffer_size reply
    go none p = (λ h. (before_zero-eq_none buffer_size reply).0 p, λ h. rw (p, judge_reply))
    go (some t) p = (
      λ h. absurd (answer-ne_panic _ _ (rw (p, judge_reply) at h)),
      λ h. cc (p, (before_zero-eq_none buffer_size reply).1 h),
    )

module _ {N : Type 0} (socket : Socket N) where
  replied-eq_panic :
      (o : (String ⊎ GoError) × N)
      → ((replied socket o).0 ≡ panic)
        ↔ ((reply : String) × (n : N) × (o ≡ (inl reply, n)) × Fills buffer_size reply)
  replied-eq_panic (inl reply, n) = (
    λ h. (reply, n, refl, (judge_reply-eq_panic reply).0 h),
    λ (r, m, p, full). (judge_reply-eq_panic reply).1 (subst (Fills buffer_size) (cc p) full),
  )
  replied-eq_panic (inr e, n) = (λ h. cc, λ (r, m, p, full). cc)

  -- The connection is there, and what is read from it fills the buffer with no zero byte.
  abbrev pub IsFlooded : String → Option GoError × N → Type 0
  IsFlooded message (some e, n) = ⊥
  IsFlooded message (none, n) =
      (reply : String) × (m : N) × (socket.read
          (socket.write stop_character (socket.write message n))
        ≡ (inl reply, m))
      × Fills buffer_size reply

  dialled-eq_panic :
      (message : String) (o : Option GoError × N)
      → ((dialled socket message o).0 ≡ panic) ↔ IsFlooded message o
  dialled-eq_panic message (some e, n) = (λ h. cc, λ h. absurd h)
  dialled-eq_panic message (none, n) =
      replied-eq_panic (socket.read (socket.write stop_character (socket.write message n)))

  logged-eq_panic : (o : Outcome (Unit {0}) × N) → ((logged socket o).0 ≡ panic) ↔ (o.0 ≡ panic)
  logged-eq_panic (ok u, n) = (λ h. cc, λ h. cc)
  logged-eq_panic (err e, n) = (λ h. cc, λ h. cc)
  logged-eq_panic (panic, n) = (λ h. refl, λ h. refl)

  notify_with-eq_panic :
      (m : Message) (x : String ⊎ GoError) (n : N)
      → ((notify_with socket (marshalled socket m x) n).0 ≡ panic) ↔ (
          (message : String) × (x ≡ inl message)
          × IsFlooded message (socket.dial default_sensu_host n))
  unfolding send_message
  notify_with-eq_panic m (inl message) n = (
    λ h. (
      message,
      refl,
      (dialled-eq_panic message o).0 ((logged-eq_panic (dialled socket message o)).0 h),
    ),
    λ (t, p, flooded).
        (logged-eq_panic (dialled socket message o)).1
          ((dialled-eq_panic message o).1 (subst (λ x. IsFlooded x o) (cc p) flooded)),
  )
    where
      o : Option GoError × N
      o = socket.dial default_sensu_host n
  notify_with-eq_panic m (inr e) n = (λ h. cc, λ (t, p, flooded). cc)

  -- Telling Sensu of a deployment panics exactly if the message is marshalled, Sensu is connected,
  -- and what is read from it fills the buffer of 1024 bytes with no zero byte.
  pub notify_sensu_about_deploy-eq_panic :
      (spec : Spec) (r : Deploy) (cluster_name : String) (now : ℤ) (n : N)
      → ((notify_sensu_about_deploy socket spec r cluster_name now n).0 ≡ panic) ↔ (
          (message : String) × (socket.marshal (deploy_message spec r cluster_name now)
            ≡ inl message)
          × IsFlooded message (socket.dial default_sensu_host n))
  unfolding notify_sensu_about_deploy generate_deploy_message
  notify_sensu_about_deploy-eq_panic spec r cluster_name now n =
      notify_with-eq_panic (deploy_message spec r cluster_name now)
        (socket.marshal (deploy_message spec r cluster_name now)) n

  logged_cases :
      (o : Outcome (Unit {0}) × N) → ((logged socket o).0 ≡ ok tt) ⊎ ((logged socket o).0 ≡ panic)
  logged_cases (ok u, n) = inl refl
  logged_cases (err e, n) = inl refl
  logged_cases (panic, n) = inr refl

  notified_cases :
      (x : Outcome String) (n : N)
      → ((notify_with socket x n).0 ≡ ok tt) ⊎ ((notify_with socket x n).0 ≡ panic)
  unfolding send_message
  notified_cases (ok message) n =
      logged_cases (dialled socket message (socket.dial default_sensu_host n))
  notified_cases (err e) n = inl refl
  notified_cases panic n = inr refl

  pub notify_sensu_about_deploy_cases :
      (spec : Spec) (r : Deploy) (cluster_name : String) (now : ℤ) (n : N)
      → ((notify_sensu_about_deploy socket spec r cluster_name now n).0 ≡ ok tt)
        ⊎ ((notify_sensu_about_deploy socket spec r cluster_name now n).0 ≡ panic)
  unfolding notify_sensu_about_deploy
  notify_sensu_about_deploy_cases spec r cluster_name now n =
      notified_cases (generate_deploy_message socket spec r cluster_name now) n
