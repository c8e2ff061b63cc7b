-- ===== src/Cli/Deploy/Deploying.antt =====
-- The command that deploys, from its flags to its exit code (cli/cmd/deploy.go).
use nais_api.Cli.{PollReply}
use nais_api.Cli.Deploy.{
  Codec, DeployOptions, deploy_with, flag_or_false, post_request, with_credentials,
}
use nais_api.Cli.Deploy.Laws.{IsPosted, post_request-goes}
use nais_api.Cli.Shell.{
  Cmd, Console, Flags, Os, ask_password, ask_username, done, go_on, goes, ◌>>=◌,
}
use nais_api.Cli.Shell.Asking.{
  IsName, IsPassword, ask_password-goes, ask_username-goes, go_on_assoc,
}
use nais_api.Prelude.{
  Bool, String, ap, false, if◌then◌else◌, refl, subst, sym, true, ℕ, ◌↔◌, ◌∙◌, ◌≡◌,
}
use nais_api.Request.{Deploy}

-- The request of the options, which skips Fasit if the flag for that is set.
abbrev pub request_to_post : Flags → DeployOptions → Deploy
request_to_post flags o = record o.request {
  skip_fasit = flag_or_false (flags.get_bool "skip-fasit");
}

-- The request with a name and a password, where Fasit is not skipped.
abbrev with_both : Deploy → String → String → Deploy
with_both r username password = record r { fasit_username = username; fasit_password = password }

module _ {W : Type 0} (os : Os W) (flags : Flags) (codec : Codec) (fuel : ℕ)
    (polls : String → ℕ → PollReply) (elapsed : String) where
  abbrev pub IsCreditedIf : Bool → Deploy → W → Deploy → W → Type 0
  IsCreditedIf true r w whole v = (whole ≡ r) × (v ≡ w)
  IsCreditedIf false r w whole v =
      (username password : String) × IsName os r.fasit_username username
      × IsPassword os r.fasit_password w password v
      × (whole ≡ with_both r username password)

  -- The request is completed, and what is posted then ends well.
  abbrev pub IsCarriedOut : String → Deploy → W → Type 0
  IsCarriedOut cluster r w =
      (whole : Deploy) × (v : W) × IsCreditedIf r.skip_fasit r w whole v
      × IsPosted os flags codec fuel polls elapsed cluster whole v

  asked_for : String → Deploy → Cmd W (Unit {0})
  asked_for cluster r s = go_on (ask_username os r.fasit_username s) λ username s'.
      go_on (ask_password os username r.fasit_password s') λ password.
        post_request os flags codec fuel polls elapsed cluster (with_both r username password)

  abbrev posted : String → Deploy → Cmd W (Unit {0})
  posted cluster = post_request os flags codec fuel polls elapsed cluster

  carried_out : String → Deploy → Cmd W (Unit {0})
  carried_out cluster r s =
      go_on (with_credentials os flags codec fuel polls elapsed r s) (posted cluster)

  abbrev asking : Deploy → Cmd W Deploy
  asking r = ask_username os r.fasit_username >>= λ username.
      ask_password os username r.fasit_password >>= λ password. done (with_both r username password)

  carried_out-eq :
      (cluster : String) (r : Deploy) (s : Console × W) (skip : Bool)
      → r.skip_fasit ≡ skip
      → carried_out cluster r s ≡ go_on ((if skip then done r else asking r) s) (posted cluster)
  unfolding carried_out with_credentials
  carried_out-eq cluster r s skip e =
      ap (λ b. go_on ((if b then done r else asking r) s) (posted cluster)) e

  asked_for-eq :
      (cluster : String) (r : Deploy) (s : Console × W)
      → go_on (asking r s) (posted cluster) ≡ asked_for cluster r s
  unfolding asked_for
  asked_for-eq cluster r s =
      go_on_assoc (ask_username os r.fasit_username s) _ (posted cluster) ∙ (λ i.
        go_on (ask_username os r.fasit_username s) (λ username s'.
          go_on_assoc (ask_password os username r.fasit_password s')
            (λ password. done (with_both r username password)) (posted cluster) i))

  asked_for-goes :
      (cluster : String) (r : Deploy) (console : Console) (w : W)
      → ((asked_for cluster r (console, w)).0 ≡ goes tt) ↔ (
          (username : String) × IsName os r.fasit_username username
          × ((password : String) × (v : W) × IsPassword os r.fasit_password w password v
              × IsPosted os flags codec fuel polls elapsed cluster
                  (with_both r username password)
                  v))
  unfolding asked_for
  asked_for-goes cluster r console w = (
    λ h. let (username, p, k) = name.0 h in (username, p, (password username).0 k),
    λ (username, p, k). name.1 (username, p, (password username).1 k),
  )
    where
      posted : String → String → Cmd W (Unit {0})
      posted username password =
          post_request os flags codec fuel polls elapsed cluster (with_both r username password)

      with_name : String → Cmd W (Unit {0})
      with_name username s = go_on (ask_password os username r.fasit_password s) (posted username)

      name : ((asked_for cluster r (console, w)).0 ≡ goes tt) ↔ (
          (username : String) × IsName os r.fasit_username username
          × ((with_name username (console, w)).0 ≡ goes tt))
      name = ask_username-goes os tt r.fasit_username with_name (console, w)

      password :
          (username : String)
          → ((with_name username (console, w)).0 ≡ goes tt) ↔ (
              (password : String) × (v : W) × IsPassword os r.fasit_password w password v
              × IsPosted os flags codec fuel polls elapsed cluster
                  (with_both r username password)
                  v)
      password username =
          ask_password-goes os tt username r.fasit_password (posted username)
            (λ password v.
              IsPosted os flags codec fuel polls elapsed cluster (with_both r username password) v)
            (λ password console' v.
              post_request-goes os flags codec fuel polls elapsed cluster
                (with_both r username password) console' v)
            console w

  carried_out-goes :
      (cluster : String) (r : Deploy) (console : Console) (w : W)
      → ((carried_out cluster r (console, w)).0 ≡ goes tt) ↔ IsCarriedOut cluster r w
  carried_out-goes cluster r console w = go r.skip_fasit refl
    where
      go :
          (skip : Bool)
          → r.skip_fasit ≡ skip
          → ((carried_out cluster r (console, w)).0 ≡ goes tt) ↔ (
              (whole : Deploy) × (v : W) × IsCreditedIf skip r w whole v
              × IsPosted os flags codec fuel polls elapsed cluster whole v)
      go true e =
          let same_end = ap (λ q. q.0) (carried_out-eq cluster r (console, w) true e) in
          let (there, back) =
            post_request-goes os flags codec fuel polls elapsed cluster r console w in
          (
            λ h. (r, w, (refl, refl), there (sym same_end ∙ h)),
            λ (whole, v, (p, q), h).
                same_end
                ∙ back (
                    subst (λ x. IsPosted os flags codec fuel polls elapsed cluster x w) p
                      (subst (IsPosted os flags codec fuel polls elapsed cluster whole) q h)),
          )
      go false e =
          let same_end =
            ap (λ q. q.0)
              (carried_out-eq cluster r (console, w) false e
                ∙ asked_for-eq cluster r (console, w)) in
          let (there, back) = asked_for-goes cluster r console w in
          (
            λ h.
                let (username, p, (password, v, q, k)) = there (sym same_end ∙ h) in
                (with_both r username password, v, (username, password, p, q, refl), k),
            λ (whole, v, (username, password, p, q, is_whole), k).
                same_end
                ∙ back (
                  username,
                  p,
                  (
                    password,
                    v,
                    q,
                    subst (λ x. IsPosted os flags codec fuel polls elapsed cluster x v) is_whole k,
                  ),
                ),
          )

  pub deploy_with-goes :
      (o : DeployOptions) (s : Console × W)
      → ((deploy_with os flags codec fuel polls elapsed o s).0 ≡ goes tt)
        ↔ IsCarriedOut o.cluster (request_to_post flags o) s.1
  unfolding deploy_with carried_out
  deploy_with-goes o (console, w) = carried_out-goes o.cluster (request_to_post flags o) _ w
