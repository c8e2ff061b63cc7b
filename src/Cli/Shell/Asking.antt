-- ===== src/Cli/Shell/Asking.antt =====
-- When the command line gets a name and a password for Fasit (cli/cmd/deploy.go).
use nais_api.Cli.Shell.{
  Cmd, Console, Exit, Os, ask_password, ask_username, done, exits, fail_on_stderr, go_on, goes,
  or_exit, print_error, waits, ◌>>=◌,
}
use nais_api.Cli.Shell.Laws.{or_exit_on_stderr-goes}
use nais_api.Prelude.{Bool-cases, String, if◌then◌else◌, inl, inr, refl, subst, ◌==◌, ◌↔◌, ◌≡◌, ◌⊎◌}
use nais_api.Prelude.Outcome.{GoError}

module _ {W : Type 0} where
  pub go_on_assoc :
      {A B C : Type 0} (x : Exit A × (Console × W)) (f : A → Cmd W B) (g : B → Cmd W C)
      → go_on (go_on x f) g ≡ go_on x (λ a s. go_on (f a s) g)
  go_on_assoc (goes a, s) f g = refl
  go_on_assoc (exits n, s) f g = refl
  go_on_assoc (waits, s) f g = refl

module _ {W : Type 0} (os : Os W) where
  -- The name that is given, or that of the user where none is.
  abbrev pub IsName : String → String → Type 0
  IsName given username =
      if given == "" then (os.current_user ≡ inl username) else (username ≡ given)

  -- The password that is given, or the one that is typed where none is.
  abbrev pub IsPassword : String → W → String → W → Type 0
  IsPassword given w password v =
      if given == ""
      then (os.read_password w ≡ (inl password, v))
      else ((password ≡ given) × (v ≡ w))

module _ {W B : Type 0} (os : Os W) (b : B) where
  pub ask_username-goes :
      (given : String) (f : String → Cmd W B) (s : Console × W)
      → ((go_on (ask_username os given s) f).0 ≡ goes b)
        ↔ ((username : String) × IsName os given username × ((f username s).0 ≡ goes b))
  unfolding ask_username
  ask_username-goes given f s = elim (Bool-cases (given == "")) [
    | inl e ↦ rw e (or_exit_on_stderr-goes _ os.current_user f s b)
    | inr e ↦ rw e (λ h. (given, refl, h), λ (username, p, h). subst (λ x. (f x s).0 ≡ goes b) p h)
  ]

  -- What is typed is taken, and the line ends.
  abbrev taken : Console → (String ⊎ GoError) × W → Exit String × (Console × W)
  taken asked (reply, v) =
      go_on
        (or_exit fail_on_stderr (λ e. "Error occurred while trying to read password from stdin\n")
          reply (asked, v))
        (λ typed. print_error "\n" >>= λ _. done typed)

  taken-goes :
      (asked : Console) (f : String → Cmd W B) (Q : String → W → Type 0)
      → ((password : String) (console : Console) (v : W)
          → ((f password (console, v)).0 ≡ goes b) ↔ Q password v)
      → (reply : (String ⊎ GoError) × W)
      → ((go_on (taken asked reply) f).0 ≡ goes b)
        ↔ ((password : String) × (v : W) × (reply ≡ (inl password, v)) × Q password v)
  taken-goes asked f Q q (inl typed, v) = (
    λ h. (typed, v, refl, (q typed _ v).0 h),
    λ (password, u, p, h).
        (q typed _ v).1 (subst (λ x. Q x v) (cc p) (subst (Q password) (cc p) h)),
  )
  taken-goes asked f Q q (inr e, v) = (λ h. cc, λ (password, u, p, h). cc)

  pub ask_password-goes :
      (username given : String) (f : String → Cmd W B) (Q : String → W → Type 0)
      → ((password : String) (console : Console) (v : W)
          → ((f password (console, v)).0 ≡ goes b) ↔ Q password v)
      → (console : Console) (w : W)
      → ((go_on (ask_password os username given (console, w)) f).0 ≡ goes b)
        ↔ ((password : String) × (v : W) × IsPassword os given w password v × Q password v)
  unfolding ask_password
  ask_password-goes username given f Q q console w = elim (Bool-cases (given == "")) [
    | inl e ↦ rw e (taken-goes _ f Q q (os.read_password w))
    | inr e ↦ rw e (
      λ h. (given, w, (refl, refl), (q given console w).0 h),
      λ (password, v, (p, r), h).
          (q given console w).1 (subst (λ x. Q x w) p (subst (Q password) r h)),
    )
  ]
