-- ===== src/Cli/Shell.antt =====
-- What the commands of cli/cmd share: a console, exit codes, flags and the surroundings of the
-- process, which are parameters.
pub mod Laws
pub mod Reading
pub mod Asking
use nais_api.Prelude.{
  Bool, List, Option, String, [], if◌then◌else◌, inl, inr, ℕ, ◌<>◌, ◌==◌, ◌∷◌, ◌⊎◌,
}
use nais_api.Prelude.Outcome.{GoError, M, Outcome, err, ok, panic}

pub record Console : Type 0 where
  pub out : String
  pub errors : String

abbrev pub silent : Console
silent = record { out = ""; errors = "" }

-- A command goes on with a value, has left with a code, or is still waiting when the fuel runs out.
pub data Exit (A : Type 0) : Type 0 where
  goes : A → Exit A
  exits : ℕ → Exit A
  waits : Exit A

-- A command on a console and a world.
abbrev pub Cmd : Type 0 → Type 0 → Type 0
Cmd W A = Console × W → Exit A × (Console × W)

module _ {W A B : Type 0} where
  abbrev pub go_on : Exit A × (Console × W) → (A → Cmd W B) → Exit B × (Console × W)
  go_on (goes a, s) f = f a s
  go_on (exits code, s) f = (exits code, s)
  go_on (waits, s) f = (waits, s)

  infixl 5 ◌>>=◌ ◌>>◌
  abbrev pub ◌>>=◌ : Cmd W A → (A → Cmd W B) → Cmd W B
  ◌>>=◌ m f s = go_on (m s) f

  abbrev pub ◌>>◌ : Cmd W A → Cmd W B → Cmd W B
  m >> k = m >>= λ _. k

module _ {W : Type 0} where
  abbrev pub done : {A : Type 0} → A → Cmd W A
  done a s = (goes a, s)

  abbrev pub exit : {A : Type 0} → ℕ → Cmd W A
  exit code s = (exits code, s)

  -- fmt.Print
  abbrev pub print : String → Cmd W (Unit {0})
  print text (console, w) = (goes tt, (record console { out = console.out <> text }, w))

  -- fmt.Fprint(os.Stderr, …)
  abbrev pub print_error : String → Cmd W (Unit {0})
  print_error text (console, w) = (goes tt, (record console { errors = console.errors <> text }, w))

  -- A message and exit code 1.
  abbrev pub fail : {A : Type 0} → String → Cmd W A
  fail text = print text >>= λ _. exit 1

  abbrev pub fail_on_stderr : {A : Type 0} → String → Cmd W A
  fail_on_stderr text = print_error text >>= λ _. exit 1

  -- What `if err != nil` does with a result.
  abbrev pub or_exit :
      {A : Type 0} → (String → Cmd W A) → (GoError → String) → A ⊎ GoError → Cmd W A
  or_exit failing message (inl a) = done a
  or_exit failing message (inr e) = failing (message e)

  -- A panic ends the process with code 2.
  abbrev pub from_outcome :
      {A : Type 0} → (String → Cmd W A) → (GoError → String) → Outcome A → Cmd W A
  from_outcome failing message (ok a) = done a
  from_outcome failing message (err e) = failing (message e)
  from_outcome failing message panic = exit 2

  -- An action of a client of Fasit.
  abbrev pub on_world : {A : Type 0} → (String → Cmd W A) → (GoError → String) → M W A → Cmd W A
  on_world failing message m (console, w) =
      let (r, v) = m w in from_outcome failing message r (console, v)

-- The flags of a command, by name.
pub record Flags : Type 0 where
  pub get_string : String → String ⊎ GoError
  pub get_bool : String → Bool ⊎ GoError

-- What an HTTP request is answered with: the code, the line of the status, and the body, which is empty
-- where it cannot be read.
pub record WebAnswer : Type 0 where
  pub code : ℕ
  pub status : String
  pub body : String

-- os.Getenv, os.LookupEnv, user.Current, terminal.ReadPassword, ioutil.ReadFile, http.Post, and an
-- upload by PUT with a name and a password, which is told of a request that cannot be made before
-- anything is sent.
pub record Os (W : Type 0) : Type 0 where
  pub getenv : String → String
  pub lookup_env : String → Option String
  pub current_user : String ⊎ GoError
  pub read_password : W → (String ⊎ GoError) × W
  pub read_file : String → String ⊎ GoError
  pub http_post : String → String → String → W → (WebAnswer ⊎ GoError) × W
  pub request_error : String → String → Option GoError
  pub http_put : String → String → String → String → W → (WebAnswer ⊎ GoError) × W

-- An action on the world.
abbrev pub act : {W A : Type 0} → (W → A × W) → Cmd W A
act f (console, w) = let (a, v) = f w in (goes a, (console, v))

module _ {W : Type 0} (os : Os W) where
  -- The name and the password for Fasit, asked for where they are empty.
  unfoldable pub ask_username : String → Cmd W String
  ask_username username =
      if username == ""
      then or_exit fail_on_stderr
          (λ e. "Unable resolve a username, please specify FASIT_USERNAME\n") os.current_user
      else done username

  unfoldable pub ask_password : String → String → Cmd W String
  ask_password username password =
      if password == ""
      then (print_error ("Enter password for " <> username <> ": ") >>= λ _.
          act os.read_password
          >>= or_exit fail_on_stderr
              (λ e. "Error occurred while trying to read password from stdin\n")
          >>= λ typed. print_error "\n" >>= λ _. done typed)
      else done password

-- A key with what stores the value of its flag.
abbrev pub Stored : Type 0 → Type 0
Stored D = String × (String → D → D)

module _ {W D : Type 0} where
  -- `for key, pointer := range opts`, over the flags that are texts, in the order in which Go meets
  -- them. A flag that is not empty is stored.
  unfoldable pub read_flags : (String → GoError → String) → Flags → List (Stored D) → D → Cmd W D
  read_flags message flags [] d = done d
  read_flags message flags ((key, store) ∷ more) d =
      or_exit fail (message key) (flags.get_string key) >>= λ value.
      read_flags message flags more (if value == "" then d else store value d)
