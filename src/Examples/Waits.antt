-- ===== src/Examples/Waits.antt =====
-- The commands that deploy and wait at work.
use mathlib.Core.List.{Permᴰ, reverse}
use mathlib.Core.List.Permᴰ
use nais_api.Cli.{PollReply, answered_with}
use nais_api.Cli.Deploy.{DeployOptions, deploy_command, deploy_flags, initial_options}
use nais_api.Cli.Deploy.Command.{deploy_command-goes}
use nais_api.Cli.Deploy.Deploying.{IsCarriedOut, request_to_post}
use nais_api.Cli.Shell.{Flags, Stored, goes, silent}
use nais_api.Cli.Shell.Reading.{stored}
use nais_api.Cli.Wait.{WaitOptions, wait_command}
use nais_api.Cli.Wait.Waiting.{IsWaited, wait_command-goes}
use nais_api.Examples.Commands.{never_done, small_codec, small_os}
use nais_api.Prelude.{
  List, String, [], false, if◌then◌else◌, inl, none, refl, some, suc, zero, ℕ, ◌==◌, ◌↔◌, ◌∷◌, ◌≡◌,
}
use nais_api.Prelude.Dict.{Dict, lookup}

abbrev asked_flags : Flags
asked_flags = record {
  get_string = λ key.
      if key == "app" then inl "app" else if key == "namespace" then inl "default" else inl "";
  get_bool = λ key. inl false;
}

-- The namespace is met first.
abbrev met_order : List (Stored WaitOptions)
met_order =
    ("namespace", λ v o. record o { namespace = v })
    ∷ ("app", λ v o. record o { app = v })
    ∷ ("cluster", λ v o. record o { cluster = v })
    ∷ []

-- The second answer is 200.
abbrev done_after_one : String → ℕ → PollReply
done_after_one url zero = answered_with 202
done_after_one url (suc n) = answered_with 200

wait_command-goes_example :
    ((wait_command small_os asked_flags 3 done_after_one "1s" met_order (silent, 0)).0 ≡ goes tt)
    ↔ IsWaited small_os asked_flags 3 done_after_one "1s"
wait_command-goes_example =
    wait_command-goes small_os asked_flags 3 done_after_one "1s" met_order (Permᴰ.swap refl refl)
      (silent, 0)

wait_command_runs :
    (wait_command small_os asked_flags 3 done_after_one "1s" met_order (silent, 0)).0 ≡ goes tt
unfolding wait_command lookup
wait_command_runs = refl

abbrev given_flags : Dict String
given_flags =
    ("app", "app")
    ∷ ("version", "1")
    ∷ ("zone", "fss")
    ∷ ("namespace", "default")
    ∷ ("fasit-environment", "q0")
    ∷ ("cluster", "preprod-fss")
    ∷ []

abbrev deploying_flags : Flags
deploying_flags = record {
  get_string = λ key. elim (lookup key given_flags) [ some value ↦ inl value | none ↦ inl "" ];
  get_bool = λ key. inl false;
}

-- The flags are met from the last to the first.
deploy_command-goes_example :
    ((deploy_command small_os deploying_flags small_codec 3 never_done "3s"
        (reverse deploy_flags)
        (silent, 0)).0
      ≡ goes tt)
    ↔ ((o : DeployOptions) × (stored deploying_flags deploy_flags (initial_options small_os.getenv)
          ≡ some o)
        × IsCarriedOut small_os deploying_flags small_codec 3 never_done "3s" o.cluster
            (request_to_post deploying_flags o)
            0)
deploy_command-goes_example =
    deploy_command-goes small_os deploying_flags small_codec 3 never_done "3s"
      (reverse deploy_flags) (Permᴰ.reverse deploy_flags) (silent, 0)

-- The name is that of the user, and the password is asked for.
deploy_command_runs :
    (deploy_command small_os deploying_flags small_codec 3 never_done "3s"
      (reverse deploy_flags)
      (silent, 0)).0
    ≡ goes tt
unfolding deploy_command lookup
deploy_command_runs = refl
