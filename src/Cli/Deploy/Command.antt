-- ===== src/Cli/Deploy/Command.antt =====
-- The command that deploys as a whole (cli/cmd/deploy.go).
use mathlib.Core.List.{Permᴰ}
use mathlib.Core.List.Permᴰ
use nais_api.Cli.{PollReply}
use nais_api.Cli.Deploy.{
  Codec, DeployOptions, deploy_command, deploy_flags, deploy_with, initial_options,
}
use nais_api.Cli.Deploy.Deploying.{IsCarriedOut, deploy_with-goes, request_to_post}
use nais_api.Cli.Shell.{Console, Flags, Os, Stored, goes}
use nais_api.Cli.Shell.Reading.{Apart-Commuting, Commuting, read_flags-goes, stored, stored-perm}
use nais_api.Cli.Wait.{flag_error}
use nais_api.Prelude.{List, String, arith, some, sym, ℕ, ◌↔◌, ◌∙◌, ◌≡◌}

-- Each flag has a field of its own.
deploy_flags-Commuting : (flags : Flags) → Commuting flags deploy_flags
deploy_flags-Commuting flags = Apart-Commuting flags deploy_flags (ground arith)

module _ {W : Type 0} (os : Os W) (flags : Flags) (codec : Codec) (fuel : ℕ)
    (polls : String → ℕ → PollReply) (elapsed : String) where
  -- In whatever order the flags are met, the command that deploys ends well exactly if all of them can
  -- be read, there are a name and a password for Fasit unless it is skipped, given or asked for, and
  -- the request that has them is posted: it is valid and can be encoded, the cluster is known, the
  -- daemon answers with a code up to 299, and the wait, if it is asked for, ends well.
  pub deploy_command-goes :
      (order : List (Stored DeployOptions))
      → Permᴰ order deploy_flags
      → (s : Console × W)
      → ((deploy_command os flags codec fuel polls elapsed order s).0 ≡ goes tt) ↔ (
          (o : DeployOptions) × (stored flags deploy_flags (initial_options os.getenv) ≡ some o)
          × IsCarriedOut os flags codec fuel polls elapsed o.cluster (request_to_post flags o) s.1)
  unfolding deploy_command
  deploy_command-goes order p s =
      let (there, back) =
        read_flags-goes flags flag_error order (initial_options os.getenv)
          (deploy_with os flags codec fuel polls elapsed) s tt in
      let same_options =
        stored-perm flags (Permᴰ.symm p) (deploy_flags-Commuting flags)
          (initial_options os.getenv) in
      (
        λ h.
            let (o, q, k) = there h in
            (o, same_options ∙ q, (deploy_with-goes os flags codec fuel polls elapsed o s).0 k),
        λ (o, q, k).
            back (
              o,
              sym same_options ∙ q,
              (deploy_with-goes os flags codec fuel polls elapsed o s).1 k,
            ),
      )
