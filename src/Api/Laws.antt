-- ===== src/Api/Laws.antt =====
-- What the handlers promise (api/api.go).
pub mod Announced
use nais_api.Api.{Server, authenticate, completed}
use nais_api.Api.Answers.{Answers, Answers-map}
use nais_api.Api.Deployed.{IsDeployed, deploy_request-IsDeployed}
use nais_api.Api.Deployment.{World, admitted, deploy, deploy_request, unauthenticated}
use nais_api.Api.Skipping.{deploy_request-skips_fasit}
use nais_api.AppError.{AppError, app_error}
use nais_api.Kubernetes.Cluster.{Cluster}
use nais_api.Prelude.{
  Bool, Option, String, ap, arith, false, if◌then◌else◌, inl, inr, none, not, refl, some, true, ◌≡◌,
  ◌⊎◌,
}
use nais_api.Prelude.Int.{negsuc, pos, ℤ}
use nais_api.Prelude.Outcome.{GoError, errorf}
use nais_api.Request.{Deploy}

module _ {F N : Type 0} (c : Cluster) (server : Server c F N) where
  -- Nobody has to be authenticated, or Azure has accepted the name and the password.
  abbrev pub IsAuthenticated : String × String → Type 0
  IsAuthenticated (username, password) =
      (server.authentication_enabled ≡ false)
      ⊎ ((server.azure_is_set ≡ true) × (server.post_form username password ≡ inr (pos 200)))

  accepted_code : (code : ℤ) → authenticate (inr code) ≡ none → code ≡ pos 200
  unfolding authenticate
  accepted_code (pos n) h = ap pos (ground (arith, h))
  accepted_code (negsuc n) h = ground (arith, h)

  unauthenticated-eq_none :
      (user : String × String) → unauthenticated c server user ≡ none → IsAuthenticated user
  unauthenticated-eq_none (username, password) h =
      go server.authentication_enabled server.azure_is_set (server.post_form username password) h
    where
      go :
          (asked set : Bool) (reply : GoError ⊎ ℤ)
          → (if not asked
              then none
              else if set
              then authenticate reply
              else some (app_error (some (errorf "missing Azure AD configuration")) "" 500))
            ≡ none
          → (asked ≡ false) ⊎ ((set ≡ true) × (reply ≡ inr (pos 200)))
      go false set reply h = inl refl
      go true false reply h = cc
      go true true (inl e) h = unfold authenticate in cc
      go true true (inr code) h = inr (refl, ap inr (accepted_code code h))

  -- A deployment that is answered with a status has status 200. Then the user was authenticated, by the
  -- answer 200 of Azure, if that is asked for; the body was read, and the manifest of the request was
  -- generated; none or the used resources were fetched from Fasit, as the request skips it or not; the
  -- creation of the objects, in the cluster as it was, returned those that are asked for and left the
  -- cluster as it is after the answer; and the body of the answer has a line for each of these objects.
  pub deploy-IsDeployed :
      (read : Deploy ⊎ GoError) (user : String × String) (w : World c server)
      → Answers (deploy c server read user w) (λ code body t.
        IsAuthenticated user
        × ((r : Deploy) × ((read ≡ inl r)
              × IsDeployed c server (completed server.cluster_name r) w.0 code body t)))
  unfolding deploy
  deploy-IsDeployed read user w = go (unauthenticated c server user) read refl
    where
      go :
          (e : Option AppError) (read : Deploy ⊎ GoError)
          → unauthenticated c server user ≡ e
          → Answers (admitted c server e read w) (λ code body t.
            IsAuthenticated user
            × ((r : Deploy) × ((read ≡ inl r)
                  × IsDeployed c server (completed server.cluster_name r) w.0 code body t)))
      go (some x) read e = tt
      go none (inr x) e = tt
      go none (inl r) e =
          Answers-map (IsDeployed c server (completed server.cluster_name r) w.0) _
            (λ code body t h. (unauthenticated-eq_none user e, (r, (refl, h))))
            (deploy_request c server (completed server.cluster_name r) w)
            (deploy_request-IsDeployed c server (completed server.cluster_name r) w.0 w refl)

  -- A request that skips Fasit leaves the state of Fasit as it was, however the request ends.
  pub deploy-skips_fasit :
      (r : Deploy) (user : String × String) (w : World c server)
      → r.skip_fasit ≡ true
      → (deploy c server (inl r) user w).1.1.0 ≡ w.1.0
  unfolding deploy completed
  deploy-skips_fasit r user w skip = go (unauthenticated c server user)
    where
      go : (e : Option AppError) → (admitted c server e (inl r) w).1.1.0 ≡ w.1.0
      go (some e) = refl
      go none = deploy_request-skips_fasit c server (completed server.cluster_name r) w skip
