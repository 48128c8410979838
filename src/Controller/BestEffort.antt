-- ===== src/Controller/BestEffort.antt =====
-- The deletion that the controllers of groups, webhooks and permission templates share: an attempt to
-- clean up in SonarQube, and the removal of the finalizer whatever came of it.
pub mod Quiet
pub mod Calls
use sonarqube_operator.Prelude.{String, Bool, Option, if◌then◌else◌}
use sonarqube_operator.Api.{Instance}
use sonarqube_operator.Exec.{
  Env, Kind, Exec, Credentials, bearer, Result, ok, err, pure, attempt, ◌>>=◌,
}
use sonarqube_operator.Controller.{instance_api_url, get_instance_admin_token}

module _ {E : Env} {k : Kind} where
  -- Without a token there is nothing that can be cleaned up.
  clean_with : (Credentials → Exec E k (Unit {0})) → Instance → Result String → Exec E k (Unit {0})
  clean_with clean i (ok token) = clean (bearer (instance_api_url i) token)
  clean_with clean i (err e) = pure tt

  unfoldable pub attempt_cleanup :
      Bool → (Credentials → Exec E k (Unit {0})) → Instance → Exec E k (Unit {0})
  unfolding clean_with
  attempt_cleanup wanted clean i =
      if wanted
      then (do token ← attempt (get_instance_admin_token i); clean_with clean i token)
      else pure tt
