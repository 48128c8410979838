-- ===== src/User/Deletion.antt =====
-- What the deletion of a user leaves behind.
use sonarqube_operator.Prelude.{◌≡◌, true, Bool-cases, inl, inr}
use sonarqube_operator.Sonar.{deactivate_user}
use sonarqube_operator.Exec.{
  Env, user_kind, St, Credentials, sonar, Result, ok, err, ◌>>=◌, ◌>>◌, perform, emit,
  is_sonar_not_found,
}
use sonarqube_operator.Controller.{has_finalizer, release}
use sonarqube_operator.Controller.Release.{Released, release-Released}
use sonarqube_operator.User.{user_finalizer, deactivated, handle_deletion}

module _ {E : Env} where
  deactivated-Released :
      (r : Result (Unit {0})) (s : St E user_kind)
      → Released user_finalizer s.object ((deactivated r >> release user_finalizer) s)
  unfolding deactivated ◌>>=◌ emit
  deactivated-Released (ok _) s = release-Released user_finalizer _
  deactivated-Released (err e) s = elim (Bool-cases (is_sonar_not_found e)) [
    | inl gone ↦ rw gone (release-Released user_finalizer s)
    | inr failed ↦ rw failed (release-Released user_finalizer _)
  ]

  -- For a user that carries the finalizer, whatever SonarQube answers to the deactivation, the
  -- last call of the deletion writes the user without the finalizer, and the deletion succeeds
  -- when that write does.
  pub handle_deletion-Released :
      (c : Credentials) (s : St E user_kind)
      → has_finalizer E user_kind user_finalizer s.object ≡ true
      → Released user_finalizer s.object (handle_deletion c s)
  unfolding handle_deletion ◌>>=◌ perform
  handle_deletion-Released c s held =
      rw held (
        deactivated-Released (E.answer (sonar c (deactivate_user s.object.spec.login)) s.server).0
          _)
