-- ===== src/Template/Deletion.antt =====
-- What the deletion of a permission template leaves behind.
use sonarqube_operator.Prelude.{◌≡◌, true, not, ◌&&◌, ◌==◌}
use sonarqube_operator.Api.{Instance}
use sonarqube_operator.Exec.{Env, template_kind, St, Credentials, ◌>>=◌}
use sonarqube_operator.Controller.{has_finalizer}
use sonarqube_operator.Controller.BestEffort.Quiet.{
  Quiet, quiet_rules, warn-Quiet, attempt_cleanup-Quiet, Quiet-Released,
}
use sonarqube_operator.Controller.Release.{Released}
use sonarqube_operator.Template.{permission_template_finalizer, delete, finalize_deletion}

module _ {E : Env} where
  delete-Quiet : (c : Credentials) → Quiet (delete {E = E} c)
  unfolding delete
  delete-Quiet c = search (quiet_rules, warn-Quiet)

  -- For a permission template that carries the finalizer, whatever the phase of its instance and
  -- whatever SonarQube and the API server answer, the last call of the deletion writes the resource
  -- without the finalizer, and the deletion succeeds when that write does.
  pub template_deletion-Released :
      (i : Instance) (s : St E template_kind)
      → has_finalizer E template_kind permission_template_finalizer s.object ≡ true
      → Released permission_template_finalizer s.object (finalize_deletion i s)
  unfolding finalize_deletion ◌>>=◌
  template_deletion-Released i s held = rw held (
      Quiet-Released permission_template_finalizer _ s (
        attempt_cleanup-Quiet
          ((i.status.phase == "Ready") && not (s.object.status.template_id == "")) delete i
          delete-Quiet))
