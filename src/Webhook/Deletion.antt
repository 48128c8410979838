-- ===== src/Webhook/Deletion.antt =====
-- What the deletion of a webhook leaves behind.
use sonarqube_operator.Prelude.{◌≡◌, true, not, ◌&&◌, ◌==◌}
use sonarqube_operator.Api.{Instance}
use sonarqube_operator.Exec.{Env, webhook_kind, St, Credentials, ◌>>=◌}
use sonarqube_operator.Controller.{has_finalizer}
use sonarqube_operator.Controller.BestEffort.Quiet.{
  Quiet, quiet_rules, warn-Quiet, attempt_cleanup-Quiet, Quiet-Released,
}
use sonarqube_operator.Controller.Release.{Released}
use sonarqube_operator.Webhook.{webhook_finalizer, delete, finalize_deletion}

module _ {E : Env} where
  delete-Quiet : (c : Credentials) → Quiet (delete {E = E} c)
  unfolding delete
  delete-Quiet c = search (quiet_rules, warn-Quiet)

  -- For a webhook that carries the finalizer, whatever the phase of its instance and whatever
  -- SonarQube and the API server answer, the last call of the deletion writes the webhook without
  -- the finalizer, and the deletion succeeds when that write does.
  pub webhook_deletion-Released :
      (i : Instance) (s : St E webhook_kind)
      → has_finalizer E webhook_kind webhook_finalizer s.object ≡ true
      → Released webhook_finalizer s.object (finalize_deletion i s)
  unfolding finalize_deletion ◌>>=◌
  webhook_deletion-Released i s held = rw held (
      Quiet-Released webhook_finalizer _ s (
        attempt_cleanup-Quiet
          ((i.status.phase == "Ready") && not (s.object.status.webhook_key == "")) delete i
          delete-Quiet))
