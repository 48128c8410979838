-- ===== src/Project/Deletion.antt =====
-- What the deletion of a project leaves behind.
use sonarqube_operator.Prelude.{◌≡◌, refl, true, false, ◌∷◌}
use sonarqube_operator.Sonar.{delete_project}
use sonarqube_operator.Exec.{
  Env, project_kind, St, Credentials, sonar, called, event, warning, Error, ok, err, wrap_error,
  ◌>>=◌, perform, emit,
}
use sonarqube_operator.Controller.{has_finalizer}
use sonarqube_operator.Controller.Release.{Released, release-Released}
use sonarqube_operator.Project.{project_finalizer, deleted, handle_deletion}

module _ {E : Env} (c : Credentials) (s : St E project_kind) where
  -- For a project that carries the finalizer: while SonarQube refuses to delete it, the error is
  -- returned, the object in memory is as before, so it keeps the finalizer, and behind the
  -- refused call only an event follows; once SonarQube has deleted it, the last call writes the
  -- resource without the finalizer.
  pub project_deletion-Released :
      has_finalizer E project_kind project_finalizer s.object ≡ true
      → let delete = sonar c (delete_project s.object.spec.key) in
        let answer = E.answer delete s.server in
        let run = handle_deletion c s in
        ((e : Error)
          → answer.0 ≡ err e
          → (run.0 ≡ err (wrap_error "deleting project on deletion" e))
            × (run.1.object ≡ s.object)
            × (run.1.history
                ≡ event warning "DeleteFailed" e.message ∷ called delete false ∷ s.history))
        × (answer.0 ≡ ok tt → Released project_finalizer s.object run)
  unfolding handle_deletion deleted ◌>>=◌ perform emit
  project_deletion-Released held = (
    (λ e refused. rw (held, refused) (refl, refl, refl)),
    (λ gone. rw (held, gone) (release-Released project_finalizer _)),
  )
