-- ===== src/Project.antt =====
-- SonarQubeProjectReconciler (internal/controller/sonarqubeproject_controller.go). The children
-- hold the parts of reconcileProject; this file composes them.
pub mod Status
pub mod Links
pub mod Settings
pub mod Grants
pub mod Permissions
pub mod MainBranch
pub mod CiToken
pub mod Deletion
pub mod Existence
use sonarqube_operator.Prelude.{String, ◌<>◌, Bool, true, false, not, ◌==◌, if◌then◌else◌}
use sonarqube_operator.Api.{Instance, Project, ProjectSpec, NamespacedName}
use sonarqube_operator.Sonar.{
  RemoteProject, get_project, create_project, update_project_visibility, assign_quality_gate,
  set_project_tags, delete_project,
}
use sonarqube_operator.Exec.{
  Env, project_kind, Exec, Credentials, sonar, normal, warning, Error, Result, ok, err, pure, raise,
  attempt, wrap, wrap_error, ◌>>=◌, ◌>>◌, perform, emit, object, modify, update_status,
  update_status_ignored, is_sonar_not_found,
}
use sonarqube_operator.Controller
use sonarqube_operator.Controller.{
  CtrlResult, done, Handlers, has_finalizer, release, finalize_deletion, warn,
}
use Status.{with_phase, with_condition, ready_condition}
use Links.{reconcile_project_links}
use Settings.{reconcile_project_settings}
use Permissions.{reconcile_project_permissions}
use MainBranch.{reconcile_main_branch}
use CiToken.{reconcile_ci_token}

abbrev pub project_finalizer : String
project_finalizer = "sonarqube.io/project-finalizer"

module _ {E : Env} where
  created : Result (Unit {0}) → Exec E project_kind (Unit {0})
  created (err e) = do
    modify (λ p.
        with_condition E (ready_condition p false "CreateFailed" e.message) (with_phase "Failed" p))
    update_status_ignored
    emit warning "CreateFailed" e.message
    raise (wrap_error "creating project" e)
  created (ok _) = do
    p ← object
    emit normal "Created" ("Project " <> (E.quote p.spec.key <> " created"))

  -- The project is created where it is absent; where it exists, its visibility is set.
  unfoldable pub ensure_exists : Credentials → Result RemoteProject → Exec E project_kind (Unit {0})
  unfolding warn created
  ensure_exists c (err e) =
      if not (is_sonar_not_found e) then raise (wrap_error "checking project" e) else do
        p ← object
        r ← attempt (perform (sonar c (create_project p.spec.key p.spec.name p.spec.visibility)))
        created r
  ensure_exists c (ok existing) = do
    p ← object
    if existing.visibility == p.spec.visibility then pure tt else do
      r ← attempt (perform (sonar c (update_project_visibility p.spec.key p.spec.visibility)))
      warn "VisibilityUpdateFailed" r

  assign_gate : Credentials → Exec E project_kind (Unit {0})
  unfolding warn
  assign_gate c = do
    p ← object
    if p.spec.quality_gate_ref == "" then pure tt else do
      r ← attempt (perform (sonar c (assign_quality_gate p.spec.key p.spec.quality_gate_ref)))
      warn "QualityGateFailed" r

  -- Tags, links, settings and permissions are best effort.
  unfoldable pub best_effort : Credentials → Exec E project_kind (Unit {0})
  unfolding warn
  best_effort c = do
    p ← object
    tags ← attempt (perform (sonar c (set_project_tags p.spec.key p.spec.tags)))
    warn "TagsUpdateFailed" tags
    links ← attempt (reconcile_project_links c)
    warn "LinksUpdateFailed" links
    settings ← attempt (reconcile_project_settings c)
    warn "SettingsUpdateFailed" settings
    permissions ← attempt (reconcile_project_permissions c)
    warn "PermissionsUpdateFailed" permissions

  finish : Instance → Exec E project_kind (Unit {0})
  finish i = do
    modify (λ p. record p {
      status = record p.status {
        phase = "Ready";
        project_url = i.status.url <> ("/dashboard?id=" <> p.spec.key);
      };
    })
    modify (λ p.
        with_condition E
          (ready_condition p true "Ready"
            ("Project " <> (E.quote p.spec.key <> " is ready in SonarQube")))
          p)
    update_status

  unfoldable pub reconcile_project : Instance → Credentials → Exec E project_kind (Unit {0})
  unfolding assign_gate finish
  reconcile_project i c = do
    p ← object
    existing ← attempt (perform (sonar c (get_project p.spec.key)))
    ensure_exists c existing
    branch ← object
    (if branch.spec.main_branch == "" then pure tt else reconcile_main_branch c)
    assign_gate c
    best_effort c
    token ← object
    (if token.spec.ci_token.enabled then reconcile_ci_token i c else pure tt)
    finish i

  deleted : Result (Unit {0}) → Exec E project_kind (Unit {0})
  deleted (err e) = do
    emit warning "DeleteFailed" e.message
    raise (wrap_error "deleting project on deletion" e)
  deleted (ok _) = do
    p ← object
    emit normal "Deleted" ("Project " <> (E.quote p.spec.key <> " deleted from SonarQube"))
    release project_finalizer

  unfoldable pub handle_deletion : Credentials → Exec E project_kind (Unit {0})
  unfolding deleted
  handle_deletion c = do
    p ← object
    if not (has_finalizer E project_kind project_finalizer p)
        then pure tt
        else do r ← attempt (perform (sonar c (delete_project p.spec.key))); deleted r

-- finalizeDeletion
abbrev pub finalize_project : {E : Env} → Instance → Exec E project_kind (Unit {0})
finalize_project i = finalize_deletion project_finalizer handle_deletion i

abbrev pub handlers : (E : Env) → Handlers E project_kind
handlers E = record {
  instance_ref = λ p. p.spec.instance_ref;
  finalizer = project_finalizer;
  not_ready = λ i p.
      with_condition E
        (ready_condition p false "InstanceNotReady"
          ("SonarQubeInstance " <> (E.quote i.meta.name <> " is not ready")))
        (with_phase "Pending" p);
  no_token = with_phase "Pending";
  finalize = finalize_project;
  ensure = λ i c. (do reconcile_project i c; pure done);
}

unfoldable pub reconcile : {E : Env} → NamespacedName → Exec E project_kind CtrlResult
reconcile {E} request = Controller.reconcile (handlers E) request
