-- ===== src/Template.antt =====
-- SonarQubePermissionTemplateReconciler
-- (internal/controller/sonarqubepermissiontemplate_controller.go).
pub mod Deletion
pub mod Missing
use sonarqube_operator.Prelude.{
  String, ◌<>◌, Bool, true, false, not, ◌&&◌, Option, ◌==◌, if◌then◌else◌,
}
use sonarqube_operator.Api.{Instance, Condition, NamespacedName}
use sonarqube_operator.Api.Access.{Template}
use sonarqube_operator.Sonar.{
  PermissionTemplate, find_permission_template, create_permission_template,
  set_default_permission_template, delete_permission_template,
}
use sonarqube_operator.Exec.{
  Env, template_kind, Exec, Credentials, sonar, normal, warning, Result, ok, err, pure, raise,
  attempt, wrap_error, ◌>>=◌, ◌>>◌, perform, emit, object, modify, update_status,
  update_status_ignored, is_sonar_not_found,
}
use sonarqube_operator.Controller
use sonarqube_operator.Controller.{
  CtrlResult, done, Handlers, has_finalizer, release, warn, condition_for,
}
use sonarqube_operator.Controller.BestEffort.{attempt_cleanup}

abbrev pub permission_template_finalizer : String
permission_template_finalizer = "sonarqube.io/permission-template-finalizer"

abbrev with_phase : String → Template → Template
with_phase phase t = record t { status = record t.status { phase = phase } }

-- Sets the Ready condition.
abbrev with_ready : Env → Bool → String → String → Template → Template
with_ready E status reason message t = record t {
  status = record t.status {
    conditions =
        E.set_status_condition t.status.conditions
          (condition_for t.meta "Ready" status reason message);
  };
}

abbrev with_id : String → Template → Template
with_id id t = record t { status = record t.status { template_id = id } }

module _ {E : Env} where
  created : Result String → Exec E template_kind (Unit {0})
  created (err e) = do
    modify (λ t. with_ready E false "CreateFailed" e.message (with_phase "Failed" t))
    update_status_ignored
    emit warning "CreateFailed" e.message
    raise (wrap_error "creating template" e)
  created (ok id) = do
    modify (with_id id)
    t ← object
    emit normal "Created" ("PermissionTemplate " <> (E.quote t.spec.name <> " created"))

  -- A template of the name is taken as it is; only its id is kept.
  looked_up : Credentials → Template → Result PermissionTemplate → Exec E template_kind (Unit {0})
  unfolding created
  looked_up c t (ok existing) = modify (with_id existing.id)
  looked_up c t (err e) =
      if not (is_sonar_not_found e) then raise (wrap_error "looking up template" e) else do
        r ← attempt (
            perform (
              sonar c (
                create_permission_template t.spec.name t.spec.description
                  t.spec.project_key_pattern)))
        created r

  make_default : Credentials → Exec E template_kind (Unit {0})
  make_default c = do
    t ← object
    if t.spec.is_default
        then (do
          r ← attempt (perform (sonar c (set_default_permission_template t.spec.name)))
          warn "SetDefaultFailed" r)
        else pure tt

  -- What follows the lookup, whichever way it went.
  finish : Credentials → Exec E template_kind (Unit {0})
  unfolding make_default
  finish c = do
    make_default c
    modify (λ t.
        with_ready E true "Ready" ("PermissionTemplate " <> (E.quote t.spec.name <> " is ready"))
          (with_phase "Ready" t))
    update_status

  unfoldable pub reconcile_template : Credentials → Exec E template_kind (Unit {0})
  unfolding looked_up finish
  reconcile_template c = do
    t ← object
    existing ← attempt (perform (sonar c (find_permission_template t.spec.name)))
    looked_up c t existing
    finish c

  delete : Credentials → Exec E template_kind (Unit {0})
  delete c = do
    t ← object
    r ← attempt (perform (sonar c (delete_permission_template t.status.template_id)))
    warn "DeleteFailed" r

  unfoldable pub finalize_deletion : Instance → Exec E template_kind (Unit {0})
  unfolding delete
  finalize_deletion i = do
    t ← object
    if not (has_finalizer E template_kind permission_template_finalizer t) then pure tt else do
      attempt_cleanup ((i.status.phase == "Ready") && not (t.status.template_id == "")) delete i
      release permission_template_finalizer

abbrev pub handlers : (E : Env) → Handlers E template_kind
handlers E = record {
  instance_ref = λ t. t.spec.instance_ref;
  finalizer = permission_template_finalizer;
  not_ready = λ i. with_phase "Pending";
  no_token = with_phase "Pending";
  finalize = finalize_deletion;
  ensure = λ i c. (do reconcile_template c; pure done);
}

unfoldable pub reconcile : {E : Env} → NamespacedName → Exec E template_kind CtrlResult
reconcile {E} request = Controller.reconcile (handlers E) request
