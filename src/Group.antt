-- ===== src/Group.antt =====
-- SonarQubeGroupReconciler (internal/controller/sonarqubegroup_controller.go).
pub mod Deletion
use sonarqube_operator.Prelude.{
  String, ◌<>◌, Bool, true, false, not, ◌||◌, Option, ◌==◌, if◌then◌else◌,
}
use sonarqube_operator.Api.{Instance, Condition, NamespacedName}
use sonarqube_operator.Api.Access.{Group}
use sonarqube_operator.Sonar.{group_exists, create_group, update_group_description, delete_group}
use sonarqube_operator.Exec.{
  Env, group_kind, Exec, Credentials, sonar, normal, warning, Result, ok, err, pure, raise, attempt,
  wrap, wrap_error, ◌>>=◌, ◌>>◌, perform, emit, object, modify, update_status,
  update_status_ignored,
}
use sonarqube_operator.Controller
use sonarqube_operator.Controller.{
  CtrlResult, done, Handlers, has_finalizer, release, warn, condition_for,
}
use sonarqube_operator.Controller.BestEffort.{attempt_cleanup}

abbrev pub group_finalizer : String
group_finalizer = "sonarqube.io/group-finalizer"

-- Whether SonarQube itself brings the group.
unfoldable pub default_groups : String → Bool
default_groups name = (name == "sonar-administrators") || (name == "sonar-users")

abbrev with_phase : String → Group → Group
with_phase phase g = record g { status = record g.status { phase = phase } }

-- Sets the Ready condition.
abbrev with_ready : Env → Bool → String → String → Group → Group
with_ready E status reason message g = record g {
  status = record g.status {
    conditions =
        E.set_status_condition g.status.conditions
          (condition_for g.meta "Ready" status reason message);
  };
}

module _ {E : Env} where
  created : Result (Unit {0}) → Exec E group_kind (Unit {0})
  created (err e) = do
    modify (λ g. with_ready E false "CreateFailed" e.message (with_phase "Failed" g))
    update_status_ignored
    emit warning "CreateFailed" e.message
    raise (wrap_error "creating group" e)
  created (ok _) = do
    g ← object
    emit normal "Created" ("Group " <> (E.quote g.spec.name <> " created"))

  -- An absent group is created; the description of one that is there is brought in line where the
  -- specification gives one.
  bring_in_line : Credentials → Bool → Exec E group_kind (Unit {0})
  unfolding created
  bring_in_line c exists = do
    g ← object
    if not exists
        then (do
          r ← attempt (perform (sonar c (create_group g.spec.name g.spec.description)))
          created r)
        else if not (g.spec.description == "")
        then (do
          r ← attempt (perform (sonar c (update_group_description g.spec.name g.spec.description)))
          warn "DescriptionUpdateFailed" r)
        else pure tt

  unfoldable pub reconcile_group : Credentials → Exec E group_kind (Unit {0})
  unfolding bring_in_line
  reconcile_group c = do
    g ← object
    exists ← wrap "checking group" (perform (sonar c (group_exists g.spec.name)))
    bring_in_line c exists
    modify (λ g.
        with_ready E true "Ready" ("Group " <> (E.quote g.spec.name <> " is ready in SonarQube"))
          (with_phase "Ready" g))
    update_status

  deleted : String → Result (Unit {0}) → Exec E group_kind (Unit {0})
  deleted name (err e) = emit warning "DeleteFailed" e.message
  deleted name (ok _) = emit normal "Deleted" ("Group " <> (E.quote name <> " deleted"))

  delete : String → Credentials → Exec E group_kind (Unit {0})
  unfolding deleted
  delete name c = do r ← attempt (perform (sonar c (delete_group name))); deleted name r

  -- A group of SonarQube's own is released without a call to delete it.
  unfoldable pub finalize_deletion : Instance → Exec E group_kind (Unit {0})
  unfolding default_groups delete
  finalize_deletion i = do
    g ← object
    if not (has_finalizer E group_kind group_finalizer g)
        then pure tt
        else if default_groups g.spec.name
        then release group_finalizer
        else do
          attempt_cleanup (i.status.phase == "Ready") (delete g.spec.name) i
          release group_finalizer

abbrev pub handlers : (E : Env) → Handlers E group_kind
handlers E = record {
  instance_ref = λ g. g.spec.instance_ref;
  finalizer = group_finalizer;
  not_ready = λ i g.
      with_ready E false "InstanceNotReady"
        ("SonarQubeInstance " <> (E.quote i.meta.name <> " is not ready")) (with_phase "Pending" g);
  no_token = with_phase "Pending";
  finalize = finalize_deletion;
  ensure = λ i c. (do reconcile_group c; pure done);
}

unfoldable pub reconcile : {E : Env} → NamespacedName → Exec E group_kind CtrlResult
reconcile {E} request = Controller.reconcile (handlers E) request
