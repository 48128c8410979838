-- ===== src/QualityGate.antt =====
-- SonarQubeQualityGateReconciler (internal/controller/sonarqubequalitygate_controller.go).
pub mod Conditions
pub mod Deletion
use sonarqube_operator.Prelude.{String, ◌<>◌, Bool, true, false, not, List, [], ◌==◌, if◌then◌else◌}
use sonarqube_operator.Api.{Instance, Gate, Condition, NamespacedName}
use sonarqube_operator.Sonar.{
  QualityGate, GateCondition, get_quality_gate, create_quality_gate, set_as_default,
  delete_quality_gate,
}
use sonarqube_operator.Exec.{
  Env, gate_kind, Exec, Credentials, sonar, normal, warning, Error, Result, ok, err, pure, raise,
  attempt, wrap_error, ◌>>=◌, ◌>>◌, perform, emit, object, modify, update_status,
  update_status_ignored, is_sonar_not_found,
}
use sonarqube_operator.Controller
use sonarqube_operator.Controller.{
  CtrlResult, done, Handlers, has_finalizer, release, finalize_deletion, condition_for,
}
use Conditions.{reconcile_conditions}

abbrev pub quality_gate_finalizer : String
quality_gate_finalizer = "sonarqube.io/qualitygate-finalizer"

abbrev with_phase : String → Gate → Gate
with_phase phase g = record g { status = record g.status { phase = phase } }

-- Sets the Ready condition.
abbrev with_ready : Env → Bool → String → String → Gate → Gate
with_ready E status reason message g = record g {
  status = record g.status {
    conditions =
        E.set_status_condition g.status.conditions
          (condition_for g.meta "Ready" status reason message);
  };
}

module _ {E : Env} where
  -- The phase Failed with its condition, the status and a Warning event.
  fail_with : String → Error → Exec E gate_kind (Unit {0})
  fail_with reason e = do
    modify (λ g. with_ready E false reason e.message (with_phase "Failed" g))
    update_status_ignored
    emit warning reason e.message

  created : Result QualityGate → Exec E gate_kind QualityGate
  unfolding fail_with
  created (err e) = do fail_with "CreateFailed" e; raise (wrap_error "creating quality gate" e)
  created (ok gate) = do
    g ← object
    emit normal "Created"
        ("Quality gate " <> (E.quote g.spec.name <> (" created (id=" <> (gate.id <> ")"))))
    pure (record gate { conditions = [] })

  -- The gate with its conditions; one that was just created has none.
  found : Credentials → Result QualityGate → Exec E gate_kind QualityGate
  unfolding created
  found c (ok gate) = pure gate
  found c (err e) =
      if not (is_sonar_not_found e) then raise (wrap_error "getting quality gate" e) else do
        g ← object
        r ← attempt (perform (sonar c (create_quality_gate g.spec.name)))
        created r

  synced : Result (Unit {0}) → Exec E gate_kind (Unit {0})
  unfolding fail_with
  synced (ok _) = pure tt
  synced (err e) = do fail_with "ConditionSyncFailed" e; raise e

  default_set : Result (Unit {0}) → Exec E gate_kind (Unit {0})
  default_set (ok _) = pure tt
  default_set (err e) = emit warning "SetDefaultFailed" e.message

  make_default : Credentials → Exec E gate_kind (Unit {0})
  unfolding default_set
  make_default c = do
    g ← object
    if g.spec.is_default
        then (do r ← attempt (perform (sonar c (set_as_default g.spec.name))); default_set r)
        else pure tt

  finish : String → Exec E gate_kind (Unit {0})
  finish id = do
    modify (λ g. record g { status = record g.status { phase = "Ready"; gate_id = id } })
    modify (λ g.
        with_ready E true "Ready"
          ("Quality gate " <> (E.quote g.spec.name <> (" is ready (id=" <> (id <> ")")))) g)
    update_status

  unfoldable pub reconcile_quality_gate : Credentials → Exec E gate_kind (Unit {0})
  unfolding found synced make_default finish
  reconcile_quality_gate c = do
    g ← object
    existing ← attempt (perform (sonar c (get_quality_gate g.spec.name)))
    gate ← found c existing
    h ← object
    r ← attempt (reconcile_conditions c h.spec.name gate.conditions h.spec.conditions)
    synced r
    make_default c
    finish gate.id

  deleted : Result (Unit {0}) → Exec E gate_kind (Unit {0})
  deleted (err e) = if is_sonar_not_found e then pure tt else do
    g ← object
    emit warning "DeleteWarning" (
        "Could not delete quality gate "
        <> (E.quote g.spec.name <> (" from SonarQube (continuing cleanup): " <> e.message)))
  deleted (ok _) = do
    g ← object
    emit normal "Deleted" ("Quality gate " <> (E.quote g.spec.name <> " deleted from SonarQube"))

  -- Whatever SonarQube answers, the finalizer is removed.
  unfoldable pub handle_deletion : Credentials → Exec E gate_kind (Unit {0})
  unfolding deleted
  handle_deletion c = do
    g ← object
    if not (has_finalizer E gate_kind quality_gate_finalizer g) then pure tt else do
      (if g.status.gate_id == ""
          then pure tt
          else do r ← attempt (perform (sonar c (delete_quality_gate g.status.gate_id))); deleted r)
      release quality_gate_finalizer

abbrev pub handlers : (E : Env) → Handlers E gate_kind
handlers E = record {
  instance_ref = λ g. g.spec.instance_ref;
  finalizer = quality_gate_finalizer;
  not_ready = λ i g.
      with_ready E false "InstanceNotReady"
        ("SonarQubeInstance " <> (E.quote i.meta.name <> " is not ready")) (with_phase "Pending" g);
  no_token = with_phase "Pending";
  finalize = finalize_deletion quality_gate_finalizer handle_deletion;
  ensure = λ i c. (do reconcile_quality_gate c; pure done);
}

unfoldable pub reconcile : {E : Env} → NamespacedName → Exec E gate_kind CtrlResult
reconcile {E} request = Controller.reconcile (handlers E) request
