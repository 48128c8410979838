-- ===== src/QualityGate/Deletion.antt =====
-- What the deletion of a quality gate leaves behind.
use sonarqube_operator.Prelude.{◌≡◌, true, ◌==◌, Bool-cases, inl, inr}
use sonarqube_operator.Sonar.{delete_quality_gate}
use sonarqube_operator.Exec.{
  Env, gate_kind, St, Credentials, sonar, Result, ok, err, ◌>>=◌, ◌>>◌, perform, emit,
  is_sonar_not_found,
}
use sonarqube_operator.Controller.{has_finalizer, release}
use sonarqube_operator.Controller.Release.{Released, release-Released}
use sonarqube_operator.QualityGate.{quality_gate_finalizer, deleted, handle_deletion}

module _ {E : Env} where
  deleted-Released :
      (r : Result (Unit {0})) (s : St E gate_kind)
      → Released quality_gate_finalizer s.object ((deleted r >> release quality_gate_finalizer) s)
  unfolding deleted ◌>>=◌ emit
  deleted-Released (ok _) s = release-Released quality_gate_finalizer _
  deleted-Released (err e) s = elim (Bool-cases (is_sonar_not_found e)) [
    | inl gone ↦ rw gone (release-Released quality_gate_finalizer s)
    | inr failed ↦ rw failed (release-Released quality_gate_finalizer _)
  ]

  -- For a gate that carries the finalizer, whatever SonarQube answers to its deletion, the last
  -- call writes the resource without the finalizer, and the deletion succeeds when that write
  -- does.
  pub gate_deletion-Released :
      (c : Credentials) (s : St E gate_kind)
      → has_finalizer E gate_kind quality_gate_finalizer s.object ≡ true
      → Released quality_gate_finalizer s.object (handle_deletion c s)
  unfolding handle_deletion ◌>>=◌ perform
  gate_deletion-Released c s held = elim (Bool-cases (s.object.status.gate_id == "")) [
    | inl empty ↦ rw (held, empty) (release-Released quality_gate_finalizer s)
    | inr given ↦
        rw (held, given)
          (deleted-Released
            (E.answer (sonar c (delete_quality_gate s.object.status.gate_id)) s.server).0 _)
  ]
