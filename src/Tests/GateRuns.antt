-- ===== src/Tests/GateRuns.antt =====
-- The conditions of a small quality gate.
use sonarqube_operator.Prelude.{false, List, [], ◌∷◌, All}
use sonarqube_operator.Api.{Gate, GateConditionSpec}
use sonarqube_operator.Sonar.{GateCondition}
use sonarqube_operator.Exec.{gate_kind, St}
use sonarqube_operator.QualityGate.Conditions.{reconcile_conditions}
use sonarqube_operator.QualityGate.Conditions.Sync.{Synced, reconcile_conditions_owned}
use sonarqube_operator.Tests.World.{world, creds, meta_named}

abbrev pub gate : Gate
gate = record {
  meta = meta_named "strict" [] false;
  spec = record {
    instance_ref = record { name = "sq"; namespace = "" };
    name = "strict";
    is_default = false;
    conditions = [];
  };
  status = record { phase = ""; gate_id = ""; conditions = [] };
}

abbrev at_start : St world gate_kind
at_start = record { server = 0; object = gate; history = [] }

abbrev pub current : List GateCondition
current = record { id = "1"; metric = "coverage"; op = "LT"; error = "70" } ∷ []

abbrev pub desired : List GateConditionSpec
desired = record { metric = "coverage"; operator = "LT"; value = "80" } ∷ []

reconcile_conditions_owned_example :
    All
      (Synced "strict" current desired)
      (reconcile_conditions creds "strict" current desired at_start).1.history
reconcile_conditions_owned_example =
    reconcile_conditions_owned world creds "strict" current desired at_start tt

abbrev kept : List GateConditionSpec
kept = record { metric = "coverage"; operator = "LT"; value = "70" } ∷ []
