-- ===== src/QualityGate/Conditions.antt =====
-- reconcileConditions and conditionKey
pub mod Key
pub mod Sync
pub mod Idle
pub mod Server
pub mod Convergence
pub mod Refinement
use sonarqube_operator.Prelude.{String, ◌<>◌, Bool, List, [], ◌∷◌, map, contains, if◌then◌else◌}
use sonarqube_operator.Api.{GateConditionSpec}
use sonarqube_operator.Sonar.{GateCondition, remove_condition, add_condition}
use sonarqube_operator.Exec.{
  Env, gate_kind, Exec, Credentials, sonar, pure, wrap, ◌>>=◌, ◌>>◌, perform,
}

unfoldable pub condition_key : (metric op value : String) → String
condition_key metric op value = metric <> ("|" <> (op <> ("|" <> value)))

abbrev pub key_of : GateCondition → String
key_of c = condition_key c.metric c.op c.error

abbrev pub key_of_spec : GateConditionSpec → String
key_of_spec d = condition_key d.metric d.operator d.value

module _ {E : Env} (c : Credentials) where
  unfoldable pub remove_conditions :
      (desired : List String) → List GateCondition → Exec E gate_kind (Unit {0})
  remove_conditions desired [] = pure tt
  remove_conditions desired (x ∷ rest) =
      let others = remove_conditions desired rest in
      if contains desired (key_of x) then others else do
        wrap ("removing condition (metric=" <> (x.metric <> ")"))
            (perform (sonar c (remove_condition x.id)))
        others

  unfoldable pub add_conditions :
      (gate : String) (current : List String) → List GateConditionSpec → Exec E gate_kind (Unit {0})
  add_conditions gate current [] = pure tt
  add_conditions gate current (d ∷ rest) =
      let others = add_conditions gate current rest in
      if contains current (key_of_spec d) then others else do
        wrap ("adding condition (metric=" <> (d.metric <> ")"))
            (perform (sonar c (add_condition gate d.metric d.operator d.value)))
        others

  -- Conditions that the specification lacks are removed, and those that SonarQube lacks are added.
  unfoldable pub reconcile_conditions :
      (gate : String) (current : List GateCondition) (desired : List GateConditionSpec)
      → Exec E gate_kind (Unit {0})
  unfolding remove_conditions add_conditions condition_key
  reconcile_conditions gate current desired = do
    remove_conditions (map key_of_spec desired) current
    add_conditions gate (map key_of current) desired
