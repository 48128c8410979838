-- ===== src/QualityGate/Conditions/Sync.antt =====
-- Which calls reconcileConditions makes.
use sonarqube_operator.Prelude.{
  String, ◌≡◌, refl, false, List, [], ◌∷◌, map, contains, All, Member, All-Member,
}
use sonarqube_operator.Api.{GateConditionSpec}
use sonarqube_operator.Sonar.{GateCondition, SonarCall, remove_condition, add_condition}
use sonarqube_operator.Exec.{Env, gate_kind, St, Credentials, sonar, Action, called}
use sonarqube_operator.Exec.Rules.{Logs, Logs-pure, Logs-bind, Logs-wrapped, Logs-if}
use sonarqube_operator.QualityGate.Conditions.{
  key_of, key_of_spec, remove_conditions, add_conditions, reconcile_conditions,
}

module _ (gate : String) (current : List GateCondition) (desired : List GateConditionSpec) where
  -- The identifier is that of a current condition which the specification lacks.
  abbrev pub Stale : (id : String) → Type 0
  Stale id =
      (x : GateCondition) × Member x current
      × (x.id ≡ id)
      × (contains (map key_of_spec desired) (key_of x) ≡ false)

  -- The specification has the condition, and SonarQube lacks it.
  abbrev pub Missing : (metric op value : String) → Type 0
  Missing metric op value =
      (d : GateConditionSpec) × Member d desired
      × (d.metric ≡ metric)
      × (d.operator ≡ op)
      × (d.value ≡ value)
      × (contains (map key_of current) (key_of_spec d) ≡ false)

  abbrev pub SyncCall : SonarCall → Type 0
  SyncCall (remove_condition id) = Stale id
  SyncCall (add_condition g metric op value) = (g ≡ gate) × Missing metric op value
  SyncCall _ = ⊥

  abbrev pub Synced : Action → Type 0
  Synced (called (sonar _ call) _) = SyncCall call
  Synced _ = ⊥

  module _ {E : Env} (c : Credentials) where
    remove_conditions-Logs :
        (xs : List GateCondition)
        → All (λ x. Member x current) xs
        → Logs Synced (remove_conditions {E = E} c (map key_of_spec desired) xs)
    unfolding remove_conditions
    remove_conditions-Logs [] h = Logs-pure tt
    remove_conditions-Logs (x ∷ rest) h =
        Logs-if (contains (map key_of_spec desired) (key_of x)) _ _
          (λ _. remove_conditions-Logs rest h.1)
          (λ free.
            Logs-bind _ _
              (Logs-wrapped _ (sonar c (remove_condition x.id)) (λ b. (x, h.0, refl, free)))
              (λ _. remove_conditions-Logs rest h.1))

    add_conditions-Logs :
        (ds : List GateConditionSpec)
        → All (λ d. Member d desired) ds
        → Logs Synced (add_conditions {E = E} c gate (map key_of current) ds)
    unfolding add_conditions
    add_conditions-Logs [] h = Logs-pure tt
    add_conditions-Logs (d ∷ rest) h =
        Logs-if (contains (map key_of current) (key_of_spec d)) _ _
          (λ _. add_conditions-Logs rest h.1)
          (λ free.
            Logs-bind _ _
              (Logs-wrapped _ (sonar c (add_condition gate d.metric d.operator d.value))
                (λ b. (refl, (d, h.0, refl, refl, refl, free))))
              (λ _. add_conditions-Logs rest h.1))

-- The only calls are removals of conditions that the gate has and whose key the specification lacks, and
-- additions of conditions that the specification has and whose key the gate lacks.
pub reconcile_conditions_owned :
    (E : Env) (c : Credentials) (gate : String) (current : List GateCondition)
    (desired : List GateConditionSpec) (s : St E gate_kind)
    → All (Synced gate current desired) s.history
    → All (Synced gate current desired) (reconcile_conditions c gate current desired s).1.history
unfolding reconcile_conditions
reconcile_conditions_owned E c gate current desired s h =
    (Logs-bind _ _ (remove_conditions-Logs gate current desired c current (All-Member current))
        (λ _. add_conditions-Logs gate current desired c desired (All-Member desired))).at
      s h
