-- ===== src/QualityGate/Conditions/Idle.antt =====
-- A gate that is as the specification asks is left alone.
use sonarqube_operator.Prelude.{String, ◌≡◌, refl, true, List, [], ◌∷◌, map, contains, All}
use sonarqube_operator.Api.{GateConditionSpec}
use sonarqube_operator.Sonar.{GateCondition}
use sonarqube_operator.Exec.{Env, gate_kind, St, Credentials, ok, ◌>>=◌}
use sonarqube_operator.QualityGate.Conditions.{
  key_of, key_of_spec, remove_conditions, add_conditions, reconcile_conditions,
}

module _ {E : Env} (c : Credentials) (s : St E gate_kind) where
  remove_conditions_idle :
      (desired : List String) (xs : List GateCondition)
      → All (λ x. contains desired (key_of x) ≡ true) xs
      → remove_conditions c desired xs s ≡ (ok tt, s)
  unfolding remove_conditions
  remove_conditions_idle desired [] h = refl
  remove_conditions_idle desired (x ∷ xs) h = rw h.0 (remove_conditions_idle desired xs h.1)

  add_conditions_idle :
      (gate : String) (current : List String) (ds : List GateConditionSpec)
      → All (λ d. contains current (key_of_spec d) ≡ true) ds
      → add_conditions c gate current ds s ≡ (ok tt, s)
  unfolding add_conditions
  add_conditions_idle gate current [] h = refl
  add_conditions_idle gate current (d ∷ ds) h = rw h.0 (add_conditions_idle gate current ds h.1)

  -- When the gate and the specification have the same conditions, in whatever order, no call is
  -- made at all.
  pub reconcile_conditions_idle :
      (gate : String) (current : List GateCondition) (desired : List GateConditionSpec)
      → All (λ x. contains (map key_of_spec desired) (key_of x) ≡ true) current
      → All (λ d. contains (map key_of current) (key_of_spec d) ≡ true) desired
      → reconcile_conditions c gate current desired s ≡ (ok tt, s)
  unfolding reconcile_conditions ◌>>=◌
  reconcile_conditions_idle gate current desired known present =
      rw (remove_conditions_idle (map key_of_spec desired) current known)
        (add_conditions_idle gate (map key_of current) desired present)
