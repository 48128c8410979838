-- ===== src/QualityGate/Conditions/Refinement.antt =====
-- What reconcileConditions promises: the keys of the gate's conditions become those of the
-- specification.
use mathlib.Core.Path.{subst}
use sonarqube_operator.Prelude.{
  String, ◌≡◌, refl, sym, ap, ◌∙◌, true, inl, inr, ◌⊎◌, List, map, contains, All, All_at, All_of,
  Member, contains-map, Member-contains, Bool-cases,
}
use sonarqube_operator.Api.{GateConditionSpec}
use sonarqube_operator.Sonar.{GateCondition}
use sonarqube_operator.Exec.{Env, gate_kind, St, Credentials, ok}
use sonarqube_operator.Exec.Returned.{first_returned}
use sonarqube_operator.QualityGate.Conditions.{
  key_of, key_of_spec, remove_conditions, add_conditions, reconcile_conditions,
}
use sonarqube_operator.QualityGate.Conditions.Server.{GateServer, Distinct}
use sonarqube_operator.QualityGate.Conditions.Convergence.{
  Run, Spared, Pruned, Extended, remove_conditions-Pruned, add_conditions-Extended,
}
use sonarqube_operator.QualityGate.Conditions.Idle.{reconcile_conditions_idle}

module _ {E : Env} (c : Credentials) (gate : String) (G : GateServer E c gate)
    (desired : List GateConditionSpec) (v u t : E.State) (distinct : Distinct (G.view v))
    (pruned : Pruned c gate G (map key_of_spec desired) (G.view v) v u)
    (extended : Extended c gate G
      (map key_of_spec desired)
      (map key_of (G.view v))
      desired
      u
      t) where
  only_desired :
      (y : GateCondition)
      → Member y (G.view u) ⊎ (contains (map key_of_spec desired) (key_of y) ≡ true)
      → contains (map key_of_spec desired) (key_of y) ≡ true
  only_desired y (inr e) = e
  only_desired y (inl m) = elim (Bool-cases (contains (map key_of_spec desired) (key_of y))) [
    | inl wanted ↦ wanted
    | inr stale ↦
        let (old, free) = (pruned y).0 m in absurd (All_at _ (G.view v) y free old stale refl)
  ]

  all_desired : All (λ y. contains (map key_of_spec desired) (key_of y) ≡ true) (G.view t)
  all_desired = All_of _ (G.view t) (λ y m. only_desired y (extended.1 y m))

  -- A condition of the specification that the gate had is not removed.
  old_Spared :
      (x : GateCondition)
      → Member x (G.view v)
      → contains (map key_of_spec desired) (key_of x) ≡ true
      → Spared c gate G (map key_of_spec desired) x (G.view v)
  old_Spared x m wanted = All_of _ (G.view v) (λ z n stale same.
      (let e : x ≡ z = distinct x z m n same in
        let q = ap (λ w. contains (map key_of_spec desired) (key_of w)) e in cc))

  there :
      (d : GateConditionSpec)
      → Member d desired
      → contains (map key_of (G.view t)) (key_of_spec d) ≡ true
  there d m = elim (Bool-cases (contains (map key_of (G.view v)) (key_of_spec d))) [
    | inl had ↦
        let (x, old, e) = contains-map key_of (G.view v) (key_of_spec d) had in
        let wanted = Member-contains key_of_spec desired d (key_of x) m (sym e) in
        Member-contains key_of (G.view t) x (key_of_spec d)
          (extended.0 x ((pruned x).1 old (old_Spared x old wanted))) e
    | inr lacking ↦
        let (y, new, e) = All_at _ desired d extended.2 m lacking in
        Member-contains key_of (G.view t) y (key_of_spec d) new e
  ]

  all_there : All (λ d. contains (map key_of (G.view t)) (key_of_spec d) ≡ true) desired
  all_there = All_of _ desired there

module _ {E : Env} (c : Credentials) (gate : String) (G : GateServer E c gate)
    (desired : List GateConditionSpec) where
  -- The gate and the specification have the same keys.
  abbrev pub InLine : E.State → Type 0
  InLine t =
      All (λ y. contains (map key_of_spec desired) (key_of y) ≡ true) (G.view t)
      × All (λ d. contains (map key_of (G.view t)) (key_of_spec d) ≡ true) desired

  run_InLine :
      (s : St E gate_kind)
      → Distinct (G.view s.server)
      → (reconcile_conditions c gate (G.view s.server) desired s).0 ≡ ok tt
      → InLine (reconcile_conditions c gate (G.view s.server) desired s).1.server
  unfolding reconcile_conditions
  run_InLine s distinct done =
      let keys = map key_of_spec desired in
      let current = map key_of (G.view s.server) in
      let s' = (remove_conditions c keys (G.view s.server) s).1 in
      let (u, removed, same) =
        first_returned (remove_conditions c keys (G.view s.server))
          (add_conditions c gate current desired) s tt done in
      let pruned = remove_conditions-Pruned c gate G keys (G.view s.server) s removed in
      let extended =
        add_conditions-Extended c gate G keys current desired s'
          (All_of _ desired (λ d m. Member-contains key_of_spec desired d _ m refl))
          (sym (ap (λ r. r.0) same) ∙ done) in
      subst (λ (r : Run c gate G). InLine r.1.server) (sym same)
        (
          all_desired c gate G desired s.server s'.server _ distinct pruned extended,
          all_there c gate G desired s.server s'.server _ distinct pruned extended,
        )

  -- Where SonarQube keeps the conditions of the gate as its two calls say and the ids
  -- that it lists are distinct, a run that succeeds leaves the gate with exactly the keys
  -- of the specification, and the next run makes no call.
  pub reconcile_conditions_refines :
      (s : St E gate_kind)
      → Distinct (G.view s.server)
      → (reconcile_conditions c gate (G.view s.server) desired s).0 ≡ ok tt
      → let s' = (reconcile_conditions c gate (G.view s.server) desired s).1 in
        InLine s'.server × (reconcile_conditions c gate (G.view s'.server) desired s' ≡ (ok tt, s'))
  reconcile_conditions_refines s distinct done =
      let s' = (reconcile_conditions c gate (G.view s.server) desired s).1 in
      let (known, present) = run_InLine s distinct done in
      (
        (known, present),
        reconcile_conditions_idle c s' gate (G.view s'.server) desired known present,
      )
