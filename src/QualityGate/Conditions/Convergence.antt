-- ===== src/QualityGate/Conditions/Convergence.antt =====
-- The two passes of reconcileConditions against a SonarQube that keeps the conditions of a gate.
use mathlib.Core.Path.{subst}
use sonarqube_operator.Prelude.{
  String, ◌<>◌, ◌≡◌, ◌≢◌, refl, sym, ap, ◌∙◌, true, false, ◌⊎◌, inl, inr, List, [], ◌∷◌, contains,
  All, Member, Bool-cases,
}
use sonarqube_operator.Api.{GateConditionSpec}
use sonarqube_operator.Sonar.{GateCondition, remove_condition, add_condition}
use sonarqube_operator.Exec.{
  Env, gate_kind, St, Credentials, sonar, Result, ok, ◌>>◌, wrap, perform,
}
use sonarqube_operator.Exec.Returned.{behind, called_then}
use sonarqube_operator.QualityGate.Conditions.Server.{GateServer}
use sonarqube_operator.QualityGate.Conditions.{
  key_of, key_of_spec, remove_conditions, add_conditions,
}

module _ {E : Env} (c : Credentials) (gate : String) (G : GateServer E c gate) where
  abbrev pub Run : Type 0
  Run = Result (Unit {0}) × St E gate_kind

  -- The condition is not one that the pass over `xs` removes.
  abbrev pub Spared : List String → GateCondition → List GateCondition → Type 0
  Spared keys y xs = All (λ x. contains keys (key_of x) ≡ false → y.id ≢ x.id) xs

  -- Behind the pass, exactly the conditions that it spares are left.
  abbrev pub Pruned : List String → List GateCondition → E.State → E.State → Type 0
  Pruned keys xs v t =
      (y : GateCondition)
      → (Member y (G.view t) → Member y (G.view v) × Spared keys y xs)
        × (Member y (G.view v) → Spared keys y xs → Member y (G.view t))

  pub remove_conditions-Pruned :
      (keys : List String) (xs : List GateCondition) (s : St E gate_kind)
      → (remove_conditions c keys xs s).0 ≡ ok tt
      → Pruned keys xs s.server (remove_conditions c keys xs s).1.server
  unfolding remove_conditions
  remove_conditions-Pruned keys [] s done = λ y. (λ m. (m, tt), λ m free. m)
  remove_conditions-Pruned keys (x ∷ xs) s done = elim (Bool-cases (contains keys (key_of x))) [
    | inl wanted ↦
        let same : remove_conditions c keys (x ∷ xs) s ≡ remove_conditions c keys xs s =
          rw wanted refl in
        subst (λ (r : Run). Pruned keys (x ∷ xs) s.server r.1.server) (sym same)
          λ y.
            let (old, new) =
              remove_conditions-Pruned keys xs s (sym (ap (λ r. r.0) same) ∙ done) y in
            (λ m. let (m', free) = old m in (m', (λ stale. cc, free)), λ m free. new m free.1)
    | inr stale ↦
        let call = sonar c (remove_condition x.id) in
        let first : remove_conditions c keys (x ∷ xs) s
            ≡ (wrap ("removing condition (metric=" <> (x.metric <> ")")) (perform call)
                  >> remove_conditions c keys xs)
                s =
          rw stale refl in
        let (u, t, answered, then) =
          called_then _ call (remove_conditions c keys xs) s tt
            (sym (ap (λ r. r.0) first) ∙ done) in
        let same = first ∙ then in
        subst (λ (r : Run). Pruned keys (x ∷ xs) s.server r.1.server) (sym same)
          λ y.
            let (old, new) =
              remove_conditions-Pruned keys xs (behind call s t) (sym (ap (λ r. r.0) same) ∙ done)
                y in
            (
              λ m.
                  let (m', free) = old m in
                  let (m'', apart) = G.removed x.id s.server t y answered m' in
                  (m'', (λ _. apart, free)),
              λ m free. new (G.spared x.id s.server t y answered m (free.0 stale)) free.1,
            )
  ]

  -- A condition of the key is there.
  abbrev pub Present : String → E.State → Type 0
  Present key t = (y : GateCondition) × Member y (G.view t) × (key_of y ≡ key)

  -- Behind the pass, every condition of `ds` that `current` lacks is there, and nothing came that the
  -- keys do not allow.
  abbrev pub Extended :
      List String → List String → List GateConditionSpec → E.State → E.State → Type 0
  Extended keys current ds v t =
      ((y : GateCondition) → Member y (G.view v) → Member y (G.view t))
      × ((y : GateCondition)
          → Member y (G.view t)
          → Member y (G.view v) ⊎ (contains keys (key_of y) ≡ true))
      × All (λ d. contains current (key_of_spec d) ≡ false → Present (key_of_spec d) t) ds

  allowed :
      (keys : List String) (key : String) (y : GateCondition) (v : E.State)
      → contains keys key ≡ true
      → Member y (G.view v) ⊎ (key_of y ≡ key)
      → Member y (G.view v) ⊎ (contains keys (key_of y) ≡ true)
  allowed keys key y v h (inl m) = inl m
  allowed keys key y v h (inr e) = inr (rw e h)

  then_allowed :
      (keys : List String) (y : GateCondition) (v t : E.State)
      → (Member y (G.view t) → Member y (G.view v) ⊎ (contains keys (key_of y) ≡ true))
      → Member y (G.view t) ⊎ (contains keys (key_of y) ≡ true)
      → Member y (G.view v) ⊎ (contains keys (key_of y) ≡ true)
  then_allowed keys y v t f (inl m) = f m
  then_allowed keys y v t f (inr e) = inr e

  pub add_conditions-Extended :
      (keys current : List String) (ds : List GateConditionSpec) (s : St E gate_kind)
      → All (λ d. contains keys (key_of_spec d) ≡ true) ds
      → (add_conditions c gate current ds s).0 ≡ ok tt
      → Extended keys current ds s.server (add_conditions c gate current ds s).1.server
  unfolding add_conditions
  add_conditions-Extended keys current [] s known done = (λ y m. m, λ y m. inl m, tt)
  add_conditions-Extended keys current (d ∷ ds) s known done =
      elim (Bool-cases (contains current (key_of_spec d))) [
        | inl there ↦
            let same : add_conditions c gate current (d ∷ ds) s
                ≡ add_conditions c gate current ds s =
              rw there refl in
            let (kept, only, present) =
              add_conditions-Extended keys current ds s known.1 (sym (ap (λ r. r.0) same) ∙ done) in
            subst (λ (r : Run). Extended keys current (d ∷ ds) s.server r.1.server) (sym same)
              (kept, only, (λ lacking. cc, present))
        | inr lacking ↦
            let call = sonar c (add_condition gate d.metric d.operator d.value) in
            let first : add_conditions c gate current (d ∷ ds) s
                ≡ (wrap ("adding condition (metric=" <> (d.metric <> ")")) (perform call)
                      >> add_conditions c gate current ds)
                    s =
              rw lacking refl in
            let (x, t, answered, then) =
              called_then _ call (add_conditions c gate current ds) s tt
                (sym (ap (λ r. r.0) first) ∙ done) in
            let same = first ∙ then in
            let (kept, only, present) =
              add_conditions-Extended keys current ds (behind call s t) known.1
                (sym (ap (λ r. r.0) same) ∙ done) in
            let (y, m, e) = G.added d.metric d.operator d.value x s.server t answered in
            subst (λ (r : Run). Extended keys current (d ∷ ds) s.server r.1.server) (sym same)
              (
                λ z m. kept z (G.kept d.metric d.operator d.value x s.server t z answered m),
                λ z m.
                    then_allowed keys z s.server t
                      (λ n.
                        allowed keys (key_of_spec d) z s.server known.0
                          (G.only_added d.metric d.operator d.value x s.server t z answered n))
                      (only z m),
                (λ _. (y, kept y m, e), present),
              )
      ]
