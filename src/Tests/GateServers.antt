-- ===== src/Tests/GateServers.antt =====
-- A SonarQube that keeps the conditions of one gate, and a run against it.
use mathlib.Core.Path.{subst}
use sonarqube_operator.Prelude.{
  String, ◌≡◌, ◌≢◌, refl, sym, ap, ◌∙◌, Bool, true, false, ◌⊎◌, inl, inr, List, [], ◌∷◌, ◌==◌,
  Member, eq_iff, if◌then◌else◌,
}
use sonarqube_operator.Sonar.{GateCondition, remove_condition, add_condition}
use sonarqube_operator.Exec.{
  Env, gate_kind, St, Call, Reply, sonar, Result, ok, err, other, ◌>>=◌, perform,
}
use sonarqube_operator.QualityGate.Conditions.{key_of, reconcile_conditions}
use sonarqube_operator.QualityGate.Conditions.Server.{GateServer, Distinct}
use sonarqube_operator.QualityGate.Conditions.Refinement.{InLine, reconcile_conditions_refines}
use sonarqube_operator.Tests.World.{world, creds, failure}
use sonarqube_operator.Tests.GateRuns.{gate, current, desired}

abbrev drop : String → List GateCondition → List GateCondition
drop id [] = []
drop id (x ∷ v) = let rest = drop id v in if x.id == id then rest else x ∷ rest

abbrev fresh : (metric op value : String) → GateCondition
fresh metric op value = record { id = "new"; metric = metric; op = op; error = value }

abbrev keep_gate : (c : Call) → List GateCondition → Result (Reply c) × List GateCondition
keep_gate (sonar _ (remove_condition id)) v = (ok tt, drop id v)
keep_gate (sonar _ (add_condition _ metric op value)) v =
    (ok (fresh metric op value), fresh metric op value ∷ v)
keep_gate c v = (err (failure other "refused"), v)

abbrev gates : Env
gates = record {
  State = List GateCondition;
  answer = keep_gate;
  contains_finalizer = world.contains_finalizer;
  add_finalizer = world.add_finalizer;
  remove_finalizer = world.remove_finalizer;
  set_controller_reference = world.set_controller_reference;
  set_status_condition = world.set_status_condition;
  quote = world.quote;
  date_after = λ v n. "";
  range = λ v l. l;
}

other_id : (x y : GateCondition) (id : String) → (x.id == id) ≡ false → x ≡ y → y.id ≢ id
other_id x y id apart e same =
    let q : (x.id == id) ≡ true = (eq_iff x.id id).1 (ap (λ z. z.id) e ∙ same) in cc

-- The list without or with its head.
old_of :
    (b : Bool) (id : String) (x : GateCondition) (rest v : List GateCondition) (y : GateCondition)
    → (x.id == id) ≡ b
    → (Member y rest → Member y v × (y.id ≢ id))
    → Member y (if b then rest else x ∷ rest)
    → Member y (x ∷ v) × (y.id ≢ id)
old_of true id x rest v y h f m = (inr (f m).0, (f m).1)
old_of false id x rest v y h f (inl e) = (inl e, other_id x y id h e)
old_of false id x rest v y h f (inr m) = (inr (f m).0, (f m).1)

drop_old :
    (id : String) (v : List GateCondition) (y : GateCondition)
    → Member y (drop id v)
    → Member y v × (y.id ≢ id)
drop_old id [] y m = elim m [ ]
drop_old id (x ∷ v) y m = old_of (x.id == id) id x (drop id v) v y refl (drop_old id v y) m

kept_of :
    (b : Bool) (id : String) (x : GateCondition) (rest v : List GateCondition) (y : GateCondition)
    → (x.id == id) ≡ b
    → y.id ≢ id
    → (Member y v → Member y rest)
    → Member y (x ∷ v)
    → Member y (if b then rest else x ∷ rest)
kept_of true id x rest v y h apart f (inl e) =
    absurd (apart (sym (ap (λ z. z.id) e) ∙ (eq_iff x.id id).0 h))
kept_of true id x rest v y h apart f (inr m) = f m
kept_of false id x rest v y h apart f (inl e) = inl e
kept_of false id x rest v y h apart f (inr m) = inr (f m)

drop_kept :
    (id : String) (v : List GateCondition) (y : GateCondition)
    → y.id ≢ id
    → Member y v
    → Member y (drop id v)
drop_kept id [] y apart m = m
drop_kept id (x ∷ v) y apart m =
    kept_of (x.id == id) id x (drop id v) v y refl apart (drop_kept id v y apart) m

only_new :
    (x y : GateCondition) (v : List GateCondition)
    → Member y (x ∷ v)
    → Member y v ⊎ (key_of y ≡ key_of x)
only_new x y v (inl e) = inr (ap key_of (sym e))
only_new x y v (inr m) = inl m

abbrev strict_gate : GateServer gates creds "strict"
strict_gate = record {
  view = λ v. v;
  removed = λ id v t y e m.
      drop_old id v y (subst (λ (w : List GateCondition). Member y w) (sym (ap (λ r. r.1) e)) m);
  spared = λ id v t y e m apart.
      subst (λ (w : List GateCondition). Member y w) (ap (λ r. r.1) e) (drop_kept id v y apart m);
  added = λ metric op value x v t e. (
    fresh metric op value,
    subst (λ (w : List GateCondition). Member (fresh metric op value) w) (ap (λ r. r.1) e)
        (inl refl),
    refl,
  );
  kept = λ metric op value x v t y e m.
      subst (λ (w : List GateCondition). Member y w) (ap (λ r. r.1) e) (inr m);
  only_added = λ metric op value x v t y e m.
      only_new (fresh metric op value) y v
        (subst (λ (w : List GateCondition). Member y w) (sym (ap (λ r. r.1) e)) m);
}

abbrev at_gate : St gates gate_kind
at_gate = record { server = current; object = gate; history = [] }

current-Distinct : Distinct current
current-Distinct x y (inl e) (inl f) same = sym e ∙ f
current-Distinct x y (inl e) (inr m) same = elim m [ ]
current-Distinct x y (inr m) n same = elim m [ ]

conditions_taken : (reconcile_conditions creds "strict" current desired at_gate).0 ≡ ok tt
unfolding reconcile_conditions ◌>>=◌ perform
conditions_taken = refl

reconcile_conditions_refines_example :
    let s' = (reconcile_conditions creds "strict" current desired at_gate).1 in
    InLine creds "strict" strict_gate desired s'.server
    × (reconcile_conditions creds "strict" (strict_gate.view s'.server) desired s' ≡ (ok tt, s'))
reconcile_conditions_refines_example =
    reconcile_conditions_refines creds "strict" strict_gate desired at_gate current-Distinct
      conditions_taken
