-- ===== src/QualityGate/Conditions/Server.antt =====
-- A quality gate as SonarQube keeps it.
use sonarqube_operator.Prelude.{String, ◌≡◌, ◌≢◌, ◌⊎◌, List, Member}
use sonarqube_operator.Sonar.{GateCondition, remove_condition, add_condition}
use sonarqube_operator.Exec.{Env, Credentials, sonar, ok}
use sonarqube_operator.QualityGate.Conditions.{condition_key, key_of}

-- What SonarQube keeps of the gate, and what its two calls do to it: the removal takes away the
-- condition of an id, and the addition puts in one of the given metric, operator and threshold.
pub record GateServer (E : Env) (c : Credentials) (gate : String) : Type 0 where
  pub view : E.State → List GateCondition
  pub removed :
      (id : String) (v t : E.State) (y : GateCondition)
      → E.answer (sonar c (remove_condition id)) v ≡ (ok tt, t)
      → Member y (view t)
      → Member y (view v) × (y.id ≢ id)
  pub spared :
      (id : String) (v t : E.State) (y : GateCondition)
      → E.answer (sonar c (remove_condition id)) v ≡ (ok tt, t)
      → Member y (view v)
      → y.id ≢ id
      → Member y (view t)
  pub added :
      (metric op value : String) (x : GateCondition) (v t : E.State)
      → E.answer (sonar c (add_condition gate metric op value)) v ≡ (ok x, t)
      → (y : GateCondition) × Member y (view t) × (key_of y ≡ condition_key metric op value)
  pub kept :
      (metric op value : String) (x : GateCondition) (v t : E.State) (y : GateCondition)
      → E.answer (sonar c (add_condition gate metric op value)) v ≡ (ok x, t)
      → Member y (view v)
      → Member y (view t)
  pub only_added :
      (metric op value : String) (x : GateCondition) (v t : E.State) (y : GateCondition)
      → E.answer (sonar c (add_condition gate metric op value)) v ≡ (ok x, t)
      → Member y (view t)
      → Member y (view v) ⊎ (key_of y ≡ condition_key metric op value)

-- An id stands for one condition of the list.
abbrev pub Distinct : List GateCondition → Type 0
Distinct xs = (x y : GateCondition) → Member x xs → Member y xs → x.id ≡ y.id → x ≡ y
