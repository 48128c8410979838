-- ===== src/Controller/BestEffort/Quiet.antt =====
-- Actions that always return and leave the object in memory as it is, one rule for each way to build
-- an action, and the release of an object behind such an action.
use sonarqube_operator.Prelude.{String, ◌≡◌, refl, ◌∙◌, Bool, true, false, if◌then◌else◌}
use mathlib.Core.Path.{subst}
use sonarqube_operator.Api.{Instance}
use sonarqube_operator.Exec.{
  Env, Kind, Exec, St, Result, ok, err, EventType, pure, lift, attempt, ◌>>=◌, ◌>>◌, emit, object,
  Credentials, Obj,
}
use sonarqube_operator.Exec.Object.{SameObject, object_rules}
use sonarqube_operator.Controller.{warn, release, get_instance_admin_token, token_of}
use sonarqube_operator.Controller.Release.{Released, release-Released}
use sonarqube_operator.Controller.BestEffort.{clean_with, attempt_cleanup}

pub record Quiet {E : Env} {k : Kind} {A : Type 0} (m : Exec E k A) : Type 0 where
  pub returns : (s : St E k) → (a : A) × ((m s).0 ≡ ok a)
  pub same : (s : St E k) → (m s).1.object ≡ s.object

module _ {E : Env} {k : Kind} {A : Type 0} where
  pub Quiet-pure : (a : A) → Quiet (pure {E = E} {k = k} a)
  Quiet-pure a = record { returns = λ s. (a, refl); same = λ s. refl }

  pub Quiet-if : (b : Bool) (m n : Exec E k A) → Quiet m → Quiet n → Quiet (if b then m else n)
  Quiet-if true m n qm qn = qm
  Quiet-if false m n qm qn = qn

  pub Quiet-attempt : (m : Exec E k A) → SameObject m → Quiet (attempt m)
  Quiet-attempt m sm = record { returns = λ s. ((m s).0, refl); same = sm.at }

module _ {E : Env} {k : Kind} where
  pub Quiet-emit :
      (t : EventType) (reason message : String) → Quiet (emit {E = E} {k = k} t reason message)
  unfolding emit
  Quiet-emit t reason message = record { returns = λ s. (tt, refl); same = λ s. refl }

  pub Quiet-object : Quiet (object {E = E} {k = k})
  Quiet-object = record { returns = λ s. (s.object, refl); same = λ s. refl }

returned :
    {E : Env} {k : Kind} {A B : Type 0} (f : A → Exec E k B)
    → ((a : A) → Quiet (f a))
    → (r : Result A) (s : St E k) (a : A) → r ≡ ok a
    → ((b : B) × (((lift r >>= f) s).0 ≡ ok b)) × (((lift r >>= f) s).1.object ≡ s.object)
unfolding ◌>>=◌
returned f qf (ok b) s a e = ((qf b).returns s, (qf b).same s)
returned f qf (err x) s a e = cc

module _ {E : Env} {k : Kind} {A B : Type 0} where
  pub Quiet-bind :
      (m : Exec E k A) (f : A → Exec E k B) → Quiet m → ((a : A) → Quiet (f a)) → Quiet (m >>= f)
  unfolding ◌>>=◌
  Quiet-bind m f qm qf = record {
    returns = λ s. let (r, s') = m s in let (a, e) = qm.returns s in (returned f qf r s' a e).0;
    same = λ s.
        let (r, s') = m s in let (a, e) = qm.returns s in (returned f qf r s' a e).1 ∙ qm.same s;
  }

pub ruleset quiet_rules =
    (Quiet-pure, Quiet-if, Quiet-attempt, Quiet-emit, Quiet-object, Quiet-bind, object_rules)

module _ {E : Env} {k : Kind} where
  pub warn-Quiet : (reason : String) (r : Result (Unit {0})) → Quiet (warn {E = E} {k = k} reason r)
  unfolding warn
  warn-Quiet reason (ok _) = search quiet_rules
  warn-Quiet reason (err e) = search quiet_rules

  token-SameObject : (i : Instance) → SameObject (get_instance_admin_token {E = E} {k = k} i)
  unfolding get_instance_admin_token token_of
  token-SameObject i = search object_rules

  clean_with-Quiet :
      (clean : Credentials → Exec E k (Unit {0})) (i : Instance) (r : Result String)
      → ((c : Credentials) → Quiet (clean c))
      → Quiet (clean_with clean i r)
  unfolding clean_with
  clean_with-Quiet clean i (ok token) q = q _
  clean_with-Quiet clean i (err e) q = Quiet-pure tt

  pub attempt_cleanup-Quiet :
      (wanted : Bool) (clean : Credentials → Exec E k (Unit {0})) (i : Instance)
      → ((c : Credentials) → Quiet (clean c))
      → Quiet (attempt_cleanup wanted clean i)
  unfolding attempt_cleanup
  attempt_cleanup-Quiet wanted clean i q =
      Quiet-if wanted _ _
        (Quiet-bind _ _ (Quiet-attempt _ (token-SameObject i)) (λ r. clean_with-Quiet clean i r q))
        (Quiet-pure tt)

  Released-after :
      (finalizer : String) (o : Obj k) (r : Result (Unit {0})) (s : St E k)
      → r ≡ ok tt
      → s.object ≡ o
      → Released finalizer o ((lift r >>= λ _. release finalizer) s)
  unfolding ◌>>=◌
  Released-after finalizer o (ok a) s e same =
      subst (λ x. Released finalizer x (release finalizer s)) same (release-Released finalizer s)
  Released-after finalizer o (err x) s e same = cc

  -- What always returns does not keep the finalizer from being removed.
  pub Quiet-Released :
      (finalizer : String) (m : Exec E k (Unit {0})) (s : St E k)
      → Quiet m
      → Released finalizer s.object ((m >> release finalizer) s)
  unfolding ◌>>=◌
  Quiet-Released finalizer m s q =
      let (r, s') = m s in Released-after finalizer s.object r s' ((q.returns s).1) (q.same s)
