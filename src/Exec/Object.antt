-- ===== src/Exec/Object.antt =====
-- Actions that leave the object in memory as it is, one rule for each way to build an action.
use sonarqube_operator.Prelude.{String, ◌≡◌, refl, ap, ◌∙◌, Bool, true, false, if◌then◌else◌}
use sonarqube_operator.Exec.{
  Env, Kind, Exec, St, Call, Error, Result, ok, err, pure, raise, lift, wrap, ◌>>=◌, perform,
  server_state, object, modify, Obj,
}

pub record SameObject {E : Env} {k : Kind} {A : Type 0} (m : Exec E k A) : Type 0 where
  pub at : (s : St E k) → (m s).1.object ≡ s.object

module _ {E : Env} {k : Kind} {A : Type 0} where
  pub SameObject-pure : (a : A) → SameObject (pure {E = E} {k = k} a)
  SameObject-pure a = record { at = λ s. refl }

  pub SameObject-raise : (e : Error) → SameObject (raise {E = E} {k = k} {A = A} e)
  SameObject-raise e = record { at = λ s. refl }

  pub SameObject-if :
      (b : Bool) (m n : Exec E k A) → SameObject m → SameObject n → SameObject (if b then m else n)
  SameObject-if true m n sm sn = sm
  SameObject-if false m n sm sn = sn

module _ {E : Env} {k : Kind} {A B : Type 0} where
  continue-SameObject :
      (r : Result A) (f : A → Exec E k B) → ((a : A) → SameObject (f a)) → SameObject (lift r >>= f)
  unfolding ◌>>=◌
  continue-SameObject (ok a) f sf = sf a
  continue-SameObject (err e) f sf = record { at = λ s. refl }

  pub SameObject-bind :
      (m : Exec E k A) (f : A → Exec E k B)
      → SameObject m
      → ((a : A) → SameObject (f a))
      → SameObject (m >>= f)
  unfolding ◌>>=◌
  SameObject-bind m f sm sf = record {
    at = λ s. let (r, s') = m s in (continue-SameObject r f sf).at s' ∙ sm.at s;
  }

module _ {E : Env} {k : Kind} where
  pub SameObject-perform : (c : Call) → SameObject (perform {E = E} {k = k} c)
  unfolding perform
  SameObject-perform c = record { at = λ s. refl }

  pub SameObject-wrapped :
      (prefix : String) (c : Call) → SameObject (wrap {E = E} {k = k} prefix (perform c))
  unfolding perform
  SameObject-wrapped prefix c = record { at = λ s. refl }

  pub SameObject-server_state : SameObject (server_state {E = E} {k = k})
  SameObject-server_state = record { at = λ s. refl }

  pub SameObject-object : SameObject (object {E = E} {k = k})
  SameObject-object = record { at = λ s. refl }

pub ruleset object_rules = (
  SameObject-pure, SameObject-raise, SameObject-if, SameObject-bind, SameObject-perform,
  SameObject-wrapped, SameObject-server_state, SameObject-object,
)

-- An action that changes the object by `f` when it succeeds, and not at all when it fails.
pub record Commits {E : Env} {k : Kind} (f : Obj k → Obj k) (m : Exec E k (Unit {0})) : Type 0 where
  pub on_error : (s : St E k) (e : Error) → (m s).0 ≡ err e → (m s).1.object ≡ s.object
  pub on_success : (s : St E k) → (m s).0 ≡ ok tt → (m s).1.object ≡ f s.object

module _ {E : Env} {k : Kind} {f : Obj k → Obj k} where
  pub Commits-modify : Commits f (modify {E = E} {k = k} f)
  Commits-modify = record { on_error = λ s e h. cc; on_success = λ s h. refl }

  continue-Commits :
      {A : Type 0} (r : Result A) (g : A → Exec E k (Unit {0}))
      → ((a : A) → Commits f (g a))
      → Commits f (lift r >>= g)
  unfolding ◌>>=◌
  continue-Commits (ok a) g cg = cg a
  continue-Commits (err e) g cg = record { on_error = λ s e h. refl; on_success = λ s h. cc }

  pub Commits-bind :
      {A : Type 0} (m : Exec E k A) (g : A → Exec E k (Unit {0}))
      → SameObject m
      → ((a : A) → Commits f (g a))
      → Commits f (m >>= g)
  unfolding ◌>>=◌
  Commits-bind m g sm cg = record {
    on_error = λ s e h. let (r, s') = m s in (continue-Commits r g cg).on_error s' e h ∙ sm.at s;
    on_success =
        λ s h. let (r, s') = m s in (continue-Commits r g cg).on_success s' h ∙ ap f (sm.at s);
  }

  -- What is committed may depend on the object that the action reads first.
  pub Commits-at_object :
      (g : Obj k → Exec E k (Unit {0})) (s : St E k)
      → Commits f (g s.object)
      → ((e : Error) → ((object >>= g) s).0 ≡ err e → ((object >>= g) s).1.object ≡ s.object)
        × (((object >>= g) s).0 ≡ ok tt → ((object >>= g) s).1.object ≡ f s.object)
  unfolding ◌>>=◌
  Commits-at_object g s c = (c.on_error s, c.on_success s)
