-- ===== src/Exec/Rules.antt =====
-- Invariants of actions over the history: one rule for each way to build an action.
use sonarqube_operator.Prelude.{String, ◌≡◌, refl, Bool, true, false, if◌then◌else◌, All}
use sonarqube_operator.Exec.{
  Env, Kind, Obj, Exec, St, Call, Action, called, event, EventType, Error, Result, ok, err, pure,
  raise, lift, attempt, wrap, ◌>>=◌, perform, emit, object, put, modify, server_state, update,
  update_status, update_status_ignored, kube_update, kube_update_status,
}

-- Every entry that `m` adds to the history satisfies `P`, whether `m` returns or raises.
pub record Logs {E : Env} {k : Kind} {A : Type 0} (P : Action → Type 0) (m : Exec E k A)
    : Type 0 where
  pub at : (s : St E k) → All P s.history → All P (m s).1.history

module _ {E : Env} {k : Kind} {A : Type 0} {P : Action → Type 0} where
  pub Logs-pure : (a : A) → Logs P (pure {E = E} {k = k} a)
  Logs-pure a = record { at = λ s h. h }

  pub Logs-raise : (e : Error) → Logs P (raise {E = E} {k = k} {A = A} e)
  Logs-raise e = record { at = λ s h. h }

  pub Logs-lift : (r : Result A) → Logs P (lift {E = E} {k = k} r)
  Logs-lift r = record { at = λ s h. h }

  pub Logs-attempt : (m : Exec E k A) → Logs P m → Logs P (attempt m)
  Logs-attempt m l = record { at = λ s h. l.at s h }

  pub Logs-wrap : (prefix : String) (m : Exec E k A) → Logs P m → Logs P (wrap prefix m)
  Logs-wrap prefix m l = record { at = λ s h. l.at s h }

  pub Logs-if :
      (b : Bool) (m n : Exec E k A)
      → (b ≡ true → Logs P m)
      → (b ≡ false → Logs P n)
      → Logs P (if b then m else n)
  Logs-if true m n lm ln = lm refl
  Logs-if false m n lm ln = ln refl

module _ {E : Env} {k : Kind} {A B : Type 0} {P : Action → Type 0} where
  continue-Logs :
      (r : Result A) (f : A → Exec E k B) → ((a : A) → Logs P (f a)) → Logs P (lift r >>= f)
  unfolding ◌>>=◌
  continue-Logs (ok a) f lf = lf a
  continue-Logs (err e) f lf = record { at = λ s h. h }

  pub Logs-bind :
      (m : Exec E k A) (f : A → Exec E k B) → Logs P m → ((a : A) → Logs P (f a)) → Logs P (m >>= f)
  unfolding ◌>>=◌
  Logs-bind m f lm lf = record {
    at = λ s h. let (r, s') = m s in (continue-Logs r f lf).at s' (lm.at s h);
  }

module _ {E : Env} {k : Kind} {P : Action → Type 0} where
  -- A call is logged with its outcome.
  pub Logs-perform : (c : Call) → ((b : Bool) → P (called c b)) → Logs P (perform {E = E} {k = k} c)
  unfolding perform
  Logs-perform c p = record { at = λ s h. (p _, h) }

  pub Logs-wrapped :
      (prefix : String) (c : Call)
      → ((b : Bool) → P (called c b))
      → Logs P (wrap {E = E} {k = k} prefix (perform c))
  unfolding perform
  Logs-wrapped prefix c p = record { at = λ s h. (p _, h) }

  pub Logs-emit :
      (t : EventType) (reason message : String)
      → P (event t reason message)
      → Logs P (emit {E = E} {k = k} t reason message)
  unfolding emit
  Logs-emit t reason message p = record { at = λ s h. (p, h) }

  pub Logs-object : Logs P (object {E = E} {k = k})
  Logs-object = record { at = λ s h. h }

  pub Logs-server_state : Logs P (server_state {E = E} {k = k})
  Logs-server_state = record { at = λ s h. h }

  pub Logs-put : (o : Obj k) → Logs P (put {E = E} o)
  Logs-put o = record { at = λ s h. h }

  pub Logs-modify : (f : Obj k → Obj k) → Logs P (modify {E = E} f)
  Logs-modify f = record { at = λ s h. h }

  pub Logs-update :
      ((o : Obj k) (b : Bool) → P (called (kube_update k o) b)) → Logs P (update {E = E} {k = k})
  Logs-update p =
      Logs-bind object _ Logs-object
        (λ o. Logs-bind (perform (kube_update k o)) _ (Logs-perform _ (p o)) (λ o'. Logs-put o'))

  pub Logs-update_status :
      ((o : Obj k) (b : Bool) → P (called (kube_update_status k o) b))
      → Logs P (update_status {E = E} {k = k})
  Logs-update_status p = Logs-bind object _ Logs-object (λ o.
      Logs-bind (perform (kube_update_status k o)) _ (Logs-perform _ (p o)) (λ o'. Logs-put o'))

  pub Logs-update_status_ignored :
      ((o : Obj k) (b : Bool) → P (called (kube_update_status k o) b))
      → Logs P (update_status_ignored {E = E} {k = k})
  Logs-update_status_ignored p =
      Logs-bind (attempt update_status) _ (Logs-attempt _ (Logs-update_status p))
        (λ _. Logs-pure tt)

-- What an action does behind the read of the object is about the object that it finds.
module _ {E : Env} {k : Kind} {A : Type 0} {P : Action → Type 0} where
  pub Logs-at_object :
      (f : Obj k → Exec E k A) (s : St E k)
      → Logs P (f s.object)
      → All P s.history
      → All P ((object >>= f) s).1.history
  unfolding ◌>>=◌
  Logs-at_object f s l h = l.at s h

pub ruleset log_rules = (
  Logs-pure, Logs-raise, Logs-lift, Logs-attempt, Logs-wrap, Logs-if, Logs-bind, Logs-perform,
  Logs-wrapped, Logs-emit, Logs-object, Logs-server_state, Logs-put, Logs-modify, Logs-update,
  Logs-update_status, Logs-update_status_ignored,
)
