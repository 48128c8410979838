-- ===== src/Exec/Triple.antt =====
-- Before and after: what holds of the history before an action, after it when it returns, and after
-- it when it fails. Orderings of calls are stated so.
use sonarqube_operator.Prelude.{String, ◌≡◌, refl, Bool, true, false, List, ◌∷◌, if◌then◌else◌}
use sonarqube_operator.Exec.{
  Env, Kind, Obj, Exec, St, Call, Reply, Action, called, event, EventType, Error, Result, ok, err,
  pure, raise, lift, attempt, wrap, ◌>>=◌, perform, emit, object, put, modify, server_state, is_ok,
  wrap_result,
}

abbrev pub History : Type 1
History = List Action → Type 0

abbrev pub Post : {A : Type 0} → (Q R : History) → Result A → History
Post Q R (ok a) h = Q h
Post Q R (err e) h = R h

pub record Triple {E : Env} {k : Kind} {A : Type 0} (P : History) (m : Exec E k A) (Q R : History)
    : Type 0 where
  pub at : (s : St E k) → P s.history → Post Q R (m s).0 (m s).1.history

module _ {E : Env} {k : Kind} {A : Type 0} {P R : History} where
  pub Triple-pure : (a : A) → Triple P (pure {E = E} {k = k} a) P R
  Triple-pure a = record { at = λ s h. h }

  pub Triple-raise : (e : Error) → Triple P (raise {E = E} {k = k} {A = A} e) R P
  Triple-raise e = record { at = λ s h. h }

lift_post : {A : Type 0} (P : History) (r : Result A) (h : List Action) → P h → Post P P r h
lift_post P (ok a) h p = p
lift_post P (err e) h p = p

pub Triple-lift :
    {E : Env} {k : Kind} {A : Type 0} {P : History} (r : Result A)
    → Triple P (lift {E = E} {k = k} r) P P
Triple-lift {P} r = record { at = λ s h. lift_post P r s.history h }

module _ {E : Env} {k : Kind} {A : Type 0} {P Q R : History} where
  pub Triple-if :
      (b : Bool) (m n : Exec E k A)
      → (b ≡ true → Triple P m Q R)
      → (b ≡ false → Triple P n Q R)
      → Triple P (if b then m else n) Q R
  Triple-if true m n tm tn = tm refl
  Triple-if false m n tm tn = tn refl

continue-Triple :
    {E : Env} {k : Kind} {A B : Type 0} (Q R S : History) (r : Result A) (f : A → Exec E k B)
    → ((a : A) → Triple Q (f a) S R)
    → (s : St E k) → Post Q R r s.history
    → Post S R ((lift r >>= f) s).0 ((lift r >>= f) s).1.history
unfolding ◌>>=◌
continue-Triple Q R S (ok a) f tf s h = (tf a).at s h
continue-Triple Q R S (err e) f tf s h = h

module _ {E : Env} {k : Kind} {A B : Type 0} {P Q R S : History} where
  pub Triple-bind :
      (m : Exec E k A) (f : A → Exec E k B)
      → Triple P m Q R
      → ((a : A) → Triple Q (f a) S R)
      → Triple P (m >>= f) S R
  unfolding ◌>>=◌
  Triple-bind m f tm tf = record {
    at = λ s h. let (r, s') = m s in continue-Triple Q R S r f tf s' (tm.at s h);
  }

post_of_call :
    {A : Type 0} (Q R : History) (c : Call) (h : List Action) (r : Result A)
    → Q (called c true ∷ h)
    → R (called c false ∷ h)
    → Post Q R r (called c (is_ok r) ∷ h)
post_of_call Q R c h (ok a) q e = q
post_of_call Q R c h (err x) q e = e

wrapped_post :
    {A : Type 0} (Q R : History) (prefix : String) (r : Result A) (h : List Action)
    → Post Q R r h
    → Post Q R (wrap_result prefix r) h
wrapped_post Q R prefix (ok a) h p = p
wrapped_post Q R prefix (err e) h p = p

final : {A : Type 0} (P : History) (r : Result A) (h : List Action) → Post P P r h → P h
final P (ok a) h p = p
final P (err e) h p = p

module _ {E : Env} {k : Kind} {P Q R : History} where
  pub Triple-perform :
      (c : Call)
      → ((h : List Action) → P h → Q (called c true ∷ h))
      → ((h : List Action) → P h → R (called c false ∷ h))
      → Triple P (perform {E = E} {k = k} c) Q R
  unfolding perform
  Triple-perform c q e = record {
    at = λ s h.
        let (r, t) = E.answer c s.server in
        post_of_call Q R c s.history r (q s.history h) (e s.history h);
  }

  pub Triple-wrap :
      {A : Type 0} (prefix : String) (m : Exec E k A)
      → Triple P m Q R
      → Triple P (wrap prefix m) Q R
  Triple-wrap prefix m t = record {
    at = λ s h. let (r, s') = m s in wrapped_post Q R prefix r s'.history (t.at s h);
  }

  -- The outcome of an attempt is a value, and the next action deals with it.
  pub Triple-attempt : {A : Type 0} (m : Exec E k A) → Triple P m Q Q → Triple P (attempt m) Q R
  Triple-attempt m t = record { at = λ s h. let (r, s') = m s in final Q r s'.history (t.at s h) }

  pub Triple-raise_to :
      {A : Type 0} (e : Error)
      → ((h : List Action) → P h → R h)
      → Triple P (raise {E = E} {k = k} {A = A} e) Q R
  Triple-raise_to e r = record { at = λ s h. r s.history h }

  pub Triple-emit :
      (t : EventType) (reason message : String)
      → ((h : List Action) → P h → Q (event t reason message ∷ h))
      → Triple P (emit {E = E} {k = k} t reason message) Q R
  unfolding emit
  Triple-emit t reason message q = record { at = λ s h. q s.history h }

module _ {E : Env} {k : Kind} {P R : History} where
  pub Triple-object : Triple P (object {E = E} {k = k}) P R
  Triple-object = record { at = λ s h. h }

  pub Triple-server_state : Triple P (server_state {E = E} {k = k}) P R
  Triple-server_state = record { at = λ s h. h }

  pub Triple-put : (o : Obj k) → Triple P (put {E = E} o) P R
  Triple-put o = record { at = λ s h. h }

  pub Triple-modify : (f : Obj k → Obj k) → Triple P (modify {E = E} f) P R
  Triple-modify f = record { at = λ s h. h }

-- Whatever the outcome.
pub Triple-always :
    {E : Env} {k : Kind} {A : Type 0} (P : History) (m : Exec E k A)
    → Triple P m P P
    → (s : St E k) → P s.history
    → P (m s).1.history
Triple-always P m t s h = let (r, s') = m s in final P r s'.history (t.at s h)

after_call :
    {E : Env} {k : Kind} {A : Type 0} (T F S R : History) (c : Call)
    (f : Result (Reply c) → Exec E k A) (r : Result (Reply c))
    → ((a : Reply c) → Triple T (f (ok a)) S R)
    → ((e : Error) → Triple F (f (err e)) S R)
    → (s : St E k) (h : List Action) → s.history ≡ called c (is_ok r) ∷ h
    → T (called c true ∷ h)
    → F (called c false ∷ h)
    → Post S R (f r s).0 (f r s).1.history
after_call T F S R c f (ok a) onok onerr s h e t u = (onok a).at s (rw e t)
after_call T F S R c f (err x) onok onerr s h e t u = (onerr x).at s (rw e u)

module _ {E : Env} {k : Kind} {A : Type 0} {P T F S R : History} where
  -- A call whose outcome decides how to go on: what follows knows which outcome is in the history.
  pub Triple-call :
      (c : Call) (f : Result (Reply c) → Exec E k A)
      → ((h : List Action) → P h → T (called c true ∷ h))
      → ((h : List Action) → P h → F (called c false ∷ h))
      → ((a : Reply c) → Triple T (f (ok a)) S R)
      → ((e : Error) → Triple F (f (err e)) S R)
      → Triple P (attempt (perform c) >>= f) S R
  unfolding ◌>>=◌ perform
  Triple-call c f t u onok onerr = record {
    at = λ s p.
        let (r, server) = E.answer c s.server in
        after_call T F S R c f r onok onerr _ s.history refl (t s.history p) (u s.history p);
  }

-- What an action does behind the read of the object is about the object that it finds.
pub Triple-at_object :
    {E : Env} {k : Kind} {A : Type 0} (P : History) (f : Obj k → Exec E k A) (s : St E k)
    → Triple P (f s.object) P P
    → P s.history
    → P ((object >>= f) s).1.history
unfolding ◌>>=◌
Triple-at_object P f s t h = Triple-always P (f s.object) t s h

-- An action that keeps what holds of the history, with one rule for each way to build it.
module _ {E : Env} {k : Kind} {A B : Type 0} {P : History} where
  pub Keeps-bind :
      (m : Exec E k A) (f : A → Exec E k B)
      → Triple P m P P
      → ((a : A) → Triple P (f a) P P)
      → Triple P (m >>= f) P P
  Keeps-bind = Triple-bind

pub Keeps-raise :
    {E : Env} {k : Kind} {A : Type 0} {P : History} (e : Error)
    → Triple P (raise {E = E} {k = k} {A = A} e) P P
Keeps-raise e = Triple-raise e

pub ruleset keep_rules = (
  Triple-pure, Keeps-raise, Triple-lift, Triple-if, Keeps-bind, Triple-perform, Triple-wrap,
  Triple-attempt, Triple-emit, Triple-object, Triple-server_state, Triple-put, Triple-modify,
)
