-- ===== src/Exec/Kept.antt =====
-- Actions that keep a property of the outside, one rule for each way to build an action.
use sonarqube_operator.Prelude.{String, Bool, true, false, if◌then◌else◌}
use sonarqube_operator.Exec.{
  Env, Kind, Exec, St, Call, Error, Result, ok, err, pure, raise, lift, wrap, ◌>>=◌, perform,
}

pub record Kept {E : Env} {k : Kind} {A : Type 0} (P : E.State → Type 0) (m : Exec E k A)
    : Type 0 where
  pub at : (s : St E k) → P s.server → P (m s).1.server

module _ {E : Env} {k : Kind} {A : Type 0} {P : E.State → Type 0} where
  pub Kept-pure : (a : A) → Kept P (pure {E = E} {k = k} a)
  Kept-pure a = record { at = λ s p. p }

  pub Kept-raise : (e : Error) → Kept P (raise {E = E} {k = k} {A = A} e)
  Kept-raise e = record { at = λ s p. p }

  pub Kept-if : (b : Bool) (m n : Exec E k A) → Kept P m → Kept P n → Kept P (if b then m else n)
  Kept-if true m n km kn = km
  Kept-if false m n km kn = kn

module _ {E : Env} {k : Kind} {A B : Type 0} {P : E.State → Type 0} where
  continue-Kept :
      (r : Result A) (f : A → Exec E k B) → ((a : A) → Kept P (f a)) → Kept P (lift r >>= f)
  unfolding ◌>>=◌
  continue-Kept (ok a) f kf = kf a
  continue-Kept (err e) f kf = record { at = λ s p. p }

  pub Kept-bind :
      (m : Exec E k A) (f : A → Exec E k B) → Kept P m → ((a : A) → Kept P (f a)) → Kept P (m >>= f)
  unfolding ◌>>=◌
  Kept-bind m f km kf = record {
    at = λ s p. let (r, s') = m s in (continue-Kept r f kf).at s' (km.at s p);
  }

module _ {E : Env} {k : Kind} {P : E.State → Type 0} where
  pub Kept-wrapped :
      (prefix : String) (c : Call)
      → ((v : E.State) → P v → P (E.answer c v).1)
      → Kept P (wrap {E = E} {k = k} prefix (perform c))
  unfolding perform
  Kept-wrapped prefix c keeps = record { at = λ s p. keeps s.server p }
