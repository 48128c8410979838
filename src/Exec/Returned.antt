-- ===== src/Exec/Returned.antt =====
-- What follows of an action that returned.
use sonarqube_operator.Prelude.{String, ◌≡◌, refl, ap, ◌∷◌, true}
use sonarqube_operator.Exec.{
  Env, Kind, Exec, St, Call, Reply, called, Result, ok, err, lift, wrap, wrap_result, is_ok, ◌>>=◌,
  ◌>>◌, perform,
}

-- The state behind a call that succeeded.
abbrev pub behind : {E : Env} {k : Kind} → Call → St E k → E.State → St E k
behind c s t = record s { server = t; history = called c true ∷ s.history }

returned_then :
    {E : Env} {k : Kind} {A B : Type 0} (n : Exec E k B) (r : Result A) (s : St E k) (b : B)
    → ((lift r >>= λ _. n) s).0 ≡ ok b
    → (a : A) × (r ≡ ok a) × ((lift r >>= λ _. n) s ≡ n s)
unfolding ◌>>=◌
returned_then n (ok a) s b e = (a, refl, refl)
returned_then n (err x) s b e = cc

-- Where two actions in a row succeeded, the first did, and the second ran behind it.
pub first_returned :
    {E : Env} {k : Kind} {A B : Type 0} (m : Exec E k A) (n : Exec E k B) (s : St E k) (b : B)
    → ((m >> n) s).0 ≡ ok b
    → (a : A) × ((m s).0 ≡ ok a) × ((m >> n) s ≡ n (m s).1)
unfolding ◌>>=◌
first_returned m n s b e = let (r, s') = m s in returned_then n r s' b e

module _ {E : Env} {k : Kind} {B : Type 0} where
  answered_then :
      (prefix : String) (c : Call) (n : Exec E k B) (s : St E k) (b : B) (r : Result (Reply c))
      (t : E.State)
      → let s' : St E k = record s { server = t; history = called c (is_ok r) ∷ s.history } in
        ((lift (wrap_result prefix r) >>= λ _. n) s').0 ≡ ok b
        → (a : Reply c) × (r ≡ ok a)
          × ((lift (wrap_result prefix r) >>= λ _. n) s' ≡ n (behind c s t))
  unfolding ◌>>=◌
  answered_then prefix c n s b (ok a) t e = (a, refl, refl)
  answered_then prefix c n s b (err x) t e = cc

  -- Where a call and what follows it succeeded, the call did, and what follows it ran behind it.
  pub called_then :
      (prefix : String) (c : Call) (n : Exec E k B) (s : St E k) (b : B)
      → ((wrap prefix (perform c) >> n) s).0 ≡ ok b
      → (a : Reply c) × (t : E.State) × (E.answer c s.server ≡ (ok a, t))
        × ((wrap prefix (perform c) >> n) s ≡ n (behind c s t))
  unfolding ◌>>=◌ perform
  called_then prefix c n s b e =
      let (r, t) = E.answer c s.server in
      let (a, good, same) = answered_then prefix c n s b r t e in
      (a, t, ap (λ q. (q, (E.answer c s.server).1)) good, same)

module _ {E : Env} {k : Kind} {B : Type 0} where
  answered_bind :
      (prefix : String) (c : Call) (f : Reply c → Exec E k B) (s : St E k) (b : B)
      (r : Result (Reply c)) (t : E.State)
      → let s' : St E k = record s { server = t; history = called c (is_ok r) ∷ s.history } in
        ((lift (wrap_result prefix r) >>= f) s').0 ≡ ok b
        → (a : Reply c) × (r ≡ ok a) × ((lift (wrap_result prefix r) >>= f) s' ≡ f a (behind c s t))
  unfolding ◌>>=◌
  answered_bind prefix c f s b (ok a) t e = (a, refl, refl)
  answered_bind prefix c f s b (err x) t e = cc

  -- The same for a call whose answer is used.
  pub called_bind :
      (prefix : String) (c : Call) (f : Reply c → Exec E k B) (s : St E k) (b : B)
      → ((wrap prefix (perform c) >>= f) s).0 ≡ ok b
      → (a : Reply c) × (t : E.State) × (E.answer c s.server ≡ (ok a, t))
        × ((wrap prefix (perform c) >>= f) s ≡ f a (behind c s t))
  unfolding ◌>>=◌ perform
  called_bind prefix c f s b e =
      let (r, t) = E.answer c s.server in
      let (a, good, same) = answered_bind prefix c f s b r t e in
      (a, t, ap (λ q. (q, (E.answer c s.server).1)) good, same)

ok_answer :
    {E : Env} {k : Kind} {A B : Type 0} (prefix : String) (n : Exec E k B) (r : Result A)
    (s : St E k) (b : B)
    → is_ok r ≡ true
    → ((u : St E k) → (n u).0 ≡ ok b)
    → ((lift (wrap_result prefix r) >>= λ _. n) s).0 ≡ ok b
unfolding ◌>>=◌
ok_answer prefix n (ok a) s b good then = then s
ok_answer prefix n (err e) s b good then = cc

module _ {E : Env} {k : Kind} {B : Type 0} {b : B} where
  -- A call that succeeds, before an action that does.
  pub called_succeeds :
      (prefix : String) (c : Call) (n : Exec E k B) (s : St E k)
      → is_ok (E.answer c s.server).0 ≡ true
      → ((u : St E k) → (n u).0 ≡ ok b)
      → ((wrap prefix (perform c) >> n) s).0 ≡ ok b
  unfolding ◌>>=◌ perform
  called_succeeds prefix c n s good then =
      let (r, t) = E.answer c s.server in ok_answer prefix n r _ b good then

  pub both_succeed :
      {A : Type 0} {a : A} (m : Exec E k A) (n : Exec E k B) (s : St E k)
      → (m s).0 ≡ ok a
      → ((u : St E k) → (n u).0 ≡ ok b)
      → ((m >> n) s).0 ≡ ok b
  unfolding ◌>>=◌
  both_succeed m n s good then = let (r, s') = m s in rw good (then s')
