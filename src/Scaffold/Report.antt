-- ===== src/Scaffold/Report.antt =====
-- What the reconcilers of backups and branch rules do, and what they leave alone.
use sonarqube_operator.Prelude.{
  String, ◌≡◌, refl, true, false, if◌then◌else◌, List, ◌∷◌, Bool-cases, inl, inr,
}
use sonarqube_operator.Api.{NamespacedName}
use sonarqube_operator.Exec.{
  Env, Kind, Obj, St, kube_get, kube_update_status, called, event, warning, Error, Result, Call,
  Action, update_status, ok, err, lift, put, pure, is_ok, ◌>>=◌, ◌>>◌, perform, emit, is_not_found,
}
use sonarqube_operator.Controller.{done, meta_of}
use sonarqube_operator.Scaffold.{report, scaffold}

module _ (E : Env) (k : Kind) where
  put_reported :
      (o : Obj k) (c : Call) (r : Result (Obj k)) (v : E.State) (h : List Action)
      → let s : St E k = record { server = v; object = o; history = called c (is_ok r) ∷ h } in
        let run = ((lift r >>= λ o'. put o') >> pure done) s in
        run.1.history ≡ called c (is_ok run.0) ∷ h
  unfolding ◌>>=◌
  put_reported o c (ok w) v h = refl
  put_reported o c (err e) v h = refl

module _ {E : Env} {k : Kind} where
  -- The run that ends with the write of the status succeeds when the write does.
  update_reported :
      (s : St E k)
      → let run = (update_status >> pure done) s in
        run.1.history ≡ called (kube_update_status k s.object) (is_ok run.0) ∷ s.history
  unfolding ◌>>=◌ perform
  update_reported s =
      let write = kube_update_status k s.object in
      let answer = E.answer write s.server in
      put_reported E k s.object write answer.0 answer.1 s.history

module _ {E : Env} {k : Kind} (pending : Obj k → Obj k) (notice : String) (request : NamespacedName)
    (s : St E k) where
  -- A missing object is left alone without an error, and another error of the read is returned.
  pub scaffold_read_failed :
      (e : Error) (t : E.State)
      → E.answer (kube_get k request) s.server ≡ (err e, t)
      → (scaffold pending notice request s).0 ≡ (if is_not_found e then ok done else err e)
  unfolding scaffold report ◌>>=◌ perform
  scaffold_read_failed e t answered =
      rw answered
        (elim (Bool-cases (is_not_found e)) [ inl gone ↦ rw gone refl | inr other ↦ rw other refl ])

  -- Nothing is done for an object that is being deleted.
  pub scaffold_deleting :
      (o : Obj k) (t : E.State)
      → E.answer (kube_get k request) s.server ≡ (ok o, t)
      → (meta_of k o).deleting ≡ true
      → scaffold pending notice request s ≡ (
        ok done,
        record { server = t; object = o; history = called (kube_get k request) true ∷ s.history },
      )
  unfolding scaffold report ◌>>=◌ perform
  scaffold_deleting o t answered deleting = rw (answered, deleting) refl

  -- For a live object the Warning event NotImplementedYet and the write of the pending status are
  -- all that follows the read, and the run succeeds when that write does.
  pub scaffold_live :
      (o : Obj k) (t : E.State)
      → E.answer (kube_get k request) s.server ≡ (ok o, t)
      → (meta_of k o).deleting ≡ false
      → let run = scaffold pending notice request s in
        run.1.history
        ≡ called (kube_update_status k (pending o)) (is_ok run.0)
          ∷ event warning "NotImplementedYet" notice
          ∷ called (kube_get k request) true
          ∷ s.history
  unfolding scaffold report ◌>>=◌ perform emit
  scaffold_live o t answered live =
      rw (answered, live)
        (update_reported {E = E} (record {
          server = t;
          object = pending o;
          history =
              event warning "NotImplementedYet" notice
              ∷ called (kube_get k request) true
              ∷ s.history;
        }))
