-- ===== src/Controller/Frame.antt =====
-- The write of a status whose failure is ignored.
use sonarqube_operator.Prelude.{◌≡◌, refl, ◌∷◌}
use sonarqube_operator.Exec.{
  Env, Kind, Obj, St, kube_update_status, called, Result, ok, err, ◌>>=◌, perform, is_ok, put, lift,
  update_status_ignored,
}

module _ {E : Env} {k : Kind} where
  put_history :
      (r : Result (Obj k)) (s : St E k) → ((lift r >>= λ o. put o) s).1.history ≡ s.history
  unfolding ◌>>=◌
  put_history (ok o) s = refl
  put_history (err e) s = refl

  pub update_status_ignored_lem :
      (s : St E k)
      → let write = kube_update_status k s.object in
        ((update_status_ignored s).0 ≡ ok tt)
        × ((update_status_ignored s).1.history
            ≡ called write (is_ok (E.answer write s.server).0) ∷ s.history)
  unfolding perform ◌>>=◌
  update_status_ignored_lem s =
      (refl, put_history (E.answer (kube_update_status k s.object) s.server).0 _)
