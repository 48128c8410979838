-- ===== src/Controller/Release.antt =====
-- The removal of a finalizer, as the end of a deletion.
use sonarqube_operator.Prelude.{String, ◌≡◌, refl, Bool, List, ◌∷◌}
use sonarqube_operator.Exec.{
  Env, Kind, Obj, St, kube_update, Action, called, Result, ok, err, is_ok, lift, put, ◌>>=◌,
  perform,
}
use sonarqube_operator.Controller.{without_finalizer, release}

-- The last call of the run writes the object `o` without the finalizer, and the run succeeds when that
-- write does.
abbrev pub Released :
    {E : Env} {k : Kind} {A : Type 0} → String → Obj k → Result A × St E k → Type 0
Released {E} {k} finalizer o run =
    (earlier : List Action) × (run.1.history
      ≡ called (kube_update k (without_finalizer E k finalizer o)) (is_ok run.0) ∷ earlier)

module _ (E : Env) {k : Kind} where
  written-Released :
      (finalizer : String) (o : Obj k) (r : Result (Obj k)) (v : E.State) (earlier : List Action)
      → let s : St E k = record {
        server = v;
        object = without_finalizer E k finalizer o;
        history = called (kube_update k (without_finalizer E k finalizer o)) (is_ok r) ∷ earlier;
      } in
        Released finalizer o ((lift r >>= λ o'. put o') s)
  unfolding ◌>>=◌
  written-Released finalizer o (ok o') v earlier = (earlier, refl)
  written-Released finalizer o (err e) v earlier = (earlier, refl)

  written_history :
      (finalizer : String) (o : Obj k) (r : Result (Obj k)) (v : E.State) (earlier : List Action)
      → let s : St E k = record {
        server = v;
        object = without_finalizer E k finalizer o;
        history = called (kube_update k (without_finalizer E k finalizer o)) (is_ok r) ∷ earlier;
      } in
        ((lift r >>= λ o'. put o') s).1.history ≡ s.history
  unfolding ◌>>=◌
  written_history finalizer o (ok o') v earlier = refl
  written_history finalizer o (err e) v earlier = refl

module _ {E : Env} {k : Kind} where
  pub release-Released :
      (finalizer : String) (s : St E k) → Released finalizer s.object (release finalizer s)
  unfolding release ◌>>=◌ perform
  release-Released finalizer s =
      let answer = E.answer (kube_update k (without_finalizer E k finalizer s.object)) s.server in
      written-Released E finalizer s.object answer.0 answer.1 s.history

  -- The write is the only call.
  pub release_history :
      (finalizer : String) (s : St E k)
      → let write = kube_update k (without_finalizer E k finalizer s.object) in
        (b : Bool) × ((release finalizer s).1.history ≡ called write b ∷ s.history)
  unfolding release ◌>>=◌ perform
  release_history finalizer s =
      let answer = E.answer (kube_update k (without_finalizer E k finalizer s.object)) s.server in
      (is_ok answer.0, written_history E finalizer s.object answer.0 answer.1 s.history)
