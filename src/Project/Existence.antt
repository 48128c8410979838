-- ===== src/Project/Existence.antt =====
-- A lookup of the project that fails.
use sonarqube_operator.Prelude.{◌≡◌, refl, false, ◌∷◌}
use sonarqube_operator.Api.{Instance}
use sonarqube_operator.Sonar.{get_project}
use sonarqube_operator.Exec.{
  Env, project_kind, St, Credentials, sonar, called, Error, err, wrap_error, ◌>>=◌, perform,
  is_sonar_not_found,
}
use sonarqube_operator.Project.{ensure_exists, reconcile_project}

-- When the lookup of the project fails otherwise than by its absence, the reconciliation ends with
-- that error behind it, and the object in memory is as before.
pub reconcile_project_lookup_failed :
    {E : Env} (i : Instance) (c : Credentials) (s : St E project_kind) (e : Error)
    → (E.answer (sonar c (get_project s.object.spec.key)) s.server).0 ≡ err e
    → is_sonar_not_found e ≡ false
    → let run = reconcile_project i c s in
      (run.0 ≡ err (wrap_error "checking project" e))
      × (run.1.object ≡ s.object)
      × (run.1.history ≡ called (sonar c (get_project s.object.spec.key)) false ∷ s.history)
unfolding reconcile_project ensure_exists perform ◌>>=◌
reconcile_project_lookup_failed {E} i c s e failed other = rw (failed, other) (refl, refl, refl)
