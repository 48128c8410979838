-- ===== src/Operator/Lookup.antt =====
-- What a reconciliation over the HTTP client makes of the lookup of its project.
use sonarqube_operator.Prelude.{◌≡◌, refl, false, ◌∷◌, ◌⊎◌, inl, inr, Bool-cases}
use sonarqube_operator.Api.{Instance}
use sonarqube_operator.Sonar.{RemoteProject, get_project}
use sonarqube_operator.Exec.{
  Env, project_kind, St, Credentials, sonar, called, Error, Result, ok, err, wrap_error,
  is_sonar_not_found,
}
use sonarqube_operator.HttpClient.Transport.{Transport}
use sonarqube_operator.HttpClient.Dispatch.{invoke}
use sonarqube_operator.HttpClient.Absence.{Absent, invoke-Absent}
use sonarqube_operator.HttpClient.Lookup.{invoke-Exact}
use sonarqube_operator.Project.{reconcile_project}
use sonarqube_operator.Project.Existence.{reconcile_project_lookup_failed}
use sonarqube_operator.Operator.{client_of, answer_over_http, over_http}

module _ (K : Env) (T : Transport) (i : Instance) (c : Credentials) where
  -- SonarQube answered with a list that lacks the key, SonarQube has the project, or the run ended in
  -- an error behind the lookup, with no other call, and the object in memory is as before.
  abbrev pub LookedUp : St (over_http K T) project_kind → Type 0
  LookedUp s =
      let key = s.object.spec.key in
      let run = reconcile_project {E = over_http K T} i c s in
      Absent T (client_of c) (get_project key) s.server.1
      ⊎ (((p : RemoteProject) × ((invoke T (client_of c) (get_project key) s.server.1).0 ≡ ok p)
            × (p.key ≡ key))
          ⊎ ((e : Error) × (run.0 ≡ err e)
              × (run.1.object ≡ s.object)
              × (run.1.history ≡ called (sonar c (get_project key)) false ∷ s.history)))

  of_lookup :
      (s : St (over_http K T) project_kind) (r : Result RemoteProject)
      → (invoke T (client_of c) (get_project s.object.spec.key) s.server.1).0 ≡ r
      → LookedUp s
  unfolding answer_over_http
  of_lookup s (ok p) found = inr (
      inl
        (p, found, invoke-Exact T (client_of c) (get_project s.object.spec.key) p s.server.1 found))
  of_lookup s (err e) failed = elim (Bool-cases (is_sonar_not_found e)) [
    | inl gone ↦
        inl (invoke-Absent T (client_of c) (get_project s.object.spec.key) e s.server.1 failed gone)
    | inr other ↦
        let (ends, same, calls) =
          reconcile_project_lookup_failed {E = over_http K T} i c s e failed other in
        inr (inr (wrap_error "checking project" e, ends, same, calls))
  ]

  -- Over the HTTP client, a project is reconciled past its lookup only where SonarQube answered: with
  -- a list that lacks the key, or with the very project. Whatever else happens, a failure of the
  -- network, a refusal or an answer that cannot be read, the run ends in an error behind the lookup,
  -- with no other call and the object in memory as before; so no such failure creates a project.
  pub reconcile_project-LookedUp : (s : St (over_http K T) project_kind) → LookedUp s
  reconcile_project-LookedUp s = of_lookup s _ refl
