-- ===== src/Project/Settings.antt =====
-- reconcileProjectSettings
use sonarqube_operator.Prelude.{String, ◌<>◌, List, [], ◌∷◌, map, contains, if◌then◌else◌}
use sonarqube_operator.Sonar.{set_setting, reset_settings}
use sonarqube_operator.Exec.{
  Env, project_kind, Exec, Credentials, sonar, pure, wrap, ◌>>=◌, ◌>>◌, perform, object, modify,
  server_state,
}
use sonarqube_operator.Controller.{value_at}

abbrev pub keys : List (String × String) → List String
keys = map (λ e. e.0)

-- The managed keys that the specification no longer has.
unfoldable pub to_reset : List (String × String) → List String → List String
to_reset settings [] = []
to_reset settings (k ∷ managed) =
    let rest = to_reset settings managed in if contains (keys settings) k then rest else k ∷ rest

module _ {E : Env} (c : Credentials) where
  unfoldable pub set_settings :
      (project : String) (settings : List (String × String)) (order : List String)
      → Exec E project_kind (Unit {0})
  unfolding value_at
  set_settings project settings [] = pure tt
  set_settings project settings (k ∷ order) = do
    wrap ("setting " <> E.quote k) (perform (sonar c (set_setting project k (value_at k settings))))
    set_settings project settings order

  -- Go walks the map of settings twice, each time in an order of its own.
  unfoldable pub reconcile_project_settings : Exec E project_kind (Unit {0})
  unfolding set_settings to_reset
  reconcile_project_settings = do
    p ← object
    now ← server_state
    set_settings p.spec.key p.spec.settings (E.range now (keys p.spec.settings))
    wrap "resetting settings" (
        perform (
          sonar c (reset_settings p.spec.key (to_reset p.spec.settings p.status.managed_settings))))
    later ← server_state
    modify (λ q. record q {
      status = record q.status { managed_settings = E.range later (keys p.spec.settings) };
    })
