-- ===== src/Plugin/Install.antt =====
-- The calls that the plugin controller makes, and their order.
use sonarqube_operator.Prelude.{
  String, ◌≡◌, ◌≢◌, ◌⊎◌, inl, inr, refl, true, false, none, some, List, ◌∷◌, eqb_of_ne, Bool-cases,
}
use sonarqube_operator.Api.{Instance, Plugin}
use sonarqube_operator.Sonar.{
  InstalledPlugin, install_plugin, acknowledge_risk_consent, list_installed_plugins,
  uninstall_plugin,
}
use sonarqube_operator.Exec.{
  Env, plugin_kind, St, Credentials, Call, sonar, Action, called, event, normal, Error, Result, ok,
  err, is_ok, ◌>>=◌, perform, emit, wrap_error,
}
use sonarqube_operator.Plugin.{
  is_risk_consent_required, first_tried, retried, try_install, find_plugin, reconcile_plugin,
  from_source, bring_to,
}

abbrev pub accepted : Action
accepted =
    event normal "RiskConsentAccepted" "Acknowledged SonarQube marketplace plugins risk consent"

module _ (c : Credentials) where
  abbrev pub install_call : Plugin → Call
  install_call p = sonar c (install_plugin p.spec.key p.spec.version)

  abbrev pub consent_call : Call
  consent_call = sonar c acknowledge_risk_consent

  -- What an attempt to install adds to the history `h`, where SonarQube answered the first call by
  -- `first`: one call; a refused consent behind a failed call; or a given consent and a second call.
  abbrev pub InstallTrace :
      Plugin
      → (first : Result (Unit {0})) → (result : Result (Unit {0})) → (h after : List Action)
      → Type 0
  InstallTrace p first result h after =
      ((result ≡ first)
        × ((e : Error) → first ≡ err e → is_risk_consent_required e ≡ false)
        × (after ≡ called (install_call p) (is_ok first) ∷ h))
      ⊎ ((e : Error) × (first ≡ err e)
          × (is_risk_consent_required e ≡ true)
          × (((is_ok result ≡ false)
                × (after ≡ called consent_call false ∷ called (install_call p) false ∷ h))
              ⊎ (after
                  ≡ called (install_call p) (is_ok result)
                    ∷ accepted
                    ∷ called consent_call true
                    ∷ called (install_call p) false
                    ∷ h)))

abbrev pub outcome : {A : Type 0} → Result (Result A) → Result A
outcome (ok r) = r
outcome (err e) = err e

module _ (E : Env) (c : Credentials) where
  retried_trace :
      (r : Result (Unit {0})) (server : E.State) (p : Plugin) (h : List Action)
      → let s : St E plugin_kind = record {
        server = server;
        object = p;
        history = called (consent_call c) (is_ok r) ∷ h;
      } in
        let t = retried c r s in
        ((is_ok (outcome t.0) ≡ false) × (t.1.history ≡ called (consent_call c) false ∷ h))
        ⊎ (t.1.history
            ≡ called (install_call c p) (is_ok (outcome t.0))
              ∷ accepted
              ∷ called (consent_call c) true
              ∷ h)
  unfolding retried ◌>>=◌ perform emit
  retried_trace (err e) server p h = inl (refl, refl)
  retried_trace (ok _) server p h = inr refl

  first_tried_trace :
      (first : Result (Unit {0})) (server : E.State) (p : Plugin) (h : List Action)
      → let s : St E plugin_kind = record {
        server = server;
        object = p;
        history = called (install_call c p) (is_ok first) ∷ h;
      } in
        InstallTrace c p first
          (outcome (first_tried c first s).0)
          h
          (first_tried c first s).1.history
  unfolding first_tried ◌>>=◌ perform
  first_tried_trace (ok _) server p h = inl (refl, (λ e q. cc), refl)
  first_tried_trace (err e) server p h = elim (Bool-cases (is_risk_consent_required e)) [
    | inl asked ↦
        let answer = E.answer (consent_call c) server in
        let traced = retried_trace answer.0 answer.1 p (called (install_call c p) false ∷ h) in
        rw asked (inr (e, refl, asked, traced))
    | inr plain ↦ rw plain (inl (refl, (λ x q. (let y : x ≡ e = cc q in rw y plain)), refl))
  ]

  -- Installing makes one call; a second one is made only when the first failed with an error that
  -- mentions the risk consent, and behind an acknowledgement that SonarQube took. Where it
  -- refuses the acknowledgement, the installation fails with no further call.
  pub try_install_trace :
      (s : St E plugin_kind)
      → InstallTrace c s.object
          (E.answer (install_call c s.object) s.server).0
          (outcome (try_install c s).0)
          s.history
          (try_install c s).1.history
  unfolding try_install ◌>>=◌ perform
  try_install_trace s =
      let answer = E.answer (install_call c s.object) s.server in
      first_tried_trace answer.0 answer.1 s.object s.history

  -- When the installed version differs from the one asked for and it cannot be uninstalled, the
  -- error is returned, nothing is installed and the object stays as it was.
  pub reconcile_plugin_uninstall_failed :
      (i : Instance) (s : St E plugin_kind) (all : List InstalledPlugin) (current : InstalledPlugin)
      (e : Error) (t u : E.State)
      → let p = s.object in
        let uninstall = sonar c (uninstall_plugin p.spec.key) in
        p.spec.source ≡ none
        → E.answer (sonar c list_installed_plugins) s.server ≡ (ok all, t)
        → find_plugin p.spec.key all ≡ some current
        → p.spec.version ≢ ""
        → current.version ≢ p.spec.version
        → E.answer uninstall t ≡ (err e, u)
        → let r = reconcile_plugin i c s in
          (r.0 ≡ err (wrap_error "uninstalling plugin" e))
          × (r.1.object ≡ p)
          × ((message : String) × (r.1.history
                ≡ called uninstall false
                  ∷ event normal "VersionMismatch" message
                  ∷ called (sonar c list_installed_plugins) true
                  ∷ s.history))
  unfolding reconcile_plugin from_source bring_to ◌>>=◌ perform emit
  reconcile_plugin_uninstall_failed i s all current e t u marketplace listed found asked other
        failed =
      rw (marketplace, listed, found, eqb_of_ne _ _ asked, eqb_of_ne _ _ other, failed)
        (refl, refl, (_, refl))
