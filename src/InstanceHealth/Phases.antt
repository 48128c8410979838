-- ===== src/InstanceHealth/Phases.antt =====
-- The phases that reconcileHealth leaves, and the flag that asks for a restart.
use sonarqube_operator.Prelude.{
  String, ◌≡◌, sym, ◌∙◌, ap, refl, Bool, true, false, List, ◌∷◌, ◌==◌, ◌⊎◌, inl, inr, Bool-cases,
}
use sonarqube_operator.Api.{Instance}
use sonarqube_operator.Sonar.{restart, get_status}
use sonarqube_operator.Exec.{
  Env, instance_kind, St, bearer, sonar, Action, called, event, normal, Result, ok, err, is_ok,
  ◌>>=◌, ◌>>◌, perform, emit,
}
use mathlib.Core.Path.{subst}
use sonarqube_operator.Controller.{
  CtrlResult, retry_later, requeue_after_ready, get_instance_admin_token,
}
use sonarqube_operator.Controller.Token.{get_instance_admin_token-SameObject}
use sonarqube_operator.InstanceHealth.{
  progressing, restarted, try_restart, restart_or_ready, settle, initialized, initialize_admin,
  answered, reconcile_health,
}

-- The controller comes back in a minute with the phase Ready and no restart asked for, or in 30 seconds
-- with the phase Progressing.
abbrev pub Settled : {E : Env} → Result CtrlResult × St E instance_kind → Type 0
Settled run =
    ((run.0 ≡ ok (record { requeue_after = requeue_after_ready }))
      × (run.1.object.status.phase ≡ "Ready")
      × (run.1.object.status.restart_required ≡ false))
    ⊎ ((run.0 ≡ ok retry_later) × (run.1.object.status.phase ≡ "Progressing"))

module _ {E : Env} (url : String) where
  restarted-Settled :
      (r : Result (Unit {0})) (reason message : String) (s : St E instance_kind)
      → Settled ((restarted r >> progressing reason message) s)
  unfolding restarted progressing emit ◌>>=◌
  restarted-Settled (ok _) reason message s = inr (refl, refl)
  restarted-Settled (err e) reason message s = inr (refl, refl)

  try_restart-Settled :
      (r : Result String) (reason message : String) (s : St E instance_kind)
      → Settled ((try_restart url r >> progressing reason message) s)
  unfolding try_restart progressing perform ◌>>=◌
  try_restart-Settled (err e) reason message s = inr (refl, refl)
  try_restart-Settled (ok token) reason message s =
      restarted-Settled (E.answer (sonar (bearer url token) restart) s.server).0 reason message _

  restart_or_ready-Settled :
      (b : Bool) (s : St E instance_kind)
      → s.object.status.restart_required ≡ b
      → Settled (restart_or_ready url s.object b s)
  unfolding restart_or_ready emit ◌>>=◌
  restart_or_ready-Settled true s asked =
      let token = get_instance_admin_token s.object s in
      try_restart-Settled token.0 "Restarting" "SonarQube restarting to activate plugin changes"
        token.1
  restart_or_ready-Settled false s quiet = inl (refl, refl, quiet)

  settle-Settled : (s : St E instance_kind) → Settled (settle url s)
  unfolding settle ◌>>=◌
  settle-Settled s = restart_or_ready-Settled s.object.status.restart_required s refl

  initialized-Settled :
      (r : Result (Unit {0})) (s : St E instance_kind) → Settled (initialized url r s)
  unfolding initialized progressing ◌>>=◌
  initialized-Settled (err e) s = inr (refl, refl)
  initialized-Settled (ok _) s = settle-Settled s

  answered-Settled :
      (r : Result (String × String)) (s : St E instance_kind) → Settled (answered url r s)
  unfolding answered progressing emit ◌>>=◌
  answered-Settled (err e) s = inr (refl, refl)
  answered-Settled (ok (status, version)) s = elim (Bool-cases (status == "UP")) [
    | inl up ↦ rw up (initialized-Settled (initialize_admin url _).0 _)
    | inr down ↦ rw down (inr (refl, refl))
  ]

-- Whatever SonarQube and the API server answer, the health check returns without an error, in one of two
-- ways: the phase Ready, no restart asked for, and the next check in 60 seconds; or the phase
-- Progressing and the next check in 30 seconds.
pub reconcile_health-Settled :
    (E : Env) (url : String) (s : St E instance_kind) → Settled (reconcile_health url s)
unfolding reconcile_health perform ◌>>=◌
reconcile_health-Settled E url s =
    answered-Settled url (E.answer (sonar (bearer url "") get_status) s.server).0 _

-- The restart is still asked for, or SonarQube was told to restart and took the call.
abbrev pub RestartKept : {E : Env} → String → Result CtrlResult × St E instance_kind → Type 0
RestartKept url run =
    (run.1.object.status.restart_required ≡ true)
    ⊎ ((token message : String) × (earlier : List Action) × (run.1.history
          ≡ event normal "Restarted" message
            ∷ called (sonar (bearer url token) restart) true
            ∷ earlier))

restarted-Kept :
    {E : Env} (url token reason message : String) (r : Result (Unit {0})) (s : St E instance_kind)
    (h : List Action)
    → s.object.status.restart_required ≡ true
    → s.history ≡ called (sonar (bearer url token) restart) (is_ok r) ∷ h
    → RestartKept url ((restarted r >> progressing reason message) s)
unfolding restarted progressing emit ◌>>=◌
restarted-Kept url token reason message (ok _) s h asked e = inr (
  token,
  _,
  h,
  ap (λ l. event normal "Restarted" "SonarQube restarted to activate plugin changes" ∷ l) e,
)
restarted-Kept url token reason message (err x) s h asked e = inl asked

try_restart-Kept :
    {E : Env} (url reason message : String) (r : Result String) (s : St E instance_kind)
    → s.object.status.restart_required ≡ true
    → RestartKept url ((try_restart url r >> progressing reason message) s)
unfolding try_restart progressing perform ◌>>=◌
try_restart-Kept url reason message (err e) s asked = inl asked
try_restart-Kept {E} url reason message (ok token) s asked =
    restarted-Kept url token reason message (E.answer (sonar (bearer url token) restart) s.server).0
      _ s.history asked refl

-- While a restart is asked for, once SonarQube is up and the admin account is initialised, the
-- flag stays set unless the last call was a restart that SonarQube took.
pub settle-RestartKept :
    (E : Env) (url : String) (s : St E instance_kind)
    → s.object.status.restart_required ≡ true
    → RestartKept url (settle url s)
unfolding settle restart_or_ready ◌>>=◌
settle-RestartKept E url s asked =
    let token = get_instance_admin_token s.object s in
    let same : token.1.object ≡ s.object = (get_instance_admin_token-SameObject s.object).at s in
    let kept : RestartKept url (restart_or_ready url s.object true s) =
      try_restart-Kept url "Restarting" "SonarQube restarting to activate plugin changes" token.0
        token.1 (ap (λ (i : Instance). i.status.restart_required) same ∙ asked) in
    subst (λ b. RestartKept url (restart_or_ready url s.object b s)) (sym asked) kept
