-- ===== src/Manager/Start.antt =====
-- When the manager is started.
use mathlib.Core.Path.{subst}
use sonarqube_operator.Prelude.{
  ◌≡◌, refl, ap, Bool, true, false, ◌⊎◌, inl, inr, List, [], ◌∷◌, ◌++◌,
}
use sonarqube_operator.Exec.{Result, ok, err, is_ok}
use sonarqube_operator.Manager.Options.{Flags}
use sonarqube_operator.Manager.{
  ManagerCall, Host, Run, Exit, returned, exited_1, exit_of, next, ◌>>◌, ask, main,
}
use sonarqube_operator.Manager.Plan.{run_calls, plan, main-run_calls}

-- The history behind the calls of the list, which all succeeded.
abbrev pub all_done : List ManagerCall → List (ManagerCall × Bool) → List (ManagerCall × Bool)
all_done [] h = h
all_done (c ∷ cs) h = all_done cs ((c, true) ∷ h)

-- Every call was made and succeeded, or one failed and was the last.
abbrev pub Ended : {H : Host} → List ManagerCall → List (ManagerCall × Bool) → Exit × Run H → Type 0
Ended cs h run =
    ((run.0 ≡ returned) × (run.1.history ≡ all_done cs h))
    ⊎ ((earlier later : List ManagerCall) × (c : ManagerCall) × (run.0 ≡ exited_1)
        × (cs ≡ earlier ++ (c ∷ later))
        × (run.1.history ≡ (c, false) ∷ all_done earlier h))

module _ {H : Host} where
  Ended-later :
      (c : ManagerCall) (cs : List ManagerCall) (h : List (ManagerCall × Bool)) (run : Exit × Run H)
      → Ended cs ((c, true) ∷ h) run
      → Ended (c ∷ cs) h run
  Ended-later c cs h run (inl done) = inl done
  Ended-later c cs h run (inr (earlier, later, d, e, same, hist)) =
      inr (c ∷ earlier, later, d, e, ap (λ l. c ∷ l) same, hist)

  Ended-next :
      (c : ManagerCall) (cs : List ManagerCall) (r : Result (Unit {0})) (s : Run H)
      (h : List (ManagerCall × Bool))
      → s.history ≡ (c, is_ok r) ∷ h
      → ((u : Run H) → let (r', u') = run_calls cs u in Ended cs u.history (exit_of r', u'))
      → let (r', s') = next r (run_calls cs) s in Ended (c ∷ cs) h (exit_of r', s')
  unfolding exit_of
  Ended-next c cs (ok _) s h e then =
      let (r', s') = run_calls cs s in
      Ended-later c cs h (exit_of r', s') (subst (λ l. Ended cs l (exit_of r', s')) e (then s))
  Ended-next c cs (err x) s h e then = inr ([], cs, c, refl, refl, e)

  run_calls-Ended :
      (cs : List ManagerCall) (s : Run H)
      → let (r, s') = run_calls cs s in Ended cs s.history (exit_of r, s')
  unfolding run_calls ◌>>◌ ask exit_of
  run_calls-Ended [] s = inl (refl, refl)
  run_calls-Ended (c ∷ cs) s =
      let (r, host) = H.answer c s.host in Ended-next c cs r _ s.history refl (run_calls-Ended cs)

-- The process returns when the creation of the manager, the set-up of each of the ten controllers,
-- where the webhooks are enabled the registration of each of the ten, and both health checks
-- succeeded, in this order, and then the manager ran and came back without an error. Otherwise
-- one of these failed and was the last, and the exit code is 1; so a manager that lacks one of
-- them is never started.
pub main-Ended :
    {H : Host} (flags : Flags) (s : Run H) → Ended (plan flags) s.history (main flags s)
main-Ended flags s = rw (main-run_calls flags s) (run_calls-Ended (plan flags) s)
