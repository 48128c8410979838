-- ===== src/Manager/Plan.antt =====
-- The calls of main, as one list.
use sonarqube_operator.Prelude.{
  String, ◌<>◌, ◌≡◌, refl, ap, ◌∙◌, Bool, true, false, List, [], ◌∷◌, ◌++◌, map,
}
use sonarqube_operator.Api.{InstanceRef}
use sonarqube_operator.Exec.{
  Kind, Obj, project_kind, plugin_kind, gate_kind, user_kind, group_kind, webhook_kind,
  template_kind, backup_kind, branch_rule_kind, Result, ok, err, wrap_result,
}
use sonarqube_operator.Manager.Options.{Flags, manager_options}
use sonarqube_operator.Manager.Controllers.{
  ControllerSetup, instance_setup, plugin_setup, project_setup, gate_setup, user_setup,
  backup_setup, branch_rule_setup, group_setup, template_setup, webhook_setup,
}
use sonarqube_operator.Manager.{
  ManagerCall, new_manager, complete_controller, complete_instance_webhook, complete_ref_webhook,
  add_healthz_check, add_readyz_check, start, Host, Run, Setup, next, ◌>>◌, ask, skip,
  setup_ref_webhook, setup_instance_ref_webhooks, setup_sonarqube_instance_webhook,
  set_up_controllers, set_up_webhooks, run_manager, exit_of, main,
}

-- A controller for each custom resource.
abbrev pub controllers : List ControllerSetup
controllers =
    instance_setup ∷ plugin_setup ∷ project_setup ∷ gate_setup ∷ user_setup ∷ backup_setup
    ∷ branch_rule_setup ∷ group_setup ∷ template_setup ∷ webhook_setup ∷ []

-- The recorder of a controller has the controller's name.
abbrev pub named_controller : ControllerSetup → ManagerCall
named_controller s = complete_controller (s.named <> "-controller") s

-- A webhook for each custom resource that names an instance.
abbrev pub webhook_calls : List ManagerCall
webhook_calls =
    complete_instance_webhook
    ∷ complete_ref_webhook project_kind (λ o. (o.meta.namespace, o.spec.instance_ref))
    ∷ complete_ref_webhook user_kind (λ o. (o.meta.namespace, o.spec.instance_ref))
    ∷ complete_ref_webhook plugin_kind (λ o. (o.meta.namespace, o.spec.instance_ref))
    ∷ complete_ref_webhook gate_kind (λ o. (o.meta.namespace, o.spec.instance_ref))
    ∷ complete_ref_webhook group_kind (λ o. (o.meta.namespace, o.spec.instance_ref))
    ∷ complete_ref_webhook template_kind (λ o. (o.meta.namespace, o.spec.instance_ref))
    ∷ complete_ref_webhook webhook_kind (λ o. (o.meta.namespace, o.spec.instance_ref))
    ∷ complete_ref_webhook branch_rule_kind (λ o. (o.meta.namespace, o.spec.instance_ref))
    ∷ complete_ref_webhook backup_kind (λ o. (o.meta.namespace, o.spec.instance_ref))
    ∷ []

abbrev pub webhooks_of : Bool → List ManagerCall
webhooks_of true = webhook_calls
webhooks_of false = []

abbrev last_calls : List ManagerCall
last_calls = add_healthz_check "healthz" ∷ add_readyz_check "readyz" ∷ start ∷ []

abbrev pub plan : Flags → List ManagerCall
plan flags =
    (new_manager (manager_options flags) ∷ [])
    ++ (map named_controller controllers ++ (webhooks_of flags.enable_webhook ++ last_calls))

-- The calls of the list, one behind the other, up to the first that fails.
unfoldable pub run_calls : {H : Host} → List ManagerCall → Setup H
run_calls [] = skip
run_calls (c ∷ cs) = ask c >> run_calls cs

wrapped_exit :
    (prefix : String) (r : Result (Unit {0})) → exit_of (wrap_result prefix r) ≡ exit_of r
unfolding exit_of
wrapped_exit prefix (ok _) = refl
wrapped_exit prefix (err e) = refl

module _ {H : Host} where
  -- The same end of the process, and the same run up to it.
  abbrev Alike : (a b : Result (Unit {0}) × Run H) → Type 0
  Alike a b = (exit_of a.0 ≡ exit_of b.0) × (a.1 ≡ b.1)

  abbrev Follows : List ManagerCall → Setup H → Type 0
  Follows cs m = (s : Run H) → Alike (m s) (run_calls cs s)

  next-Alike :
      (r r' : Result (Unit {0})) (m n : Setup H) (s s' : Run H)
      → Alike (r, s) (r', s')
      → ((u : Run H) → Alike (m u) (n u))
      → Alike (next r m s) (next r' n s')
  unfolding exit_of
  next-Alike (ok _) (ok _) m n s s' (e, same) then = rw (← same) (then s)
  next-Alike (err e) (err e') m n s s' alike then = alike
  next-Alike (ok _) (err e') m n s s' (e, same) then = cc
  next-Alike (err e') (ok _) m n s s' (e, same) then = cc

  next-next :
      (r : Result (Unit {0})) (m n : Setup H) (s : Run H)
      → let (r', s') = next r m s in next r' n s' ≡ next r (m >> n) s
  unfolding ◌>>◌
  next-next (ok _) m n s = refl
  next-next (err e) m n s = refl

  next_eq :
      (r : Result (Unit {0})) (m n : Setup H) (s : Run H)
      → ((u : Run H) → m u ≡ n u)
      → next r m s ≡ next r n s
  next_eq (ok _) m n s same = same s
  next_eq (err e) m n s same = refl

  run_calls-append :
      (cs ds : List ManagerCall) (s : Run H)
      → (run_calls cs >> run_calls ds) s ≡ run_calls (cs ++ ds) s
  unfolding run_calls ◌>>◌
  run_calls-append [] ds s = refl
  run_calls-append (c ∷ cs) ds s =
      let (r, s') = ask c s in
      next-next r (run_calls cs) (run_calls ds) s'
      ∙ next_eq r (run_calls cs >> run_calls ds) (run_calls (cs ++ ds)) s' (run_calls-append cs ds)

  Follows-then :
      (cs ds : List ManagerCall) (m n : Setup H)
      → Follows cs m
      → Follows ds n
      → Follows (cs ++ ds) (m >> n)
  unfolding ◌>>◌
  Follows-then cs ds m n fm fn s =
      rw (← run_calls-append cs ds s) (next-Alike _ _ n (run_calls ds) _ _ (fm s) fn)

  skipped :
      (r r' : Result (Unit {0})) (s : Run H)
      → exit_of r' ≡ exit_of r
      → Alike (r', s) (next r skip s)
  skipped (ok _) r' s e = (e, refl)
  skipped (err x) r' s e = (e, refl)

  Follows-ask : (c : ManagerCall) → Follows (c ∷ []) (ask c)
  unfolding run_calls ◌>>◌ ask
  Follows-ask c s = let (r, s') = ask c s in skipped r r s' refl

  Follows-ref_webhook :
      (k : Kind) (extractor : Obj k → String × InstanceRef)
      → Follows (complete_ref_webhook k extractor ∷ []) (setup_ref_webhook k extractor)
  unfolding run_calls ◌>>◌ setup_ref_webhook
  Follows-ref_webhook k extractor s =
      let (r, s') = ask (complete_ref_webhook k extractor) s in
      skipped r (wrap_result ("setting up instanceRef webhook for " <> H.type_name k) r) s'
        (wrapped_exit ("setting up instanceRef webhook for " <> H.type_name k) r)

  ask_then :
      (c : ManagerCall) (cs : List ManagerCall) (n : Setup H)
      → Follows cs n
      → Follows (c ∷ cs) (ask c >> n)
  ask_then c cs n fn = Follows-then (c ∷ []) cs (ask c) n (Follows-ask c) fn

  ref_webhook_then :
      (k : Kind) (extractor : Obj k → String × InstanceRef) (cs : List ManagerCall) (n : Setup H)
      → Follows cs n
      → Follows (complete_ref_webhook k extractor ∷ cs) (setup_ref_webhook k extractor >> n)
  ref_webhook_then k extractor cs n fn =
      Follows-then (complete_ref_webhook k extractor ∷ []) cs (setup_ref_webhook k extractor) n
        (Follows-ref_webhook k extractor) fn

  Follows-skip : Follows [] skip
  unfolding run_calls
  Follows-skip s = (refl, refl)

  ruleset follow_rules =
      (Follows-ask, Follows-ref_webhook, Follows-skip, ask_then, ref_webhook_then)

  Follows-controllers : Follows (map named_controller controllers) set_up_controllers
  unfolding set_up_controllers
  Follows-controllers = search follow_rules depth 14

  Follows-webhooks : (enabled : Bool) → Follows (webhooks_of enabled) (set_up_webhooks enabled)
  unfolding set_up_webhooks setup_instance_ref_webhooks setup_sonarqube_instance_webhook
  Follows-webhooks true = search follow_rules depth 14
  Follows-webhooks false = search follow_rules depth 14

  Follows-main : (flags : Flags) → Follows (plan flags) (run_manager flags)
  unfolding run_manager
  Follows-main flags = ask_then (new_manager (manager_options flags)) _ _ (
      Follows-then (map named_controller controllers) _ set_up_controllers _ Follows-controllers (
        Follows-then (webhooks_of flags.enable_webhook) _ (set_up_webhooks flags.enable_webhook) _
          (Follows-webhooks flags.enable_webhook) (search follow_rules depth 5)))

-- main is the run of the plan: with the same calls in the same order, up to the first that fails,
-- and with the exit code 1 exactly when one fails.
pub main-run_calls :
    {H : Host} (flags : Flags) (s : Run H)
    → let (r, s') = run_calls (plan flags) s in main flags s ≡ (exit_of r, s')
unfolding main
main-run_calls flags s =
    let (e, same) = Follows-main flags s in
    ap (λ p. (p, (run_manager flags s).1)) e
    ∙ ap (λ u. (exit_of (run_calls (plan flags) s).0, u)) same
