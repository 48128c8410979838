-- ===== src/Manager.antt =====
-- cmd/main.go: the flags, the options of the manager, and the start of the operator, with
-- SetupWithManager of every controller and the registration of the validating webhooks
-- (api/v1alpha1/sonarqubeinstance_webhook.go and instanceref_webhook.go). The parser of the command
-- line and the manager are parameters.
pub mod Options
pub mod Controllers
pub mod Plan
pub mod Start
use sonarqube_operator.Prelude.{String, ◌<>◌, Bool, true, false, List, [], ◌∷◌, if◌then◌else◌}
use sonarqube_operator.Api.{InstanceRef}
use sonarqube_operator.Exec.{
  Kind, Obj, instance_kind, project_kind, plugin_kind, gate_kind, user_kind, group_kind,
  webhook_kind, template_kind, backup_kind, branch_rule_kind, Error, Result, ok, err, is_ok,
  wrap_result,
}
use sonarqube_operator.Manager.Options.{Flags, ManagerOptions, manager_options}
use sonarqube_operator.Manager.Controllers.{
  ControllerSetup, instance_setup, plugin_setup, project_setup, gate_setup, user_setup,
  backup_setup, branch_rule_setup, group_setup, template_setup, webhook_setup,
}

-- The calls of controller-runtime that may fail. A webhook of the kind `k` gets the namespace and
-- the reference of an object from its extractor, and a controller the name of its event recorder.
pub data ManagerCall : Type 0 where
  new_manager : ManagerOptions → ManagerCall
  complete_controller : (recorder : String) → ControllerSetup → ManagerCall
  complete_instance_webhook : ManagerCall
  complete_ref_webhook : (k : Kind) → (Obj k → String × InstanceRef) → ManagerCall
  add_healthz_check add_readyz_check : String → ManagerCall
  start : ManagerCall

-- controller-runtime and the cluster, and the verb %T.
pub record Host : Type 1 where
  pub State : Type 0
  pub answer : ManagerCall → State → Result (Unit {0}) × State
  pub type_name : Kind → String

-- The history has each call with whether it succeeded, newest first.
pub record Run (H : Host) : Type 0 where
  pub host : H.State
  pub history : List (ManagerCall × Bool)

abbrev pub Setup : Host → Type 0
Setup H = Run H → Result (Unit {0}) × Run H

-- How the process ends.
pub data Exit : Type 0 where
  returned exited_1 : Exit

-- Any error ends the process with os.Exit(1).
unfoldable pub exit_of : Result (Unit {0}) → Exit
exit_of (ok _) = returned
exit_of (err e) = exited_1

module _ {H : Host} where
  abbrev pub next : Result (Unit {0}) → Setup H → Setup H
  next (ok _) n s = n s
  next (err e) n s = (err e, s)

  infixl 5 ◌>>◌
  unfoldable pub ◌>>◌ : Setup H → Setup H → Setup H
  ◌>>◌ m n s = let (r, s') = m s in next r n s'

  unfoldable pub ask : ManagerCall → Setup H
  ask c s =
      let (r, host) = H.answer c s.host in
      (r, record { host = host; history = (c, is_ok r) ∷ s.history })

  abbrev pub skip : Setup H
  skip s = (ok tt, s)

  unfoldable pub setup_ref_webhook : (k : Kind) → (Obj k → String × InstanceRef) → Setup H
  setup_ref_webhook k extractor s =
      let (r, s') = ask (complete_ref_webhook k extractor) s in
      (wrap_result ("setting up instanceRef webhook for " <> H.type_name k) r, s')

  unfoldable pub setup_instance_ref_webhooks : Setup H
  setup_instance_ref_webhooks = do
    setup_ref_webhook project_kind (λ o. (o.meta.namespace, o.spec.instance_ref))
    setup_ref_webhook user_kind (λ o. (o.meta.namespace, o.spec.instance_ref))
    setup_ref_webhook plugin_kind (λ o. (o.meta.namespace, o.spec.instance_ref))
    setup_ref_webhook gate_kind (λ o. (o.meta.namespace, o.spec.instance_ref))
    setup_ref_webhook group_kind (λ o. (o.meta.namespace, o.spec.instance_ref))
    setup_ref_webhook template_kind (λ o. (o.meta.namespace, o.spec.instance_ref))
    setup_ref_webhook webhook_kind (λ o. (o.meta.namespace, o.spec.instance_ref))
    setup_ref_webhook branch_rule_kind (λ o. (o.meta.namespace, o.spec.instance_ref))
    setup_ref_webhook backup_kind (λ o. (o.meta.namespace, o.spec.instance_ref))

  unfoldable pub setup_sonarqube_instance_webhook : Setup H
  setup_sonarqube_instance_webhook = ask complete_instance_webhook

  unfoldable pub set_up_controllers : Setup H
  set_up_controllers = do
    ask (complete_controller "sonarqubeinstance-controller" instance_setup)
    ask (complete_controller "sonarqubeplugin-controller" plugin_setup)
    ask (complete_controller "sonarqubeproject-controller" project_setup)
    ask (complete_controller "sonarqubequalitygate-controller" gate_setup)
    ask (complete_controller "sonarqubeuser-controller" user_setup)
    ask (complete_controller "sonarqubebackup-controller" backup_setup)
    ask (complete_controller "sonarqubebranchrule-controller" branch_rule_setup)
    ask (complete_controller "sonarqubegroup-controller" group_setup)
    ask (complete_controller "sonarqubepermissiontemplate-controller" template_setup)
    ask (complete_controller "sonarqubewebhook-controller" webhook_setup)

  unfoldable pub set_up_webhooks : Bool → Setup H
  set_up_webhooks enabled =
      if enabled then (do setup_sonarqube_instance_webhook; setup_instance_ref_webhooks) else skip

  unfoldable pub run_manager : Flags → Setup H
  unfolding set_up_controllers set_up_webhooks
  run_manager flags = do
    ask (new_manager (manager_options flags))
    set_up_controllers
    set_up_webhooks flags.enable_webhook
    ask (add_healthz_check "healthz")
    ask (add_readyz_check "readyz")
    ask start

  unfoldable pub main : Flags → Run H → Exit × Run H
  unfolding run_manager exit_of
  main flags s = let (r, s') = run_manager flags s in (exit_of r, s')
