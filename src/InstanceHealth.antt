-- ===== src/InstanceHealth.antt =====
-- reconcileHealth, initializeAdmin and surfaceScaffoldDegraded of SonarQubeInstanceReconciler
-- (internal/controller/sonarqubeinstance_controller.go).
pub mod Phases
pub mod Admin
pub mod Flag
use sonarqube_operator.Prelude.{
  String, ◌<>◌, Bool, true, false, not, Option, none, some, List, [], ◌∷◌, ◌++◌, ◌==◌,
  if◌then◌else◌,
}
use sonarqube_operator.Text.{join}
use sonarqube_operator.Api.{Instance, ClusterSpec, Secret, NamespacedName}
use sonarqube_operator.Sonar.{
  get_status, validate_auth, change_admin_password, generate_token, restart,
}
use sonarqube_operator.Exec.{
  Env, instance_kind, secret_kind, Exec, Credentials, bearer, basic, sonar, kube_get, kube_create,
  normal, warning, Error, Result, ok, err, pure, raise, lift, attempt, wrap, ◌>>=◌, ◌>>◌, perform,
  emit, object, modify,
}
use sonarqube_operator.Controller.{
  CtrlResult, retry_later, requeue_after_ready, condition_for, new_error, value_at, new_object_meta,
  get_instance_admin_token,
}

abbrev pub default_admin_password : String
default_admin_password = "admin"

abbrev pub admin_token_secret_name : Instance → String
admin_token_secret_name i = i.meta.name <> "-admin-token"

abbrev pub with_condition : Env → String → Bool → String → String → Instance → Instance
with_condition E type status reason message i = record i {
  status = record i.status {
    conditions =
        E.set_status_condition i.status.conditions
          (condition_for i.meta type status reason message);
  };
}

abbrev pub with_phase : String → Instance → Instance
with_phase phase i = record i { status = record i.status { phase = phase } }

abbrev pub with_version : String → Instance → Instance
with_version version i =
    if version == "" then i else record i { status = record i.status { version = version } }

abbrev pub with_restart_required : Bool → Instance → Instance
with_restart_required required i = record i {
  status = record i.status { restart_required = required };
}

-- Records where the token is, with the condition AdminInitialized.
abbrev pub with_admin_token : Env → String → Instance → Instance
with_admin_token E reason i =
    with_condition E "AdminInitialized" true reason
      ("Admin token stored in Secret " <> E.quote (admin_token_secret_name i))
      (record i { status = record i.status { admin_token_secret_ref = admin_token_secret_name i } })

abbrev pub token_key : Instance → NamespacedName
token_key i = record { namespace = i.meta.namespace; name = admin_token_secret_name i }

abbrev pub admin_secret_key : Instance → NamespacedName
admin_secret_key i = record { namespace = i.meta.namespace; name = i.spec.admin_secret_ref }

module _ {E : Env} where
  cluster_reason : Option ClusterSpec → Exec E instance_kind (List String)
  cluster_reason none = pure []
  cluster_reason (some _) = do
    emit warning "DCENotImplementedYet"
        "spec.cluster is accepted but DCE rendering is not wired up yet — see issue #11"
    pure ("spec.cluster (DCE rendering not implemented — single-node deploy used)" ∷ [])

  monitoring_reason : Bool → Exec E instance_kind (List String)
  monitoring_reason false = pure []
  monitoring_reason true = do
    emit warning "MonitoringNotImplementedYet"
        "spec.monitoring.enabled is accepted but the ServiceMonitor reconciler is not wired up yet — see issue #10"
    pure ("spec.monitoring.enabled (ServiceMonitor reconciler not implemented)" ∷ [])

  degraded_for : List String → Exec E instance_kind (Unit {0})
  unfolding join
  degraded_for [] = modify (
      with_condition E "Degraded" false "AllFeaturesImplemented"
        "No scaffold-only spec fields are enabled")
  degraded_for (r ∷ reasons) = modify (
      with_condition E "Degraded" true "ScaffoldOnlyFieldsEnabled"
        ("These spec fields are accepted but not yet reconciled: " <> join "; " (r ∷ reasons)))

  unfoldable pub surface_scaffold_degraded : Exec E instance_kind (Unit {0})
  unfolding cluster_reason monitoring_reason degraded_for
  surface_scaffold_degraded = do
    i ← object
    cluster ← cluster_reason i.spec.cluster
    monitoring ← monitoring_reason i.spec.monitoring.enabled
    degraded_for (cluster ++ monitoring)

  target_password : Instance → Secret → Exec E instance_kind String
  unfolding value_at
  target_password i secret =
      let password = value_at "password" secret.entries in
      if password == ""
      then raise (
          new_error
            ("admin secret " <> (E.quote i.spec.admin_secret_ref <> " missing key 'password'")))
      else pure password

  -- The default password is changed where the new one is not accepted.
  ensure_password : (url password : String) → Result (Unit {0}) → Exec E instance_kind (Unit {0})
  ensure_password url password (ok _) = pure tt
  ensure_password url password (err e) = wrap "changing admin password" (
      perform (
        sonar (basic url "admin" default_admin_password)
          (change_admin_password default_admin_password password)))

  issue_admin_token : (url password : String) → Exec E instance_kind (Unit {0})
  issue_admin_token url password = do
    i ← object
    token ← wrap "generating admin token" (
        perform (
          sonar (basic url "admin" password) (
            generate_token (i.meta.namespace <> ("-" <> (i.meta.name <> "-operator"))) "USER_TOKEN"
              "" "")))
    m ← lift (
        E.set_controller_reference i.meta
          (new_object_meta (admin_token_secret_name i) i.meta.namespace))
    wrap "creating admin token secret" (
        perform
          (kube_create secret_kind (record { meta = m; entries = ("token", token.token) ∷ [] })))
    modify (with_admin_token E "TokenCreated")
    emit normal "AdminInitialized"
        ("Admin token stored in Secret " <> E.quote (admin_token_secret_name i))

  token_read : (url : String) → Result Secret → Exec E instance_kind (Unit {0})
  unfolding target_password ensure_password issue_admin_token
  token_read url (ok _) = modify (with_admin_token E "TokenExists")
  token_read url (err _) = do
    i ← object
    secret ← wrap "getting admin secret" (perform (kube_get secret_kind (admin_secret_key i)))
    password ← target_password i secret
    valid ← attempt (perform (sonar (basic url "admin" password) validate_auth))
    ensure_password url password valid
    issue_admin_token url password

  -- Any error of the read of the token's Secret counts as its absence.
  unfoldable pub initialize_admin : (url : String) → Exec E instance_kind (Unit {0})
  unfolding token_read
  initialize_admin url = do
    i ← object
    found ← attempt (perform (kube_get secret_kind (token_key i)))
    token_read url found

  -- The phase Progressing, with the reason in the Ready condition, and a retry.
  progressing : (reason message : String) → Exec E instance_kind CtrlResult
  progressing reason message = do
    modify (λ i. with_condition E "Ready" false reason message (with_phase "Progressing" i))
    pure retry_later

  restarted : Result (Unit {0}) → Exec E instance_kind (Unit {0})
  restarted (err e) = emit warning "RestartFailed" e.message
  restarted (ok _) = do
    emit normal "Restarted" "SonarQube restarted to activate plugin changes"
    modify (with_restart_required false)

  try_restart : (url : String) → Result String → Exec E instance_kind (Unit {0})
  unfolding restarted
  try_restart url (err e) = pure tt
  try_restart url (ok token) = do
    r ← attempt (perform (sonar (bearer url token) restart))
    restarted r

  restart_or_ready : (url : String) → Instance → Bool → Exec E instance_kind CtrlResult
  unfolding try_restart progressing
  restart_or_ready url i true = do
    token ← attempt (get_instance_admin_token i)
    try_restart url token
    progressing "Restarting" "SonarQube restarting to activate plugin changes"
  restart_or_ready url i false = do
    modify (λ j.
        with_condition E "Ready" true "Ready" "SonarQube instance is ready" (with_phase "Ready" j))
    emit normal "Ready" "SonarQube instance is ready"
    pure (record { requeue_after = requeue_after_ready })

  -- The instance is up and its admin account is initialised.
  unfoldable pub settle : (url : String) → Exec E instance_kind CtrlResult
  unfolding restart_or_ready
  settle url = do i ← object; restart_or_ready url i i.status.restart_required

  initialized : (url : String) → Result (Unit {0}) → Exec E instance_kind CtrlResult
  unfolding settle progressing
  initialized url (err e) = progressing "AdminInitFailed" e.message
  initialized url (ok _) = settle url

  answered : (url : String) → Result (String × String) → Exec E instance_kind CtrlResult
  unfolding progressing initialized initialize_admin
  answered url (err e) = do
    emit normal "Waiting" "Waiting for SonarQube to be reachable"
    progressing "Unreachable" ("SonarQube is not reachable: " <> e.message)
  answered url (ok (status, version)) = do
    modify (with_version version)
    if not (status == "UP")
        then (do
          emit normal "Waiting" ("SonarQube status: " <> status)
          progressing "Starting" ("SonarQube is starting (status: " <> (status <> ")")))
        else do r ← attempt (initialize_admin url); initialized url r

  unfoldable pub reconcile_health : (url : String) → Exec E instance_kind CtrlResult
  unfolding answered
  reconcile_health url = do
    status ← attempt (perform (sonar (bearer url "") get_status))
    answered url status
