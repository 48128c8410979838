-- ===== src/Plugin.antt =====
-- SonarQubePluginReconciler (internal/controller/sonarqubeplugin_controller.go), and
-- IsRiskConsentRequired of internal/sonarqube/client.go.
pub mod Install
pub mod Deletion
pub mod Signal
use sonarqube_operator.Prelude.{
  String, ◌<>◌, Bool, true, false, not, ◌&&◌, ◌||◌, Option, none, some, List, [], ◌∷◌, ◌==◌,
  if◌then◌else◌,
}
use sonarqube_operator.Text.{contains_lowered}
use sonarqube_operator.Api.{Instance, Plugin, Condition, NamespacedName}
use sonarqube_operator.Sonar.{
  InstalledPlugin, list_installed_plugins, install_plugin, uninstall_plugin,
  acknowledge_risk_consent,
}
use sonarqube_operator.Exec.{
  Env, plugin_kind, instance_kind, Exec, Credentials, sonar, kube_patch_status, normal, warning,
  Error, Result, ok, err, pure, raise, attempt, wrap, wrap_error, ◌>>=◌, ◌>>◌, perform, emit,
  object, modify, update_status, update_status_ignored,
}
use sonarqube_operator.Controller
use sonarqube_operator.Controller.{
  CtrlResult, done, Handlers, has_finalizer, release, finalize_deletion, condition_for,
}

abbrev pub plugin_finalizer : String
plugin_finalizer = "sonarqube.io/plugin-finalizer"

-- The error's text, in lower case, contains "risk consent".
unfoldable pub is_risk_consent_required : Error → Bool
unfolding contains_lowered
is_risk_consent_required e = contains_lowered e.message "risk consent"

abbrev with_phase : String → Plugin → Plugin
with_phase phase p = record p { status = record p.status { phase = phase } }

-- Sets the Installed condition.
abbrev with_installed : Env → Bool → String → String → Plugin → Plugin
with_installed E status reason message p = record p {
  status = record p.status {
    conditions =
        E.set_status_condition p.status.conditions
          (condition_for p.meta "Installed" status reason message);
  };
}

-- The first installed plugin with the key.
unfoldable pub find_plugin : String → List InstalledPlugin → Option InstalledPlugin
find_plugin key [] = none
find_plugin key (p ∷ rest) = if p.key == key then some p else find_plugin key rest

module _ {E : Env} where
  patched : Result Instance → Exec E plugin_kind (Unit {0})
  patched (ok _) = pure tt
  patched (err e) =
      emit warning "PatchInstanceFailed" ("could not signal restart to instance: " <> e.message)

  -- Sets RestartRequired on the instance, unless it is set or the instance is being deleted.
  unfoldable pub signal_instance_restart : Instance → Exec E plugin_kind (Unit {0})
  unfolding patched
  signal_instance_restart i = if i.status.restart_required || i.meta.deleting then pure tt else do
    r ← attempt (
        perform (
          kube_patch_status instance_kind i
            (record i { status = record i.status { restart_required = true } })))
    patched r

  retried : Credentials → Result (Unit {0}) → Exec E plugin_kind (Result (Unit {0}))
  retried c (err e) = pure (err (wrap_error "acknowledging plugin risk consent" e))
  retried c (ok _) = do
    p ← object
    emit normal "RiskConsentAccepted" "Acknowledged SonarQube marketplace plugins risk consent"
    attempt (perform (sonar c (install_plugin p.spec.key p.spec.version)))

  first_tried : Credentials → Result (Unit {0}) → Exec E plugin_kind (Result (Unit {0}))
  unfolding retried is_risk_consent_required
  first_tried c (ok _) = pure (ok tt)
  first_tried c (err e) =
      if is_risk_consent_required e
      then (do r ← attempt (perform (sonar c acknowledge_risk_consent)); retried c r)
      else pure (err e)

  -- The installation: where SonarQube asks for the risk consent it is given, and the call is made
  -- once more.
  unfoldable pub try_install : Credentials → Exec E plugin_kind (Result (Unit {0}))
  unfolding first_tried
  try_install c = do
    p ← object
    r ← attempt (perform (sonar c (install_plugin p.spec.key p.spec.version)))
    first_tried c r

  installed : Instance → Result (Unit {0}) → Exec E plugin_kind CtrlResult
  unfolding signal_instance_restart
  installed i (err e) = do
    modify (λ p. with_installed E false "InstallFailed" e.message (with_phase "Failed" p))
    update_status_ignored
    emit warning "InstallFailed" e.message
    raise (wrap_error "installing plugin" e)
  installed i (ok _) = do
    signal_instance_restart i
    modify (λ p. record p {
      status = record p.status {
        phase = "Installed";
        installed_version = p.spec.version;
        restart_required = true;
      };
    })
    modify (λ p.
        with_installed E true "Installed"
          ("Plugin " <> (E.quote p.spec.key <> " installed, SonarQube restart pending")) p)
    update_status
    pure done

  unfoldable pub install : Instance → Credentials → Exec E plugin_kind CtrlResult
  unfolding try_install installed
  install i c = do
    modify (λ p.
        with_installed E false "Installing" ("Installing plugin " <> E.quote p.spec.key)
          (with_phase "Installing" p))
    update_status_ignored
    r ← try_install c
    installed i r

  -- The plugin is installed, with the version asked for where one is.
  keep : InstalledPlugin → Exec E plugin_kind CtrlResult
  keep current = do
    modify (λ p. record p {
      status = record p.status {
        phase = "Installed";
        installed_version = current.version;
        restart_required = false;
      };
    })
    modify (λ p.
        with_installed E true "Installed"
          ("Plugin "
            <> (E.quote p.spec.key <> (" is installed (version " <> (current.version <> ")"))))
          p)
    update_status
    pure done

  -- The three cases: absent, another version, as it should be.
  unfoldable pub bring_to :
      Instance → Credentials → Option InstalledPlugin → Exec E plugin_kind CtrlResult
  unfolding keep install
  bring_to i c none = install i c
  bring_to i c (some current) = do
    p ← object
    if not (p.spec.version == "") && not (current.version == p.spec.version)
        then (do
          emit normal "VersionMismatch" (
              "installed "
              <> (current.version <> (", want " <> (p.spec.version <> " — reinstalling"))))
          wrap "uninstalling plugin" (perform (sonar c (uninstall_plugin p.spec.key)))
          install i c)
        else keep current

  from_source : Option String → Instance → Credentials → Exec E plugin_kind CtrlResult
  unfolding bring_to find_plugin
  from_source (some _) i c = do
    modify (λ p.
        with_installed E false "URLInstallNotImplemented"
          "spec.source is accepted by the API but the install pipeline is not wired up yet"
          (with_phase "Failed" p))
    update_status_ignored
    emit warning "URLInstallNotImplemented"
        "installing plugins from spec.source is not implemented yet — use spec.version (marketplace) for now"
    pure done
  from_source none i c = do
    all ← wrap "listing plugins" (perform (sonar c list_installed_plugins))
    p ← object
    bring_to i c (find_plugin p.spec.key all)

  unfoldable pub reconcile_plugin : Instance → Credentials → Exec E plugin_kind CtrlResult
  unfolding from_source
  reconcile_plugin i c = do p ← object; from_source p.spec.source i c

  uninstalled : Instance → Result (Unit {0}) → Exec E plugin_kind (Unit {0})
  unfolding signal_instance_restart
  uninstalled i (err e) = do
    emit warning "UninstallFailed" e.message
    raise (wrap_error "uninstalling plugin on deletion" e)
  uninstalled i (ok _) = do
    signal_instance_restart i
    p ← object
    emit normal "Uninstalled" ("Plugin " <> (E.quote p.spec.key <> " uninstalled"))

  clean_up : Instance → Credentials → Option InstalledPlugin → Exec E plugin_kind (Unit {0})
  unfolding uninstalled
  clean_up i c (some _) = do
    p ← object
    r ← attempt (perform (sonar c (uninstall_plugin p.spec.key)))
    uninstalled i r
  clean_up i c none = do
    p ← object
    emit normal "AlreadyUninstalled" (
        "Plugin " <> (E.quote p.spec.key <> " is not installed in SonarQube — releasing finalizer"))

  -- A plugin that SonarQube does not have is released without a call to uninstall it.
  unfoldable pub handle_deletion : Instance → Credentials → Exec E plugin_kind (Unit {0})
  unfolding clean_up find_plugin
  handle_deletion i c = do
    p ← object
    if not (has_finalizer E plugin_kind plugin_finalizer p) then pure tt else do
      all ← wrap "listing plugins on deletion" (perform (sonar c list_installed_plugins))
      clean_up i c (find_plugin p.spec.key all)
      release plugin_finalizer

-- finalizeDeletion
abbrev pub finalize_plugin : {E : Env} → Instance → Exec E plugin_kind (Unit {0})
finalize_plugin i = finalize_deletion plugin_finalizer (handle_deletion i) i

abbrev pub handlers : (E : Env) → Handlers E plugin_kind
handlers E = record {
  instance_ref = λ p. p.spec.instance_ref;
  finalizer = plugin_finalizer;
  not_ready = λ i p.
      with_installed E false "InstanceNotReady"
        ("SonarQubeInstance "
          <> (E.quote i.meta.name <> (" is not ready (phase: " <> (i.status.phase <> ")"))))
        (with_phase "Pending" p);
  no_token = with_phase "Pending";
  finalize = finalize_plugin;
  ensure = reconcile_plugin;
}

unfoldable pub reconcile : {E : Env} → NamespacedName → Exec E plugin_kind CtrlResult
reconcile {E} request = Controller.reconcile (handlers E) request
