-- ===== src/Plugin/Deletion.antt =====
-- What the deletion of a plugin leaves behind.
use sonarqube_operator.Prelude.{String, ◌<>◌, ◌≡◌, refl, Bool, true, false, none, some, List, ◌∷◌}
use sonarqube_operator.Api.{Instance}
use sonarqube_operator.Sonar.{InstalledPlugin, list_installed_plugins, uninstall_plugin}
use sonarqube_operator.Exec.{
  Env, plugin_kind, St, Credentials, sonar, kube_update, called, event, normal, warning, Error, ok,
  err, wrap_error, ◌>>=◌, perform, emit,
}
use sonarqube_operator.Controller.{has_finalizer, without_finalizer}
use sonarqube_operator.Controller.Release.{release_history}
use sonarqube_operator.Plugin.{
  plugin_finalizer, find_plugin, uninstalled, clean_up, handle_deletion,
}

module _ {E : Env} (i : Instance) (c : Credentials) (s : St E plugin_kind)
    (all : List InstalledPlugin) (t : E.State) where
  -- When SonarQube does not list a plugin that carries the finalizer, the write without the
  -- finalizer is the only call behind the listing, so nothing is uninstalled and no restart is
  -- asked for.
  pub plugin_deletion_absent :
      let list = sonar c list_installed_plugins in
      let write =
        kube_update plugin_kind (without_finalizer E plugin_kind plugin_finalizer s.object) in
      has_finalizer E plugin_kind plugin_finalizer s.object ≡ true
      → E.answer list s.server ≡ (ok all, t)
      → find_plugin s.object.spec.key all ≡ none
      → (message : String) × (b : Bool) × ((handle_deletion i c s).1.history
          ≡ called write b
            ∷ event normal "AlreadyUninstalled" message
            ∷ called list true
            ∷ s.history)
  unfolding handle_deletion clean_up ◌>>=◌ perform emit
  plugin_deletion_absent held listed absent =
      let message =
        "Plugin "
        <> (E.quote s.object.spec.key <> " is not installed in SonarQube — releasing finalizer") in
      let behind : St E plugin_kind = record {
        server = t;
        object = s.object;
        history =
            event normal "AlreadyUninstalled" message
            ∷ called (sonar c list_installed_plugins) true
            ∷ s.history;
      } in
      let (b, e) = release_history plugin_finalizer behind in
      rw (held, listed, absent) (message, b, e)

  -- When SonarQube lists a plugin that carries the finalizer and refuses to uninstall it, the
  -- error is returned, the object in memory keeps the finalizer, and no call follows the refused
  -- one.
  pub plugin_deletion_refused :
      (current : InstalledPlugin) (e : Error) (u : E.State)
      → let list = sonar c list_installed_plugins in
        let uninstall = sonar c (uninstall_plugin s.object.spec.key) in
        has_finalizer E plugin_kind plugin_finalizer s.object ≡ true
        → E.answer list s.server ≡ (ok all, t)
        → find_plugin s.object.spec.key all ≡ some current
        → E.answer uninstall t ≡ (err e, u)
        → handle_deletion i c s ≡ (
          err (wrap_error "uninstalling plugin on deletion" e),
          record {
            server = u;
            object = s.object;
            history =
                event warning "UninstallFailed" e.message
                ∷ called uninstall false
                ∷ called list true
                ∷ s.history;
          },
        )
  unfolding handle_deletion clean_up uninstalled ◌>>=◌ perform emit
  plugin_deletion_refused current e u held listed found refused =
      rw (held, listed, found, refused) refl
