-- ===== src/Restart.antt =====
-- The flag that asks for a restart, between the plugin controller, which sets it, and the instance
-- controller, which clears it (internal/controller/sonarqubeplugin_controller.go and
-- sonarqubeinstance_controller.go): their reads, calls and writes as interleaved steps.
pub mod Server
pub mod Sound
pub mod Flag
use sonarqube_operator.Prelude.{ℕ, String, ◌≡◌, ◌≤◌, ◌<◌, true, Option, none, some, []}
use sonarqube_operator.Api.{NamespacedName, Instance, Plugin}
use sonarqube_operator.Sonar.{SonarCall, SonarReply}
use sonarqube_operator.Exec.{
  Env, instance_kind, plugin_kind, St, Credentials, kube_get, sonar, Error, ok, err, update_status,
}
use sonarqube_operator.InstanceHealth.{settle}
use sonarqube_operator.Plugin.{signal_instance_restart}
use sonarqube_operator.Restart.Server.{FlagServer, Change}

-- Where the plugin controller is: between two runs, behind the read of the instance, or behind a
-- change of the plugins that is not signalled.
pub data PluginAt : Type 0 where
  idle : PluginAt
  holding changed : Instance → PluginAt

abbrev pub run_of : {E : Env} → E.State → Instance → St E instance_kind
run_of v o = record { server = v; object = o; history = [] }

abbrev pub plugin_run_of : {E : Env} → E.State → Plugin → St E plugin_kind
plugin_run_of v p = record { server = v; object = p; history = [] }

-- The store and SonarQube, the instance that the instance controller has in memory, and where the
-- plugin controller is.
pub record World (E : Env) : Type 0 where
  pub server : E.State
  pub instance_held : Option Instance
  pub plugin_at : PluginAt

module _ {E : Env} (F : FlagServer E) where
  -- One step of either controller, or of anyone else.
  pub data Step : World E → World E → Type 0 where
    instance_reads :
        {v t : E.State} {h : Option Instance} {p : PluginAt} (i : Instance)
        → E.answer (kube_get instance_kind F.key) v ≡ (ok i, t)
        → Step
            (record { server = v; instance_held = h; plugin_at = p })
            (record { server = t; instance_held = some i; plugin_at = p })
    -- SonarQube is up and the admin account is initialised.
    instance_settles :
        {v : E.State} {o : Instance} {p : PluginAt} (url : String)
        → Step
            (record { server = v; instance_held = some o; plugin_at = p })
            (record {
              server = (settle url (run_of {E = E} v o)).1.server;
              instance_held = some (settle url (run_of {E = E} v o)).1.object;
              plugin_at = p;
            })
    instance_writes :
        {v : E.State} {o : Instance} {p : PluginAt}
        → Step
            (record { server = v; instance_held = some o; plugin_at = p })
            (record {
              server = (update_status (run_of {E = E} v o)).1.server;
              instance_held = some (update_status (run_of {E = E} v o)).1.object;
              plugin_at = p;
            })
    instance_stops :
        {v : E.State} {h : Option Instance} {p : PluginAt}
        → Step
            (record { server = v; instance_held = h; plugin_at = p })
            (record { server = v; instance_held = none; plugin_at = p })
    plugin_reads :
        {v t : E.State} {h : Option Instance} (i : Instance)
        → E.answer (kube_get instance_kind F.key) v ≡ (ok i, t)
        → Step
            (record { server = v; instance_held = h; plugin_at = idle })
            (record { server = t; instance_held = h; plugin_at = holding i })
    plugin_changes :
        {v t : E.State} {h : Option Instance} {i : Instance} {call : SonarCall}
        {r : SonarReply call} (c : Credentials)
        → Change call
        → E.answer (sonar c call) v ≡ (ok r, t)
        → Step
            (record { server = v; instance_held = h; plugin_at = holding i })
            (record { server = t; instance_held = h; plugin_at = changed i })
    -- The installation behind the removal of another version.
    plugin_changes_again :
        {v t : E.State} {h : Option Instance} {i : Instance} {call : SonarCall}
        {r : SonarReply call} (c : Credentials)
        → Change call
        → E.answer (sonar c call) v ≡ (ok r, t)
        → Step
            (record { server = v; instance_held = h; plugin_at = changed i })
            (record { server = t; instance_held = h; plugin_at = changed i })
    -- The call fails, or SonarQube's answer to it is lost.
    plugin_fails :
        {v t : E.State} {h : Option Instance} {p : PluginAt} {call : SonarCall} {e : Error}
        (c : Credentials)
        → Change call
        → E.answer (sonar c call) v ≡ (err e, t)
        → Step
            (record { server = v; instance_held = h; plugin_at = p })
            (record { server = t; instance_held = h; plugin_at = p })
    plugin_signals :
        {v : E.State} {h : Option Instance} {i : Instance} (plugin : Plugin)
        → Step
            (record { server = v; instance_held = h; plugin_at = changed i })
            (record {
              server = (signal_instance_restart i (plugin_run_of {E = E} v plugin)).1.server;
              instance_held = h;
              plugin_at = idle;
            })
    plugin_stops :
        {v : E.State} {h : Option Instance} {p : PluginAt}
        → Step
            (record { server = v; instance_held = h; plugin_at = p })
            (record { server = v; instance_held = h; plugin_at = idle })
    -- Another client, which leaves the flag and the plugins alone.
    elsewhere :
        {v t : E.State} {h : Option Instance} {p : PluginAt}
        → F.flag t ≡ F.flag v
        → F.version v ≤ F.version t
        → (F.waiting t ≡ true → F.waiting v ≡ true)
        → Step
            (record { server = v; instance_held = h; plugin_at = p })
            (record { server = t; instance_held = h; plugin_at = p })

  -- A change that took effect is answered, and signalled by a write that the store took under a new
  -- version: no failed call has changed the plugins, no signal is without effect, and no run stops
  -- between its change and the signal.
  abbrev pub Heard : {w w' : World E} → Step w w' → Type 0
  Heard (plugin_signals {v} {i = i} plugin) =
      F.version v < F.version (signal_instance_restart i (plugin_run_of {E = E} v plugin)).1.server
  Heard (plugin_stops {p = changed i}) = ⊥
  Heard (plugin_fails {v} {t} c change answered) = F.waiting t ≡ true → F.waiting v ≡ true
  Heard _ = Unit

  pub data Trace : World E → Type 0 where
    start :
        {v : E.State}
        → (F.waiting v ≡ true → F.flag v ≡ true)
        → Trace (record { server = v; instance_held = none; plugin_at = idle })
    later : {w w' : World E} → Trace w → Step w w' → Trace w'

  abbrev pub AllHeard : {w : World E} → Trace w → Type 0
  AllHeard (start quiet) = Unit
  AllHeard (later earlier step) = AllHeard earlier × Heard step
