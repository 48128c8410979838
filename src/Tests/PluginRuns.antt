-- ===== src/Tests/PluginRuns.antt =====
-- A plugin's installation.
use sonarqube_operator.Prelude.{◌≡◌, refl, false, none, some, [], ◌∷◌}
use sonarqube_operator.Api.{Plugin}
use sonarqube_operator.Exec.{plugin_kind, St}
use sonarqube_operator.Plugin.{try_install, find_plugin}
use sonarqube_operator.Plugin.Install.{InstallTrace, install_call, outcome, try_install_trace}
use sonarqube_operator.Tests.World.{world, creds, old_java, meta_named}

abbrev pub plugin : Plugin
plugin = record {
  meta = meta_named "java" [] false;
  spec = record {
    instance_ref = record { name = "sq"; namespace = "" };
    key = "java";
    version = "8";
    source = none;
  };
  status = record { phase = ""; installed_version = ""; restart_required = false; conditions = [] };
}

abbrev at_start : St world plugin_kind
at_start = record { server = 0; object = plugin; history = [] }

try_install_trace_example :
    InstallTrace creds plugin
      (world.answer (install_call creds plugin) 0).0
      (outcome (try_install creds at_start).0)
      []
      (try_install creds at_start).1.history
try_install_trace_example = try_install_trace world creds at_start

found : find_plugin "java" (old_java ∷ []) ≡ some old_java
unfolding find_plugin
found = refl
