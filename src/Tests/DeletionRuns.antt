-- ===== src/Tests/DeletionRuns.antt =====
-- Deletions of a gate, a project and a plugin.
use sonarqube_operator.Prelude.{◌≡◌, refl, String, true, false, none, some, [], ◌∷◌}
use sonarqube_operator.Api.{Project, Plugin, Gate}
use sonarqube_operator.Sonar.{delete_project}
use sonarqube_operator.Exec.{
  project_kind, plugin_kind, gate_kind, St, sonar, called, event, warning, Error, ok, err,
  wrap_error,
}
use sonarqube_operator.Controller.Release.{Released}
use sonarqube_operator.Project
use sonarqube_operator.Project.{project_finalizer}
use sonarqube_operator.Project.Deletion.{project_deletion-Released}
use sonarqube_operator.QualityGate.{quality_gate_finalizer}
use sonarqube_operator.Plugin.{plugin_finalizer, find_plugin}
use sonarqube_operator.Tests.World.{world, creds, meta_named, project_with, old_java}

abbrev old_gate : Gate
old_gate = record {
  meta = meta_named "strict" (quality_gate_finalizer ∷ []) true;
  spec = record {
    instance_ref = record { name = "sq"; namespace = "" };
    name = "strict";
    is_default = false;
    conditions = [];
  };
  status = record { phase = ""; gate_id = "7"; conditions = [] };
}

abbrev plugin_with_key : String → Plugin
plugin_with_key key = record {
  meta = meta_named "p" (plugin_finalizer ∷ []) true;
  spec = record {
    instance_ref = record { name = "sq"; namespace = "" };
    key = key;
    version = "8";
    source = none;
  };
  status = record { phase = ""; installed_version = ""; restart_required = false; conditions = [] };
}

abbrev deleted_project : Project
deleted_project = project_with (project_finalizer ∷ []) true

abbrev of_project : St world project_kind
of_project = record { server = 0; object = deleted_project; history = [] }

abbrev of_gate : St world gate_kind
of_gate = record { server = 0; object = old_gate; history = [] }

abbrev of_plugin : String → St world plugin_kind
of_plugin key = record { server = 0; object = plugin_with_key key; history = [] }

project_deletion-Released_example :
    let delete = sonar creds (delete_project "shop") in
    let answer = world.answer delete 0 in
    let run = Project.handle_deletion creds of_project in
    ((e : Error)
      → answer.0 ≡ err e
      → (run.0 ≡ err (wrap_error "deleting project on deletion" e))
        × (run.1.object ≡ deleted_project)
        × (run.1.history ≡ event warning "DeleteFailed" e.message ∷ called delete false ∷ []))
    × (answer.0 ≡ ok tt → Released project_finalizer deleted_project run)
project_deletion-Released_example = project_deletion-Released creds of_project refl

absent : find_plugin "go" (old_java ∷ []) ≡ none
unfolding find_plugin
absent = refl

present : find_plugin "java" (old_java ∷ []) ≡ some old_java
unfolding find_plugin
present = refl
