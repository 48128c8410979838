-- ===== src/Manager/Controllers.antt =====
-- SetupWithManager of the controllers (internal/controller/*_controller.go).
use sonarqube_operator.Prelude.{ℕ, String, List, [], ◌∷◌}
use sonarqube_operator.Exec.{
  Kind, instance_kind, project_kind, plugin_kind, gate_kind, user_kind, secret_kind, group_kind,
  webhook_kind, template_kind, backup_kind, branch_rule_kind, stateful_set_kind, service_kind,
  ingress_kind,
}

-- What a controller is built with: the kind that it reconciles, the kinds whose changes wake it
-- through their owner, and the delays of its rate limiter in milliseconds.
pub record ControllerSetup : Type 0 where
  pub for_kind : Kind
  pub owns : List Kind
  pub named : String
  pub base_delay : ℕ
  pub max_delay : ℕ

abbrev pub instance_setup : ControllerSetup
instance_setup = record {
  for_kind = instance_kind;
  owns = stateful_set_kind ∷ service_kind ∷ ingress_kind ∷ secret_kind ∷ [];
  named = "sonarqubeinstance";
  base_delay = 500;
  max_delay = 300000;
}

abbrev pub plugin_setup : ControllerSetup
plugin_setup = record {
  for_kind = plugin_kind;
  owns = [];
  named = "sonarqubeplugin";
  base_delay = 500;
  max_delay = 300000;
}

abbrev pub project_setup : ControllerSetup
project_setup = record {
  for_kind = project_kind;
  owns = secret_kind ∷ [];
  named = "sonarqubeproject";
  base_delay = 500;
  max_delay = 300000;
}

abbrev pub gate_setup : ControllerSetup
gate_setup = record {
  for_kind = gate_kind;
  owns = [];
  named = "sonarqubequalitygate";
  base_delay = 500;
  max_delay = 300000;
}

abbrev pub user_setup : ControllerSetup
user_setup = record {
  for_kind = user_kind;
  owns = secret_kind ∷ [];
  named = "sonarqubeuser";
  base_delay = 500;
  max_delay = 300000;
}

abbrev pub backup_setup : ControllerSetup
backup_setup = record {
  for_kind = backup_kind;
  owns = [];
  named = "sonarqubebackup";
  base_delay = 500;
  max_delay = 300000;
}

abbrev pub branch_rule_setup : ControllerSetup
branch_rule_setup = record {
  for_kind = branch_rule_kind;
  owns = [];
  named = "sonarqubebranchrule";
  base_delay = 500;
  max_delay = 300000;
}

abbrev pub group_setup : ControllerSetup
group_setup = record {
  for_kind = group_kind;
  owns = [];
  named = "sonarqubegroup";
  base_delay = 500;
  max_delay = 300000;
}

abbrev pub template_setup : ControllerSetup
template_setup = record {
  for_kind = template_kind;
  owns = [];
  named = "sonarqubepermissiontemplate";
  base_delay = 500;
  max_delay = 300000;
}

abbrev pub webhook_setup : ControllerSetup
webhook_setup = record {
  for_kind = webhook_kind;
  owns = [];
  named = "sonarqubewebhook";
  base_delay = 500;
  max_delay = 300000;
}
