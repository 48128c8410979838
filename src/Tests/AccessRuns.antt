-- ===== src/Tests/AccessRuns.antt =====
-- Runs for groups, webhooks, permission templates and scaffolds.
use sonarqube_operator.Prelude.{◌≡◌, refl, true, false, some, [], ◌∷◌, ◌==◌, eq_iff, All, Bool}
use sonarqube_operator.Api.Access.{Group, Webhook, Template}
use sonarqube_operator.Exec.{
  group_kind, webhook_kind, template_kind, St, kube_update_status, called, ok, ◌>>=◌, perform, emit,
}
use sonarqube_operator.Controller.Release.{Released}
use sonarqube_operator.Group
use sonarqube_operator.Group.{group_finalizer}
use sonarqube_operator.Group.Deletion.{Spares, reconcile-Spares, group_deletion-Released}
use sonarqube_operator.Webhook.{webhook_finalizer, registered, reconcile_webhook}
use sonarqube_operator.Webhook.Registration.{reconcile_webhook_again}
use sonarqube_operator.Template.{reconcile_template}
use sonarqube_operator.Template.Missing.{CreatedWhenMissing, reconcile_template-CreatedWhenMissing}
use sonarqube_operator.Tests.World.{world, creds, meta_named, instance_in}

abbrev team_group : Group
team_group = record {
  meta = meta_named "devs" (group_finalizer ∷ []) true;
  spec = record {
    instance_ref = record { name = "sq"; namespace = "" };
    name = "devs";
    description = "";
  };
  status = record { phase = "Ready"; conditions = [] };
}

abbrev of_group : St world group_kind
of_group = record { server = 0; object = team_group; history = [] }

reconcile-Spares_example :
    All Spares (Group.reconcile (record { namespace = "team"; name = "devs" }) of_group).1.history
reconcile-Spares_example =
    reconcile-Spares (record { namespace = "team"; name = "devs" }) of_group tt

group_deletion-Released_example :
    Released group_finalizer team_group (Group.finalize_deletion (instance_in "Ready" []) of_group)
group_deletion-Released_example = group_deletion-Released (instance_in "Ready" []) of_group refl

abbrev ci_webhook : Webhook
ci_webhook = record {
  meta = meta_named "ci" (webhook_finalizer ∷ []) false;
  spec = record {
    instance_ref = record { name = "sq"; namespace = "" };
    name = "ci";
    url = "http://ci";
    project_key = "";
    secret_ref = some "ci-secret";
  };
  status = record { phase = ""; webhook_key = ""; conditions = [] };
}

abbrev of_webhook : St world webhook_kind
of_webhook = record { server = 0; object = ci_webhook; history = [] }

first_run : (reconcile_webhook creds of_webhook).0 ≡ ok tt
unfolding reconcile_webhook ◌>>=◌ perform emit
first_run = refl

reconcile_webhook_again_example :
    let s' = (reconcile_webhook creds of_webhook).1 in
    let write =
      kube_update_status webhook_kind (registered world s'.object.status.webhook_key s'.object) in
    (b : Bool) × ((reconcile_webhook creds s').1.history ≡ called write b ∷ s'.history)
reconcile_webhook_again_example =
    reconcile_webhook_again (λ w w' v t e. cc)
      (λ c name url project secret key v t e empty.
        (let q : ("wh1" == "") ≡ true = (eq_iff "wh1" "").1 cc in cc))
      creds of_webhook first_run

abbrev base_template : Template
base_template = record {
  meta = meta_named "base" [] false;
  spec = record {
    instance_ref = record { name = "sq"; namespace = "" };
    name = "base";
    description = "";
    project_key_pattern = "";
    is_default = true;
  };
  status = record { phase = ""; template_id = ""; conditions = [] };
}

abbrev of_template : St world template_kind
of_template = record { server = 0; object = base_template; history = [] }

reconcile_template-CreatedWhenMissing_example :
    CreatedWhenMissing (reconcile_template creds of_template).1.history
reconcile_template-CreatedWhenMissing_example =
    reconcile_template-CreatedWhenMissing creds of_template tt
