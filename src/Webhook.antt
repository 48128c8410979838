-- ===== src/Webhook.antt =====
-- SonarQubeWebhookReconciler (internal/controller/sonarqubewebhook_controller.go).
pub mod Deletion
pub mod Registration
use sonarqube_operator.Prelude.{
  String, ◌<>◌, Bool, true, false, not, ◌&&◌, Option, none, some, ◌==◌, if◌then◌else◌,
}
use sonarqube_operator.Api.{Instance, Condition, NamespacedName}
use sonarqube_operator.Api.Access.{Webhook}
use sonarqube_operator.Sonar.{create_webhook, delete_webhook}
use sonarqube_operator.Exec.{
  Env, webhook_kind, secret_kind, Exec, Credentials, kube_get, sonar, normal, warning, Result, ok,
  err, pure, raise, attempt, wrap, wrap_error, ◌>>=◌, ◌>>◌, perform, emit, object, modify,
  update_status, update_status_ignored,
}
use sonarqube_operator.Controller
use sonarqube_operator.Controller.{
  CtrlResult, done, Handlers, has_finalizer, release, warn, condition_for, value_at,
}
use sonarqube_operator.Controller.BestEffort.{attempt_cleanup}

abbrev pub webhook_finalizer : String
webhook_finalizer = "sonarqube.io/webhook-finalizer"

abbrev with_phase : String → Webhook → Webhook
with_phase phase w = record w { status = record w.status { phase = phase } }

-- Sets the Ready condition.
abbrev with_ready : Env → Bool → String → String → Webhook → Webhook
with_ready E status reason message w = record w {
  status = record w.status {
    conditions =
        E.set_status_condition w.status.conditions
          (condition_for w.meta "Ready" status reason message);
  };
}

-- The phase Ready with its condition, which names the key.
abbrev pub registered : Env → String → Webhook → Webhook
registered E key w =
    with_ready E true "Ready"
      ("Webhook " <> (E.quote w.spec.name <> (" is registered (key " <> (key <> ")"))))
      (with_phase "Ready" w)

abbrev pub with_key : String → Webhook → Webhook
with_key key w = record w { status = record w.status { webhook_key = key } }

module _ {E : Env} where
  secret_of : Option String → Webhook → Exec E webhook_kind String
  unfolding value_at
  secret_of none w = pure ""
  secret_of (some name) w = do
    s ←
        wrap "reading webhook secret"
          (perform (kube_get secret_kind (record { namespace = w.meta.namespace; name = name })))
    pure (value_at "secret" s.entries)

  created : Result String → Exec E webhook_kind (Unit {0})
  created (err e) = do
    modify (λ w. with_ready E false "CreateFailed" e.message (with_phase "Failed" w))
    update_status_ignored
    emit warning "CreateFailed" e.message
    raise (wrap_error "creating webhook" e)
  created (ok key) = do
    modify (λ w. registered E key (with_key key w))
    w ← object
    emit normal "Created"
        ("Webhook " <> (E.quote w.spec.name <> (" created (key " <> (key <> ")"))))
    update_status

  -- A webhook whose key the status holds is never looked at again.
  unfoldable pub reconcile_webhook : Credentials → Exec E webhook_kind (Unit {0})
  unfolding secret_of created
  reconcile_webhook c = do
    w ← object
    if not (w.status.webhook_key == "")
        then (do modify (registered E w.status.webhook_key); update_status)
        else do
          secret ← secret_of w.spec.secret_ref w
          r ←
              attempt (
                perform (sonar c (create_webhook w.spec.name w.spec.url w.spec.project_key secret)))
          created r

  delete : Credentials → Exec E webhook_kind (Unit {0})
  delete c = do
    w ← object
    r ← attempt (perform (sonar c (delete_webhook w.status.webhook_key)))
    warn "DeleteFailed" r

  unfoldable pub finalize_deletion : Instance → Exec E webhook_kind (Unit {0})
  unfolding delete
  finalize_deletion i = do
    w ← object
    if not (has_finalizer E webhook_kind webhook_finalizer w) then pure tt else do
      attempt_cleanup ((i.status.phase == "Ready") && not (w.status.webhook_key == "")) delete i
      release webhook_finalizer

abbrev pub handlers : (E : Env) → Handlers E webhook_kind
handlers E = record {
  instance_ref = λ w. w.spec.instance_ref;
  finalizer = webhook_finalizer;
  not_ready = λ i. with_phase "Pending";
  no_token = with_phase "Pending";
  finalize = finalize_deletion;
  ensure = λ i c. (do reconcile_webhook c; pure done);
}

unfoldable pub reconcile : {E : Env} → NamespacedName → Exec E webhook_kind CtrlResult
reconcile {E} request = Controller.reconcile (handlers E) request
