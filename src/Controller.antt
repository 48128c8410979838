-- ===== src/Controller.antt =====
-- What the controllers of internal/controller share: helpers.go, and the frame that Reconcile and
-- finalizeDeletion repeat in the controllers of projects, plugins, quality gates and users.
pub mod BestEffort
pub mod Deletion
pub mod Frame
pub mod Logged
pub mod Release
pub mod Token
pub mod Waiting
use sonarqube_operator.Prelude.{
  ℕ, String, ◌<>◌, Bool, true, false, not, Option, none, some, List, [], ◌∷◌, ◌==◌, if◌then◌else◌,
}
use sonarqube_operator.Api.{
  NamespacedName, ObjectMeta, Condition, Secret, Instance, InstanceRef, Project, Plugin, Gate, User,
}
use sonarqube_operator.Api.Access.{Group, Webhook, Template}
use sonarqube_operator.Api.Scaffolds.{Backup, BranchRule}
use sonarqube_operator.Exec.{
  Env, Kind, instance_kind, project_kind, plugin_kind, gate_kind, user_kind, secret_kind,
  group_kind, webhook_kind, template_kind, backup_kind, branch_rule_kind, stateful_set_kind,
  service_kind, ingress_kind, Obj, Exec, Credentials, bearer, kube_get, Error, other, Result, ok,
  err, pure, raise, attempt, wrap, ◌>>=◌, ◌>>◌, perform, object, put, modify, update,
  update_status_ignored, is_not_found, warning, emit,
}

abbrev pub requeue_after_health_check : ℕ
requeue_after_health_check = 30

abbrev pub requeue_after_ready : ℕ
requeue_after_ready = 60

-- ctrl.Result, with RequeueAfter in seconds and 0 for none.
pub record CtrlResult : Type 0 where
  pub requeue_after : ℕ

abbrev pub done : CtrlResult
done = record { requeue_after = 0 }

abbrev pub retry_later : CtrlResult
retry_later = record { requeue_after = requeue_after_health_check }

abbrev pub new_error : String → Error
new_error message = record { kind = other; message = message }

-- m[key] for a map of texts
unfoldable pub value_at : String → List (String × String) → String
value_at key [] = ""
value_at key ((j, v) ∷ rest) = if j == key then v else value_at key rest

unfoldable pub instance_api_url : Instance → String
instance_api_url i = "http://" <> (i.meta.name <> ("." <> (i.meta.namespace <> ":9000")))

abbrev pub condition_for : ObjectMeta → String → Bool → String → String → Condition
condition_for m type status reason message = record {
  type = type;
  status = status;
  reason = reason;
  message = message;
  observed_generation = m.generation;
}

-- The metadata of a Secret that the code builds.
abbrev pub new_object_meta : String → String → ObjectMeta
new_object_meta name namespace = record {
  name = name;
  namespace = namespace;
  uid = "";
  owners = [];
  generation = 0;
  resource_version = "";
  annotations = [];
  finalizers = [];
  deleting = false;
}

-- time.Now().Add(d).Format("2006-01-02"), or nothing without a duration
abbrev pub expiration : (E : Env) → E.State → Option ℕ → String
expiration E now none = ""
expiration E now (some d) = E.date_after now d

-- The metadata of an object of each kind, and the object with other metadata.
abbrev pub meta_of : (k : Kind) → Obj k → ObjectMeta
meta_of instance_kind o = o.meta
meta_of project_kind o = o.meta
meta_of plugin_kind o = o.meta
meta_of gate_kind o = o.meta
meta_of user_kind o = o.meta
meta_of secret_kind o = o.meta
meta_of group_kind o = o.meta
meta_of webhook_kind o = o.meta
meta_of template_kind o = o.meta
meta_of backup_kind o = o.meta
meta_of branch_rule_kind o = o.meta
meta_of stateful_set_kind o = o.meta
meta_of service_kind o = o.meta
meta_of ingress_kind o = o.meta

abbrev pub with_meta : (k : Kind) → ObjectMeta → Obj k → Obj k
with_meta instance_kind m o = record o { meta = m }
with_meta project_kind m o = record o { meta = m }
with_meta plugin_kind m o = record o { meta = m }
with_meta gate_kind m o = record o { meta = m }
with_meta user_kind m o = record o { meta = m }
with_meta secret_kind m o = record o { meta = m }
with_meta group_kind m o = record o { meta = m }
with_meta webhook_kind m o = record o { meta = m }
with_meta template_kind m o = record o { meta = m }
with_meta backup_kind m o = record o { meta = m }
with_meta branch_rule_kind m o = record o { meta = m }
with_meta stateful_set_kind m o = record o { meta = m }
with_meta service_kind m o = record o { meta = m }
with_meta ingress_kind m o = record o { meta = m }

module _ (E : Env) (k : Kind) where
  abbrev pub has_finalizer : String → Obj k → Bool
  has_finalizer finalizer o = E.contains_finalizer (meta_of k o).finalizers finalizer

  abbrev pub without_finalizer : String → Obj k → Obj k
  without_finalizer finalizer o =
      let m = meta_of k o in
      with_meta k (record m { finalizers = E.remove_finalizer m.finalizers finalizer }) o

  abbrev pub with_finalizer : String → Obj k → Obj k
  with_finalizer finalizer o =
      let m = meta_of k o in
      with_meta k (record m { finalizers = E.add_finalizer m.finalizers finalizer }) o

module _ {E : Env} {k : Kind} where
  token_of : Instance → Secret → Exec E k String
  unfolding value_at
  token_of i secret =
      let token = value_at "token" secret.entries in
      if token == ""
      then raise (
          new_error (
            "admin token secret "
            <> (E.quote i.status.admin_token_secret_ref <> " missing key 'token'")))
      else pure token

  unfoldable pub get_instance_admin_token : Instance → Exec E k String
  unfolding token_of
  get_instance_admin_token i =
      if i.status.admin_token_secret_ref == ""
      then raise (
          new_error (
            "instance "
            <> (E.quote i.meta.name <> ": admin not yet initialized (no token secret)")))
      else do
        secret ← wrap "getting admin token secret" (
            perform (
              kube_get secret_kind
                (record { namespace = i.meta.namespace; name = i.status.admin_token_secret_ref })))
        token_of i secret

  -- A failed call becomes a Warning event, and the caller goes on.
  unfoldable pub warn : String → Result (Unit {0}) → Exec E k (Unit {0})
  warn reason (ok _) = pure tt
  warn reason (err e) = emit warning reason e.message

  -- RemoveFinalizer and Update
  unfoldable pub release : String → Exec E k (Unit {0})
  release finalizer = do modify (without_finalizer E k finalizer); update

  -- AddFinalizer and Update, where the finalizer is missing
  unfoldable pub ensure_finalizer : String → Exec E k (Unit {0})
  ensure_finalizer finalizer = do
    o ← object
    if has_finalizer E k finalizer o
        then pure tt
        else do modify (with_finalizer E k finalizer); update

  -- The part of finalizeDeletion behind the read of the token.
  pub clean_or_release :
      String → (Credentials → Exec E k (Unit {0})) → Instance → Result String → Exec E k (Unit {0})
  clean_or_release finalizer clean i (ok token) = clean (bearer (instance_api_url i) token)
  clean_or_release finalizer clean i (err e) = release finalizer

  -- finalizeDeletion, where `clean` is handleDeletion.
  unfoldable pub finalize_deletion :
      String → (Credentials → Exec E k (Unit {0})) → Instance → Exec E k (Unit {0})
  unfolding clean_or_release
  finalize_deletion finalizer clean i = do
    o ← object
    if not (has_finalizer E k finalizer o)
        then pure tt
        else if i.status.phase == "Ready"
        then (do
          token ← attempt (get_instance_admin_token i)
          clean_or_release finalizer clean i token)
        else release finalizer

-- What a controller adds to the frame: where its object names the instance, its finalizer, the
-- status that it writes while it waits, the clean-up of a deleted object, and the reconciliation of
-- a live one.
pub record Handlers (E : Env) (k : Kind) : Type 0 where
  pub instance_ref : Obj k → InstanceRef
  pub finalizer : String
  pub not_ready : Instance → Obj k → Obj k
  pub no_token : Obj k → Obj k
  pub finalize : Instance → Exec E k (Unit {0})
  pub ensure : Instance → Credentials → Exec E k CtrlResult

module _ {E : Env} {k : Kind} (h : Handlers E k) where
  with_token : Instance → Result String → Exec E k CtrlResult
  with_token i (err e) = do modify h.no_token; update_status_ignored; pure retry_later
  with_token i (ok token) = do
    ensure_finalizer h.finalizer
    h.ensure i (bearer (instance_api_url i) token)

  -- A live object waits for its instance.
  unfoldable pub reconcile_live : Instance → Exec E k CtrlResult
  unfolding with_token
  reconcile_live i =
      if not (i.status.phase == "Ready")
      then (do modify (h.not_ready i); update_status_ignored; pure retry_later)
      else do token ← attempt (get_instance_admin_token i); with_token i token

  -- Deletion comes before the test of the instance's phase.
  pub with_instance : Result Instance → Exec E k CtrlResult
  with_instance (err e) = if not (is_not_found e) then raise e else do
    o ← object
    if has_finalizer E k h.finalizer o then (do release h.finalizer; pure done) else pure done
  with_instance (ok i) = do
    o ← object
    if (meta_of k o).deleting then (do h.finalize i; pure done) else reconcile_live i

  pub instance_name : Obj k → NamespacedName
  instance_name o =
      let ref = h.instance_ref o in
      record {
        namespace = if ref.namespace == "" then (meta_of k o).namespace else ref.namespace;
        name = ref.name;
      }

  pub with_object : Result (Obj k) → Exec E k CtrlResult
  unfolding with_instance instance_name
  with_object (err e) = if is_not_found e then pure done else raise e
  with_object (ok o) = do
    put o
    i ← attempt (perform (kube_get instance_kind (instance_name o)))
    with_instance i

  unfoldable pub reconcile : NamespacedName → Exec E k CtrlResult
  unfolding with_object
  reconcile request = do o ← attempt (perform (kube_get k request)); with_object o
