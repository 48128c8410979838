-- ===== src/User.antt =====
-- SonarQubeUserReconciler (internal/controller/sonarqubeuser_controller.go). The children hold the
-- parts of reconcileUser; this file composes them.
pub mod Groups
pub mod Tokens
pub mod GlobalPermissions
pub mod Deletion
use sonarqube_operator.Prelude.{
  String, ◌<>◌, Bool, true, false, not, ◌||◌, Option, none, some, ◌==◌, if◌then◌else◌,
}
use sonarqube_operator.Api.{Instance, User, Secret, NamespacedName}
use sonarqube_operator.Sonar.{
  RemoteUser, get_user, create_user, update_user, deactivate_user, update_user_scm_accounts,
}
use sonarqube_operator.Exec.{
  Env, user_kind, secret_kind, Exec, Credentials, sonar, kube_get, normal, warning, Error, Result,
  ok, err, pure, raise, attempt, wrap, wrap_error, ◌>>=◌, ◌>>◌, perform, emit, object, modify,
  update_status, update_status_ignored, is_sonar_not_found,
}
use sonarqube_operator.Controller
use sonarqube_operator.Controller.{
  CtrlResult, done, Handlers, has_finalizer, release, finalize_deletion, condition_for, new_error,
  value_at, warn,
}
use Groups.{reconcile_groups}
use Tokens.{reconcile_user_tokens}
use GlobalPermissions.{reconcile_user_global_permissions}

abbrev pub user_finalizer : String
user_finalizer = "sonarqube.io/user-finalizer"

abbrev with_phase : String → User → User
with_phase phase u = record u { status = record u.status { phase = phase } }

-- Sets the Ready condition.
abbrev with_ready : Env → Bool → String → String → User → User
with_ready E status reason message u = record u {
  status = record u.status {
    conditions =
        E.set_status_condition u.status.conditions
          (condition_for u.meta "Ready" status reason message);
  };
}

module _ {E : Env} where
  password_in : String → Secret → Exec E user_kind String
  unfolding value_at
  password_in name secret =
      let password = value_at "password" secret.entries in
      if password == ""
      then raise (new_error ("password secret " <> (E.quote name <> " missing key 'password'")))
      else pure password

  password_from : User → Option String → Exec E user_kind String
  unfolding password_in
  password_from u none = pure ""
  password_from u (some name) = do
    secret ←
        wrap ("getting password secret " <> E.quote name)
          (perform (kube_get secret_kind (record { namespace = u.meta.namespace; name = name })))
    password_in name secret

  unfoldable pub read_password_secret : Exec E user_kind String
  unfolding password_from
  read_password_secret = do u ← object; password_from u u.spec.password_secret_ref

  -- The phase Failed with its condition, the status and a Warning event.
  fail_with : String → Error → Exec E user_kind (Unit {0})
  fail_with reason e = do
    modify (λ u. with_ready E false reason e.message (with_phase "Failed" u))
    update_status_ignored
    emit warning reason e.message

  finish : Bool → String → Exec E user_kind CtrlResult
  finish active suffix = do
    modify (λ u. record u { status = record u.status { phase = "Ready"; active = active } })
    modify (λ u. with_ready E true "Ready" ("User " <> (E.quote u.spec.login <> suffix)) u)
    update_status
    pure done

  sync_scm_accounts : Credentials → Exec E user_kind (Unit {0})
  unfolding warn
  sync_scm_accounts c = do
    u ← object
    r ← attempt (perform (sonar c (update_user_scm_accounts u.spec.login u.spec.scm_accounts)))
    warn "ScmAccountsUpdateFailed" r

  created : Credentials → Result (Unit {0}) → Exec E user_kind CtrlResult
  unfolding fail_with finish sync_scm_accounts
  created c (err e) = do fail_with "CreateFailed" e; raise (wrap_error "creating user" e)
  created c (ok _) = do
    u ← object
    emit normal "Created" ("User " <> (E.quote u.spec.login <> " created in SonarQube"))
    reconcile_groups c
    sync_scm_accounts c
    finish true " created and active"

  with_password : Credentials → Result String → Exec E user_kind CtrlResult
  unfolding created fail_with
  with_password c (err e) = do fail_with "PasswordSecretError" e; raise e
  with_password c (ok password) = do
    u ← object
    r ← attempt (perform (sonar c (create_user u.spec.login u.spec.name u.spec.email password)))
    created c r

  unfoldable pub create : Credentials → Exec E user_kind CtrlResult
  unfolding with_password read_password_secret
  create c = do password ← attempt read_password_secret; with_password c password

  sync_profile : Credentials → RemoteUser → Exec E user_kind (Unit {0})
  sync_profile c existing = do
    u ← object
    if not (existing.name == u.spec.name) || not (existing.email == u.spec.email)
        then (do
          wrap "updating user"
              (perform (sonar c (update_user u.spec.login u.spec.name u.spec.email)))
          emit normal "Updated"
              ("User " <> (E.quote u.spec.login <> " updated (name/email synced)")))
        else pure tt

  found : Credentials → Result RemoteUser → Exec E user_kind CtrlResult
  unfolding create sync_profile sync_scm_accounts finish warn
  found c (err e) =
      if not (is_sonar_not_found e) then raise (wrap_error "getting user" e) else create c
  found c (ok existing) = do
    sync_profile c existing
    reconcile_groups c
    sync_scm_accounts c
    tokens ← attempt (reconcile_user_tokens c)
    warn "TokensUpdateFailed" tokens
    permissions ← attempt (reconcile_user_global_permissions c)
    warn "GlobalPermissionsUpdateFailed" permissions
    finish existing.active " is active in SonarQube"

  unfoldable pub reconcile_user : Credentials → Exec E user_kind CtrlResult
  unfolding found
  reconcile_user c = do
    u ← object
    existing ← attempt (perform (sonar c (get_user u.spec.login)))
    found c existing

  deactivated : Result (Unit {0}) → Exec E user_kind (Unit {0})
  deactivated (err e) = if is_sonar_not_found e then pure tt else do
    u ← object
    emit warning "DeactivateWarning" (
        "Could not deactivate user "
        <> (E.quote u.spec.login <> (" in SonarQube (continuing cleanup): " <> e.message)))
  deactivated (ok _) = do
    u ← object
    emit normal "Deactivated" ("User " <> (E.quote u.spec.login <> " deactivated in SonarQube"))

  unfoldable pub handle_deletion : Credentials → Exec E user_kind (Unit {0})
  unfolding deactivated
  handle_deletion c = do
    u ← object
    if not (has_finalizer E user_kind user_finalizer u) then pure tt else do
      r ← attempt (perform (sonar c (deactivate_user u.spec.login)))
      deactivated r
      release user_finalizer

-- finalizeDeletion
abbrev pub finalize_user : {E : Env} → Instance → Exec E user_kind (Unit {0})
finalize_user i = finalize_deletion user_finalizer handle_deletion i

abbrev pub handlers : (E : Env) → Handlers E user_kind
handlers E = record {
  instance_ref = λ u. u.spec.instance_ref;
  finalizer = user_finalizer;
  not_ready = λ i u.
      with_ready E false "InstanceNotReady"
        ("SonarQubeInstance " <> (E.quote i.meta.name <> " is not ready")) (with_phase "Pending" u);
  no_token = with_phase "Pending";
  finalize = finalize_user;
  ensure = λ i c. reconcile_user c;
}

unfoldable pub reconcile : {E : Env} → NamespacedName → Exec E user_kind CtrlResult
reconcile {E} request = Controller.reconcile (handlers E) request
