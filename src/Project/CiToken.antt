-- ===== src/Project/CiToken.antt =====
-- reconcileCIToken
pub mod Rotation
use sonarqube_operator.Prelude.{
  ℕ, String, ◌<>◌, Bool, true, false, not, ◌&&◌, Option, none, some, List, [], ◌∷◌, ◌==◌,
  if◌then◌else◌,
}
use sonarqube_operator.Api.{Project, Instance, NamespacedName, ObjectMeta, Secret}
use sonarqube_operator.Sonar.{revoke_token, generate_token}
use sonarqube_operator.Exec.{
  Env, project_kind, secret_kind, Exec, Credentials, sonar, kube_get, kube_patch, kube_delete,
  kube_create, normal, Error, Result, ok, err, pure, raise, lift, attempt, wrap, wrap_error, ◌>>=◌,
  ◌>>◌, perform, emit, object, put, modify, server_state, is_not_found,
}
use sonarqube_operator.Controller.{value_at, new_object_meta, expiration}

-- delete(m, key)
unfoldable pub remove_key : String → List (String × String) → List (String × String)
remove_key key [] = []
remove_key key ((j, v) ∷ rest) =
    let others = remove_key key rest in if j == key then others else (j, v) ∷ others

abbrev pub rotate_annotation : String
rotate_annotation = "sonarqube.io/rotate-token"

abbrev pub without_annotation : Project → Project
without_annotation p = record p {
  meta = record p.meta { annotations = remove_key rotate_annotation p.meta.annotations };
}

abbrev pub secret_name : Project → String
secret_name p =
    if p.spec.ci_token.secret_name == ""
    then p.meta.name <> "-ci-token"
    else p.spec.ci_token.secret_name

abbrev pub token_name : Project → Instance → String
token_name p i = p.spec.key <> ("-ci-" <> i.meta.name)

abbrev pub wants_rotation : Project → Bool
wants_rotation p = value_at rotate_annotation p.meta.annotations == "true"

abbrev pub with_token_secret : String → Project → Project
with_token_secret secret p = record p { status = record p.status { token_secret_ref = secret } }

abbrev pub secret_key : Project → NamespacedName
secret_key p = record { namespace = p.meta.namespace; name = secret_name p }

module _ {E : Env} where
  -- The annotation is cleared before the token is touched.
  clear_annotation : Bool → Exec E project_kind (Unit {0})
  unfolding remove_key
  clear_annotation false = pure tt
  clear_annotation true = do
    old ← object
    modify without_annotation
    p ←
        wrap "clearing rotation annotation"
          (perform (kube_patch project_kind old (without_annotation old)))
    put p

  old_secret_deleted : Result (Unit {0}) → Exec E project_kind (Unit {0})
  old_secret_deleted (ok _) = pure tt
  old_secret_deleted (err e) =
      if not (is_not_found e) then raise (wrap_error "deleting old CI token secret" e) else pure tt

  delete_old_secret : Result Secret → Exec E project_kind (Unit {0})
  unfolding old_secret_deleted
  delete_old_secret (err e) = pure tt
  delete_old_secret (ok secret) = do
    r ← attempt (perform (kube_delete secret_kind secret))
    old_secret_deleted r

  -- A fresh token is generated and stored in a new Secret owned by the project.
  issue : Credentials → (token secret : String) → Exec E project_kind (Unit {0})
  issue c token secret = do
    p ← object
    now ← server_state
    t ← wrap "generating CI token" (
        perform (
          sonar c (
            generate_token token "PROJECT_ANALYSIS_TOKEN" p.spec.key
              (expiration E now p.spec.ci_token.expires_in))))
    m ← lift (E.set_controller_reference p.meta (new_object_meta secret p.meta.namespace))
    wrap "creating CI token secret"
        (perform (kube_create secret_kind (record { meta = m; entries = ("token", t.token) ∷ [] })))
    modify (with_token_secret secret)
    emit normal "TokenRotated" ("CI token rotated and stored in Secret " <> E.quote secret)

  -- The rotation itself; `found` is the outcome of reading the Secret.
  unfoldable pub rotate :
      Credentials → (token secret : String) → Result Secret → Bool → Exec E project_kind (Unit {0})
  unfolding clear_annotation delete_old_secret issue
  rotate c token secret found forced = do
    clear_annotation forced
    attempt (perform (sonar c (revoke_token token)))
    delete_old_secret found
    issue c token secret

  secret_read :
      Credentials → (token secret : String) → Bool → Result Secret → Exec E project_kind (Unit {0})
  unfolding rotate
  secret_read c token secret forced (err e) =
      if not (is_not_found e)
      then raise (wrap_error "checking CI token secret" e)
      else rotate c token secret (err e) forced
  secret_read c token secret forced (ok found) =
      if forced then rotate c token secret (ok found) true else modify (with_token_secret secret)

  unfoldable pub reconcile_ci_token : Instance → Credentials → Exec E project_kind (Unit {0})
  unfolding secret_read value_at
  reconcile_ci_token i c = do
    p ← object
    found ← attempt (perform (kube_get secret_kind (secret_key p)))
    secret_read c (token_name p i) (secret_name p) (wants_rotation p) found
