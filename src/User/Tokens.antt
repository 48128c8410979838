-- ===== src/User/Tokens.antt =====
-- reconcileUserTokens
pub mod Ownership
pub mod Missing
use sonarqube_operator.Prelude.{
  ℕ, String, ◌<>◌, Bool, not, Option, none, some, List, [], ◌∷◌, map, contains, ◌==◌, if◌then◌else◌,
}
use sonarqube_operator.Api.{User, UserToken, Secret, NamespacedName, ObjectMeta}
use sonarqube_operator.Sonar.{generate_user_token, revoke_user_token}
use sonarqube_operator.Exec.{
  Env, user_kind, secret_kind, Exec, Credentials, sonar, kube_get, kube_create, Result, ok, err,
  pure, raise, lift, attempt, wrap, wrap_error, ◌>>=◌, ◌>>◌, perform, object, modify, server_state,
  is_not_found,
}
use sonarqube_operator.Controller.{new_object_meta, expiration}

abbrev pub token_names : List UserToken → List String
token_names = map (λ t. t.name)

abbrev pub with_tokens : List String → User → User
with_tokens names u = record u { status = record u.status { managed_tokens = names } }

abbrev pub token_type : UserToken → String
token_type t = if t.type == "" then "USER_TOKEN" else t.type

module _ {E : Env} (c : Credentials) where
  -- Revokes the managed tokens that the specification no longer has.
  unfoldable pub revoke_tokens :
      (login : String) (desired managed : List String) → Exec E user_kind (Unit {0})
  revoke_tokens login desired [] = pure tt
  revoke_tokens login desired (name ∷ managed) =
      let rest = revoke_tokens login desired managed in
      if contains desired name then rest else do
        wrap ("revoking token " <> E.quote name) (perform (sonar c (revoke_user_token login name)))
        rest

  -- Generates a token whose Secret is missing, and stores it.
  materialize : User → UserToken → Result Secret → Exec E user_kind (Unit {0})
  materialize u t (ok _) = pure tt
  materialize u t (err e) =
      if not (is_not_found e)
      then raise (wrap_error ("checking secret " <> E.quote t.secret_name) e)
      else do
        now ← server_state
        token ← wrap ("generating token " <> E.quote t.name) (
            perform (
              sonar c (
                generate_user_token u.spec.login t.name (token_type t)
                  (expiration E now t.expires_in))))
        m ←
            lift
              (E.set_controller_reference u.meta (new_object_meta t.secret_name u.meta.namespace))
        wrap ("creating secret " <> E.quote t.secret_name) (
            perform (
              kube_create secret_kind (record { meta = m; entries = ("token", token.token) ∷ [] })))
        pure tt

  unfoldable pub generate_tokens : User → List UserToken → Exec E user_kind (Unit {0})
  unfolding materialize
  generate_tokens u [] = pure tt
  generate_tokens u (t ∷ tokens) = do
    r ← attempt (
        perform
          (kube_get secret_kind (record { namespace = u.meta.namespace; name = t.secret_name })))
    materialize u t r
    generate_tokens u tokens

  unfoldable pub reconcile_user_tokens : Exec E user_kind (Unit {0})
  unfolding revoke_tokens generate_tokens
  reconcile_user_tokens = do
    u ← object
    revoke_tokens u.spec.login (token_names u.spec.tokens) u.status.managed_tokens
    generate_tokens u u.spec.tokens
    modify (with_tokens (token_names u.spec.tokens))
