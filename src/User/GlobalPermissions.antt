-- ===== src/User/GlobalPermissions.antt =====
-- reconcileUserGlobalPermissions
pub mod Ownership
use sonarqube_operator.Prelude.{String, ◌<>◌, Bool, List, [], ◌∷◌, contains, if◌then◌else◌}
use sonarqube_operator.Api.{User}
use sonarqube_operator.Sonar.{add_user_global_permission, remove_user_global_permission}
use sonarqube_operator.Exec.{
  Env, user_kind, Exec, Credentials, sonar, pure, wrap, ◌>>=◌, ◌>>◌, perform, object, modify,
}

abbrev pub with_permissions : List String → User → User
with_permissions permissions u = record u {
  status = record u.status { managed_global_permissions = permissions };
}

module _ {E : Env} (c : Credentials) (login : String) where
  unfoldable pub remove_permissions : (desired managed : List String) → Exec E user_kind (Unit {0})
  remove_permissions desired [] = pure tt
  remove_permissions desired (p ∷ managed) =
      let rest = remove_permissions desired managed in
      if contains desired p then rest else do
        wrap ("removing global permission " <> E.quote p)
            (perform (sonar c (remove_user_global_permission login p)))
        rest

  -- What the status lists is not granted again.
  unfoldable pub grant_permissions : (managed desired : List String) → Exec E user_kind (Unit {0})
  grant_permissions managed [] = pure tt
  grant_permissions managed (p ∷ desired) =
      let rest = grant_permissions managed desired in
      if contains managed p then rest else do
        wrap ("granting global permission " <> E.quote p)
            (perform (sonar c (add_user_global_permission login p)))
        rest

module _ {E : Env} (c : Credentials) where
  unfoldable pub reconcile_user_global_permissions : Exec E user_kind (Unit {0})
  unfolding remove_permissions grant_permissions
  reconcile_user_global_permissions = do
    u ← object
    remove_permissions c u.spec.login u.spec.global_permissions u.status.managed_global_permissions
    grant_permissions c u.spec.login u.status.managed_global_permissions u.spec.global_permissions
    modify (with_permissions u.spec.global_permissions)
