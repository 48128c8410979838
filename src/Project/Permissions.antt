-- ===== src/Project/Permissions.antt =====
-- reconcileProjectPermissions
pub mod Ownership
pub mod Status
pub mod Order
use sonarqube_operator.Prelude.{
  String, ◌<>◌, Bool, Option, none, some, List, [], ◌∷◌, ◌==◌, contains, if◌then◌else◌,
}
use sonarqube_operator.Sonar.{
  SonarCall, add_user_project_permission, remove_user_project_permission,
  add_group_project_permission, remove_group_project_permission,
}
use sonarqube_operator.Exec.{
  Env, project_kind, Exec, Credentials, sonar, pure, raise, wrap, ◌>>=◌, ◌>>◌, perform, object,
  modify, server_state,
}
use sonarqube_operator.Controller.{new_error}
use sonarqube_operator.Project.Grants.{Grant, decode, desired_grants, sort}

module _ {E : Env} (c : Credentials) (project : String) where
  -- switch kind { case user: …; case group: … }, which does nothing for another kind.
  unfoldable pub remove_grant : String → Grant → Exec E project_kind (Unit {0})
  remove_grant key g =
      let prefix = "removing " <> (g.kind <> (" grant " <> E.quote key)) in
      if g.kind == "user"
      then wrap prefix
          (perform (sonar c (remove_user_project_permission project g.subject g.permission)))
      else if g.kind == "group"
      then wrap prefix
          (perform (sonar c (remove_group_project_permission project g.subject g.permission)))
      else pure tt

  unfoldable pub add_grant : String → Grant → Exec E project_kind (Unit {0})
  add_grant key g =
      let prefix = "adding " <> (g.kind <> (" grant " <> E.quote key)) in
      if g.kind == "user"
      then wrap prefix
          (perform (sonar c (add_user_project_permission project g.subject g.permission)))
      else if g.kind == "group"
      then wrap prefix
          (perform (sonar c (add_group_project_permission project g.subject g.permission)))
      else pure tt

  -- A managed key of another form than kind:subject:permission is skipped.
  remove_key : String → Option Grant → Exec E project_kind (Unit {0})
  remove_key key none = pure tt
  remove_key key (some g) = remove_grant key g

  unfoldable pub remove_grants : (desired managed : List String) → Exec E project_kind (Unit {0})
  unfolding remove_key
  remove_grants desired [] = pure tt
  remove_grants desired (key ∷ managed) =
      let rest = remove_grants desired managed in
      if contains desired key then rest else (do remove_key key (decode key); rest)

  -- parts[0], parts[1] and parts[2] panic where a key has fewer parts.
  add_key : String → Option Grant → Exec E project_kind (Unit {0})
  add_key key none = raise (new_error "panic: index out of range")
  add_key key (some g) = add_grant key g

  unfoldable pub add_grants : List String → Exec E project_kind (Unit {0})
  unfolding add_key
  add_grants [] = pure tt
  add_grants (key ∷ keys) = do add_key key (decode key); add_grants keys

module _ {E : Env} (c : Credentials) where
  -- Go walks the map of desired grants twice, each time in an order of its own; the list that the
  -- status keeps is sorted.
  unfoldable pub reconcile_project_permissions : Exec E project_kind (Unit {0})
  unfolding remove_grants add_grants desired_grants sort
  reconcile_project_permissions = do
    p ← object
    let desired = desired_grants p.spec.permissions []
    remove_grants c p.spec.key desired p.status.managed_permissions
    now ← server_state
    add_grants c p.spec.key (E.range now desired)
    later ← server_state
    modify (λ q. record q {
      status = record q.status { managed_permissions = sort (E.range later desired) };
    })
