-- ===== src/Project/Permissions/Status.antt =====
-- What reconcileProjectPermissions leaves in the status.
use sonarqube_operator.Prelude.{String, ◌≡◌, Option, none, some, List, [], ◌∷◌, ◌==◌, contains}
use sonarqube_operator.Api.{Project}
use sonarqube_operator.Sonar.{
  add_user_project_permission, remove_user_project_permission, add_group_project_permission,
  remove_group_project_permission,
}
use sonarqube_operator.Exec.{Env, project_kind, St, Credentials, sonar, Error, ok, err, modify}
use sonarqube_operator.Exec.Object.{
  SameObject, SameObject-pure, SameObject-raise, SameObject-bind, SameObject-wrapped, SameObject-if,
  SameObject-server_state, Commits, Commits-modify, Commits-bind, Commits-at_object,
}
use sonarqube_operator.Project.Grants.{Grant, decode, desired_grants, sort}
use sonarqube_operator.Project.Grants.Sorted.{sort-Perm}
use sonarqube_operator.Project.Permissions.{
  remove_grant, remove_key, remove_grants, add_grant, add_key, add_grants,
  reconcile_project_permissions,
}
use sonarqube_operator.Project.Permissions.Ownership.{RangesAll}

abbrev pub with_managed : List String → Project → Project
with_managed keys p = record p { status = record p.status { managed_permissions = keys } }

module _ {E : Env} (c : Credentials) (project : String) where
  remove_grant-SameObject :
      (key : String) (g : Grant) → SameObject (remove_grant {E = E} c project key g)
  unfolding remove_grant
  remove_grant-SameObject key g =
      SameObject-if (g.kind == "user") _ _
        (SameObject-wrapped _
          (sonar c (remove_user_project_permission project g.subject g.permission)))
        (SameObject-if (g.kind == "group") _ _
          (SameObject-wrapped _
            (sonar c (remove_group_project_permission project g.subject g.permission)))
          (SameObject-pure tt))

  add_grant-SameObject : (key : String) (g : Grant) → SameObject (add_grant {E = E} c project key g)
  unfolding add_grant
  add_grant-SameObject key g =
      SameObject-if (g.kind == "user") _ _
        (SameObject-wrapped _
          (sonar c (add_user_project_permission project g.subject g.permission)))
        (SameObject-if (g.kind == "group") _ _
          (SameObject-wrapped _
            (sonar c (add_group_project_permission project g.subject g.permission)))
          (SameObject-pure tt))

  remove_key-SameObject :
      (key : String) (o : Option Grant) → SameObject (remove_key {E = E} c project key o)
  unfolding remove_key
  remove_key-SameObject key none = SameObject-pure tt
  remove_key-SameObject key (some g) = remove_grant-SameObject key g

  add_key-SameObject :
      (key : String) (o : Option Grant) → SameObject (add_key {E = E} c project key o)
  unfolding add_key
  add_key-SameObject key none = SameObject-raise _
  add_key-SameObject key (some g) = add_grant-SameObject key g

  remove_grants-SameObject :
      (desired keys : List String) → SameObject (remove_grants {E = E} c project desired keys)
  unfolding remove_grants
  remove_grants-SameObject desired [] = SameObject-pure tt
  remove_grants-SameObject desired (key ∷ keys) =
      SameObject-if (contains desired key) _ _ (remove_grants-SameObject desired keys) (
        SameObject-bind _ _ (remove_key-SameObject key (decode key))
          (λ _. remove_grants-SameObject desired keys))

  add_grants-SameObject : (keys : List String) → SameObject (add_grants {E = E} c project keys)
  unfolding add_grants
  add_grants-SameObject [] = SameObject-pure tt
  add_grants-SameObject (key ∷ keys) =
      SameObject-bind _ _ (add_key-SameObject key (decode key)) (λ _. add_grants-SameObject keys)

sorted-Commits :
    {E : Env} (desired listed : List String)
    → sort listed ≡ sort desired
    → Commits {k = project_kind}
        (with_managed (sort desired))
        (modify {E = E} (with_managed (sort listed)))
sorted-Commits desired listed e = rw e Commits-modify

-- When a walk over a map visits every entry once: if every call succeeds, the status lists the
-- desired grants in sorted order, whatever the order of the walks; if one fails, the object in
-- memory is as before, and the status still lists the grants that it listed.
pub reconcile_project_permissions-status :
    (E : Env)
    → RangesAll E
    → (c : Credentials) (s : St E project_kind)
    → let r = reconcile_project_permissions c s in
      let p = s.object in
      ((e : Error) → r.0 ≡ err e → r.1.object ≡ p)
      × (r.0 ≡ ok tt → r.1.object ≡ with_managed (sort (desired_grants p.spec.permissions [])) p)
unfolding reconcile_project_permissions
reconcile_project_permissions-status E ranges c s =
    let p = s.object in
    let desired : List String = desired_grants p.spec.permissions [] in
    let key = p.spec.key in
    Commits-at_object {f = with_managed (sort desired)} _ s (
      Commits-bind _ _ (remove_grants-SameObject c key desired p.status.managed_permissions) λ _.
        Commits-bind _ _ SameObject-server_state λ now.
          Commits-bind _ _ (add_grants-SameObject c key (E.range now desired)) λ _.
            Commits-bind _ _ SameObject-server_state λ later.
              sorted-Commits desired (E.range later desired) (sort-Perm (ranges later desired)))
