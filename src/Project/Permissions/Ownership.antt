-- ===== src/Project/Permissions/Ownership.antt =====
-- Which calls reconcileProjectPermissions makes.
use sonarqube_operator.Prelude.{
  String, ◌≡◌, refl, sym, ◌∙◌, true, false, Option, none, some, List, [], ◌∷◌, ◌==◌, eq_iff,
  contains, All, All_mono, contains_self, contains-Perm,
}
use mathlib.Core.Path.{subst}
use mathlib.Core.List.{Perm}
use sonarqube_operator.Sonar.{
  SonarCall, add_user_project_permission, remove_user_project_permission,
  add_group_project_permission, remove_group_project_permission,
}
use sonarqube_operator.Exec.{
  Env, project_kind, St, Credentials, sonar, Action, called, server_state,
}
use sonarqube_operator.Exec.Rules.{
  Logs, Logs-pure, Logs-raise, Logs-bind, Logs-wrapped, Logs-if, Logs-at_object, Logs-server_state,
  Logs-modify,
}
use sonarqube_operator.Project.Grants.{Grant, decode, desired_grants}
use sonarqube_operator.Project.Permissions.{
  remove_grant, remove_key, remove_grants, add_grant, add_key, add_grants,
  reconcile_project_permissions,
}

-- Go walks every entry of a map once, in some order.
abbrev pub RangesAll : Env → Type 0
RangesAll E = (s : E.State) (l : List String) → Perm (E.range s l) l

module _ (project : String) (desired managed : List String) where
  -- The grant is one that the status holds and the specification no longer asks for.
  abbrev pub Revocable : Grant → Type 0
  Revocable g =
      (key : String) × (contains managed key ≡ true)
      × (contains desired key ≡ false)
      × (decode key ≡ some g)

  -- The grant is one that the specification asks for.
  abbrev pub Wanted : Grant → Type 0
  Wanted g = (key : String) × (contains desired key ≡ true) × (decode key ≡ some g)

  abbrev grant_for : String → String → String → Grant
  grant_for kind subject permission = record {
    kind = kind;
    subject = subject;
    permission = permission;
  }

  abbrev pub OwnedCall : SonarCall → Type 0
  OwnedCall (remove_user_project_permission p subject permission) =
      (p ≡ project) × Revocable (grant_for "user" subject permission)
  OwnedCall (remove_group_project_permission p subject permission) =
      (p ≡ project) × Revocable (grant_for "group" subject permission)
  OwnedCall (add_user_project_permission p subject permission) =
      (p ≡ project) × Wanted (grant_for "user" subject permission)
  OwnedCall (add_group_project_permission p subject permission) =
      (p ≡ project) × Wanted (grant_for "group" subject permission)
  OwnedCall _ = ⊥

  -- Nothing but the revocation of an owned grant and the grant of a wanted one.
  abbrev pub Owned : Action → Type 0
  Owned (called (sonar _ c) _) = OwnedCall c
  Owned _ = ⊥

  user_grant :
      (R : Grant → Type 0) (g : Grant)
      → (g.kind == "user") ≡ true
      → R g
      → R (grant_for "user" g.subject g.permission)
  user_grant R g user r =
      subst (λ k. R (grant_for k g.subject g.permission)) ((eq_iff g.kind "user").0 user) r

  group_grant :
      (R : Grant → Type 0) (g : Grant)
      → (g.kind == "group") ≡ true
      → R g
      → R (grant_for "group" g.subject g.permission)
  group_grant R g group r =
      subst (λ k. R (grant_for k g.subject g.permission)) ((eq_iff g.kind "group").0 group) r

  module _ {E : Env} (c : Credentials) where
    remove_grant-Logs :
        (key : String) (g : Grant) → Revocable g → Logs Owned (remove_grant {E = E} c project key g)
    unfolding remove_grant
    remove_grant-Logs key g r =
        Logs-if (g.kind == "user") _ _
          (λ user.
            Logs-wrapped _ (sonar c (remove_user_project_permission project g.subject g.permission))
              (λ b. (refl, user_grant Revocable g user r)))
          (λ other.
            Logs-if (g.kind == "group") _ _
              (λ group.
                Logs-wrapped _
                  (sonar c (remove_group_project_permission project g.subject g.permission))
                  (λ b. (refl, group_grant Revocable g group r)))
              (λ neither. Logs-pure tt))

    add_grant-Logs :
        (key : String) (g : Grant) → Wanted g → Logs Owned (add_grant {E = E} c project key g)
    unfolding add_grant
    add_grant-Logs key g r =
        Logs-if (g.kind == "user") _ _
          (λ user.
            Logs-wrapped _ (sonar c (add_user_project_permission project g.subject g.permission))
              (λ b. (refl, user_grant Wanted g user r)))
          (λ other.
            Logs-if (g.kind == "group") _ _
              (λ group.
                Logs-wrapped _
                  (sonar c (add_group_project_permission project g.subject g.permission))
                  (λ b. (refl, group_grant Wanted g group r)))
              (λ neither. Logs-pure tt))

    remove_key-Logs :
        (key : String) (o : Option Grant)
        → ((g : Grant) → o ≡ some g → Revocable g)
        → Logs Owned (remove_key {E = E} c project key o)
    unfolding remove_key
    remove_key-Logs key none r = Logs-pure tt
    remove_key-Logs key (some g) r = remove_grant-Logs key g (r g refl)

    add_key-Logs :
        (key : String) (o : Option Grant)
        → ((g : Grant) → o ≡ some g → Wanted g)
        → Logs Owned (add_key {E = E} c project key o)
    unfolding add_key
    add_key-Logs key none r = Logs-raise _
    add_key-Logs key (some g) r = add_grant-Logs key g (r g refl)

    remove_grants-Logs :
        (keys : List String)
        → All (λ k. contains managed k ≡ true) keys
        → Logs Owned (remove_grants {E = E} c project desired keys)
    unfolding remove_grants
    remove_grants-Logs [] h = Logs-pure tt
    remove_grants-Logs (key ∷ keys) h =
        Logs-if (contains desired key) _ _ (λ _. remove_grants-Logs keys h.1)
          (λ d.
            Logs-bind (remove_key c project key (decode key)) _
              (remove_key-Logs key (decode key) (λ g e. (key, h.0, d, e)))
              (λ _. remove_grants-Logs keys h.1))

    add_grants-Logs :
        (keys : List String)
        → All (λ k. contains desired k ≡ true) keys
        → Logs Owned (add_grants {E = E} c project keys)
    unfolding add_grants
    add_grants-Logs [] h = Logs-pure tt
    add_grants-Logs (key ∷ keys) h =
        Logs-bind (add_key c project key (decode key)) _
          (add_key-Logs key (decode key) (λ g e. (key, h.0, e))) (λ _. add_grants-Logs keys h.1)

-- When a walk over a map visits every entry once, the only calls are removals of grants that the
-- status lists and the specification does not ask for, and additions of grants that it asks for,
-- all on the project's own key; so a grant that the status does not list is never removed.
pub reconcile_project_permissions_owned :
    (E : Env)
    → RangesAll E
    → (c : Credentials) (s : St E project_kind)
    → let p = s.object in
      let P =
        Owned p.spec.key (desired_grants p.spec.permissions []) p.status.managed_permissions in
      All P s.history → All P (reconcile_project_permissions c s).1.history
unfolding reconcile_project_permissions
reconcile_project_permissions_owned E ranges c s h =
    let p = s.object in
    let desired : List String = desired_grants p.spec.permissions [] in
    let managed : List String = p.status.managed_permissions in
    let key = p.spec.key in
    let ordered : (t : E.State) → All (λ k. contains desired k ≡ true) (E.range t desired) = λ t.
      All_mono (E.range t desired) (λ k m. sym (contains-Perm k (ranges t desired)) ∙ m)
        (contains_self (E.range t desired)) in
    Logs-at_object {P = Owned key desired managed} _ s
      (Logs-bind (remove_grants c key desired managed) _
        (remove_grants-Logs key desired managed c managed (contains_self managed))
        (λ _. Logs-bind server_state _ Logs-server_state (λ now.
          Logs-bind (add_grants c key (E.range now desired)) _
            (add_grants-Logs key desired managed c (E.range now desired) (ordered now))
            (λ _. Logs-bind server_state _ Logs-server_state (λ later. Logs-modify _)))))
      h
