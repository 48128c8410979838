-- ===== src/User/GlobalPermissions/Ownership.antt =====
-- Which calls reconcileUserGlobalPermissions makes.
use sonarqube_operator.Prelude.{
  String, ◌≡◌, refl, true, false, List, [], ◌∷◌, contains, All, contains_self,
}
use sonarqube_operator.Sonar.{SonarCall, add_user_global_permission, remove_user_global_permission}
use sonarqube_operator.Exec.{Env, user_kind, St, Credentials, sonar, Action, called, ok, err, Error}
use sonarqube_operator.Exec.Rules.{
  Logs, Logs-pure, Logs-bind, Logs-wrapped, Logs-if, Logs-modify, Logs-at_object,
}
use sonarqube_operator.Exec.Object.{
  SameObject, SameObject-pure, SameObject-bind, SameObject-wrapped, SameObject-if, Commits-modify,
  Commits-bind, Commits-at_object,
}
use sonarqube_operator.User.GlobalPermissions.{
  with_permissions, remove_permissions, grant_permissions, reconcile_user_global_permissions,
}

module _ (login : String) (desired managed : List String) where
  abbrev pub PermissionCall : SonarCall → Type 0
  PermissionCall (remove_user_global_permission l p) =
      (l ≡ login) × (contains managed p ≡ true) × (contains desired p ≡ false)
  PermissionCall (add_user_global_permission l p) =
      (l ≡ login) × (contains desired p ≡ true) × (contains managed p ≡ false)
  PermissionCall _ = ⊥

  -- The removal of a managed permission that is no longer asked for, or the grant of one that is
  -- asked for and not managed yet.
  abbrev pub OwnedPermissions : Action → Type 0
  OwnedPermissions (called (sonar _ call) _) = PermissionCall call
  OwnedPermissions _ = ⊥

  module _ {E : Env} (c : Credentials) where
    remove_permissions-Logs :
        (ps : List String)
        → All (λ p. contains managed p ≡ true) ps
        → Logs OwnedPermissions (remove_permissions {E = E} c login desired ps)
    unfolding remove_permissions
    remove_permissions-Logs [] h = Logs-pure tt
    remove_permissions-Logs (p ∷ ps) h =
        Logs-if (contains desired p) _ _ (λ _. remove_permissions-Logs ps h.1)
          (λ free.
            Logs-bind _ _
              (Logs-wrapped _ (sonar c (remove_user_global_permission login p))
                (λ b. (refl, h.0, free)))
              (λ _. remove_permissions-Logs ps h.1))

    grant_permissions-Logs :
        (ps : List String)
        → All (λ p. contains desired p ≡ true) ps
        → Logs OwnedPermissions (grant_permissions {E = E} c login managed ps)
    unfolding grant_permissions
    grant_permissions-Logs [] h = Logs-pure tt
    grant_permissions-Logs (p ∷ ps) h =
        Logs-if (contains managed p) _ _ (λ _. grant_permissions-Logs ps h.1)
          (λ free.
            Logs-bind _ _
              (Logs-wrapped _ (sonar c (add_user_global_permission login p))
                (λ b. (refl, h.0, free)))
              (λ _. grant_permissions-Logs ps h.1))

    remove_permissions-SameObject :
        (ps : List String) → SameObject (remove_permissions {E = E} c login desired ps)
    unfolding remove_permissions
    remove_permissions-SameObject [] = SameObject-pure tt
    remove_permissions-SameObject (p ∷ ps) =
        SameObject-if (contains desired p) _ _ (remove_permissions-SameObject ps) (
          SameObject-bind _ _
            (SameObject-wrapped _ (sonar c (remove_user_global_permission login p)))
            (λ _. remove_permissions-SameObject ps))

    grant_permissions-SameObject :
        (ps : List String) → SameObject (grant_permissions {E = E} c login managed ps)
    unfolding grant_permissions
    grant_permissions-SameObject [] = SameObject-pure tt
    grant_permissions-SameObject (p ∷ ps) =
        SameObject-if (contains managed p) _ _ (grant_permissions-SameObject ps) (
          SameObject-bind _ _ (SameObject-wrapped _ (sonar c (add_user_global_permission login p)))
            (λ _. grant_permissions-SameObject ps))

-- The only calls are removals of permissions that the status lists and the specification lacks, and
-- grants of permissions that the specification has and the status lacks; so a permission that is in
-- both is neither removed nor granted again.
pub reconcile_user_global_permissions_owned :
    (E : Env) (c : Credentials) (s : St E user_kind)
    → let u = s.object in
      let P =
        OwnedPermissions u.spec.login u.spec.global_permissions
          u.status.managed_global_permissions in
      All P s.history → All P (reconcile_user_global_permissions c s).1.history
unfolding reconcile_user_global_permissions
reconcile_user_global_permissions_owned E c s h =
    let u = s.object in
    let desired : List String = u.spec.global_permissions in
    let managed : List String = u.status.managed_global_permissions in
    let login = u.spec.login in
    Logs-at_object {P = OwnedPermissions login desired managed} _ s
      (Logs-bind _ _
        (remove_permissions-Logs login desired managed c managed (contains_self managed))
        (λ _.
          Logs-bind _ _
            (grant_permissions-Logs login desired managed c desired (contains_self desired))
            (λ _. Logs-modify _)))
      h

-- When a call fails, the object in memory is as before, and the status still lists every permission that
-- the operator owns; when none fails, the status lists the permissions of the specification.
pub reconcile_user_global_permissions-status :
    (E : Env) (c : Credentials) (s : St E user_kind)
    → let r = reconcile_user_global_permissions c s in
      let u = s.object in
      ((e : Error) → r.0 ≡ err e → r.1.object ≡ u)
      × (r.0 ≡ ok tt → r.1.object ≡ with_permissions u.spec.global_permissions u)
unfolding reconcile_user_global_permissions
reconcile_user_global_permissions-status E c s =
    let u = s.object in
    let desired : List String = u.spec.global_permissions in
    let managed : List String = u.status.managed_global_permissions in
    let login = u.spec.login in
    Commits-at_object {f = with_permissions desired} _ s (
      Commits-bind _ _ (remove_permissions-SameObject login desired managed c managed) (λ _.
        Commits-bind _ _ (grant_permissions-SameObject login desired managed c desired)
          (λ _. Commits-modify)))
