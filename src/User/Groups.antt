-- ===== src/User/Groups.antt =====
-- reconcileGroups
pub mod Ownership
pub mod Server
pub mod Passes
pub mod Refinement
use sonarqube_operator.Prelude.{
  ℕ, String, ◌<>◌, Bool, not, ◌&&◌, List, [], ◌∷◌, contains, length, eqb, if◌then◌else◌,
}
use sonarqube_operator.Api.{User}
use sonarqube_operator.Sonar.{get_user_groups, add_user_to_group, remove_user_from_group}
use sonarqube_operator.Exec.{
  Env, user_kind, Exec, Credentials, sonar, pure, wrap, ◌>>=◌, ◌>>◌, perform, object, modify,
}

abbrev pub with_groups : List String → User → User
with_groups groups u = record u { status = record u.status { groups = groups } }

module _ {E : Env} (c : Credentials) (login : String) where
  -- The groups asked for that the user is not in.
  unfoldable pub add_groups : (current groups : List String) → Exec E user_kind (Unit {0})
  add_groups current [] = pure tt
  add_groups current (g ∷ groups) =
      let rest = add_groups current groups in
      if contains current g then rest else do
        wrap ("adding user to group " <> E.quote g) (perform (sonar c (add_user_to_group login g)))
        rest

  -- The managed groups that are no longer asked for and that the user is in.
  unfoldable pub remove_groups :
      (current desired managed : List String) → Exec E user_kind (Unit {0})
  remove_groups current desired [] = pure tt
  remove_groups current desired (g ∷ managed) =
      let rest = remove_groups current desired managed in
      if not (contains desired g) && contains current g
      then (do
        wrap ("removing user from group " <> E.quote g)
            (perform (sonar c (remove_user_from_group login g)))
        rest)
      else rest

module _ {E : Env} (c : Credentials) where
  unfoldable pub reconcile_groups : Exec E user_kind (Unit {0})
  unfolding add_groups remove_groups
  reconcile_groups = do
    u ← object
    if eqb (length u.spec.groups) 0 && eqb (length u.status.groups) 0 then pure tt else do
      current ← wrap "getting user groups" (perform (sonar c (get_user_groups u.spec.login)))
      add_groups c u.spec.login current u.spec.groups
      remove_groups c u.spec.login current u.spec.groups u.status.groups
      modify (with_groups u.spec.groups)
