-- ===== src/User/Groups/Ownership.antt =====
-- Which calls reconcileGroups makes.
use sonarqube_operator.Prelude.{
  String, ◌≡◌, ◌≢◌, refl, true, false, not, ◌&&◌, List, [], ◌∷◌, contains, length, eqb, All,
  contains_self, arith, Bool-cases, inl, inr,
}
use sonarqube_operator.Sonar.{SonarCall, get_user_groups, add_user_to_group, remove_user_from_group}
use sonarqube_operator.Exec.{
  Env, user_kind, St, Credentials, sonar, Action, called, ok, ◌>>=◌, perform,
}
use sonarqube_operator.Exec.Rules.{Logs, Logs-pure, Logs-bind, Logs-wrapped, Logs-if, Logs-modify}
use sonarqube_operator.User.Groups.{with_groups, add_groups, remove_groups, reconcile_groups}

module _ (login : String) (current desired managed : List String) where
  abbrev pub GroupCall : SonarCall → Type 0
  GroupCall (get_user_groups l) = l ≡ login
  GroupCall (add_user_to_group l g) =
      (l ≡ login) × (contains desired g ≡ true) × (contains current g ≡ false)
  GroupCall (remove_user_from_group l g) =
      (l ≡ login)
      × (contains managed g ≡ true)
      × (contains desired g ≡ false)
      × (contains current g ≡ true)
  GroupCall _ = ⊥

  -- A read of the user's groups, the addition of a group that is asked for and lacking, or
  -- the removal of a managed group that is no longer asked for.
  abbrev pub OwnedGroups : Action → Type 0
  OwnedGroups (called (sonar _ call) _) = GroupCall call
  OwnedGroups _ = ⊥

  module _ {E : Env} (c : Credentials) where
    add_groups-Logs :
        (groups : List String)
        → All (λ g. contains desired g ≡ true) groups
        → Logs OwnedGroups (add_groups {E = E} c login current groups)
    unfolding add_groups
    add_groups-Logs [] h = Logs-pure tt
    add_groups-Logs (g ∷ groups) h =
        Logs-if (contains current g) _ _ (λ _. add_groups-Logs groups h.1)
          (λ free.
            Logs-bind _ _
              (Logs-wrapped _ (sonar c (add_user_to_group login g)) (λ b. (refl, h.0, free)))
              (λ _. add_groups-Logs groups h.1))

    remove_groups-Logs :
        (groups : List String)
        → All (λ g. contains managed g ≡ true) groups
        → Logs OwnedGroups (remove_groups {E = E} c login current desired groups)
    unfolding remove_groups
    remove_groups-Logs [] h = Logs-pure tt
    remove_groups-Logs (g ∷ groups) h =
        Logs-if (not (contains desired g) && contains current g) _ _
          (λ stale.
            Logs-bind _ _
              (Logs-wrapped _ (sonar c (remove_user_from_group login g))
                (λ b. (refl, h.0, ground arith, ground arith)))
              (λ _. remove_groups-Logs groups h.1))
          (λ _. remove_groups-Logs groups h.1)

-- Where SonarQube says that the user is in the groups `current`, the only further calls add groups
-- that the specification has and `current` lacks, and remove groups that the status lists, `current`
-- has and the specification lacks; a group assigned by other means is never removed.
pub reconcile_groups_owned :
    (E : Env) (c : Credentials) (s : St E user_kind) (current : List String) (t : E.State)
    → let u = s.object in
      let P = OwnedGroups u.spec.login current u.spec.groups u.status.groups in
      E.answer (sonar c (get_user_groups u.spec.login)) s.server ≡ (ok current, t)
      → All P s.history
      → All P (reconcile_groups c s).1.history
unfolding reconcile_groups ◌>>=◌ perform
reconcile_groups_owned E c s current t answered h =
    let u = s.object in
    elim (Bool-cases (eqb (length u.spec.groups) 0 && eqb (length u.status.groups) 0)) [
      | inl none ↦ rw none h
      | inr given ↦
          rw (given, answered)
            ((Logs-bind _ _
                (add_groups-Logs u.spec.login current u.spec.groups u.status.groups c u.spec.groups
                  (contains_self u.spec.groups))
                (λ _.
                  Logs-bind _ _
                    (remove_groups-Logs u.spec.login current u.spec.groups u.status.groups c
                      u.status.groups (contains_self u.status.groups))
                    (λ _. Logs-modify _))).at
              _ (refl, h))
    ]

nonempty : (groups : List String) → groups ≢ [] → eqb (length groups) 0 ≡ false
nonempty [] h = absurd (h refl)
nonempty (g ∷ groups) h = ground arith

add_groups_idle :
    {E : Env} (c : Credentials) (login : String) (current groups : List String) (s : St E user_kind)
    → All (λ g. contains current g ≡ true) groups
    → add_groups c login current groups s ≡ (ok tt, s)
unfolding add_groups
add_groups_idle c login current [] s h = refl
add_groups_idle c login current (g ∷ groups) s h =
    rw h.0 (add_groups_idle c login current groups s h.1)

remove_groups_idle :
    {E : Env} (c : Credentials) (login : String) (current desired groups : List String)
    (s : St E user_kind)
    → All (λ g. contains desired g ≡ true) groups
    → remove_groups c login current desired groups s ≡ (ok tt, s)
unfolding remove_groups
remove_groups_idle c login current desired [] s h = refl
remove_groups_idle c login current desired (g ∷ groups) s h =
    rw h.0 (remove_groups_idle c login current desired groups s h.1)

-- When the user is in every group of the specification and the status lists no other group, reading
-- the groups is the only call.
pub reconcile_groups_idle :
    (E : Env) (c : Credentials) (s : St E user_kind) (current : List String) (t : E.State)
    → let u = s.object in
      let get = sonar c (get_user_groups u.spec.login) in
      u.spec.groups ≢ []
      → All (λ g. contains current g ≡ true) u.spec.groups
      → All (λ g. contains u.spec.groups g ≡ true) u.status.groups
      → E.answer get s.server ≡ (ok current, t)
      → reconcile_groups c s ≡ (
        ok tt,
        record {
          server = t;
          object = with_groups u.spec.groups u;
          history = called get true ∷ s.history;
        },
      )
unfolding reconcile_groups ◌>>=◌ perform
reconcile_groups_idle E c s current t given settled known answered =
    let u = s.object in
    rw
      (
        nonempty u.spec.groups given,
        answered,
        add_groups_idle c u.spec.login current u.spec.groups _ settled,
        remove_groups_idle c u.spec.login current u.spec.groups u.status.groups _ known,
      )
      refl
