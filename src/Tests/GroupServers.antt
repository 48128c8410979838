-- ===== src/Tests/GroupServers.antt =====
-- A SonarQube that keeps the groups of one user, and a run against it.
use mathlib.Core.Path.{subst}
use sonarqube_operator.Prelude.{
  String, ◌≡◌, refl, sym, ap, ◌∙◌, Bool, true, false, not, ◌&&◌, ◌||◌, List, [], ◌∷◌, ◌==◌, eq_iff,
  contains, Bool-cases, inl, inr, arith, if◌then◌else◌,
}
use sonarqube_operator.Sonar.{get_user_groups, add_user_to_group, remove_user_from_group}
use sonarqube_operator.Exec.{
  Env, user_kind, St, Call, Reply, sonar, Result, ok, err, other, ◌>>=◌, perform,
}
use sonarqube_operator.User.Groups.{reconcile_groups}
use sonarqube_operator.User.Groups.Server.{GroupServer}
use sonarqube_operator.User.Groups.Refinement.{Refined, reconcile_groups_refines}
use sonarqube_operator.Tests.World.{world, creds, failure, remove}
use sonarqube_operator.Tests.UserRuns.{user}

-- The page of the listing that is read has one entry.
abbrev first_page : List String → List String
first_page [] = []
first_page (x ∷ v) = x ∷ []

first_page-contains :
    (v : List String) (k : String) → contains (first_page v) k ≡ true → contains v k ≡ true
first_page-contains [] k h = h
first_page-contains (x ∷ v) k h = ground arith

abbrev keep_groups : (c : Call) → List String → Result (Reply c) × List String
keep_groups (sonar _ (get_user_groups _)) v = (ok (first_page v), v)
keep_groups (sonar _ (add_user_to_group _ g)) v = (ok tt, g ∷ v)
keep_groups (sonar _ (remove_user_from_group _ g)) v = (ok tt, remove v g)
keep_groups c v = (err (failure other "refused"), v)

abbrev groups : Env
groups = record {
  State = List String;
  answer = keep_groups;
  contains_finalizer = world.contains_finalizer;
  add_finalizer = world.add_finalizer;
  remove_finalizer = world.remove_finalizer;
  set_controller_reference = world.set_controller_reference;
  set_status_condition = world.set_status_condition;
  quote = world.quote;
  date_after = λ v n. "";
  range = λ v l. l;
}

-- The list without its head, where that is the group.
head_removed :
    (b : Bool) (x g k : String) (rest : List String) (m : Bool)
    → (x == g) ≡ b
    → contains rest k ≡ (m && not (g == k))
    → contains (if b then rest else x ∷ rest) k ≡ ((x == k || m) && not (g == k))
head_removed true x g k rest m h e =
    let same : (x == k) ≡ (g == k) = ap (λ z. z == k) ((eq_iff x g).0 h) in
    rw (e, same) (ground arith)
head_removed false x g k rest m h e = elim (Bool-cases (g == k)) [
  | inl same ↦
      let apart : (x == k) ≡ false = ap (λ z. x == z) (sym ((eq_iff g k).0 same)) ∙ h in
      ground arith
  | inr other_group ↦ ground arith
]

remove-contains :
    (v : List String) (g k : String) → contains (remove v g) k ≡ (contains v k && not (g == k))
remove-contains [] g k = refl
remove-contains (x ∷ v) g k =
    head_removed (x == g) x g k (remove v g) (contains v k) refl (remove-contains v g k)

abbrev Says : List String → String → Result (List String) × List String → Type 0
Says v k (ok gs, t) = (contains gs k ≡ true → contains v k ≡ true) × (contains t k ≡ contains v k)
Says v k (err e, t) = Unit

or_comm : (a b : Bool) → (a || b) ≡ (b || a)
or_comm a b = ground arith

abbrev server_of : (login : String) → GroupServer groups creds login
server_of login = record {
  member = contains;
  listed = λ gs v t k e. subst (Says v k) e (first_page-contains v k, refl);
  added = λ g v t k e. ap (λ a. contains a.1 k) (sym e) ∙ or_comm (g == k) (contains v k);
  removed = λ g v t k e. ap (λ a. contains a.1 k) (sym e) ∙ remove-contains v g k;
}

-- The user is in a group that is managed and no longer asked for, and in one of its own.
abbrev at_user : St groups user_kind
at_user = record { server = "old" ∷ "own" ∷ []; object = user; history = [] }

groups_taken : (reconcile_groups creds at_user).0 ≡ ok tt
unfolding reconcile_groups ◌>>=◌ perform
groups_taken = refl

reconcile_groups_refines_example :
    Refined creds at_user (server_of "ann") (reconcile_groups creds at_user)
reconcile_groups_refines_example =
    reconcile_groups_refines creds at_user (server_of "ann") groups_taken
