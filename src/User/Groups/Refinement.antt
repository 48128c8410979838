-- ===== src/User/Groups/Refinement.antt =====
-- reconcileGroups as an operation on the set of a user's groups.
use mathlib.Core.Path.{subst}
use sonarqube_operator.Prelude.{
  String, ◌≡◌, refl, sym, ap, ◌∙◌, Bool, true, false, not, ◌&&◌, ◌||◌, List, [], ◌∷◌, contains,
  length, eqb, if◌then◌else◌, arith,
}
use sonarqube_operator.Sonar.{get_user_groups}
use sonarqube_operator.Exec.{
  Env, user_kind, St, Exec, Credentials, sonar, Result, ok, err, pure, ◌>>=◌, ◌>>◌, modify,
}
use sonarqube_operator.Exec.Returned.{behind, called_bind, first_returned}
use sonarqube_operator.User.Groups.{with_groups, add_groups, remove_groups, reconcile_groups}
use sonarqube_operator.User.Groups.Server.{GroupServer}
use sonarqube_operator.User.Groups.Passes.{add_groups-Joined, remove_groups-Left}

-- Whether the answer to the listing has the group.
abbrev pub shown_in : Result (List String) → String → Bool
shown_in (ok groups) k = contains groups k
shown_in (err e) k = false

-- The specified set: what is asked for, and what the user was in before and was not both listed and
-- managed.
abbrev pub in_groups : (desired managed : List String) → (shown before : Bool) → String → Bool
in_groups desired managed shown before k =
    contains desired k || (before && not (contains managed k && shown))

after_passes :
    (d m cur mg m1 m2 m3 : Bool)
    → (cur ≡ true → m ≡ true)
    → m1 ≡ m
    → m2 ≡ (m1 || (d && not cur))
    → m3 ≡ (m2 && not (mg && (not d && cur)))
    → m3 ≡ (d || (m && not (mg && cur)))
after_passes d m cur mg m1 m2 m3 e e1 e2 e3 = ground arith

-- The user is in the specified set, and the status lists what is asked for.
abbrev pub Refined :
    {E : Env} (c : Credentials) (s : St E user_kind)
    → GroupServer E c s.object.spec.login
    → Result (Unit {0}) × St E user_kind
    → Type 0
Refined {E} c s G run =
    let u = s.object in
    ((k : String)
      → G.member run.1.server k
        ≡ in_groups u.spec.groups u.status.groups
            (shown_in (E.answer (sonar c (get_user_groups u.spec.login)) s.server).0 k)
            (G.member s.server k) k)
    × (run.1.object.status.groups ≡ u.spec.groups)

module _ {E : Env} (c : Credentials) (s : St E user_kind)
    (G : GroupServer E c s.object.spec.login) where
  abbrev passes : List String → Exec E user_kind (Unit {0})
  passes current = do
    add_groups c s.object.spec.login current s.object.spec.groups
    remove_groups c s.object.spec.login current s.object.spec.groups s.object.status.groups
    modify (with_groups s.object.spec.groups)

  passes-Refined :
      (current : List String) (t : E.State)
      → E.answer (sonar c (get_user_groups s.object.spec.login)) s.server ≡ (ok current, t)
      → let s' = behind (sonar c (get_user_groups s.object.spec.login)) s t in
        (passes current s').0 ≡ ok tt → Refined c s G (passes current s')
  passes-Refined current t answered done =
      let u = s.object in
      let login = u.spec.login in
      let s' = behind (sonar c (get_user_groups login)) s t in
      let add = add_groups {E = E} c login current u.spec.groups in
      let remove = remove_groups {E = E} c login current u.spec.groups u.status.groups in
      let finish = modify {E = E} {k = user_kind} (with_groups u.spec.groups) in
      let (x, added, same) = first_returned add (remove >> finish) s' tt done in
      let (y, removed, same') =
        first_returned remove finish (add s').1 tt (sym (ap (λ r. r.0) same) ∙ done) in
      subst (Refined c s G) (sym (same ∙ same')) (
        λ k.
            after_passes (contains u.spec.groups k) (G.member s.server k) (contains current k)
              (contains u.status.groups k) (G.member t k) (G.member (add s').1.server k)
              (G.member (remove (add s').1).1.server k) (G.listed current s.server t k answered).0
              (G.listed current s.server t k answered).1
              (add_groups-Joined c login G current u.spec.groups s' added k)
              (remove_groups-Left c login G current u.spec.groups u.status.groups (add s').1 removed
                k)
            ∙ ap
                (λ a.
                  in_groups u.spec.groups u.status.groups (shown_in a.0 k) (G.member s.server k) k)
                (sym answered),
        refl,
      )

  if_nothing :
      (b : Bool) (m : Exec E user_kind (Unit {0}))
      → (b ≡ true → Refined c s G (ok tt, s))
      → ((m s).0 ≡ ok tt → Refined c s G (m s))
      → ((if b then pure tt else m) s).0 ≡ ok tt
      → Refined c s G ((if b then pure tt else m) s)
  if_nothing true m nothing something done = nothing refl
  if_nothing false m nothing something done = something done

  nothing_asked :
      (desired managed : List String)
      → (eqb (length desired) 0 && eqb (length managed) 0) ≡ true
      → s.object.spec.groups ≡ desired
      → s.object.status.groups ≡ managed
      → Refined c s G (ok tt, s)
  nothing_asked [] [] none d m = (λ k. rw (d, m) (ground arith), m ∙ sym d)
  nothing_asked [] (x ∷ managed) none d m = absurd (ground arith)
  nothing_asked (x ∷ desired) managed none d m = absurd (ground arith)

-- Where SonarQube keeps the groups of the user as its calls say, and its listing holds only groups of
-- the user but perhaps not all: a run that succeeds, also for an empty specification, leaves the user
-- in exactly the groups of the specification and those that the user was in before, except the
-- groups that both the status and the listing held; and the status lists the groups of the
-- specification, those included that the user was in already.
pub reconcile_groups_refines :
    {E : Env} (c : Credentials) (s : St E user_kind) (G : GroupServer E c s.object.spec.login)
    → (reconcile_groups c s).0 ≡ ok tt
    → Refined c s G (reconcile_groups c s)
unfolding reconcile_groups ◌>>=◌
reconcile_groups_refines {E} c s G done =
    let u = s.object in
    if_nothing c s G (eqb (length u.spec.groups) 0 && eqb (length u.status.groups) 0) _
      (λ none. nothing_asked c s G u.spec.groups u.status.groups none refl refl)
      (λ returned.
        let (current, t, answered, same) =
          called_bind "getting user groups" (sonar c (get_user_groups u.spec.login)) (passes c s G)
            s tt returned in
        subst (Refined c s G) (sym same)
          (passes-Refined c s G current t answered (sym (ap (λ r. r.0) same) ∙ returned)))
      done
