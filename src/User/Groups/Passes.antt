-- ===== src/User/Groups/Passes.antt =====
-- What the two passes of reconcileGroups do to the set of a user's groups.
use mathlib.Core.Path.{subst}
use sonarqube_operator.Prelude.{
  String, ◌<>◌, ◌≡◌, refl, sym, ap, ◌∙◌, Bool, true, false, not, ◌&&◌, ◌||◌, ◌==◌, eq_iff, List, [],
  ◌∷◌, contains, Bool-cases, inl, inr, arith,
}
use sonarqube_operator.Sonar.{add_user_to_group, remove_user_from_group}
use sonarqube_operator.Exec.{
  Env, user_kind, St, Credentials, sonar, Result, ok, ◌>>◌, wrap, perform,
}
use sonarqube_operator.Exec.Returned.{behind, called_then}
use sonarqube_operator.User.Groups.{add_groups, remove_groups}
use sonarqube_operator.User.Groups.Server.{GroupServer}

-- A group that is there already is not asked for anew.
group_there :
    (current groups : List String) (g k : String) (m : Bool)
    → contains current g ≡ true
    → (m || (contains groups k && not (contains current k)))
      ≡ (m || ((g == k || contains groups k) && not (contains current k)))
group_there current groups g k m there = elim (Bool-cases (g == k)) [
  | inl same ↦
      let q : contains current k ≡ true =
        ap (contains current) (sym ((eq_iff g k).0 same)) ∙ there in
      ground arith
  | inr apart ↦ ground arith
]

group_lacking :
    (current groups : List String) (g k : String) (m : Bool)
    → contains current g ≡ false
    → ((m || (g == k)) || (contains groups k && not (contains current k)))
      ≡ (m || ((g == k || contains groups k) && not (contains current k)))
group_lacking current groups g k m lacking = elim (Bool-cases (g == k)) [
  | inl same ↦
      let q : contains current k ≡ false =
        ap (contains current) (sym ((eq_iff g k).0 same)) ∙ lacking in
      ground arith
  | inr apart ↦ ground arith
]

group_stale :
    (current desired managed : List String) (g k : String) (m : Bool)
    → (not (contains desired g) && contains current g) ≡ true
    → ((m && not (g == k))
        && not (contains managed k && (not (contains desired k) && contains current k)))
      ≡ (m
          && not
              ((g == k || contains managed k) && (not (contains desired k) && contains current k)))
group_stale current desired managed g k m stale = elim (Bool-cases (g == k)) [
  | inl same ↦
      let q : (not (contains desired k) && contains current k) ≡ true =
        ap (λ x. not (contains desired x) && contains current x) (sym ((eq_iff g k).0 same))
        ∙ stale in
      rw (same, q) (ground arith)
  | inr apart ↦ rw apart (ground arith)
]

group_kept :
    (current desired managed : List String) (g k : String) (m : Bool)
    → (not (contains desired g) && contains current g) ≡ false
    → (m && not (contains managed k && (not (contains desired k) && contains current k))) ≡ (
        m
        && not ((g == k || contains managed k) && (not (contains desired k) && contains current k)))
group_kept current desired managed g k m kept = elim (Bool-cases (g == k)) [
  | inl same ↦
      let q : (not (contains desired k) && contains current k) ≡ false =
        ap (λ x. not (contains desired x) && contains current x) (sym ((eq_iff g k).0 same))
        ∙ kept in
      rw (same, q) (ground arith)
  | inr apart ↦ rw apart (ground arith)
]

module _ {E : Env} (c : Credentials) (login : String) (G : GroupServer E c login) where
  abbrev pub Run : Type 0
  Run = Result (Unit {0}) × St E user_kind

  -- The groups that the pass adds.
  abbrev pub Joined : (current groups : List String) → E.State → Run → Type 0
  Joined current groups v run =
      (k : String)
      → G.member run.1.server k ≡ (G.member v k || (contains groups k && not (contains current k)))

  pub add_groups-Joined :
      (current groups : List String) (s : St E user_kind)
      → (add_groups c login current groups s).0 ≡ ok tt
      → Joined current groups s.server (add_groups c login current groups s)
  unfolding add_groups
  add_groups-Joined current [] s done = λ k. ground arith
  add_groups-Joined current (g ∷ groups) s done = elim (Bool-cases (contains current g)) [
    | inl there ↦
        let same : add_groups c login current (g ∷ groups) s ≡ add_groups c login current groups s =
          rw there refl in
        subst (Joined current (g ∷ groups) s.server) (sym same) λ k.
          add_groups-Joined current groups s (sym (ap (λ r. r.0) same) ∙ done) k
          ∙ group_there current groups g k (G.member s.server k) there
    | inr lacking ↦
        let call = sonar c (add_user_to_group login g) in
        let first : add_groups c login current (g ∷ groups) s
            ≡ (wrap ("adding user to group " <> E.quote g) (perform call)
                  >> add_groups c login current groups)
                s =
          rw lacking refl in
        let (u, t, answered, then) =
          called_then _ call (add_groups c login current groups) s tt
            (sym (ap (λ r. r.0) first) ∙ done) in
        let same = first ∙ then in
        let rest =
          add_groups-Joined current groups (behind call s t) (sym (ap (λ r. r.0) same) ∙ done) in
        subst (Joined current (g ∷ groups) s.server) (sym same) λ k.
          rest k
          ∙ ap (λ m. m || (contains groups k && not (contains current k)))
              (G.added g s.server t k answered)
          ∙ group_lacking current groups g k (G.member s.server k) lacking
  ]

  -- The groups that the pass takes away.
  abbrev pub Left : (current desired managed : List String) → E.State → Run → Type 0
  Left current desired managed v run =
      (k : String)
      → G.member run.1.server k ≡ (
          G.member v k
          && not (contains managed k && (not (contains desired k) && contains current k)))

  pub remove_groups-Left :
      (current desired managed : List String) (s : St E user_kind)
      → (remove_groups c login current desired managed s).0 ≡ ok tt
      → Left current desired managed s.server (remove_groups c login current desired managed s)
  unfolding remove_groups
  remove_groups-Left current desired [] s done = λ k. ground arith
  remove_groups-Left current desired (g ∷ managed) s done =
      elim (Bool-cases (not (contains desired g) && contains current g)) [
        | inl stale ↦
            let call = sonar c (remove_user_from_group login g) in
            let first : remove_groups c login current desired (g ∷ managed) s
                ≡ (wrap ("removing user from group " <> E.quote g) (perform call)
                      >> remove_groups c login current desired managed)
                    s =
              rw stale refl in
            let (u, t, answered, then) =
              called_then _ call (remove_groups c login current desired managed) s tt
                (sym (ap (λ r. r.0) first) ∙ done) in
            let same = first ∙ then in
            let rest =
              remove_groups-Left current desired managed (behind call s t)
                (sym (ap (λ r. r.0) same) ∙ done) in
            subst (Left current desired (g ∷ managed) s.server) (sym same) λ k.
              rest k
              ∙ ap
                  (λ m.
                    m
                    && not (contains managed k && (not (contains desired k) && contains current k)))
                  (G.removed g s.server t k answered)
              ∙ group_stale current desired managed g k (G.member s.server k) stale
        | inr kept ↦
            let same : remove_groups c login current desired (g ∷ managed) s
                ≡ remove_groups c login current desired managed s =
              rw kept refl in
            subst (Left current desired (g ∷ managed) s.server) (sym same) λ k.
              remove_groups-Left current desired managed s (sym (ap (λ r. r.0) same) ∙ done) k
              ∙ group_kept current desired managed g k (G.member s.server k) kept
      ]
