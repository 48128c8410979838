-- ===== src/Project/MainBranch/Condition.antt =====
-- What reconcileMainBranch reports.
use sonarqube_operator.Prelude.{
  String, ◌≡◌, ap, refl, true, ◌==◌, eq_iff, ◌⊎◌, inl, inr, Bool-cases,
}
use sonarqube_operator.Api.{Condition, Project}
use sonarqube_operator.Sonar.{get_project_main_branch, rename_main_branch}
use sonarqube_operator.Exec.{
  Env, project_kind, St, Credentials, sonar, Result, ok, err, ◌>>=◌, perform, emit,
}
use sonarqube_operator.Project.Status.{with_condition}
use sonarqube_operator.Project.MainBranch.{
  set_main_branch_condition, renamed, fetched, reconcile_main_branch,
}

module _ {E : Env} (c : Credentials) where
  -- The run returns, and changes the object by one condition of the type MainBranchSynced; where that is
  -- True, SonarQube's answer `fetch` was the branch asked for, or it took the renaming.
  abbrev pub Reported :
      Project
      → (fetch : Result String) → (rename : Result (Unit {0}))
      → Result (Unit {0}) × St E project_kind
      → Type 0
  Reported p fetch rename run =
      (x : Condition) × (run.0 ≡ ok tt)
      × (run.1.object ≡ with_condition E x p)
      × (x.type ≡ "MainBranchSynced")
      × (x.observed_generation ≡ p.meta.generation)
      × (x.status ≡ true → (fetch ≡ ok p.spec.main_branch) ⊎ (rename ≡ ok tt))

  renamed-Reported :
      (fetch : Result String) (current wanted : String) (r : Result (Unit {0}))
      (s : St E project_kind)
      → Reported s.object fetch r (renamed current wanted r s)
  unfolding renamed set_main_branch_condition emit ◌>>=◌
  renamed-Reported fetch current wanted (ok _) s = (_, refl, refl, refl, refl, (λ h. inr refl))
  renamed-Reported fetch current wanted (err e) s = (_, refl, refl, refl, refl, (λ h. cc))

  fetched-Reported :
      (r : Result String) (s : St E project_kind)
      → let p = s.object in
        Reported p r
          (E.answer (sonar c (rename_main_branch p.spec.key p.spec.main_branch)) s.server).0
          (fetched c r s)
  unfolding fetched set_main_branch_condition emit ◌>>=◌ perform
  fetched-Reported (err e) s = (_, refl, refl, refl, refl, (λ h. cc))
  fetched-Reported (ok current) s =
      let p = s.object in
      elim (Bool-cases (current == p.spec.main_branch)) [
        | inl same ↦ rw same (
          _,
          refl,
          refl,
          refl,
          refl,
          (λ h. inl (ap ok ((eq_iff current p.spec.main_branch).0 same))),
        )
        | inr apart ↦ rw apart (
            renamed-Reported (ok current) current p.spec.main_branch
              (E.answer (sonar c (rename_main_branch p.spec.key p.spec.main_branch)) s.server).0 _)
      ]

  -- The reconciliation of the main branch never returns an error. It changes nothing of the object but
  -- one condition of the type MainBranchSynced at the current generation, and that is True only when
  -- SonarQube answered the branch asked for, or took the renaming to it.
  pub reconcile_main_branch-Reported :
      (s : St E project_kind)
      → let p = s.object in
        let fetch = E.answer (sonar c (get_project_main_branch p.spec.key)) s.server in
        let rename =
          E.answer (sonar c (rename_main_branch p.spec.key p.spec.main_branch)) fetch.1 in
        Reported p fetch.0 rename.0 (reconcile_main_branch c s)
  unfolding reconcile_main_branch ◌>>=◌ perform
  reconcile_main_branch-Reported s =
      fetched-Reported (E.answer (sonar c (get_project_main_branch s.object.spec.key)) s.server).0 _
