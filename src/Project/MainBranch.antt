-- ===== src/Project/MainBranch.antt =====
-- reconcileMainBranch and setMainBranchCondition
pub mod Condition
use sonarqube_operator.Prelude.{String, ◌<>◌, Bool, true, false, ◌==◌, if◌then◌else◌}
use sonarqube_operator.Sonar.{get_project_main_branch, rename_main_branch}
use sonarqube_operator.Exec.{
  Env, project_kind, Exec, Credentials, sonar, normal, warning, Result, ok, err, attempt, ◌>>=◌,
  ◌>>◌, perform, emit, object, modify,
}
use sonarqube_operator.Controller.{condition_for}
use sonarqube_operator.Project.Status.{with_condition}

module _ {E : Env} where
  set_main_branch_condition : Bool → String → String → Exec E project_kind (Unit {0})
  set_main_branch_condition status reason message =
      modify
        (λ p. with_condition E (condition_for p.meta "MainBranchSynced" status reason message) p)

  renamed : (current wanted : String) → Result (Unit {0}) → Exec E project_kind (Unit {0})
  unfolding set_main_branch_condition
  renamed current wanted (err e) = do
    emit warning "MainBranchRenameFailed" e.message
    set_main_branch_condition false "RenameFailed" (
        "Could not rename main branch from "
        <> (E.quote current <> (" to " <> (E.quote wanted <> (": " <> e.message)))))
  renamed current wanted (ok _) =
      let message =
        "Main branch renamed from " <> (E.quote current <> (" to " <> E.quote wanted)) in
      do emit normal "MainBranchRenamed" message; set_main_branch_condition true "Renamed" message

  fetched : Credentials → Result String → Exec E project_kind (Unit {0})
  unfolding renamed
  fetched c (err e) = do
    emit warning "MainBranchFetchFailed" e.message
    set_main_branch_condition false "FetchFailed"
        ("Could not fetch current main branch: " <> e.message)
  fetched c (ok current) = do
    p ← object
    if current == p.spec.main_branch
        then set_main_branch_condition true "InSync" ("Main branch is " <> E.quote current)
        else do
          r ← attempt (perform (sonar c (rename_main_branch p.spec.key p.spec.main_branch)))
          renamed current p.spec.main_branch r

  -- An error is reported in the condition and by an event, and not returned.
  unfoldable pub reconcile_main_branch : Credentials → Exec E project_kind (Unit {0})
  unfolding fetched
  reconcile_main_branch c = do
    p ← object
    current ← attempt (perform (sonar c (get_project_main_branch p.spec.key)))
    fetched c current
