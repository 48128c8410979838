-- ===== src/Scaffold.antt =====
-- SonarQubeBackupReconciler (internal/controller/sonarqubebackup_controller.go) and
-- SonarQubeBranchRuleReconciler (internal/controller/sonarqubebranchrule_controller.go): both only
-- report that nothing is implemented behind the resource.
pub mod Report
use sonarqube_operator.Prelude.{String, ◌<>◌, Bool, true, false, if◌then◌else◌}
use sonarqube_operator.Api.{Condition, NamespacedName}
use sonarqube_operator.Api.Scaffolds.{Backup, BranchRule}
use sonarqube_operator.Exec.{
  Env, Kind, Obj, backup_kind, branch_rule_kind, Exec, kube_get, warning, Result, ok, err, pure,
  raise, attempt, ◌>>=◌, ◌>>◌, perform, emit, object, put, modify, update_status, is_not_found,
}
use sonarqube_operator.Controller.{CtrlResult, done, condition_for, meta_of}

-- What the two reconcilers share: the status that `pending` writes, and the text of the event.
module _ {E : Env} {k : Kind} (pending : Obj k → Obj k) (notice : String) where
  report : Result (Obj k) → Exec E k CtrlResult
  report (err e) = if is_not_found e then pure done else raise e
  report (ok o) = do
    put o
    if (meta_of k o).deleting
        then pure done
        else do modify pending; emit warning "NotImplementedYet" notice; update_status; pure done

  unfoldable pub scaffold : NamespacedName → Exec E k CtrlResult
  unfolding report
  scaffold request = do o ← attempt (perform (kube_get k request)); report o

abbrev pub pending_backup : Env → Backup → Backup
pending_backup E b = record b {
  status = record b.status {
    phase = "Pending";
    conditions = E.set_status_condition b.status.conditions (
        condition_for b.meta "Ready" false "NotImplementedYet" (
          "SonarQubeBackup "
          <> (E.quote b.meta.name
              <> " is accepted by the API but the reconciler is not wired up yet — see #24")));
  };
}

abbrev pub pending_branch_rule : Env → BranchRule → BranchRule
pending_branch_rule E r = record r {
  status = record r.status {
    phase = "Pending";
    conditions = E.set_status_condition r.status.conditions (
        condition_for r.meta "Ready" false "NotImplementedYet" (
          "BranchRule for "
          <> (r.spec.project_key
              <> ("/"
                  <> (r.spec.branch
                      <> " is accepted by the API but the reconciler is not wired up yet")))));
  };
}

module _ {E : Env} where
  abbrev pub reconcile_backup : NamespacedName → Exec E backup_kind CtrlResult
  reconcile_backup =
      scaffold (pending_backup E)
        "the SonarQubeBackup reconciler is scaffold-only — see the PR description on #24"

  abbrev pub reconcile_branch_rule : NamespacedName → Exec E branch_rule_kind CtrlResult
  reconcile_branch_rule =
      scaffold (pending_branch_rule E)
        "the SonarQubeBranchRule reconciler is scaffold-only — see the PR description on #22"
