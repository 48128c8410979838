-- ===== src/Group/Deletion.antt =====
-- Which groups the controller deletes, and what the deletion of a group leaves behind.
use sonarqube_operator.Prelude.{◌≡◌, true, false, All, Bool-cases, inl, inr, String, Bool, ◌==◌}
use sonarqube_operator.Api.{Instance, NamespacedName}
use sonarqube_operator.Sonar.{delete_group}
use sonarqube_operator.Exec.{
  Env, group_kind, St, Call, sonar, Credentials, Action, called, Result, ok, err, ◌>>=◌,
}
use sonarqube_operator.Exec.Rules.{Logs, Logs-bind, Logs-pure, log_rules}
use sonarqube_operator.Controller.{has_finalizer, warn}
use sonarqube_operator.Controller.BestEffort.Calls.{attempt_cleanup-Logs}
use sonarqube_operator.Controller.BestEffort.Quiet.{
  Quiet, quiet_rules, attempt_cleanup-Quiet, Quiet-Released,
}
use sonarqube_operator.Controller.Logged.{Kube, release-Logs, reconcile-Logs}
use sonarqube_operator.Controller.Release.{Released, release-Released}
use sonarqube_operator.Group.{
  group_finalizer, default_groups, created, bring_in_line, reconcile_group, deleted, delete,
  finalize_deletion, handlers, reconcile,
}

-- A deletion, if it is one, of a group that is not SonarQube's own.
abbrev pub Spares : Action → Type 0
Spares (called (sonar _ (delete_group name)) _) = default_groups name ≡ false
Spares _ = Unit

Kube-Spares : (c : Call) → Kube c → (b : Bool) → Spares (called c b)
Kube-Spares (sonar _ _) k b = absurd k
Kube-Spares _ k b = tt

module _ {E : Env} where
  created-Spares : (r : Result (Unit {0})) → Logs Spares (created {E = E} r)
  unfolding created
  created-Spares (err e) = search log_rules
  created-Spares (ok _) = search log_rules

  warn-Spares :
      (reason : String) (r : Result (Unit {0}))
      → Logs Spares (warn {E = E} {k = group_kind} reason r)
  unfolding warn
  warn-Spares reason (err e) = search log_rules
  warn-Spares reason (ok _) = search log_rules

  reconcile_group-Spares : (c : Credentials) → Logs Spares (reconcile_group {E = E} c)
  unfolding reconcile_group bring_in_line
  reconcile_group-Spares c = search (log_rules, created-Spares, warn-Spares) depth 12

  deleted-Spares : (name : String) (r : Result (Unit {0})) → Logs Spares (deleted {E = E} name r)
  unfolding deleted
  deleted-Spares name (err e) = search log_rules
  deleted-Spares name (ok _) = search log_rules

  delete-Spares :
      (name : String) (c : Credentials)
      → default_groups name ≡ false
      → Logs Spares (delete {E = E} name c)
  unfolding delete
  delete-Spares name c h = search (log_rules, deleted-Spares) depth 8

  finalize_deletion-Spares : (i : Instance) → Logs Spares (finalize_deletion {E = E} i)
  unfolding finalize_deletion
  finalize_deletion-Spares i =
      search (log_rules, Kube-Spares, release-Logs, attempt_cleanup-Logs, delete-Spares) depth 9

  -- No run of the controller calls SonarQube to delete one of SonarQube's own groups.
  pub reconcile-Spares :
      (request : NamespacedName) (s : St E group_kind)
      → All Spares s.history
      → All Spares (reconcile request s).1.history
  unfolding reconcile
  reconcile-Spares request s =
      (reconcile-Logs Kube-Spares (handlers E) finalize_deletion-Spares
          (λ i c. Logs-bind _ _ (reconcile_group-Spares c) (λ _. Logs-pure _)) request).at
        s

  deleted-Quiet : (name : String) (r : Result (Unit {0})) → Quiet (deleted {E = E} name r)
  unfolding deleted
  deleted-Quiet name (err e) = search quiet_rules
  deleted-Quiet name (ok _) = search quiet_rules

  delete-Quiet : (name : String) (c : Credentials) → Quiet (delete {E = E} name c)
  unfolding delete
  delete-Quiet name c = search (quiet_rules, deleted-Quiet)

  -- For a group that carries the finalizer, whatever the phase of its instance and whatever
  -- SonarQube and the API server answer, the last call of the deletion writes the group without the
  -- finalizer, and the deletion succeeds when that write does.
  pub group_deletion-Released :
      (i : Instance) (s : St E group_kind)
      → has_finalizer E group_kind group_finalizer s.object ≡ true
      → Released group_finalizer s.object (finalize_deletion i s)
  unfolding finalize_deletion ◌>>=◌
  group_deletion-Released i s held = elim (Bool-cases (default_groups s.object.spec.name)) [
    | inl own ↦ rw (held, own) (release-Released group_finalizer s)
    | inr other ↦
        rw (held, other)
          (Quiet-Released group_finalizer _ s (
            attempt_cleanup-Quiet (i.status.phase == "Ready") (delete s.object.spec.name) i
              (delete-Quiet s.object.spec.name)))
  ]
