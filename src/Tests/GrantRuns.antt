-- ===== src/Tests/GrantRuns.antt =====
-- The grants of one specification in two orders.
use mathlib.Core.List.Perm
use sonarqube_operator.Prelude.{ℕ, suc, String, ◌≡◌, refl, List, [], ◌∷◌, contains, arith}
use sonarqube_operator.Api.{ProjectPermission}
use sonarqube_operator.Sonar.{add_user_project_permission, add_group_project_permission}
use sonarqube_operator.Exec.{Env, project_kind, St, Call, Reply, sonar, Result, ok, ◌>>=◌, perform}
use sonarqube_operator.Project.Permissions.{add_grant, reconcile_project_permissions}
use sonarqube_operator.Project.Grants.{encode, grant}
use sonarqube_operator.Project.Grants.Asked.{asked_grants}
use sonarqube_operator.Project.Permissions.Order.{reconcile_project_permissions-Unordered}
use sonarqube_operator.Project.Grants.{decode}
use sonarqube_operator.Text.{cut}
use sonarqube_operator.Tests.World.{world, answer, creds, project}

-- A SonarQube that takes every grant.
abbrev granting_answer : (c : Call) → ℕ → Result (Reply c) × ℕ
granting_answer (sonar _ (add_user_project_permission _ _ _)) n = (ok tt, suc n)
granting_answer (sonar _ (add_group_project_permission _ _ _)) n = (ok tt, suc n)
granting_answer c n = answer c n

abbrev granting : Env
granting = record {
  State = ℕ;
  answer = granting_answer;
  contains_finalizer = world.contains_finalizer;
  add_finalizer = world.add_finalizer;
  remove_finalizer = world.remove_finalizer;
  set_controller_reference = world.set_controller_reference;
  set_status_condition = world.set_status_condition;
  quote = world.quote;
  date_after = world.date_after;
  range = λ n l. l;
}

abbrev to_group : String → List String → ProjectPermission
to_group group permissions = record { user = ""; group = group; permissions = permissions }

abbrev asking : List ProjectPermission → St granting project_kind
asking permissions = record {
  server = 0;
  object = record project {
    spec = record project.spec { permissions = permissions };
    status = record project.status { managed_permissions = [] };
  };
  history = [];
}

abbrev once : St granting project_kind
once = asking (to_group "devs" ("scan" ∷ "user" ∷ []) ∷ [])

abbrev twice : St granting project_kind
twice = asking (to_group "devs" ("user" ∷ []) ∷ to_group "devs" ("scan" ∷ "user" ∷ []) ∷ [])

same_grants :
    (k : String)
    → contains (asked_grants once.object.spec.permissions) k
      ≡ contains (asked_grants twice.object.spec.permissions) k
unfolding encode grant
same_grants k = ground arith

once_taken : (reconcile_project_permissions creds once).0 ≡ ok tt
unfolding reconcile_project_permissions ◌>>=◌ perform decode cut add_grant
once_taken = refl

twice_taken : (reconcile_project_permissions creds twice).0 ≡ ok tt
unfolding reconcile_project_permissions ◌>>=◌ perform decode cut add_grant
twice_taken = refl

reconcile_project_permissions-Unordered_example :
    (reconcile_project_permissions creds once).1.object.status.managed_permissions
    ≡ (reconcile_project_permissions creds twice).1.object.status.managed_permissions
reconcile_project_permissions-Unordered_example =
    reconcile_project_permissions-Unordered granting (λ s l. Perm.refl l) creds creds once twice
      same_grants once_taken twice_taken
