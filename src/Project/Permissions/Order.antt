-- ===== src/Project/Permissions/Order.antt =====
-- The order of the permissions in a specification, and how often they are listed, do not matter.
use sonarqube_operator.Prelude.{String, ◌≡◌, sym, ap, ◌∙◌, contains}
use sonarqube_operator.Exec.{Env, project_kind, St, Credentials, ok}
use sonarqube_operator.Project.Grants.Asked.{asked_grants, sort-desired_grants}
use sonarqube_operator.Project.Permissions.{reconcile_project_permissions}
use sonarqube_operator.Project.Permissions.Ownership.{RangesAll}
use sonarqube_operator.Project.Permissions.Status.{reconcile_project_permissions-status}

-- When a walk over a map visits every entry once: two runs that succeed, for specifications that
-- ask for the same grants in any order, any grouping and any number of repetitions, leave the same
-- managed permissions in the status, whatever SonarQube held and whatever the status listed before.
pub reconcile_project_permissions-Unordered :
    (E : Env)
    → RangesAll E
    → (c d : Credentials) (s t : St E project_kind)
    → ((k : String)
        → contains (asked_grants s.object.spec.permissions) k
          ≡ contains (asked_grants t.object.spec.permissions) k)
    → (reconcile_project_permissions c s).0 ≡ ok tt
    → (reconcile_project_permissions d t).0 ≡ ok tt
    → (reconcile_project_permissions c s).1.object.status.managed_permissions
      ≡ (reconcile_project_permissions d t).1.object.status.managed_permissions
reconcile_project_permissions-Unordered E ranges c d s t same done done' =
    ap (λ o. o.status.managed_permissions)
      ((reconcile_project_permissions-status E ranges c s).1 done)
    ∙ sort-desired_grants s.object.spec.permissions t.object.spec.permissions same
    ∙ sym (
        ap (λ o. o.status.managed_permissions)
          ((reconcile_project_permissions-status E ranges d t).1 done'))
