-- ===== src/Project/Status.antt =====
-- Writes to the status of a project in memory.
use sonarqube_operator.Prelude.{String, Bool}
use sonarqube_operator.Api.{Project, Condition}
use sonarqube_operator.Exec.{Env}
use sonarqube_operator.Controller.{condition_for}

abbrev pub with_phase : String → Project → Project
with_phase phase p = record p { status = record p.status { phase = phase } }

-- apimeta.SetStatusCondition on the project's conditions
abbrev pub with_condition : Env → Condition → Project → Project
with_condition E c p = record p {
  status = record p.status { conditions = E.set_status_condition p.status.conditions c };
}

abbrev pub ready_condition : Project → Bool → String → String → Condition
ready_condition p status reason message = condition_for p.meta "Ready" status reason message
