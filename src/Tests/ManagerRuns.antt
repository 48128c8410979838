-- ===== src/Tests/ManagerRuns.antt =====
-- A start of the operator that fails at its last health check.
use sonarqube_operator.Prelude.{ℕ, suc, [], true}
use sonarqube_operator.Exec.{other, Result, ok, err}
use sonarqube_operator.Manager.Options.{Flags, default_flags}
use sonarqube_operator.Manager.{ManagerCall, add_readyz_check, Host, Run, main}
use sonarqube_operator.Manager.Plan.{plan}
use sonarqube_operator.Manager.Start.{Ended, main-Ended}
use sonarqube_operator.Tests.World.{failure}

abbrev host_answer : ManagerCall → ℕ → Result (Unit {0}) × ℕ
host_answer (add_readyz_check _) n = (err (failure other "too late"), suc n)
host_answer c n = (ok tt, suc n)

abbrev host : Host
host = record { State = ℕ; answer = host_answer; type_name = λ k. "*v1alpha1.SonarQube" }

abbrev with_webhooks : Flags
with_webhooks = record default_flags { enable_webhook = true }

abbrev at_boot : Run host
at_boot = record { host = 0; history = [] }

main-Ended_example : Ended (plan with_webhooks) [] (main with_webhooks at_boot)
main-Ended_example = main-Ended with_webhooks at_boot
