-- ===== src/Controller/BestEffort/Calls.antt =====
-- What an attempt to clean up adds to the history.
use sonarqube_operator.Prelude.{String, Bool}
use sonarqube_operator.Api.{Instance}
use sonarqube_operator.Exec.{Env, Kind, Exec, Call, Action, called, Credentials, Result, ok, err}
use sonarqube_operator.Exec.Rules.{Logs, log_rules}
use sonarqube_operator.Controller.BestEffort.{clean_with, attempt_cleanup}
use sonarqube_operator.Controller.Logged.{Kube, get_instance_admin_token-Logs}

module _ {E : Env} {k : Kind} {P : Action → Type 0}
    (kube : (c : Call) → Kube c → (b : Bool) → P (called c b))
    (clean : Credentials → Exec E k (Unit {0}))
    (clean_logs : (c : Credentials) → Logs P (clean c)) where
  clean_with-Logs : (i : Instance) (r : Result String) → Logs P (clean_with clean i r)
  unfolding clean_with
  clean_with-Logs i (ok token) = clean_logs _
  clean_with-Logs i (err e) = search log_rules

  pub attempt_cleanup-Logs :
      (wanted : Bool) (i : Instance) → Logs P (attempt_cleanup wanted clean i)
  unfolding attempt_cleanup
  attempt_cleanup-Logs wanted i =
      search (log_rules, kube, get_instance_admin_token-Logs, clean_with-Logs)
