-- ===== src/Tests/RequestRuns.antt =====
-- A request that fails once and is then answered.
use sonarqube_operator.Prelude.{ℕ, suc, String, Option, none, eqb, if◌then◌else◌}
use sonarqube_operator.Exec.{other}
use sonarqube_operator.HttpClient.{Outcome, answered, broken}
use sonarqube_operator.Tests.World.{failure}

abbrev send : ℕ → Outcome × ℕ
send n = (if eqb n 0 then broken (failure other "connection reset") else answered "pong", suc n)

abbrev wait : ℕ → ℕ → Option String × ℕ
wait delay n = (none, n)
