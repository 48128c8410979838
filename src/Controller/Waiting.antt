-- ===== src/Controller/Waiting.antt =====
-- SonarQube is left alone by the frame of the controllers while the instance is not Ready.
use sonarqube_operator.Exec.{Exec, sonar, Action, called}

-- No call to SonarQube.
abbrev pub IsLocal : Action → Type 0
IsLocal (called (sonar _ _) _) = ⊥
IsLocal _ = Unit
