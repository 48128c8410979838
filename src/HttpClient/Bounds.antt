-- ===== src/HttpClient/Bounds.antt =====
-- How many requests a method of the client sends.
use sonarqube_operator.Prelude.{ℕ, ◌≤◌, List, [], ◌∷◌, length, All}
use sonarqube_operator.HttpClient.{Outcome}
use sonarqube_operator.HttpClient.Retry.{Broken}
use sonarqube_operator.HttpClient.Transport.{HttpClient, Transport}
use sonarqube_operator.HttpClient.System
use sonarqube_operator.HttpClient.Projects

-- No request, or at most `n` that failed in the network and one more.
abbrev pub Frugal : ℕ → List Outcome → Type 0
Frugal n [] = Unit
Frugal n (last ∷ earlier) = All Broken earlier × (length earlier ≤ n)
