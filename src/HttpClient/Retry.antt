-- ===== src/HttpClient/Retry.antt =====
-- How often a request is sent.
use sonarqube_operator.Prelude.{ℕ, ◌≤◌, String, ◌≡◌, List, ◌∷◌, length, All}
use sonarqube_operator.Exec.{Error, Result, ok, err}
use sonarqube_operator.HttpClient.{Outcome, answered, refused, broken, Trace}

abbrev pub Broken : Outcome → Type 0
Broken (broken e) = Unit
Broken _ = ⊥

-- The result is that of the last request; after a network error it is an error.
abbrev pub Agrees : Outcome → Result String → Type 0
Agrees (answered body) r = r ≡ ok body
Agrees (refused e) r = r ≡ err e
Agrees (broken e) r = (x : Error) × (r ≡ err x)

-- At least one request, at most `n` before the last, and those ended in a network error each.
abbrev pub Retried : {S : Type 0} → ℕ → Result String × Trace S → Type 0
Retried n run =
    (o : Outcome) × (earlier : List Outcome) × (run.1.1 ≡ o ∷ earlier)
    × All Broken earlier
    × (length earlier ≤ n)
    × Agrees o run.0
