-- ===== src/HttpClient.antt =====
-- httpClient.do and doOnce (internal/sonarqube/client.go): one request, and its retries. The transport,
-- the JSON decoder and the context with its timers are parameters.
pub mod Retry
pub mod Transport
pub mod System
pub mod Projects
pub mod Gates
pub mod Access
pub mod Users
pub mod Dispatch
pub mod Bounds
pub mod Plain
pub mod Lookup
pub mod Absence
use sonarqube_operator.Prelude.{
  ℕ, String, ◌<>◌, Bool, Option, none, some, List, [], ◌∷◌, leb, if◌then◌else◌,
}
use sonarqube_operator.Text.{join}
use sonarqube_operator.Exec.{Error, api_error, Result, ok, err}
use sonarqube_operator.Controller.{new_error}

-- How far one request gets: it cannot be built, it cannot be sent, its answer cannot be read, or
-- SonarQube answers with a status code and a body. The errors of libraries are their messages.
pub data Sent : Type 0 where
  unbuilt unsent : (message : String) → Sent
  unread : (code : ℕ) (message : String) → Sent
  response : (code : ℕ) (body : String) → Sent

-- The three results of doOnce: a body, an error, or a network error.
pub data Outcome : Type 0 where
  answered : (body : String) → Outcome
  refused broken : Error → Outcome

-- The second entry is the list of the outcomes so far, newest first.
abbrev pub Trace : Type 0 → Type 0
Trace S = S × List Outcome

-- 500 ms and 1 s
abbrev pub default_retry_delays : List ℕ
default_retry_delays = 500 ∷ 1000 ∷ []

module _ (decode_errors : String → Option (List String)) (decimal : ℕ → String) where
  refusal : ℕ → String → Option (List String) → Error
  unfolding join
  refusal code body (some (m ∷ messages)) = record {
    kind = api_error;
    message = join "; " (m ∷ messages);
  }
  refusal code body _ = new_error ("HTTP " <> (decimal code <> (": " <> body)))

  unfoldable pub do_once : Sent → Outcome
  unfolding refusal
  do_once (unbuilt message) = refused (new_error message)
  do_once (unsent message) = broken (new_error message)
  do_once (unread code message) = broken (new_error message)
  do_once (response code body) =
      if leb 400 code then refused (refusal code body (decode_errors body)) else answered body

-- What the caller does with an outcome: only a network error goes on to `again`.
unfoldable pub decide :
    {S : Type 0}
    → Outcome
    → (Error → Trace S → Result String × Trace S)
    → Trace S
    → Result String × Trace S
decide (answered body) again s = (ok body, s)
decide (refused e) again s = (err e, s)
decide (broken e) again s = again e s

module _ {S : Type 0} (send : S → Outcome × S) (wait : ℕ → S → Option String × S) where
  unfoldable pub request :
      (Error → Trace S → Result String × Trace S) → Trace S → Result String × Trace S
  unfolding decide
  request again (v, trace) = let (o, v') = send v in decide o again (v', o ∷ trace)

  -- `some message` is the error of a context that is done before the delay is over.
  waited :
      Option String × S
      → (Error → Trace S → Result String × Trace S)
      → List Outcome
      → Result String × Trace S
  unfolding request
  waited (some message, v) again trace = (err (new_error message), (v, trace))
  waited (none, v) again trace = request again (v, trace)

  unfoldable pub retry : List ℕ → Error → Trace S → Result String × Trace S
  unfolding waited
  retry [] e s = (err e, s)
  retry (d ∷ delays) e (v, trace) = waited (wait d v) (retry delays) trace

  unfoldable pub do_request : List ℕ → S → Result String × Trace S
  unfolding request retry
  do_request delays v = request (retry delays) (v, [])
