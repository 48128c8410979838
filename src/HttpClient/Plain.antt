-- ===== src/HttpClient/Plain.antt =====
-- Which errors of the client are ErrNotFound: none that comes of sending a request or of decoding its
-- answer.
use sonarqube_operator.Prelude.{
  ℕ, String, ◌≡◌, refl, false, Option, none, some, List, [], ◌∷◌, leb, Bool-cases, inl, inr,
}
use sonarqube_operator.Exec.{Error, Result, ok, err, is_sonar_not_found}
use sonarqube_operator.HttpClient.{
  Sent, unbuilt, unsent, unread, response, Outcome, answered, refused, broken, Trace, refusal,
  do_once, decide, request, waited, retry, do_request,
}
use sonarqube_operator.HttpClient.Transport.{
  Method, Values, HttpClient, Transport, Parsed, parsed, malformed, into, and_then, build, sender,
  delays_of, do_call,
}

-- A result that is not the error ErrNotFound.
abbrev pub Plain : {A : Type 0} → Result A → Type 0
Plain (ok a) = Unit
Plain (err e) = is_sonar_not_found e ≡ false

abbrev pub PlainOutcome : Outcome → Type 0
PlainOutcome (answered body) = Unit
PlainOutcome (refused e) = is_sonar_not_found e ≡ false
PlainOutcome (broken e) = is_sonar_not_found e ≡ false

module _ (decode_errors : String → Option (List String)) (decimal : ℕ → String) where
  refusal-Plain :
      (code : ℕ) (body : String) (r : Option (List String))
      → is_sonar_not_found (refusal decode_errors decimal code body r) ≡ false
  unfolding refusal
  refusal-Plain code body (some (m ∷ messages)) = refl
  refusal-Plain code body (some []) = refl
  refusal-Plain code body none = refl

  do_once-Plain : (sent : Sent) → PlainOutcome (do_once decode_errors decimal sent)
  unfolding do_once
  do_once-Plain (unbuilt message) = refl
  do_once-Plain (unsent message) = refl
  do_once-Plain (unread code message) = refl
  do_once-Plain (response code body) = elim (Bool-cases (leb 400 code)) [
    | inl bad ↦ rw bad (refusal-Plain code body (decode_errors body))
    | inr good ↦ rw good tt
  ]

module _ {S : Type 0} (send : S → Outcome × S) (wait : ℕ → S → Option String × S)
    (plain : (v : S) → PlainOutcome (send v).0) where
  decide-Plain :
      (o : Outcome) (again : Error → Trace S → Result String × Trace S) (t : Trace S)
      → PlainOutcome o
      → ((e : Error) → is_sonar_not_found e ≡ false → Plain (again e t).0)
      → Plain (decide o again t).0
  unfolding decide
  decide-Plain (answered body) again t p more = tt
  decide-Plain (refused e) again t p more = p
  decide-Plain (broken e) again t p more = more e p

  waited-Plain :
      (w : Option String × S) (again : Error → Trace S → Result String × Trace S)
      (trace : List Outcome)
      → ((e : Error) (t : Trace S) → is_sonar_not_found e ≡ false → Plain (again e t).0)
      → Plain (waited send wait w again trace).0
  unfolding waited request
  waited-Plain (some message, v) again trace more = refl
  waited-Plain (none, v) again trace more =
      decide-Plain (send v).0 again _ (plain v) (λ e. more e _)

  retry-Plain :
      (delays : List ℕ) (e : Error) (t : Trace S)
      → is_sonar_not_found e ≡ false
      → Plain (retry send wait delays e t).0
  unfolding retry
  retry-Plain [] e t p = p
  retry-Plain (d ∷ delays) e (v, trace) p =
      waited-Plain (wait d v) (retry send wait delays) trace (retry-Plain delays)

  do_request-Plain : (delays : List ℕ) (v : S) → Plain (do_request send wait delays v).0
  unfolding do_request request
  do_request-Plain delays v =
      decide-Plain (send v).0 (retry send wait delays) _ (plain v) (λ e. retry-Plain delays e _)

-- Sending a request never ends in ErrNotFound.
pub do_call-Plain :
    (T : Transport) (c : HttpClient) (method : Method) (path : String) (params : Option Values)
    (v : T.State)
    → Plain (do_call T c method path params v).0
unfolding do_call
do_call-Plain T c method path params v =
    do_request-Plain (sender T (build T.encode c method path params)) T.wait
      (λ w.
        do_once-Plain T.decoders.errors T.decimal
          (T.send (build T.encode c method path params) w).0)
      (delays_of c.retry_delays) v

pub into-Plain : {A : Type 0} (p : Parsed A) → Plain (into p)
into-Plain (parsed a) = tt
into-Plain (malformed message) = refl

pub and_then-Plain :
    {A B : Type 0} (r : Result A) (f : A → Result B)
    → Plain r
    → ((a : A) → Plain (f a))
    → Plain (and_then r f)
and_then-Plain (ok a) f p q = q a
and_then-Plain (err e) f p q = p
