-- ===== src/HttpClient/Gates.antt =====
-- The methods of httpClient for quality gates and for tokens.
use sonarqube_operator.Prelude.{String, ◌<>◌, false, none, some, List, [], ◌∷◌, ◌++◌, if◌then◌else◌}
use sonarqube_operator.Sonar.{QualityGate, GateCondition, Token}
use sonarqube_operator.Exec.{Result, ok, err, is_api_error}
use sonarqube_operator.HttpClient.Projects.{not_found}
use sonarqube_operator.HttpClient.Transport.{
  get_method, post_method, delete_method, HttpClient, Transport, Http, replied, query, command,
  and_then, into, optional, single,
}

module _ (T : Transport) (c : HttpClient) where
  abbrev pub list_quality_gates : Http T (List QualityGate)
  list_quality_gates =
      query T c get_method "/api/qualitygates/list" none (λ body. into (T.decoders.gates body))

  -- An error that SonarQube reports in JSON, whatever it is, counts as an absent gate.
  unfoldable pub shown : String → Result String → Result QualityGate
  shown name (ok body) = into (T.decoders.gate body)
  shown name (err e) =
      if is_api_error e
      then err (not_found ("quality gate " <> (T.quote name <> ": not found")))
      else err e

  abbrev pub get_quality_gate : (name : String) → Http T QualityGate
  get_quality_gate name =
      replied T c get_method "/api/qualitygates/show" (some (single "name" name ∷ [])) (shown name)

  abbrev pub create_quality_gate : (name : String) → Http T QualityGate
  create_quality_gate name =
      query T c post_method "/api/qualitygates/create" (some (single "name" name ∷ [])) λ body.
        and_then (into (T.decoders.created_gate body))
          (λ gate. ok (record { id = gate.0; name = gate.1; is_default = false; conditions = [] }))

  abbrev pub delete_quality_gate : (id : String) → Http T (Unit {0})
  delete_quality_gate id = command T c delete_method ("/api/v2/quality-gates/" <> id) none

  abbrev pub add_condition : (gate metric op value : String) → Http T GateCondition
  add_condition gate metric op value =
      query T c post_method "/api/qualitygates/create_condition"
        (some (
          single "gateName" gate
          ∷ single "metric" metric
          ∷ single "op" op
          ∷ single "error" value
          ∷ []))
        (λ body. into (T.decoders.condition body))

  abbrev pub remove_condition : (id : String) → Http T (Unit {0})
  remove_condition id =
      command T c post_method "/api/qualitygates/delete_condition" (some (single "id" id ∷ []))

  abbrev pub set_as_default : (name : String) → Http T (Unit {0})
  set_as_default name =
      command T c post_method "/api/qualitygates/set_as_default" (some (single "name" name ∷ []))

  abbrev pub assign_quality_gate : (project gate : String) → Http T (Unit {0})
  assign_quality_gate project gate =
      command T c post_method "/api/qualitygates/select"
        (some (single "projectKey" project ∷ single "gateName" gate ∷ []))

  abbrev pub generate_token : (name type project expiration : String) → Http T Token
  generate_token name type project expiration =
      query T c post_method "/api/user_tokens/generate"
        (some (
          single "name" name
          ∷ single "type" type
          ∷ (optional "projectKey" project ++ optional "expirationDate" expiration)))
        (λ body. into (T.decoders.token body))

  abbrev pub generate_user_token : (login name type expiration : String) → Http T Token
  generate_user_token login name type expiration =
      query T c post_method "/api/user_tokens/generate"
        (some (
          single "login" login
          ∷ single "name" name
          ∷ single "type" type
          ∷ optional "expirationDate" expiration))
        (λ body. into (T.decoders.token body))

  abbrev pub revoke_user_token : (login name : String) → Http T (Unit {0})
  revoke_user_token login name =
      command T c post_method "/api/user_tokens/revoke"
        (some (single "login" login ∷ single "name" name ∷ []))

  abbrev pub revoke_token : (name : String) → Http T (Unit {0})
  revoke_token name =
      command T c post_method "/api/user_tokens/revoke" (some (single "name" name ∷ []))
