-- ===== src/HttpClient/System.antt =====
-- The methods of httpClient for the system, the admin account and the plugins.
use sonarqube_operator.Prelude.{
  ℕ, String, ◌<>◌, Bool, true, ◌||◌, none, some, List, [], ◌∷◌, eqb, if◌then◌else◌,
}
use sonarqube_operator.Sonar.{InstalledPlugin}
use sonarqube_operator.Exec.{Result, ok, err}
use sonarqube_operator.Controller.{new_error}
use sonarqube_operator.HttpClient.{
  Sent, unbuilt, unsent, unread, response, Outcome, answered, refused, broken,
}
use sonarqube_operator.HttpClient.Transport.{
  get_method, post_method, basic_auth, HttpClient, Transport, Http, query, command, and_then, into,
  optional, single, Values,
}

module _ (T : Transport) (c : HttpClient) where
  abbrev pub get_status : Http T (String × String)
  get_status =
      query T c get_method "/api/system/status" none (λ body. into (T.decoders.status body))

  abbrev pub restart : Http T (Unit {0})
  restart = command T c post_method "/api/system/restart" none

  -- The status codes 204 and 200 are the only good ones.
  unfoldable pub password_code : ℕ → Outcome
  password_code code =
      if eqb code 204 || eqb code 200
      then answered ""
      else refused (new_error ("change password failed with status " <> T.decimal code))

  unfoldable pub password_outcome : Sent → Outcome
  unfolding password_code
  password_outcome (unbuilt message) = refused (new_error message)
  password_outcome (unsent message) = refused (new_error message)
  password_outcome (unread code message) = password_code code
  password_outcome (response code body) = password_code code

  unfoldable pub outcome_result : Outcome → Result (Unit {0})
  outcome_result (answered body) = ok tt
  outcome_result (refused e) = err e
  outcome_result (broken e) = err e

  -- One request with the current password, which is not repeated.
  unfoldable pub change_admin_password : (current new : String) → Http T (Unit {0})
  unfolding password_outcome outcome_result
  change_admin_password current new v =
      let params : Values =
        single "login" "admin" ∷ single "previousPassword" current ∷ single "password" new ∷ [] in
      let (sent, v') =
        T.send
          (record {
            method = post_method;
            url = c.base_url <> "/api/users/change_password";
            body = some (T.encode params);
            form = true;
            authorization = basic_auth "admin" current;
          })
          v in
      let o = password_outcome sent in (outcome_result o, (v', o ∷ []))

  abbrev pub validated : Bool → Result (Unit {0})
  validated valid = if valid then ok tt else err (new_error "authentication invalid")

  abbrev pub validate_auth : Http T (Unit {0})
  validate_auth =
      query T c get_method "/api/authentication/validate" none
        λ body. and_then (into (T.decoders.valid body)) validated

  abbrev pub list_installed_plugins : Http T (List InstalledPlugin)
  list_installed_plugins =
      query T c get_method "/api/plugins/installed" none (λ body. into (T.decoders.plugins body))

  abbrev pub install_plugin : (key version : String) → Http T (Unit {0})
  install_plugin key version =
      command T c post_method "/api/plugins/install"
        (some (single "key" key ∷ optional "version" version))

  abbrev pub uninstall_plugin : (key : String) → Http T (Unit {0})
  uninstall_plugin key =
      command T c post_method "/api/plugins/uninstall" (some (single "key" key ∷ []))

  abbrev pub acknowledge_risk_consent : Http T (Unit {0})
  acknowledge_risk_consent =
      command T c post_method "/api/settings/set"
        (some (single "key" "sonar.plugins.risk.consent" ∷ single "value" "ACCEPTED" ∷ []))
