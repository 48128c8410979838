-- ===== src/HttpClient/Absence.antt =====
-- What it means that the client reports something as absent.
use sonarqube_operator.Prelude.{
  ℕ, String, ◌<>◌, ◌≡◌, refl, Bool, true, false, some, List, [], ◌∷◌, Bool-cases, inl, inr, eqb,
  ◌||◌,
}
use sonarqube_operator.Sonar.{
  SonarCall, get_project, get_user, find_permission_template, get_quality_gate, reset_settings,
  change_admin_password,
}
use sonarqube_operator.Exec.{Error, Result, ok, err, is_sonar_not_found, is_api_error}
use sonarqube_operator.Controller.{new_error}
use sonarqube_operator.HttpClient.{Sent, unbuilt, unsent, unread, response}
use sonarqube_operator.HttpClient.Transport.{
  get_method, post_method, basic_auth, Values, HttpClient, Transport, do_call, replied, single,
}
use sonarqube_operator.HttpClient.System
use sonarqube_operator.HttpClient.Projects
use sonarqube_operator.HttpClient.Projects.{not_found, first_named, main_branch}
use sonarqube_operator.HttpClient.Gates
use sonarqube_operator.HttpClient.Lookup.{NoneNamed, look_up_absent, Plain-absurd}
use sonarqube_operator.HttpClient.Plain.{Plain, do_call-Plain, into-Plain, and_then-Plain}
use sonarqube_operator.HttpClient.Dispatch.{invoke}

module _ (T : Transport) (c : HttpClient) where
  -- The answer to a GET request with one parameter.
  abbrev pub searched : String → String → String → T.State → Result String
  searched path key value v = (do_call T c get_method path (some (single key value ∷ [])) v).0

  searched-Plain : (path key value : String) (v : T.State) → Plain (searched path key value v)
  searched-Plain path key value v =
      do_call-Plain T c get_method path (some (single key value ∷ [])) v

  -- SonarQube answered with a list that lacks the key, the login or the name, or reported an error
  -- when it was asked for the gate. There is no other way.
  abbrev pub Absent : SonarCall → T.State → Type 0
  Absent (get_project key) v =
      (body : String) × (searched "/api/projects/search" "projects" key v ≡ ok body)
      × NoneNamed (λ p. p.key) key (T.decoders.projects body)
  Absent (get_user login) v =
      (body : String) × (searched "/api/users/search" "q" login v ≡ ok body)
      × NoneNamed (λ u. u.login) login (T.decoders.users body)
  Absent (find_permission_template name) v =
      (body : String) × (searched "/api/permissions/search_templates" "q" name v ≡ ok body)
      × NoneNamed (λ t. t.name) name (T.decoders.templates body)
  Absent (get_quality_gate name) v =
      (x : Error) × (searched "/api/qualitygates/show" "name" name v ≡ err x)
      × (is_api_error x ≡ true)
  Absent _ v = ⊥

  shown_absent :
      (name : String) (r : Result String) (e : Error)
      → Plain r
      → Gates.shown T c name r ≡ err e
      → is_sonar_not_found e ≡ true
      → (x : Error) × (r ≡ err x) × (is_api_error x ≡ true)
  unfolding Gates.shown
  shown_absent name (ok body) e p f n =
      absurd (Plain-absurd _ e f n (into-Plain (T.decoders.gate body)))
  shown_absent name (err x) e p f n = elim (Bool-cases (is_api_error x)) [
    | inl api ↦ (x, refl, api)
    | inr apart ↦ absurd (Plain-absurd (err x) e (rw apart at f) n p)
  ]

  main_branch-Plain :
      (message : String) (bs : List (String × Bool)) → Plain (main_branch (new_error message) bs)
  unfolding main_branch
  main_branch-Plain message [] = refl
  main_branch-Plain message ((name, true) ∷ bs) = tt
  main_branch-Plain message ((name, false) ∷ bs) = main_branch-Plain message bs

  validated-Plain : (b : Bool) → Plain (System.validated T c b)
  validated-Plain true = tt
  validated-Plain false = refl

  code-Plain : (code : ℕ) → Plain (System.outcome_result T c (System.password_code T c code))
  unfolding System.outcome_result System.password_code
  code-Plain code = elim (Bool-cases (eqb code 204 || eqb code 200)) [
    | inl good ↦ rw good tt
    | inr bad ↦ rw bad refl
  ]

  password-Plain :
      (sent : Sent) → Plain (System.outcome_result T c (System.password_outcome T c sent))
  unfolding System.password_outcome System.outcome_result
  password-Plain (unbuilt message) = refl
  password-Plain (unsent message) = refl
  password-Plain (unread code message) = code-Plain code
  password-Plain (response code body) = code-Plain code

  -- The error ErrNotFound of a call means that SonarQube answered with a list in which the project,
  -- the user or the permission template is missing, or reported any error at all for a quality gate;
  -- no other call of the interface ends in it, and neither does a failure of the network or of a
  -- decoder.
  pub invoke-Absent :
      (call : SonarCall) (e : Error) (v : T.State)
      → (invoke T c call v).0 ≡ err e
      → is_sonar_not_found e ≡ true
      → Absent call v
  unfolding invoke replied System.change_admin_password Projects.reset_settings
  invoke-Absent (get_project key) e v f n =
      look_up_absent (λ p. p.key) key (not_found ("project " <> (T.quote key <> ": not found")))
        T.decoders.projects (searched "/api/projects/search" "projects" key v) e
        (searched-Plain "/api/projects/search" "projects" key v) f n
  invoke-Absent (get_user login) e v f n =
      look_up_absent (λ u. u.login) login (not_found ("user " <> (T.quote login <> ": not found")))
        T.decoders.users (searched "/api/users/search" "q" login v) e
        (searched-Plain "/api/users/search" "q" login v) f n
  invoke-Absent (find_permission_template name) e v f n =
      look_up_absent (λ t. t.name) name (not_found "not found") T.decoders.templates
        (searched "/api/permissions/search_templates" "q" name v) e
        (searched-Plain "/api/permissions/search_templates" "q" name v) f n
  invoke-Absent (get_quality_gate name) e v f n =
      shown_absent name (searched "/api/qualitygates/show" "name" name v) e
        (searched-Plain "/api/qualitygates/show" "name" name v) f n
  invoke-Absent (change_admin_password current new) e v f n =
      (let password : Values =
          single "login" "admin" ∷ single "previousPassword" current ∷ single "password" new ∷ [] in
        Plain-absurd _ e f n (
          password-Plain
            (T.send
              (record {
                method = post_method;
                url = c.base_url <> "/api/users/change_password";
                body = some (T.encode password);
                form = true;
                authorization = basic_auth "admin" current;
              })
              v).0))
  invoke-Absent (reset_settings project []) e v f n = cc
  invoke-Absent _ e v f n =
      Plain-absurd _ e f n
        (search (do_call-Plain, and_then-Plain, into-Plain, main_branch-Plain, validated-Plain))
