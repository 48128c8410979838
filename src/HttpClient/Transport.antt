-- ===== src/HttpClient/Transport.antt =====
-- What the methods of httpClient (internal/sonarqube/client.go) share: the client with its
-- credentials, the request that doOnce builds, and a call with its reply. The HTTP library, the
-- JSON decoder, url.Values.Encode and the timers are the fields of `Transport`.
use sonarqube_operator.Prelude.{
  ℕ, code, String, ◌<>◌, Bool, true, false, not, ◌&&◌, Option, none, some, List, [], ◌∷◌, eqb, ◌==◌,
  if◌then◌else◌,
}
use sonarqube_operator.Text.{is_empty}
use sonarqube_operator.Sonar.{
  InstalledPlugin, RemoteProject, ProjectLink, QualityGate, GateCondition, Token,
  PermissionTemplate, RemoteUser,
}
use sonarqube_operator.Exec.{Result, ok, err}
use sonarqube_operator.Controller.{new_error}
use sonarqube_operator.HttpClient.{Sent, Outcome, Trace, do_once, do_request, default_retry_delays}

pub data Method : Type 0 where
  get_method post_method delete_method : Method

-- url.Values: each key with its values.
abbrev pub Values : Type 0
Values = List (String × List String)

pub data Authorization : Type 0 where
  no_authorization : Authorization
  bearer_token : (token : String) → Authorization
  basic_auth : (username password : String) → Authorization

-- http.Request, as far as the client sets it.
pub record HttpRequest : Type 0 where
  pub method : Method
  pub url : String
  pub body : Option String
  pub form : Bool
  pub authorization : Authorization

pub record HttpClient : Type 0 where
  pub base_url : String
  pub token : String
  pub username : String
  pub password : String
  pub retry_delays : Option (List ℕ)

-- json.Unmarshal into each of the response types, as far as the methods read it.
pub data Parsed (A : Type 0) : Type 0 where
  parsed : A → Parsed A
  malformed : (message : String) → Parsed A

-- The result of json.Unmarshal
abbrev pub into : {A : Type 0} → Parsed A → Result A
into (parsed a) = ok a
into (malformed message) = err (new_error message)

pub record Decoders : Type 0 where
  pub errors : String → Option (List String)
  pub status : String → Parsed (String × String)
  pub valid : String → Parsed Bool
  pub plugins : String → Parsed (List InstalledPlugin)
  pub projects : String → Parsed (List RemoteProject)
  pub links : String → Parsed (List ProjectLink)
  pub link : String → Parsed ProjectLink
  pub branches : String → Parsed (List (String × Bool))
  pub gates : String → Parsed (List QualityGate)
  pub gate : String → Parsed QualityGate
  pub created_gate : String → Parsed (String × String)
  pub condition : String → Parsed GateCondition
  pub token : String → Parsed Token
  pub group_names : String → Parsed (List String)
  pub template : String → Parsed PermissionTemplate
  pub templates : String → Parsed (List PermissionTemplate)
  pub webhook_key : String → Parsed String
  pub users : String → Parsed (List RemoteUser)

pub record Transport : Type 1 where
  pub State : Type 0
  pub send : HttpRequest → State → Sent × State
  pub wait : ℕ → State → Option String × State
  pub encode : Values → String
  pub decimal : ℕ → String
  pub quote : String → String
  pub decoders : Decoders

-- strings.TrimRight(s, "/")
unfoldable pub trim_slashes : String → String
unfolding is_empty
trim_slashes String.[] = String.[]
trim_slashes (String.◌∷◌ c s) =
    let rest = trim_slashes s in
    if eqb (code c) 47 && is_empty rest then String.[] else String.◌∷◌ c rest

unfoldable pub new_client : (base_url token : String) → HttpClient
unfolding trim_slashes
new_client base_url token = record {
  base_url = trim_slashes base_url;
  token = token;
  username = "";
  password = "";
  retry_delays = none;
}

unfoldable pub new_client_with_password : (base_url username password : String) → HttpClient
unfolding trim_slashes
new_client_with_password base_url username password = record {
  base_url = trim_slashes base_url;
  token = "";
  username = username;
  password = password;
  retry_delays = none;
}

abbrev pub authorization_of : HttpClient → Authorization
authorization_of c =
    if not (c.token == "")
    then bearer_token c.token
    else if not (c.username == "")
    then basic_auth c.username c.password
    else no_authorization

abbrev pub delays_of : Option (List ℕ) → List ℕ
delays_of none = default_retry_delays
delays_of (some delays) = delays

-- Parameters that are not the nil map go into the body of a POST and into the URL of a GET.
unfoldable pub build :
    (Values → String) → HttpClient → Method → String → Option Values → HttpRequest
build encode c post_method path (some params) = record {
  method = post_method;
  url = c.base_url <> path;
  body = some (encode params);
  form = true;
  authorization = authorization_of c;
}
build encode c get_method path (some params) = record {
  method = get_method;
  url = c.base_url <> (path <> ("?" <> encode params));
  body = none;
  form = false;
  authorization = authorization_of c;
}
build encode c method path _ = record {
  method = method;
  url = c.base_url <> path;
  body = none;
  form = false;
  authorization = authorization_of c;
}

abbrev pub and_then : {A B : Type 0} → Result A → (A → Result B) → Result B
and_then (ok a) f = f a
and_then (err e) f = err e

-- `params.Set(key, value)` under the test that the value is not empty
abbrev pub optional : String → String → Values
optional key value = if value == "" then [] else (key, value ∷ []) ∷ []

-- One value for a key
abbrev pub single : String → String → String × List String
single key value = (key, value ∷ [])

module _ (T : Transport) where
  -- A method returns a result, and the outcomes of the requests that it sent.
  abbrev pub Http : Type 0 → Type 0
  Http A = T.State → Result A × Trace T.State

  abbrev pub sender : HttpRequest → T.State → Outcome × T.State
  sender r v = let (sent, v') = T.send r v in (do_once T.decoders.errors T.decimal sent, v')

  -- c.do
  unfoldable pub do_call : HttpClient → Method → String → Option Values → Http String
  unfolding build
  do_call c method path params =
      do_request (sender (build T.encode c method path params)) T.wait (delays_of c.retry_delays)

  -- A call whose answer, body or error, the method makes its result of.
  unfoldable pub replied :
      {A : Type 0}
      → HttpClient
      → Method
      → String
      → Option Values
      → (Result String → Result A)
      → Http A
  unfolding do_call
  replied c method path params read v =
      let (r, trace) = do_call c method path params v in (read r, trace)

  -- A call whose body the method reads.
  abbrev pub query :
      {A : Type 0} → HttpClient → Method → String → Option Values → (String → Result A) → Http A
  query c method path params read = replied c method path params (λ r. and_then r read)

  -- A call whose body the method drops.
  abbrev pub command : HttpClient → Method → String → Option Values → Http (Unit {0})
  command c method path params = query c method path params (λ body. ok tt)
