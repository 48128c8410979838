-- ===== src/Tests/ClientRuns.antt =====
-- Calls of the HTTP client against a server that answers every request.
use sonarqube_operator.Prelude.{ℕ, suc, ◌≡◌, refl, none, [], ◌∷◌}
use sonarqube_operator.Sonar.{RemoteProject, get_project, get_user}
use sonarqube_operator.Exec.{ok, err, St, project_kind}
use sonarqube_operator.Operator.{over_http}
use sonarqube_operator.Operator.Lookup.{LookedUp, reconcile_project-LookedUp}
use sonarqube_operator.Tests.World.{world, creds, project, instance_in}
use sonarqube_operator.HttpClient.{response, decide, request, do_once, do_request}
use sonarqube_operator.HttpClient.Transport.{
  HttpClient, Transport, Decoders, parsed, malformed, do_call, replied,
}
use sonarqube_operator.HttpClient.Projects.{not_found, first_named}
use sonarqube_operator.HttpClient.Dispatch.{invoke}
use sonarqube_operator.HttpClient.Lookup.{Exact, invoke-Exact}
use sonarqube_operator.HttpClient.Absence.{Absent, invoke-Absent}

abbrev shop : RemoteProject
shop = record { key = "shop"; name = "Shop"; visibility = "private" }

abbrev shop_two : RemoteProject
shop_two = record { key = "shop2"; name = "Shop 2"; visibility = "private" }

abbrev decoders : Decoders
decoders = record {
  errors = λ body. none;
  status = λ body. malformed "no status";
  valid = λ body. malformed "no validity";
  plugins = λ body. parsed [];
  projects = λ body. parsed (shop_two ∷ shop ∷ []);
  links = λ body. parsed [];
  link = λ body. malformed "no link";
  branches = λ body. parsed [];
  gates = λ body. parsed [];
  gate = λ body. malformed "no gate";
  created_gate = λ body. malformed "no gate";
  condition = λ body. malformed "no condition";
  token = λ body. malformed "no token";
  group_names = λ body. parsed [];
  template = λ body. malformed "no template";
  templates = λ body. parsed [];
  webhook_key = λ body. parsed "wh1";
  users = λ body. parsed [];
}

abbrev server : Transport
server = record {
  State = ℕ;
  send = λ r n. (response 200 "{}", suc n);
  wait = λ delay n. (none, n);
  encode = λ params. "";
  decimal = λ n. "";
  quote = λ s. s;
  decoders = decoders;
}

abbrev client : HttpClient
client = record {
  base_url = "http://sq.team:9000";
  token = "abc";
  username = "";
  password = "";
  retry_delays = none;
}

project_found : (invoke server client (get_project "shop") 0).0 ≡ ok shop
unfolding invoke replied do_call do_request request decide do_once first_named
project_found = refl

invoke-Exact_example : Exact (get_project "shop") shop
invoke-Exact_example = invoke-Exact server client (get_project "shop") shop 0 project_found

user_missing : (invoke server client (get_user "bob") 0).0 ≡ err (not_found "user bob: not found")
unfolding invoke replied do_call do_request request decide do_once first_named
user_missing = refl

invoke-Absent_example : Absent server client (get_user "bob") 0
invoke-Absent_example =
    invoke-Absent server client (get_user "bob") (not_found "user bob: not found") 0 user_missing
      refl

abbrev over_start : St (over_http world server) project_kind
over_start = record { server = (0, 0); object = project; history = [] }

reconcile_project-LookedUp_example : LookedUp world server (instance_in "Ready" []) creds over_start
reconcile_project-LookedUp_example =
    reconcile_project-LookedUp world server (instance_in "Ready" []) creds over_start
