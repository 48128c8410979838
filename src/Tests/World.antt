-- ===== src/Tests/World.antt =====
-- A small world: an API server and a SonarQube that answer each call in a fixed way.
use sonarqube_operator.Prelude.{
  ℕ, suc, String, ◌<>◌, Bool, true, false, none, List, [], ◌∷◌, ◌++◌, contains, if◌then◌else◌, ◌==◌,
}
use sonarqube_operator.Api.{ObjectMeta, Instance, Project}
use sonarqube_operator.Sonar.{
  ProjectLink, InstalledPlugin, list_project_links, get_project_main_branch, create_project_link,
  list_installed_plugins, get_user_groups, create_webhook,
}
use sonarqube_operator.Exec.{
  Env, project_kind, secret_kind, instance_kind, St, Call, Reply, kube_get, kube_update,
  kube_update_status, kube_create, kube_delete, kube_patch, kube_patch_status, sonar, Credentials,
  bearer, ErrorKind, kube_not_found, sonar_not_found, other, Error, Result, ok, err,
}

abbrev pub failure : ErrorKind → String → Error
failure kind message = record { kind = kind; message = message }

abbrev pub meta_named : String → List String → Bool → ObjectMeta
meta_named name finalizers deleting = record {
  name = name;
  namespace = "team";
  uid = name;
  owners = [];
  generation = 1;
  resource_version = "1";
  annotations = [];
  finalizers = finalizers;
  deleting = deleting;
}

abbrev pub remove : List String → String → List String
remove [] f = []
remove (g ∷ gs) f = let rest = remove gs f in if g == f then rest else g ∷ rest

abbrev pub old_link : ProjectLink
old_link = record { id = "7"; name = "docs"; type = "custom"; url = "http://old" }

abbrev pub ui_link : ProjectLink
ui_link = record { id = "8"; name = "wiki"; type = "custom"; url = "http://wiki" }

abbrev pub old_java : InstalledPlugin
old_java = record { key = "java"; name = "Java"; version = "7" }

-- The state counts the calls.
abbrev pub answer : (c : Call) → ℕ → Result (Reply c) × ℕ
answer (kube_get secret_kind _) n =
    (ok (record { meta = meta_named "secret" [] false; entries = ("token", "abc") ∷ [] }), suc n)
answer (kube_get _ _) n = (err (failure kube_not_found "not found"), suc n)
answer (kube_update k o) n = (ok o, suc n)
answer (kube_update_status k o) n = (ok o, suc n)
answer (kube_create k o) n = (ok o, suc n)
answer (kube_delete k o) n = (ok tt, suc n)
answer (kube_patch k old new) n = (ok new, suc n)
answer (kube_patch_status k old new) n = (ok new, suc n)
answer (sonar _ (list_project_links _)) n = (ok (old_link ∷ ui_link ∷ []), suc n)
answer (sonar _ (create_project_link _ _ _)) n = (ok "9", suc n)
answer (sonar _ (get_project_main_branch _)) n = (ok "master", suc n)
answer (sonar _ (get_user_groups _)) n = (ok ("old" ∷ []), suc n)
answer (sonar _ (create_webhook _ _ _ _)) n = (ok "wh1", suc n)
answer (sonar _ list_installed_plugins) n = (ok (old_java ∷ []), suc n)
answer (sonar _ c) n = (err (failure sonar_not_found "not found"), suc n)

abbrev pub world : Env
world = record {
  State = ℕ;
  answer = answer;
  contains_finalizer = contains;
  add_finalizer = λ fs f. fs ++ (f ∷ []);
  remove_finalizer = remove;
  set_controller_reference = λ owner controlled. ok controlled;
  set_status_condition = λ cs c. c ∷ cs;
  quote = λ s. "\"" <> (s <> "\"");
  date_after = λ n d. "2026-01-01";
  range = λ n l. l;
}

abbrev pub creds : Credentials
creds = bearer "http://sq.team:9000" "abc"

abbrev pub project : Project
project = record {
  meta = meta_named "shop" [] false;
  spec = record {
    instance_ref = record { name = "sq"; namespace = "" };
    key = "shop";
    name = "Shop";
    visibility = "private";
    main_branch = "main";
    quality_gate_ref = "";
    ci_token = record { enabled = true; secret_name = ""; expires_in = none };
    tags = [];
    links = record { name = "ci"; url = "http://ci" } ∷ [];
    settings = ("sonar.exclusions", "vendor") ∷ [];
    permissions = record { user = ""; group = "devs"; permissions = "admin" ∷ "scan" ∷ [] } ∷ [];
  };
  status = record {
    phase = "Pending";
    project_url = "";
    token_secret_ref = "";
    managed_link_names = "docs" ∷ [];
    managed_settings = [];
    managed_permissions = "user:bob:admin" ∷ [];
    conditions = [];
  };
}

abbrev pub start : Project → St world project_kind
start p = record { server = 0; object = p; history = [] }

abbrev pub instance_in : String → List (String × String) → Instance
instance_in phase annotations = record {
  meta = record (meta_named "sq" [] false) { annotations = annotations };
  spec = record {
    edition = "community";
    version = "10.3";
    database = record { host = "db"; port = 5432; name = "sonar"; secret_ref = "sq-db" };
    admin_secret_ref = "sq-admin";
    resources = record { requests = none; limits = none };
    persistence = record { size = ""; extensions_size = ""; storage_class = "" };
    ingress = record { enabled = false; host = ""; ingress_class_name = "" };
    jvm_options = "";
    skip_sysctl_init = false;
    node_selector = [];
    tolerations = [];
    affinity = none;
    pod_security_context = none;
    security_context = none;
    monitoring = record { enabled = false; scrape_interval = ""; labels = [] };
    cluster = none;
  };
  status = record {
    phase = phase;
    version = "10.3";
    url = "http://sq";
    admin_token_secret_ref = "sq-token";
    restart_required = false;
    conditions = [];
  };
}

-- The world in which some calls fail.
abbrev pub refusing : (Call → Bool) → Env
refusing refused = record world {
  answer = λ c n. if refused c then (err (failure other "refused"), suc n) else answer c n;
}

-- The answer to a read of the project or of the instance; every other call is answered as above.
abbrev pub holding : Project → Result Instance → (c : Call) → ℕ → Result (Reply c) × ℕ
holding p i (kube_get project_kind _) n = (ok p, suc n)
holding p i (kube_get instance_kind _) n = (i, suc n)
holding p i (kube_get k key) n = answer (kube_get k key) n
holding p i (kube_update k o) n = answer (kube_update k o) n
holding p i (kube_update_status k o) n = answer (kube_update_status k o) n
holding p i (kube_create k o) n = answer (kube_create k o) n
holding p i (kube_delete k o) n = answer (kube_delete k o) n
holding p i (kube_patch k old new) n = answer (kube_patch k old new) n
holding p i (kube_patch_status k old new) n = answer (kube_patch_status k old new) n
holding p i (sonar c call) n = answer (sonar c call) n

abbrev pub cluster : Project → Result Instance → Env
cluster p i = record {
  State = ℕ;
  answer = holding p i;
  contains_finalizer = contains;
  add_finalizer = λ fs f. fs ++ (f ∷ []);
  remove_finalizer = remove;
  set_controller_reference = λ owner controlled. ok controlled;
  set_status_condition = λ cs c. c ∷ cs;
  quote = λ s. "\"" <> (s <> "\"");
  date_after = λ n d. "2026-01-01";
  range = λ n l. l;
}

abbrev pub project_with : List String → Bool → Project
project_with finalizers deleting = record project { meta = meta_named "shop" finalizers deleting }
