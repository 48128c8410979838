-- ===== src/Instance/Build.antt =====
-- buildStatefulSet, buildEnvVars, buildService and buildIngress of
-- internal/controller/sonarqubeinstance_controller.go, and buildHeadlessService of helpers.go.
use sonarqube_operator.Prelude.{
  ℕ, String, ◌<>◌, Bool, true, false, Option, none, some, List, [], ◌∷◌, ◌++◌, ◌==◌, if◌then◌else◌,
}
use sonarqube_operator.Kube.{
  Labels, ResourceRequirements, PodSecurityContext, EnvVar, env_value, env_secret, Probe, Container,
  VolumeClaim, ServicePort,
}
use sonarqube_operator.Api.{Instance}
use sonarqube_operator.Api.Owned.{StatefulSet, Service, Ingress}
use sonarqube_operator.Exec.{Env, Result, ok, err, wrap_error}
use sonarqube_operator.Controller.{new_object_meta}

abbrev pub labels_of : Instance → Labels
labels_of i = ("app", "sonarqube") ∷ ("instance", i.meta.name) ∷ []

-- A text, or its default where it is empty.
abbrev pub or_default : String → String → String
or_default default s = if s == "" then default else s

abbrev requests_of : Option Labels → Labels
requests_of none = ("memory", "2Gi") ∷ ("cpu", "500m") ∷ []
requests_of (some requests) = requests

abbrev pub with_requests : ResourceRequirements → ResourceRequirements
with_requests r = record r { requests = some (requests_of r.requests) }

abbrev or_group : Option ℕ → ℕ
or_group none = 1000
or_group (some group) = group

-- The group of the files is 1000 where the specification names none.
abbrev pub pod_security_of : Option PodSecurityContext → PodSecurityContext
pod_security_of none = record { fs_group = some 1000; others = "" }
pod_security_of (some c) = record c { fs_group = some (or_group c.fs_group) }

-- `nil` for the empty text
abbrev pub non_empty : String → Option String
non_empty s = if s == "" then none else some s

abbrev status_probe : (failure_threshold period_seconds : ℕ) → Probe
status_probe failure_threshold period_seconds = record {
  path = "/api/system/status";
  port = 9000;
  failure_threshold = failure_threshold;
  period_seconds = period_seconds;
}

abbrev sysctl : Container
sysctl = record {
  name = "sysctl";
  image = "busybox:1.36";
  command = "sysctl" ∷ "-w" ∷ "vm.max_map_count=524288" ∷ [];
  resources = record { requests = none; limits = none };
  security_context = some (record { privileged = some true; others = "" });
  ports = [];
  env = [];
  startup_probe = none;
  readiness_probe = none;
  liveness_probe = none;
  volume_mounts = [];
}

abbrev pub init_containers_of : (skip : Bool) → List Container
init_containers_of true = []
init_containers_of false = sysctl ∷ []

unfoldable pub build_env_vars : (ℕ → String) → Instance → List EnvVar
build_env_vars decimal i =
    let d = i.spec.database in
    (env_value "SONAR_JDBC_URL"
        ("jdbc:postgresql://" <> (d.host <> (":" <> (decimal d.port <> ("/" <> d.name)))))
      ∷ env_secret "SONAR_JDBC_USERNAME" d.secret_ref "username"
      ∷ env_secret "SONAR_JDBC_PASSWORD" d.secret_ref "password"
      ∷ [])
    ++ (if i.spec.jvm_options == ""
        then []
        else env_value "SONAR_WEB_JAVAADDITIONALOPTS" i.spec.jvm_options ∷ [])

abbrev sonarqube : (ℕ → String) → Instance → Container
sonarqube decimal i = record {
  name = "sonarqube";
  image = "sonarqube:" <> (i.spec.version <> ("-" <> i.spec.edition));
  command = [];
  resources = with_requests i.spec.resources;
  security_context = i.spec.security_context;
  ports = record { name = "http"; container_port = 9000; protocol = "TCP" } ∷ [];
  env = build_env_vars decimal i;
  startup_probe = some (status_probe 60 10);
  readiness_probe = some (status_probe 3 10);
  liveness_probe = some (status_probe 5 30);
  volume_mounts =
      record { name = "data"; mount_path = "/opt/sonarqube/data" }
      ∷ record { name = "extensions"; mount_path = "/opt/sonarqube/extensions" }
      ∷ [];
}

abbrev claim : Instance → (name storage : String) → VolumeClaim
claim i name storage = record {
  name = name;
  access_modes = "ReadWriteOnce" ∷ [];
  storage_class_name = non_empty i.spec.persistence.storage_class;
  storage = storage;
}

-- The StatefulSet, for the two sizes as they were parsed.
abbrev pub stateful_set_of : (ℕ → String) → Instance → (storage extensions : String) → StatefulSet
stateful_set_of decimal i storage extensions = record {
  meta = new_object_meta i.meta.name i.meta.namespace;
  labels = labels_of i;
  spec = record {
    replicas = 1;
    service_name = i.meta.name <> "-headless";
    selector = labels_of i;
    template_labels = labels_of i;
    template_spec = record {
      security_context = some (pod_security_of i.spec.pod_security_context);
      node_selector = i.spec.node_selector;
      tolerations = i.spec.tolerations;
      affinity = i.spec.affinity;
      init_containers = init_containers_of i.spec.skip_sysctl_init;
      containers = sonarqube decimal i ∷ [];
      others = "";
    };
    volume_claim_templates = claim i "data" storage ∷ claim i "extensions" extensions ∷ [];
  };
}

with_sizes :
    (ℕ → String)
    → Instance
    → (size_error extensions_error : String) → Result String
    → Result String
    → Result StatefulSet
with_sizes decimal i size_error extensions_error (err e) r = err (wrap_error size_error e)
with_sizes decimal i size_error extensions_error (ok storage) (err e) =
    err (wrap_error extensions_error e)
with_sizes decimal i size_error extensions_error (ok storage) (ok extensions) =
    ok (stateful_set_of decimal i storage extensions)

unfoldable pub build_stateful_set :
    Env → (String → Result String) → (ℕ → String) → Instance → Result StatefulSet
unfolding with_sizes build_env_vars
build_stateful_set E parse_quantity decimal i =
    let size = or_default "10Gi" i.spec.persistence.size in
    let extensions_size = or_default "1Gi" i.spec.persistence.extensions_size in
    with_sizes decimal i ("invalid persistence.size " <> E.quote size)
      ("invalid persistence.extensionsSize " <> E.quote extensions_size) (parse_quantity size)
      (parse_quantity extensions_size)

abbrev http_port : ServicePort
http_port = record { name = "http"; port = 9000; target_port = 9000; protocol = "TCP" }

unfoldable pub build_headless_service : Instance → Service
build_headless_service i = record {
  meta = new_object_meta (i.meta.name <> "-headless") i.meta.namespace;
  labels = labels_of i;
  spec = record { cluster_ip = "None"; selector = labels_of i; ports = http_port ∷ []; type = "" };
}

unfoldable pub build_service : Instance → Service
build_service i = record {
  meta = new_object_meta i.meta.name i.meta.namespace;
  labels = labels_of i;
  spec = record {
    cluster_ip = "";
    selector = labels_of i;
    ports = http_port ∷ [];
    type = "ClusterIP";
  };
}

unfoldable pub build_ingress : Instance → Ingress
build_ingress i = record {
  meta = new_object_meta i.meta.name i.meta.namespace;
  spec = record {
    ingress_class_name = non_empty i.spec.ingress.ingress_class_name;
    rules =
        record {
          host = i.spec.ingress.host;
          path = "/";
          path_type = "Prefix";
          service_name = i.meta.name;
          service_port = 9000;
        }
        ∷ [];
  };
}
