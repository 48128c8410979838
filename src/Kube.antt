-- ===== src/Kube.antt =====
-- The parts of Kubernetes' pods, services and ingresses that the operator builds or passes on. A
-- quantity is a text, a value that the code only copies (a toleration, an affinity, the fields of a
-- security context or of a pod that it does not look at) is one too, and `none` is a nil pointer or map.
use sonarqube_operator.Prelude.{ℕ, String, Bool, Option, List}

abbrev pub Labels : Type 0
Labels = List (String × String)

pub record ResourceRequirements : Type 0 where
  pub requests : Option Labels
  pub limits : Option Labels

pub record PodSecurityContext : Type 0 where
  pub fs_group : Option ℕ
  pub others : String

pub record SecurityContext : Type 0 where
  pub privileged : Option Bool
  pub others : String

-- A value, or a key of a Secret.
pub data EnvVar : Type 0 where
  env_value : (name value : String) → EnvVar
  env_secret : (name secret key : String) → EnvVar

-- An HTTP GET on a port.
pub record Probe : Type 0 where
  pub path : String
  pub port : ℕ
  pub failure_threshold : ℕ
  pub period_seconds : ℕ

pub record ContainerPort : Type 0 where
  pub name : String
  pub container_port : ℕ
  pub protocol : String

pub record VolumeMount : Type 0 where
  pub name : String
  pub mount_path : String

pub record Container : Type 0 where
  pub name : String
  pub image : String
  pub command : List String
  pub resources : ResourceRequirements
  pub security_context : Option SecurityContext
  pub ports : List ContainerPort
  pub env : List EnvVar
  pub startup_probe : Option Probe
  pub readiness_probe : Option Probe
  pub liveness_probe : Option Probe
  pub volume_mounts : List VolumeMount

-- `others` are the fields that the code does not set.
pub record PodSpec : Type 0 where
  pub security_context : Option PodSecurityContext
  pub node_selector : Labels
  pub tolerations : List String
  pub affinity : Option String
  pub init_containers : List Container
  pub containers : List Container
  pub others : String

pub record VolumeClaim : Type 0 where
  pub name : String
  pub access_modes : List String
  pub storage_class_name : Option String
  pub storage : String

pub record StatefulSetSpec : Type 0 where
  pub replicas : ℕ
  pub service_name : String
  pub selector : Labels
  pub template_labels : Labels
  pub template_spec : PodSpec
  pub volume_claim_templates : List VolumeClaim

pub record ServicePort : Type 0 where
  pub name : String
  pub port : ℕ
  pub target_port : ℕ
  pub protocol : String

pub record ServiceSpec : Type 0 where
  pub cluster_ip : String
  pub selector : Labels
  pub ports : List ServicePort
  pub type : String

pub record IngressRule : Type 0 where
  pub host : String
  pub path : String
  pub path_type : String
  pub service_name : String
  pub service_port : ℕ

pub record IngressRules : Type 0 where
  pub ingress_class_name : Option String
  pub rules : List IngressRule
