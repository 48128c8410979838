-- ===== src/Api.antt =====
-- The custom resources (api/v1alpha1/*_types.go) as far as the controllers read or write them,
-- with the parts of Kubernetes objects that they embed. A missing map key reads as the empty text.
pub mod Access
pub mod Owned
pub mod Scaffolds
use sonarqube_operator.Prelude.{ℕ, String, Bool, Option, List}
use sonarqube_operator.Kube.{Labels, ResourceRequirements, PodSecurityContext, SecurityContext}

pub record NamespacedName : Type 0 where
  pub namespace : String
  pub name : String

-- metav1.ObjectMeta; `deleting` is a non-zero DeletionTimestamp.
pub record ObjectMeta : Type 0 where
  pub name : String
  pub namespace : String
  pub uid : String
  pub owners : List String
  pub generation : ℕ
  pub resource_version : String
  pub annotations : List (String × String)
  pub finalizers : List String
  pub deleting : Bool

-- metav1.Condition as the controllers fill it in; `status` is True or False.
pub record Condition : Type 0 where
  pub type : String
  pub status : Bool
  pub reason : String
  pub message : String
  pub observed_generation : ℕ

pub record Secret : Type 0 where
  pub meta : ObjectMeta
  pub entries : List (String × String)

pub record InstanceRef : Type 0 where
  pub name : String
  pub namespace : String

pub record ClusterSpec : Type 0 where
  pub app_nodes : ℕ
  pub search_nodes : ℕ
  pub license_secret_ref : String

pub record DatabaseSpec : Type 0 where
  pub host : String
  pub port : ℕ
  pub name : String
  pub secret_ref : String

pub record PersistenceSpec : Type 0 where
  pub size : String
  pub extensions_size : String
  pub storage_class : String

pub record IngressSpec : Type 0 where
  pub enabled : Bool
  pub host : String
  pub ingress_class_name : String

pub record MonitoringSpec : Type 0 where
  pub enabled : Bool
  pub scrape_interval : String
  pub labels : Labels

pub record InstanceSpec : Type 0 where
  pub edition : String
  pub version : String
  pub database : DatabaseSpec
  pub admin_secret_ref : String
  pub resources : ResourceRequirements
  pub persistence : PersistenceSpec
  pub ingress : IngressSpec
  pub jvm_options : String
  pub skip_sysctl_init : Bool
  pub node_selector : Labels
  pub tolerations : List String
  pub affinity : Option String
  pub pod_security_context : Option PodSecurityContext
  pub security_context : Option SecurityContext
  pub monitoring : MonitoringSpec
  pub cluster : Option ClusterSpec

pub record InstanceStatus : Type 0 where
  pub phase : String
  pub version : String
  pub url : String
  pub admin_token_secret_ref : String
  pub restart_required : Bool
  pub conditions : List Condition

pub record Instance : Type 0 where
  pub meta : ObjectMeta
  pub spec : InstanceSpec
  pub status : InstanceStatus

-- A link of the spec, by its name and its URL.
pub record SpecLink : Type 0 where
  pub name : String
  pub url : String

pub record ProjectPermission : Type 0 where
  pub user : String
  pub group : String
  pub permissions : List String

pub record CiTokenSpec : Type 0 where
  pub enabled : Bool
  pub secret_name : String
  pub expires_in : Option ℕ

pub record ProjectSpec : Type 0 where
  pub instance_ref : InstanceRef
  pub key : String
  pub name : String
  pub visibility : String
  pub main_branch : String
  pub quality_gate_ref : String
  pub ci_token : CiTokenSpec
  pub tags : List String
  pub links : List SpecLink
  pub settings : List (String × String)
  pub permissions : List ProjectPermission

pub record ProjectStatus : Type 0 where
  pub phase : String
  pub project_url : String
  pub token_secret_ref : String
  pub managed_link_names : List String
  pub managed_settings : List String
  pub managed_permissions : List String
  pub conditions : List Condition

pub record Project : Type 0 where
  pub meta : ObjectMeta
  pub spec : ProjectSpec
  pub status : ProjectStatus

pub record PluginSpec : Type 0 where
  pub instance_ref : InstanceRef
  pub key : String
  pub version : String
  pub source : Option String

pub record PluginStatus : Type 0 where
  pub phase : String
  pub installed_version : String
  pub restart_required : Bool
  pub conditions : List Condition

pub record Plugin : Type 0 where
  pub meta : ObjectMeta
  pub spec : PluginSpec
  pub status : PluginStatus

pub record GateConditionSpec : Type 0 where
  pub metric : String
  pub operator : String
  pub value : String

pub record GateSpec : Type 0 where
  pub instance_ref : InstanceRef
  pub name : String
  pub is_default : Bool
  pub conditions : List GateConditionSpec

pub record GateStatus : Type 0 where
  pub phase : String
  pub gate_id : String
  pub conditions : List Condition

pub record Gate : Type 0 where
  pub meta : ObjectMeta
  pub spec : GateSpec
  pub status : GateStatus

pub record UserToken : Type 0 where
  pub name : String
  pub secret_name : String
  pub type : String
  pub expires_in : Option ℕ

pub record UserSpec : Type 0 where
  pub instance_ref : InstanceRef
  pub login : String
  pub name : String
  pub email : String
  pub password_secret_ref : Option String
  pub groups : List String
  pub scm_accounts : List String
  pub tokens : List UserToken
  pub global_permissions : List String

pub record UserStatus : Type 0 where
  pub phase : String
  pub active : Bool
  pub groups : List String
  pub managed_tokens : List String
  pub managed_global_permissions : List String
  pub conditions : List Condition

pub record User : Type 0 where
  pub meta : ObjectMeta
  pub spec : UserSpec
  pub status : UserStatus
