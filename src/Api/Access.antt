-- ===== src/Api/Access.antt =====
-- Groups, webhooks and permission templates: sonarqubegroup_types.go, sonarqubewebhook_types.go and
-- sonarqubepermissiontemplate_types.go of api/v1alpha1.
use sonarqube_operator.Prelude.{String, Bool, Option, List}
use sonarqube_operator.Api.{InstanceRef, ObjectMeta, Condition}

pub record GroupSpec : Type 0 where
  pub instance_ref : InstanceRef
  pub name : String
  pub description : String

pub record GroupStatus : Type 0 where
  pub phase : String
  pub conditions : List Condition

pub record Group : Type 0 where
  pub meta : ObjectMeta
  pub spec : GroupSpec
  pub status : GroupStatus

-- `secret_ref` is the name of a Secret in the namespace of the webhook.
pub record WebhookSpec : Type 0 where
  pub instance_ref : InstanceRef
  pub name : String
  pub url : String
  pub project_key : String
  pub secret_ref : Option String

pub record WebhookStatus : Type 0 where
  pub phase : String
  pub webhook_key : String
  pub conditions : List Condition

pub record Webhook : Type 0 where
  pub meta : ObjectMeta
  pub spec : WebhookSpec
  pub status : WebhookStatus

pub record TemplateSpec : Type 0 where
  pub instance_ref : InstanceRef
  pub name : String
  pub description : String
  pub project_key_pattern : String
  pub is_default : Bool

pub record TemplateStatus : Type 0 where
  pub phase : String
  pub template_id : String
  pub conditions : List Condition

pub record Template : Type 0 where
  pub meta : ObjectMeta
  pub spec : TemplateSpec
  pub status : TemplateStatus
