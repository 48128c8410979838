-- ===== src/Api/Scaffolds.antt =====
-- Backups and branch rules: sonarqubebackup_types.go and sonarqubebranchrule_types.go of api/v1alpha1.
-- A count is a natural number, which the schema of the CRD bounds from below, and a time is a text.
use sonarqube_operator.Prelude.{ℕ, String, Option, List}
use sonarqube_operator.Api.{InstanceRef, ObjectMeta, Condition}

pub record PvcBackupDestination : Type 0 where
  pub claim_name : String
  pub sub_path : String

pub record S3BackupDestination : Type 0 where
  pub bucket : String
  pub region : String
  pub endpoint : String
  pub credentials_secret_ref : Option String

pub record BackupDestination : Type 0 where
  pub pvc : Option PvcBackupDestination
  pub s3 : Option S3BackupDestination

pub record BackupSpec : Type 0 where
  pub instance_ref : InstanceRef
  pub schedule : String
  pub retention : ℕ
  pub destination : BackupDestination

pub record BackupStatus : Type 0 where
  pub phase : String
  pub cron_job_name : String
  pub last_successful_backup : Option String
  pub conditions : List Condition

pub record Backup : Type 0 where
  pub meta : ObjectMeta
  pub spec : BackupSpec
  pub status : BackupStatus

pub record NewCodePeriodSpec : Type 0 where
  pub mode : String
  pub value : String

pub record BranchRuleSpec : Type 0 where
  pub instance_ref : InstanceRef
  pub project_key : String
  pub branch : String
  pub new_code_period : Option NewCodePeriodSpec
  pub quality_gate : String
  pub settings : List (String × String)

pub record BranchRuleStatus : Type 0 where
  pub phase : String
  pub conditions : List Condition

pub record BranchRule : Type 0 where
  pub meta : ObjectMeta
  pub spec : BranchRuleSpec
  pub status : BranchRuleStatus
