-- ===== src/Admission.antt =====
-- The validating webhooks of api/v1alpha1.
pub mod Version
pub mod Namespace
use sonarqube_operator.Prelude.{String, ◌<>◌, Bool, Option, none, some, not, ◌==◌, if◌then◌else◌}
use sonarqube_operator.Api.{Instance, InstanceRef, ClusterSpec}
use sonarqube_operator.Exec.{Env, Kind, Exec, Result, ok, err}
use sonarqube_operator.Controller.{new_error}
use Version.{validate_version_not_downgraded}
use Namespace.{validate_instance_ref_namespace}

module _ (quote : String → String) where
  -- spec.cluster is only for the enterprise edition.
  unfoldable pub validate_cluster_edition_match : String → Option ClusterSpec → Result (Unit {0})
  validate_cluster_edition_match edition none = ok tt
  validate_cluster_edition_match edition (some _) =
      if not (edition == "enterprise")
      then err (new_error ("spec.cluster requires spec.edition=enterprise, got " <> quote edition))
      else ok tt

  abbrev pub both : Result (Unit {0}) → Result (Unit {0}) → Result (Unit {0})
  both (err e) second = err e
  both (ok _) second = second

  unfoldable pub validate_create : Instance → Result (Unit {0})
  unfolding validate_cluster_edition_match
  validate_create i = validate_cluster_edition_match i.spec.edition i.spec.cluster

  unfoldable pub validate_update : (old new : Instance) → Result (Unit {0})
  validate_update old new =
      both (validate_version_not_downgraded quote old.spec.version new.spec.version)
        (validate_cluster_edition_match new.spec.edition new.spec.cluster)

-- genericInstanceRefValidator: the namespace and the reference that the extractor gives.
module _ {E : Env} {k : Kind} {T : Type 0} (extractor : T → String × InstanceRef) where
  unfoldable pub ref_validate_create : T → Exec E k (Unit {0})
  ref_validate_create o = let (ns, ref) = extractor o in validate_instance_ref_namespace ns ref

  unfoldable pub ref_validate_update : (old new : T) → Exec E k (Unit {0})
  ref_validate_update old new =
      let (ns, ref) = extractor new in validate_instance_ref_namespace ns ref
