-- ===== src/Admission/Namespace.antt =====
-- ValidateInstanceRefNamespace (api/v1alpha1/cross_namespace_validator.go).
pub mod Policy
use sonarqube_operator.Prelude.{
  String, ◌<>◌, Bool, true, false, ◌||◌, List, [], ◌∷◌, ◌==◌, if◌then◌else◌,
}
use sonarqube_operator.Text.{split, trim_space}
use sonarqube_operator.Api.{Instance, InstanceRef, NamespacedName}
use sonarqube_operator.Exec.{
  Env, Kind, instance_kind, kube_get, Exec, pure, raise, wrap, ◌>>=◌, ◌>>◌, perform,
}
use sonarqube_operator.Controller.{new_error, value_at}

abbrev pub cross_namespace_annotation : String
cross_namespace_annotation = "sonarqube.io/cross-namespace-from"

-- The annotation of the instance, without surrounding white space.
abbrev pub allowed_from : Instance → String
allowed_from i = trim_space (value_at cross_namespace_annotation i.meta.annotations)

-- Some entry of the comma-separated list is the caller's namespace.
unfoldable pub some_entry : (caller : String) → List String → Bool
unfolding trim_space
some_entry caller [] = false
some_entry caller (entry ∷ rest) = trim_space entry == caller || some_entry caller rest

abbrev pub target_key : InstanceRef → NamespacedName
target_key ref = record { namespace = ref.namespace; name = ref.name }

module _ {E : Env} {k : Kind} where
  -- The decision behind the read of the target.
  opted_in : (caller target : String) → InstanceRef → Instance → Exec E k (Unit {0})
  unfolding some_entry split trim_space value_at
  opted_in caller target ref i =
      let allowed = allowed_from i in
      if allowed == ""
      then raise (
          new_error (
            "cross-namespace instanceRef rejected: SonarQubeInstance "
            <> (E.quote ref.name
                <> (" in namespace "
                    <> (E.quote target
                        <> (" does not carry the "
                            <> (E.quote cross_namespace_annotation
                                <> " annotation — see docs/operations/multi-tenancy.md")))))))
      else if allowed == "*"
      then pure tt
      else if some_entry caller (split b',' allowed)
      then pure tt
      else raise (
          new_error (
            "cross-namespace instanceRef rejected: namespace "
            <> (E.quote caller
                <> (" is not in the allowlist "
                    <> (E.quote allowed
                        <> (" on SonarQubeInstance "
                            <> (E.quote target <> ("/" <> E.quote ref.name))))))))

  unfoldable pub validate_instance_ref_namespace :
      (caller : String) → InstanceRef → Exec E k (Unit {0})
  unfolding opted_in
  validate_instance_ref_namespace caller ref =
      if ref.namespace == "" || ref.namespace == caller then pure tt else do
        i ←
            wrap
              ("cross-namespace instanceRef rejected: cannot verify target SonarQubeInstance "
                <> (E.quote ref.name <> (" in namespace " <> E.quote ref.namespace)))
              (perform (kube_get instance_kind (target_key ref)))
        opted_in caller ref.namespace ref i
