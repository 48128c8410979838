-- ===== src/Tests/Admissions.antt =====
-- Admission of small updates and references.
use sonarqube_operator.Prelude.{String, ◌≡◌, ◌↔◌, ◌⊎◌, refl, arith, none, some, [], ◌∷◌}
use sonarqube_operator.Api.{Instance, InstanceRef}
use sonarqube_operator.Exec.{project_kind, instance_kind, kube_get, St, ok}
use sonarqube_operator.Admission.Version.{
  pos, lt_ℤ, eq_ℤ, is_lower, parse_major_minor, validate_version_not_downgraded, atoi, digits,
}
use sonarqube_operator.Admission.Version.Order.{
  Below, validate_version_not_downgraded_iff, Admitted-last,
}
use sonarqube_operator.Admission.Namespace.{
  allowed_from, target_key, cross_namespace_annotation, validate_instance_ref_namespace,
}
use sonarqube_operator.Admission.Namespace.Policy.{Permits, validate_instance_ref_namespace_iff}
use sonarqube_operator.Text.{cut, split_n}
use sonarqube_operator.Tests.World.{cluster, project, instance_in}

abbrev bare : String → String
bare s = s

old_parsed : parse_major_minor "10.3.0" ≡ some (pos 10, pos 3)
unfolding parse_major_minor split_n cut atoi digits
old_parsed = refl

new_parsed : parse_major_minor "10.4" ≡ some (pos 10, pos 4)
unfolding parse_major_minor split_n cut atoi digits
new_parsed = refl

unparsed : parse_major_minor "latest" ≡ none
unfolding parse_major_minor split_n cut
unparsed = refl

upgraded : validate_version_not_downgraded bare "10.3.0" "10.4" ≡ ok tt
unfolding is_lower lt_ℤ eq_ℤ
upgraded =
    (validate_version_not_downgraded_iff bare "10.3.0" "10.4" _ _ old_parsed new_parsed).1
      (ground arith)

validate_version_not_downgraded_iff_example :
    (validate_version_not_downgraded bare "10.3.0" "10.4" ≡ ok tt)
    ↔ ¬ Below (pos 10, pos 4) (pos 10, pos 3)
validate_version_not_downgraded_iff_example =
    validate_version_not_downgraded_iff bare "10.3.0" "10.4" (pos 10, pos 3) (pos 10, pos 4)
      old_parsed new_parsed

Admitted-last_example : ¬ Below (pos 10, pos 4) (pos 10, pos 3)
Admitted-last_example =
    Admitted-last bare "10.3.0" ("10.4" ∷ []) (pos 10, pos 3) (pos 10, pos 4) old_parsed
      (upgraded, ((pos 10, pos 4), new_parsed), tt) new_parsed

abbrev shared : Instance
shared = instance_in "Ready" ((cross_namespace_annotation, "team, other") ∷ [])

abbrev ref : InstanceRef
ref = record { name = "sq"; namespace = "shared" }

abbrev at_start : St (cluster project (ok shared)) project_kind
at_start = record { server = 0; object = project; history = [] }

validate_instance_ref_namespace_iff_example :
    ((validate_instance_ref_namespace "team" ref at_start).0 ≡ ok tt) ↔ (
      ((ref.namespace ≡ "") ⊎ (ref.namespace ≡ "team"))
      ⊎ ((i : Instance) × (((cluster project (ok shared)).answer
              (kube_get instance_kind (target_key ref))
              0).0
            ≡ ok i)
          × Permits "team" (allowed_from i)))
validate_instance_ref_namespace_iff_example =
    validate_instance_ref_namespace_iff "team" ref at_start
