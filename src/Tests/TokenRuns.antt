-- ===== src/Tests/TokenRuns.antt =====
-- reconcileCIToken on a small project.
use sonarqube_operator.Prelude.{◌≡◌, refl, Bool, true, false, [], ◌∷◌}
use sonarqube_operator.Api.{Project, Instance, Secret}
use sonarqube_operator.Exec.{kube_patch, Call}
use sonarqube_operator.Controller.{value_at}
use sonarqube_operator.Project.CiToken.{rotate_annotation, reconcile_ci_token, wants_rotation}
use sonarqube_operator.Project.CiToken.Rotation.{RevokedFirst, reconcile_ci_token-RevokedFirst}
use sonarqube_operator.Tests.World.{world, creds, project, start, instance_in, meta_named}

abbrev ready : Instance
ready = instance_in "Ready" []

abbrev stored : Secret
stored = record { meta = meta_named "secret" [] false; entries = ("token", "abc") ∷ [] }

abbrev rotating : Project
rotating = record project {
  meta = record project.meta { annotations = (rotate_annotation, "true") ∷ [] };
}

reconcile_ci_token-RevokedFirst_example :
    RevokedFirst (reconcile_ci_token ready creds (start rotating)).1.history
reconcile_ci_token-RevokedFirst_example =
    reconcile_ci_token-RevokedFirst world ready creds (start rotating) tt

quiet : wants_rotation project ≡ false
unfolding value_at
quiet = refl

abbrev is_patch : Call → Bool
is_patch (kube_patch _ _ _) = true
is_patch _ = false

asked : wants_rotation rotating ≡ true
unfolding value_at
asked = refl
