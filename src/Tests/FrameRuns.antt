-- ===== src/Tests/FrameRuns.antt =====
-- The frame of the controllers, on the project controller.
use sonarqube_operator.Prelude.{true, [], ◌∷◌}
use sonarqube_operator.Api.{Project, Instance, NamespacedName}
use sonarqube_operator.Exec.{project_kind, St, Result}
use sonarqube_operator.Tests.World.{cluster, project_with, instance_in}

abbrev starting : Instance
starting = instance_in "Starting" []

abbrev held : Project
held = project_with ("sonarqube.io/project-finalizer" ∷ []) true

abbrev request : NamespacedName
request = record { namespace = "team"; name = "shop" }

abbrev at : (p : Project) (i : Result Instance) → St (cluster p i) project_kind
at p i = record { server = 0; object = p; history = [] }
