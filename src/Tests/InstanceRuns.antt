-- ===== src/Tests/InstanceRuns.antt =====
-- An instance that is checked.
use sonarqube_operator.Prelude.{◌⊎◌, ◌≡◌, refl, Bool, true, false, []}
use sonarqube_operator.Api.{Instance}
use sonarqube_operator.Exec.{instance_kind, secret_kind, St, kube_get, Env, Call, Error, ok, err}
use sonarqube_operator.InstanceHealth.{settle, initialize_admin}
use sonarqube_operator.InstanceHealth.Phases.{
  Settled, RestartKept, reconcile_health-Settled, settle-RestartKept,
}
use sonarqube_operator.InstanceHealth.Admin.{
  ChangedWhenRefused, initialize_admin-ChangedWhenRefused,
}
use sonarqube_operator.Api.{NamespacedName}
use sonarqube_operator.Controller.{CtrlResult}
use sonarqube_operator.Instance.{reconcile_instance}
use sonarqube_operator.Instance.Settling.{Written, reconcile_instance-Written}
use sonarqube_operator.InstanceHealth.{reconcile_health}
use sonarqube_operator.Tests.World.{cluster, project}
use sonarqube_operator.Tests.World.{world, refusing, instance_in}

abbrev fresh : Instance
fresh = instance_in "Progressing" []

abbrev asking : Instance
asking = record fresh { status = record fresh.status { restart_required = true } }

abbrev of_instance : (E : Env) → E.State → Instance → St E instance_kind
of_instance E v i = record { server = v; object = i; history = [] }

abbrev is_secret_read : Call → Bool
is_secret_read (kube_get secret_kind _) = true
is_secret_read _ = false

reconcile_health-Settled_example :
    Settled (reconcile_health "http://sq" (of_instance world 0 fresh))
reconcile_health-Settled_example =
    reconcile_health-Settled world "http://sq" (of_instance world 0 fresh)

settle-RestartKept_example :
    RestartKept "http://sq" (settle "http://sq" (of_instance world 0 asking))
settle-RestartKept_example = settle-RestartKept world "http://sq" (of_instance world 0 asking) refl

initialize_admin-ChangedWhenRefused_example :
    ChangedWhenRefused "http://sq"
      (initialize_admin "http://sq" (of_instance (refusing is_secret_read) 0 fresh)).1.history
initialize_admin-ChangedWhenRefused_example =
    initialize_admin-ChangedWhenRefused (refusing is_secret_read) "http://sq"
      (of_instance (refusing is_secret_read) 0 fresh) tt

abbrev there : Env
there = cluster project (ok (instance_in "Progressing" []))

abbrev request_of : NamespacedName
request_of = record { namespace = "team"; name = "sq" }

abbrev nowhere : St there instance_kind
nowhere = record { server = 0; object = instance_in "" []; history = [] }

reconcile_instance-Written_example :
    let run = reconcile_instance (λ a b. true) (λ q. ok q) (λ n. "5432") request_of nowhere in
    ((e : Error) × (run.0 ≡ err e)) ⊎ ((r : CtrlResult) × (run.0 ≡ ok r) × Written r run.1)
reconcile_instance-Written_example =
    reconcile_instance-Written there (λ a b. true) (λ q. ok q) (λ n. "5432") request_of nowhere
      (instance_in "Progressing" []) 1 refl
