-- ===== src/Instance.antt =====
-- SonarQubeInstanceReconciler.Reconcile and the owned objects
-- (internal/controller/sonarqubeinstance_controller.go); reconcileHealth is in InstanceHealth. The
-- semantic equality of pods, the parser of quantities and the verb %d are parameters.
pub mod Build
pub mod Settling
pub mod Preserving
use sonarqube_operator.Prelude.{ℕ, String, ◌<>◌, Bool, true, false, not, ◌&&◌, ◌==◌, if◌then◌else◌}
use sonarqube_operator.Kube.{PodSpec}
use sonarqube_operator.Api.{Instance, ObjectMeta, NamespacedName}
use sonarqube_operator.Api.Owned.{StatefulSet, Service, Ingress}
use sonarqube_operator.Exec.{
  Env, Kind, Obj, instance_kind, stateful_set_kind, service_kind, ingress_kind, Exec, kube_get,
  kube_update, kube_create, normal, warning, Error, Result, ok, err, pure, raise, lift, attempt,
  wrap, wrap_error, wrap_result, ◌>>=◌, ◌>>◌, perform, emit, object, put, modify, update_status,
  is_not_found,
}
use sonarqube_operator.Controller.{CtrlResult, done, instance_api_url}
use sonarqube_operator.InstanceHealth.{surface_scaffold_degraded, reconcile_health}
use Build.{build_stateful_set, build_headless_service, build_service, build_ingress}

-- The name under which an object is looked up.
abbrev pub key_of_meta : ObjectMeta → NamespacedName
key_of_meta m = record { namespace = m.namespace; name = m.name }

-- The six fields of the pod that the code sets anew.
abbrev pub with_pod_of : StatefulSet → StatefulSet → StatefulSet
with_pod_of desired existing =
    let want = desired.spec.template_spec in
    record existing {
      spec = record existing.spec {
        template_spec = record existing.spec.template_spec {
          init_containers = want.init_containers;
          containers = want.containers;
          security_context = want.security_context;
          node_selector = want.node_selector;
          tolerations = want.tolerations;
          affinity = want.affinity;
        };
      };
    }

abbrev pub with_ports_of : Service → Service → Service
with_ports_of desired existing = record existing {
  spec = record existing.spec { ports = desired.spec.ports; type = desired.spec.type };
}

abbrev pub with_rules_of : Ingress → Ingress → Ingress
with_rules_of desired existing = record existing {
  spec = record existing.spec {
    rules = desired.spec.rules;
    ingress_class_name = desired.spec.ingress_class_name;
  };
}

-- The URL of the ingress, where one is enabled and has a host.
abbrev pub public_url : Instance → String
public_url i =
    if i.spec.ingress.enabled && not (i.spec.ingress.host == "")
    then "http://" <> i.spec.ingress.host
    else instance_api_url i

module _ {E : Env} where
  -- A creation and an update whose answers are dropped.
  create : (k : Kind) → Obj k → Exec E instance_kind (Unit {0})
  create k o = do perform (kube_create k o); pure tt

  replace : (k : Kind) → Obj k → Exec E instance_kind (Unit {0})
  replace k o = do perform (kube_update k o); pure tt

  stateful_set_found :
      (PodSpec → PodSpec → Bool)
      → StatefulSet
      → Result StatefulSet
      → Exec E instance_kind (Unit {0})
  unfolding create replace
  stateful_set_found deep_equal desired (err e) =
      if is_not_found e
      then (do
        emit normal "StatefulSetCreated" "StatefulSet created"
        create stateful_set_kind desired)
      else raise e
  stateful_set_found deep_equal desired (ok existing) =
      if deep_equal desired.spec.template_spec existing.spec.template_spec
      then pure tt
      else replace stateful_set_kind (with_pod_of desired existing)

  unfoldable pub reconcile_stateful_set :
      (PodSpec → PodSpec → Bool)
      → (String → Result String)
      → (ℕ → String)
      → Exec E instance_kind (Unit {0})
  unfolding stateful_set_found
  reconcile_stateful_set deep_equal parse_quantity decimal = do
    i ← object
    desired ←
        lift (wrap_result "building StatefulSet" (build_stateful_set E parse_quantity decimal i))
    m ← lift (E.set_controller_reference i.meta desired.meta)
    found ← attempt (perform (kube_get stateful_set_kind (key_of_meta desired.meta)))
    stateful_set_found deep_equal (record desired { meta = m }) found

  headless_found : Service → Result Service → Exec E instance_kind (Unit {0})
  unfolding create
  headless_found desired (err e) = if is_not_found e then create service_kind desired else raise e
  headless_found desired (ok existing) = pure tt

  -- A headless Service that is there is left as it is.
  unfoldable pub reconcile_headless_service : Exec E instance_kind (Unit {0})
  unfolding headless_found
  reconcile_headless_service = do
    i ← object
    m ← lift (E.set_controller_reference i.meta (build_headless_service i).meta)
    found ← attempt (perform (kube_get service_kind (key_of_meta (build_headless_service i).meta)))
    headless_found (record (build_headless_service i) { meta = m }) found

  service_found : Service → Result Service → Exec E instance_kind (Unit {0})
  unfolding create replace
  service_found desired (err e) =
      if is_not_found e
      then (do emit normal "ServiceCreated" "Service created"; create service_kind desired)
      else raise e
  service_found desired (ok existing) = replace service_kind (with_ports_of desired existing)

  unfoldable pub reconcile_service : Exec E instance_kind (Unit {0})
  unfolding service_found
  reconcile_service = do
    i ← object
    m ← lift (E.set_controller_reference i.meta (build_service i).meta)
    found ← attempt (perform (kube_get service_kind (key_of_meta (build_service i).meta)))
    service_found (record (build_service i) { meta = m }) found

  ingress_found : Ingress → Result Ingress → Exec E instance_kind (Unit {0})
  unfolding create replace
  ingress_found desired (err e) =
      if is_not_found e
      then (do emit normal "IngressCreated" "Ingress created"; create ingress_kind desired)
      else raise e
  ingress_found desired (ok existing) = replace ingress_kind (with_rules_of desired existing)

  unfoldable pub reconcile_ingress : Exec E instance_kind (Unit {0})
  unfolding ingress_found
  reconcile_ingress = do
    i ← object
    if not i.spec.ingress.enabled then pure tt else do
      m ← lift (E.set_controller_reference i.meta (build_ingress i).meta)
      found ← attempt (perform (kube_get ingress_kind (key_of_meta (build_ingress i).meta)))
      ingress_found (record (build_ingress i) { meta = m }) found

  failed : (reason prefix : String) → Result (Unit {0}) → Exec E instance_kind (Unit {0})
  failed reason prefix (ok _) = pure tt
  failed reason prefix (err e) = do emit warning reason e.message; raise (wrap_error prefix e)

  -- An error of a step becomes a Warning event, and ends the reconciliation.
  step :
      (reason prefix : String) → Exec E instance_kind (Unit {0}) → Exec E instance_kind (Unit {0})
  unfolding failed
  step reason prefix m = do r ← attempt m; failed reason prefix r

  -- What follows the owned objects: the health of SonarQube, the URL and the status.
  settle_status : Exec E instance_kind CtrlResult
  settle_status = do
    i ← object
    result ← reconcile_health (instance_api_url i)
    modify (λ j. record j { status = record j.status { url = public_url j } })
    wrap "updating status" update_status
    pure result

  module _ (deep_equal : PodSpec → PodSpec → Bool) (parse_quantity : String → Result String)
      (decimal : ℕ → String) where
    with_instance : Result Instance → Exec E instance_kind CtrlResult
    unfolding step settle_status
    with_instance (err e) = if is_not_found e then pure done else raise e
    with_instance (ok i) = do
      put i
      surface_scaffold_degraded
      step "StatefulSetFailed" "reconciling StatefulSet"
          (reconcile_stateful_set deep_equal parse_quantity decimal)
      step "HeadlessServiceFailed" "reconciling headless Service" reconcile_headless_service
      step "ServiceFailed" "reconciling Service" reconcile_service
      step "IngressFailed" "reconciling Ingress" reconcile_ingress
      settle_status

    unfoldable pub reconcile_instance : NamespacedName → Exec E instance_kind CtrlResult
    unfolding with_instance
    reconcile_instance request = do
      i ← attempt (perform (kube_get instance_kind request))
      with_instance i
