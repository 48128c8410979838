-- ===== src/Instance/Preserving.antt =====
-- What the reconciliation of the StatefulSet writes.
use sonarqube_operator.Prelude.{◌≡◌, Bool, true, List, ◌∷◌, ◌⊎◌}
use sonarqube_operator.Api.{Instance, NamespacedName}
use sonarqube_operator.Api.Owned.{StatefulSet}
use sonarqube_operator.Exec.{
  Env, instance_kind, stateful_set_kind, St, kube_get, kube_update, kube_create, Action, called,
  event, normal, Error, Result, ok, err, is_ok, is_not_found,
}

-- The two agree in all that the pods of a StatefulSet do not need: its metadata, its labels, the
-- number of replicas, the headless service, the selector, the labels of the pods, the volume claims,
-- and the fields of a pod that the operator does not set.
pub record Preserved (old new : StatefulSet) : Type 0 where
  pub meta : new.meta ≡ old.meta
  pub labels : new.labels ≡ old.labels
  pub replicas : new.spec.replicas ≡ old.spec.replicas
  pub service_name : new.spec.service_name ≡ old.spec.service_name
  pub selector : new.spec.selector ≡ old.spec.selector
  pub template_labels : new.spec.template_labels ≡ old.spec.template_labels
  pub claims : new.spec.volume_claim_templates ≡ old.spec.volume_claim_templates
  pub others : new.spec.template_spec.others ≡ old.spec.template_spec.others

module _ (E : Env) where
  abbrev Run : Type 0
  Run = Result (Unit {0}) × St E instance_kind

  -- What follows the lookup with the result `r`: nothing; a creation, where the StatefulSet is not
  -- there; or an update of the one that is there, which preserves it.
  abbrev Behind : Result StatefulSet → List Action → Run → Type 0
  Behind r h run =
      (run.1.history ≡ h)
      ⊎ (((e : Error) × (d : StatefulSet) × (b : Bool) × (r ≡ err e)
            × (is_not_found e ≡ true)
            × (run.1.history
                ≡ called (kube_create stateful_set_kind d) b
                  ∷ event normal "StatefulSetCreated" "StatefulSet created"
                  ∷ h))
          ⊎ ((old new : StatefulSet) × (b : Bool) × (r ≡ ok old)
              × Preserved old new
              × (run.1.history ≡ called (kube_update stateful_set_kind new) b ∷ h)))

  -- No call at all, with an error; or a lookup and what follows it.
  abbrev pub Preserves : St E instance_kind → Run → Type 0
  Preserves s run =
      ((e : Error) × (run.0 ≡ err e) × (run.1.history ≡ s.history))
      ⊎ ((key : NamespacedName) × (let r = (E.answer (kube_get stateful_set_kind key) s.server).0 in
            Behind r (called (kube_get stateful_set_kind key) (is_ok r) ∷ s.history) run))
