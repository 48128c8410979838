-- ===== src/Controller/Logged.antt =====
-- What a whole Reconcile adds to the history: an invariant of the two handlers, where calls to the API
-- server keep it, is one of the controller.
use sonarqube_operator.Prelude.{String, Bool}
use sonarqube_operator.Api.{Instance, NamespacedName, Secret}
use sonarqube_operator.Exec.{
  Env, Kind, Obj, Call, sonar, Action, called, Credentials, Result, ok, err,
}
use sonarqube_operator.Exec.Rules.{Logs, log_rules}
use sonarqube_operator.Controller.{
  Handlers, token_of, get_instance_admin_token, release, ensure_finalizer, with_token,
  reconcile_live, with_instance, with_object, reconcile,
}

-- A call to the API server.
abbrev pub Kube : Call → Type 0
Kube (sonar _ _) = ⊥
Kube _ = Unit

module _ {E : Env} {k : Kind} {P : Action → Type 0}
    (kube : (c : Call) → Kube c → (b : Bool) → P (called c b)) where
  token_of-Logs : (i : Instance) (secret : Secret) → Logs P (token_of {E = E} {k = k} i secret)
  unfolding token_of
  token_of-Logs i secret = search log_rules

  pub get_instance_admin_token-Logs :
      (i : Instance) → Logs P (get_instance_admin_token {E = E} {k = k} i)
  unfolding get_instance_admin_token
  get_instance_admin_token-Logs i = search (log_rules, kube, token_of-Logs)

  pub release-Logs : (finalizer : String) → Logs P (release {E = E} {k = k} finalizer)
  unfolding release
  release-Logs finalizer = search (log_rules, kube)

  ensure_finalizer-Logs : (finalizer : String) → Logs P (ensure_finalizer {E = E} {k = k} finalizer)
  unfolding ensure_finalizer
  ensure_finalizer-Logs finalizer = search (log_rules, kube)

  module _ (h : Handlers E k) (finalize : (i : Instance) → Logs P (h.finalize i))
      (ensure : (i : Instance) (c : Credentials) → Logs P (h.ensure i c)) where
    with_token-Logs : (i : Instance) (r : Result String) → Logs P (with_token h i r)
    unfolding with_token
    with_token-Logs i (err e) = search (log_rules, kube)
    with_token-Logs i (ok token) = search (log_rules, ensure_finalizer-Logs, ensure)

    reconcile_live-Logs : (i : Instance) → Logs P (reconcile_live h i)
    unfolding reconcile_live
    reconcile_live-Logs i = search (log_rules, kube, get_instance_admin_token-Logs, with_token-Logs)

    with_instance-Logs : (r : Result Instance) → Logs P (with_instance h r)
    unfolding with_instance
    with_instance-Logs (err e) = search (log_rules, release-Logs)
    with_instance-Logs (ok i) = search (log_rules, finalize, reconcile_live-Logs)

    with_object-Logs : (r : Result (Obj k)) → Logs P (with_object h r)
    unfolding with_object
    with_object-Logs (err e) = search log_rules
    with_object-Logs (ok o) = search (log_rules, kube, with_instance-Logs)

    -- The calls of a reconciler are those of its two handlers, beside calls to the API server.
    pub reconcile-Logs : (request : NamespacedName) → Logs P (reconcile h request)
    unfolding reconcile
    reconcile-Logs request = search (log_rules, kube, with_object-Logs)
