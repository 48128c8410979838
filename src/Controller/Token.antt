-- ===== src/Controller/Token.antt =====
-- Reading the admin token leaves the object in memory alone, and calls at most for one Secret.
use sonarqube_operator.Api.{NamespacedName, Instance, Secret}
use sonarqube_operator.Exec.{Env, Kind, kube_get, secret_kind}
use sonarqube_operator.Exec.Object.{
  SameObject, SameObject-pure, SameObject-raise, SameObject-bind, SameObject-wrapped, SameObject-if,
}
use sonarqube_operator.Exec.Kept.{Kept, Kept-pure, Kept-raise, Kept-bind, Kept-wrapped, Kept-if}
use sonarqube_operator.Controller.{get_instance_admin_token, token_of}

module _ {E : Env} {k : Kind} where
  token_of-SameObject :
      (i : Instance) (secret : Secret) → SameObject (token_of {E = E} {k = k} i secret)
  unfolding token_of
  token_of-SameObject i secret = SameObject-if _ _ _ (SameObject-raise _) (SameObject-pure _)

  pub get_instance_admin_token-SameObject :
      (i : Instance) → SameObject (get_instance_admin_token {E = E} {k = k} i)
  unfolding get_instance_admin_token
  get_instance_admin_token-SameObject i = SameObject-if _ _ _ (SameObject-raise _) (
      SameObject-bind _ _
        (SameObject-wrapped "getting admin token secret" (
          kube_get secret_kind
            (record { namespace = i.meta.namespace; name = i.status.admin_token_secret_ref })))
        (λ secret. token_of-SameObject i secret))

  module _ {P : E.State → Type 0} where
    token_of-Kept : (i : Instance) (secret : Secret) → Kept P (token_of {E = E} {k = k} i secret)
    unfolding token_of
    token_of-Kept i secret = Kept-if _ _ _ (Kept-raise _) (Kept-pure _)

    pub get_instance_admin_token-Kept :
        (i : Instance)
        → ((name : NamespacedName) (v : E.State)
            → P v
            → P (E.answer (kube_get secret_kind name) v).1)
        → Kept P (get_instance_admin_token {E = E} {k = k} i)
    unfolding get_instance_admin_token
    get_instance_admin_token-Kept i reads = Kept-if _ _ _ (Kept-raise _) (
        Kept-bind _ _ (Kept-wrapped "getting admin token secret" _ (reads _))
          (λ secret. token_of-Kept i secret))
