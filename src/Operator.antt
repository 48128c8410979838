-- ===== src/Operator.antt =====
-- The controllers over the HTTP client: NewSonarClient and NewSonarClientWithPassword of cmd/main.go
-- put the client of internal/sonarqube/client.go behind the calls of a reconciliation.
pub mod Lookup
use sonarqube_operator.Prelude.{ℕ, String, List}
use sonarqube_operator.Exec.{
  Env, Call, Reply, kube_get, kube_update, kube_update_status, kube_create, kube_delete, kube_patch,
  kube_patch_status, sonar, Credentials, bearer, basic, Result,
}
use sonarqube_operator.HttpClient.Transport.{
  HttpClient, Transport, new_client, new_client_with_password,
}
use sonarqube_operator.HttpClient.Dispatch.{invoke}

unfoldable pub client_of : Credentials → HttpClient
client_of (bearer url token) = new_client url token
client_of (basic url username password) = new_client_with_password url username password

-- The API server and the helpers of `K`, with SonarQube behind the transport `T`.
module _ (K : Env) (T : Transport) where
  abbrev beside : {A : Type 0} → T.State → Result A × K.State → Result A × (K.State × T.State)
  beside t (r, k) = (r, (k, t))

  unfoldable pub answer_over_http :
      (c : Call) → K.State × T.State → Result (Reply c) × (K.State × T.State)
  answer_over_http (sonar credentials call) (k, t) =
      let (r, (t', sent)) = invoke T (client_of credentials) call t in (r, (k, t'))
  answer_over_http (kube_get kind key) (k, t) = beside t (K.answer (kube_get kind key) k)
  answer_over_http (kube_update kind o) (k, t) = beside t (K.answer (kube_update kind o) k)
  answer_over_http (kube_update_status kind o) (k, t) =
      beside t (K.answer (kube_update_status kind o) k)
  answer_over_http (kube_create kind o) (k, t) = beside t (K.answer (kube_create kind o) k)
  answer_over_http (kube_delete kind o) (k, t) = beside t (K.answer (kube_delete kind o) k)
  answer_over_http (kube_patch kind old new) (k, t) =
      beside t (K.answer (kube_patch kind old new) k)
  answer_over_http (kube_patch_status kind old new) (k, t) =
      beside t (K.answer (kube_patch_status kind old new) k)

  abbrev pub over_http : Env
  over_http = record {
    State = K.State × T.State;
    answer = answer_over_http;
    contains_finalizer = K.contains_finalizer;
    add_finalizer = K.add_finalizer;
    remove_finalizer = K.remove_finalizer;
    set_controller_reference = K.set_controller_reference;
    set_status_condition = K.set_status_condition;
    quote = K.quote;
    date_after = λ s n. K.date_after s.0 n;
    range = λ s l. K.range s.0 l;
  }
