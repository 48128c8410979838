-- ===== src/Api/Owned.antt =====
-- The objects that an instance owns: apps/v1 StatefulSet, core/v1 Service and networking/v1 Ingress.
use sonarqube_operator.Api.{ObjectMeta}
use sonarqube_operator.Kube.{Labels, StatefulSetSpec, ServiceSpec, IngressRules}

pub record StatefulSet : Type 0 where
  pub meta : ObjectMeta
  pub labels : Labels
  pub spec : StatefulSetSpec

pub record Service : Type 0 where
  pub meta : ObjectMeta
  pub labels : Labels
  pub spec : ServiceSpec

pub record Ingress : Type 0 where
  pub meta : ObjectMeta
  pub spec : IngressRules
