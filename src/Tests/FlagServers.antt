-- ===== src/Tests/FlagServers.antt =====
-- An API server that keeps the flag of one instance under versions, and a SonarQube that restarts.
use sonarqube_operator.Prelude.{ℕ, String, Bool, true, false, [], ◌∷◌, ◌==◌, if◌then◌else◌}
use sonarqube_operator.Api.{Instance}
use sonarqube_operator.Sonar.{restart, install_plugin, uninstall_plugin}
use sonarqube_operator.Exec.{
  Env, instance_kind, secret_kind, Call, Reply, kube_get, kube_update_status, kube_patch_status,
  sonar, other, Result, ok, err,
}
use sonarqube_operator.Restart.Server.{merged}
use sonarqube_operator.Tests.World.{world, failure, instance_in, meta_named}

pub data Version : Type 0 where
  first second third : Version

pub record Shop : Type 0 where
  pub flag : Bool
  pub version : Version
  pub waiting : Bool

abbrev pub number : Version → ℕ
number first = 1
number second = 2
number third = 3

abbrev pub text : Version → String
text first = "1"
text second = "2"
text third = "3"

abbrev pub revision : String → ℕ
revision s = if s == "1" then 1 else if s == "2" then 2 else if s == "3" then 3 else 0

abbrev pub stored_as : Bool → Version → Instance
stored_as flag version =
    let i = instance_in "Ready" [] in
    record {
      meta = record i.meta { resource_version = text version };
      spec = i.spec;
      status = record i.status { restart_required = flag };
    }

abbrev pub advance : Version → Bool → Shop → Result Instance × Shop
advance first flag v = (ok (stored_as flag second), record v { flag = flag; version = second })
advance second flag v = (ok (stored_as flag third), record v { flag = flag; version = third })
advance third flag v = (err (failure other "full"), v)

abbrev pub store : Bool → Instance → Shop → Result Instance × Shop
store true o v = advance v.version o.status.restart_required v
store false o v = (err (failure other "conflict"), v)

abbrev pub shop_answer : (c : Call) → Shop → Result (Reply c) × Shop
shop_answer (kube_get instance_kind _) v = (ok (stored_as v.flag v.version), v)
shop_answer (kube_get secret_kind _) v =
    (ok (record { meta = meta_named "secret" [] false; entries = ("token", "abc") ∷ [] }), v)
shop_answer (kube_update_status instance_kind o) v =
    store (o.meta.resource_version == text v.version) o v
shop_answer (kube_patch_status instance_kind old new) v =
    advance v.version (merged old.status.restart_required new.status.restart_required v.flag) v
shop_answer (sonar _ restart) v = (ok tt, record v { waiting = false })
shop_answer (sonar _ (install_plugin _ _)) v = (ok tt, record v { waiting = true })
shop_answer (sonar _ (uninstall_plugin _)) v = (ok tt, record v { waiting = true })
shop_answer c v = (err (failure other "refused"), v)

abbrev pub shop : Env
shop = record {
  State = Shop;
  answer = shop_answer;
  contains_finalizer = world.contains_finalizer;
  add_finalizer = world.add_finalizer;
  remove_finalizer = world.remove_finalizer;
  set_controller_reference = world.set_controller_reference;
  set_status_condition = world.set_status_condition;
  quote = world.quote;
  date_after = λ v n. "";
  range = λ v l. l;
}
