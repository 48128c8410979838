-- ===== src/Tests/RestartRuns.antt =====
-- A signal for a restart while the instance controller is about to write the status that it read
-- before.
use sonarqube_operator.Prelude.{
  ◌≡◌, refl, ◌<◌, true, false, ◌⊎◌, some, arith, sym, ap, ◌∙◌, Bool, inl, inr, ◌==◌, eq_iff,
}
use sonarqube_operator.Api.{Instance, NamespacedName}
use sonarqube_operator.Exec.{
  St, instance_kind, ◌>>=◌, perform, emit, update_status, Kind, Obj, project_kind, plugin_kind,
  gate_kind, user_kind, secret_kind, group_kind, webhook_kind, template_kind, backup_kind,
  branch_rule_kind, stateful_set_kind, service_kind, ingress_kind, kube_get, sonar, Credentials,
  Error, Result, ok, err,
}
use sonarqube_operator.InstanceHealth.{settle}
use sonarqube_operator.Plugin.{signal_instance_restart}
use sonarqube_operator.Restart.{
  run_of, plugin_run_of, idle, Trace, start, later, instance_reads, instance_settles,
  instance_writes, plugin_reads, plugin_changes, plugin_signals,
}
use sonarqube_operator.Restart.Server.{
  installs, FlagServer, merged, PluginCall, changes, restarting, uninstalls,
}
use sonarqube_operator.Restart.Flag.{restart_flag-Kept}
use sonarqube_operator.Tests.World.{creds}
use sonarqube_operator.Tests.PluginRuns.{plugin}
use sonarqube_operator.Tests.FlagServers.{
  Version, first, second, third, Shop, number, text, revision, stored_as, advance, store,
  shop_answer, shop,
}
use mathlib.Core.Path.{subst}
use sonarqube_operator.Sonar.{SonarCall, restart}
use sonarqube_operator.Controller.{get_instance_admin_token}

revision-text : (n : Version) → revision (text n) ≡ number n
revision-text first = refl
revision-text second = refl
revision-text third = refl

abbrev Stored : Bool → Shop → Result Instance × Shop → Type 0
Stored flag v a =
    (a.1.waiting ≡ v.waiting)
    × (((a.1.flag ≡ v.flag) × (number a.1.version ≡ number v.version))
        ⊎ ((a.1.flag ≡ flag) × (number v.version < number a.1.version)))

advance-Stored :
    (n : Version) (flag : Bool) (v : Shop) → v.version ≡ n → Stored flag v (advance n flag v)
advance-Stored first flag v e = (refl, inr (refl, rw e (omega arith)))
advance-Stored second flag v e = (refl, inr (refl, rw e (omega arith)))
advance-Stored third flag v e = (refl, inl (refl, refl))

abbrev Answered : Result Instance × Shop → Type 0
Answered (ok i, t) =
    (revision i.meta.resource_version ≡ number t.version) × (i.status.restart_required ≡ t.flag)
Answered (err e, t) = Unit

advance-Answered : (n : Version) (flag : Bool) (v : Shop) → Answered (advance n flag v)
advance-Answered first flag v = (refl, refl)
advance-Answered second flag v = (refl, refl)
advance-Answered third flag v = tt

update_Stored :
    (b : Bool) (o : Instance) (v : Shop)
    → (o.meta.resource_version == text v.version) ≡ b
    → let a = store b o v in
      (a.1.waiting ≡ v.waiting)
      × (((a.1.flag ≡ v.flag) × (number a.1.version ≡ number v.version))
          ⊎ ((revision o.meta.resource_version ≡ number v.version)
              × (a.1.flag ≡ o.status.restart_required)
              × (number v.version < number a.1.version)))
update_Stored false o v e = (refl, inl (refl, refl))
update_Stored true o v e =
    let same =
      ap revision ((eq_iff o.meta.resource_version (text v.version)).0 e)
      ∙ revision-text v.version in
    let (w, stored) = advance-Stored v.version o.status.restart_required v refl in
    (w, elim stored [ inl kept ↦ inl kept | inr (f, n) ↦ inr (same, f, n) ])

update_Answered : (b : Bool) (o : Instance) (v : Shop) → Answered (store b o v)
update_Answered true o v = advance-Answered v.version o.status.restart_required v
update_Answered false o v = tt

plugin_calls_stored :
    {c : SonarCall}
    → PluginCall c
    → (cr : Credentials) (v : Shop)
    → let t = (shop_answer (sonar cr c) v).1 in
      (t.flag ≡ v.flag) × (number t.version ≡ number v.version)
plugin_calls_stored restarting cr v = (refl, refl)
plugin_calls_stored (changes installs) cr v = (refl, refl)
plugin_calls_stored (changes uninstalls) cr v = (refl, refl)

abbrev shop_key : NamespacedName
shop_key = record { namespace = "team"; name = "sq" }

read_kept : (k : Kind) (name : NamespacedName) (v : Shop) → (shop_answer (kube_get k name) v).1 ≡ v
read_kept instance_kind name v = refl
read_kept project_kind name v = refl
read_kept plugin_kind name v = refl
read_kept gate_kind name v = refl
read_kept user_kind name v = refl
read_kept secret_kind name v = refl
read_kept group_kind name v = refl
read_kept webhook_kind name v = refl
read_kept template_kind name v = refl
read_kept backup_kind name v = refl
read_kept branch_rule_kind name v = refl
read_kept stateful_set_kind name v = refl
read_kept service_kind name v = refl
read_kept ingress_kind name v = refl

reads :
    (k : Kind) (name : NamespacedName) (v t : Shop) (r : Result (Obj k))
    → shop_answer (kube_get k name) v ≡ (r, t)
    → (t.flag ≡ v.flag) × (number t.version ≡ number v.version) × (t.waiting ≡ v.waiting)
reads k name v t r e =
    let same : t ≡ v = sym (ap (λ a. a.1) e) ∙ read_kept k name v in
    (ap (λ u. u.flag) same, ap (λ u. number u.version) same, ap (λ u. u.waiting) same)

read_Answered : (v : Shop) → Answered (shop_answer (kube_get instance_kind shop_key) v)
read_Answered v = (revision-text v.version, refl)

restart_taken :
    (c : Credentials) (v t : Shop) (e : Error) → ¬ (shop_answer (sonar c restart) v ≡ (err e, t))
restart_taken c v t e h = cc

abbrev shop_server : FlagServer shop
shop_server = record {
  key = shop_key;
  flag = λ v. v.flag;
  version = λ v. number v.version;
  waiting = λ v. v.waiting;
  revision = revision;
  read_same = λ k name v t r e. reads k name v t r e;
  read_version = λ i v t e.
      let same : t ≡ v = sym (ap (λ a. a.1) e) in
      let (n, f) = subst Answered e (read_Answered v) in
      (omega (arith, n, ap (λ u. number u.version) same), λ g. f ∙ ap (λ u. u.flag) same);
  updated = λ o v t r e.
      subst
        (λ (a : Result Instance × Shop).
          (a.1.waiting ≡ v.waiting)
          × (((a.1.flag ≡ v.flag) × (number a.1.version ≡ number v.version))
              ⊎ ((revision o.meta.resource_version ≡ number v.version)
                  × (a.1.flag ≡ o.status.restart_required)
                  × (number v.version < number a.1.version))))
        e (update_Stored _ o v refl);
  update_version = λ o i v t e.
      let (n, f) =
        subst Answered e (update_Answered (o.meta.resource_version == text v.version) o v) in
      (omega (arith, n), λ same. f);
  patch_stored = λ old new v t r e.
      let flag = merged old.status.restart_required new.status.restart_required v.flag in
      subst (Stored flag v) e (advance-Stored v.version flag v refl);
  sonar_stored = λ c call v k. plugin_calls_stored k c v;
  restart_failed = λ c v t e answered. absurd (restart_taken c v t e answered);
  restarts = λ c v t e. ap (λ a. a.1.waiting) (sym e);
}

abbrev quiet : Shop
quiet = record { flag = false; version = first; waiting = false }

abbrev held : Instance
held = stored_as false first

abbrev waits : Shop
waits = record { flag = false; version = first; waiting = true }

abbrev behind_signal : Shop
behind_signal = (signal_instance_restart held (plugin_run_of {E = shop} waits plugin)).1.server

abbrev settled : St shop instance_kind
settled = (settle "http://sq" (run_of {E = shop} behind_signal held)).1

abbrev written : St shop instance_kind
written = (update_status (run_of {E = shop} settled.server settled.object)).1

-- The plugin controller installs and signals while the instance controller holds the older status,
-- whose write the store then refuses.
abbrev signalled :
    Trace shop_server
      (record { server = written.server; instance_held = some written.object; plugin_at = idle })
signalled =
    later
      (later
        (later
          (later
            (later (later (start {v = quiet} (λ w. w)) (plugin_reads held refl))
              (plugin_changes {t = waits} creds (installs {key = "java"} {version = "7"}) refl))
            (instance_reads held refl))
          (plugin_signals plugin))
        (instance_settles "http://sq"))
      instance_writes

signal_stored : number quiet.version < number behind_signal.version
unfolding signal_instance_restart perform ◌>>=◌
signal_stored = omega arith

still_waits : written.server.waiting ≡ true
unfolding signal_instance_restart settle perform ◌>>=◌ emit
still_waits = refl

restart_flag-Kept_example : (written.server.flag ≡ true) ⊎ ⊥
restart_flag-Kept_example =
    restart_flag-Kept shop_server signalled ((((((tt, tt), tt), tt), signal_stored), tt), tt)
      still_waits

abbrev asked : Shop
asked = record { flag = true; version = second; waiting = true }

abbrev flagged : Instance
flagged = stored_as true second

abbrev after_restart : St shop instance_kind
after_restart = (settle "http://sq" (run_of {E = shop} asked flagged)).1

abbrev waits_again : Shop
waits_again = record after_restart.server { waiting = true }

abbrev unheard : Shop
unheard = (signal_instance_restart flagged (plugin_run_of {E = shop} waits_again plugin)).1.server

abbrev cleared : St shop instance_kind
cleared = (update_status (run_of {E = shop} unheard after_restart.object)).1

-- A signal that is left out because the flag was set when the plugin controller read it: the
-- instance controller, which has restarted SonarQube in between, clears the flag.
abbrev left_out :
    Trace shop_server
      (record { server = cleared.server; instance_held = some cleared.object; plugin_at = idle })
left_out =
    later
      (later
        (later
          (later
            (later (later (start {v = asked} (λ w. refl)) (plugin_reads flagged refl))
              (instance_reads flagged refl))
            (instance_settles "http://sq"))
          (plugin_changes {t = waits_again} creds (installs {key = "java"} {version = "7"}) refl))
        (plugin_signals plugin))
      instance_writes

left_out_loses : (cleared.server.waiting ≡ true) × (cleared.server.flag ≡ false)
unfolding signal_instance_restart settle perform ◌>>=◌ emit get_instance_admin_token
left_out_loses = (refl, refl)
