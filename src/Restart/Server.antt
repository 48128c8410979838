-- ===== src/Restart/Server.antt =====
-- An API server and a SonarQube, as far as the restart of an instance depends on them.
use sonarqube_operator.Prelude.{ℕ, String, ◌≡◌, ◌≤◌, ◌<◌, Bool, false, ◌⊎◌, true}
use sonarqube_operator.Api.{NamespacedName, Instance}
use sonarqube_operator.Sonar.{SonarCall, restart, install_plugin, uninstall_plugin}
use sonarqube_operator.Exec.{
  Env, Kind, Obj, instance_kind, Credentials, kube_get, kube_update_status, kube_patch_status,
  sonar, Error, Result, ok, err,
}

pub data Change : SonarCall → Type 0 where
  installs : {key version : String} → Change (install_plugin key version)
  uninstalls : {key : String} → Change (uninstall_plugin key)

-- The calls that have to do with a restart.
pub data PluginCall : SonarCall → Type 0 where
  changes : {call : SonarCall} → Change call → PluginCall call
  restarting : PluginCall restart

-- What a merge patch makes of a field that is stored.
abbrev pub merged : (old new stored : Bool) → Bool
merged true true stored = stored
merged false false stored = stored
merged true false stored = false
merged false true stored = true

-- The stored instance with its flag and its version, and whether a change of the plugins waits for
-- a restart of SonarQube.
pub record FlagServer (E : Env) : Type 0 where
  pub key : NamespacedName
  pub flag : E.State → Bool
  pub version : E.State → ℕ
  pub waiting : E.State → Bool
  -- The version that a resourceVersion stands for.
  pub revision : String → ℕ
  -- A read changes nothing. A cache may answer an older version, never another content of the
  -- stored one.
  pub read_same :
      (k : Kind) (name : NamespacedName) (v t : E.State) (r : Result (Obj k))
      → E.answer (kube_get k name) v ≡ (r, t)
      → (flag t ≡ flag v) × (version t ≡ version v) × (waiting t ≡ waiting v)
  pub read_version :
      (i : Instance) (v t : E.State)
      → E.answer (kube_get instance_kind key) v ≡ (ok i, t)
      → (revision i.meta.resource_version ≤ version v)
        × (revision i.meta.resource_version ≡ version v → i.status.restart_required ≡ flag v)
  -- A write leaves the store as it was, or stores the flag under a higher version; an update does
  -- so only for the version that is stored.
  pub updated :
      (o : Instance) (v t : E.State) (r : Result Instance)
      → E.answer (kube_update_status instance_kind o) v ≡ (r, t)
      → (waiting t ≡ waiting v)
        × (((flag t ≡ flag v) × (version t ≡ version v))
            ⊎ ((revision o.meta.resource_version ≡ version v)
                × (flag t ≡ o.status.restart_required)
                × (version v < version t)))
  pub update_version :
      (o i : Instance) (v t : E.State)
      → E.answer (kube_update_status instance_kind o) v ≡ (ok i, t)
      → (revision i.meta.resource_version ≤ version t)
        × (revision i.meta.resource_version ≡ version t → i.status.restart_required ≡ flag t)
  -- A merge patch sends the flag only where the two objects differ in it.
  pub patch_stored :
      (old new : Instance) (v t : E.State) (r : Result Instance)
      → E.answer (kube_patch_status instance_kind old new) v ≡ (r, t)
      → (waiting t ≡ waiting v)
        × (((flag t ≡ flag v) × (version t ≡ version v))
            ⊎ ((flag t ≡ merged old.status.restart_required new.status.restart_required (flag v))
                × (version v < version t)))
  -- SonarQube does not touch the store. A restart that it takes puts the plugins into effect, and one
  -- whose call fails may have done so too.
  pub sonar_stored :
      (c : Credentials) (call : SonarCall) (v : E.State)
      → PluginCall call
      → (flag (E.answer (sonar c call) v).1 ≡ flag v)
        × (version (E.answer (sonar c call) v).1 ≡ version v)
  pub restart_failed :
      (c : Credentials) (v t : E.State) (e : Error)
      → E.answer (sonar c restart) v ≡ (err e, t)
      → waiting t ≡ true
      → waiting v ≡ true
  pub restarts :
      (c : Credentials) (v t : E.State)
      → E.answer (sonar c restart) v ≡ (ok tt, t)
      → waiting t ≡ false

-- The store is as it was, and so is what SonarQube waits for.
pub record Same {E : Env} (F : FlagServer E) (v t : E.State) : Type 0 where
  pub flag : F.flag t ≡ F.flag v
  pub version : F.version t ≡ F.version v
  pub waiting : F.waiting t ≡ F.waiting v
