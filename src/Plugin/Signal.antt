-- ===== src/Plugin/Signal.antt =====
-- What the signal for a restart does to the stored flag.
use sonarqube_operator.Prelude.{
  ◌≡◌, refl, ◌<◌, Bool, true, false, ◌||◌, ◌⊎◌, inl, inr, if◌then◌else◌, arith,
}
use sonarqube_operator.Api.{Instance}
use sonarqube_operator.Exec.{
  Env, instance_kind, plugin_kind, St, Exec, kube_patch_status, Result, ok, err, pure, ◌>>=◌,
  perform, emit,
}
use sonarqube_operator.Plugin.{patched, signal_instance_restart}
use sonarqube_operator.Restart.Server.{FlagServer, merged}

module _ {E : Env} (F : FlagServer E) where
  -- The stored flag and version are as they were, or the flag is set under a higher version.
  abbrev Signalled : E.State → E.State → Type 0
  Signalled v t =
      (F.waiting t ≡ F.waiting v)
      × ((F.version t ≡ F.version v) ⊎ ((F.flag t ≡ true) × (F.version v < F.version t)))

  patched-Signalled :
      (r : Result Instance) (v : E.State) (s : St E plugin_kind)
      → Signalled v s.server
      → Signalled v (patched r s).1.server
  unfolding patched emit ◌>>=◌
  patched-Signalled (ok _) v s h = h
  patched-Signalled (err e) v s h = h

  signalled_if :
      (b : Bool) (m : Exec E plugin_kind (Unit {0})) (s : St E plugin_kind)
      → (b ≡ false → Signalled s.server (m s).1.server)
      → Signalled s.server ((if b then pure tt else m) s).1.server
  signalled_if true m s h = (refl, inl refl)
  signalled_if false m s h = h refl

  stored :
      (b : Bool) (v t : E.State)
      → b ≡ false
      → (F.waiting t ≡ F.waiting v)
        × (((F.flag t ≡ F.flag v) × (F.version t ≡ F.version v))
            ⊎ ((F.flag t ≡ merged b true (F.flag v)) × (F.version v < F.version t)))
      → Signalled v t
  stored b v t e (w, inl (f, n)) = (w, inl n)
  stored true v t e h = cc
  stored false v t e (w, inr h) = (w, inr h)

  pub signal_instance_restart-Signalled :
      (i : Instance) (s : St E plugin_kind)
      → Signalled s.server (signal_instance_restart i s).1.server
  unfolding signal_instance_restart perform ◌>>=◌
  signal_instance_restart-Signalled i s =
      let asked : Instance = record i { status = record i.status { restart_required = true } } in
      let answered = E.answer (kube_patch_status instance_kind i asked) s.server in
      signalled_if (i.status.restart_required || i.meta.deleting) _ s (λ unset.
        patched-Signalled answered.0 s.server _ (
          stored i.status.restart_required s.server answered.1 (ground arith)
            (F.patch_stored i asked s.server answered.1 answered.0 refl)))
