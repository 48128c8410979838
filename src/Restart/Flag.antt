-- ===== src/Restart/Flag.antt =====
-- The flag that asks for a restart is not lost between the two controllers.
use sonarqube_operator.Prelude.{
  String, ◌≡◌, refl, sym, ap, ◌∙◌, ◌<◌, ◌≤◌, true, ◌⊎◌, inl, inr, Option, some, arith,
}
use sonarqube_operator.Api.{Instance}
use sonarqube_operator.Sonar.{SonarCall, SonarReply}
use sonarqube_operator.Exec.{
  Env, instance_kind, St, Credentials, Error, kube_update_status, sonar, Result, ok, err, ◌>>=◌,
  perform, update_status, lift, put,
}
use sonarqube_operator.Restart.{
  PluginAt, idle, holding, changed, World, run_of, Step, instance_reads, instance_settles,
  instance_writes, instance_stops, plugin_reads, plugin_changes, plugin_changes_again, plugin_fails,
  plugin_signals, plugin_stops, elsewhere, Heard, Trace, start, later, AllHeard, plugin_run_of,
}
use sonarqube_operator.Restart.Sound.{
  IsChanged, Covered, HeldSound, Sound, Covered-moved, HeldSound-kept, HeldSound-newer,
  HeldSound-changed, HeldSound-answered,
}
use sonarqube_operator.Restart.Server.{FlagServer, Change, changes}
use sonarqube_operator.InstanceHealth.{settle}
use sonarqube_operator.InstanceHealth.Flag.{settle-Careful}
use sonarqube_operator.Plugin.Signal.{signal_instance_restart-Signalled}

module _ {E : Env} (F : FlagServer E) where
  -- Behind a read of the store.
  read_moved :
      (v t : E.State) (p : PluginAt)
      → (F.flag t ≡ F.flag v) × (F.version t ≡ F.version v) × (F.waiting t ≡ F.waiting v)
      → Covered F (F.flag v) v p
      → Covered F (F.flag t) t p
  read_moved v t p (f, n, w) c = Covered-moved F _ _ v t p p f (λ h. sym w ∙ h) (λ x. x) c

  read_version :
      (v t : E.State) (i : Instance)
      → (F.flag t ≡ F.flag v) × (F.version t ≡ F.version v) × (F.waiting t ≡ F.waiting v)
      → (F.revision i.meta.resource_version ≤ F.version v)
        × (F.revision i.meta.resource_version ≡ F.version v → i.status.restart_required ≡ F.flag v)
      → (F.revision i.meta.resource_version ≤ F.version t)
        × (F.revision i.meta.resource_version ≡ F.version t → i.status.restart_required ≡ F.flag t)
  read_version v t i (f, n, w) (older, same) = (omega (arith, older, n), λ e. same (e ∙ n) ∙ sym f)

  -- Behind an update, which the store took or did not take.
  update-Covered :
      (v t : E.State) (o : Instance) (p : PluginAt)
      → Sound F (record { server = v; instance_held = some o; plugin_at = p })
      → (F.waiting t ≡ F.waiting v)
        × (((F.flag t ≡ F.flag v) × (F.version t ≡ F.version v))
            ⊎ ((F.revision o.meta.resource_version ≡ F.version v)
                × (F.flag t ≡ o.status.restart_required)
                × (F.version v < F.version t)))
      → Covered F (F.flag t) t p × HeldSound F t (some o) p
  update-Covered v t o p (c, held) (w, inl (f, n)) = (
    Covered-moved F _ _ v t p p f (λ h. sym w ∙ h) (λ x. x) c,
    HeldSound-kept F v t p p (some o) (omega (arith, n)) (λ h. sym w ∙ h) (λ x. x) held,
  )
  update-Covered v t o p (c, held) (w, inr (e, f, n)) = (
    Covered-moved F _ _ v t p p f (λ h. sym w ∙ h) (λ x. x) (held.1 e),
    HeldSound-newer F v t p p (some o) n held,
  )

  put_answer :
      (t : E.State) (o : Instance) (p : PluginAt) (r : Result Instance) (s : St E instance_kind)
      → s.server ≡ t
      → s.object ≡ o
      → Covered F (F.flag t) t p × HeldSound F t (some o) p
      → ((i : Instance) → r ≡ ok i → HeldSound F t (some i) p)
      → Sound F (record {
        server = ((lift r >>= λ i. put i) s).1.server;
        instance_held = some ((lift r >>= λ i. put i) s).1.object;
        plugin_at = p;
      })
  unfolding ◌>>=◌
  put_answer t o p (ok i) s e e' (c, held) answered = rw e (c, answered i refl)
  put_answer t o p (err x) s e e' (c, held) answered = rw (e, e') (c, held)

  update_status-Sound :
      (v : E.State) (o : Instance) (p : PluginAt)
      → Sound F (record { server = v; instance_held = some o; plugin_at = p })
      → Sound F (record {
        server = (update_status (run_of {E = E} v o)).1.server;
        instance_held = some (update_status (run_of {E = E} v o)).1.object;
        plugin_at = p;
      })
  unfolding perform ◌>>=◌
  update_status-Sound v o p sound =
      let answered = E.answer (kube_update_status instance_kind o) v in
      let covered =
        update-Covered v answered.1 o p sound (F.updated o v answered.1 answered.0 refl) in
      put_answer answered.1 o p answered.0 _ refl refl covered (λ i e.
        HeldSound-answered F answered.1 p i
          (F.update_version o i v answered.1 (ap (λ r. (r, answered.1)) e)) covered.0)

  settle-Sound :
      (url : String) (v : E.State) (o : Instance) (p : PluginAt)
      → Sound F (record { server = v; instance_held = some o; plugin_at = p })
      → Sound F (record {
        server = (settle url (run_of {E = E} v o)).1.server;
        instance_held = some (settle url (run_of {E = E} v o)).1.object;
        plugin_at = p;
      })
  settle-Sound url v o p (c, (older, sound)) =
      let careful = settle-Careful F url (run_of {E = E} v o) in
      let version : F.version (settle url (run_of {E = E} v o)).1.server ≡ F.version v =
        careful.version in
      let stored = ap (λ m. F.revision m.resource_version) careful.revision in
      (
        Covered-moved F _ _ v _ p p careful.flag careful.waits (λ x. x) c,
        (
          omega (arith, older, version, stored),
          λ e w.
              Covered-moved F _ _ v _ p p (careful.asked w) careful.waits (λ x. x)
                (sound (sym stored ∙ e ∙ version)) w,
        ),
      )

  -- A step that stores nothing.
  quiet-Sound :
      (v t : E.State) (h : Option Instance) (p q : PluginAt)
      → F.flag t ≡ F.flag v
      → F.version v ≤ F.version t
      → (F.waiting t ≡ true → F.waiting v ≡ true)
      → (IsChanged p → IsChanged q)
      → Sound F (record { server = v; instance_held = h; plugin_at = p })
      → Sound F (record { server = t; instance_held = h; plugin_at = q })
  quiet-Sound v t h p q f n w pq (c, held) =
      (Covered-moved F _ _ v t p q f w pq c, HeldSound-kept F v t p q h n w pq held)

  refused-Sound :
      (v t : E.State) (h : Option Instance) (p : PluginAt) (c : Credentials) (call : SonarCall)
      (e : Error)
      → Change call
      → E.answer (sonar c call) v ≡ (err e, t)
      → (F.waiting t ≡ true → F.waiting v ≡ true)
      → Sound F (record { server = v; instance_held = h; plugin_at = p })
      → Sound F (record { server = t; instance_held = h; plugin_at = p })
  refused-Sound v t h p c call e k answered heard =
      let (f, n) = F.sonar_stored c call v (changes k) in
      let n' : F.version t ≡ F.version v = sym (ap (λ a. F.version a.1) answered) ∙ n in
      quiet-Sound v t h p p (sym (ap (λ a. F.flag a.1) answered) ∙ f) (omega (arith, n')) heard
        (λ x. x)

  changed-Sound :
      (v t : E.State) (h : Option Instance) (p : PluginAt) (i : Instance) (c : Credentials)
      (call : SonarCall) (r : SonarReply call)
      → Change call
      → E.answer (sonar c call) v ≡ (ok r, t)
      → Sound F (record { server = v; instance_held = h; plugin_at = p })
      → Sound F (record { server = t; instance_held = h; plugin_at = changed i })
  changed-Sound v t h p i c call r k answered (covered, held) =
      let n = (F.sonar_stored c call v (changes k)).1 in
      (λ w. inr tt, HeldSound-changed F v t p i h (sym (ap (λ a. F.version a.1) answered) ∙ n) held)

  signalled-Sound :
      (v t : E.State) (h : Option Instance) (p : PluginAt)
      → (F.version t ≡ F.version v) ⊎ ((F.flag t ≡ true) × (F.version v < F.version t))
      → F.version v < F.version t
      → Sound F (record { server = v; instance_held = h; plugin_at = p })
      → Sound F (record { server = t; instance_held = h; plugin_at = idle })
  signalled-Sound v t h p (inl same) higher sound = absurd (omega (arith, same, higher))
  signalled-Sound v t h p (inr (f, n)) higher (c, held) =
      (λ w. inl f, HeldSound-newer F v t p idle h n held)

  stopped-Sound :
      (v : E.State) (h : Option Instance) (p : PluginAt)
      → Heard F (plugin_stops {v = v} {h = h} {p = p})
      → Sound F (record { server = v; instance_held = h; plugin_at = p })
      → Sound F (record { server = v; instance_held = h; plugin_at = idle })
  stopped-Sound v h idle heard sound = sound
  stopped-Sound v h (holding i) heard sound =
      quiet-Sound v v h (holding i) idle refl (omega arith) (λ w. w) (λ x. x) sound
  stopped-Sound v h (changed i) heard sound = absurd heard

  Step-Sound : {w w' : World E} (step : Step F w w') → Heard F step → Sound F w → Sound F w'
  Step-Sound (instance_reads i e) heard (c, held) =
      let same = F.read_same instance_kind F.key _ _ _ e in
      let c' = read_moved _ _ _ same c in
      (c', HeldSound-answered F _ _ i (read_version _ _ i same (F.read_version i _ _ e)) c')
  Step-Sound (instance_settles {v} {o} {p} url) heard sound = settle-Sound url v o p sound
  Step-Sound (instance_writes {v} {o} {p}) heard sound = update_status-Sound v o p sound
  Step-Sound instance_stops heard (c, held) = (c, tt)
  Step-Sound (plugin_reads {v} {t} {h} i e) heard sound =
      let (f, n, w) = F.read_same instance_kind F.key _ _ _ e in
      quiet-Sound v t h idle (holding i) f (omega (arith, n)) (λ w'. sym w ∙ w') (λ x. x) sound
  Step-Sound (plugin_changes {v} {t} {h} {i} c k e) heard sound =
      changed-Sound v t h (holding i) i c _ _ k e sound
  Step-Sound (plugin_changes_again {v} {t} {h} {i} c k e) heard sound =
      changed-Sound v t h (changed i) i c _ _ k e sound
  Step-Sound (plugin_fails {v} {t} {h} {p} c k e) heard sound =
      refused-Sound v t h p c _ _ k e heard sound
  Step-Sound (plugin_signals {v} {h} {i} plugin) heard sound =
      signalled-Sound v _ h (changed i)
        (signal_instance_restart-Signalled F i (plugin_run_of {E = E} v plugin)).1 heard sound
  Step-Sound (plugin_stops {v} {h} {p}) heard sound = stopped-Sound v h p heard sound
  Step-Sound (elsewhere {v} {t} {h} {p} f n w) heard sound =
      quiet-Sound v t h p p f n w (λ x. x) sound

  trace-Sound : {w : World E} (trace : Trace F w) → AllHeard F trace → Sound F w
  trace-Sound (start quiet) all = (λ w. inl (quiet w), tt)
  trace-Sound (later earlier step) (all, heard) = Step-Sound step heard (trace-Sound earlier all)

-- However the two controllers interleave and start anew: where no one else writes the flag or changes
-- the plugins, and every change of the plugins that took effect was answered by SonarQube and then
-- signalled by a write that the store took under a new version, a change that waits for a restart has
-- the flag set in the store, or is one that the plugin controller has not signalled yet.
pub restart_flag-Kept :
    {E : Env} (F : FlagServer E) {w : World E} (trace : Trace F w)
    → AllHeard F trace
    → F.waiting w.server ≡ true
    → (F.flag w.server ≡ true) ⊎ IsChanged w.plugin_at
restart_flag-Kept F trace all waits = (trace-Sound F trace all).0 waits
