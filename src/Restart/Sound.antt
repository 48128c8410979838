-- ===== src/Restart/Sound.antt =====
-- When the flag in the store, and the one that the instance controller may write, cover what waits.
use sonarqube_operator.Prelude.{
  ◌≡◌, refl, ◌<◌, ◌≤◌, true, Bool, ◌⊎◌, inl, inr, Option, none, some, arith,
}
use sonarqube_operator.Api.{Instance}
use sonarqube_operator.Exec.{Env}
use sonarqube_operator.Restart.{PluginAt, idle, holding, changed, World}
use sonarqube_operator.Restart.Server.{FlagServer}

-- The plugin controller is behind a change that it has not signalled yet.
abbrev pub IsChanged : PluginAt → Type 0
IsChanged idle = ⊥
IsChanged (holding i) = ⊥
IsChanged (changed i) = Unit

module _ {E : Env} (F : FlagServer E) where
  -- A flag, as far as a change of the plugins waits, is set or about to be.
  abbrev pub Covered : Bool → E.State → PluginAt → Type 0
  Covered flag v p = F.waiting v ≡ true → (flag ≡ true) ⊎ IsChanged p

  -- Where the object in memory has the stored version, its flag may be written.
  abbrev pub HeldSound : E.State → Option Instance → PluginAt → Type 0
  HeldSound v none p = Unit
  HeldSound v (some o) p =
      (F.revision o.meta.resource_version ≤ F.version v)
      × (F.revision o.meta.resource_version ≡ F.version v → Covered o.status.restart_required v p)

  abbrev pub Sound : World E → Type 0
  Sound w =
      Covered (F.flag w.server) w.server w.plugin_at
      × HeldSound w.server w.instance_held w.plugin_at

  either : {A B B' : Type 0} → (B → B') → A ⊎ B → A ⊎ B'
  either f (inl a) = inl a
  either f (inr b) = inr (f b)

  pub Covered-moved :
      (b b' : Bool) (v t : E.State) (p q : PluginAt)
      → b' ≡ b
      → (F.waiting t ≡ true → F.waiting v ≡ true)
      → (IsChanged p → IsChanged q)
      → Covered b v p
      → Covered b' t q
  Covered-moved b b' v t p q e waits pq covered w = either pq (rw e (covered (waits w)))

  -- Nothing is stored.
  pub HeldSound-kept :
      (v t : E.State) (p q : PluginAt) (h : Option Instance)
      → F.version v ≤ F.version t
      → (F.waiting t ≡ true → F.waiting v ≡ true)
      → (IsChanged p → IsChanged q)
      → HeldSound v h p
      → HeldSound t h q
  HeldSound-kept v t p q none n waits pq held = tt
  HeldSound-kept v t p q (some o) n waits pq (older, sound) = (
    omega (arith, older, n),
    λ e. Covered-moved _ _ v t p q refl waits pq (sound (omega (arith, older, n))),
  )

  -- Something else is stored.
  pub HeldSound-newer :
      (v t : E.State) (p q : PluginAt) (h : Option Instance)
      → F.version v < F.version t
      → HeldSound v h p
      → HeldSound t h q
  HeldSound-newer v t p q none n held = tt
  HeldSound-newer v t p q (some o) n (older, sound) =
      (omega (arith, older, n), λ e. absurd (omega (arith, older, n)))

  pub HeldSound-changed :
      (v t : E.State) (p : PluginAt) (i : Instance) (h : Option Instance)
      → F.version t ≡ F.version v
      → HeldSound v h p
      → HeldSound t h (changed i)
  HeldSound-changed v t p i none n held = tt
  HeldSound-changed v t p i (some o) n (older, sound) = (omega (arith, older, n), λ e w. inr tt)

  -- The object that an answer of the store puts into memory.
  pub HeldSound-answered :
      (t : E.State) (p : PluginAt) (i : Instance)
      → (F.revision i.meta.resource_version ≤ F.version t)
        × (F.revision i.meta.resource_version ≡ F.version t → i.status.restart_required ≡ F.flag t)
      → Covered (F.flag t) t p
      → HeldSound t (some i) p
  HeldSound-answered t p i (older, same) covered =
      (older, λ e. Covered-moved _ _ t t p p (same e) (λ w. w) (λ c. c) covered)
