-- ===== src/Instance/Settling.antt =====
-- How a reconciliation of an instance ends.
use sonarqube_operator.Prelude.{
  ℕ, String, ◌≡◌, refl, ap, ◌∙◌, Bool, true, false, ◌⊎◌, inl, inr, List, ◌∷◌,
}
use mathlib.Core.Path.{subst}
use sonarqube_operator.Api.{Instance, NamespacedName}
use sonarqube_operator.Kube.{PodSpec}
use sonarqube_operator.Exec.{
  Env, Kind, Exec, instance_kind, St, kube_get, kube_update_status, Action, called, Error, Result,
  ok, err, is_ok, wrap_result, pure, lift, put, wrap, modify, update_status, ◌>>=◌, ◌>>◌, perform,
}
use sonarqube_operator.Controller.{CtrlResult, instance_api_url}
use sonarqube_operator.InstanceHealth.{reconcile_health}
use sonarqube_operator.InstanceHealth.Phases.{Settled, reconcile_health-Settled}
use sonarqube_operator.Instance.{settle_status, with_instance, reconcile_instance, public_url}

-- What holds of the result and the state whenever the action returns.
record Reaches {E : Env} {k : Kind} {A : Type 0} (Q : A → St E k → Type 0) (m : Exec E k A)
    : Type 0 where
  at : (s : St E k) (a : A) → (m s).0 ≡ ok a → Q a (m s).1

continue-Reaches :
    {E : Env} {k : Kind} {A B : Type 0} (Q : B → St E k → Type 0) (r : Result A)
    (f : A → Exec E k B)
    → ((a : A) → Reaches Q (f a))
    → Reaches Q (lift r >>= f)
unfolding ◌>>=◌
continue-Reaches Q (ok a) f rf = rf a
continue-Reaches Q (err e) f rf = record { at = λ s b h. cc }

Reaches-bind :
    {E : Env} {k : Kind} {A B : Type 0} {Q : B → St E k → Type 0} (m : Exec E k A)
    (f : A → Exec E k B)
    → ((a : A) → Reaches Q (f a))
    → Reaches Q (m >>= f)
unfolding ◌>>=◌
Reaches-bind {Q} m f rf = record {
  at = λ s b h. let (r, s') = m s in (continue-Reaches Q r f rf).at s' b h;
}

of_result :
    {A S : Type 0} (Q : A → S → Type 0) (r : Result A) (s : S)
    → ((a : A) → r ≡ ok a → Q a s)
    → ((e : Error) × (r ≡ err e)) ⊎ ((a : A) × (r ≡ ok a) × Q a s)
of_result Q (ok a) s f = inr (a, refl, f a refl)
of_result Q (err e) s f = inl (e, refl)

outcome :
    {E : Env} {k : Kind} {A : Type 0} (Q : A → St E k → Type 0) (m : Exec E k A)
    → Reaches Q m
    → (s : St E k) → ((e : Error) × ((m s).0 ≡ err e)) ⊎ ((a : A) × ((m s).0 ≡ ok a) × Q a (m s).1)
outcome Q m rm s = of_result Q (m s).0 (m s).1 (rm.at s)

-- The phase that is written with the time of the next check.
abbrev pub Fits : CtrlResult → Instance → Type 0
Fits r w =
    ((r.requeue_after ≡ 60) × (w.status.phase ≡ "Ready") × (w.status.restart_required ≡ false))
    ⊎ ((r.requeue_after ≡ 30) × (w.status.phase ≡ "Progressing"))

-- The last call wrote the status, and what it wrote fits.
abbrev pub Written : {E : Env} → CtrlResult → St E instance_kind → Type 0
Written r s =
    (w : Instance) × (earlier : List Action) × (s.history
      ≡ called (kube_update_status instance_kind w) true ∷ earlier)
    × Fits r w

Fits-Settled :
    {E : Env} (c : CtrlResult) (s : St E instance_kind) (w : Instance)
    → w.status.phase ≡ s.object.status.phase
    → w.status.restart_required ≡ s.object.status.restart_required
    → Settled {E = E} (ok c, s)
    → Fits c w
Fits-Settled c s w p q (inl (e, ready, quiet)) =
    let same : c ≡ record { requeue_after = 60 } = cc in
    inl (ap (λ x. x.requeue_after) same, p ∙ ready, q ∙ quiet)
Fits-Settled c s w p q (inr (e, waiting)) =
    let same : c ≡ record { requeue_after = 30 } = cc in
    inr (ap (λ x. x.requeue_after) same, p ∙ waiting)

module _ (E : Env) where
  answered-Written :
      (c : CtrlResult) (w : Instance) (r : Result Instance) (v : E.State) (h : List Action)
      (a : CtrlResult)
      → let s : St E instance_kind = record {
        server = v;
        object = w;
        history = called (kube_update_status instance_kind w) (is_ok r) ∷ h;
      } in
        let run =
          (lift (wrap_result "updating status" ((lift r >>= λ o'. put o') s).0) >> pure c)
            ((lift r >>= λ o'. put o') s).1 in
        run.0 ≡ ok a → Fits c w → Written {E = E} a run.1
  unfolding ◌>>=◌
  answered-Written c w (ok w') v h a done fits =
      let same : c ≡ a = cc in (w, h, refl, subst (λ (x : CtrlResult). Fits x w) same fits)
  answered-Written c w (err e) v h a done fits = cc

  Written-after :
      (r : Result CtrlResult) (s : St E instance_kind) (a : CtrlResult)
      → Settled {E = E} (r, s)
      → let run =
          (lift r >>= λ result. do
            modify (λ j. record j { status = record j.status { url = public_url j } })
            wrap "updating status" update_status
            pure result)
            s in
        run.0 ≡ ok a → Written {E = E} a run.1
  unfolding ◌>>=◌ perform
  Written-after (ok c) s a settled done =
      let o = s.object in
      let w : Instance = record o { status = record o.status { url = public_url o } } in
      let answer = E.answer (kube_update_status instance_kind w) s.server in
      answered-Written c w answer.0 answer.1 s.history a done (Fits-Settled c s w refl refl settled)
  Written-after (err e) s a settled done = cc

  settle_status-Reaches : Reaches (Written {E = E}) settle_status
  unfolding settle_status ◌>>=◌
  settle_status-Reaches = record {
    at = λ s a done.
        let url = instance_api_url s.object in
        let (r, s') = reconcile_health url s in
        Written-after r s' a (reconcile_health-Settled E url s) done;
  }

  module _ (deep_equal : PodSpec → PodSpec → Bool) (parse_quantity : String → Result String)
      (decimal : ℕ → String) where
    found-Reaches :
        (i : Instance)
        → Reaches (Written {E = E}) (with_instance deep_equal parse_quantity decimal (ok i))
    unfolding with_instance
    found-Reaches i = search (Reaches-bind, settle_status-Reaches) depth 9

    -- A reconciliation of an instance that is there either returns an error, or has written the
    -- status last, with the phase Ready and no restart asked for if the next check is in 60 seconds,
    -- and with the phase Progressing if it is in 30; so it always comes back.
    pub reconcile_instance-Written :
        (request : NamespacedName) (s : St E instance_kind) (i : Instance) (t : E.State)
        → E.answer (kube_get instance_kind request) s.server ≡ (ok i, t)
        → let run = reconcile_instance deep_equal parse_quantity decimal request s in
          ((e : Error) × (run.0 ≡ err e))
          ⊎ ((r : CtrlResult) × (run.0 ≡ ok r) × Written {E = E} r run.1)
    unfolding reconcile_instance ◌>>=◌ perform
    reconcile_instance-Written request s i t answered = rw answered (
        outcome (Written {E = E}) (with_instance deep_equal parse_quantity decimal (ok i))
          (found-Reaches i)
          (record {
            server = t;
            object = s.object;
            history = called (kube_get instance_kind request) true ∷ s.history;
          }))
