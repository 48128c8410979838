-- ===== src/Webhook/Registration.antt =====
-- A webhook is registered once.
use sonarqube_operator.Prelude.{
  String, ◌≡◌, ◌≢◌, refl, ap, sym, ◌∙◌, true, ◌==◌, eqb_of_ne, eq_iff, ◌∷◌, Bool, Bool-cases, inl,
  inr,
}
use sonarqube_operator.Api.Access.{Webhook}
use sonarqube_operator.Sonar.{create_webhook}
use sonarqube_operator.Exec.{
  Env, webhook_kind, St, Credentials, sonar, kube_update_status, called, Result, ok, err, lift,
  attempt, put, ◌>>=◌, perform, emit, update_status,
}
use sonarqube_operator.Controller.Frame.{update_status_ignored_lem}
use sonarqube_operator.Webhook.{registered, secret_of, created, reconcile_webhook}

module _ {E : Env} where
  -- For a webhook whose key the status holds, the write of the status is the only call.
  registered_idle :
      (c : Credentials) (s : St E webhook_kind)
      → s.object.status.webhook_key ≢ ""
      → let write =
          kube_update_status webhook_kind (registered E s.object.status.webhook_key s.object) in
        (b : Bool) × ((reconcile_webhook c s).1.history ≡ called write b ∷ s.history)
  unfolding reconcile_webhook ◌>>=◌ perform
  registered_idle c s given = rw (eqb_of_ne s.object.status.webhook_key "" given) (
    _,
    (update_status_ignored_lem
        (record s { object = registered E s.object.status.webhook_key s.object })).1,
  )

module _ {E : Env}
    (stored : (w w' : Webhook) (v t : E.State)
      → E.answer (kube_update_status webhook_kind w) v ≡ (ok w', t)
      → w'.status ≡ w.status) where
  put_status :
      (o : Webhook) (r : Result Webhook) (v t : E.State) (s : St E webhook_kind)
      → E.answer (kube_update_status webhook_kind o) v ≡ (r, t)
      → ((lift r >>= λ o'. put o') s).0 ≡ ok tt
      → ((lift r >>= λ o'. put o') s).1.object.status ≡ o.status
  unfolding ◌>>=◌
  put_status o (ok w) v t s e done = stored o w v t e
  put_status o (err x) v t s e done = cc

  -- What a successful write leaves in memory has the status that was written.
  status_kept :
      (s : St E webhook_kind)
      → (update_status s).0 ≡ ok tt
      → (update_status s).1.object.status ≡ s.object.status
  unfolding ◌>>=◌ perform
  status_kept s done =
      let answer = E.answer (kube_update_status webhook_kind s.object) s.server in
      put_status s.object answer.0 s.server answer.1 _ refl done

  module _
      (keyed : (c : Credentials) (name url project secret key : String) (v t : E.State)
        → E.answer (sonar c (create_webhook name url project secret)) v ≡ (ok key, t)
        → key ≢ "")
      (c : Credentials) where
    created_key :
        (r : Result String) (s : St E webhook_kind)
        → ((key : String) → r ≡ ok key → key ≢ "")
        → (created r s).0 ≡ ok tt
        → (created r s).1.object.status.webhook_key ≢ ""
    unfolding created ◌>>=◌ perform emit
    created_key (ok key) s given done =
        let kept = status_kept _ done in
        λ empty. given key refl (sym (ap (λ t. t.webhook_key) kept) ∙ empty)
    created_key (err e) s given done = cc

    registered_key :
        (w : Webhook) (secret : Result String) (s : St E webhook_kind)
        → let run = lift secret >>= λ secret.
            attempt
              (perform (sonar c (create_webhook w.spec.name w.spec.url w.spec.project_key secret)))
            >>= created in
          (run s).0 ≡ ok tt → (run s).1.object.status.webhook_key ≢ ""
    unfolding ◌>>=◌ perform
    registered_key w (ok secret) s done =
        let answer =
          E.answer (sonar c (create_webhook w.spec.name w.spec.url w.spec.project_key secret))
            s.server in
        created_key answer.0 _
          (λ key e. keyed c _ _ _ _ key s.server answer.1 (ap (λ r. (r, answer.1)) e)) done
    registered_key w (err e) s done = cc

    -- A run that succeeds leaves a key in the status.
    reconcile_webhook_key :
        (s : St E webhook_kind)
        → (reconcile_webhook c s).0 ≡ ok tt
        → (reconcile_webhook c s).1.object.status.webhook_key ≢ ""
    unfolding reconcile_webhook ◌>>=◌
    reconcile_webhook_key s = elim (Bool-cases (s.object.status.webhook_key == "")) [
      | inr given ↦ rw given λ done empty.
          let kept : _ ≡ s.object.status.webhook_key =
            ap (λ t. t.webhook_key) (status_kept _ done) in
          let same : (s.object.status.webhook_key == "") ≡ true =
            (eq_iff s.object.status.webhook_key "").1 (sym kept ∙ empty) in
          cc
      | inl absent ↦ rw absent λ done.
          let (r, s') = secret_of {E = E} s.object.spec.secret_ref s.object s in
          registered_key s.object r s' done
    ]

    -- Where the API server keeps the status that is written and SonarQube gives no empty key, a run
    -- that succeeds is the last that registers the webhook: in the next one the write of the
    -- status is the only call.
    pub reconcile_webhook_again :
        (s : St E webhook_kind)
        → (reconcile_webhook c s).0 ≡ ok tt
        → let s' = (reconcile_webhook c s).1 in
          let write =
            kube_update_status webhook_kind (registered E s'.object.status.webhook_key s'.object) in
          (b : Bool) × ((reconcile_webhook c s').1.history ≡ called write b ∷ s'.history)
    reconcile_webhook_again s done = registered_idle c _ (reconcile_webhook_key s done)
