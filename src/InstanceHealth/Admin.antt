-- ===== src/InstanceHealth/Admin.antt =====
-- The initialisation of the admin account.
use sonarqube_operator.Prelude.{String, ◌≡◌, refl, true, false, [], ◌∷◌, ◌==◌}
use sonarqube_operator.Api.{Instance, Secret}
use sonarqube_operator.Sonar.{validate_auth, change_admin_password, generate_token}
use sonarqube_operator.Exec.{
  Env, instance_kind, secret_kind, St, basic, sonar, kube_get, kube_create, called, Error, Result,
  ok, err, ◌>>=◌, perform,
}
use sonarqube_operator.Exec.Triple.{
  History, Triple, Triple-pure, Triple-raise, Triple-lift, Triple-if, Triple-bind, Triple-perform,
  Triple-wrap, Triple-emit, Triple-object, Triple-modify, Triple-always, Triple-call,
}
use sonarqube_operator.Controller.{value_at}
use sonarqube_operator.InstanceHealth.{
  with_admin_token, token_key, admin_secret_key, target_password, ensure_password,
  issue_admin_token, token_read, initialize_admin, default_admin_password,
}

-- The password was just tried, and refused.
abbrev pub Refused : (url password : String) → History
Refused url password [] = ⊥
Refused url password (called (sonar (basic u user p) validate_auth) false ∷ h) =
    (u ≡ url) × (user ≡ "admin") × (p ≡ password)
Refused url password (_ ∷ h) = ⊥

-- Right before each change of the admin password, the new password was refused.
abbrev pub ChangedWhenRefused : String → History
ChangedWhenRefused url [] = Unit
ChangedWhenRefused url (called (sonar _ (change_admin_password _ p)) _ ∷ h) =
    Refused url p h × ChangedWhenRefused url h
ChangedWhenRefused url (_ ∷ h) = ChangedWhenRefused url h

module _ {E : Env} (url : String) where
  target_password-Ordered :
      (i : Instance) (secret : Secret)
      → Triple
          (ChangedWhenRefused url)
          (target_password {E = E} i secret)
          (ChangedWhenRefused url)
          (ChangedWhenRefused url)
  unfolding target_password
  target_password-Ordered i secret =
      Triple-if (value_at "password" secret.entries == "") _ _ (λ _. Triple-raise _)
        (λ _. Triple-pure _)

  issue_admin_token-Ordered :
      (password : String)
      → Triple
          (ChangedWhenRefused url)
          (issue_admin_token {E = E} url password)
          (ChangedWhenRefused url)
          (ChangedWhenRefused url)
  unfolding issue_admin_token
  issue_admin_token-Ordered password = Triple-bind _ _ Triple-object λ i.
      Triple-bind _ _
        (Triple-wrap "generating admin token" _ (
          Triple-perform (sonar (basic url "admin" password) (generate_token _ _ _ _)) (λ h r. r)
            (λ h r. r)))
        λ token. Triple-bind _ _ (Triple-lift _) λ m.
          Triple-bind _ _
            (Triple-wrap "creating admin token secret" _
              (Triple-perform (kube_create secret_kind _) (λ h r. r) (λ h r. r)))
            λ _. Triple-bind _ _ (Triple-modify _) λ _. Triple-emit _ _ _ (λ h r. r)

  accepted-Ordered :
      (password : String)
      → Triple
          (ChangedWhenRefused url)
          (ensure_password {E = E} url password (ok tt))
          (ChangedWhenRefused url)
          (ChangedWhenRefused url)
  unfolding ensure_password
  accepted-Ordered password = Triple-pure tt

  ensured-Ordered :
      (password : String) (e : Error)
      → Triple
          (λ h. Refused url password h × ChangedWhenRefused url h)
          (ensure_password {E = E} url password (err e))
          (ChangedWhenRefused url)
          (ChangedWhenRefused url)
  unfolding ensure_password
  ensured-Ordered password e = Triple-wrap "changing admin password" _ (
      Triple-perform
        (sonar (basic url "admin" default_admin_password)
          (change_admin_password default_admin_password password))
        (λ h r. r) (λ h r. r))

  token_read-Ordered :
      (r : Result Secret)
      → Triple
          (ChangedWhenRefused url)
          (token_read {E = E} url r)
          (ChangedWhenRefused url)
          (ChangedWhenRefused url)
  unfolding token_read
  token_read-Ordered (ok _) = Triple-modify _
  token_read-Ordered (err _) = Triple-bind _ _ Triple-object λ i.
      Triple-bind _ _
        (Triple-wrap "getting admin secret" _
          (Triple-perform (kube_get secret_kind (admin_secret_key i)) (λ h r. r) (λ h r. r)))
        λ secret. Triple-bind _ _ (target_password-Ordered i secret) λ password.
          Triple-call {T = ChangedWhenRefused url}
            {F = λ h. Refused url password h × ChangedWhenRefused url h}
            (sonar (basic url "admin" password) validate_auth) _ (λ h r. r)
            (λ h r. ((refl, refl, refl), r))
            (λ _.
              Triple-bind _ _ (accepted-Ordered password) λ _. issue_admin_token-Ordered password)
            (λ e.
              Triple-bind _ _ (ensured-Ordered password e) λ _. issue_admin_token-Ordered password)

-- The admin password is changed only right behind a failed validation, at the same URL, of the
-- very password that it is changed to, if that held of the history before.
pub initialize_admin-ChangedWhenRefused :
    (E : Env) (url : String) (s : St E instance_kind)
    → ChangedWhenRefused url s.history
    → ChangedWhenRefused url (initialize_admin url s).1.history
unfolding initialize_admin
initialize_admin-ChangedWhenRefused E url s h =
    Triple-always (ChangedWhenRefused url) (initialize_admin url)
      (Triple-bind _ _ Triple-object λ i.
        Triple-call {T = ChangedWhenRefused url} {F = ChangedWhenRefused url}
          (kube_get secret_kind (token_key i)) _ (λ h r. r) (λ h r. r)
          (λ secret. token_read-Ordered url (ok secret)) (λ e. token_read-Ordered url (err e)))
      s h

-- Once the Secret with the token is there, reading it is the only call, and the status names it.
pub initialize_admin_idle :
    (E : Env) (url : String) (s : St E instance_kind) (secret : Secret) (t : E.State)
    → let get = kube_get secret_kind (token_key s.object) in
      E.answer get s.server ≡ (ok secret, t)
      → initialize_admin url s ≡ (
        ok tt,
        record {
          server = t;
          object = with_admin_token E "TokenExists" s.object;
          history = called get true ∷ s.history;
        },
      )
unfolding initialize_admin token_read ◌>>=◌ perform
initialize_admin_idle E url s secret t found = rw found refl
