-- ===== src/Project/CiToken/Rotation.antt =====
-- The order of the calls of reconcileCIToken.
use sonarqube_operator.Prelude.{String, ◌≡◌, refl, Bool, true, false, not, [], ◌∷◌, ◌⊎◌, inl}
use sonarqube_operator.Api.{Instance, Secret}
use sonarqube_operator.Sonar.{revoke_token, generate_token}
use sonarqube_operator.Exec.{
  Env, project_kind, secret_kind, St, Credentials, sonar, kube_get, kube_patch, kube_delete,
  kube_create, called, Error, Result, ok, err, wrap_error, ◌>>=◌, perform, is_not_found,
}
use sonarqube_operator.Exec.Triple.{
  History, Triple, Triple-pure, Triple-raise, Triple-raise_to, Triple-lift, Triple-if, Triple-bind,
  Triple-perform, Triple-wrap, Triple-attempt, Triple-emit, Triple-object, Triple-server_state,
  Triple-put, Triple-modify, Triple-always,
}
use sonarqube_operator.Project.CiToken.{
  rotate, reconcile_ci_token, wants_rotation, without_annotation, with_token_secret, secret_key,
  secret_name, token_name, clear_annotation, delete_old_secret, old_secret_deleted, issue,
  secret_read,
}

abbrev pub Revoked : String → History
Revoked name [] = ⊥
Revoked name (called (sonar _ (revoke_token n)) _ ∷ h) = (n ≡ name) ⊎ Revoked name h
Revoked name (_ ∷ h) = Revoked name h

-- Behind each generation of a token, newest first, stands a revocation of that token.
abbrev pub RevokedFirst : History
RevokedFirst [] = Unit
RevokedFirst (called (sonar _ (generate_token n _ _ _)) _ ∷ h) = Revoked n h × RevokedFirst h
RevokedFirst (_ ∷ h) = RevokedFirst h

abbrev Revocable : String → History
Revocable name h = Revoked name h × RevokedFirst h

clear_annotation_first :
    {E : Env} (b : Bool)
    → Triple RevokedFirst (clear_annotation {E = E} b) RevokedFirst RevokedFirst
unfolding clear_annotation
clear_annotation_first false = Triple-pure tt
clear_annotation_first true = Triple-bind _ _ Triple-object (λ old.
    Triple-bind _ _ (Triple-modify _) (λ _.
      Triple-bind _ _
        (Triple-wrap "clearing rotation annotation" _ (
          Triple-perform (kube_patch project_kind old (without_annotation old)) (λ h r. r)
            (λ h r. r)))
        (λ p. Triple-put p)))

module _ {E : Env} (name : String) where
  old_secret_deleted_first :
      (r : Result (Unit {0}))
      → Triple (Revocable name) (old_secret_deleted {E = E} r) (Revocable name) RevokedFirst
  unfolding old_secret_deleted
  old_secret_deleted_first (ok _) = Triple-pure tt
  old_secret_deleted_first (err e) =
      Triple-if (not (is_not_found e)) _ _ (λ _. Triple-raise_to _ (λ h r. r.1))
        (λ _. Triple-pure tt)

  delete_old_secret_first :
      (r : Result Secret)
      → Triple (Revocable name) (delete_old_secret {E = E} r) (Revocable name) RevokedFirst
  unfolding delete_old_secret
  delete_old_secret_first (err e) = Triple-pure tt
  delete_old_secret_first (ok secret) =
      Triple-bind _ _
        (Triple-attempt _ (Triple-perform (kube_delete secret_kind secret) (λ h r. r) (λ h r. r)))
        old_secret_deleted_first

module _ {E : Env} (c : Credentials) (name : String) where
  issue_first :
      (secret : String)
      → Triple (Revocable name) (issue {E = E} c name secret) RevokedFirst RevokedFirst
  unfolding issue
  issue_first secret = Triple-bind _ _ Triple-object λ p. Triple-bind _ _ Triple-server_state λ now.
      Triple-bind _ _
        (Triple-wrap "generating CI token" _
          (Triple-perform (sonar c (generate_token name _ _ _)) (λ h r. r) (λ h r. r)))
        λ t. Triple-bind _ _ (Triple-lift _) λ m.
          Triple-bind _ _
            (Triple-wrap "creating CI token secret" _
              (Triple-perform (kube_create secret_kind _) (λ h r. r) (λ h r. r)))
            λ _. Triple-bind _ _ (Triple-modify _) λ _. Triple-emit _ _ _ (λ h r. r)

  rotate_first :
      (secret : String) (r : Result Secret) (b : Bool)
      → Triple RevokedFirst (rotate {E = E} c name secret r b) RevokedFirst RevokedFirst
  unfolding rotate
  rotate_first secret r b = Triple-bind _ _ (clear_annotation_first b) λ _.
      Triple-bind _ _
        (Triple-attempt _ (
          Triple-perform {Q = Revocable name} (sonar c (revoke_token name)) (λ h r. (inl refl, r))
            (λ h r. (inl refl, r))))
        λ _. Triple-bind _ _ (delete_old_secret_first name r) λ _. issue_first secret

  secret_read_first :
      (secret : String) (b : Bool) (r : Result Secret)
      → Triple RevokedFirst (secret_read {E = E} c name secret b r) RevokedFirst RevokedFirst
  unfolding secret_read
  secret_read_first secret b (err e) =
      Triple-if (not (is_not_found e)) _ _ (λ _. Triple-raise _)
        (λ _. rotate_first secret (err e) b)
  secret_read_first secret b (ok found) =
      Triple-if b _ _ (λ _. rotate_first secret (ok found) true) (λ _. Triple-modify _)

-- Whatever fails, a token is generated only behind a call that revokes the same name, whether or
-- not that call succeeded, if that held of the history before.
pub reconcile_ci_token-RevokedFirst :
    (E : Env) (i : Instance) (c : Credentials) (s : St E project_kind)
    → RevokedFirst s.history
    → RevokedFirst (reconcile_ci_token i c s).1.history
unfolding reconcile_ci_token
reconcile_ci_token-RevokedFirst E i c s h =
    Triple-always RevokedFirst (reconcile_ci_token i c)
      (Triple-bind _ _ Triple-object λ p.
        Triple-bind _ _
          (Triple-attempt _
            (Triple-perform (kube_get secret_kind (secret_key p)) (λ h r. r) (λ h r. r)))
          (secret_read_first c (token_name p i) (secret_name p) (wants_rotation p)))
      s h

-- When the Secret is there, the rotation is asked for, and the patch that clears the annotation
-- fails, the error is returned behind that patch: nothing is revoked, deleted or generated.
pub reconcile_ci_token_patch_failed :
    (E : Env) (i : Instance) (c : Credentials) (s : St E project_kind) (secret : Secret)
    (t u : E.State) (e : Error)
    → let p = s.object in
      let get = kube_get secret_kind (secret_key p) in
      let patch = kube_patch project_kind p (without_annotation p) in
      wants_rotation p ≡ true
      → E.answer get s.server ≡ (ok secret, t)
      → E.answer patch t ≡ (err e, u)
      → reconcile_ci_token i c s ≡ (
        err (wrap_error "clearing rotation annotation" e),
        record {
          server = u;
          object = without_annotation p;
          history = called patch false ∷ called get true ∷ s.history;
        },
      )
unfolding reconcile_ci_token ◌>>=◌ perform
reconcile_ci_token_patch_failed E i c s secret t u e asked found failed = rw (found, asked, failed)

-- When the Secret is there and no rotation is asked for, reading it is the only call, and the status
-- names it.
pub reconcile_ci_token_idle :
    (E : Env) (i : Instance) (c : Credentials) (s : St E project_kind) (secret : Secret)
    (t : E.State)
    → let p = s.object in
      let get = kube_get secret_kind (secret_key p) in
      wants_rotation p ≡ false
      → E.answer get s.server ≡ (ok secret, t)
      → reconcile_ci_token i c s ≡ (
        ok tt,
        record {
          server = t;
          object = with_token_secret (secret_name p) p;
          history = called get true ∷ s.history;
        },
      )
unfolding reconcile_ci_token ◌>>=◌ perform
reconcile_ci_token_idle E i c s secret t quiet found = rw (found, quiet)
