-- ===== src/User/Tokens/Missing.antt =====
-- When reconcileUserTokens generates a token.
use sonarqube_operator.Prelude.{
  String, ◌≡◌, refl, false, not, List, [], ◌∷◌, contains, All, Member, All-Member,
}
use sonarqube_operator.Api.{User, UserToken, NamespacedName, Secret}
use sonarqube_operator.Sonar.{generate_user_token, revoke_user_token}
use sonarqube_operator.Exec.{
  Env, user_kind, secret_kind, St, Credentials, sonar, kube_get, kube_create, called, Error, ok,
  err, is_not_found,
}
use sonarqube_operator.Exec.Triple.{
  History, Triple, Triple-pure, Triple-raise_to, Triple-lift, Triple-if, Triple-bind,
  Triple-perform, Triple-wrap, Triple-server_state, Triple-modify, Triple-at_object, Triple-call,
}
use sonarqube_operator.User.Tokens.{
  token_names, revoke_tokens, materialize, generate_tokens, reconcile_user_tokens,
}

abbrev pub token_secret_key : User → UserToken → NamespacedName
token_secret_key u t = record { namespace = u.meta.namespace; name = t.secret_name }

module _ (u : User) (tokens : List UserToken) where
  -- The last call was a read of the Secret of a token `n` of the specification, and it failed.
  abbrev pub Missing : (n : String) → History
  Missing n [] = ⊥
  Missing n (called (kube_get secret_kind key) false ∷ h) =
      (t : UserToken) × Member t tokens × (t.name ≡ n) × (key ≡ token_secret_key u t)
  Missing n (_ ∷ h) = ⊥

  abbrev pub GeneratedWhenMissing : History
  GeneratedWhenMissing [] = Unit
  GeneratedWhenMissing (called (sonar _ (generate_user_token _ n _ _)) _ ∷ h) =
      Missing n h × GeneratedWhenMissing h
  GeneratedWhenMissing (_ ∷ h) = GeneratedWhenMissing h

  module _ {E : Env} (c : Credentials) where
    revoke_tokens-Missing :
        (login : String) (desired names : List String)
        → Triple GeneratedWhenMissing
            (revoke_tokens {E = E} c login desired names)
            GeneratedWhenMissing
            GeneratedWhenMissing
    unfolding revoke_tokens
    revoke_tokens-Missing login desired [] = Triple-pure tt
    revoke_tokens-Missing login desired (n ∷ names) =
        Triple-if (contains desired n) _ _ (λ _. revoke_tokens-Missing login desired names)
          (λ _.
            Triple-bind _ _
              (Triple-wrap _ _
                (Triple-perform (sonar c (revoke_user_token login n)) (λ h r. r) (λ h r. r)))
              (λ _. revoke_tokens-Missing login desired names))

    materialize-Missing :
        (t : UserToken) (e : Error)
        → Triple
            (λ h. Missing t.name h × GeneratedWhenMissing h)
            (materialize {E = E} c u t (err e))
            GeneratedWhenMissing
            GeneratedWhenMissing
    unfolding materialize
    materialize-Missing t e =
        Triple-if (not (is_not_found e)) _ _ (λ _. Triple-raise_to _ (λ h r. r.1))
          λ _. Triple-bind _ _ Triple-server_state λ now.
            Triple-bind _ _
              (Triple-wrap _ _ (
                Triple-perform (sonar c (generate_user_token u.spec.login t.name _ _)) (λ h r. r)
                  (λ h r. r)))
              λ token. Triple-bind _ _ (Triple-lift _) λ m.
                Triple-bind _ _
                  (Triple-wrap _ _
                    (Triple-perform (kube_create secret_kind _) (λ h r. r) (λ h r. r)))
                  λ _. Triple-pure tt

    present-Missing :
        (t : UserToken) (secret : Secret)
        → Triple GeneratedWhenMissing
            (materialize {E = E} c u t (ok secret))
            GeneratedWhenMissing
            GeneratedWhenMissing
    unfolding materialize
    present-Missing t secret = Triple-pure tt

    generate_tokens-Missing :
        (ts : List UserToken)
        → All (λ t. Member t tokens) ts
        → Triple GeneratedWhenMissing
            (generate_tokens {E = E} c u ts)
            GeneratedWhenMissing
            GeneratedWhenMissing
    unfolding generate_tokens
    generate_tokens-Missing [] h = Triple-pure tt
    generate_tokens-Missing (t ∷ ts) m =
        Triple-call {T = GeneratedWhenMissing} {F = λ h. Missing t.name h × GeneratedWhenMissing h}
          (kube_get secret_kind (token_secret_key u t)) _ (λ h r. r)
          (λ h r. ((t, m.0, refl, refl), r))
          (λ secret. Triple-bind _ _ (present-Missing t secret) λ _. generate_tokens-Missing ts m.1)
          (λ e. Triple-bind _ _ (materialize-Missing t e) λ _. generate_tokens-Missing ts m.1)

-- A token is generated only right behind a failed read of the Secret that the specification names
-- for it, if that held of the history before.
pub reconcile_user_tokens-GeneratedWhenMissing :
    (E : Env) (c : Credentials) (s : St E user_kind)
    → GeneratedWhenMissing s.object s.object.spec.tokens s.history
    → GeneratedWhenMissing s.object s.object.spec.tokens (reconcile_user_tokens c s).1.history
unfolding reconcile_user_tokens
reconcile_user_tokens-GeneratedWhenMissing E c s h =
    let u = s.object in
    Triple-at_object (GeneratedWhenMissing u u.spec.tokens) _ s
      (Triple-bind _ _
        (revoke_tokens-Missing u u.spec.tokens c u.spec.login (token_names u.spec.tokens)
          u.status.managed_tokens)
        λ _.
          Triple-bind _ _
            (generate_tokens-Missing u u.spec.tokens c u.spec.tokens (All-Member u.spec.tokens))
            λ _. Triple-modify _)
      h
