-- ===== src/User/Tokens/Ownership.antt =====
-- Which calls reconcileUserTokens makes.
use sonarqube_operator.Prelude.{
  String, ◌≡◌, refl, true, false, not, List, [], ◌∷◌, contains, All, Member, All-Member,
  contains_self,
}
use sonarqube_operator.Api.{User, UserToken, Secret}
use sonarqube_operator.Sonar.{SonarCall, generate_user_token, revoke_user_token}
use sonarqube_operator.Exec.{
  Env, user_kind, secret_kind, St, Credentials, sonar, kube_get, kube_create, Action, called,
  Result, ok, err, is_not_found,
}
use sonarqube_operator.Exec.Rules.{
  Logs, Logs-pure, Logs-raise, Logs-lift, Logs-attempt, Logs-perform, Logs-bind, Logs-wrapped,
  Logs-if, Logs-modify, Logs-at_object, Logs-server_state,
}
use sonarqube_operator.User.Tokens.{
  token_names, token_type, revoke_tokens, materialize, generate_tokens, reconcile_user_tokens,
}

module _ (u : User) where
  abbrev pub TokenCall : SonarCall → Type 0
  TokenCall (revoke_user_token l n) =
      (l ≡ u.spec.login)
      × (contains u.status.managed_tokens n ≡ true)
      × (contains (token_names u.spec.tokens) n ≡ false)
  TokenCall (generate_user_token l n type _) =
      (l ≡ u.spec.login)
      × ((t : UserToken) × Member t u.spec.tokens × (t.name ≡ n) × (token_type t ≡ type))
  TokenCall _ = ⊥

  -- The revocation of a managed token that is no longer asked for, the generation of one that is, or the
  -- read or creation of a Secret.
  abbrev pub OwnedTokens : Action → Type 0
  OwnedTokens (called (sonar _ call) _) = TokenCall call
  OwnedTokens (called (kube_get secret_kind _) _) = Unit
  OwnedTokens (called (kube_create secret_kind _) _) = Unit
  OwnedTokens _ = ⊥

  module _ {E : Env} (c : Credentials) where
    revoke_tokens-Logs :
        (names : List String)
        → All (λ n. contains u.status.managed_tokens n ≡ true) names
        → Logs OwnedTokens (revoke_tokens {E = E} c u.spec.login (token_names u.spec.tokens) names)
    unfolding revoke_tokens
    revoke_tokens-Logs [] h = Logs-pure tt
    revoke_tokens-Logs (n ∷ names) h =
        Logs-if (contains (token_names u.spec.tokens) n) _ _ (λ _. revoke_tokens-Logs names h.1)
          (λ free.
            Logs-bind _ _
              (Logs-wrapped _ (sonar c (revoke_user_token u.spec.login n)) (λ b. (refl, h.0, free)))
              (λ _. revoke_tokens-Logs names h.1))

    materialize-Logs :
        (t : UserToken) (r : Result Secret)
        → Member t u.spec.tokens
        → Logs OwnedTokens (materialize {E = E} c u t r)
    unfolding materialize
    materialize-Logs t (ok _) m = Logs-pure tt
    materialize-Logs t (err e) m =
        Logs-if (not (is_not_found e)) _ _ (λ _. Logs-raise _)
          (λ _. Logs-bind _ _ Logs-server_state (λ now.
            Logs-bind _ _
              (Logs-wrapped _ (sonar c (generate_user_token u.spec.login t.name (token_type t) _))
                (λ b. (refl, (t, m, refl, refl))))
              (λ token. Logs-bind _ _ (Logs-lift _) (λ meta.
                Logs-bind _ _ (Logs-wrapped _ (kube_create secret_kind _) (λ b. tt))
                  (λ _. Logs-pure tt)))))

    generate_tokens-Logs :
        (ts : List UserToken)
        → All (λ t. Member t u.spec.tokens) ts
        → Logs OwnedTokens (generate_tokens {E = E} c u ts)
    unfolding generate_tokens
    generate_tokens-Logs [] h = Logs-pure tt
    generate_tokens-Logs (t ∷ ts) h =
        Logs-bind _ _ (Logs-attempt _ (Logs-perform (kube_get secret_kind _) (λ b. tt)))
          (λ r. Logs-bind _ _ (materialize-Logs t r h.0) (λ _. generate_tokens-Logs ts h.1))

-- The only calls to SonarQube are revocations of tokens that the status lists and the specification
-- lacks, and generations of tokens of the specification with their type (USER_TOKEN where it is
-- left out); the others read or create Secrets. So a token of the specification is not revoked,
-- also where its Secret was deleted and it is generated anew.
pub reconcile_user_tokens_owned :
    (E : Env) (c : Credentials) (s : St E user_kind)
    → All (OwnedTokens s.object) s.history
    → All (OwnedTokens s.object) (reconcile_user_tokens c s).1.history
unfolding reconcile_user_tokens
reconcile_user_tokens_owned E c s h =
    let u = s.object in
    Logs-at_object {P = OwnedTokens u} _ s
      (Logs-bind _ _
        (revoke_tokens-Logs u c u.status.managed_tokens (contains_self u.status.managed_tokens))
        (λ _.
          Logs-bind _ _ (generate_tokens-Logs u c u.spec.tokens (All-Member u.spec.tokens))
            (λ _. Logs-modify _)))
      h
