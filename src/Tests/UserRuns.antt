-- ===== src/Tests/UserRuns.antt =====
-- A user, its groups, tokens and permissions.
use sonarqube_operator.Prelude.{true, none, [], ◌∷◌, All}
use sonarqube_operator.Api.{User}
use sonarqube_operator.Exec.{user_kind, St}
use sonarqube_operator.User.{user_finalizer}
use sonarqube_operator.User.GlobalPermissions.{reconcile_user_global_permissions}
use sonarqube_operator.User.GlobalPermissions.Ownership.{
  OwnedPermissions, reconcile_user_global_permissions_owned,
}
use sonarqube_operator.User.Tokens.{reconcile_user_tokens}
use sonarqube_operator.User.Tokens.Ownership.{OwnedTokens, reconcile_user_tokens_owned}
use sonarqube_operator.User.Tokens.Missing.{
  GeneratedWhenMissing, reconcile_user_tokens-GeneratedWhenMissing,
}
use sonarqube_operator.Tests.World.{world, creds, meta_named}

abbrev pub user : User
user = record {
  meta = meta_named "ann" (user_finalizer ∷ []) true;
  spec = record {
    instance_ref = record { name = "sq"; namespace = "" };
    login = "ann";
    name = "Ann";
    email = "ann@team";
    password_secret_ref = none;
    groups = "devs" ∷ [];
    scm_accounts = [];
    tokens = record { name = "ci"; secret_name = "ann-ci"; type = ""; expires_in = none } ∷ [];
    global_permissions = "scan" ∷ [];
  };
  status = record {
    phase = "";
    active = true;
    groups = "old" ∷ [];
    managed_tokens = "gone" ∷ [];
    managed_global_permissions = "admin" ∷ [];
    conditions = [];
  };
}

abbrev settled : User
settled = record user {
  spec = record user.spec { groups = "old" ∷ [] };
  status = record user.status { groups = "old" ∷ [] };
}

abbrev of_user : User → St world user_kind
of_user u = record { server = 0; object = u; history = [] }

reconcile_user_global_permissions_owned_example :
    All
      (OwnedPermissions "ann" ("scan" ∷ []) ("admin" ∷ []))
      (reconcile_user_global_permissions creds (of_user user)).1.history
reconcile_user_global_permissions_owned_example =
    reconcile_user_global_permissions_owned world creds (of_user user) tt

reconcile_user_tokens_owned_example :
    All (OwnedTokens user) (reconcile_user_tokens creds (of_user user)).1.history
reconcile_user_tokens_owned_example = reconcile_user_tokens_owned world creds (of_user user) tt

reconcile_user_tokens-GeneratedWhenMissing_example :
    GeneratedWhenMissing user user.spec.tokens
      (reconcile_user_tokens creds (of_user user)).1.history
reconcile_user_tokens-GeneratedWhenMissing_example =
    reconcile_user_tokens-GeneratedWhenMissing world creds (of_user user) tt
