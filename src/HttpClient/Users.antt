-- ===== src/HttpClient/Users.antt =====
-- The methods of httpClient for users, their groups and their global permissions.
use sonarqube_operator.Prelude.{String, ◌<>◌, some, List, [], ◌∷◌, ◌++◌}
use sonarqube_operator.Sonar.{RemoteUser}
use sonarqube_operator.HttpClient.Projects.{not_found, first_named}
use sonarqube_operator.HttpClient.Transport.{
  get_method, post_method, HttpClient, Transport, Http, query, command, and_then, into, optional,
  single, Values,
}

-- The parameter once for each account, or not at all.
abbrev accounts_values : List String → Values
accounts_values [] = []
accounts_values (a ∷ accounts) = ("scmAccount", a ∷ accounts) ∷ []

module _ (T : Transport) (c : HttpClient) where
  abbrev pub get_user : (login : String) → Http T RemoteUser
  get_user login = query T c get_method "/api/users/search" (some (single "q" login ∷ [])) λ body.
      and_then (into (T.decoders.users body))
        (first_named (λ u. u.login) login (not_found ("user " <> (T.quote login <> ": not found"))))

  abbrev pub create_user : (login name email password : String) → Http T (Unit {0})
  create_user login name email password = command T c post_method "/api/users/create" (
      some (
        single "login" login
        ∷ single "name" name
        ∷ single "local" "true"
        ∷ (optional "email" email ++ optional "password" password)))

  -- An empty e-mail address is not sent.
  abbrev pub update_user : (login name email : String) → Http T (Unit {0})
  update_user login name email =
      command T c post_method "/api/users/update"
        (some (single "login" login ∷ single "name" name ∷ optional "email" email))

  abbrev pub deactivate_user : (login : String) → Http T (Unit {0})
  deactivate_user login =
      command T c post_method "/api/users/deactivate" (some (single "login" login ∷ []))

  abbrev pub update_user_scm_accounts :
      (login : String) (accounts : List String) → Http T (Unit {0})
  update_user_scm_accounts login accounts =
      command T c post_method "/api/users/update"
        (some (single "login" login ∷ accounts_values accounts))

  abbrev pub get_user_groups : (login : String) → Http T (List String)
  get_user_groups login =
      query T c get_method "/api/users/groups"
        (some (single "login" login ∷ single "selected" "selected" ∷ []))
        (λ body. into (T.decoders.group_names body))

  abbrev pub add_user_to_group : (login group : String) → Http T (Unit {0})
  add_user_to_group login group =
      command T c post_method "/api/user_groups/add_user"
        (some (single "login" login ∷ single "name" group ∷ []))

  abbrev pub remove_user_from_group : (login group : String) → Http T (Unit {0})
  remove_user_from_group login group =
      command T c post_method "/api/user_groups/remove_user"
        (some (single "login" login ∷ single "name" group ∷ []))

  abbrev pub add_user_global_permission : (login permission : String) → Http T (Unit {0})
  add_user_global_permission login permission =
      command T c post_method "/api/permissions/add_user"
        (some (single "login" login ∷ single "permission" permission ∷ []))

  abbrev pub remove_user_global_permission : (login permission : String) → Http T (Unit {0})
  remove_user_global_permission login permission =
      command T c post_method "/api/permissions/remove_user"
        (some (single "login" login ∷ single "permission" permission ∷ []))
