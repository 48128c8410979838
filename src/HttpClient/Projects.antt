-- ===== src/HttpClient/Projects.antt =====
-- The methods of httpClient for projects: their links, branches, settings and permissions.
use sonarqube_operator.Prelude.{String, ◌<>◌, Bool, some, List, [], ◌∷◌, ◌==◌, if◌then◌else◌}
use sonarqube_operator.Text.{join}
use sonarqube_operator.Sonar.{RemoteProject, ProjectLink}
use sonarqube_operator.Exec.{Error, sonar_not_found, Result, ok, err}
use sonarqube_operator.Controller.{new_error}
use sonarqube_operator.HttpClient.Transport.{
  get_method, post_method, HttpClient, Transport, Http, query, command, and_then, into, single,
}

-- The error that wraps ErrNotFound.
abbrev pub not_found : String → Error
not_found message = record { kind = sonar_not_found; message = message }

-- The first element whose name, in the sense of `name_of`, is the one asked for.
unfoldable pub first_named : {A : Type 0} → (A → String) → String → Error → List A → Result A
first_named name_of name e [] = err e
first_named name_of name e (x ∷ xs) =
    if name_of x == name then ok x else first_named name_of name e xs

unfoldable pub main_branch : Error → List (String × Bool) → Result String
main_branch e [] = err e
main_branch e ((name, is_main) ∷ rest) = if is_main then ok name else main_branch e rest

module _ (T : Transport) (c : HttpClient) where
  abbrev pub set_project_tags : (key : String) (tags : List String) → Http T (Unit {0})
  set_project_tags key tags =
      command T c post_method "/api/project_tags/set"
        (some (single "project" key ∷ single "tags" (join "," tags) ∷ []))

  abbrev pub list_project_links : (key : String) → Http T (List ProjectLink)
  list_project_links key =
      query T c get_method "/api/project_links/search" (some (single "projectKey" key ∷ []))
        (λ body. into (T.decoders.links body))

  abbrev pub create_project_link : (key name url : String) → Http T String
  create_project_link key name url =
      query T c post_method "/api/project_links/create"
        (some (single "projectKey" key ∷ single "name" name ∷ single "url" url ∷ []))
        λ body. and_then (into (T.decoders.link body)) (λ link. ok link.id)

  abbrev pub delete_project_link : (id : String) → Http T (Unit {0})
  delete_project_link id =
      command T c post_method "/api/project_links/delete" (some (single "id" id ∷ []))

  abbrev pub create_project : (key name visibility : String) → Http T (Unit {0})
  create_project key name visibility =
      command T c post_method "/api/projects/create"
        (some (single "project" key ∷ single "name" name ∷ single "visibility" visibility ∷ []))

  -- The search is by prefix; only the exact key counts.
  abbrev pub get_project : (key : String) → Http T RemoteProject
  get_project key =
      query T c get_method "/api/projects/search" (some (single "projects" key ∷ [])) λ body.
        and_then (into (T.decoders.projects body))
          (first_named (λ p. p.key) key (not_found ("project " <> (T.quote key <> ": not found"))))

  abbrev pub delete_project : (key : String) → Http T (Unit {0})
  delete_project key =
      command T c post_method "/api/projects/delete" (some (single "project" key ∷ []))

  abbrev pub update_project_visibility : (key visibility : String) → Http T (Unit {0})
  update_project_visibility key visibility =
      command T c post_method "/api/projects/update_visibility"
        (some (single "project" key ∷ single "visibility" visibility ∷ []))

  abbrev pub get_project_main_branch : (key : String) → Http T String
  get_project_main_branch key =
      query T c get_method "/api/project_branches/list" (some (single "project" key ∷ [])) λ body.
        and_then (into (T.decoders.branches body))
          (main_branch (new_error ("project " <> (T.quote key <> ": no main branch found"))))

  abbrev pub rename_main_branch : (key branch : String) → Http T (Unit {0})
  rename_main_branch key branch =
      command T c post_method "/api/project_branches/rename"
        (some (single "project" key ∷ single "name" branch ∷ []))

  abbrev pub set_setting : (project key value : String) → Http T (Unit {0})
  set_setting project key value =
      command T c post_method "/api/settings/set"
        (some (single "component" project ∷ single "key" key ∷ single "value" value ∷ []))

  -- Without keys there is nothing to send.
  unfoldable pub reset_settings : (project : String) (keys : List String) → Http T (Unit {0})
  reset_settings project [] v = (ok tt, (v, []))
  reset_settings project (key ∷ keys) v =
      command T c post_method "/api/settings/reset"
        (some (single "component" project ∷ single "keys" (join "," (key ∷ keys)) ∷ [])) v

  abbrev pub add_user_project_permission : (project login permission : String) → Http T (Unit {0})
  add_user_project_permission project login permission =
      command T c post_method "/api/permissions/add_user" (
        some (
          single "login" login ∷ single "projectKey" project ∷ single "permission" permission ∷ []))

  abbrev pub remove_user_project_permission :
      (project login permission : String) → Http T (Unit {0})
  remove_user_project_permission project login permission =
      command T c post_method "/api/permissions/remove_user" (
        some (
          single "login" login ∷ single "projectKey" project ∷ single "permission" permission ∷ []))

  abbrev pub add_group_project_permission : (project group permission : String) → Http T (Unit {0})
  add_group_project_permission project group permission =
      command T c post_method "/api/permissions/add_group" (
        some (
          single "groupName" group
          ∷ single "projectKey" project
          ∷ single "permission" permission
          ∷ []))

  abbrev pub remove_group_project_permission :
      (project group permission : String) → Http T (Unit {0})
  remove_group_project_permission project group permission =
      command T c post_method "/api/permissions/remove_group" (
        some (
          single "groupName" group
          ∷ single "projectKey" project
          ∷ single "permission" permission
          ∷ []))
