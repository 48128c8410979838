-- ===== src/HttpClient/Access.antt =====
-- The methods of httpClient for groups, permission templates and webhooks.
use sonarqube_operator.Prelude.{String, Bool, some, [], ◌∷◌, ◌++◌, contains}
use sonarqube_operator.Sonar.{PermissionTemplate}
use sonarqube_operator.Exec.{ok}
use sonarqube_operator.HttpClient.Projects.{not_found, first_named}
use sonarqube_operator.HttpClient.Transport.{
  get_method, post_method, HttpClient, Transport, Http, query, command, and_then, into, optional,
  single,
}

module _ (T : Transport) (c : HttpClient) where
  abbrev pub create_group : (name description : String) → Http T (Unit {0})
  create_group name description =
      command T c post_method "/api/user_groups/create"
        (some (single "name" name ∷ optional "description" description))

  -- The search is by a part of the name; only the whole name counts.
  abbrev pub group_exists : (name : String) → Http T Bool
  group_exists name =
      query T c get_method "/api/user_groups/search" (some (single "q" name ∷ []))
        λ body. and_then (into (T.decoders.group_names body)) (λ names. ok (contains names name))

  abbrev pub update_group_description : (name description : String) → Http T (Unit {0})
  update_group_description name description =
      command T c post_method "/api/user_groups/update"
        (some (single "currentName" name ∷ single "description" description ∷ []))

  abbrev pub delete_group : (name : String) → Http T (Unit {0})
  delete_group name =
      command T c post_method "/api/user_groups/delete" (some (single "name" name ∷ []))

  abbrev pub create_permission_template : (name description pattern : String) → Http T String
  create_permission_template name description pattern =
      query T c post_method "/api/permissions/create_template"
        (some (
          single "name" name
          ∷ (optional "description" description ++ optional "projectKeyPattern" pattern)))
        λ body. and_then (into (T.decoders.template body)) (λ t. ok t.id)

  abbrev pub find_permission_template : (name : String) → Http T PermissionTemplate
  find_permission_template name =
      query T c get_method "/api/permissions/search_templates" (some (single "q" name ∷ [])) λ body.
        and_then (into (T.decoders.templates body))
          (first_named (λ t. t.name) name (not_found "not found"))

  abbrev pub delete_permission_template : (id : String) → Http T (Unit {0})
  delete_permission_template id =
      command T c post_method "/api/permissions/delete_template"
        (some (single "templateId" id ∷ []))

  abbrev pub set_default_permission_template : (name : String) → Http T (Unit {0})
  set_default_permission_template name =
      command T c post_method "/api/permissions/set_default_template"
        (some (single "templateName" name ∷ []))

  abbrev pub create_webhook : (name url project secret : String) → Http T String
  create_webhook name url project secret =
      query T c post_method "/api/webhooks/create"
        (some (
          single "name" name
          ∷ single "url" url
          ∷ (optional "project" project ++ optional "secret" secret)))
        (λ body. into (T.decoders.webhook_key body))

  abbrev pub delete_webhook : (key : String) → Http T (Unit {0})
  delete_webhook key =
      command T c post_method "/api/webhooks/delete" (some (single "webhook" key ∷ []))
