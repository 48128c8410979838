-- ===== src/HttpClient/Dispatch.antt =====
-- httpClient as the implementation of the interface Client (internal/sonarqube/client.go): each call of
-- the interface is the method of its name.
use sonarqube_operator.Sonar.{
  SonarCall, SonarReply, get_status, restart, validate_auth, change_admin_password,
  list_installed_plugins, acknowledge_risk_consent, install_plugin, uninstall_plugin,
  create_project, get_project, delete_project, update_project_visibility, get_project_main_branch,
  rename_main_branch, set_project_tags, list_project_links, create_project_link,
  delete_project_link, set_setting, reset_settings, add_user_project_permission,
  remove_user_project_permission, add_group_project_permission, remove_group_project_permission,
  list_quality_gates, get_quality_gate, create_quality_gate, delete_quality_gate, add_condition,
  remove_condition, set_as_default, assign_quality_gate, generate_token, revoke_token,
  generate_user_token, revoke_user_token, create_group, update_group_description, group_exists,
  delete_group, create_permission_template, find_permission_template,
  set_default_permission_template, delete_permission_template, create_webhook, delete_webhook,
  get_user, deactivate_user, get_user_groups, create_user, update_user, add_user_to_group,
  remove_user_from_group, update_user_scm_accounts, add_user_global_permission,
  remove_user_global_permission,
}
use sonarqube_operator.HttpClient.System
use sonarqube_operator.HttpClient.Projects
use sonarqube_operator.HttpClient.Gates
use sonarqube_operator.HttpClient.Access
use sonarqube_operator.HttpClient.Users
use sonarqube_operator.HttpClient.Transport.{HttpClient, Transport, Http}

module _ (T : Transport) (c : HttpClient) where
  unfoldable pub invoke : (call : SonarCall) → Http T (SonarReply call)
  invoke get_status = System.get_status T c
  invoke restart = System.restart T c
  invoke validate_auth = System.validate_auth T c
  invoke (change_admin_password current new) = System.change_admin_password T c current new
  invoke list_installed_plugins = System.list_installed_plugins T c
  invoke acknowledge_risk_consent = System.acknowledge_risk_consent T c
  invoke (install_plugin key version) = System.install_plugin T c key version
  invoke (uninstall_plugin key) = System.uninstall_plugin T c key
  invoke (create_project key name visibility) = Projects.create_project T c key name visibility
  invoke (get_project key) = Projects.get_project T c key
  invoke (delete_project key) = Projects.delete_project T c key
  invoke (update_project_visibility key visibility) =
      Projects.update_project_visibility T c key visibility
  invoke (get_project_main_branch key) = Projects.get_project_main_branch T c key
  invoke (rename_main_branch key branch) = Projects.rename_main_branch T c key branch
  invoke (set_project_tags key tags) = Projects.set_project_tags T c key tags
  invoke (list_project_links key) = Projects.list_project_links T c key
  invoke (create_project_link key name url) = Projects.create_project_link T c key name url
  invoke (delete_project_link id) = Projects.delete_project_link T c id
  invoke (set_setting project key value) = Projects.set_setting T c project key value
  invoke (reset_settings project keys) = Projects.reset_settings T c project keys
  invoke (add_user_project_permission project login permission) =
      Projects.add_user_project_permission T c project login permission
  invoke (remove_user_project_permission project login permission) =
      Projects.remove_user_project_permission T c project login permission
  invoke (add_group_project_permission project group permission) =
      Projects.add_group_project_permission T c project group permission
  invoke (remove_group_project_permission project group permission) =
      Projects.remove_group_project_permission T c project group permission
  invoke list_quality_gates = Gates.list_quality_gates T c
  invoke (get_quality_gate name) = Gates.get_quality_gate T c name
  invoke (create_quality_gate name) = Gates.create_quality_gate T c name
  invoke (delete_quality_gate id) = Gates.delete_quality_gate T c id
  invoke (add_condition gate metric op value) = Gates.add_condition T c gate metric op value
  invoke (remove_condition id) = Gates.remove_condition T c id
  invoke (set_as_default name) = Gates.set_as_default T c name
  invoke (assign_quality_gate project gate) = Gates.assign_quality_gate T c project gate
  invoke (generate_token name type project expiration) =
      Gates.generate_token T c name type project expiration
  invoke (revoke_token name) = Gates.revoke_token T c name
  invoke (generate_user_token login name type expiration) =
      Gates.generate_user_token T c login name type expiration
  invoke (revoke_user_token login name) = Gates.revoke_user_token T c login name
  invoke (create_group name description) = Access.create_group T c name description
  invoke (update_group_description name description) =
      Access.update_group_description T c name description
  invoke (group_exists name) = Access.group_exists T c name
  invoke (delete_group name) = Access.delete_group T c name
  invoke (create_permission_template name description pattern) =
      Access.create_permission_template T c name description pattern
  invoke (find_permission_template name) = Access.find_permission_template T c name
  invoke (set_default_permission_template name) = Access.set_default_permission_template T c name
  invoke (delete_permission_template id) = Access.delete_permission_template T c id
  invoke (create_webhook name url project secret) =
      Access.create_webhook T c name url project secret
  invoke (delete_webhook key) = Access.delete_webhook T c key
  invoke (get_user login) = Users.get_user T c login
  invoke (deactivate_user login) = Users.deactivate_user T c login
  invoke (get_user_groups login) = Users.get_user_groups T c login
  invoke (create_user login name email password) = Users.create_user T c login name email password
  invoke (update_user login name email) = Users.update_user T c login name email
  invoke (add_user_to_group login group) = Users.add_user_to_group T c login group
  invoke (remove_user_from_group login group) = Users.remove_user_from_group T c login group
  invoke (update_user_scm_accounts login accounts) =
      Users.update_user_scm_accounts T c login accounts
  invoke (add_user_global_permission login permission) =
      Users.add_user_global_permission T c login permission
  invoke (remove_user_global_permission login permission) =
      Users.remove_user_global_permission T c login permission
