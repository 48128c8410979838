-- ===== src/Sonar.antt =====
-- The client interface to the SonarQube API (internal/sonarqube/client.go): one constructor for
-- each method of `Client`, and the type of what the method returns when it returns no error.
use sonarqube_operator.Prelude.{String, Bool, List}

pub record InstalledPlugin : Type 0 where
  pub key : String
  pub name : String
  pub version : String

pub record RemoteProject : Type 0 where
  pub key : String
  pub name : String
  pub visibility : String

pub record ProjectLink : Type 0 where
  pub id : String
  pub name : String
  pub type : String
  pub url : String

pub record GateCondition : Type 0 where
  pub id : String
  pub metric : String
  pub op : String
  pub error : String

pub record QualityGate : Type 0 where
  pub id : String
  pub name : String
  pub is_default : Bool
  pub conditions : List GateCondition

pub record Token : Type 0 where
  pub name : String
  pub token : String

pub record PermissionTemplate : Type 0 where
  pub id : String
  pub name : String
  pub description : String
  pub project_key_pattern : String

pub record RemoteUser : Type 0 where
  pub login : String
  pub name : String
  pub email : String
  pub active : Bool

pub data SonarCall : Type 0 where
  get_status restart validate_auth : SonarCall
  change_admin_password : (current new : String) → SonarCall
  list_installed_plugins acknowledge_risk_consent : SonarCall
  install_plugin : (key version : String) → SonarCall
  uninstall_plugin : (key : String) → SonarCall
  create_project : (key name visibility : String) → SonarCall
  get_project delete_project : (key : String) → SonarCall
  update_project_visibility : (key visibility : String) → SonarCall
  get_project_main_branch : (key : String) → SonarCall
  rename_main_branch : (key branch : String) → SonarCall
  set_project_tags : (key : String) (tags : List String) → SonarCall
  list_project_links : (key : String) → SonarCall
  create_project_link : (key name url : String) → SonarCall
  delete_project_link : (id : String) → SonarCall
  set_setting : (project key value : String) → SonarCall
  reset_settings : (project : String) (keys : List String) → SonarCall
  add_user_project_permission : (project login permission : String) → SonarCall
  remove_user_project_permission : (project login permission : String) → SonarCall
  add_group_project_permission : (project group permission : String) → SonarCall
  remove_group_project_permission : (project group permission : String) → SonarCall
  list_quality_gates : SonarCall
  get_quality_gate create_quality_gate : (name : String) → SonarCall
  delete_quality_gate : (id : String) → SonarCall
  add_condition : (gate metric op value : String) → SonarCall
  remove_condition : (id : String) → SonarCall
  set_as_default : (name : String) → SonarCall
  assign_quality_gate : (project gate : String) → SonarCall
  generate_token : (name type project expiration : String) → SonarCall
  revoke_token : (name : String) → SonarCall
  generate_user_token : (login name type expiration : String) → SonarCall
  revoke_user_token : (login name : String) → SonarCall
  create_group update_group_description : (name description : String) → SonarCall
  group_exists delete_group : (name : String) → SonarCall
  create_permission_template : (name description pattern : String) → SonarCall
  find_permission_template set_default_permission_template : (name : String) → SonarCall
  delete_permission_template : (id : String) → SonarCall
  create_webhook : (name url project secret : String) → SonarCall
  delete_webhook : (key : String) → SonarCall
  get_user deactivate_user get_user_groups : (login : String) → SonarCall
  create_user : (login name email password : String) → SonarCall
  update_user : (login name email : String) → SonarCall
  add_user_to_group remove_user_from_group : (login group : String) → SonarCall
  update_user_scm_accounts : (login : String) (accounts : List String) → SonarCall
  add_user_global_permission : (login permission : String) → SonarCall
  remove_user_global_permission : (login permission : String) → SonarCall

abbrev pub SonarReply : SonarCall → Type 0
SonarReply get_status = String × String
SonarReply list_installed_plugins = List InstalledPlugin
SonarReply (get_project _) = RemoteProject
SonarReply (get_project_main_branch _) = String
SonarReply (list_project_links _) = List ProjectLink
SonarReply (create_project_link _ _ _) = String
SonarReply list_quality_gates = List QualityGate
SonarReply (get_quality_gate _) = QualityGate
SonarReply (create_quality_gate _) = QualityGate
SonarReply (add_condition _ _ _ _) = GateCondition
SonarReply (generate_token _ _ _ _) = Token
SonarReply (generate_user_token _ _ _ _) = Token
SonarReply (group_exists _) = Bool
SonarReply (create_permission_template _ _ _) = String
SonarReply (find_permission_template _) = PermissionTemplate
SonarReply (create_webhook _ _ _ _) = String
SonarReply (get_user _) = RemoteUser
SonarReply (get_user_groups _) = List String
SonarReply _ = Unit {0}
