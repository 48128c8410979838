-- ===== src/Exec.antt =====
-- What a reconciler does to the outside: calls to the API server and to SonarQube, and recorded
-- events. A reconciler is an action over the environment's state, the object that it reconciles
-- and the history of what it did, newest entry first.
pub mod Rules
pub mod Object
pub mod Kept
pub mod Triple
pub mod Returned
use sonarqube_operator.Prelude.{ℕ, String, ◌<>◌, Bool, true, false, Option, List, [], ◌∷◌}
use sonarqube_operator.Api.{
  NamespacedName, ObjectMeta, Condition, Secret, Instance, Project, Plugin, Gate, User,
}
use sonarqube_operator.Api.Access.{Group, Webhook, Template}
use sonarqube_operator.Api.Owned.{StatefulSet, Service, Ingress}
use sonarqube_operator.Api.Scaffolds.{Backup, BranchRule}
use sonarqube_operator.Sonar.{SonarCall, SonarReply}

-- The errors that the code tells apart: IsNotFound and IsAlreadyExists of the API server,
-- sonarqube.ErrNotFound, an error that SonarQube reports in a body of JSON (apiError), and any other.
-- Wrapping by %w keeps the kind.
pub data ErrorKind : Type 0 where
  kube_not_found already_exists sonar_not_found api_error other : ErrorKind

pub record Error : Type 0 where
  pub kind : ErrorKind
  pub message : String

pub data Result {ℓ} (A : Type ℓ) : Type ℓ where
  ok : A → Result A
  err : Error → Result A

pub data Kind : Type 0 where
  instance_kind project_kind plugin_kind gate_kind user_kind secret_kind : Kind
  group_kind webhook_kind template_kind backup_kind branch_rule_kind : Kind
  stateful_set_kind service_kind ingress_kind : Kind

abbrev pub Obj : Kind → Type 0
Obj instance_kind = Instance
Obj project_kind = Project
Obj plugin_kind = Plugin
Obj gate_kind = Gate
Obj user_kind = User
Obj secret_kind = Secret
Obj group_kind = Group
Obj webhook_kind = Webhook
Obj template_kind = Template
Obj backup_kind = Backup
Obj branch_rule_kind = BranchRule
Obj stateful_set_kind = StatefulSet
Obj service_kind = Service
Obj ingress_kind = Ingress

-- NewSonarClient(url, token) and NewSonarClientWithPassword(url, username, password)
pub data Credentials : Type 0 where
  bearer : (url token : String) → Credentials
  basic : (url username password : String) → Credentials

-- An update, a patch or a creation decodes the server's answer into the object it was given.
pub data Call : Type 0 where
  kube_get : Kind → NamespacedName → Call
  kube_update kube_update_status kube_create kube_delete : (k : Kind) → Obj k → Call
  kube_patch kube_patch_status : (k : Kind) → (old new : Obj k) → Call
  sonar : Credentials → SonarCall → Call

abbrev pub Reply : Call → Type 0
Reply (kube_get k _) = Obj k
Reply (kube_update k _) = Obj k
Reply (kube_update_status k _) = Obj k
Reply (kube_create k _) = Obj k
Reply (kube_delete k _) = Unit {0}
Reply (kube_patch k _ _) = Obj k
Reply (kube_patch_status k _ _) = Obj k
Reply (sonar _ c) = SonarReply c

pub data EventType : Type 0 where
  normal warning : EventType

-- A call with whether it succeeded, or an event with its reason and its message.
pub data Action : Type 0 where
  called : Call → Bool → Action
  event : EventType → (reason message : String) → Action

-- The code that the operator calls and does not contain: the API server and SonarQube, the helpers
-- of controllerutil and apimeta, the %q verb, the clock, and the order in which Go walks a map.
pub record Env : Type 1 where
  pub State : Type 0
  pub answer : (c : Call) → State → Result (Reply c) × State
  pub contains_finalizer : List String → String → Bool
  pub add_finalizer : List String → String → List String
  pub remove_finalizer : List String → String → List String
  pub set_controller_reference : (owner controlled : ObjectMeta) → Result ObjectMeta
  pub set_status_condition : List Condition → Condition → List Condition
  pub quote : String → String
  pub date_after : State → ℕ → String
  pub range : State → List String → List String

pub record St (E : Env) (k : Kind) : Type 0 where
  pub server : E.State
  pub object : Obj k
  pub history : List Action

abbrev pub Exec : Env → Kind → Type 0 → Type 0
Exec E k A = St E k → Result A × St E k

module _ {E : Env} {k : Kind} {A : Type 0} where
  abbrev pub pure : A → Exec E k A
  pure a s = (ok a, s)

  abbrev pub raise : Error → Exec E k A
  raise e s = (err e, s)

  abbrev pub lift : Result A → Exec E k A
  lift r s = (r, s)

  -- The outcome of an action as a value, as Go's `err := f()` has it.
  abbrev pub attempt : Exec E k A → Exec E k (Result A)
  attempt m s = let (r, s') = m s in (ok r, s')

abbrev pub wrap_error : String → Error → Error
wrap_error prefix e = record e { message = prefix <> (": " <> e.message) }

abbrev pub wrap_result : {A : Type 0} → String → Result A → Result A
wrap_result prefix (ok a) = ok a
wrap_result prefix (err e) = err (wrap_error prefix e)

-- fmt.Errorf("prefix: %w", err)
abbrev pub wrap : {E : Env} {k : Kind} {A : Type 0} → String → Exec E k A → Exec E k A
wrap prefix m s = let (r, s') = m s in (wrap_result prefix r, s')

module _ {E : Env} {k : Kind} {A B : Type 0} where
  abbrev continue : Result A → (A → Exec E k B) → Exec E k B
  continue (ok a) f s = f a s
  continue (err e) f s = (err e, s)

  infixl 5 ◌>>=◌ ◌>>◌
  unfoldable pub ◌>>=◌ : Exec E k A → (A → Exec E k B) → Exec E k B
  ◌>>=◌ m f s = let (r, s') = m s in continue r f s'

  abbrev pub ◌>>◌ : Exec E k A → Exec E k B → Exec E k B
  m >> n = m >>= λ _. n

abbrev pub is_ok : {A : Type 0} → Result A → Bool
is_ok (ok a) = true
is_ok (err e) = false

module _ {E : Env} {k : Kind} where
  unfoldable pub perform : (c : Call) → Exec E k (Reply c)
  perform c s =
      let (r, server) = E.answer c s.server in
      (r, record s { server = server; history = called c (is_ok r) ∷ s.history })

  -- Recorder.Event
  unfoldable pub emit : EventType → String → String → Exec E k (Unit {0})
  emit t reason message s = (ok tt, record s { history = event t reason message ∷ s.history })

  abbrev pub object : Exec E k (Obj k)
  object s = (ok s.object, s)

  abbrev pub put : Obj k → Exec E k (Unit {0})
  put o s = (ok tt, record s { object = o })

  abbrev pub modify : (Obj k → Obj k) → Exec E k (Unit {0})
  modify f s = (ok tt, record s { object = f s.object })

  abbrev pub server_state : Exec E k E.State
  server_state s = (ok s.server, s)

  -- r.Update(ctx, obj) and r.Status().Update(ctx, obj)
  abbrev pub update : Exec E k (Unit {0})
  update = do o ← object; o' ← perform (kube_update k o); put o'

  abbrev pub update_status : Exec E k (Unit {0})
  update_status = do o ← object; o' ← perform (kube_update_status k o); put o'

  -- `_ = r.Status().Update(ctx, obj)`
  abbrev pub update_status_ignored : Exec E k (Unit {0})
  update_status_ignored = do attempt update_status; pure tt

abbrev pub not_found_kind : ErrorKind → Bool
not_found_kind kube_not_found = true
not_found_kind _ = false

-- errors.IsNotFound
abbrev pub is_not_found : Error → Bool
is_not_found e = not_found_kind e.kind

abbrev pub sonar_not_found_kind : ErrorKind → Bool
sonar_not_found_kind sonar_not_found = true
sonar_not_found_kind _ = false

abbrev pub api_error_kind : ErrorKind → Bool
api_error_kind api_error = true
api_error_kind _ = false

-- errIsAPIError
abbrev pub is_api_error : Error → Bool
is_api_error e = api_error_kind e.kind

-- errors.Is(err, sonarqube.ErrNotFound)
abbrev pub is_sonar_not_found : Error → Bool
is_sonar_not_found e = sonar_not_found_kind e.kind
