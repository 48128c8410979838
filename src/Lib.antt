-- ===== src/Lib.antt =====
-- sonarqube-operator: a Kubernetes operator that keeps SonarQube in line with custom resources.
--
-- A controller reads its resource and the SonarQubeInstance that the resource names, brings
-- SonarQube to what the specification asks for through the SonarQube API, and writes the outcome
-- to the status. Validating webhooks stand before the API server. What is modelled:
--
--   Api         the custom resources, api/v1alpha1/*_types.go
--   Sonar       the interface Client of internal/sonarqube/client.go: a constructor for each
--               method (InstallPlugin is install_plugin) and the type of its result
--   Exec        the calls, the events and the errors of a controller, and the monad of a
--               reconciliation; Exec/Rules, Exec/Triple and Exec/Object are its proof rules
--   Controller  Reconcile and finalizeDeletion as the controllers of projects, plugins, quality
--               gates, users, groups, webhooks and permission templates repeat them, over a record
--               of handlers, and internal/controller/helpers.go; BestEffort is the deletion of
--               groups, webhooks and permission templates
--   Project     internal/controller/sonarqubeproject_controller.go, with a child for each part of
--               reconcileProject: Links, Settings, Grants and Permissions, MainBranch, CiToken
--   Plugin      internal/controller/sonarqubeplugin_controller.go and IsRiskConsentRequired
--   QualityGate internal/controller/sonarqubequalitygate_controller.go; Conditions is
--               reconcileConditions and conditionKey
--   User        internal/controller/sonarqubeuser_controller.go, with the children Groups, Tokens
--               and GlobalPermissions
--   Kube        the parts of pods, services and ingresses that the operator builds
--   Instance    Reconcile of internal/controller/sonarqubeinstance_controller.go with the owned
--               objects; Build is buildStatefulSet, buildEnvVars, buildService, buildIngress and
--               buildHeadlessService
--   InstanceHealth  reconcileHealth, initializeAdmin and surfaceScaffoldDegraded of
--               internal/controller/sonarqubeinstance_controller.go
--   Group, Webhook, Template  internal/controller/sonarqubegroup_controller.go,
--               sonarqubewebhook_controller.go and sonarqubepermissiontemplate_controller.go
--   Scaffold    internal/controller/sonarqubebackup_controller.go and
--               sonarqubebranchrule_controller.go
--   HttpClient  internal/sonarqube/client.go: do and doOnce with the retries of a request, the
--               request that is built (Transport), the methods by what they are about (System,
--               Projects, Gates, Access, Users), and the client as the implementation of the
--               interface (Dispatch)
--   Operator    the controllers over the HTTP client, as cmd/main.go puts them together
--   Restart     the restart flag between the plugin and the instance controller: their reads, calls and
--               writes as a step relation over signalInstanceRestart, reconcileHealth and the writes
--               of the status
--   Manager     cmd/main.go with its flags and options, SetupWithManager of every controller, and the
--               registration of the webhooks
--   Admission   api/v1alpha1/sonarqubeinstance_webhook.go (Version),
--               cross_namespace_validator.go (Namespace) and instanceref_webhook.go
--   Text        the functions of Go's strings package that the code calls
--   Tests       a small world and the runs that exercise the results
--
-- A reconciliation is a function on a state: the outside world, whose type and answers are
-- parameters (the record Env of Exec), the resource in memory, and the history of the calls and
-- events, newest first. A call to the API server or to SonarQube may succeed or fail in any way; a
-- write puts the object that the server returned in place of the one in memory. Errors are values
-- with the kinds that the code tests by errors.IsNotFound, IsAlreadyExists and
-- sonarqube.ErrNotFound. Env holds as parameters also the helpers of controllerutil and apimeta, the
-- verb %q, the clock and the order of a walk over a map. Every loop of the code runs over a list,
-- so that the model recurs on lists and has no fuel.
--
-- The HTTP client is a function of a transport, a JSON decoder, the encoder of url.Values and timers.
--
-- Not modelled: the generated deep copies, the list types and the scheme, logs and metrics, and what
-- controller-runtime does with the options that it is given. A Reconcile counts as one step, and what
-- other clients write between its calls shows in the answers of the world, which are arbitrary; only
-- Restart splits the two controllers into their calls.
pub mod Prelude
pub mod Text
pub mod Kube
pub mod Api
pub mod Sonar
pub mod Exec
pub mod Controller
pub mod Admission
pub mod Project
pub mod Plugin
pub mod QualityGate
pub mod Group
pub mod HttpClient
pub mod Instance
pub mod InstanceHealth
pub mod Manager
pub mod Operator
pub mod Restart
pub mod Scaffold
pub mod Template
pub mod Tests
pub mod User
pub mod Webhook
