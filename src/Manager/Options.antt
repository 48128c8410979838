-- ===== src/Manager/Options.antt =====
-- The flags of cmd/main.go and the options that it builds of them.
use sonarqube_operator.Prelude.{
  ℕ, String, Bool, true, false, not, Option, none, some, List, [], ◌∷◌, ◌++◌, ◌==◌, contains,
  if◌then◌else◌,
}
use sonarqube_operator.Text.{join}

pub record Flags : Type 0 where
  pub metrics_addr : String
  pub metrics_cert_path : String
  pub metrics_cert_name : String
  pub metrics_cert_key : String
  pub webhook_cert_path : String
  pub webhook_cert_name : String
  pub webhook_cert_key : String
  pub webhook_port : ℕ
  pub enable_leader_election : Bool
  pub enable_webhook : Bool
  pub probe_addr : String
  pub secure_metrics : Bool
  pub enable_http2 : Bool
  pub watch_namespaces : List String

-- The defaults that the flags are declared with.
abbrev pub default_flags : Flags
default_flags = record {
  metrics_addr = "0";
  metrics_cert_path = "";
  metrics_cert_name = "tls.crt";
  metrics_cert_key = "tls.key";
  webhook_cert_path = "";
  webhook_cert_name = "tls.crt";
  webhook_cert_key = "tls.key";
  webhook_port = 9443;
  enable_leader_election = false;
  enable_webhook = false;
  probe_addr = ":8081";
  secure_metrics = true;
  enable_http2 = false;
  watch_namespaces = [];
}

-- stringSliceFlag.String and stringSliceFlag.Set
unfoldable pub string_slice_string : List String → String
unfolding join
string_slice_string s = join "," s

abbrev pub string_slice_set : String → List String → List String
string_slice_set value s = s ++ (value ∷ [])

-- The field of tls.Config that the code writes.
pub record TlsConfig : Type 0 where
  pub next_protos : List String

abbrev pub disable_http2 : TlsConfig → TlsConfig
disable_http2 c = record c { next_protos = "http/1.1" ∷ [] }

abbrev pub tls_options : Flags → List (TlsConfig → TlsConfig)
tls_options flags = if not flags.enable_http2 then disable_http2 ∷ [] else []

pub record WebhookOptions : Type 0 where
  pub port : ℕ
  pub tls_opts : List (TlsConfig → TlsConfig)
  pub cert_dir : String
  pub cert_name : String
  pub key_name : String

unfoldable pub webhook_server_options : Flags → WebhookOptions
webhook_server_options flags =
    let options : WebhookOptions = record {
      port = flags.webhook_port;
      tls_opts = tls_options flags;
      cert_dir = "";
      cert_name = "";
      key_name = "";
    } in
    if flags.webhook_cert_path == "" then options else record options {
      cert_dir = flags.webhook_cert_path;
      cert_name = flags.webhook_cert_name;
      key_name = flags.webhook_cert_key;
    }

-- `filtered` says whether requests are authenticated and authorised.
pub record MetricsOptions : Type 0 where
  pub bind_address : String
  pub secure_serving : Bool
  pub tls_opts : List (TlsConfig → TlsConfig)
  pub filtered : Bool
  pub cert_dir : String
  pub cert_name : String
  pub key_name : String

unfoldable pub metrics_server_options : Flags → MetricsOptions
metrics_server_options flags =
    let options : MetricsOptions = record {
      bind_address = flags.metrics_addr;
      secure_serving = flags.secure_metrics;
      tls_opts = tls_options flags;
      filtered = flags.secure_metrics;
      cert_dir = "";
      cert_name = "";
      key_name = "";
    } in
    if flags.metrics_cert_path == "" then options else record options {
      cert_dir = flags.metrics_cert_path;
      cert_name = flags.metrics_cert_name;
      key_name = flags.metrics_cert_key;
    }

-- The keys of a Go map, filled in the order of the list.
unfoldable pub namespace_set : List String → List String → List String
namespace_set keys [] = keys
namespace_set keys (ns ∷ rest) =
    namespace_set (if contains keys ns then keys else keys ++ (ns ∷ [])) rest

-- DefaultNamespaces of cache.Options, nil where every namespace is watched.
unfoldable pub cache_namespaces : List String → Option (List String)
unfolding namespace_set
cache_namespaces [] = none
cache_namespaces (ns ∷ rest) = some (namespace_set [] (ns ∷ rest))

pub record ManagerOptions : Type 0 where
  pub metrics : MetricsOptions
  pub webhook_server : WebhookOptions
  pub health_probe_bind_address : String
  pub leader_election : Bool
  pub leader_election_id : String
  pub leader_election_release_on_cancel : Bool
  pub default_namespaces : Option (List String)

unfoldable pub manager_options : Flags → ManagerOptions
unfolding metrics_server_options webhook_server_options cache_namespaces
manager_options flags = record {
  metrics = metrics_server_options flags;
  webhook_server = webhook_server_options flags;
  health_probe_bind_address = flags.probe_addr;
  leader_election = flags.enable_leader_election;
  leader_election_id = "67bca3fe.sonarqube.io";
  leader_election_release_on_cancel = true;
  default_namespaces = cache_namespaces flags.watch_namespaces;
}
