-- ===== src/Client/Config.antt =====
-- client/client.go: the configuration that `Init` chooses, and the settings that it puts into it.
pub mod Choice
mod Tests
use Prim.Native.String.{◌++◌ as ◌<>◌}
use kube_client.Prelude.{
  ℤ, pos, negsuc, String, Bool, true, false, ◌&&◌, ◌||◌, not, Option, none, some, str_eq,
  if◌then◌else◌, Result, ok, fail, ◌==◌,
}

-- `x != 0` on an int or a duration
abbrev pub is_zero : ℤ → Bool
is_zero (pos n) = n == 0
is_zero (negsuc n) = false

-- A `float32`, and what `os.Stat` can say of a path.
pub record Floats : Type 1 where
  pub Float : Type 0
  pub float_is_zero : Float → Bool

pub data Stat : Type 0 where
  exists : Stat
  not_exist : Stat
  other_error : Stat

module _ (f : Floats) where
  -- The fields of `rest.Config` that the client reads and writes.
  pub record RestConfig : Type 0 where
    pub host : String
    pub accept_content_types : String
    pub qps : f.Float
    pub burst : ℤ
    pub timeout : ℤ

  -- What `Init` asks of clientcmd, of client-go and of the file system; errors by their texts.
  -- A constructor of client-go gives an error or none; what it makes is kept elsewhere.
  pub record Environment : Type 0 where
    pub namespace : String → String → Result String String
    pub client_config : String → String → Result String RestConfig
    pub in_cluster_config : Result String RestConfig
    pub stat : String → Stat
    pub read_file : String → Result String String
    pub server_config : String → RestConfig
    pub new_clientset : RestConfig → Option String
    pub new_dynamic_client : RestConfig → Option String
    pub new_api_ext_client : RestConfig → Option String
    pub new_metadata_client : RestConfig → Option String
    pub new_discovery_client : RestConfig → Option String
    pub new_disk_cache : RestConfig → String → String → Option String
    pub mkdir_temp : String → Result String String
    -- `FLANT_KUBE_CLIENT_IN_MEMORY_DISCOVERY_CACHE` is set
    pub in_memory_cache : Bool

  -- The part of `Client` that `Init` reads and writes here.
  pub record Settings : Type 0 where
    pub context_name : String
    pub config_path : String
    pub server : String
    pub rest_config : Option RestConfig
    pub accept_only_json_content_type : Bool
    pub qps : f.Float
    pub burst : ℤ
    pub timeout : ℤ
    pub default_namespace : String

  -- A configuration, its namespace, and the word for it in the log.
  pub record Chosen : Type 0 where
    pub config : RestConfig
    pub default_ns : String
    pub config_type : String

abbrev pub kube_token_file_path : String
kube_token_file_path = "/var/run/secrets/kubernetes.io/serviceaccount/token"

abbrev pub kube_namespace_file_path : String
kube_namespace_file_path = "/var/run/secrets/kubernetes.io/serviceaccount/namespace"

abbrev unless_empty : String → String → String
unless_empty name value = if str_eq value "" then "" else name <> (value <> "'")

-- `makeOutOfClusterClientConfigError`
unfoldable pub make_out_of_cluster_client_config_error : String → String → String → String
make_out_of_cluster_client_config_error kube_config kube_context err =
    "out-of-cluster configuration problem"
    <> (unless_empty ", custom kube config path is '" kube_config
        <> (unless_empty ", custom kube context is '" kube_context <> (": " <> err)))

module _ (f : Floats) (env : Environment f) where
  -- `fileExists`, without its error, which its callers drop
  unfoldable pub file_exists : String → Bool
  file_exists path = elim (env.stat path) [
    | exists ↦ true
    | not_exist ↦ false
    | other_error ↦ false
  ]

  unfoldable pub has_in_cluster_config : Bool
  unfolding file_exists
  has_in_cluster_config = file_exists kube_token_file_path && file_exists kube_namespace_file_path

  abbrev with_config :
      String → String → String → Result String (RestConfig f) → Result String (Chosen f)
  with_config context_name config_path ns (ok config) =
      ok (record { config = config; default_ns = ns; config_type = "out-of-cluster" })
  with_config context_name config_path ns (fail err) =
      fail (make_out_of_cluster_client_config_error config_path context_name err)

  abbrev with_namespace : String → String → Result String String → Result String (Chosen f)
  with_namespace context_name config_path (fail err) =
      fail ("cannot determine default kubernetes namespace: " <> err)
  with_namespace context_name config_path (ok ns) =
      with_config context_name config_path ns (env.client_config context_name config_path)

  -- `getOutOfClusterConfig`
  unfoldable pub get_out_of_cluster_config : String → String → Result String (Chosen f)
  get_out_of_cluster_config context_name config_path =
      with_namespace context_name config_path (env.namespace context_name config_path)

  abbrev with_file : RestConfig f → Result String String → Result String (Chosen f)
  with_file config (ok ns) =
      ok (record { config = config; default_ns = ns; config_type = "in-cluster" })
  with_file config (fail err) = fail (
      "in-cluster configuration problem: cannot determine default kubernetes namespace: error reading "
      <> (kube_namespace_file_path <> (": " <> err)))

  abbrev in_cluster : Result String (RestConfig f) → Result String (Chosen f)
  in_cluster (fail err) = fail ("in-cluster configuration problem: " <> err)
  in_cluster (ok config) = with_file config (env.read_file kube_namespace_file_path)

  -- `getInClusterConfig`
  unfoldable pub get_in_cluster_config : Result String (Chosen f)
  get_in_cluster_config = in_cluster env.in_cluster_config

  abbrev pub both_errors : Settings f → String → String → String
  both_errors c out err =
      if not (str_eq c.config_path "") || not (str_eq c.context_name "")
      then "out-of-cluster config error: " <> (out <> (", in-cluster config error: " <> err))
      else err

  abbrev or_both_errors : Settings f → String → Result String (Chosen f) → Result String (Chosen f)
  or_both_errors c out (ok chosen) = ok chosen
  or_both_errors c out (fail err) = fail (both_errors c out err)

  -- No kubeconfig: there is an error then, and the errors for its absence are not reached.
  abbrev or_in_cluster : Settings f → Result String (Chosen f) → Result String (Chosen f)
  or_in_cluster c (ok chosen) = ok chosen
  or_in_cluster c (fail out) =
      if has_in_cluster_config then or_both_errors c out get_in_cluster_config else fail out

  abbrev choose_by : Option (RestConfig f) → Settings f → Result String (Chosen f)
  choose_by (some config) c =
      if str_eq config.host ""
      then fail "rest config host can't be empty"
      else ok (record { config = config; default_ns = "default"; config_type = "rest-config" })
  choose_by none c =
      if str_eq c.server ""
      then or_in_cluster c (get_out_of_cluster_config c.context_name c.config_path)
      else ok (record {
        config = env.server_config c.server;
        default_ns = "default";
        config_type = "server";
      })

  -- The switch of `Init`.
  unfoldable pub choose : Settings f → Result String (Chosen f)
  unfolding get_out_of_cluster_config has_in_cluster_config get_in_cluster_config
  choose c = choose_by c.rest_config c

  -- What `Init` writes into the configuration.
  unfoldable pub configured : Settings f → RestConfig f → RestConfig f
  configured c config = record {
    host = config.host;
    accept_content_types =
        if c.accept_only_json_content_type then "application/json" else config.accept_content_types;
    qps = if f.float_is_zero c.qps then config.qps else c.qps;
    burst = if is_zero c.burst then config.burst else c.burst;
    timeout = if is_zero c.timeout then config.timeout else c.timeout;
  }

  abbrev disk_cache_in : RestConfig f → Result String String → Result String String → Option String
  disk_cache_in config (fail err) http_dir = some err
  disk_cache_in config (ok discovery_dir) (fail err) = some err
  disk_cache_in config (ok discovery_dir) (ok http_dir) =
      env.new_disk_cache config discovery_dir http_dir

  -- `newDiskCachedDiscovery`, by its error
  unfoldable pub new_disk_cached_discovery : RestConfig f → Option String
  new_disk_cached_discovery config =
      disk_cache_in config (env.mkdir_temp "kube-cache-discovery-*")
        (env.mkdir_temp "kube-cache-http-*")

  abbrev or_error : Option String → Option String → Option String
  or_error (some err) later = some err
  or_error none later = later

  -- `Init` behind the configuration: the clients, and then the discovery cache. The metrics, which
  -- are registered between the two, stand in Metrics.antt.
  unfoldable pub connect : RestConfig f → Option String
  unfolding new_disk_cached_discovery
  connect config = or_error (env.new_clientset config) (
      or_error (env.new_dynamic_client config) (
        or_error (env.new_api_ext_client config) (
          or_error (env.new_metadata_client config) (
            if env.in_memory_cache
            then env.new_discovery_client config
            else new_disk_cached_discovery config))))

  -- A `restConfig` is the configuration that `Init` has written to, also after an error.
  abbrev pub written : Option (RestConfig f) → RestConfig f → Option (RestConfig f)
  written (some old) config = some config
  written none config = none

  abbrev pub connected : Settings f → RestConfig f → Option String → Option String × Settings f
  connected c config (some err) =
      (some err, record c { rest_config = written c.rest_config config })
  connected c config none = (none, record c { rest_config = some config })

  abbrev pub with_chosen : Settings f → Result String (Chosen f) → Option String × Settings f
  with_chosen c (fail err) = (some err, c)
  with_chosen c (ok chosen) =
      let config = configured c chosen.config in
      connected (record c { default_namespace = chosen.default_ns }) config (connect config)

  -- `Init`: its error, and the client
  unfoldable pub init : Settings f → Option String × Settings f
  unfolding choose configured connect
  init c = with_chosen c (choose c)
