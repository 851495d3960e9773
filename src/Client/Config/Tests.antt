-- ===== src/Client/Config/Tests.antt =====
-- `Init` in a pod without kubeconfig, and its theorems there.
use kube_client.Prelude.{pos, ℕ, String, true, false, none, some, ok, fail, refl, ◌==◌}
use kube_client.Client.Config.{
  Floats, RestConfig, Environment, Settings, Chosen, exists, choose, configured, init, file_exists,
  has_in_cluster_config, get_out_of_cluster_config, get_in_cluster_config,
  make_out_of_cluster_client_config_error, connect, new_disk_cached_discovery,
}
use kube_client.Client.Config.Choice.{IsInCluster, choose-IsInCluster}

abbrev whole : Floats
whole = record { Float = ℕ; float_is_zero = λ x. x == 0 }

abbrev config_at : String → RestConfig whole
config_at host = record {
  host = host;
  accept_content_types = "";
  qps = 5;
  burst = pos 10;
  timeout = pos 0;
}

abbrev pod : Environment whole
pod = record {
  namespace = λ context path. ok "default";
  client_config = λ context path. fail "no configuration";
  in_cluster_config = ok (config_at "10.0.0.1");
  stat = λ path. exists;
  read_file = λ path. ok "apps";
  server_config = λ server. config_at server;
  new_clientset = λ config. none;
  new_dynamic_client = λ config. none;
  new_api_ext_client = λ config. none;
  new_metadata_client = λ config. none;
  new_discovery_client = λ config. none;
  new_disk_cache = λ config discovery_dir http_dir. none;
  mkdir_temp = λ pattern. ok pattern;
  in_memory_cache = false;
}

abbrev settings : Settings whole
settings = record {
  context_name = "";
  config_path = "";
  server = "";
  rest_config = none;
  accept_only_json_content_type = true;
  qps = 0;
  burst = pos 20;
  timeout = pos 0;
  default_namespace = "";
}

-- Opens what a run of `Init` computes with.
init_run : Unit {0}
unfolding choose configured init file_exists has_in_cluster_config get_out_of_cluster_config
    get_in_cluster_config make_out_of_cluster_client_config_error connect new_disk_cached_discovery
init_run = tt

abbrev in_pod : Chosen whole
in_pod = record { config = config_at "10.0.0.1"; default_ns = "apps"; config_type = "in-cluster" }

choose-IsInCluster_example : IsInCluster whole pod settings
unfolding init_run
choose-IsInCluster_example = choose-IsInCluster whole pod settings in_pod refl refl

abbrev pod_config : RestConfig whole
pod_config = record {
  host = "10.0.0.1";
  accept_content_types = "application/json";
  qps = 5;
  burst = pos 20;
  timeout = pos 0;
}

abbrev after_init : Settings whole
after_init = record settings { rest_config = some pod_config; default_namespace = "apps" }
