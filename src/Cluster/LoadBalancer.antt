-- ===== src/Cluster/LoadBalancer.antt =====
-- The load balancer of internal/controller/harvestercluster_controller.go: `createPlaceholderSVC`,
-- `getLoadBalancerIP`, `createLoadBalancerIfNotExists` and `getListenersFromAPI`.
use cluster_api_provider_har.Common.{
  List, Option, String, [], if◌then◌else◌, is_empty, map, none, some, str_append, true, ℕ, ◌++◌,
  ◌∷◌,
}
use cluster_api_provider_har.Api.Cluster.{HarvesterCluster, Listener}
use cluster_api_provider_har.Api.Meta.{
  ApiError, Error, Result, api, error, failed, is_already_exists, message, ok, value, wrapped,
}
use cluster_api_provider_har.Cluster.Scope.{ClusterScope, generated_name, log_cluster_call}
use cluster_api_provider_har.Harvester.Cluster.{
  ClusterServers, LbListener, LoadBalancer, Service, create_load_balancer, create_service,
  get_load_balancer,
}

abbrev pub api_server_listener : String
api_server_listener = "api-server"

-- `apiServerLBPort` and `apiServerBackendPort`
abbrev pub api_server_port : ℕ
api_server_port = 6443

abbrev pub lb_name : HarvesterCluster → String
lb_name c = generated_name "lb" c

-- `getListenersFromAPI`
unfoldable pub get_listeners_from_api : HarvesterCluster → List LbListener
get_listeners_from_api c =
    map
      (λ (l : Listener). record {
        name = l.name;
        port = l.port;
        protocol = l.protocol;
        backend_port = l.backend_port;
      })
      c.spec.load_balancer_config.listeners

abbrev pub api_server_lb_listener : LbListener
api_server_lb_listener = record {
  name = api_server_listener;
  port = api_server_port;
  protocol = "TCP";
  backend_port = api_server_port;
}

-- The load balancer that is sent.
unfoldable pub lb_to_create : ClusterScope → LoadBalancer
unfolding get_listeners_from_api
lb_to_create s =
    let c = s.hv_cluster in
    record {
      name = lb_name c;
      namespace = c.spec.target_namespace;
      description = str_append "Load Balancer for cluster " c.meta.name;
      workload_type = "vm";
      ip_pool = c.spec.load_balancer_config.ip_pool_ref;
      ipam = c.spec.load_balancer_config.ipam_type;
      listeners = get_listeners_from_api c ++ (api_server_lb_listener ∷ []);
      health_check = record {
        port = api_server_port;
        success_threshold = 1;
        failure_threshold = 3;
        period_seconds = 30;
        timeout_seconds = 60;
      };
      backend_server_selector =
          ("harvestercluster/machinetype", str_append "controlplane-" s.cluster.name ∷ []) ∷ [];
      address = "";
    }

-- The placeholder that is sent.
unfoldable pub placeholder_svc : String → String → ClusterScope → Service
placeholder_svc name lb_ip s = record {
  name = name;
  namespace = s.hv_cluster.spec.target_namespace;
  labels = ("loadbalancer.harvesterhci.io/servicelb", "true") ∷ [];
  annotations = [];
  allocate_node_ports = true;
  ports =
      record {
        name = api_server_listener;
        port = api_server_port;
        protocol = "TCP";
        target_port = api_server_port;
      }
      ∷ [];
  type = "LoadBalancer";
  ip_families = "IPv4" ∷ [];
  load_balancer_ip = lb_ip;
  ingress = [];
}

module _ (servers : ClusterServers) where
  -- `createPlaceholderSVC`
  unfoldable pub create_placeholder_svc :
      String → String → ClusterScope → Option ApiError × ClusterScope
  create_placeholder_svc name lb_ip s =
      let svc = placeholder_svc name lb_ip s in
      let s' = log_cluster_call (create_service svc) s in
      elim (servers.on_create_service s.calls svc) [ ok _ ↦ (none, s') | failed e ↦ (some e, s') ]

  -- `getLoadBalancerIP`
  unfoldable pub get_load_balancer_ip : ClusterScope → Result String × ClusterScope
  get_load_balancer_ip s =
      let ns = s.hv_cluster.spec.target_namespace in
      let name = lb_name s.hv_cluster in
      let s' = log_cluster_call (get_load_balancer ns name) s in
      elim (servers.on_get_load_balancer s.calls ns name) [
        | failed e ↦ (error (api e), s')
        | ok lb ↦
            if is_empty lb.address
            then (error (message "the LB Address was empty after its creation"), s')
            else (value lb.address, s')
      ]

  -- `createLoadBalancerIfNotExists`
  unfoldable pub create_load_balancer_if_not_exists : ClusterScope → Option Error × ClusterScope
  create_load_balancer_if_not_exists s =
      let lb = lb_to_create s in
      let s' = log_cluster_call (create_load_balancer lb) s in
      elim (servers.on_create_load_balancer s.calls lb) [
        | ok _ ↦ (none, s')
        | failed e ↦
            if is_already_exists e
            then (none, s')
            else (some (wrapped "error during creation of LB" (api e)), s')
      ]
