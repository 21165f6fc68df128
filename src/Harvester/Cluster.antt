-- ===== src/Harvester/Cluster.antt =====
-- The objects and calls of the cluster reconciler and of the cloud provider's manifests.
use cluster_api_provider_har.Common.{Bool, List, Option, String, ℕ}
use cluster_api_provider_har.Api.Machine.{HarvesterMachine}
use cluster_api_provider_har.Api.Meta.{Response}
use cluster_api_provider_har.Common.Dict.{Dict}
use cluster_api_provider_har.Harvester.Types.{Node, Secret}
use cluster_api_provider_har.Pool.Types.{IpPoolResource}

-- A listener of Harvester's LoadBalancer.
pub record LbListener : Type 0 where
  pub name : String
  pub port : ℕ  -- int32
  pub protocol : String
  pub backend_port : ℕ  -- int32

pub record HealthCheck : Type 0 where
  pub port : ℕ
  pub success_threshold : ℕ
  pub failure_threshold : ℕ
  pub period_seconds : ℕ
  pub timeout_seconds : ℕ

-- `lbv1beta1.LoadBalancer`; `address` is of its status.
pub record LoadBalancer : Type 0 where
  pub name : String
  pub namespace : String
  pub description : String
  pub workload_type : String
  pub ip_pool : String
  pub ipam : String
  pub listeners : List LbListener
  pub health_check : HealthCheck
  pub backend_server_selector : Dict (List String)
  pub address : String

pub record ServicePort : Type 0 where
  pub name : String
  pub port : ℕ
  pub protocol : String
  pub target_port : ℕ

-- A Service; `ingress` are the addresses of the load balancer in its status.
pub record Service : Type 0 where
  pub name : String
  pub namespace : String
  pub labels : Dict String
  pub annotations : Dict String
  pub allocate_node_ports : Bool
  pub ports : List ServicePort
  pub type : String
  pub ip_families : List String
  pub load_balancer_ip : String
  pub ingress : List String

-- A ServiceAccount with its UID.
pub record ServiceAccount : Type 0 where
  pub name : String
  pub uid : String

pub record ClusterRoleBinding : Type 0 where
  pub name : String
  pub subject_kind : String
  pub subject_name : String
  pub subject_namespace : String
  pub role_kind : String
  pub role_name : String

-- The Secret for the token of a service account.
pub record TokenSecret : Type 0 where
  pub name : String
  pub namespace : String
  pub annotations : Dict String
  pub owner_name : String
  pub owner_uid : String
  pub type : String

-- An entry of the provisioning clusters: `status.clusterName`, none where it is not found.
pub record ProvisioningCluster : Type 0 where
  pub name : String
  pub cluster_name : Option String

pub record FleetCluster : Type 0 where
  pub name : String
  pub labels : Dict String

-- A call of the cluster reconciler on Harvester or on the management cluster.
pub data ClusterCall : Type 0 where
  get_ip_pool : String → ClusterCall
  create_ip_pool : IpPoolResource → ClusterCall
  update_ip_pool : IpPoolResource → ClusterCall
  delete_ip_pool : String → ClusterCall
  get_load_balancer : String → String → ClusterCall
  create_load_balancer : LoadBalancer → ClusterCall
  delete_load_balancer : String → String → ClusterCall
  get_service : String → String → ClusterCall
  create_service : Service → ClusterCall
  update_service : Service → ClusterCall
  delete_service : String → String → ClusterCall
  get_namespace : String → ClusterCall
  create_namespace : String → ClusterCall
  list_hosts : ClusterCall
  get_virtual_machine : String → String → ClusterCall
  get_deployment : String → String → ClusterCall
  get_service_account : String → String → ClusterCall
  create_service_account : String → String → ClusterCall
  get_role_binding : String → ClusterCall
  create_role_binding : ClusterRoleBinding → ClusterCall
  create_token_secret : TokenSecret → ClusterCall
  get_token_secret : String → String → ClusterCall
  list_control_plane_machines : String → ClusterCall
  get_identity_secret : String → String → ClusterCall
  get_config_map : String → String → ClusterCall
  update_config_map : Secret → ClusterCall
  list_provisioning_clusters : String → ClusterCall
  get_management_cluster : String → ClusterCall
  patch_fleet_workspace : String → String → ClusterCall
  list_fleet_clusters : String → ClusterCall
  update_fleet_cluster : FleetCluster → ClusterCall

-- The calls so far, the last one first.
abbrev pub ClusterHistory : Type 0
ClusterHistory = List ClusterCall

-- The answers, which may depend on all calls before.
pub record ClusterServers : Type 0 where
  pub on_get_ip_pool : ClusterHistory → String → Response IpPoolResource
  pub on_create_ip_pool : ClusterHistory → IpPoolResource → Response IpPoolResource
  pub on_update_ip_pool : ClusterHistory → IpPoolResource → Response (Unit {0})
  pub on_delete_ip_pool : ClusterHistory → String → Response (Unit {0})
  pub on_get_load_balancer : ClusterHistory → String → String → Response LoadBalancer
  pub on_create_load_balancer : ClusterHistory → LoadBalancer → Response (Unit {0})
  pub on_delete_load_balancer : ClusterHistory → String → String → Response (Unit {0})
  pub on_get_service : ClusterHistory → String → String → Response Service
  pub on_create_service : ClusterHistory → Service → Response (Unit {0})
  pub on_update_service : ClusterHistory → Service → Response (Unit {0})
  pub on_delete_service : ClusterHistory → String → String → Response (Unit {0})
  pub on_get_namespace : ClusterHistory → String → Response (Unit {0})
  pub on_create_namespace : ClusterHistory → String → Response (Unit {0})
  pub on_list_hosts : ClusterHistory → Response (List Node)
  pub on_get_virtual_machine : ClusterHistory → String → String → Response (Unit {0})
  -- the conditions of the deployment, as pairs of type and status
  pub on_get_deployment : ClusterHistory → String → String → Response (List (String × String))
  pub on_get_service_account : ClusterHistory → String → String → Response ServiceAccount
  pub on_create_service_account : ClusterHistory → String → String → Response (Unit {0})
  pub on_get_role_binding : ClusterHistory → String → Response (Unit {0})
  pub on_create_role_binding : ClusterHistory → ClusterRoleBinding → Response (Unit {0})
  pub on_create_token_secret : ClusterHistory → TokenSecret → Response (Unit {0})
  pub on_get_token_secret : ClusterHistory → String → String → Response Secret
  pub on_list_control_plane_machines : ClusterHistory → String → Response (List HarvesterMachine)
  pub on_get_identity_secret : ClusterHistory → String → String → Response Secret
  pub on_get_config_map : ClusterHistory → String → String → Response Secret
  pub on_update_config_map : ClusterHistory → Secret → Response (Unit {0})
  pub on_list_provisioning_clusters : ClusterHistory → String → Response (List ProvisioningCluster)
  -- `spec.fleetWorkspaceName`, "" where it is not found
  pub on_get_management_cluster : ClusterHistory → String → Response String
  pub on_patch_fleet_workspace : ClusterHistory → String → String → Response (Unit {0})
  pub on_list_fleet_clusters : ClusterHistory → String → Response (List FleetCluster)
  pub on_update_fleet_cluster : ClusterHistory → FleetCluster → Response (Unit {0})
