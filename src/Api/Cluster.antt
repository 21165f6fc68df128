-- ===== src/Api/Cluster.antt =====
-- api/v1beta1/harvestercluster_types.go: the HarvesterCluster resource.
use cluster_api_provider_har.Common.{
  ℕ, String, Bool, Option, List, [], ◌∷◌, is_empty, is_nil, if◌then◌else◌,
}
use cluster_api_provider_har.Common.Dict.{Dict}
use cluster_api_provider_har.Api.Meta.{ObjectMeta}
use cluster_api_provider_har.Api.Condition.{Condition}

pub record Initialization : Type 0 where
  pub provisioned : Bool

pub record IpPool : Type 0 where
  pub vm_network : String
  pub subnet : String
  pub gateway : String
  pub range_start : String
  pub range_end : String

pub record VmNetworkConfig : Type 0 where
  pub ip_pool_ref : String
  pub ip_pool_refs : List String
  pub ip_pool : Option IpPool
  pub gateway : String
  pub subnet_mask : String
  pub dns_servers : List String
  pub dns_search : List String

-- `GetIPPoolRefs`
unfoldable pub get_ip_pool_refs : VmNetworkConfig → List String
get_ip_pool_refs v =
    if is_nil v.ip_pool_refs
    then (if is_empty v.ip_pool_ref then [] else v.ip_pool_ref ∷ [])
    else v.ip_pool_refs

pub record SecretKey : Type 0 where
  pub namespace : String
  pub name : String

pub record Listener : Type 0 where
  pub name : String
  pub port : ℕ  -- int32
  pub protocol : String
  pub backend_port : ℕ  -- int32

pub record LoadBalancerConfig : Type 0 where
  pub ipam_type : String
  pub ip_pool_ref : String
  pub ip_pool : IpPool
  pub listeners : List Listener
  pub description : String

pub record UpdateCloudProviderConfig : Type 0 where
  pub manifests_config_map_namespace : String
  pub manifests_config_map_name : String
  pub manifests_config_map_key : String
  pub cloud_config_credentials_secret_name : String
  pub cloud_config_credentials_secret_key : String

-- `clusterv1.APIEndpoint`
pub record ApiEndpoint : Type 0 where
  pub host : String
  pub port : ℕ

-- `clusterv1.FailureDomain`; every domain that the code publishes has a `ControlPlane` pointer.
pub record FailureDomain : Type 0 where
  pub name : String
  pub control_plane : Option Bool
  pub attributes : Dict String

pub record HarvesterClusterSpec : Type 0 where
  pub server : String
  pub identity_secret : SecretKey
  pub load_balancer_config : LoadBalancerConfig
  pub control_plane_endpoint : ApiEndpoint
  pub target_namespace : String
  pub update_cloud_provider_config : UpdateCloudProviderConfig
  pub vm_network_config : Option VmNetworkConfig

pub record HarvesterClusterStatus : Type 0 where
  pub ready : Bool
  pub conditions : List Condition
  pub initialization : Initialization
  pub failure_domains : List FailureDomain

pub record HarvesterCluster : Type 0 where
  pub meta : ObjectMeta
  pub spec : HarvesterClusterSpec
  pub status : HarvesterClusterStatus

abbrev pub cluster_finalizer : String
cluster_finalizer = "harvester.infrastructure.cluster.x-k8s.io/finalizer"

abbrev pub cluster_finalizer_legacy : String
cluster_finalizer_legacy = "harvester.infrastructure.cluster.x-k8s.io"
