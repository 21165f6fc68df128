-- ===== src/V1alpha1/Types.antt =====
-- The resource types of api/v1alpha1, and the templates of both versions. Types of Kubernetes and of
-- Cluster API are shared with v1beta1.
use cluster_api_provider_har.Common.{Bool, List, Option, String, ℕ}
use cluster_api_provider_har.Api.Cluster.{
  ApiEndpoint, FailureDomain, HarvesterCluster, HarvesterClusterSpec,
}
use cluster_api_provider_har.Api.Condition.{Condition}
use cluster_api_provider_har.Api.Machine.{
  ℤ, HarvesterMachine, HarvesterMachineSpec, MachineAddress, NodeAffinity, PodAffinity,
}
use cluster_api_provider_har.Api.Meta.{ObjectMeta}
use cluster_api_provider_har.Common.Dict.{Dict}

pub record InitializationV1alpha1 : Type 0 where
  pub provisioned : Bool

pub record IpPoolV1alpha1 : Type 0 where
  pub vm_network : String
  pub subnet : String
  pub gateway : String
  pub range_start : String
  pub range_end : String

pub record VmNetworkConfigV1alpha1 : Type 0 where
  pub ip_pool_ref : String
  pub ip_pool_refs : List String
  pub ip_pool : Option IpPoolV1alpha1
  pub gateway : String
  pub subnet_mask : String
  pub dns_servers : List String
  pub dns_search : List String

pub record SecretKeyV1alpha1 : Type 0 where
  pub namespace : String
  pub name : String

pub record ListenerV1alpha1 : Type 0 where
  pub name : String
  pub port : ℕ  -- int32
  pub protocol : String
  pub backend_port : ℕ  -- int32

pub record LoadBalancerConfigV1alpha1 : Type 0 where
  pub ipam_type : String
  pub ip_pool_ref : String
  pub ip_pool : IpPoolV1alpha1
  pub listeners : List ListenerV1alpha1
  pub description : String

pub record UpdateCloudProviderConfigV1alpha1 : Type 0 where
  pub manifests_config_map_namespace : String
  pub manifests_config_map_name : String
  pub manifests_config_map_key : String
  pub cloud_config_credentials_secret_name : String
  pub cloud_config_credentials_secret_key : String

pub record HarvesterClusterSpecV1alpha1 : Type 0 where
  pub server : String
  pub identity_secret : SecretKeyV1alpha1
  pub load_balancer_config : LoadBalancerConfigV1alpha1
  pub control_plane_endpoint : ApiEndpoint
  pub target_namespace : String
  pub update_cloud_provider_config : UpdateCloudProviderConfigV1alpha1
  pub vm_network_config : Option VmNetworkConfigV1alpha1

-- The two failure fields are of this version only.
pub record HarvesterClusterStatusV1alpha1 : Type 0 where
  pub ready : Bool
  pub failure_reason : String
  pub failure_message : String
  pub conditions : List Condition
  pub initialization : InitializationV1alpha1
  pub failure_domains : List FailureDomain

pub record HarvesterClusterV1alpha1 : Type 0 where
  pub meta : ObjectMeta
  pub spec : HarvesterClusterSpecV1alpha1
  pub status : HarvesterClusterStatusV1alpha1

pub record FirmwareV1alpha1 : Type 0 where
  pub efi : Bool
  pub secure_boot : Bool

pub record TpmV1alpha1 : Type 0 where
  pub enabled : Bool
  pub persistent : Bool

pub record NetworkConfigV1alpha1 : Type 0 where
  pub address : String
  pub gateway : String
  pub dns_servers : List String
  pub dns_search : List String

pub record VolumeV1alpha1 : Type 0 where
  pub volume_type : String
  pub image_name : String
  pub storage_class : String
  pub volume_size : Option String
  pub boot_order : ℤ

pub record HarvesterMachineSpecV1alpha1 : Type 0 where
  pub provider_id : String
  pub failure_domain : String
  pub cpu : ℕ  -- uint32
  pub memory : String
  pub ssh_user : String
  pub ssh_key_pair : String
  pub volumes : List VolumeV1alpha1
  pub networks : List String
  pub node_affinity : Option NodeAffinity
  pub workload_affinity : Option PodAffinity
  pub network_config : Option NetworkConfigV1alpha1
  pub vm_network_config : Option VmNetworkConfigV1alpha1
  pub firmware : Option FirmwareV1alpha1
  pub tpm : Option TpmV1alpha1

pub record HarvesterMachineStatusV1alpha1 : Type 0 where
  pub ready : Bool
  pub failure_reason : String
  pub failure_message : String
  pub conditions : List Condition
  pub addresses : List MachineAddress
  pub initialization : InitializationV1alpha1
  pub allocated_ip_address : String
  pub allocated_pool_ref : String
  pub failure_domain : String

pub record HarvesterMachineV1alpha1 : Type 0 where
  pub meta : ObjectMeta
  pub spec : HarvesterMachineSpecV1alpha1
  pub status : HarvesterMachineStatusV1alpha1

-- `clusterv1.ObjectMeta`
pub record TemplateMeta : Type 0 where
  pub labels : Dict String
  pub annotations : Dict String

-- A template has metadata of its own and a specification with metadata.
pub record HarvesterClusterTemplateV1alpha1 : Type 0 where
  pub meta : ObjectMeta
  pub template_meta : TemplateMeta
  pub template_spec : HarvesterClusterSpecV1alpha1

pub record HarvesterMachineTemplateV1alpha1 : Type 0 where
  pub meta : ObjectMeta
  pub template_meta : TemplateMeta
  pub template_spec : HarvesterMachineSpecV1alpha1

-- The templates of v1beta1.
pub record HarvesterClusterTemplate : Type 0 where
  pub meta : ObjectMeta
  pub template_meta : TemplateMeta
  pub template_spec : HarvesterClusterSpec

pub record HarvesterMachineTemplate : Type 0 where
  pub meta : ObjectMeta
  pub template_meta : TemplateMeta
  pub template_spec : HarvesterMachineSpec

-- `conversion.Hub`: an object of the hub version, of one of these types or of another.
pub data Hub : Type 0 where
  cluster_hub : HarvesterCluster → Hub
  machine_hub : HarvesterMachine → Hub
  cluster_template_hub : HarvesterClusterTemplate → Hub
  machine_template_hub : HarvesterMachineTemplate → Hub
  another_hub : Hub
