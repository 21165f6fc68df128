-- ===== src/V1alpha1/Conversion/To.antt =====
-- The struct conversions of api/v1alpha1/conversion.go to the hub version. A conversion between two
-- struct types copies their fields; a nil slice and an empty one are both the empty list.
use cluster_api_provider_har.Common.{Option, map, none, some}
use cluster_api_provider_har.Api.Cluster.{
  HarvesterClusterSpec, HarvesterClusterStatus, Initialization, IpPool, Listener, SecretKey,
  UpdateCloudProviderConfig, VmNetworkConfig,
}
use cluster_api_provider_har.Api.Machine.{
  Firmware, HarvesterMachineSpec, HarvesterMachineStatus, NetworkConfig, Tpm, Volume,
}
use cluster_api_provider_har.V1alpha1.Types.{
  FirmwareV1alpha1, HarvesterClusterSpecV1alpha1, HarvesterClusterStatusV1alpha1,
  HarvesterMachineSpecV1alpha1, HarvesterMachineStatusV1alpha1, InitializationV1alpha1,
  IpPoolV1alpha1, ListenerV1alpha1, NetworkConfigV1alpha1, SecretKeyV1alpha1, TpmV1alpha1,
  UpdateCloudProviderConfigV1alpha1, VmNetworkConfigV1alpha1, VolumeV1alpha1,
}

-- A pointer to a converted copy; nil stays nil.
abbrev pub convert_pointer : {A B : Type 0} → (A → B) → Option A → Option B
convert_pointer f none = none
convert_pointer f (some a) = some (f a)

abbrev pub initialization_to : InitializationV1alpha1 → Initialization
initialization_to x = record { provisioned = x.provisioned }

abbrev pub ip_pool_to : IpPoolV1alpha1 → IpPool
ip_pool_to x = record {
  vm_network = x.vm_network;
  subnet = x.subnet;
  gateway = x.gateway;
  range_start = x.range_start;
  range_end = x.range_end;
}

abbrev pub secret_key_to : SecretKeyV1alpha1 → SecretKey
secret_key_to x = record { namespace = x.namespace; name = x.name }

abbrev pub listener_to : ListenerV1alpha1 → Listener
listener_to x = record {
  name = x.name;
  port = x.port;
  protocol = x.protocol;
  backend_port = x.backend_port;
}

abbrev pub update_config_to : UpdateCloudProviderConfigV1alpha1 → UpdateCloudProviderConfig
update_config_to x = record {
  manifests_config_map_namespace = x.manifests_config_map_namespace;
  manifests_config_map_name = x.manifests_config_map_name;
  manifests_config_map_key = x.manifests_config_map_key;
  cloud_config_credentials_secret_name = x.cloud_config_credentials_secret_name;
  cloud_config_credentials_secret_key = x.cloud_config_credentials_secret_key;
}

abbrev pub firmware_to : FirmwareV1alpha1 → Firmware
firmware_to x = record { efi = x.efi; secure_boot = x.secure_boot }

abbrev pub tpm_to : TpmV1alpha1 → Tpm
tpm_to x = record { enabled = x.enabled; persistent = x.persistent }

abbrev pub network_config_to : NetworkConfigV1alpha1 → NetworkConfig
network_config_to x = record {
  address = x.address;
  gateway = x.gateway;
  dns_servers = x.dns_servers;
  dns_search = x.dns_search;
}

abbrev pub volume_to : VolumeV1alpha1 → Volume
volume_to x = record {
  volume_type = x.volume_type;
  image_name = x.image_name;
  storage_class = x.storage_class;
  volume_size = x.volume_size;
  boot_order = x.boot_order;
}

unfoldable pub convert_vm_network_config_to :
    Option VmNetworkConfigV1alpha1 → Option VmNetworkConfig
convert_vm_network_config_to = convert_pointer (λ (x : VmNetworkConfigV1alpha1). record {
  ip_pool_ref = x.ip_pool_ref;
  ip_pool_refs = x.ip_pool_refs;
  gateway = x.gateway;
  subnet_mask = x.subnet_mask;
  dns_servers = x.dns_servers;
  dns_search = x.dns_search;
  ip_pool = convert_pointer ip_pool_to x.ip_pool;
})

unfoldable pub convert_cluster_spec_to : HarvesterClusterSpecV1alpha1 → HarvesterClusterSpec
unfolding convert_vm_network_config_to
convert_cluster_spec_to x = record {
  server = x.server;
  identity_secret = secret_key_to x.identity_secret;
  control_plane_endpoint = x.control_plane_endpoint;
  target_namespace = x.target_namespace;
  update_cloud_provider_config = update_config_to x.update_cloud_provider_config;
  load_balancer_config = record {
    ipam_type = x.load_balancer_config.ipam_type;
    ip_pool_ref = x.load_balancer_config.ip_pool_ref;
    description = x.load_balancer_config.description;
    ip_pool = ip_pool_to x.load_balancer_config.ip_pool;
    listeners = map listener_to x.load_balancer_config.listeners;
  };
  vm_network_config = convert_vm_network_config_to x.vm_network_config;
}

unfoldable pub convert_machine_spec_to : HarvesterMachineSpecV1alpha1 → HarvesterMachineSpec
unfolding convert_vm_network_config_to
convert_machine_spec_to x = record {
  provider_id = x.provider_id;
  failure_domain = x.failure_domain;
  cpu = x.cpu;
  memory = x.memory;
  ssh_user = x.ssh_user;
  ssh_key_pair = x.ssh_key_pair;
  networks = x.networks;
  node_affinity = x.node_affinity;
  workload_affinity = x.workload_affinity;
  volumes = map volume_to x.volumes;
  network_config = convert_pointer network_config_to x.network_config;
  vm_network_config = convert_vm_network_config_to x.vm_network_config;
  firmware = convert_pointer firmware_to x.firmware;
  tpm = convert_pointer tpm_to x.tpm;
}

unfoldable pub convert_cluster_status_to : HarvesterClusterStatusV1alpha1 → HarvesterClusterStatus
convert_cluster_status_to x = record {
  ready = x.ready;
  conditions = x.conditions;
  failure_domains = x.failure_domains;
  initialization = initialization_to x.initialization;
}

unfoldable pub convert_machine_status_to : HarvesterMachineStatusV1alpha1 → HarvesterMachineStatus
convert_machine_status_to x = record {
  ready = x.ready;
  conditions = x.conditions;
  addresses = x.addresses;
  allocated_ip_address = x.allocated_ip_address;
  allocated_pool_ref = x.allocated_pool_ref;
  failure_domain = x.failure_domain;
  initialization = initialization_to x.initialization;
}
