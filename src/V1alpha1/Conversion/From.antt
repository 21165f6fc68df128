-- ===== src/V1alpha1/Conversion/From.antt =====
-- The struct conversions of api/v1alpha1/conversion.go from the hub version. A conversion between two
-- struct types copies their fields; a nil slice and an empty one are both the empty list.
use cluster_api_provider_har.Common.{Option, map}
use cluster_api_provider_har.Api.Cluster.{
  HarvesterClusterSpec, HarvesterClusterStatus, Initialization, IpPool, Listener, SecretKey,
  UpdateCloudProviderConfig, VmNetworkConfig,
}
use cluster_api_provider_har.Api.Machine.{
  Firmware, HarvesterMachineSpec, HarvesterMachineStatus, NetworkConfig, Tpm, Volume,
}
use cluster_api_provider_har.V1alpha1.Conversion.To.{convert_pointer}
use cluster_api_provider_har.V1alpha1.Types.{
  FirmwareV1alpha1, HarvesterClusterSpecV1alpha1, HarvesterClusterStatusV1alpha1,
  HarvesterMachineSpecV1alpha1, HarvesterMachineStatusV1alpha1, InitializationV1alpha1,
  IpPoolV1alpha1, ListenerV1alpha1, NetworkConfigV1alpha1, SecretKeyV1alpha1, TpmV1alpha1,
  UpdateCloudProviderConfigV1alpha1, VmNetworkConfigV1alpha1, VolumeV1alpha1,
}

abbrev pub initialization_from : Initialization → InitializationV1alpha1
initialization_from x = record { provisioned = x.provisioned }

abbrev pub ip_pool_from : IpPool → IpPoolV1alpha1
ip_pool_from x = record {
  vm_network = x.vm_network;
  subnet = x.subnet;
  gateway = x.gateway;
  range_start = x.range_start;
  range_end = x.range_end;
}

abbrev pub secret_key_from : SecretKey → SecretKeyV1alpha1
secret_key_from x = record { namespace = x.namespace; name = x.name }

abbrev pub listener_from : Listener → ListenerV1alpha1
listener_from x = record {
  name = x.name;
  port = x.port;
  protocol = x.protocol;
  backend_port = x.backend_port;
}

abbrev pub update_config_from : UpdateCloudProviderConfig → UpdateCloudProviderConfigV1alpha1
update_config_from x = record {
  manifests_config_map_namespace = x.manifests_config_map_namespace;
  manifests_config_map_name = x.manifests_config_map_name;
  manifests_config_map_key = x.manifests_config_map_key;
  cloud_config_credentials_secret_name = x.cloud_config_credentials_secret_name;
  cloud_config_credentials_secret_key = x.cloud_config_credentials_secret_key;
}

abbrev pub firmware_from : Firmware → FirmwareV1alpha1
firmware_from x = record { efi = x.efi; secure_boot = x.secure_boot }

abbrev pub tpm_from : Tpm → TpmV1alpha1
tpm_from x = record { enabled = x.enabled; persistent = x.persistent }

abbrev pub network_config_from : NetworkConfig → NetworkConfigV1alpha1
network_config_from x = record {
  address = x.address;
  gateway = x.gateway;
  dns_servers = x.dns_servers;
  dns_search = x.dns_search;
}

abbrev pub volume_from : Volume → VolumeV1alpha1
volume_from x = record {
  volume_type = x.volume_type;
  image_name = x.image_name;
  storage_class = x.storage_class;
  volume_size = x.volume_size;
  boot_order = x.boot_order;
}

unfoldable pub convert_vm_network_config_from :
    Option VmNetworkConfig → Option VmNetworkConfigV1alpha1
convert_vm_network_config_from = convert_pointer (λ (x : VmNetworkConfig). record {
  ip_pool_ref = x.ip_pool_ref;
  ip_pool_refs = x.ip_pool_refs;
  gateway = x.gateway;
  subnet_mask = x.subnet_mask;
  dns_servers = x.dns_servers;
  dns_search = x.dns_search;
  ip_pool = convert_pointer ip_pool_from x.ip_pool;
})

unfoldable pub convert_cluster_spec_from : HarvesterClusterSpec → HarvesterClusterSpecV1alpha1
unfolding convert_vm_network_config_from
convert_cluster_spec_from x = record {
  server = x.server;
  identity_secret = secret_key_from x.identity_secret;
  control_plane_endpoint = x.control_plane_endpoint;
  target_namespace = x.target_namespace;
  update_cloud_provider_config = update_config_from x.update_cloud_provider_config;
  load_balancer_config = record {
    ipam_type = x.load_balancer_config.ipam_type;
    ip_pool_ref = x.load_balancer_config.ip_pool_ref;
    description = x.load_balancer_config.description;
    ip_pool = ip_pool_from x.load_balancer_config.ip_pool;
    listeners = map listener_from x.load_balancer_config.listeners;
  };
  vm_network_config = convert_vm_network_config_from x.vm_network_config;
}

unfoldable pub convert_machine_spec_from : HarvesterMachineSpec → HarvesterMachineSpecV1alpha1
unfolding convert_vm_network_config_from
convert_machine_spec_from x = record {
  provider_id = x.provider_id;
  failure_domain = x.failure_domain;
  cpu = x.cpu;
  memory = x.memory;
  ssh_user = x.ssh_user;
  ssh_key_pair = x.ssh_key_pair;
  networks = x.networks;
  node_affinity = x.node_affinity;
  workload_affinity = x.workload_affinity;
  volumes = map volume_from x.volumes;
  network_config = convert_pointer network_config_from x.network_config;
  vm_network_config = convert_vm_network_config_from x.vm_network_config;
  firmware = convert_pointer firmware_from x.firmware;
  tpm = convert_pointer tpm_from x.tpm;
}

unfoldable pub convert_cluster_status_from : HarvesterClusterStatus → HarvesterClusterStatusV1alpha1
convert_cluster_status_from x = record {
  ready = x.ready;
  conditions = x.conditions;
  failure_domains = x.failure_domains;
  initialization = initialization_from x.initialization;
  failure_reason = "";
  failure_message = "";
}

unfoldable pub convert_machine_status_from : HarvesterMachineStatus → HarvesterMachineStatusV1alpha1
convert_machine_status_from x = record {
  ready = x.ready;
  conditions = x.conditions;
  addresses = x.addresses;
  allocated_ip_address = x.allocated_ip_address;
  allocated_pool_ref = x.allocated_pool_ref;
  failure_domain = x.failure_domain;
  initialization = initialization_from x.initialization;
  failure_reason = "";
  failure_message = "";
}
