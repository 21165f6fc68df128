-- ===== src/Scenarios/Machines.antt =====
-- The theorems on machines, at a machine that takes its address from one pool.
use cluster_api_provider_har.Common.{
  String, Bool, [], ◌∷◌, none, some, ◌≡◌, ◌≢◌, ◌↔◌, ◌⊎◌, true, false,
}
use cluster_api_provider_har.Api.Meta.{ok, ObjectMeta}
use cluster_api_provider_har.Api.Cluster.{HarvesterClusterSpec, VmNetworkConfig, get_ip_pool_refs}
use cluster_api_provider_har.Api.Machine.{HarvesterMachine, HarvesterMachineSpec, machine_finalizer}
use cluster_api_provider_har.Harvester.Types.{Servers}
use cluster_api_provider_har.Machine.Address.{allocate_vm_ip}
use cluster_api_provider_har.Machine.Address.Sound.{Ends, allocate_vm_ip_sound}
use cluster_api_provider_har.Machine.Delete.{reconcile_delete, terminate_vm}
use cluster_api_provider_har.Machine.Delete.Claims.{TerminationEnds, terminate_vm_ends}
use cluster_api_provider_har.Machine.Delete.Finalizer.{DeleteEnds, reconcile_delete_ends}
use cluster_api_provider_har.Machine.Scope.{Scope, effective_vm_network_config}
use cluster_api_provider_har.Scenarios.Pools.{pool}
use cluster_api_provider_har.Scenarios.World.{
  client_go, empty_servers, first_allocator, list_finalizers, net,
}
use cluster_api_provider_har.Webhook.{validate_harvester_machine}
use cluster_api_provider_har.Webhook.Accepts.{IsMachineSpec, validate_harvester_machine_iff}

abbrev pub meta : ObjectMeta
meta = record {
  name = "b";
  namespace = "ns";
  labels = [];
  finalizers = machine_finalizer ∷ [];
  is_deleting = false;
}

abbrev pub network : VmNetworkConfig
network = record {
  ip_pool_ref = "p";
  ip_pool_refs = [];
  ip_pool = none;
  gateway = "10.0.0.1";
  subnet_mask = "255.255.255.0";
  dns_servers = [];
  dns_search = [];
}

abbrev pub machine_spec : HarvesterMachineSpec
machine_spec = record {
  provider_id = "harvester://b";
  failure_domain = "";
  cpu = 2;
  memory = "4Gi";
  ssh_user = "ubuntu";
  ssh_key_pair = "keys/a";
  volumes = [];
  networks = "vlan1" ∷ [];
  node_affinity = none;
  workload_affinity = none;
  network_config = none;
  vm_network_config = some network;
  firmware = none;
  tpm = none;
}

abbrev pub machine : HarvesterMachine
machine = record {
  meta = meta;
  spec = machine_spec;
  status = record {
    ready = false;
    conditions = [];
    addresses = [];
    initialization = record { provisioned = false };
    allocated_ip_address = "";
    allocated_pool_ref = "";
    failure_domain = "";
  };
}

abbrev pub cluster_spec : HarvesterClusterSpec
cluster_spec = record {
  server = "https://harvester";
  identity_secret = record { namespace = "ns"; name = "id" };
  load_balancer_config = record {
    ipam_type = "dhcp";
    ip_pool_ref = "";
    ip_pool = record {
      vm_network = "";
      subnet = "";
      gateway = "";
      range_start = "";
      range_end = "";
    };
    listeners = [];
    description = "";
  };
  control_plane_endpoint = record { host = ""; port = 0 };
  target_namespace = "vms";
  update_cloud_provider_config = record {
    manifests_config_map_namespace = "";
    manifests_config_map_name = "";
    manifests_config_map_key = "";
    cloud_config_credentials_secret_name = "";
    cloud_config_credentials_secret_key = "";
  };
  vm_network_config = none;
}

abbrev pub scope : Scope
scope = record {
  cluster = record { name = "c"; namespace = "ns"; labels = []; infrastructure_provisioned = none };
  machine = none;
  hv_cluster = record {
    meta = meta;
    spec = cluster_spec;
    status = record {
      ready = true;
      conditions = [];
      initialization = record { provisioned = true };
      failure_domains = [];
    };
  };
  hv_machine = machine;
  effective_network_config = none;
  calls = [];
}

-- Servers with the pool, and with disks in the target namespace.
abbrev servers : Servers
servers = record empty_servers {
  on_get_pool = λ _ ref. ok pool;
  on_list_pvcs = λ _ _. ok ("b-disk-0-x" ∷ "other" ∷ []);
}

allocate_vm_ip_sound_example :
    (◌≢◌ {A = String} "" "" × (allocate_vm_ip net first_allocator servers scope ≡ (none, scope)))
    ⊎ Ends net first_allocator servers machine
        ("p" ∷ [])
        (allocate_vm_ip net first_allocator servers scope)
unfolding effective_vm_network_config get_ip_pool_refs
allocate_vm_ip_sound_example = allocate_vm_ip_sound net first_allocator servers scope

reconcile_delete_ends_example :
    DeleteEnds net client_go list_finalizers servers scope
      (reconcile_delete net client_go list_finalizers servers scope)
reconcile_delete_ends_example = reconcile_delete_ends net client_go list_finalizers servers scope

terminate_vm_ends_example : TerminationEnds servers scope (terminate_vm servers scope)
terminate_vm_ends_example = terminate_vm_ends servers scope

abbrev pub any_quantity : String → Bool
any_quantity _ = true

validate_harvester_machine_iff_example :
    (validate_harvester_machine net any_quantity machine_spec ≡ [])
    ↔ IsMachineSpec net any_quantity machine_spec
validate_harvester_machine_iff_example =
    validate_harvester_machine_iff net any_quantity machine_spec
