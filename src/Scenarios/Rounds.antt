-- ===== src/Scenarios/Rounds.antt =====
-- Rounds of the cluster reconciler, and what they hand to others.
use cluster_api_provider_har.Common.{
  [], false, if◌then◌else◌, none, refl, some, str_eq, true, ◌∷◌, ◌≡◌, ◌⊎◌, inr, String, inl,
}
use cluster_api_provider_har.Api.Meta.{failed, not_found, ok, value}
use cluster_api_provider_har.CloudProvider.Codec.{Codec, ManifestSecret}
use cluster_api_provider_har.CloudProvider.Manifests.{
  choose_secret, find_secret_by_name, get_secrets, modify_objects, place_object, read_secret,
  set_object_by_index,
}
use cluster_api_provider_har.CloudProvider.Manifests.Position.{
  IsAppended, IsReplaced, modify_objects_ends, HasKeySet,
}
use cluster_api_provider_har.Cluster.Connection.{Kubeconfigs, reconcile_harvester_config}
use cluster_api_provider_har.Cluster.Delete.{reconcile_cluster_delete}
use cluster_api_provider_har.Cluster.Delete.Owned.{ClusterDeleteEnds, reconcile_cluster_delete_ends}
use cluster_api_provider_har.Cluster.Fleet.{propagate_labels}
use cluster_api_provider_har.Cluster.Fleet.Labels.{PropagationEnds, propagate_labels_ends}
use cluster_api_provider_har.Cluster.Pools.{allocate_ip_from_pool}
use cluster_api_provider_har.Cluster.Pools.Reserved.{
  IsAllocated, IsRefused, allocate_ip_from_pool_ends,
}
use cluster_api_provider_har.Cluster.Reconcile.{ClusterManagement, reconcile_cluster}
use cluster_api_provider_har.Cluster.Reconcile.Frozen.{
  IsInSync, IsLeftAlone, reconcile_cluster_frozen,
}
use cluster_api_provider_har.Cluster.Scope.{ClusterScope, set_ready, update_cluster_spec}
use cluster_api_provider_har.Cluster.VmPool.{reconcile_vm_ip_pool}
use cluster_api_provider_har.Cluster.VmPool.Created.{VmPoolEnds, reconcile_vm_ip_pool_ends}
use cluster_api_provider_har.Harvester.Cluster.{ClusterServers, FleetCluster}
use cluster_api_provider_har.Harvester.Types.{Secret}
use cluster_api_provider_har.Machine.Reconcile.{MachineManagement, reconcile_machine}
use cluster_api_provider_har.Machine.Reconcile.Frozen.{
  IsMachineLeftAlone, ReportsPatch, reconcile_machine_frozen,
}
use cluster_api_provider_har.Machine.Scope.{Outcome, Scope, done_result}
use cluster_api_provider_har.Scenarios.Machines.{machine, scope}
use cluster_api_provider_har.Scenarios.Pools.{pool}
use cluster_api_provider_har.Scenarios.Status.{list_conditions}
use cluster_api_provider_har.Scenarios.World.{first_allocator, list_finalizers, net}
use cluster_api_provider_har.Cluster.Connection.Ready.{
  ConnectionEnds, reconcile_harvester_config_ends,
}
use cluster_api_provider_har.Cluster.Endpoint.{HasEndpoint}
use cluster_api_provider_har.Cluster.Normal.{reconcile_cluster_normal, set_endpoint}
use cluster_api_provider_har.Cluster.Normal.Endpoint.{reconcile_cluster_normal-HasEndpoint}
use cluster_api_provider_har.Cluster.CloudConfig.{reconcile_cloud_provider_config}
use cluster_api_provider_har.Cluster.CloudConfig.Written.{
  CloudConfigEnds, reconcile_cloud_provider_config_ends,
}
use cluster_api_provider_har.CloudProvider.Manifests.Misplaced.{
  IsMisplaced, modify_objects-IsMisplaced,
}

abbrev pub identity_secret : Secret
identity_secret = record {
  name = "harvester";
  namespace = "ns";
  data_entries = ("kubeconfig", "config") ∷ [];
}

-- Servers that have the pool, accept everything and find nothing else.
abbrev pub cluster_servers : ClusterServers
cluster_servers = record {
  on_get_ip_pool = λ _ _. ok pool;
  on_create_ip_pool = λ _ p. ok p;
  on_update_ip_pool = λ _ _. ok tt;
  on_delete_ip_pool = λ _ _. ok tt;
  on_get_load_balancer = λ _ _ _. failed not_found;
  on_create_load_balancer = λ _ _. ok tt;
  on_delete_load_balancer = λ _ _ _. failed not_found;
  on_get_service = λ _ _ _. failed not_found;
  on_create_service = λ _ _. ok tt;
  on_update_service = λ _ _. ok tt;
  on_delete_service = λ _ _ _. ok tt;
  on_get_namespace = λ _ _. ok tt;
  on_create_namespace = λ _ _. ok tt;
  on_list_hosts = λ _. ok [];
  on_get_virtual_machine = λ _ _ _. ok tt;
  on_get_deployment = λ _ _ _. ok (("Available", "True") ∷ []);
  on_get_service_account = λ _ _ _. failed not_found;
  on_create_service_account = λ _ _ _. ok tt;
  on_get_role_binding = λ _ _. ok tt;
  on_create_role_binding = λ _ _. ok tt;
  on_create_token_secret = λ _ _. ok tt;
  on_get_token_secret = λ _ _ _. failed not_found;
  on_list_control_plane_machines = λ _ _. ok [];
  on_get_identity_secret = λ _ _ _. ok identity_secret;
  on_get_config_map = λ _ _ _. failed not_found;
  on_update_config_map = λ _ _. ok tt;
  on_list_provisioning_clusters = λ _ _. ok [];
  on_get_management_cluster = λ _ _. ok "";
  on_patch_fleet_workspace = λ _ _ _. ok tt;
  on_list_fleet_clusters = λ _ _. ok [];
  on_update_fleet_cluster = λ _ _. ok tt;
}

abbrev pub cluster_scope : ClusterScope
cluster_scope = record { cluster = scope.cluster; hv_cluster = scope.hv_cluster; calls = [] }

abbrev pub fleet_cluster : FleetCluster
fleet_cluster = record { name = "c-1"; labels = ("env", "test") ∷ [] }

-- A kubeconfig with one context.
abbrev pub text_kubeconfigs : Kubeconfigs
text_kubeconfigs = record {
  load = λ _. some (record {
    current_context = "main";
    contexts = ("main", "local") ∷ [];
    clusters = ("local", "https://10.0.0.9:6443") ∷ [];
  });
  accepts = λ _. true;
  builds_client = λ _. true;
  builds_harvester_client = λ _. true;
}

-- Objects are names: each is the Secret of that name, but "deployment", which is none.
abbrev pub text_codec : Codec
text_codec = record {
  decode_all = λ text. some text ∷ [];
  unmarshal = λ obj.
      if str_eq obj "deployment"
      then none
      else some (record { kind = "Secret"; api_version = "v1"; content = obj });
  to_secret = λ u. some (record {
    kind = u.kind;
    api_version = u.api_version;
    name = u.content;
    namespace = "kube-system";
    type = "Opaque";
    data_entries = none;
    other = "";
  });
  marshal_secret = λ _. some "changed";
  json_to_yaml = λ text. some text;
  encode_kubeconfig = λ content. some content.server;
  encode_base64 = λ text. text;
  decode_base64 = λ text. some text;
  decode-encode = λ _. refl;
}

-- What `text_codec` reads of a name.
abbrev named_secret : String → ManifestSecret
named_secret name = record {
  kind = "Secret";
  api_version = "v1";
  name = name;
  namespace = "kube-system";
  type = "Opaque";
  data_entries = none;
  other = "";
}

abbrev pub cluster_management : ClusterManagement
cluster_management = record {
  get_cluster = ok scope.hv_cluster;
  new_patch_helper = λ _. none;
  get_owner_cluster = λ _. value (some scope.cluster);
  ensure_paused_condition = λ _ c. (record { is_paused = true; requeue = false; err = none }, c);
}

abbrev pub machine_management : MachineManagement
machine_management = record {
  get_machine = ok machine;
  new_patch_helper = λ _. none;
  patch = λ _. none;
  get_owner_machine = λ _. value scope.machine;
  get_cluster_from_metadata = λ _. value (some scope.cluster);
  ensure_paused_condition = λ _ m. (record { is_paused = false; requeue = false; err = none }, m);
  infrastructure_ref = λ c. c.name;
  get_harvester_cluster = λ _ _. ok scope.hv_cluster;
  get_harvester_secret = λ _ _. ok identity_secret;
}

abbrev pub do_nothing : Secret → Scope → Outcome × Scope
do_nothing _ s = ((done_result, none), s)

reconcile_cluster_delete_ends_example :
    ClusterDeleteEnds cluster_servers list_conditions list_finalizers cluster_scope
      (reconcile_cluster_delete cluster_servers list_conditions list_finalizers cluster_scope)
reconcile_cluster_delete_ends_example =
    reconcile_cluster_delete_ends cluster_servers list_conditions list_finalizers cluster_scope

allocate_ip_from_pool_ends_example :
    IsRefused net first_allocator "ns/lb" cluster_servers pool cluster_scope
      (allocate_ip_from_pool net first_allocator cluster_servers pool "ns/lb" cluster_scope)
    ⊎ IsAllocated net first_allocator "ns/lb" cluster_servers pool cluster_scope
        (allocate_ip_from_pool net first_allocator cluster_servers pool "ns/lb" cluster_scope)
allocate_ip_from_pool_ends_example =
    allocate_ip_from_pool_ends net first_allocator "ns/lb" cluster_servers pool cluster_scope

reconcile_vm_ip_pool_ends_example :
    VmPoolEnds list_conditions cluster_servers cluster_scope
      (reconcile_vm_ip_pool list_conditions cluster_servers cluster_scope)
reconcile_vm_ip_pool_ends_example =
    reconcile_vm_ip_pool_ends list_conditions cluster_servers cluster_scope

propagate_labels_ends_example :
    PropagationEnds cluster_servers list_conditions cluster_scope fleet_cluster
      (propagate_labels list_conditions cluster_servers fleet_cluster cluster_scope)
propagate_labels_ends_example =
    propagate_labels_ends cluster_servers list_conditions cluster_scope fleet_cluster

reconcile_cluster_frozen_example :
    IsInSync list_conditions cluster_servers list_finalizers text_codec net first_allocator
      text_kubeconfigs cluster_management
      (reconcile_cluster list_conditions cluster_servers list_finalizers text_codec net
        first_allocator text_kubeconfigs cluster_management)
    × IsLeftAlone list_conditions cluster_servers list_finalizers text_codec net first_allocator
        text_kubeconfigs cluster_management
        (reconcile_cluster list_conditions cluster_servers list_finalizers text_codec net
          first_allocator text_kubeconfigs cluster_management)
reconcile_cluster_frozen_example =
    reconcile_cluster_frozen list_conditions cluster_servers list_finalizers text_codec net
      first_allocator text_kubeconfigs cluster_management

reconcile_machine_frozen_example :
    IsMachineLeftAlone machine_management do_nothing do_nothing
      (reconcile_machine machine_management do_nothing do_nothing)
    × ReportsPatch machine_management do_nothing do_nothing
        (reconcile_machine machine_management do_nothing do_nothing)
reconcile_machine_frozen_example = reconcile_machine_frozen machine_management do_nothing do_nothing

modify_objects_ends_example :
    IsReplaced text_codec
      ("other" ∷ "creds" ∷ [])
      "creds"
      "kube-system"
      "cloud-config"
      "config"
      ("other" ∷ "changed" ∷ [])
    ⊎ IsAppended text_codec
        ("other" ∷ "creds" ∷ [])
        "creds"
        "kube-system"
        "cloud-config"
        "config"
        ("other" ∷ "changed" ∷ [])
unfolding read_secret modify_objects get_secrets find_secret_by_name choose_secret place_object
    set_object_by_index
modify_objects_ends_example =
    modify_objects_ends text_codec ("other" ∷ "creds" ∷ []) ("other" ∷ "changed" ∷ []) "creds"
      "kube-system" "cloud-config" "config" ((_, refl), ((_, refl), tt)) refl

reconcile_harvester_config_ends_example :
    ConnectionEnds list_conditions text_kubeconfigs cluster_servers cluster_scope
      (reconcile_harvester_config list_conditions text_kubeconfigs cluster_servers cluster_scope)
reconcile_harvester_config_ends_example =
    reconcile_harvester_config_ends list_conditions text_kubeconfigs cluster_servers cluster_scope

-- A placeholder that has an address.
abbrev addressed_servers : ClusterServers
addressed_servers = record cluster_servers {
  on_get_service = λ _ ns name. ok (record {
    name = name;
    namespace = ns;
    labels = [];
    annotations = [];
    allocate_node_ports = true;
    ports = [];
    type = "LoadBalancer";
    ip_families = "IPv4" ∷ [];
    load_balancer_ip = "0.0.0.0";
    ingress = "10.0.0.20" ∷ [];
  });
}

reconcile_cluster_normal-HasEndpoint_example :
    HasEndpoint
      (reconcile_cluster_normal list_conditions addressed_servers list_finalizers text_codec net
        first_allocator
        (set_ready true (set_endpoint "10.0.0.9" cluster_scope))).1
unfolding HasEndpoint
reconcile_cluster_normal-HasEndpoint_example =
    reconcile_cluster_normal-HasEndpoint list_conditions addressed_servers list_finalizers
      text_codec net first_allocator (set_ready true (set_endpoint "10.0.0.9" cluster_scope))
      (inr (refl, refl))

-- A cluster whose config map is to be updated, and servers that have it.
abbrev config_scope : ClusterScope
config_scope =
    update_cluster_spec
      (λ sp. record sp {
        update_cloud_provider_config = record {
          manifests_config_map_namespace = "ns";
          manifests_config_map_name = "harvester";
          manifests_config_map_key = "kubeconfig";
          cloud_config_credentials_secret_name = "cloud-config";
          cloud_config_credentials_secret_key = "cloud-config";
        };
      })
      cluster_scope

abbrev config_servers : ClusterServers
config_servers = record cluster_servers { on_get_config_map = λ _ _ _. ok identity_secret }

reconcile_cloud_provider_config_ends_example :
    CloudConfigEnds config_servers text_codec list_conditions config_scope
      (reconcile_cloud_provider_config config_servers text_codec list_conditions config_scope)
reconcile_cloud_provider_config_ends_example =
    reconcile_cloud_provider_config_ends config_servers text_codec list_conditions config_scope

modify_objects-IsMisplaced_example :
    (changed : ManifestSecret) × (text : String) × HasKeySet text_codec "cloud-config" "config"
      (named_secret "creds")
      changed
    × (text_codec.marshal_secret changed ≡ some text)
    × IsMisplaced text_codec
        ("other" ∷ "deployment" ∷ [])
        "creds"
        []
        text
        ("other" ∷ "changed" ∷ "creds" ∷ [])
unfolding read_secret modify_objects get_secrets find_secret_by_name choose_secret place_object
    set_object_by_index
modify_objects-IsMisplaced_example =
    modify_objects-IsMisplaced text_codec ("other" ∷ "deployment" ∷ []) []
      ("other" ∷ "changed" ∷ "creds" ∷ []) "creds" "creds" "kube-system" "cloud-config" "config"
      (named_secret "creds") ((λ x e. cc), ((λ x e. cc), tt)) (inr (inl refl)) refl refl refl
