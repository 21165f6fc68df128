-- ===== src/Cluster/VmPool.antt =====
-- `reconcileVMIPPool` of internal/controller/harvestercluster_controller.go.
pub mod Created
use cluster_api_provider_har.Common.{
  Bool, List, Option, String, [], false, if◌then◌else◌, none, not, some, str_append, true, ◌∷◌,
}
use cluster_api_provider_har.Api.Cluster.{
  HarvesterCluster, IpPool, VmNetworkConfig, get_ip_pool_refs,
}
use cluster_api_provider_har.Api.Condition.{ConditionType, Conditions, Reason}
use cluster_api_provider_har.Api.Meta.{
  Error, api, failed, is_already_exists, is_not_found, message, ok, wrapped,
}
use cluster_api_provider_har.Cluster.Pools.{no_status}
use cluster_api_provider_har.Cluster.Scope.{
  ClusterScope, generated_name, log_cluster_call, set_condition, update_cluster_spec,
}
use cluster_api_provider_har.Harvester.Cluster.{ClusterServers, create_ip_pool, get_ip_pool}
use cluster_api_provider_har.Pool.Types.{IpPoolResource}

-- `scope.HarvesterCluster.Spec.VMNetworkConfig.IPPoolRef = name`, where the configuration is there.
unfoldable pub set_vm_pool_ref : String → ClusterScope → ClusterScope
set_vm_pool_ref name = update_cluster_spec (λ sp. record sp {
  vm_network_config = elim sp.vm_network_config [
    | none ↦ none
    | some c ↦ some (record c { ip_pool_ref = name })
  ];
})

-- The pool that is sent for a definition.
unfoldable pub vm_pool_to_create : HarvesterCluster → IpPool → IpPoolResource
vm_pool_to_create c p = record {
  name = generated_name "vm-ippool" c;
  description =
      str_append "VM IP Pool for cluster "
        (str_append c.meta.namespace (str_append "/" c.meta.name));
  ranges =
      record {
        subnet = p.subnet;
        range_start = p.range_start;
        range_end = p.range_end;
        gateway = p.gateway;
      }
      ∷ [];
  selector_network = p.vm_network;
  status = no_status;
}

module _ (conditions : Conditions) (servers : ClusterServers) where
  abbrev pub set_vm_pool_ready : Bool → Reason → ClusterScope → ClusterScope
  set_vm_pool_ready = set_condition conditions ConditionType.vm_ip_pool_ready

  -- The loop over the references: each pool has to be there.
  unfoldable pub check_pool_refs : List String → ClusterScope → Option Error × ClusterScope
  check_pool_refs [] s = (none, set_vm_pool_ready true Reason.vm_ip_pool_ready s)
  check_pool_refs (ref ∷ refs) s =
      let s' = log_cluster_call (get_ip_pool ref) s in
      elim (servers.on_get_ip_pool s.calls ref) [
        | ok _ ↦ check_pool_refs refs s'
        | failed e ↦ (
          some (wrapped "referenced VM IP pool not found" (api e)),
          set_vm_pool_ready false Reason.vm_ip_pool_creation_failed s',
        )
      ]

  -- The creation was answered with AlreadyExists: somebody else's pool is taken.
  unfoldable pub take_existing_pool : String → ClusterScope → Option Error × ClusterScope
  unfolding set_vm_pool_ref
  take_existing_pool pool_name s =
      let s' = log_cluster_call (get_ip_pool pool_name) s in
      elim (servers.on_get_ip_pool s.calls pool_name) [
        | ok existing ↦ (none, set_vm_pool_ref existing.name s')
        | failed e ↦ (some (wrapped "pool already exists but failed to retrieve" (api e)), s')
      ]

  -- The creation was accepted.
  unfoldable pub note_created_pool : IpPoolResource → ClusterScope → ClusterScope
  unfolding set_vm_pool_ref
  note_created_pool created s = set_vm_pool_ready true Reason.vm_ip_pool_ready (
      set_condition conditions ConditionType.vm_ip_pool_created_by_controller true
        Reason.vm_ip_pool_created_by_controller (set_vm_pool_ref created.name s))

  unfoldable pub create_vm_pool : IpPool → ClusterScope → Option Error × ClusterScope
  unfolding take_existing_pool note_created_pool
  create_vm_pool p s =
      let pool = vm_pool_to_create s.hv_cluster p in
      let s' = log_cluster_call (create_ip_pool pool) s in
      elim (servers.on_create_ip_pool s.calls pool) [
        | ok created ↦ (none, note_created_pool created s')
        | failed e ↦ if is_already_exists e then take_existing_pool pool.name s' else (
          some (wrapped "failed to create VM IP pool" (api e)),
          set_vm_pool_ready false Reason.vm_ip_pool_creation_failed s',
        )
      ]

  -- The pool of the definition: it is there, or it is created.
  unfoldable pub ensure_vm_pool : IpPool → ClusterScope → Option Error × ClusterScope
  unfolding create_vm_pool set_vm_pool_ref
  ensure_vm_pool p s =
      let pool_name = generated_name "vm-ippool" s.hv_cluster in
      let s' = log_cluster_call (get_ip_pool pool_name) s in
      elim (servers.on_get_ip_pool s.calls pool_name) [
        | ok existing ↦ (
          none,
          set_vm_pool_ready true Reason.vm_ip_pool_ready (set_vm_pool_ref existing.name s'),
        )
        | failed e ↦
            if is_not_found e
            then create_vm_pool p s'
            else (some (wrapped "failed to check for existing VM IP pool" (api e)), s')
      ]

  unfoldable pub reconcile_vm_network : VmNetworkConfig → ClusterScope → Option Error × ClusterScope
  unfolding check_pool_refs ensure_vm_pool
  reconcile_vm_network c s = elim (get_ip_pool_refs c) [
    | [] ↦ elim c.ip_pool [
      | none ↦ (some (message "VMNetworkConfig requires either IPPoolRef or IPPool to be set"), s)
      | some p ↦ ensure_vm_pool p s
    ]
    | ref ∷ refs ↦ check_pool_refs (ref ∷ refs) s
  ]

  unfoldable pub reconcile_network_if_set :
      Option VmNetworkConfig → ClusterScope → Option Error × ClusterScope
  unfolding reconcile_vm_network
  reconcile_network_if_set none s = (none, s)
  reconcile_network_if_set (some c) s = reconcile_vm_network c s

  -- `reconcileVMIPPool`
  unfoldable pub reconcile_vm_ip_pool : ClusterScope → Option Error × ClusterScope
  unfolding reconcile_network_if_set
  reconcile_vm_ip_pool s = reconcile_network_if_set s.hv_cluster.spec.vm_network_config s
