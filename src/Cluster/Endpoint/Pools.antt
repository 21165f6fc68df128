-- ===== src/Cluster/Endpoint/Pools.antt =====
-- The endpoint along the pools: `reconcileVMIPPool` and `getIPFromIPPool`.
use cluster_api_provider_har.Cluster.Endpoint.{HasEndpoint, Preserves}
use cluster_api_provider_har.Common.{
  Bool, List, Option, String, [], arith, false, if◌then◌else◌, none, some, true, ◌==◌, ◌∷◌,
}
use cluster_api_provider_har.Api.Cluster.{IpPool, VmNetworkConfig, get_ip_pool_refs}
use cluster_api_provider_har.Api.Condition.{Conditions}
use cluster_api_provider_har.Api.Meta.{Error, Result, error, message, value}
use cluster_api_provider_har.Cluster.Pools.{
  allocate_if_available, allocate_ip_from_pool, append_pool_condition, check_created_pool,
  choose_ip, create_ip_pool_if_not_exists, get_existing_pool, get_ip_from_ip_pool,
  pool_of_definition, referenced_pool, reuse_history, store_choice,
}
use cluster_api_provider_har.Cluster.Scope.{ClusterScope, generated_name, log_cluster_call}
use cluster_api_provider_har.Cluster.VmPool.{
  check_pool_refs, create_vm_pool, ensure_vm_pool, note_created_pool, reconcile_network_if_set,
  reconcile_vm_ip_pool, reconcile_vm_network, set_vm_pool_ref, take_existing_pool,
}
use cluster_api_provider_har.Harvester.Cluster.{ClusterServers, get_ip_pool}
use cluster_api_provider_har.Pool.Allocate.{Allocator}
use cluster_api_provider_har.Pool.Net.{Ip, Net}
use cluster_api_provider_har.Pool.Range.{AllocatorRange, make_ranges}
use cluster_api_provider_har.Pool.Store.{entries}
use cluster_api_provider_har.Pool.Types.{IpPoolResource, PoolStatus}

module _ (conditions : Conditions) (servers : ClusterServers) where
  check_pool_refs-Preserves :
      (refs : List String) → Preserves (check_pool_refs conditions servers refs)
  unfolding HasEndpoint check_pool_refs
  check_pool_refs-Preserves [] s h = h
  check_pool_refs-Preserves (ref ∷ refs) s h =
      ground (arith, check_pool_refs-Preserves refs (log_cluster_call (get_ip_pool ref) s) h)

  create_vm_pool-Preserves : (p : IpPool) → Preserves (create_vm_pool conditions servers p)
  unfolding HasEndpoint create_vm_pool take_existing_pool note_created_pool set_vm_pool_ref
  create_vm_pool-Preserves p s h = ground arith

  ensure_vm_pool-Preserves : (p : IpPool) → Preserves (ensure_vm_pool conditions servers p)
  unfolding HasEndpoint ensure_vm_pool set_vm_pool_ref
  ensure_vm_pool-Preserves p s h = ground (
    arith,
    create_vm_pool-Preserves p
        (log_cluster_call (get_ip_pool (generated_name "vm-ippool" s.hv_cluster)) s) h,
  )

  reconcile_vm_network-Preserves :
      (c : VmNetworkConfig) → Preserves (reconcile_vm_network conditions servers c)
  unfolding HasEndpoint reconcile_vm_network
  reconcile_vm_network-Preserves c s h = go (get_ip_pool_refs c) c.ip_pool
    where
      go :
          (refs : List String) (pool : Option IpPool)
          → HasEndpoint
              (elim refs as (λ _. Option Error × ClusterScope) [
                | [] ↦ elim pool as (λ _. Option Error × ClusterScope) [
                  | none ↦ (
                    some (message "VMNetworkConfig requires either IPPoolRef or IPPool to be set"),
                    s,
                  )
                  | some p ↦ ensure_vm_pool conditions servers p s
                ]
                | ref ∷ rest ↦ check_pool_refs conditions servers (ref ∷ rest) s
              ]).1
      go [] none = h
      go [] (some p) = ensure_vm_pool-Preserves p s h
      go (ref ∷ refs) pool = check_pool_refs-Preserves (ref ∷ refs) s h

  reconcile_network_if_set-Preserves :
      (c : Option VmNetworkConfig) → Preserves (reconcile_network_if_set conditions servers c)
  unfolding reconcile_network_if_set
  reconcile_network_if_set-Preserves none s h = h
  reconcile_network_if_set-Preserves (some c) s h = reconcile_vm_network-Preserves c s h

  pub reconcile_vm_ip_pool-Preserves : Preserves (reconcile_vm_ip_pool conditions servers)
  unfolding reconcile_vm_ip_pool
  reconcile_vm_ip_pool-Preserves s h =
      reconcile_network_if_set-Preserves s.hv_cluster.spec.vm_network_config s h

module _ (net : Net) (allocator : Allocator net) (servers : ClusterServers) where
  create_ip_pool_if_not_exists-Preserves :
      (network : String) → Preserves (create_ip_pool_if_not_exists servers network)
  unfolding HasEndpoint create_ip_pool_if_not_exists check_created_pool get_existing_pool
      append_pool_condition
  create_ip_pool_if_not_exists-Preserves network s h = ground arith

  pool_of_definition-Preserves : Preserves (pool_of_definition net allocator servers)
  unfolding HasEndpoint pool_of_definition
  pool_of_definition-Preserves s h = ground (
    arith,
    create_ip_pool_if_not_exists-Preserves s.hv_cluster.spec.load_balancer_config.ip_pool.vm_network
        s h,
  )

  referenced_pool-Preserves : (ref : String) → Preserves (referenced_pool net allocator servers ref)
  unfolding HasEndpoint referenced_pool
  referenced_pool-Preserves ref s h = ground arith

  store_choice-Preserves :
      (pool : IpPoolResource) (choice : Result Ip × PoolStatus)
      → Preserves (store_choice net allocator servers pool choice)
  unfolding HasEndpoint store_choice
  store_choice-Preserves pool (error e, st) s h = h
  store_choice-Preserves pool (value ip, st) s h = ground arith

  allocate_if_available-Preserves :
      (id : String) (r : Result IpPoolResource) (s : ClusterScope)
      → HasEndpoint s
      → HasEndpoint (allocate_if_available net allocator servers id (r, s)).1
  unfolding HasEndpoint allocate_if_available allocate_ip_from_pool
  allocate_if_available-Preserves id (error e) s h = h
  allocate_if_available-Preserves id (value pool) s h =
      let ranges = make_ranges net pool.ranges in go (pool.status.available == 0) ranges
    where
      go :
          (b : Bool) (r : Result (List AllocatorRange))
          → HasEndpoint
              (if b
                then (error (message "IP Pool does not have available addresses"), s)
                else elim r as (λ _. Result String × ClusterScope) [
                  | error e ↦ (error e, s)
                  | value ranges ↦
                      store_choice net allocator servers pool
                        (choose_ip net allocator ranges id (
                          reuse_history net allocator ranges id
                            (entries pool.status.allocated_history)
                            none
                            pool.status))
                        s
                ]).1
      go true r = h
      go false (error e) = h
      go false (value ranges) = store_choice-Preserves pool _ s h

  pub get_ip_from_ip_pool-Preserves :
      (id : String) → Preserves (get_ip_from_ip_pool net allocator servers id)
  unfolding HasEndpoint get_ip_from_ip_pool
  get_ip_from_ip_pool-Preserves id s h =
      let d = pool_of_definition net allocator servers s in
      let ref = s.hv_cluster.spec.load_balancer_config.ip_pool_ref in
      let r = referenced_pool net allocator servers ref s in
      ground (
        arith,
        allocate_if_available-Preserves id d.0 d.1 (pool_of_definition-Preserves s h),
        allocate_if_available-Preserves id r.0 r.1 (referenced_pool-Preserves ref s h),
      )
