-- ===== src/Cluster/Pools.antt =====
-- The pools for the load balancer of internal/controller/harvestercluster_controller.go:
-- `checkValidIpPoolDefinition`, `createIPPoolIfNotExists`, `getIPFromIPPool` and
-- `allocateIPFromPool`.
pub mod Reserved
use cluster_api_provider_har.Common.{
  Bool, List, Option, String, [], false, if◌then◌else◌, is_empty, none, not, some, str_append,
  str_eq, true, ◌&&◌, ◌++◌, ◌==◌, ◌||◌, ◌∷◌,
}
use cluster_api_provider_har.Api.Cluster.{HarvesterCluster, IpPool}
use cluster_api_provider_har.Api.Condition.{ConditionType, Reason}
use cluster_api_provider_har.Api.Meta.{
  Result, api, error, failed, is_already_exists, message, ok, value, wrapped,
}
use cluster_api_provider_har.Cluster.Scope.{
  ClusterScope, generated_name, log_cluster_call, update_cluster_spec, update_cluster_status,
}
use cluster_api_provider_har.Common.Dict.{Dict}
use cluster_api_provider_har.Harvester.Cluster.{
  ClusterServers, create_ip_pool, get_ip_pool, update_ip_pool,
}
use cluster_api_provider_har.Pool.Allocate.{Allocator}
use cluster_api_provider_har.Pool.Net.{Ip, Net}
use cluster_api_provider_har.Pool.Range.{AllocatorRange, make_ranges}
use cluster_api_provider_har.Pool.Store.{entries}
use cluster_api_provider_har.Pool.Types.{IpPoolResource, PoolStatus}

-- `checkValidIpPoolDefinition`; a definition with no field set has an empty subnet.
unfoldable pub check_valid_ip_pool_definition : IpPool → Bool
check_valid_ip_pool_definition p =
    if is_empty p.vm_network
      && is_empty p.subnet
      && is_empty p.gateway
      && is_empty p.range_start
      && is_empty p.range_end
    then false
    else if is_empty p.subnet || is_empty p.gateway || is_empty p.vm_network
    then false
    else true

-- The status of an object that was never stored.
abbrev pub no_status : PoolStatus
no_status = record {
  allocated = none;
  allocated_history = none;
  last_allocated = "";
  available = 0;
}

-- `append(cluster.Status.Conditions, ...)`, which does not look for an older condition, with
-- `cluster.Status.Ready = false`.
unfoldable pub append_pool_condition : Bool → Reason → ClusterScope → ClusterScope
append_pool_condition status reason s =
    update_cluster_status
      (λ st. record st {
        conditions =
            st.conditions
            ++ (record {
              type = ConditionType.custom_ip_pool_created;
              status = status;
              reason = reason;
            }
                ∷ []);
        ready = false;
      })
      s

-- The pool that is sent. IPPools have no namespace.
unfoldable pub ip_pool_to_create : HarvesterCluster → String → IpPoolResource
ip_pool_to_create c machine_network =
    let p = c.spec.load_balancer_config.ip_pool in
    record {
      name = generated_name "ippool" c;
      description =
          str_append "IP Pool for the control plane's LB of cluster" (str_append " " c.meta.name);
      ranges =
          record {
            subnet = p.subnet;
            range_start = p.range_start;
            range_end = p.range_end;
            gateway = p.gateway;
          }
          ∷ [];
      selector_network = machine_network;
      status = no_status;
    }

module _ (servers : ClusterServers) where
  -- The answer to a creation that was accepted.
  unfoldable pub check_created_pool :
      IpPoolResource → ClusterScope → Result IpPoolResource × ClusterScope
  unfolding append_pool_condition
  check_created_pool pool s =
      if is_empty pool.name
      then (error (message "IP Pool for HarvesterCluster could not be correctly created"), s)
      else (value pool, append_pool_condition true Reason.custom_ip_pool_created_successfully s)

  unfoldable pub get_existing_pool : String → ClusterScope → Result IpPoolResource × ClusterScope
  get_existing_pool name s = elim (servers.on_get_ip_pool s.calls name) [
    | ok pool ↦ (value pool, log_cluster_call (get_ip_pool name) s)
    | failed e ↦ (error (api e), log_cluster_call (get_ip_pool name) s)
  ]

  -- `createIPPoolIfNotExists`
  unfoldable pub create_ip_pool_if_not_exists :
      String → ClusterScope → Result IpPoolResource × ClusterScope
  unfolding check_created_pool get_existing_pool append_pool_condition
  create_ip_pool_if_not_exists machine_network s =
      let pool = ip_pool_to_create s.hv_cluster machine_network in
      let s' = log_cluster_call (create_ip_pool pool) s in
      elim (servers.on_create_ip_pool s.calls pool) [
        | ok created ↦ check_created_pool created s'
        | failed e ↦ if is_already_exists e then get_existing_pool pool.name s' else (
          error (api e),
          append_pool_condition false Reason.custom_pool_creation_in_harvester_failed s',
        )
      ]

module _ (net : Net) (allocator : Allocator net) where
  -- The loop over the history: each address that the holder had is asked for, and the last answer
  -- is kept.
  unfoldable pub reuse_history :
      List AllocatorRange
      → String
      → Dict String
      → Option Ip
      → PoolStatus
      → Result (Option Ip) × PoolStatus
  reuse_history ranges id [] last st = (value last, st)
  reuse_history ranges id ((k, v) ∷ rest) last st =
      if str_eq id v
      then (let (out, st') = allocator.get ranges id (net.parse_ip k) st in
          elim out [
            | error e ↦ (error e, st')
            | value ip ↦ reuse_history ranges id rest (some ip) st'
          ])
      else reuse_history ranges id rest last st

  -- The address that is used: the last one of the history, or a new one.
  unfoldable pub choose_ip :
      List AllocatorRange → String → Result (Option Ip) × PoolStatus → Result Ip × PoolStatus
  choose_ip ranges id (error e, st) = (error e, st)
  choose_ip ranges id (value (some ip), st) = (value ip, st)
  choose_ip ranges id (value none, st) = allocator.get ranges id none st

  module _ (servers : ClusterServers) where
    -- The update of the pool with the new status.
    unfoldable pub store_choice :
        IpPoolResource → Result Ip × PoolStatus → ClusterScope → Result String × ClusterScope
    store_choice pool (error e, st) s = (error e, s)
    store_choice pool (value ip, st) s =
        let updated = record pool { status = st } in
        let s' = log_cluster_call (update_ip_pool updated) s in
        elim (servers.on_update_ip_pool s.calls updated) [
          | failed e ↦ (error (api e), s')
          | ok _ ↦ (value (net.ip_string ip), s')
        ]

    -- `allocateIPFromPool`. The total of `CountIP` is not used.
    unfoldable pub allocate_ip_from_pool :
        IpPoolResource → String → ClusterScope → Result String × ClusterScope
    unfolding reuse_history choose_ip store_choice
    allocate_ip_from_pool pool id s = elim (make_ranges net pool.ranges) [
      | error e ↦ (error e, s)
      | value ranges ↦
          store_choice pool
            (choose_ip ranges id
              (reuse_history ranges id (entries pool.status.allocated_history) none pool.status))
            s
    ]

    -- The end of `getIPFromIPPool`: a pool with no address left is an error.
    unfoldable pub allocate_if_available :
        String → Result IpPoolResource × ClusterScope → Result String × ClusterScope
    unfolding allocate_ip_from_pool
    allocate_if_available id (error e, s) = (error e, s)
    allocate_if_available id (value pool, s) =
        if pool.status.available == 0
        then (error (message "IP Pool does not have available addresses"), s)
        else allocate_ip_from_pool pool id s

    -- The pool of the definition, whose name becomes the reference.
    unfoldable pub pool_of_definition : ClusterScope → Result IpPoolResource × ClusterScope
    unfolding create_ip_pool_if_not_exists
    pool_of_definition s =
        let network = s.hv_cluster.spec.load_balancer_config.ip_pool.vm_network in
        let (out, s') = create_ip_pool_if_not_exists servers network s in
        elim out [
          | error e ↦ (error e, s')
          | value pool ↦ (
            value pool,
            update_cluster_spec
                (λ sp. record sp {
                  load_balancer_config = record sp.load_balancer_config { ip_pool_ref = pool.name };
                })
                s',
          )
        ]

    -- The pool that the reference names.
    unfoldable pub referenced_pool : String → ClusterScope → Result IpPoolResource × ClusterScope
    referenced_pool ref s =
        let s' = log_cluster_call (get_ip_pool ref) s in
        elim (servers.on_get_ip_pool s.calls ref) [
          | ok pool ↦ (value pool, s')
          | failed e ↦ (error (wrapped "could not get referenced IP Pool" (api e)), s')
        ]

    -- `getIPFromIPPool`
    unfoldable pub get_ip_from_ip_pool : String → ClusterScope → Result String × ClusterScope
    unfolding check_valid_ip_pool_definition allocate_if_available pool_of_definition
        referenced_pool
    get_ip_from_ip_pool id s =
        let config = s.hv_cluster.spec.load_balancer_config in
        let valid = check_valid_ip_pool_definition config.ip_pool in
        if is_empty config.ip_pool_ref && not valid
        then (error (message "IP Pool reference is empty, while IPAMType is set to pool"), s)
        else if is_empty config.ip_pool_ref
        then allocate_if_available id (pool_of_definition s)
        else allocate_if_available id (referenced_pool config.ip_pool_ref s)
