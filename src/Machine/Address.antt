-- ===== src/Machine/Address.antt =====
-- `allocateVMIP` and `releaseVMIP` of internal/controller/harvestermachine_controller.go.
pub mod Sound
use cluster_api_provider_har.Common.{
  List, Option, String, [], if◌then◌else◌, is_empty, is_nil, none, some, suc, zero, ℕ, ◌∷◌,
}
use cluster_api_provider_har.Api.Cluster.{get_ip_pool_refs}
use cluster_api_provider_har.Api.Meta.{
  Error, Result, api, error, failed, message, ok, value, wrap, wrapped,
}
use cluster_api_provider_har.Harvester.Types.{Servers, get_pool, update_pool}
use cluster_api_provider_har.Machine.Scope.{
  Scope, effective_vm_network_config, log_call, machine_id, set_status,
}
use cluster_api_provider_har.Pool.Allocate.{Allocator, allocate_vm_ip_from_pool, find_key}
use cluster_api_provider_har.Pool.Net.{Ip, Net}
use cluster_api_provider_har.Pool.Selection.{pool_matches_networks}
use cluster_api_provider_har.Pool.Store.{entries, release}
use cluster_api_provider_har.Pool.Types.{IpPoolResource}

-- How a round of the loop over the pools ended.
pub data Attempt : Type 0 where
  failed_pool : Error → Attempt  -- `lastErr = ...; continue`
  other_network : Attempt  -- `skippedNetwork++; continue`
  returned : Option Error → Attempt  -- `return`

-- Both fields of the status that an allocation writes.
abbrev pub assign_address : String → String → Scope → Scope
assign_address ip ref =
    set_status (λ st. record st { allocated_ip_address = ip; allocated_pool_ref = ref })

module _ (net : Net) (allocator : Allocator net) (servers : Servers) where
  -- The pool was allocated from: it is written back to Harvester.
  unfoldable pub update_allocated :
      String → Result String × IpPoolResource → Scope → Attempt × Scope
  update_allocated ref (error e, pool) s =
      (failed_pool (wrapped "failed to allocate from pool" e), s)
  update_allocated ref (value ip, pool) s = elim (servers.on_update_pool s.calls pool) [
    | failed e ↦ (
      returned (some (wrapped "failed to update VM IP pool after allocation" (api e))),
      log_call (update_pool pool) s,
    )
    | ok _ ↦ (returned none, assign_address ip ref (log_call (update_pool pool) s))
  ]

  -- One pool that was found.
  unfoldable pub try_found : String → IpPoolResource → Scope → Attempt × Scope
  unfolding update_allocated
  try_found ref pool s = elim (find_key (machine_id s.hv_machine) (entries pool.status.allocated)) [
    | some ip ↦ (returned none, assign_address ip ref s)
    | none ↦
        if pool_matches_networks pool s.hv_machine.spec.networks
        then update_allocated ref
            (allocate_vm_ip_from_pool net allocator pool (machine_id s.hv_machine)) s
        else (other_network, s)
  ]

  -- One round of the loop.
  unfoldable pub try_pool : String → Scope → Attempt × Scope
  unfolding try_found
  try_pool ref s = elim (servers.on_get_pool s.calls ref) [
    | failed e ↦
        (failed_pool (wrapped "failed to get VM IP pool" (api e)), log_call (get_pool ref) s)
    | ok pool ↦ try_found ref pool (log_call (get_pool ref) s)
  ]

  -- What is returned when no pool is left.
  unfoldable pub exhausted : Option Error → ℕ → Option Error
  exhausted none zero = wrap "all configured IP pools exhausted" none
  exhausted none (suc _) = some (message "no IP pool matches the machine networks")
  exhausted (some e) _ = wrap "all configured IP pools exhausted" (some e)

  -- The loop over the pools, with `lastErr` and `skippedNetwork`.
  unfoldable pub try_pools : List String → Option Error → ℕ → Scope → Option Error × Scope
  unfolding try_pool exhausted
  try_pools [] last_err skipped s = (exhausted last_err skipped, s)
  try_pools (ref ∷ refs) last_err skipped s =
      let (a, s') = try_pool ref s in
      elim a [
        | failed_pool e ↦ try_pools refs (some e) skipped s'
        | other_network ↦ try_pools refs last_err (suc skipped) s'
        | returned e ↦ (e, s')
      ]

  -- `allocateVMIP`
  unfoldable pub allocate_vm_ip : Scope → Option Error × Scope
  unfolding try_pools
  allocate_vm_ip s =
      if is_empty s.hv_machine.status.allocated_ip_address
      then elim (effective_vm_network_config s) [
        | none ↦ (some (message "VMNetworkConfig is nil"), s)
        | some cfg ↦
            if is_nil (get_ip_pool_refs cfg)
            then (some (message "no IPPool references configured"), s)
            else try_pools (get_ip_pool_refs cfg) none 0 s
      ]
      else (none, s)

module _ (net : Net) (servers : Servers) where
  -- The pool to release to: the recorded one, or the first that is configured.
  unfoldable pub release_pool_ref : Scope → String
  release_pool_ref s =
      if is_empty s.hv_machine.status.allocated_pool_ref
      then elim (effective_vm_network_config s) [
        | none ↦ ""
        | some cfg ↦ elim (get_ip_pool_refs cfg) [ [] ↦ "" | ref ∷ _ ↦ ref ]
      ]
      else s.hv_machine.status.allocated_pool_ref

  -- The part of `releaseVMIP` that has a pool: an address that cannot be read is not released.
  unfoldable pub release_to : IpPoolResource → Scope → Scope
  release_to pool s = elim (net.parse_ip s.hv_machine.status.allocated_ip_address) [
    | none ↦ s
    | some ip ↦
        log_call (update_pool (record pool { status = release (net.ip_string ip) pool.status })) s
  ]

  -- `releaseVMIP`; failures are logged, and the answer to the update changes nothing here.
  unfoldable pub release_vm_ip : Scope → Scope
  unfolding release_pool_ref release_to
  release_vm_ip s =
      if is_empty s.hv_machine.status.allocated_ip_address
      then s
      else if is_empty (release_pool_ref s)
      then s
      else elim (servers.on_get_pool s.calls (release_pool_ref s)) [
        | failed _ ↦ log_call (get_pool (release_pool_ref s)) s
        | ok pool ↦ release_to pool (log_call (get_pool (release_pool_ref s)) s)
      ]
