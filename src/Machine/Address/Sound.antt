-- ===== src/Machine/Address/Sound.antt =====
-- What `allocateVMIP` promises: the address that the machine gets is held for it in a pool.
use cluster_api_provider_har.Common.{
  Bool-cases, Option-cases, String, inl, inr, none, refl, some, true, ◌≡◌, ◌⊎◌, List, Option, [],
  arith, eq_iff, if◌then◌else◌, is_empty, is_nil, subst, suc, zero, ℕ, ◌<◌, ◌∷◌, ◌≢◌,
}
use cluster_api_provider_har.Api.Machine.{HarvesterMachine}
use cluster_api_provider_har.Api.Meta.{Response, Result, error, failed, ok, value, Error, message}
use cluster_api_provider_har.Harvester.Types.{History, Servers}
use cluster_api_provider_har.Machine.Address.{
  Attempt, failed_pool, other_network, returned, try_found, try_pool, update_allocated,
  allocate_vm_ip, exhausted, try_pools,
}
use cluster_api_provider_har.Machine.Scope.{Scope, machine_id, effective_vm_network_config}
use cluster_api_provider_har.Pool.Allocate.{
  Allocates, Allocator, allocate_vm_ip_from_pool-Allocates, find_key,
}
use cluster_api_provider_har.Pool.Net.{Net}
use cluster_api_provider_har.Pool.Selection.{pool_matches_networks, Any}
use cluster_api_provider_har.Pool.Store.{entries}
use cluster_api_provider_har.Pool.Types.{IpPoolResource}
use cluster_api_provider_har.Api.Cluster.{get_ip_pool_refs, VmNetworkConfig}

module _ (net : Net) (allocator : Allocator net) (servers : Servers) where
  -- Pool `ref`, as some call found it, gives `ip` to the machine: either the pool had the address
  -- under the machine's identity, or it serves one of the machine's networks, the address was free,
  -- and the pool with the address reserved was accepted by Harvester.
  abbrev pub HoldsFrom : HarvesterMachine → String → String → Type 0
  HoldsFrom m ref ip =
      (h : History) × (pool : IpPoolResource) × (servers.on_get_pool h ref ≡ ok pool)
      × ((find_key (machine_id m) (entries pool.status.allocated) ≡ some ip)
          ⊎ ((pool' : IpPoolResource) × (h' : History) × (pool_matches_networks pool m.spec.networks
                ≡ true)
              × Allocates net allocator (machine_id m) pool (value ip, pool')
              × (servers.on_update_pool h' pool' ≡ ok tt)))

  -- The machine is as before, but for the address and the pool that its status names.
  abbrev pub IsAssigned : HarvesterMachine → String → Scope → Type 0
  IsAssigned m ref s' =
      (ip : String) × HoldsFrom m ref ip
      × (s'.hv_machine ≡ record m {
        status = record m.status { allocated_ip_address = ip; allocated_pool_ref = ref };
      })

  abbrev RoundEnds : HarvesterMachine → String → Attempt × Scope → Type 0
  RoundEnds m ref (returned none, s') = IsAssigned m ref s'
  RoundEnds m ref (returned (some e), s') = s'.hv_machine ≡ m
  RoundEnds m ref (failed_pool e, s') = s'.hv_machine ≡ m
  RoundEnds m ref (other_network, s') = s'.hv_machine ≡ m

  update_allocated-RoundEnds :
      (ref : String) (h : History) (pool : IpPoolResource) (out : Result String × IpPoolResource)
      (s : Scope)
      → servers.on_get_pool h ref ≡ ok pool
      → pool_matches_networks pool s.hv_machine.spec.networks ≡ true
      → Allocates net allocator (machine_id s.hv_machine) pool out
      → RoundEnds s.hv_machine ref (update_allocated net allocator servers ref out s)
  unfolding update_allocated
  update_allocated-RoundEnds ref h pool (error e, pool') s found serves a = refl
  update_allocated-RoundEnds ref h pool (value ip, pool') s found serves a =
      go (servers.on_update_pool s.calls pool') refl
    where
      go :
          (r : Response (Unit {0}))
          → servers.on_update_pool s.calls pool' ≡ r
          → RoundEnds s.hv_machine ref
              (update_allocated net allocator servers ref (value ip, pool') s)
      go (failed e) p = rw (p, update_allocated) refl
      go (ok tt) p =
          rw (p, update_allocated) (ip, (h, pool, found, inr (pool', s.calls, serves, a, p)), refl)

  try_found-RoundEnds :
      (ref : String) (h : History) (pool : IpPoolResource) (s : Scope)
      → servers.on_get_pool h ref ≡ ok pool
      → RoundEnds s.hv_machine ref (try_found net allocator servers ref pool s)
  unfolding try_found
  try_found-RoundEnds ref h pool s found =
      elim (Option-cases (find_key (machine_id s.hv_machine) (entries pool.status.allocated))) [
        | inr (ip, e) ↦ rw (e, try_found) (ip, (h, pool, found, inl e), refl)
        | inl none_yet ↦ elim (Bool-cases (pool_matches_networks pool s.hv_machine.spec.networks)) [
          | inl serves ↦
              rw (none_yet, serves, try_found)
                (update_allocated-RoundEnds ref h pool _ s found serves
                  (allocate_vm_ip_from_pool-Allocates net allocator pool (machine_id s.hv_machine)))
          | inr other ↦ rw (none_yet, other, try_found) refl
        ]
      ]

  try_pool-RoundEnds :
      (ref : String) (s : Scope) → RoundEnds s.hv_machine ref (try_pool net allocator servers ref s)
  unfolding try_pool
  try_pool-RoundEnds ref s = go (servers.on_get_pool s.calls ref) refl
    where
      go :
          (r : Response IpPoolResource)
          → servers.on_get_pool s.calls ref ≡ r
          → RoundEnds s.hv_machine ref (try_pool net allocator servers ref s)
      go (failed e) p = rw (p, try_pool) refl
      go (ok pool) p = rw (p, try_pool) (try_found-RoundEnds ref s.calls pool _ p)

  -- What the loop over `refs` promises of the machine `m` that it began with.
  abbrev pub Ends : HarvesterMachine → List String → Option Error × Scope → Type 0
  Ends m refs (none, s') = Any (λ ref. IsAssigned m ref s') refs
  Ends m refs (some e, s') = s'.hv_machine ≡ m

  -- A pool was already given up, so that there is something to report.
  abbrev HasReport : Option Error → ℕ → Type 0
  HasReport none skipped = 0 < skipped
  HasReport (some e) skipped = Unit

  Ends-cons :
      (m : HarvesterMachine) (ref : String) (refs : List String) (out : Option Error × Scope)
      → Ends m refs out
      → Ends m (ref ∷ refs) out
  Ends-cons m ref refs (none, s') h = inr h
  Ends-cons m ref refs (some e, s') h = h

  exhausted-Ends :
      (m : HarvesterMachine) (last_err : Option Error) (skipped : ℕ) (s : Scope)
      → HasReport last_err skipped
      → s.hv_machine ≡ m
      → Ends m [] (exhausted net allocator servers last_err skipped, s)
  unfolding exhausted
  exhausted-Ends m none zero s h e = absurd (omega arith)
  exhausted-Ends m none (suc n) s h e = e
  exhausted-Ends m (some x) n s h e = e

  try_pools-Ends :
      (m : HarvesterMachine) (refs : List String) (last_err : Option Error) (skipped : ℕ)
      (s : Scope)
      → HasReport last_err skipped ⊎ (refs ≢ [])
      → s.hv_machine ≡ m
      → Ends m refs (try_pools net allocator servers refs last_err skipped s)
  unfolding try_pools
  try_pools-Ends m [] last_err skipped s (inl h) e = exhausted-Ends m last_err skipped s h e
  try_pools-Ends m [] last_err skipped s (inr h) e = absurd (h refl)
  try_pools-Ends m (ref ∷ refs) last_err skipped s h e =
      go (try_pool net allocator servers ref s) refl
        (subst (λ t. RoundEnds t ref (try_pool net allocator servers ref s)) e
          (try_pool-RoundEnds ref s))
        (try_pools-Ends m refs)
    where
      go :
          (round : Attempt × Scope)
          → try_pool net allocator servers ref s ≡ round
          → RoundEnds m ref round
          → ((le : Option Error) (n : ℕ) (t : Scope)
              → HasReport le n ⊎ (refs ≢ [])
              → t.hv_machine ≡ m
              → Ends m refs (try_pools net allocator servers refs le n t))
          → Ends m (ref ∷ refs) (try_pools net allocator servers (ref ∷ refs) last_err skipped s)
      go (failed_pool x, t) p r ih =
          rw (p, try_pools) (rw p (Ends-cons m ref refs _ (ih (some x) skipped t (inl tt) r)))
      go (other_network, t) p r ih =
          rw (p, try_pools)
            (rw p (Ends-cons m ref refs _ (ih last_err (suc skipped) t (inl (report last_err)) r)))
        where
          report : (o : Option Error) → HasReport o (suc skipped)
          report none = omega arith
          report (some x) = tt
      go (returned none, t) p r ih = rw (p, try_pools) (rw p (inl r))
      go (returned (some x), t) p r ih = rw (p, try_pools) (rw p r)

  -- The pools that an allocation for the scope goes through.
  abbrev pub refs_of : Option VmNetworkConfig → List String
  refs_of none = []
  refs_of (some cfg) = get_ip_pool_refs cfg

  -- Without an error the machine had an address already and nothing was touched, or one of the
  -- configured pools holds the address that the status now names; with an error the machine is as
  -- it was.
  pub allocate_vm_ip_sound :
      (s : Scope)
      → ((s.hv_machine.status.allocated_ip_address ≢ "")
          × (allocate_vm_ip net allocator servers s ≡ (none, s)))
        ⊎ Ends s.hv_machine
            (refs_of (effective_vm_network_config s))
            (allocate_vm_ip net allocator servers s)
  unfolding allocate_vm_ip
  allocate_vm_ip_sound s = elim (Bool-cases (is_empty s.hv_machine.status.allocated_ip_address)) [
    | inr held ↦ inl (
      (λ e. ground (arith, e, eq_iff s.hv_machine.status.allocated_ip_address "")),
      rw (held, allocate_vm_ip),
    )
    | inl unset ↦ inr (rw (unset, allocate_vm_ip) (with_config (effective_vm_network_config s)))
  ]
    where
      with_refs :
          (refs : List String)
          → Ends s.hv_machine refs (
              if is_nil refs
              then (some (message "no IPPool references configured"), s)
              else try_pools net allocator servers refs none 0 s)
      with_refs [] = refl
      with_refs (r ∷ rs) = try_pools-Ends s.hv_machine (r ∷ rs) none 0 s (inr (λ e. cc)) refl

      with_config :
          (o : Option VmNetworkConfig)
          → Ends s.hv_machine (refs_of o) (elim o [
            | none ↦ (some (message "VMNetworkConfig is nil"), s)
            | some cfg ↦
                if is_nil (get_ip_pool_refs cfg)
                then (some (message "no IPPool references configured"), s)
                else try_pools net allocator servers (get_ip_pool_refs cfg) none 0 s
          ])
      with_config none = refl
      with_config (some cfg) = with_refs (get_ip_pool_refs cfg)
