-- ===== src/Pool/Allocate.antt =====
-- `AllocateVMIPFromPool` of util/ippool.go. The allocator of the CNI plugins
-- (github.com/containernetworking/plugins, ipam host-local) is an interface.
pub mod Reuse
use cluster_api_provider_har.Common.{
  List, Option, Option-cases, String, [], ap, if◌then◌else◌, inl, inr, none, refl, some, str_eq,
  true, ◌∷◌, ◌≡◌,
}
use cluster_api_provider_har.Api.Meta.{Error, Result, error, value, wrapped}
use cluster_api_provider_har.Common.Dict.{Dict}
use cluster_api_provider_har.Pool.Net.{Ip, Net}
use cluster_api_provider_har.Pool.Range.{AllocatorRange, make_ranges}
use cluster_api_provider_har.Pool.Store.{entries, reserve}
use cluster_api_provider_har.Pool.Types.{IpPoolResource, PoolStatus}

-- `NewIPAllocator(&ranges, store, 0).Get(id, "", requested)` over the store of a pool: it answers
-- with an address that it reserved in the store, the requested one where there is one, or with an
-- error and the store as it was.
pub record Allocator (net : Net) : Type 0 where
  pub get : List AllocatorRange → String → Option Ip → PoolStatus → Result Ip × PoolStatus
  pub get_reserves :
      (ranges : List AllocatorRange) (id : String) (requested : Option Ip) (s s' : PoolStatus)
      (ip : Ip)
      → get ranges id requested s ≡ (value ip, s')
      → reserve id (net.ip_string ip) s ≡ (true, s')
  pub get_requested :
      (ranges : List AllocatorRange) (id : String) (a ip : Ip) (s s' : PoolStatus)
      → get ranges id (some a) s ≡ (value ip, s')
      → net.ip_string ip ≡ net.ip_string a
  pub get_error_keeps :
      (ranges : List AllocatorRange) (id : String) (requested : Option Ip) (s s' : PoolStatus)
      (e : Error)
      → get ranges id requested s ≡ (error e, s')
      → s' ≡ s

-- The first key in the map's order that has the value `id`.
unfoldable pub find_key : String → Dict String → Option String
find_key id [] = none
find_key id ((k, v) ∷ d) = let rest = find_key id d in if str_eq id v then some k else rest

module _ (net : Net) (allocator : Allocator net) where
  -- The text of the address that the allocator answered with.
  finish_allocation :
      String → IpPoolResource → Result Ip × PoolStatus → Result String × IpPoolResource
  finish_allocation context pool (value ip, s) =
      (value (net.ip_string ip), record pool { status = s })
  finish_allocation context pool (error e, s) =
      (error (wrapped context e), record pool { status = s })

  -- The choice between the address of the history and a new one.
  allocate_in : List AllocatorRange → IpPoolResource → String → Result String × IpPoolResource
  unfolding finish_allocation
  allocate_in ranges pool machine_id =
      elim (find_key machine_id (entries pool.status.allocated_history)) [
        | some k ↦
            finish_allocation "failed to reuse historical IP" pool
              (allocator.get ranges machine_id (net.parse_ip k) pool.status)
        | none ↦
            finish_allocation "failed to allocate new IP from pool" pool
              (allocator.get ranges machine_id none pool.status)
      ]

  -- `AllocateVMIPFromPool`
  unfoldable pub allocate_vm_ip_from_pool : IpPoolResource → String → Result String × IpPoolResource
  unfolding allocate_in
  allocate_vm_ip_from_pool pool machine_id = elim (make_ranges net pool.ranges) [
    | error e ↦ (error (wrapped "failed to parse range" e), pool)
    | value ranges ↦ allocate_in ranges pool machine_id
  ]

  -- What an allocation has done, by how it ended: the address was free and is reserved for the
  -- machine, in the status alone, or the pool is as it was.
  abbrev pub Allocates : String → IpPoolResource → Result String × IpPoolResource → Type 0
  Allocates id pool (value ip, pool') =
      (reserve id ip pool.status ≡ (true, pool'.status))
      × (pool' ≡ record pool { status = pool'.status })
  Allocates id pool (error e, pool') = pool' ≡ pool

  finish_allocation-Allocates :
      (context : String) (ranges : List AllocatorRange) (id : String) (requested : Option Ip)
      (pool : IpPoolResource)
      → Allocates id pool
          (finish_allocation context pool (allocator.get ranges id requested pool.status))
  unfolding finish_allocation
  finish_allocation-Allocates context ranges id requested pool =
      go (allocator.get ranges id requested pool.status) refl
    where
      go :
          (out : Result Ip × PoolStatus)
          → allocator.get ranges id requested pool.status ≡ out
          → Allocates id pool (finish_allocation context pool out)
      go (value ip, s) e = (allocator.get_reserves ranges id requested pool.status s ip e, refl)
      go (error x, s) e =
          ap (λ (t : PoolStatus). record pool { status = t })
            (allocator.get_error_keeps ranges id requested pool.status s x e)

  -- An allocation that succeeds reserves for the machine an address that was free, and changes
  -- nothing else of the pool; one that fails leaves the pool as it was.
  pub allocate_vm_ip_from_pool-Allocates :
      (pool : IpPoolResource) (machine_id : String)
      → Allocates machine_id pool (allocate_vm_ip_from_pool pool machine_id)
  unfolding allocate_vm_ip_from_pool
  allocate_vm_ip_from_pool-Allocates pool id = go (make_ranges net pool.ranges) refl
    where
      go :
          (rs : Result (List AllocatorRange))
          → make_ranges net pool.ranges ≡ rs
          → Allocates id pool (allocate_vm_ip_from_pool pool id)
      go (error e) p = rw (p, allocate_vm_ip_from_pool)
      go (value rs) p =
          rw (p, allocate_vm_ip_from_pool)
            (elim (Option-cases (find_key id (entries pool.status.allocated_history))) [
              | inl new ↦ rw (new, allocate_in) (finish_allocation-Allocates _ rs id none pool)
              | inr (k, old) ↦
                  rw (old, allocate_in) (finish_allocation-Allocates _ rs id (net.parse_ip k) pool)
            ])
