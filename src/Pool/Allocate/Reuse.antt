-- ===== src/Pool/Allocate/Reuse.antt =====
-- Which address `AllocateVMIPFromPool` takes, and what it writes.
use cluster_api_provider_har.Pool.Allocate.{
  Allocator, find_key, finish_allocation, allocate_in, allocate_vm_ip_from_pool,
}
use cluster_api_provider_har.Common.{
  All, Bool, Bool-cases, List, Option, String, [], ap, arith, eq_iff, false, inl, inr, none, refl,
  some, str_eq, str_eq_refl, subst, sym, true, ◌%◌, ◌++◌, ◌+◌, ◌∙◌, ◌∷◌, ◌≡◌, ◌≢◌, ◌⊎◌,
}
use cluster_api_provider_har.Api.Meta.{Result, error, value, wrapped}
use cluster_api_provider_har.Common.Dict.{Dict, lookup, lookup-insert}
use cluster_api_provider_har.Pool.Net.{Ip, Net}
use cluster_api_provider_har.Pool.Range.{AllocatorRange, make_ranges}
use cluster_api_provider_har.Pool.Store.{add_allocation, entries, reserve}
use cluster_api_provider_har.Pool.Types.{IpPoolResource, PoolStatus}

-- The address was free and is held by `id`, all others are as they were, and one less is available.
abbrev pub Takes : String → String → PoolStatus → PoolStatus → Type 0
Takes id ip s s' =
    (lookup ip (entries s.allocated) ≡ none)
    × (lookup ip (entries s'.allocated) ≡ some id)
    × ((k : String) → k ≢ ip → lookup k (entries s'.allocated) ≡ lookup k (entries s.allocated))
    × (s'.available ≡ (s.available + 18446744073709551615) % 18446744073709551616)
    × (s'.allocated_history ≡ s.allocated_history)

reserve-Takes :
    (id ip : String) (s s' : PoolStatus) → reserve id ip s ≡ (true, s') → Takes id ip s s'
unfolding reserve add_allocation
reserve-Takes id ip s s' h = go (lookup ip (entries s.allocated)) refl h
  where
    go :
        (o : Option String)
        → lookup ip (entries s.allocated) ≡ o
        → (elim o as (λ _. Bool × PoolStatus) [
          | some _ ↦ (false, s)
          | none ↦ (true, add_allocation id ip s)
        ])
          ≡ (true, s')
        → Takes id ip s s'
    go none absent e =
        subst (λ x. Takes id ip s x) (ap (λ (p : Bool × PoolStatus). p.1) e)
          (
            absent,
            lookup-insert ip ip id (entries s.allocated) ∙ rw (str_eq_refl ip) refl,
            λ k ne. ground (arith, lookup-insert ip k id (entries s.allocated), eq_iff ip k),
            refl,
            refl,
          )
    go (some v) taken e = absurd (cc (ap (λ (p : Bool × PoolStatus). p.0) e))

-- No entry of the history is of the machine.
abbrev pub HasNone : String → Dict String → Type 0
HasNone id = All (λ e. e.1 ≢ id)

-- The first entry of the machine in the history is of the address `k`.
abbrev pub HadFirst : String → String → Dict String → Type 0
HadFirst id k history =
    (pre : Dict String) × (post : Dict String) × (history ≡ pre ++ ((k, id) ∷ post))
    × HasNone id pre

abbrev Found : String → Dict String → Option String → Type 0
Found id d none = HasNone id d
Found id d (some k) = HadFirst id k d

find_key-Found : (id : String) (d : Dict String) → Found id d (find_key id d)
unfolding find_key
find_key-Found id [] = tt
find_key-Found id ((k, v) ∷ d) = elim (Bool-cases (str_eq id v)) [
  | inl same ↦ rw (same, find_key) ([], d, ap (λ x. (k, x) ∷ d) (sym ((eq_iff id v).0 same)), tt)
  | inr other ↦
      rw (other, find_key)
        (later (find_key id d) (λ e. ground (arith, other, e, eq_iff id v)) (find_key-Found id d))
]
  where
    later : (o : Option String) → v ≢ id → Found id d o → Found id ((k, v) ∷ d) o
    later none ne h = (ne, h)
    later (some j) ne (pre, post, e, h) = ((k, v) ∷ pre, post, ap (λ l. (k, v) ∷ l) e, (ne, h))

module _ (net : Net) (allocator : Allocator net) where
  -- A machine that the history does not know may get any address; one that it knows gets the first
  -- address that the history has for it, unless that is no address.
  abbrev pub IsChosen : String → Dict String → String → Type 0
  IsChosen id history ip =
      HasNone id history
      ⊎ ((k : String) × HadFirst id k history
          × ((net.parse_ip k ≡ none)
              ⊎ ((a : Ip) × (net.parse_ip k ≡ some a) × (ip ≡ net.ip_string a))))

  abbrev pub AllocationEnds : String → IpPoolResource → Result String × IpPoolResource → Type 0
  AllocationEnds id pool (value ip, pool') =
      Takes id ip pool.status pool'.status
      × IsChosen id (entries pool.status.allocated_history) ip
      × (pool' ≡ record pool { status = pool'.status })
  AllocationEnds id pool (error e, pool') = pool' ≡ pool

  finish_allocation_ends :
      (context id : String) (ranges : List AllocatorRange) (requested : Option Ip)
      (pool : IpPoolResource)
      → ((ip : Ip) (s : PoolStatus)
          → allocator.get ranges id requested pool.status ≡ (value ip, s)
          → IsChosen id (entries pool.status.allocated_history) (net.ip_string ip))
      → AllocationEnds id pool (
          finish_allocation net allocator context pool
            (allocator.get ranges id requested pool.status))
  unfolding finish_allocation
  finish_allocation_ends context id ranges requested pool chosen =
      go (allocator.get ranges id requested pool.status) refl
    where
      go :
          (out : Result Ip × PoolStatus)
          → allocator.get ranges id requested pool.status ≡ out
          → AllocationEnds id pool (finish_allocation net allocator context pool out)
      go (value ip, s) e = (
        reserve-Takes id (net.ip_string ip) pool.status s
            (allocator.get_reserves ranges id requested pool.status s ip e),
        chosen ip s e,
        refl,
      )
      go (error x, s) e =
          ap (λ (t : PoolStatus). record pool { status = t })
            (allocator.get_error_keeps ranges id requested pool.status s x e)

  historical :
      (id k : String) (ranges : List AllocatorRange) (pool : IpPoolResource)
      → HadFirst id k (entries pool.status.allocated_history)
      → (ip : Ip) (s : PoolStatus)
      → allocator.get ranges id (net.parse_ip k) pool.status ≡ (value ip, s)
      → IsChosen id (entries pool.status.allocated_history) (net.ip_string ip)
  historical id k ranges pool had ip s e = go (net.parse_ip k) refl e
    where
      go :
          (o : Option Ip)
          → net.parse_ip k ≡ o
          → allocator.get ranges id o pool.status ≡ (value ip, s)
          → IsChosen id (entries pool.status.allocated_history) (net.ip_string ip)
      go none p f = inr (k, had, inl p)
      go (some a) p f =
          inr (k, had, inr (a, p, allocator.get_requested ranges id a ip pool.status s f))

  allocate_in_ends :
      (ranges : List AllocatorRange) (pool : IpPoolResource) (id : String)
      → AllocationEnds id pool (allocate_in net allocator ranges pool id)
  unfolding allocate_in
  allocate_in_ends ranges pool id =
      go (find_key id (entries pool.status.allocated_history))
        (find_key-Found id (entries pool.status.allocated_history))
    where
      go :
          (o : Option String)
          → Found id (entries pool.status.allocated_history) o
          → AllocationEnds id pool (elim o as (λ _. Result String × IpPoolResource) [
            | some k ↦
                finish_allocation net allocator "failed to reuse historical IP" pool
                  (allocator.get ranges id (net.parse_ip k) pool.status)
            | none ↦
                finish_allocation net allocator "failed to allocate new IP from pool" pool
                  (allocator.get ranges id none pool.status)
          ])
      go none new = finish_allocation_ends _ id ranges none pool (λ _ _ _. inl new)
      go (some k) had =
          finish_allocation_ends _ id ranges (net.parse_ip k) pool (historical id k ranges pool had)

  -- AllocateVMIPFromPool with an address has written to the status of the pool that the machine holds this address, which was free, every other allocation is as it was and one address less is available, and changed nothing else of the pool but the address that was given last; the address is the one of the first entry of the machine in the history, unless there is no such entry or its key is no address. With an error the pool is as it was.
  pub allocate_vm_ip_from_pool_ends :
      (pool : IpPoolResource) (machine_id : String)
      → AllocationEnds machine_id pool (allocate_vm_ip_from_pool net allocator pool machine_id)
  unfolding allocate_vm_ip_from_pool
  allocate_vm_ip_from_pool_ends pool id = go (make_ranges net pool.ranges)
    where
      go :
          (rs : Result (List AllocatorRange))
          → AllocationEnds id pool (elim rs as (λ _. Result String × IpPoolResource) [
            | error e ↦ (error (wrapped "failed to parse range" e), pool)
            | value ranges ↦ allocate_in net allocator ranges pool id
          ])
      go (error e) = refl
      go (value ranges) = allocate_in_ends ranges pool id
