-- ===== src/Cluster/Pools/Reserved.antt =====
-- The address that is allocated for the load balancer.
use cluster_api_provider_har.Common.{
  Bool-cases, String, eq_iff, inl, inr, none, refl, some, str_eq, subst, sym, true, ◌∙◌, ◌≡◌, ◌⊎◌,
  str_eq_refl, Bool, List, Option, [], ap, false, ◌∷◌,
}
use cluster_api_provider_har.Common.Dict.{Dict, insert, lookup, lookup-insert}
use cluster_api_provider_har.Pool.Store.{entries, reserve, add_allocation}
use cluster_api_provider_har.Pool.Types.{PoolStatus, IpPoolResource}
use cluster_api_provider_har.Api.Meta.{Error, Response, Result, api, error, failed, ok, value}
use cluster_api_provider_har.Cluster.Pools.{
  allocate_ip_from_pool, choose_ip, reuse_history, store_choice,
}
use cluster_api_provider_har.Cluster.Scope.{ClusterScope, log_cluster_call}
use cluster_api_provider_har.Harvester.Cluster.{ClusterServers, update_ip_pool}
use cluster_api_provider_har.Pool.Allocate.{Allocator}
use cluster_api_provider_har.Pool.Net.{Ip, Net}
use cluster_api_provider_har.Pool.Range.{AllocatorRange, make_ranges}

-- The second status has the allocations of the first, and further ones of `id` only.
abbrev pub ExtendsFor : String → PoolStatus → PoolStatus → Type 0
ExtendsFor id st st' =
    (k : String)
    → (lookup k (entries st'.allocated) ≡ lookup k (entries st.allocated))
      ⊎ ((lookup k (entries st.allocated) ≡ none) × (lookup k (entries st'.allocated) ≡ some id))

-- The address was free in the first status and is held by `id` in the second.
abbrev pub Takes : String → String → PoolStatus → PoolStatus → Type 0
Takes id ip st st' =
    (lookup ip (entries st.allocated) ≡ none)
    × (lookup ip (entries st'.allocated) ≡ some id)
    × ExtendsFor id st st'

ExtendsFor-self : (id : String) (st : PoolStatus) → ExtendsFor id st st
ExtendsFor-self id st k = inl refl

ExtendsFor-trans :
    (id : String) (st st' st'' : PoolStatus)
    → ExtendsFor id st st'
    → ExtendsFor id st' st''
    → ExtendsFor id st st''
ExtendsFor-trans id st st' st'' h h' k = elim (h k) [
  | inl same ↦ elim (h' k) [
    | inl same' ↦ inl (same' ∙ same)
    | inr (absent, new) ↦ inr (sym same ∙ absent, new)
  ]
  | inr (absent, new) ↦ elim (h' k) [
    | inl same' ↦ inr (absent, same' ∙ new)
    | inr (absent', _) ↦ absurd (cc (absent', new))
  ]
]

insert-ExtendsFor :
    (id ip : String) (d : Dict String) (k : String)
    → lookup ip d ≡ none
    → (lookup k (insert ip id d) ≡ lookup k d)
      ⊎ ((lookup k d ≡ none) × (lookup k (insert ip id d) ≡ some id))
insert-ExtendsFor id ip d k absent = elim (Bool-cases (str_eq ip k)) [
  | inl same ↦ inr (
    subst (λ x. lookup x d ≡ none) ((eq_iff ip k).0 same) absent,
    lookup-insert ip k id d ∙ rw same refl,
  )
  | inr other ↦ inl (lookup-insert ip k id d ∙ rw other refl)
]

reserve-Takes :
    (id ip : String) (st st' : PoolStatus) → reserve id ip st ≡ (true, st') → Takes id ip st st'
unfolding reserve add_allocation
reserve-Takes id ip st st' h = go (lookup ip (entries st.allocated)) refl h
  where
    go :
        (o : Option String)
        → lookup ip (entries st.allocated) ≡ o
        → (elim o as (λ _. Bool × PoolStatus) [
          | some _ ↦ (false, st)
          | none ↦ (true, add_allocation id ip st)
        ])
          ≡ (true, st')
        → Takes id ip st st'
    go none absent e =
        subst (λ x. Takes id ip st x) (ap (λ (p : Bool × PoolStatus). p.1) e)
          (
            absent,
            lookup-insert ip ip id (entries st.allocated) ∙ rw (str_eq_refl ip) refl,
            λ k. insert-ExtendsFor id ip (entries st.allocated) k absent,
          )
    go (some v) taken e = absurd (cc (ap (λ (p : Bool × PoolStatus). p.0) e))

-- An address that was taken before stays taken while further ones are.
Takes-later :
    (id ip : String) (st st' st'' : PoolStatus)
    → Takes id ip st st'
    → ExtendsFor id st' st''
    → Takes id ip st st''
Takes-later id ip st st' st'' (absent, held, more) h = (
  absent,
  elim (h ip) [ inl same ↦ same ∙ held | inr (gone, _) ↦ absurd (cc (gone, held)) ],
  ExtendsFor-trans id st st' st'' more h,
)

-- An address that is taken later was free before.
Takes-earlier :
    (id ip : String) (st st' st'' : PoolStatus)
    → ExtendsFor id st st'
    → Takes id ip st' st''
    → Takes id ip st st''
Takes-earlier id ip st st' st'' h (absent, held, more) = (
  elim (h ip) [ inl same ↦ sym same ∙ absent | inr (_, new) ↦ absurd (cc (new, absent)) ],
  held,
  ExtendsFor-trans id st st' st'' h more,
)

module _ (net : Net) (allocator : Allocator net) (id : String) where
  get-Takes :
      (ranges : List AllocatorRange) (requested : Option Ip) (st st' : PoolStatus) (ip : Ip)
      → allocator.get ranges id requested st ≡ (value ip, st')
      → Takes id (net.ip_string ip) st st'
  get-Takes ranges requested st st' ip h =
      reserve-Takes id (net.ip_string ip) st st'
        (allocator.get_reserves ranges id requested st st' ip h)

  -- After some rounds of the loop: the last answer was taken since the first status.
  abbrev Reused : PoolStatus → Result (Option Ip) × PoolStatus → Type 0
  Reused st (error e, st') = Unit
  Reused st (value none, st') = ExtendsFor id st st'
  Reused st (value (some ip), st') = Takes id (net.ip_string ip) st st'

  reuse_history-Reused :
      (ranges : List AllocatorRange) (history : Dict String) (last : Option Ip)
      (first st : PoolStatus)
      → Reused first (value last, st)
      → Reused first (reuse_history net allocator ranges id history last st)
  unfolding reuse_history
  reuse_history-Reused ranges [] last first st h = h
  reuse_history-Reused ranges ((k, v) ∷ rest) last first st h = elim (Bool-cases (str_eq id v)) [
    | inr other ↦ rw other (reuse_history-Reused ranges rest last first st h)
    | inl same ↦ rw same (
        go (λ ip st'. reuse_history-Reused ranges rest (some ip) first st')
          (allocator.get ranges id (net.parse_ip k) st) refl)
  ]
    where
      extends : (l : Option Ip) → Reused first (value l, st) → ExtendsFor id first st
      extends none e = e
      extends (some ip) e = e.2

      go :
          ((ip : Ip) (st' : PoolStatus)
            → Reused first (value (some ip), st')
            → Reused first (reuse_history net allocator ranges id rest (some ip) st'))
          → (out : Result Ip × PoolStatus) → allocator.get ranges id (net.parse_ip k) st ≡ out
          → Reused first (elim out.0 as (λ _. Result (Option Ip) × PoolStatus) [
            | error e ↦ (error e, out.1)
            | value ip ↦ reuse_history net allocator ranges id rest (some ip) out.1
          ])
      go onward (error e, st') f = tt
      go onward (value ip, st') f = onward ip st' (
          Takes-earlier id (net.ip_string ip) first st st' (extends last h)
            (get-Takes ranges (net.parse_ip k) st st' ip f))

  abbrev Chosen : PoolStatus → Result Ip × PoolStatus → Type 0
  Chosen st (error e, st') = Unit
  Chosen st (value ip, st') = Takes id (net.ip_string ip) st st'

  choose_ip-Chosen :
      (ranges : List AllocatorRange) (st : PoolStatus) (out : Result (Option Ip) × PoolStatus)
      → Reused st out
      → Chosen st (choose_ip net allocator ranges id out)
  unfolding choose_ip
  choose_ip-Chosen ranges st (error e, st') h = tt
  choose_ip-Chosen ranges st (value (some ip), st') h = h
  choose_ip-Chosen ranges st (value none, st') h = go (allocator.get ranges id none st') refl
    where
      go : (out : Result Ip × PoolStatus) → allocator.get ranges id none st' ≡ out → Chosen st out
      go (error e, st'') f = tt
      go (value ip, st'') f =
          Takes-earlier id (net.ip_string ip) st st' st'' h (get-Takes ranges none st' st'' ip f)

  module _ (servers : ClusterServers) (pool : IpPoolResource) where
    -- The update was accepted and the address is taken by it.
    abbrev pub IsAllocated : ClusterScope → Result String × ClusterScope → Type 0
    IsAllocated s out =
        (ip : String) × (st : PoolStatus) × (out
          ≡ (value ip, log_cluster_call (update_ip_pool (record pool { status = st })) s))
        × (servers.on_update_ip_pool s.calls (record pool { status = st }) ≡ ok tt)
        × Takes id ip pool.status st

    -- An error, with the cluster as it was.
    abbrev pub IsRefused : ClusterScope → Result String × ClusterScope → Type 0
    IsRefused s out = (e : Error) × (out.0 ≡ error e) × (out.1.hv_cluster ≡ s.hv_cluster)

    store_choice_ends :
        (s : ClusterScope) (out : Result Ip × PoolStatus)
        → Chosen pool.status out
        → IsRefused s (store_choice net allocator servers pool out s)
          ⊎ IsAllocated s (store_choice net allocator servers pool out s)
    unfolding store_choice
    store_choice_ends s (error e, st) h = inl (e, refl, refl)
    store_choice_ends s (value ip, st) h =
        go (servers.on_update_ip_pool s.calls (record pool { status = st })) refl
      where
        go :
            (r : Response (Unit {0}))
            → servers.on_update_ip_pool s.calls (record pool { status = st }) ≡ r
            → IsRefused s (store_choice net allocator servers pool (value ip, st) s)
              ⊎ IsAllocated s (store_choice net allocator servers pool (value ip, st) s)
        go (ok tt) e = rw (e, store_choice) (inr (net.ip_string ip, st, refl, e, h))
        go (failed x) e = rw (e, store_choice) (inl (api x, refl, refl))

    -- allocateIPFromPool with an address has sent Harvester, which accepted it, a status of the pool in which that address, which was free, is held for the load balancer, every other allocation is as it was, and whatever is new is the load balancer's. With an error the cluster is as it was.
    pub allocate_ip_from_pool_ends :
        (s : ClusterScope)
        → IsRefused s (allocate_ip_from_pool net allocator servers pool id s)
          ⊎ IsAllocated s (allocate_ip_from_pool net allocator servers pool id s)
    unfolding allocate_ip_from_pool
    allocate_ip_from_pool_ends s = go (make_ranges net pool.ranges) refl
      where
        go :
            (rs : Result (List AllocatorRange))
            → make_ranges net pool.ranges ≡ rs
            → IsRefused s (allocate_ip_from_pool net allocator servers pool id s)
              ⊎ IsAllocated s (allocate_ip_from_pool net allocator servers pool id s)
        go (error e) f = rw (f, allocate_ip_from_pool) (inl (e, refl, refl))
        go (value ranges) f =
            rw (f, allocate_ip_from_pool)
              (store_choice_ends s _ (
                choose_ip-Chosen ranges pool.status _ (
                  reuse_history-Reused ranges (entries pool.status.allocated_history) none
                    pool.status pool.status (ExtendsFor-self id pool.status))))
