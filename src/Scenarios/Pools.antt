-- ===== src/Scenarios/Pools.antt =====
-- The theorems on pools of addresses, at a pool with one machine in it.
use cluster_api_provider_har.Common.{
  String, [], ◌∷◌, none, some, refl, ◌≡◌, ◌≢◌, arith, ◌↔◌, ◌⊎◌, false, true, ◌++◌,
}
use cluster_api_provider_har.Api.Meta.{value}
use cluster_api_provider_har.Common.Dict.{Dict, lookup}
use cluster_api_provider_har.Pool.Accounting.{
  IsAccounted, allocation, release-IsAccounted, release-reserve,
  release_unallocated-not-IsAccounted, reserve-IsAccounted,
}
use cluster_api_provider_har.Pool.Allocate.{allocate_vm_ip_from_pool}
use cluster_api_provider_har.Pool.ById.{
  allocation-release_by_id, release_by_id-IsAccounted, unless_held_by,
}
use cluster_api_provider_har.Pool.Net.{
  Ip, ip_equal, net_contains, mask_ip, network_number_and_mask, to16, to4,
}
use cluster_api_provider_har.Pool.Range.{
  AllocatorRange, addr_lt, broadcast_ip, network_ip, last_ip, make_range, parse_ip_in,
}
use cluster_api_provider_har.Pool.Range.Bounds.{IsHost, make_range_sound, parse_ip_in_sound}
use cluster_api_provider_har.Pool.Selection.{
  Any, Designates, codes, pool_matches_networks, pool_matches_networks_iff, HasNoSlash,
  split_network_ref, split_network_ref_parts,
}
use cluster_api_provider_har.Pool.Store.{entries, release, release_by_id, reserve}
use cluster_api_provider_har.Pool.Types.{IpPoolResource, PoolStatus, Range}
use cluster_api_provider_har.Scenarios.World.{first_allocator, host_2, host_9, lan, net}
use cluster_api_provider_har.Pool.Allocate.Reuse.{AllocationEnds, allocate_vm_ip_from_pool_ends}

abbrev pub held : Dict String
held = ("10.0.0.2", "ns/a") ∷ []

abbrev pub status : PoolStatus
status = record {
  allocated = some held;
  allocated_history = none;
  last_allocated = "10.0.0.2";
  available = 9;
}

status-IsAccounted : IsAccounted 10 status
unfolding lookup
status-IsAccounted = record { distinct = (refl, tt); in_range = ground arith; adds_up = refl }

abbrev pub lan_range : Range
lan_range = record {
  subnet = "10.0.0.0/24";
  range_start = "10.0.0.9";
  range_end = "10.0.0.9";
  gateway = "";
}

abbrev pub pool : IpPoolResource
pool = record {
  name = "p";
  description = "";
  ranges = lan_range ∷ [];
  selector_network = "ns/vlan1";
  status = status;
}

reserve-IsAccounted_example : IsAccounted 10 (reserve "ns/b" "10.0.0.9" status).1
reserve-IsAccounted_example = reserve-IsAccounted 10 "ns/b" "10.0.0.9" status status-IsAccounted

release-IsAccounted_example : IsAccounted 10 (release "10.0.0.2" status)
unfolding lookup
release-IsAccounted_example = release-IsAccounted 10 "10.0.0.2" status status-IsAccounted refl

release-reserve_example :
    let s' = release "10.0.0.9" (reserve "ns/b" "10.0.0.9" status).1 in
    ((j : String) → allocation j s' ≡ allocation j status)
    × (s'.available ≡ 9)
    × (lookup "10.0.0.9" (entries s'.allocated_history) ≡ some "ns/b")
unfolding lookup
release-reserve_example = release-reserve "ns/b" "10.0.0.9" status (ground arith) (refl, tt) refl

release_unallocated-not-IsAccounted_example : ¬ IsAccounted 10 (release "10.0.0.9" status)
unfolding lookup
release_unallocated-not-IsAccounted_example =
    release_unallocated-not-IsAccounted 10 "10.0.0.9" status held status-IsAccounted refl refl

release_by_id-IsAccounted_example : IsAccounted 10 (release_by_id "ns/a" status)
release_by_id-IsAccounted_example = release_by_id-IsAccounted 10 "ns/a" status status-IsAccounted

allocation-release_by_id_example :
    allocation "10.0.0.2" (release_by_id "ns/a" status) ≡ unless_held_by "ns/a" (some "ns/a")
unfolding lookup
allocation-release_by_id_example = allocation-release_by_id "ns/a" "10.0.0.2" status (refl, tt)

abbrev lan_bounds : AllocatorRange
lan_bounds = record { subnet = lan; range_start = host_9; range_end = host_9; gateway = host_2 }

make_range-lan : make_range net lan_range ≡ value lan_bounds
unfolding make_range addr_lt last_ip to4 to16 mask_ip net_contains ip_equal network_number_and_mask
make_range-lan = refl

make_range_sound_example :
    (addr_lt host_9 host_9 ≡ false)
    × ((ip : Ip) × (net.parse_cidr "10.0.0.0/24" ≡ some (ip, lan)))
    × (◌≢◌ {A = String} "10.0.0.9" ""
        → ◌≢◌ {A = String} "10.0.0.9" ""
        → IsHost net lan host_9 × IsHost net lan host_9)
make_range_sound_example = make_range_sound net lan_range lan_bounds make_range-lan

parse_ip_in-lan : parse_ip_in net "10.0.0.9" lan host_2 ≡ value host_9
unfolding parse_ip_in to4 to16 mask_ip net_contains ip_equal network_number_and_mask
parse_ip_in-lan = refl

parse_ip_in_sound_example :
    ((◌≡◌ {A = String} "10.0.0.9" "") × (host_9 ≡ host_2))
    ⊎ ((net.parse_ip "10.0.0.9" ≡ some host_9)
        × (net_contains lan host_9 ≡ true)
        × (ip_equal host_9 (network_ip lan) ≡ false)
        × (ip_equal host_9 (broadcast_ip lan) ≡ false))
parse_ip_in_sound_example = parse_ip_in_sound net "10.0.0.9" lan host_2 host_9 parse_ip_in-lan

pool_matches_networks_iff_example : (pool_matches_networks pool ("vlan1" ∷ []) ≡ true) ↔ (
    (◌≡◌ {A = String} "ns/vlan1" "")
    ⊎ Any (λ n. Designates (codes "ns/vlan1") (codes n)) ("vlan1" ∷ []))
pool_matches_networks_iff_example = pool_matches_networks_iff pool ("vlan1" ∷ [])

-- The pool after a machine gave its address back.
abbrev returned_pool : IpPoolResource
returned_pool = record pool {
  status = record status {
    allocated = none;
    allocated_history = some (("10.0.0.2", "ns/a") ∷ ("10.0.0.9", "ns/b") ∷ []);
  };
}

allocate_vm_ip_from_pool_ends_example :
    AllocationEnds net first_allocator "ns/b" returned_pool
      (allocate_vm_ip_from_pool net first_allocator returned_pool "ns/b")
allocate_vm_ip_from_pool_ends_example =
    allocate_vm_ip_from_pool_ends net first_allocator returned_pool "ns/b"

split_network_ref_parts_example :
    let (namespace, name) = split_network_ref (codes "ns/vlan1") in
    HasNoSlash name
    × (((namespace ≡ []) × (name ≡ codes "ns/vlan1"))
        ⊎ (codes "ns/vlan1" ≡ namespace ++ b'/' ∷ name))
split_network_ref_parts_example = split_network_ref_parts (codes "ns/vlan1")

-- Two holders with an address each.
abbrev shared_status : PoolStatus
shared_status = record status {
  allocated = some (("10.0.0.2", "ns/a") ∷ ("10.0.0.9", "ns/b") ∷ []);
}
