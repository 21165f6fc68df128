-- ===== src/FailureDomains.antt =====
-- internal/controller/failure_domains.go: the failure domains of a Harvester cluster, and where a
-- machine that is pinned to one is scheduled.
pub mod Reach
use Prim.Native.String.{compare}
use text.Mathlib.Text.{is_lt}
use cluster_api_provider_har.Common.{
  Bool, List, String, [], contains, if◌then◌else◌, is_empty, map, none, not, some, str_eq, true,
  ◌&&◌, ◌∷◌,
}
use cluster_api_provider_har.Api.Cluster.{FailureDomain}
use cluster_api_provider_har.Common.Dict.{lookup}
use cluster_api_provider_har.Harvester.Types.{Node}
use cluster_api_provider_har.Machine.Scope.{Scope}
use cluster_api_provider_har.Pool.Store.{value_or_empty}

abbrev pub zone_topology_label : String
zone_topology_label = "topology.kubernetes.io/zone"

abbrev pub hostname_topology_label : String
hostname_topology_label = "kubernetes.io/hostname"

abbrev pub topology_key_attribute : String
topology_key_attribute = "topologyKey"

-- `node.Labels[zoneTopologyLabel]`
unfoldable pub zone_of : Node → String
zone_of node = value_or_empty (lookup zone_topology_label node.labels)

-- The first loop: the zone label, unless some host lacks it.
unfoldable pub every_has_zone : List Node → Bool
unfolding zone_of
every_has_zone [] = true
every_has_zone (node ∷ nodes) = not (is_empty (zone_of node)) && every_has_zone nodes

-- `names[name] = struct{}{}` on a set kept as a list.
unfoldable pub add_name : String → List String → List String
add_name name names = if contains names name then names else name ∷ names

-- What the second loop takes of a node.
unfoldable pub domain_name : Bool → Node → String
unfolding zone_of
domain_name by_zone node = if by_zone then zone_of node else node.name

-- The second loop.
unfoldable pub domain_names : Bool → List Node → List String
unfolding add_name domain_name
domain_names by_zone [] = []
domain_names by_zone (node ∷ nodes) =
    add_name (domain_name by_zone node) (domain_names by_zone nodes)

-- `sort.Slice` by name. The names are distinct, so that every correct sort gives this list.
unfoldable pub insert_sorted : String → List String → List String
insert_sorted name [] = name ∷ []
insert_sorted name (x ∷ xs) =
    let rest = insert_sorted name xs in if is_lt (compare x name) then x ∷ rest else name ∷ x ∷ xs

unfoldable pub sort_names : List String → List String
unfolding insert_sorted
sort_names [] = []
sort_names (x ∷ xs) = insert_sorted x (sort_names xs)

-- The domain of a name.
unfoldable pub make_domain : String → String → FailureDomain
make_domain topology_key name = record {
  name = name;
  control_plane = some true;
  attributes = (topology_key_attribute, topology_key) ∷ [];
}

-- `topologyKey` of the source.
unfoldable pub topology_key : Bool → String
topology_key by_zone = if by_zone then zone_topology_label else hostname_topology_label

-- `failureDomainsFromNodes`
unfoldable pub failure_domains_from_nodes : List Node → List FailureDomain
unfolding every_has_zone domain_names sort_names make_domain topology_key
failure_domains_from_nodes nodes =
    map (make_domain (topology_key (every_has_zone nodes)))
      (sort_names (domain_names (every_has_zone nodes) nodes))

-- `failureDomainNodeSelector`: the loop ends at the first domain of that name.
unfoldable pub failure_domain_node_selector : List FailureDomain → String → String × String
failure_domain_node_selector [] failure_domain = (hostname_topology_label, failure_domain)
failure_domain_node_selector (d ∷ ds) failure_domain =
    let rest = failure_domain_node_selector ds failure_domain in
    let key = value_or_empty (lookup topology_key_attribute d.attributes) in
    if str_eq d.name failure_domain
    then (if is_empty key then (hostname_topology_label, failure_domain) else (key, failure_domain))
    else rest

-- `effectiveFailureDomain`, of the owner machine's domain and the one in the specification.
unfoldable pub effective_failure_domain : Scope → String
effective_failure_domain s = elim s.machine [
  | none ↦ s.hv_machine.spec.failure_domain
  | some m ↦
      if is_empty m.failure_domain then s.hv_machine.spec.failure_domain else m.failure_domain
]
