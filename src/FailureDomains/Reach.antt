-- ===== src/FailureDomains/Reach.antt =====
-- The published domains are those of the hosts, and a machine pinned to one lands on its hosts.
use cluster_api_provider_har.Common.{
  Bool, List, String, [], arith, contains, eq_iff, true, ◌↔◌, ◌∷◌, ◌≡◌, ◌⊎◌, false, if◌then◌else◌,
  is_empty, map, refl, ap, sym, ◌∙◌, All, Bool-cases, inl, inr,
}
use cluster_api_provider_har.FailureDomains.{
  add_name, domain_name, domain_names, insert_sorted, sort_names, every_has_zone,
  failure_domain_node_selector, failure_domains_from_nodes, hostname_topology_label, make_domain,
  topology_key, zone_of,
}
use cluster_api_provider_har.Harvester.Types.{Node}
use cluster_api_provider_har.Pool.Selection.{Any}
use cluster_api_provider_har.Common.Dict.{lookup}
use cluster_api_provider_har.Pool.Store.{value_or_empty}

contains-add_name :
    (name other : String) (names : List String)
    → (contains (add_name name names) other ≡ true)
      ↔ ((name ≡ other) ⊎ (contains names other ≡ true))
unfolding add_name contains
contains-add_name name other names = ground (arith, eq_iff name other)

contains-insert_sorted :
    (name other : String) (names : List String)
    → (contains (insert_sorted name names) other ≡ true)
      ↔ ((name ≡ other) ⊎ (contains names other ≡ true))
unfolding insert_sorted contains
contains-insert_sorted name other [] = ground (arith, eq_iff name other)
contains-insert_sorted name other (x ∷ xs) =
    ground (arith, eq_iff name other, eq_iff x other, contains-insert_sorted name other xs)

contains-sort_names :
    (other : String) (names : List String)
    → (contains (sort_names names) other ≡ true) ↔ (contains names other ≡ true)
unfolding sort_names contains
contains-sort_names other [] = ground arith
contains-sort_names other (x ∷ xs) = ground (
  arith,
  eq_iff x other,
  contains-insert_sorted x other (sort_names xs),
  contains-sort_names other xs,
)

contains-domain_names :
    (by_zone : Bool) (name : String) (nodes : List Node)
    → (contains (domain_names by_zone nodes) name ≡ true)
      ↔ Any (λ n. domain_name by_zone n ≡ name) nodes
unfolding domain_names contains
contains-domain_names by_zone name [] = ground arith
contains-domain_names by_zone name (n ∷ ns) = ground (
  arith,
  contains-add_name (domain_name by_zone n) name (domain_names by_zone ns),
  contains-domain_names by_zone name ns,
)

made_names :
    (key name : String) (names : List String)
    → Any (λ d. d.name ≡ name) (map (make_domain key) names) ↔ (contains names name ≡ true)
unfolding contains make_domain
made_names key name [] = ground arith
made_names key name (x ∷ xs) = ground (arith, eq_iff x name, made_names key name xs)

-- The label of the zone of a host, which is empty where the host has none.
abbrev pub zone_label : Node → String
zone_label node = value_or_empty (lookup "topology.kubernetes.io/zone" node.labels)

every_has_zone-All :
    (nodes : List Node)
    → every_has_zone nodes ≡ true
    → All (λ n. is_empty (zone_label n) ≡ false) nodes
unfolding every_has_zone zone_of
every_has_zone-All [] h = tt
every_has_zone-All (n ∷ ns) h = ground (arith, every_has_zone-All ns)

every_has_zone-Any :
    (nodes : List Node)
    → every_has_zone nodes ≡ false
    → Any (λ n. is_empty (zone_label n) ≡ true) nodes
unfolding every_has_zone zone_of
every_has_zone-Any [] h = absurd (cc h)
every_has_zone-Any (n ∷ ns) h = ground (arith, every_has_zone-Any ns)

-- The published names are those that the loops have collected.
made_domains :
    (z : Bool) (nodes : List Node) (name : String)
    → Any
        (λ d. d.name ≡ name)
        (map (make_domain (topology_key z)) (sort_names (domain_names z nodes)))
      ↔ Any (λ n. domain_name z n ≡ name) nodes
made_domains z nodes name =
    let names = domain_names z nodes in
    let made = made_names (topology_key z) name (sort_names names) in
    let sorted = contains-sort_names name names in
    let derived = contains-domain_names z name nodes in
    (λ m. derived.0 (sorted.0 (made.0 m)), λ m. made.1 (sorted.1 (derived.1 m)))

-- Either every host has a zone label and the published names are exactly the zones of the hosts, or some host has none and the published names are exactly the names of the hosts.
pub failure_domains_iff :
    (nodes : List Node) (name : String)
    → (All (λ n. is_empty (zone_label n) ≡ false) nodes
        × (Any (λ d. d.name ≡ name) (failure_domains_from_nodes nodes)
            ↔ Any (λ n. zone_label n ≡ name) nodes))
      ⊎ (Any (λ n. is_empty (zone_label n) ≡ true) nodes
          × (Any (λ d. d.name ≡ name) (failure_domains_from_nodes nodes)
              ↔ Any (λ n. n.name ≡ name) nodes))
unfolding failure_domains_from_nodes domain_name zone_of
failure_domains_iff nodes name = elim (Bool-cases (every_has_zone nodes)) [
  | inl every ↦ inl (every_has_zone-All nodes every, rw every (made_domains true nodes name))
  | inr some_not ↦
      inr (every_has_zone-Any nodes some_not, rw some_not (made_domains false nodes name))
]

topology_key_set : (z : Bool) → is_empty (topology_key z) ≡ false
unfolding topology_key
topology_key_set true = refl
topology_key_set false = refl

Bool_iff : (a b : Bool) → (a ≡ true) ↔ (b ≡ true) → a ≡ b
Bool_iff true b h = sym (h.0 refl)
Bool_iff false true h = h.1 refl
Bool_iff false false h = refl

selector_made :
    (key name : String) (names : List String)
    → is_empty key ≡ false
    → failure_domain_node_selector (map (make_domain key) names) name
      ≡ (if contains names name then (key, name) else (hostname_topology_label, name))
unfolding failure_domain_node_selector make_domain contains lookup
selector_made key name [] h = refl
selector_made key name (x ∷ xs) h = ground (arith, selector_made key name xs)

-- The selector for the domains that were made.
selector_domains :
    (z : Bool) (nodes : List Node) (name : String)
    → failure_domain_node_selector
        (map (make_domain (topology_key z)) (sort_names (domain_names z nodes)))
        name
      ≡ (if contains (domain_names z nodes) name
          then (topology_key z, name)
          else (hostname_topology_label, name))
selector_domains z nodes name =
    selector_made (topology_key z) name (sort_names (domain_names z nodes)) (topology_key_set z)
    ∙ ap (λ (b : Bool). if b then (topology_key z, name) else (hostname_topology_label, name))
        (Bool_iff _ _ (contains-sort_names name (domain_names z nodes)))

-- A machine pinned to a domain is scheduled by the label of the zone where every host has a zone and the domain is the zone of one of them, and otherwise by the label of the host name; the value is the name of the domain.
pub selector-failure_domains :
    (nodes : List Node) (name : String)
    → (All (λ n. is_empty (zone_label n) ≡ false) nodes
        × Any (λ n. zone_label n ≡ name) nodes
        × (failure_domain_node_selector (failure_domains_from_nodes nodes) name
            ≡ ("topology.kubernetes.io/zone", name)))
      ⊎ ((Any (λ n. is_empty (zone_label n) ≡ true) nodes ⊎ ¬ Any (λ n. zone_label n ≡ name) nodes)
          × (failure_domain_node_selector (failure_domains_from_nodes nodes) name
              ≡ ("kubernetes.io/hostname", name)))
unfolding failure_domains_from_nodes domain_name zone_of topology_key
selector-failure_domains nodes name = elim (Bool-cases (every_has_zone nodes)) [
  | inr some_not ↦ inr (
    inl (every_has_zone-Any nodes some_not),
    rw some_not
        (selector_domains false nodes name ∙ if_same (contains (domain_names false nodes) name)),
  )
  | inl every ↦
      let derived = contains-domain_names true name nodes in
      elim (Bool-cases (contains (domain_names true nodes) name)) [
        | inl among ↦ inl (
          every_has_zone-All nodes every,
          derived.0 among,
          rw every (selector_domains true nodes name ∙ rw among refl),
        )
        | inr other ↦ inr (
          inr (λ m. cc (derived.1 m, other)),
          rw every (selector_domains true nodes name ∙ rw other refl),
        )
      ]
]
  where
    if_same :
        (b : Bool)
        → ◌≡◌ {A = String × String}
            (if b then (hostname_topology_label, name) else (hostname_topology_label, name))
            (hostname_topology_label, name)
    if_same true = refl
    if_same false = refl
