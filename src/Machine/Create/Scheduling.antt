-- ===== src/Machine/Create/Scheduling.antt =====
-- `buildAffinity` of internal/controller/harvestermachine_controller.go.
pub mod Pinned
use cluster_api_provider_har.Common.{
  List, Option, String, [], ◌∷◌, ◌++◌, none, some, if◌then◌else◌, is_empty,
}
use cluster_api_provider_har.Api.Machine.{NodeAffinity, NodeSelectorRequirement, NodeSelectorTerm}
use cluster_api_provider_har.FailureDomains.{effective_failure_domain, failure_domain_node_selector}
use cluster_api_provider_har.Harvester.Types.{Affinity}
use cluster_api_provider_har.Machine.Scope.{Scope}

abbrev pub requirement : String → String → NodeSelectorRequirement
requirement key zone = record { key = key; operator = "In"; values = zone ∷ [] }

-- The last loop: the requirement is appended to every term.
unfoldable pub pin_terms : NodeSelectorRequirement → List NodeSelectorTerm → List NodeSelectorTerm
pin_terms r [] = []
pin_terms r (t ∷ ts) =
    record t { match_expressions = t.match_expressions ++ (r ∷ []) } ∷ pin_terms r ts

-- What is nil is made: an affinity, and a selector with one empty term.
unfoldable pub pin_affinity : NodeSelectorRequirement → Option NodeAffinity → NodeAffinity
unfolding pin_terms
pin_affinity r none = record {
  required = some (pin_terms r (record { match_expressions = []; match_fields = [] } ∷ []));
  preferred = [];
}
pin_affinity r (some a) = elim a.required [
  | none ↦ record a {
    required = some (pin_terms r (record { match_expressions = []; match_fields = [] } ∷ []));
  }
  | some ts ↦ record a { required = some (pin_terms r ts) }
]

-- The node affinity that the VM gets.
unfoldable pub merged_node_affinity : Scope → Option NodeAffinity
unfolding pin_affinity
merged_node_affinity s =
    let domain = effective_failure_domain s in
    if is_empty domain
    then s.hv_machine.spec.node_affinity
    else (let (key, zone) =
          failure_domain_node_selector s.hv_cluster.status.failure_domains domain in
        some (pin_affinity (requirement key zone) s.hv_machine.spec.node_affinity))

-- The specification and the new VM share the node affinity, so that a machine that has one has the
-- domain's requirement in its specification afterwards.
unfoldable pub share_node_affinity : Scope → Scope
unfolding merged_node_affinity
share_node_affinity s = elim s.hv_machine.spec.node_affinity [
  | none ↦ s
  | some _ ↦ record s {
    hv_machine = record s.hv_machine {
      spec = record s.hv_machine.spec { node_affinity = merged_node_affinity s };
    };
  }
]

-- `buildAffinity`
unfoldable pub build_affinity : Scope → Affinity × Scope
unfolding share_node_affinity
build_affinity s = (
  record {
    anti_affinity_prefix = s.hv_machine.meta.name;
    node_affinity = merged_node_affinity s;
    pod_affinity = s.hv_machine.spec.workload_affinity;
  },
  share_node_affinity s,
)
