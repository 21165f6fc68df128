-- ===== src/Scenarios/Clusters.antt =====
-- The theorems on clusters, workload nodes and failure domains, at two nodes and two etcd members.
use cluster_api_provider_har.Common.{
  String, [], ◌∷◌, none, refl, ◌≡◌, ◌≢◌, ◌↔◌, ◌⊎◌, true, All, false, is_empty,
}
use cluster_api_provider_har.Api.Meta.{ok}
use cluster_api_provider_har.Etcd.{remove_etcd_member}
use cluster_api_provider_har.Etcd.Safety.{Removes, removals, remove_etcd_member_safe}
use cluster_api_provider_har.FailureDomains.{
  failure_domain_node_selector, failure_domains_from_nodes,
}
use cluster_api_provider_har.FailureDomains.Reach.{
  failure_domains_iff, selector-failure_domains, zone_label,
}
use cluster_api_provider_har.Harvester.Types.{Node, Pod, Servers}
use cluster_api_provider_har.NodeInit.{
  initialize_workload_node, has_uninitialized_taint, remove_taint,
}
use cluster_api_provider_har.NodeInit.Success.{
  HasProviderId, IsUntainted, initialize_workload_node-true,
}
use cluster_api_provider_har.Pool.Selection.{Any}
use cluster_api_provider_har.Scenarios.Machines.{cluster_spec}
use cluster_api_provider_har.Scenarios.World.{client_go, empty_servers, net}
use cluster_api_provider_har.Webhook.{validate_harvester_cluster}
use cluster_api_provider_har.Webhook.Accepts.{
  IsClusterNetwork, WhenSet, validate_harvester_cluster_iff,
}

validate_harvester_cluster_iff_example : (validate_harvester_cluster net cluster_spec ≡ []) ↔ (
    (◌≢◌ {A = String} "vms" "")
    × (◌≢◌ {A = String} "id" "")
    × (◌≢◌ {A = String} "ns" "")
    × ((◌≡◌ {A = String} "dhcp" "dhcp") ⊎ (◌≡◌ {A = String} "dhcp" "pool"))
    × WhenSet (IsClusterNetwork net) none)
validate_harvester_cluster_iff_example = validate_harvester_cluster_iff net cluster_spec

abbrev new_node : Node
new_node = record {
  name = "n1";
  labels = ("topology.kubernetes.io/zone", "z1") ∷ [];
  provider_id = "";
  taints =
      record {
        key = "node.cloudprovider.kubernetes.io/uninitialized";
        value_text = "true";
        effect = "NoSchedule";
      }
      ∷ record { key = "dedicated"; value_text = ""; effect = "NoExecute" }
      ∷ [];
}

abbrev etcd_pod : Pod
etcd_pod = record {
  name = "etcd-n1";
  namespace = "kube-system";
  node_name = "n1";
  phase = "Running";
  conditions = ("Ready", "True") ∷ [];
}

abbrev workload : Servers
workload = record empty_servers {
  on_get_node = λ _ _. ok new_node;
  on_list_etcd_pods = λ _. ok (etcd_pod ∷ []);
  on_exec_member_list = λ _ _. ok (record { id = 7; name = "n2-abc" } ∷ []);
}

remove_etcd_member_safe_example :
    (removals (remove_etcd_member workload client_go "kubeconfig" "n2" []) ≡ [])
    ⊎ Removes workload "n2" [] (remove_etcd_member workload client_go "kubeconfig" "n2" [])
remove_etcd_member_safe_example = remove_etcd_member_safe workload client_go "kubeconfig" "n2" []

initialize_n1 :
    (initialize_workload_node workload client_go "kubeconfig" "n1" "harvester://n1" []).0 ≡ true
unfolding initialize_workload_node has_uninitialized_taint remove_taint
initialize_n1 = refl

initialize_workload_node-true_example :
    HasProviderId workload "n1" "harvester://n1" × IsUntainted workload "n1"
initialize_workload_node-true_example =
    initialize_workload_node-true workload client_go "kubeconfig" "n1" "harvester://n1" []
      initialize_n1

failure_domains_iff_example :
    (All (λ n. is_empty (zone_label n) ≡ false) (new_node ∷ [])
      × (Any (λ d. d.name ≡ "z1") (failure_domains_from_nodes (new_node ∷ []))
          ↔ Any (λ n. zone_label n ≡ "z1") (new_node ∷ [])))
    ⊎ (Any (λ n. is_empty (zone_label n) ≡ true) (new_node ∷ [])
        × (Any (λ d. d.name ≡ "z1") (failure_domains_from_nodes (new_node ∷ []))
            ↔ Any (λ n. n.name ≡ "z1") (new_node ∷ [])))
failure_domains_iff_example = failure_domains_iff (new_node ∷ []) "z1"

selector-failure_domains_example :
    (All (λ n. is_empty (zone_label n) ≡ false) (new_node ∷ [])
      × Any (λ n. zone_label n ≡ "z1") (new_node ∷ [])
      × (failure_domain_node_selector (failure_domains_from_nodes (new_node ∷ [])) "z1"
          ≡ ("topology.kubernetes.io/zone", "z1")))
    ⊎ ((Any (λ n. is_empty (zone_label n) ≡ true) (new_node ∷ [])
          ⊎ ¬ Any (λ n. zone_label n ≡ "z1") (new_node ∷ []))
        × (failure_domain_node_selector (failure_domains_from_nodes (new_node ∷ [])) "z1"
            ≡ ("kubernetes.io/hostname", "z1")))
selector-failure_domains_example = selector-failure_domains (new_node ∷ []) "z1"
