-- ===== src/Etcd.antt =====
-- util/etcd.go: the removal of a deleted control-plane node's etcd member from the workload cluster.
-- Running etcdctl in a pod, and reading its JSON output, is one call with the members as answer.
pub mod Safety
use cluster_api_provider_har.Common.{
  Bool, List, Option, String, [], false, if◌then◌else◌, none, some, starts_with, str_append, str_eq,
  ◌&&◌, ◌||◌, ◌∷◌,
}
use cluster_api_provider_har.Api.Meta.{failed, ok}
use cluster_api_provider_har.Harvester.Types.{
  EtcdMember, History, Pod, Servers, exec_member_list, exec_member_remove, list_etcd_pods,
  list_system_pods,
}

-- What client-go makes of a kubeconfig: `clientcmd.RESTConfigFromKubeConfig` accepts it, and a client
-- can be built from it.
pub record ClientGo : Type 0 where
  pub accepts : String → Bool
  pub builds_client : String → Bool

-- `isPodReady`; the conditions are pairs of type and status.
abbrev has_ready_condition : List (String × String) → Bool
has_ready_condition [] = false
has_ready_condition ((type, status) ∷ rest) =
    (str_eq type "Ready" && str_eq status "True") || has_ready_condition rest

unfoldable pub is_pod_ready : Pod → Bool
is_pod_ready pod = str_eq pod.phase "Running" && has_ready_condition pod.conditions

-- The pods whose name starts with "etcd-".
unfoldable pub etcd_pods : List Pod → List Pod
etcd_pods [] = []
etcd_pods (pod ∷ pods) =
    let rest = etcd_pods pods in if starts_with pod.name "etcd-" then pod ∷ rest else rest

-- The last loop of `findHealthyEtcdPod`.
unfoldable pub first_healthy : String → List Pod → Option Pod
unfolding is_pod_ready
first_healthy deleted [] = none
first_healthy deleted (pod ∷ pods) =
    let rest = first_healthy deleted pods in
    if str_eq pod.node_name deleted then rest else if is_pod_ready pod then some pod else rest

-- The loop of `RemoveEtcdMember` that looks for the member of the node.
unfoldable pub find_member : String → List EtcdMember → Option EtcdMember
find_member node [] = none
find_member node (m ∷ ms) =
    let rest = find_member node ms in
    if starts_with m.name (str_append node "-") || str_eq m.name node then some m else rest

module _ (servers : Servers) where
  -- The pods of the first list, or of the second where the first failed or is empty.
  unfoldable pub list_etcd : History → Option (List Pod) × History
  list_etcd h = elim (servers.on_list_etcd_pods h) [
    | ok (p ∷ ps) ↦ (some (p ∷ ps), list_etcd_pods ∷ h)
    | _ ↦ elim (servers.on_list_system_pods (list_etcd_pods ∷ h)) [
      | failed _ ↦ (none, list_system_pods ∷ list_etcd_pods ∷ h)
      | ok all ↦ (some (etcd_pods all), list_system_pods ∷ list_etcd_pods ∷ h)
    ]
  ]

  -- `findHealthyEtcdPod`
  unfoldable pub find_healthy_etcd_pod : String → History → Option Pod × History
  unfolding list_etcd
  find_healthy_etcd_pod deleted h =
      let (pods, h') = list_etcd h in
      (elim pods [ none ↦ none | some ps ↦ first_healthy deleted ps ], h')

  -- The removal through a pod, once the members are known.
  unfoldable pub remove_through : String → Pod → List EtcdMember → History → History
  remove_through deleted pod members h = elim (find_member deleted members) [
    | none ↦ h
    | some m ↦ exec_member_remove pod m.id ∷ h
  ]

  unfoldable pub list_and_remove : String → Pod → History → History
  unfolding remove_through
  list_and_remove deleted pod h = elim (servers.on_exec_member_list h pod) [
    | failed _ ↦ exec_member_list pod ∷ h
    | ok members ↦ remove_through deleted pod members (exec_member_list pod ∷ h)
  ]

  -- `RemoveEtcdMember`: it returns nothing, and what it does is its calls.
  unfoldable pub remove_etcd_member : ClientGo → String → String → History → History
  unfolding find_healthy_etcd_pod list_and_remove
  remove_etcd_member client_go config deleted h =
      if client_go.builds_client config
      then (let (found, h') = find_healthy_etcd_pod deleted h in
          elim found [ none ↦ h' | some pod ↦ list_and_remove deleted pod h' ])
      else h
