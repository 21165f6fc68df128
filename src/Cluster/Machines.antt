-- ===== src/Cluster/Machines.antt =====
-- Small parts of internal/controller/harvestercluster_controller.go: `getOwnedCPHarversterMachines`,
-- `findObjectsForSecret` and `clusterToHarvesterCluster`, and `reconcileFailureDomains` of
-- internal/controller/failure_domains.go.
use cluster_api_provider_har.Common.{
  List, String, [], if◌then◌else◌, is_empty, map, not, str_eq, ◌||◌, ◌∷◌,
}
use cluster_api_provider_har.Api.Cluster.{HarvesterCluster}
use cluster_api_provider_har.Api.Machine.{HarvesterMachine}
use cluster_api_provider_har.Api.Meta.{
  Response, Result, api, error, failed, is_not_found, ok, value, wrapped,
}
use cluster_api_provider_har.CloudInit.Sections.{items}
use cluster_api_provider_har.Cluster.Scope.{ClusterScope, log_cluster_call, update_cluster_status}
use cluster_api_provider_har.FailureDomains.{failure_domains_from_nodes}
use cluster_api_provider_har.Harvester.Cluster.{
  ClusterHistory, ClusterServers, get_virtual_machine, list_control_plane_machines, list_hosts,
}
use cluster_api_provider_har.Names.{NamespacedName}

module _ (servers : ClusterServers) where
  -- The loop over the machines: one is left out when there is no VM of it.
  unfoldable pub machines_with_vm :
      String → List HarvesterMachine → ClusterHistory → List HarvesterMachine × ClusterHistory
  machines_with_vm ns [] h = ([], h)
  machines_with_vm ns (m ∷ ms) h =
      let (rest, h') = machines_with_vm ns ms (get_virtual_machine ns m.meta.name ∷ h) in
      elim (servers.on_get_virtual_machine h ns m.meta.name) [
        | ok _ ↦ (m ∷ rest, h')
        | failed e ↦ if is_not_found e then (rest, h') else (m ∷ rest, h')
      ]

  -- `getOwnedCPHarversterMachines`
  unfoldable pub get_owned_cp_harvester_machines :
      ClusterScope → Result (List HarvesterMachine) × ClusterScope
  unfolding machines_with_vm
  get_owned_cp_harvester_machines s =
      let h = list_control_plane_machines s.cluster.name ∷ s.calls in
      elim (servers.on_list_control_plane_machines s.calls s.cluster.name) [
        | failed e ↦ if is_not_found e then (value [], record s { calls = h }) else (
          error (wrapped "unable to list owned ControlPlane Machines" (api e)),
          record s { calls = h },
        )
        | ok ms ↦
            let (found, h') = machines_with_vm s.hv_cluster.spec.target_namespace ms h in
            (value found, record s { calls = h' })
      ]

  -- `reconcileFailureDomains`: an error is only logged.
  unfoldable pub reconcile_failure_domains : ClusterScope → ClusterScope
  reconcile_failure_domains s =
      let s' = log_cluster_call list_hosts s in
      elim (servers.on_list_hosts s.calls) [
        | failed _ ↦ s'
        | ok nodes ↦
            update_cluster_status
              (λ st. record st { failure_domains = failure_domains_from_nodes nodes }) s'
      ]

-- `clusterToHarvesterCluster`, on the namespace of a Cluster and the kind and name of its
-- infrastructure reference.
unfoldable pub cluster_to_harvester_cluster : String → String → String → List NamespacedName
cluster_to_harvester_cluster namespace kind name =
    if not (str_eq kind "HarvesterCluster") || is_empty name
    then []
    else record { namespace = namespace; name = name } ∷ []

-- `findObjectsForSecret`, on the answer to the list by the name of the secret.
unfoldable pub find_objects_for_secret : Response (List HarvesterCluster) → List NamespacedName
find_objects_for_secret (failed _) = []
find_objects_for_secret (ok items) =
    map (λ (c : HarvesterCluster). record { namespace = c.meta.namespace; name = c.meta.name })
      items
