-- ===== src/Cluster/Fleet.antt =====
-- `reconcileFleetIntegration` of internal/controller/harvestercluster_controller.go.
pub mod Labels
use cluster_api_provider_har.Common.{
  Bool, List, Option, String, [], false, if◌then◌else◌, is_empty, none, not, some, str_eq, true,
  ◌∷◌,
}
use cluster_api_provider_har.Common.Flow.{Code, done, modify, next, return, run, ◌>>=◌, ◌>>◌}
use cluster_api_provider_har.Api.Condition.{ConditionType, Conditions, Reason}
use cluster_api_provider_har.Api.Meta.{failed, ok}
use cluster_api_provider_har.Cluster.Scope.{
  ClusterScope, has_condition, log_cluster_call, set_condition,
}
use cluster_api_provider_har.Common.Dict.{Dict, insert, lookup}
use cluster_api_provider_har.Harvester.Cluster.{
  ClusterServers, FleetCluster, ProvisioningCluster, get_management_cluster, list_fleet_clusters,
  list_provisioning_clusters, patch_fleet_workspace, update_fleet_cluster,
}
use cluster_api_provider_har.Machine.Scope.{OwnerCluster}
use cluster_api_provider_har.Pool.Store.{value_or_empty}

abbrev pub auto_import_label : String
auto_import_label = "cluster-api.cattle.io/rancher-auto-import"

-- `labelsToPropagate`
unfoldable pub propagated : List String → Dict String → Dict String
propagated [] labels = []
propagated (key ∷ keys) labels =
    let rest = propagated keys labels in
    elim (lookup key labels) [ none ↦ rest | some v ↦ (key, v) ∷ rest ]

unfoldable pub labels_to_propagate : OwnerCluster → Dict String
unfolding propagated
labels_to_propagate c =
    ("cluster.x-k8s.io/cluster-name", c.name)
    ∷ propagated ("cni" ∷ "csi" ∷ "cloud-config" ∷ []) c.labels

-- The loop over them: the labels, and whether one changed. The value of a missing label is "".
unfoldable pub merge_labels : Dict String → Dict String → Bool → Dict String × Bool
merge_labels [] existing changed = (existing, changed)
merge_labels ((k, v) ∷ rest) existing changed =
    if str_eq (value_or_empty (lookup k existing)) v
    then merge_labels rest existing changed
    else merge_labels rest (insert k v existing) true

-- The first provisioning cluster of the name that has a cluster name; "" when there is none.
unfoldable pub find_management_name : String → List ProvisioningCluster → String
find_management_name name [] = ""
find_management_name name (pc ∷ pcs) =
    let rest = find_management_name name pcs in
    if str_eq pc.name name
    then elim pc.cluster_name [ none ↦ rest | some m ↦ if is_empty m then rest else m ]
    else rest

unfoldable pub find_fleet_cluster : String → List FleetCluster → Option FleetCluster
find_fleet_cluster name [] = none
find_fleet_cluster name (fc ∷ fcs) =
    let rest = find_fleet_cluster name fcs in if str_eq fc.name name then some fc else rest

-- The body of the function, which returns nothing.
abbrev pub Integrating : Type 0 → Type 0
Integrating A = Code ClusterScope (Unit {0}) A

module _ (conditions : Conditions) (servers : ClusterServers) where
  abbrev pub set_fleet : Bool → Reason → ClusterScope → ClusterScope
  set_fleet = set_condition conditions ConditionType.fleet_integration_ready

  -- An early return with the condition set.
  unfoldable pub stop_fleet : Bool → Reason → {A : Type 0} → Integrating A
  stop_fleet status reason = do modify (set_fleet status reason); return tt

  -- The name of the management cluster; the list may fail where Rancher is not installed.
  unfoldable pub find_management_cluster : Integrating String
  unfolding find_management_name stop_fleet
  find_management_cluster s =
      let s' = log_cluster_call (list_provisioning_clusters s.cluster.namespace) s in
      elim (servers.on_list_provisioning_clusters s.calls s.cluster.namespace) [
        | failed _ ↦ done tt s'
        | ok pcs ↦
            let name = find_management_name s.cluster.name pcs in
            if is_empty name
            then stop_fleet false Reason.fleet_integration_in_progress s'
            else next name s'
      ]

  -- `fleetWorkspaceName` is set where it is empty.
  unfoldable pub set_workspace : String → Integrating (Unit {0})
  unfolding stop_fleet
  set_workspace name s =
      let s' = log_cluster_call (patch_fleet_workspace name "fleet-default") s in
      elim (servers.on_patch_fleet_workspace s.calls name "fleet-default") [
        | ok _ ↦ next tt s'
        | failed _ ↦ stop_fleet false Reason.fleet_integration_failed s'
      ]

  unfoldable pub ensure_workspace : String → Integrating (Unit {0})
  unfolding set_workspace stop_fleet
  ensure_workspace name s =
      let s' = log_cluster_call (get_management_cluster name) s in
      elim (servers.on_get_management_cluster s.calls name) [
        | failed _ ↦ stop_fleet false Reason.fleet_integration_in_progress s'
        | ok workspace ↦ if is_empty workspace then set_workspace name s' else next tt s'
      ]

  unfoldable pub get_fleet_cluster : String → Integrating FleetCluster
  unfolding find_fleet_cluster stop_fleet
  get_fleet_cluster name s =
      let s' = log_cluster_call (list_fleet_clusters "fleet-default") s in
      elim (servers.on_list_fleet_clusters s.calls "fleet-default") [
        | failed _ ↦ stop_fleet false Reason.fleet_integration_in_progress s'
        | ok fcs ↦ elim (find_fleet_cluster name fcs) [
          | none ↦ stop_fleet false Reason.fleet_integration_in_progress s'
          | some fc ↦ next fc s'
        ]
      ]

  -- The update of the labels, where one changed.
  unfoldable pub send_labels : FleetCluster → Integrating (Unit {0})
  unfolding stop_fleet
  send_labels updated s =
      let s' = log_cluster_call (update_fleet_cluster updated) s in
      elim (servers.on_update_fleet_cluster s.calls updated) [
        | ok _ ↦ next tt s'
        | failed _ ↦ stop_fleet false Reason.fleet_integration_failed s'
      ]

  unfoldable pub propagate_labels : FleetCluster → Integrating (Unit {0})
  unfolding send_labels labels_to_propagate merge_labels
  propagate_labels fc s =
      let (labels, changed) = merge_labels (labels_to_propagate s.cluster) fc.labels false in
      if changed then send_labels (record fc { labels = labels }) s else next tt s

  unfoldable pub integrate : Integrating (Unit {0})
  unfolding find_management_cluster ensure_workspace get_fleet_cluster propagate_labels
  integrate = do
    name ← find_management_cluster
    ensure_workspace name
    fc ← get_fleet_cluster name
    propagate_labels fc
    modify (set_fleet true Reason.fleet_integration_ready)

  -- `reconcileFleetIntegration`
  unfoldable pub reconcile_fleet_integration : ClusterScope → ClusterScope
  unfolding integrate
  reconcile_fleet_integration s =
      if has_condition conditions ConditionType.fleet_integration_ready s
      then s
      else if not (str_eq (value_or_empty (lookup auto_import_label s.cluster.labels)) "true")
      then set_fleet true Reason.fleet_integration_not_applicable s
      else (run integrate s).1
