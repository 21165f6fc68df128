-- ===== src/Cluster/Endpoint/Config.antt =====
-- The endpoint along `reconcileCloudProviderConfig` and `reconcileFleetIntegration`.
use cluster_api_provider_har.Cluster.Endpoint.{
  HasEndpoint, Keeps, Preserves, bind-Keeps, run-Preserves, set_condition-HasEndpoint, modify-Keeps,
  state_of,
}
use cluster_api_provider_har.Common.{Bool, String, arith, false, if◌then◌else◌, true}
use cluster_api_provider_har.Common.Flow.{next}
use cluster_api_provider_har.Api.Cluster.{UpdateCloudProviderConfig}
use cluster_api_provider_har.Api.Condition.{Conditions}
use cluster_api_provider_har.Api.Meta.{Result, error, value}
use cluster_api_provider_har.CloudProvider.Codec.{Codec}
use cluster_api_provider_har.Cluster.CloudConfig.{
  decode_kubeconfig, generate_kubeconfig_b64, get_manifests_map, or_wrapped,
  reconcile_cloud_provider_config, update_cloud_config, update_manifests_map, write_manifests,
}
use cluster_api_provider_har.Cluster.Fleet.{
  ensure_workspace, find_management_cluster, get_fleet_cluster, integrate, labels_to_propagate,
  merge_labels, propagate_labels, reconcile_fleet_integration, send_labels, set_workspace,
  stop_fleet,
}
use cluster_api_provider_har.Cluster.Scope.{ClusterScope}
use cluster_api_provider_har.Common.Dict.{Dict}
use cluster_api_provider_har.Harvester.Cluster.{ClusterServers, FleetCluster}
use cluster_api_provider_har.Harvester.Types.{Secret}

or_wrapped-Keeps : {A : Type 0} (context : String) (r : Result A) → Keeps (or_wrapped context r)
unfolding Keeps
or_wrapped-Keeps context (value a) s h = h
or_wrapped-Keeps context (error e) s h = h

module _ (servers : ClusterServers) where
  get_manifests_map-Keeps : (c : UpdateCloudProviderConfig) → Keeps (get_manifests_map servers c)
  unfolding HasEndpoint Keeps get_manifests_map
  get_manifests_map-Keeps c s h = ground arith

  update_manifests_map-Keeps : (m : Secret) → Keeps (update_manifests_map servers m)
  unfolding HasEndpoint Keeps update_manifests_map
  update_manifests_map-Keeps m s h = ground arith

  module _ (codec : Codec) where
    generate_kubeconfig_b64-Keeps : Keeps (generate_kubeconfig_b64 servers codec)
    unfolding HasEndpoint Keeps generate_kubeconfig_b64
    generate_kubeconfig_b64-Keeps s h = ground arith

    decode_kubeconfig-Keeps : (text : String) → Keeps (decode_kubeconfig servers codec text)
    unfolding HasEndpoint Keeps decode_kubeconfig
    decode_kubeconfig-Keeps text s h = ground arith

    write_manifests-Keeps :
        (c : UpdateCloudProviderConfig) → Keeps (write_manifests servers codec c)
    unfolding write_manifests
    write_manifests-Keeps c = bind-Keeps _ _ (get_manifests_map-Keeps c) (λ m.
        bind-Keeps _ _ (or_wrapped-Keeps _ _) (λ manifest.
          bind-Keeps _ _ generate_kubeconfig_b64-Keeps (λ b64.
            bind-Keeps _ _ (decode_kubeconfig-Keeps b64) (λ kubeconfig.
              bind-Keeps _ _ (or_wrapped-Keeps _ _) (λ modified. update_manifests_map-Keeps _)))))

    update_cloud_config-Keeps :
        (c : UpdateCloudProviderConfig) → Keeps (update_cloud_config servers codec c)
    unfolding HasEndpoint Keeps update_cloud_config
    update_cloud_config-Keeps c s h = ground (arith, write_manifests-Keeps c s h)

    pub reconcile_cloud_provider_config-Preserves :
        (conditions : Conditions)
        → Preserves (reconcile_cloud_provider_config servers codec conditions)
    unfolding HasEndpoint Keeps reconcile_cloud_provider_config
    reconcile_cloud_provider_config-Preserves conditions s h =
        let updated =
          update_cloud_config-Keeps s.hv_cluster.spec.update_cloud_provider_config s h in
        ground (arith, updated)

module _ (conditions : Conditions) (servers : ClusterServers) where
  find_management_cluster-Keeps : Keeps (find_management_cluster conditions servers)
  unfolding HasEndpoint Keeps find_management_cluster stop_fleet
  find_management_cluster-Keeps s h = ground arith

  ensure_workspace-Keeps : (name : String) → Keeps (ensure_workspace conditions servers name)
  unfolding HasEndpoint Keeps ensure_workspace set_workspace stop_fleet
  ensure_workspace-Keeps name s h = ground arith

  get_fleet_cluster-Keeps : (name : String) → Keeps (get_fleet_cluster conditions servers name)
  unfolding HasEndpoint Keeps get_fleet_cluster stop_fleet
  get_fleet_cluster-Keeps name s h = ground arith

  send_labels-Keeps : (fc : FleetCluster) → Keeps (send_labels conditions servers fc)
  unfolding HasEndpoint Keeps send_labels stop_fleet
  send_labels-Keeps fc s h = ground arith

  propagate_labels-Keeps : (fc : FleetCluster) → Keeps (propagate_labels conditions servers fc)
  unfolding Keeps propagate_labels
  propagate_labels-Keeps fc s h =
      let merged = merge_labels (labels_to_propagate s.cluster) fc.labels false in
      go merged.0 merged.1
    where
      go :
          (labels : Dict String) (changed : Bool)
          → HasEndpoint (
              state_of (
                if changed
                then send_labels conditions servers (record fc { labels = labels }) s
                else next tt s))
      go labels true = send_labels-Keeps (record fc { labels = labels }) s h
      go labels false = h

  integrate-Keeps : Keeps (integrate conditions servers)
  unfolding integrate
  integrate-Keeps = bind-Keeps _ _ find_management_cluster-Keeps (λ name.
      bind-Keeps _ _ (ensure_workspace-Keeps name) (λ _.
        bind-Keeps _ _ (get_fleet_cluster-Keeps name) (λ fc.
          bind-Keeps _ _ (propagate_labels-Keeps fc)
            (λ _. modify-Keeps _ _ (set_condition-HasEndpoint conditions _ _ _)))))

  pub reconcile_fleet_integration-HasEndpoint :
      (s : ClusterScope)
      → HasEndpoint s
      → HasEndpoint (reconcile_fleet_integration conditions servers s)
  unfolding HasEndpoint reconcile_fleet_integration
  reconcile_fleet_integration-HasEndpoint s h = ground (arith, run-Preserves _ integrate-Keeps s h)
