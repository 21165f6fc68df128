-- ===== src/Cluster/CloudConfig.antt =====
-- `reconcileCloudProviderConfig` of internal/controller/harvestercluster_controller.go.
pub mod Steps
pub mod Written
use cluster_api_provider_har.Common.{
  Bool, Option, String, if◌then◌else◌, is_empty, none, not, some, true, ◌&&◌, ◌||◌,
}
use cluster_api_provider_har.Common.Flow.{
  Code, done, modify, next, pure, return, run, skip, ◌>>=◌, ◌>>◌,
}
use cluster_api_provider_har.Api.Cluster.{UpdateCloudProviderConfig}
use cluster_api_provider_har.Api.Condition.{ConditionType, Conditions, Reason}
use cluster_api_provider_har.Api.Meta.{
  Error, Result, api, error, failed, message, ok, value, wrapped,
}
use cluster_api_provider_har.CloudProvider.Codec.{Codec}
use cluster_api_provider_har.CloudProvider.Manifests.{
  get_data_key_from_config_map, modify_yaml_string,
}
use cluster_api_provider_har.Cluster.Scope.{
  ClusterScope, has_condition, log_cluster_call, set_condition,
}
use cluster_api_provider_har.Common.Dict.{insert}
use cluster_api_provider_har.Harvester.Cluster.{ClusterServers, get_config_map, update_config_map}
use cluster_api_provider_har.Harvester.Types.{Secret}
use cluster_api_provider_har.CloudProvider.Account.{get_cloud_config_b64}

-- `updateCloudConfig != infrav1.UpdateCloudProviderConfig{}`
unfoldable pub wants_cloud_config : UpdateCloudProviderConfig → Bool
wants_cloud_config c = not (
    is_empty c.manifests_config_map_namespace
    && is_empty c.manifests_config_map_name
    && is_empty c.manifests_config_map_key
    && is_empty c.cloud_config_credentials_secret_name
    && is_empty c.cloud_config_credentials_secret_key)

-- The body of the function: an early return has an error.
abbrev pub Configuring : Type 0 → Type 0
Configuring A = Code ClusterScope (Option Error) A

-- `if err != nil { return errors.Wrapf(err, context) }`
abbrev pub or_wrapped : {A : Type 0} → String → Result A → Configuring A
or_wrapped context (value a) s = next a s
or_wrapped context (error e) s = done (some (wrapped context e)) s

module _ (servers : ClusterServers) where
  unfoldable pub get_manifests_map : UpdateCloudProviderConfig → Configuring Secret
  get_manifests_map c s =
      let s' =
        log_cluster_call
          (get_config_map c.manifests_config_map_namespace c.manifests_config_map_name) s in
      elim (servers.on_get_config_map s.calls c.manifests_config_map_namespace
        c.manifests_config_map_name) [
          | ok m ↦ next m s'
          | failed e ↦ or_wrapped "unable to get the referenced config map" (error (api e)) s'
        ]

  unfoldable pub update_manifests_map : Secret → Configuring (Unit {0})
  update_manifests_map m s =
      let s' = log_cluster_call (update_config_map m) s in
      elim (servers.on_update_config_map s.calls m) [
        | ok _ ↦ next tt s'
        | failed e ↦ or_wrapped "unable to update the referenced config map" (error (api e)) s'
      ]

  module _ (codec : Codec) where
    unfoldable pub generate_kubeconfig_b64 : Configuring String
    generate_kubeconfig_b64 s =
        let (out, h) =
          get_cloud_config_b64 servers codec s.cluster.name s.hv_cluster.spec.target_namespace
            s.hv_cluster.spec.server s.calls in
        or_wrapped "unable to generate the kubeconfig for the cloud provider" out
          (record s { calls = h })

    unfoldable pub decode_kubeconfig : String → Configuring String
    decode_kubeconfig text = elim (codec.decode_base64 text) [
      | some bytes ↦ pure bytes
      | none ↦
          or_wrapped "unable to decode the kubeconfig for the cloud provider"
            (error (message "illegal base64 data"))
    ]

    -- The manifests with the kubeconfig in the Secret.
    unfoldable pub write_manifests : UpdateCloudProviderConfig → Configuring (Unit {0})
    unfolding get_manifests_map get_data_key_from_config_map generate_kubeconfig_b64
        decode_kubeconfig update_manifests_map
    write_manifests c = do
      m ← get_manifests_map c
      manifest ←
          or_wrapped "unable to get the data key from the referenced config map"
            (get_data_key_from_config_map m c.manifests_config_map_key)
      b64 ← generate_kubeconfig_b64
      kubeconfig ← decode_kubeconfig b64
      modified ←
          or_wrapped "unable to modify the cloudConfig Manifest to include the B64 Kubeconfig" (
            modify_yaml_string codec manifest c.cloud_config_credentials_secret_name "kube-system"
              c.cloud_config_credentials_secret_key kubeconfig)
      update_manifests_map
          (record m { data_entries = insert c.manifests_config_map_key modified m.data_entries })

    unfoldable pub update_cloud_config : UpdateCloudProviderConfig → Configuring (Unit {0})
    unfolding wants_cloud_config write_manifests
    update_cloud_config c =
        if wants_cloud_config c
        then (if is_empty c.manifests_config_map_name || is_empty c.manifests_config_map_namespace
            then return (
                some (message "ManifestsConfigMapName and ManifestsConfigMapNamespace must be set"))
            else write_manifests c)
        else skip

    -- `reconcileCloudProviderConfig`
    unfoldable pub reconcile_cloud_provider_config :
        Conditions → ClusterScope → Option Error × ClusterScope
    unfolding update_cloud_config
    reconcile_cloud_provider_config conditions s =
        if has_condition conditions ConditionType.cloud_provider_config_ready s
        then (none, s)
        else run
            (do
              update_cloud_config s.hv_cluster.spec.update_cloud_provider_config
              modify (
                  set_condition conditions ConditionType.cloud_provider_config_ready true
                    Reason.cloud_provider_config_generated_successfully)
              pure none)
            s
