-- ===== src/Cluster/CloudConfig/Written.antt =====
-- What a successful `reconcileCloudProviderConfig` has written.
use cluster_api_provider_har.Common.{
  Option, false, inl, inr, refl, some, ◌≡◌, ◌⊎◌, Bool-cases, is_empty, ◌||◌, ap, none, true, Bool,
  if◌then◌else◌,
}
use cluster_api_provider_har.Common.Flow.{Flow, done, next, modify, pure, run, ◌>>◌}
use cluster_api_provider_har.Api.Meta.{Error, message}
use cluster_api_provider_har.CloudProvider.Codec.{Codec}
use cluster_api_provider_har.Cluster.CloudConfig.{
  wants_cloud_config, update_cloud_config, reconcile_cloud_provider_config,
}
use cluster_api_provider_har.Cluster.Scope.{ClusterScope, has_condition, set_condition}
use cluster_api_provider_har.Harvester.Cluster.{ClusterServers}
use cluster_api_provider_har.Api.Condition.{ConditionType, Conditions, Reason}
use cluster_api_provider_har.Cluster.CloudConfig.Steps.{
  IsUnset, wants_cloud_config-IsUnset, Ends, IsWritten, failed_step, write_manifests-Ends,
}

module _ (servers : ClusterServers) (codec : Codec) where
  update_cloud_config-Ends :
      (s : ClusterScope)
      → Ends servers codec s
          (update_cloud_config servers codec s.hv_cluster.spec.update_cloud_provider_config s)
  unfolding update_cloud_config Ends
  update_cloud_config-Ends s =
      let c = s.hv_cluster.spec.update_cloud_provider_config in
      elim (Bool-cases (wants_cloud_config c)) [
        | inr unwanted ↦
            rw (unwanted, update_cloud_config)
              (refl, inl (wants_cloud_config-IsUnset servers codec c unwanted))
        | inl wanted ↦
            elim (Bool-cases
              (is_empty c.manifests_config_map_name || is_empty c.manifests_config_map_namespace)) [
                | inl unnamed ↦
                    rw (wanted, unnamed, update_cloud_config)
                      (failed_step servers codec s s
                        (message
                          "ManifestsConfigMapName and ManifestsConfigMapNamespace must be set")
                        refl)
                | inr named ↦
                    rw (wanted, named, update_cloud_config) (write_manifests-Ends servers codec s)
              ]
      ]

  -- All is there already, or an error leaves the cluster as it was, or the condition becomes True.
  abbrev pub CloudConfigEnds : Conditions → ClusterScope → Option Error × ClusterScope → Type 0
  CloudConfigEnds conditions s out =
      ((has_condition conditions ConditionType.cloud_provider_config_ready s ≡ true)
        × (out ≡ (none, s)))
      ⊎ (((e : Error) × (out.0 ≡ some e) × (out.1.hv_cluster ≡ s.hv_cluster))
          ⊎ ((out.0 ≡ none)
              × (out.1.hv_cluster
                  ≡ (set_condition conditions ConditionType.cloud_provider_config_ready true
                      Reason.cloud_provider_config_generated_successfully s).hv_cluster)
              × (IsUnset servers codec s.hv_cluster.spec.update_cloud_provider_config
                  ⊎ IsWritten servers codec s)))

  noted :
      (conditions : Conditions) (s : ClusterScope) (f : Flow ClusterScope (Option Error) (Unit {0}))
      → Ends servers codec s f
      → CloudConfigEnds conditions s (
          run
            ((λ _. f)
              >> (modify (
                    set_condition conditions ConditionType.cloud_provider_config_ready true
                      Reason.cloud_provider_config_generated_successfully)
                  >> pure none))
            s)
  unfolding Ends
  noted conditions s (done r t) (same, (e, is_error)) = inr (inl (e, is_error, same))
  noted conditions s (next u t) (same, written) = inr (
      inr (
        refl,
        ap
            (λ c.
              (set_condition conditions ConditionType.cloud_provider_config_ready true
                Reason.cloud_provider_config_generated_successfully
                (record s { hv_cluster = c })).hv_cluster)
            same,
        written,
      ))

  -- Where the condition of the configuration is True already, reconcileCloudProviderConfig does nothing; else it returns an error and leaves the cluster as it was, or it sets that condition and changes nothing else of the cluster, where no field of the configuration is set, or the management cluster has shown the config map and accepted it with the manifest under its key replaced by what ModifyYAMlString makes of it with the kubeconfig that was generated, decoded.
  pub reconcile_cloud_provider_config_ends :
      (conditions : Conditions) (s : ClusterScope)
      → CloudConfigEnds conditions s (reconcile_cloud_provider_config servers codec conditions s)
  unfolding reconcile_cloud_provider_config
  reconcile_cloud_provider_config_ends conditions s =
      go (has_condition conditions ConditionType.cloud_provider_config_ready s) refl
    where
      updated : Flow ClusterScope (Option Error) (Unit {0})
      updated = update_cloud_config servers codec s.hv_cluster.spec.update_cloud_provider_config s

      go :
          (b : Bool)
          → has_condition conditions ConditionType.cloud_provider_config_ready s ≡ b
          → CloudConfigEnds conditions s (
              if b
              then (none, s)
              else run
                  ((λ _. updated)
                    >> (modify (
                          set_condition conditions ConditionType.cloud_provider_config_ready true
                            Reason.cloud_provider_config_generated_successfully)
                        >> pure none))
                  s)
      go true ready = inl (ready, refl)
      go false missing = noted conditions s updated (update_cloud_config-Ends s)
