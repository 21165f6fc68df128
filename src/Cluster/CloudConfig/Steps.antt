-- ===== src/Cluster/CloudConfig/Steps.antt =====
-- The steps of `reconcileCloudProviderConfig` that write the manifests.
use cluster_api_provider_har.Common.{
  Option, Option-cases, String, false, inl, inr, refl, some, ◌≡◌, ◌⊎◌, arith, is_empty, true,
}
use cluster_api_provider_har.Common.Flow.{Flow, done, next, ◌>>=◌}
use cluster_api_provider_har.Api.Meta.{
  Error, Result, error, ok, value, wrapped, Response, api, failed,
}
use cluster_api_provider_har.CloudProvider.Account.{get_cloud_config_b64}
use cluster_api_provider_har.CloudProvider.Codec.{Codec}
use cluster_api_provider_har.CloudProvider.Manifests.{
  get_data_key_from_config_map, modify_yaml_string,
}
use cluster_api_provider_har.Cluster.CloudConfig.{
  Configuring, decode_kubeconfig, or_wrapped, update_manifests_map, wants_cloud_config,
  generate_kubeconfig_b64, get_manifests_map, write_manifests,
}
use cluster_api_provider_har.Cluster.Scope.{ClusterScope, log_cluster_call}
use cluster_api_provider_har.Common.Dict.{insert, lookup}
use cluster_api_provider_har.Harvester.Cluster.{
  ClusterHistory, ClusterServers, get_config_map, update_config_map,
}
use cluster_api_provider_har.Harvester.Types.{Secret}
use cluster_api_provider_har.Api.Cluster.{UpdateCloudProviderConfig}

module _ (servers : ClusterServers) (codec : Codec) where
  -- The management cluster has shown the config map and accepted it with its manifest replaced by what
  -- ModifyYAMlString makes of it with the kubeconfig that was generated, decoded.
  unfoldable pub IsWritten : ClusterScope → Type 0
  IsWritten s =
      let c = s.hv_cluster.spec.update_cloud_provider_config in
      (m : Secret) × (manifest : String) × (b64 : String) × (kubeconfig : String)
      × (modified : String) × (h : ClusterHistory) × (h' : ClusterHistory)
      × (servers.on_get_config_map s.calls c.manifests_config_map_namespace
            c.manifests_config_map_name
          ≡ ok m)
      × (lookup c.manifests_config_map_key m.data_entries ≡ some manifest)
      × (get_cloud_config_b64 servers codec s.cluster.name s.hv_cluster.spec.target_namespace
            s.hv_cluster.spec.server h
          ≡ (value b64, h'))
      × (codec.decode_base64 b64 ≡ some kubeconfig)
      × (modify_yaml_string codec manifest c.cloud_config_credentials_secret_name "kube-system"
            c.cloud_config_credentials_secret_key kubeconfig
          ≡ value modified)
      × (servers.on_update_config_map h'
            (record m { data_entries = insert c.manifests_config_map_key modified m.data_entries })
          ≡ ok tt)

  -- No field of the configuration is set.
  abbrev pub IsUnset : UpdateCloudProviderConfig → Type 0
  IsUnset c =
      (is_empty c.manifests_config_map_namespace ≡ true)
      × (is_empty c.manifests_config_map_name ≡ true)
      × (is_empty c.manifests_config_map_key ≡ true)
      × (is_empty c.cloud_config_credentials_secret_name ≡ true)
      × (is_empty c.cloud_config_credentials_secret_key ≡ true)

  pub wants_cloud_config-IsUnset :
      (c : UpdateCloudProviderConfig) → wants_cloud_config c ≡ false → IsUnset c
  unfolding wants_cloud_config
  wants_cloud_config-IsUnset c h = ground arith

  get_data_key_from_config_map-lookup :
      (m : Secret) (key manifest : String)
      → get_data_key_from_config_map m key ≡ value manifest
      → lookup key m.data_entries ≡ some manifest
  unfolding get_data_key_from_config_map
  get_data_key_from_config_map-lookup m key manifest h = ground arith

  -- The cluster is as it was, and an error was returned or the manifest is written.
  unfoldable pub Ends : ClusterScope → Flow ClusterScope (Option Error) (Unit {0}) → Type 0
  Ends s (next _ t) =
      (t.hv_cluster ≡ s.hv_cluster)
      × (IsUnset s.hv_cluster.spec.update_cloud_provider_config ⊎ IsWritten s)
  Ends s (done r t) = (t.hv_cluster ≡ s.hv_cluster) × ((e : Error) × (r ≡ some e))

  pub failed_step :
      (s t : ClusterScope) (e : Error) → t.hv_cluster ≡ s.hv_cluster → Ends s (done (some e) t)
  unfolding Ends
  failed_step s t e same = (same, (e, refl))

  or_wrapped_step :
      {A : Type 0} (context : String) (r : Result A) (k : A → Configuring (Unit {0}))
      (s t : ClusterScope)
      → t.hv_cluster ≡ s.hv_cluster
      → ((a : A) → r ≡ value a → Ends s (k a t))
      → Ends s ((or_wrapped context r >>= k) t)
  or_wrapped_step {A} context r k s t same step = go r refl
    where
      go : (r' : Result A) → r ≡ r' → Ends s ((or_wrapped context r' >>= k) t)
      go (value a) e = step a e
      go (error x) e = failed_step s t (wrapped context x) same

  decode_step :
      (b64 : String) (k : String → Configuring (Unit {0})) (s t : ClusterScope)
      → t.hv_cluster ≡ s.hv_cluster
      → ((text : String) → codec.decode_base64 b64 ≡ some text → Ends s (k text t))
      → Ends s ((decode_kubeconfig servers codec b64 >>= k) t)
  unfolding decode_kubeconfig
  decode_step b64 k s t same step = elim (Option-cases (codec.decode_base64 b64)) [
    | inl missing ↦ rw (missing, decode_kubeconfig) (failed_step s t _ same)
    | inr (text, e) ↦ rw (e, decode_kubeconfig) (step text e)
  ]

  update_step :
      (m : Secret) (s t : ClusterScope)
      → t.hv_cluster ≡ s.hv_cluster
      → (servers.on_update_config_map t.calls m ≡ ok tt → IsWritten s)
      → Ends s (update_manifests_map servers m t)
  unfolding update_manifests_map Ends
  update_step m s t same step = go (servers.on_update_config_map t.calls m) refl
    where
      go :
          (r : Response (Unit {0}))
          → servers.on_update_config_map t.calls m ≡ r
          → Ends s (update_manifests_map servers m t)
      go (ok tt) e = rw (e, update_manifests_map) (same, inr (step e))
      go (failed x) e =
          rw (e, update_manifests_map)
            (failed_step s (log_cluster_call (update_config_map m) t)
              (wrapped "unable to update the referenced config map" (api x)) same)

  -- The kubeconfig and what comes behind it.
  generate_step :
      (k : String → Configuring (Unit {0})) (s t : ClusterScope)
      → t.hv_cluster ≡ s.hv_cluster
      → ((b64 : String) (h : ClusterHistory)
          → get_cloud_config_b64 servers codec t.cluster.name t.hv_cluster.spec.target_namespace
              t.hv_cluster.spec.server t.calls
            ≡ (value b64, h)
          → Ends s (k b64 (record t { calls = h })))
      → Ends s ((generate_kubeconfig_b64 servers codec >>= k) t)
  unfolding generate_kubeconfig_b64
  generate_step k s t same step = go out.0 out.1 refl
    where
      out : Result String × ClusterHistory
      out =
          get_cloud_config_b64 servers codec t.cluster.name t.hv_cluster.spec.target_namespace
            t.hv_cluster.spec.server t.calls

      go :
          (r : Result String) (h : ClusterHistory)
          → out ≡ (r, h)
          → Ends s (
              (or_wrapped "unable to generate the kubeconfig for the cloud provider" r >>= k)
                (record t { calls = h }))
      go (value b64) h e = step b64 h e
      go (error x) h e =
          failed_step s (record t { calls = h })
            (wrapped "unable to generate the kubeconfig for the cloud provider" x) same

  get_step :
      (c : UpdateCloudProviderConfig) (k : Secret → Configuring (Unit {0})) (s : ClusterScope)
      → ((m : Secret)
          → servers.on_get_config_map s.calls c.manifests_config_map_namespace
              c.manifests_config_map_name
            ≡ ok m
          → Ends s (
              k m (
                log_cluster_call
                  (get_config_map c.manifests_config_map_namespace c.manifests_config_map_name)
                  s)))
      → Ends s ((get_manifests_map servers c >>= k) s)
  unfolding get_manifests_map
  get_step c k s step =
      go
        (servers.on_get_config_map s.calls c.manifests_config_map_namespace
          c.manifests_config_map_name)
        refl
    where
      t : ClusterScope
      t =
          log_cluster_call
            (get_config_map c.manifests_config_map_namespace c.manifests_config_map_name) s

      context : String
      context = "unable to get the referenced config map"

      answered : Response Secret → Configuring Secret
      answered r _ = elim r [ ok m ↦ next m t | failed e ↦ or_wrapped context (error (api e)) t ]

      go :
          (r : Response Secret)
          → servers.on_get_config_map s.calls c.manifests_config_map_namespace
              c.manifests_config_map_name
            ≡ r
          → Ends s ((answered r >>= k) s)
      go (ok m) e = step m e
      go (failed x) e = failed_step s t (wrapped context (api x)) refl

  pub write_manifests-Ends :
      (s : ClusterScope)
      → Ends s (write_manifests servers codec s.hv_cluster.spec.update_cloud_provider_config s)
  unfolding write_manifests IsWritten
  write_manifests-Ends s =
      let c = s.hv_cluster.spec.update_cloud_provider_config in
      get_step c _ s (λ m found.
        or_wrapped_step "unable to get the data key from the referenced config map"
          (get_data_key_from_config_map m c.manifests_config_map_key) _ s _ refl
          (λ manifest named. generate_step _ s _ refl (λ b64 h generated.
            decode_step b64 _ s _ refl (λ kubeconfig decoded.
              or_wrapped_step
                "unable to modify the cloudConfig Manifest to include the B64 Kubeconfig"
                (modify_yaml_string codec manifest c.cloud_config_credentials_secret_name
                  "kube-system" c.cloud_config_credentials_secret_key kubeconfig)
                _ s _ refl
                (λ modified changed.
                  update_step
                    (record m {
                      data_entries = insert c.manifests_config_map_key modified m.data_entries;
                    })
                    s _ refl
                    (λ accepted. (
                      m,
                      manifest,
                      b64,
                      kubeconfig,
                      modified,
                      _,
                      h,
                      found,
                      get_data_key_from_config_map-lookup m c.manifests_config_map_key manifest
                          named,
                      generated,
                      decoded,
                      changed,
                      accepted,
                    )))))))
