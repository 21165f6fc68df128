-- ===== src/Machine/Workload.antt =====
-- What the machine reconciler does in the workload cluster:
-- internal/controller/harvestermachine_controller.go.
use cluster_api_provider_har.Common.{
  Bool, String, false, if◌then◌else◌, is_empty, none, some, str_append,
}
use cluster_api_provider_har.Api.Meta.{Result, api, error, failed, message, ok, value, wrapped}
use cluster_api_provider_har.Common.Dict.{lookup}
use cluster_api_provider_har.Etcd.{ClientGo, remove_etcd_member}
use cluster_api_provider_har.Harvester.Types.{Secret, Servers, get_management_secret, get_node}
use cluster_api_provider_har.Machine.Scope.{Scope, log_call}
use cluster_api_provider_har.NodeInit.{initialize_workload_node}

module _ (client_go : ClientGo) (servers : Servers) where
  -- What the secret's content gives.
  unfoldable pub read_kubeconfig : Secret → Result String
  read_kubeconfig secret = elim (lookup "value" secret.data_entries) [
    | none ↦ error (message "no kubeconfig data found in secret")
    | some config ↦
        if client_go.accepts config
        then value config
        else error (message "unable to get workload cluster config from kubeconfig data")
  ]

  -- `getWorkloadClusterConfig`
  unfoldable pub get_workload_cluster_config : Scope → Result String × Scope
  unfolding read_kubeconfig
  get_workload_cluster_config s =
      let secret_name = str_append s.cluster.name "-kubeconfig" in
      let s' = log_call (get_management_secret s.cluster.namespace secret_name) s in
      elim (servers.on_get_management_secret s.calls s.cluster.namespace secret_name) [
        | failed e ↦
            (error (wrapped "unable to get workload cluster kubeconfig secret" (api e)), s')
        | ok secret ↦ (read_kubeconfig secret, s')
      ]

  -- `removeEtcdMemberIfControlPlane`
  unfoldable pub remove_etcd_member_if_control_plane : Scope → Scope
  unfolding get_workload_cluster_config
  remove_etcd_member_if_control_plane s =
      elim (lookup "cluster.x-k8s.io/control-plane" s.hv_machine.meta.labels) [
        | none ↦ s
        | some _ ↦
            let (config, s') = get_workload_cluster_config s in
            elim config [
              | error _ ↦ s'
              | value c ↦ record s' {
                calls = remove_etcd_member servers client_go c s.hv_machine.meta.name s'.calls;
              }
            ]
      ]

  -- `getProviderIDFromWorkloadCluster`
  unfoldable pub get_provider_id_from_workload_cluster : Scope → Result String × Scope
  unfolding get_workload_cluster_config
  get_provider_id_from_workload_cluster s =
      let (config, s') = get_workload_cluster_config s in
      elim config [
        | error e ↦
            (error (wrapped "unable to get workload cluster config from Management Cluster" e), s')
        | value c ↦
            if client_go.builds_client c
            then elim (servers.on_get_node s'.calls s.hv_machine.meta.name) [
              | failed e ↦ (error (api e), log_call (get_node s.hv_machine.meta.name) s')
              | ok node ↦ (value node.provider_id, log_call (get_node s.hv_machine.meta.name) s')
            ]
            else (error (message "unable to get workload cluster client from Kubeconfig"), s')
      ]

  -- `initializeWorkloadNode`
  unfoldable pub initialize_node : Scope → Bool × Scope
  unfolding get_workload_cluster_config
  initialize_node s =
      if is_empty s.hv_machine.spec.provider_id
      then (false, s)
      else (let (config, s') = get_workload_cluster_config s in
          elim config [
            | error _ ↦ (false, s')
            | value c ↦
                let (done_, h) =
                  initialize_workload_node servers client_go c s.hv_machine.meta.name
                    s.hv_machine.spec.provider_id s'.calls in
                (done_, record s' { calls = h })
          ])
