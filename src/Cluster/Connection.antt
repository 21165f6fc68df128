-- ===== src/Cluster/Connection.antt =====
-- The connection to Harvester of internal/controller/harvestercluster_controller.go:
-- `reconcileHarvesterConfig`, `getHarvesterServerFromKubeconfig` and `isHarvesterAvailable`, with
-- `GetSecretForHarvesterConfig` of util/util.go.
pub mod Ready
use cluster_api_provider_har.Common.{
  Bool, List, Option, String, [], false, if◌then◌else◌, is_empty, none, not, some, str_eq, true,
  ◌&&◌, ◌||◌, ◌∷◌,
}
use cluster_api_provider_har.Common.Flow.{Code, modify, next, pure, return, run, skip, ◌>>=◌, ◌>>◌}
use cluster_api_provider_har.Api.Condition.{ConditionType, Conditions, Reason}
use cluster_api_provider_har.Api.Meta.{
  Error, Response, Result, api, error, failed, message, ok, value, wrapped,
}
use cluster_api_provider_har.Cluster.Scope.{
  ClusterScope, log_cluster_call, set_condition, set_ready, update_cluster_spec,
}
use cluster_api_provider_har.Common.Dict.{Dict, lookup}
use cluster_api_provider_har.Harvester.Cluster.{ClusterServers, get_deployment, get_identity_secret}
use cluster_api_provider_har.Harvester.Types.{Secret}
use cluster_api_provider_har.Pool.Store.{value_or_empty}

-- A kubeconfig as `clientcmd.Load` reads it: contexts by their cluster, clusters by their server.
pub record KubeconfigFile : Type 0 where
  pub current_context : String
  pub contexts : Dict String
  pub clusters : Dict String

-- What client-go makes of a kubeconfig: it can be loaded, a REST configuration is made of it, and
-- clients are built with that. The REST configuration is given by the kubeconfig that it is of.
pub record Kubeconfigs : Type 0 where
  pub load : String → Option KubeconfigFile
  pub accepts : String → Bool
  pub builds_client : String → Bool
  pub builds_harvester_client : String → Bool

-- `isHarvesterAvailable`
unfoldable pub is_harvester_available : List (String × String) → Bool
is_harvester_available [] = false
is_harvester_available ((type, status) ∷ rest) =
    (str_eq type "Available" && str_eq status "True") || is_harvester_available rest

-- The server of the cluster that a context has.
unfoldable pub server_of_cluster : KubeconfigFile → String → Result String
server_of_cluster config cluster = elim (lookup cluster config.clusters) [
  | none ↦ error (
      message
        "the provided kubeconfig is malformed, no cluster section corresponds to the cluster name")
  | some server ↦
      if is_empty server
      then error (message "the provided Kubeconfig is malformed, no server found for cluster")
      else value server
]

-- `getHarvesterServerFromKubeconfig`
unfoldable pub get_harvester_server_from_kubeconfig : Kubeconfigs → String → Result String
unfolding server_of_cluster
get_harvester_server_from_kubeconfig kubeconfigs kubeconfig = elim (kubeconfigs.load kubeconfig) [
  | none ↦ error (message "unable to load a valid harvester config from the referenced secret")
  | some config ↦
      if is_empty config.current_context
      then error (message "the provided kubeconfig is malformed: no current-context set")
      else elim (lookup config.current_context config.contexts) [
        | none ↦ error (
            message
              "the provided kubeconfig is malformed, no context section corresponds to the current-context")
        | some cluster ↦ server_of_cluster config cluster
      ]
]

-- The body of the function: an early return has a result.
abbrev pub Connecting : Type 0 → Type 0
Connecting A = Code ClusterScope (Result String) A

module _ (conditions : Conditions) (kubeconfigs : Kubeconfigs) (servers : ClusterServers) where
  abbrev pub set_connection : Bool → Reason → ClusterScope → ClusterScope
  set_connection = set_condition conditions ConditionType.harvester_connection_ready

  -- An early return with the condition False.
  unfoldable pub fail_connection : Reason → Error → {A : Type 0} → Connecting A
  fail_connection reason e = do modify (set_connection false reason); return (error e)

  -- The test of the answer. The address of a fresh literal is no secret's, so that the second half
  -- of the source's test is never true.
  unfoldable pub secret_response : Response Secret → Connecting Secret
  unfolding fail_connection
  secret_response r s = elim r [
    | ok secret ↦ next secret s
    | failed e ↦
        fail_connection Reason.harvester_authentication_failed
          (wrapped "unable to find the IdentitySecret for Harvester" (api e)) (set_ready false s)
  ]

  -- `GetSecretForHarvesterConfig`
  unfoldable pub get_harvester_secret : Connecting Secret
  unfolding secret_response
  get_harvester_secret s =
      let key = s.hv_cluster.spec.identity_secret in
      secret_response (servers.on_get_identity_secret s.calls key.namespace key.name)
        (log_cluster_call (get_identity_secret key.namespace key.name) s)

  unfoldable pub read_server : String → Connecting String
  unfolding fail_connection
  read_server kubeconfig s = elim (get_harvester_server_from_kubeconfig kubeconfigs kubeconfig) [
    | value server ↦ next server s
    | error e ↦ fail_connection Reason.harvester_authentication_failed e (set_ready false s)
  ]

  -- `cluster.Spec.Server = harvesterServer`, where it differs.
  unfoldable pub set_server : String → ClusterScope → ClusterScope
  set_server server s =
      if is_empty s.hv_cluster.spec.server || not (str_eq s.hv_cluster.spec.server server)
      then update_cluster_spec (λ sp. record sp { server = server }) s
      else s

  unfoldable pub build_clients : String → Connecting (Unit {0})
  unfolding fail_connection
  build_clients kubeconfig =
      if not (kubeconfigs.accepts kubeconfig)
      then fail_connection Reason.harvester_connection_failed (message "invalid REST config")
      else if not (kubeconfigs.builds_client kubeconfig)
      then fail_connection Reason.harvester_connection_failed (message "no client for REST config")
      else skip

  unfoldable pub check_deployment : Connecting (Unit {0})
  unfolding fail_connection
  check_deployment s =
      let s' = log_cluster_call (get_deployment "harvester-system" "harvester") s in
      elim (servers.on_get_deployment s.calls "harvester-system" "harvester") [
        | failed e ↦ fail_connection Reason.harvester_connection_failed (api e) s'
        | ok cs ↦
            if is_harvester_available cs
            then next tt s'
            else fail_connection Reason.harvester_connection_failed
                (message "harvester cluster is unavailable") s'
      ]

  unfoldable pub connect : Secret → Connecting (Result String)
  unfolding read_server set_server build_clients check_deployment
  connect secret =
      let kubeconfig = value_or_empty (lookup "kubeconfig" secret.data_entries) in
      (do
        server ← read_server kubeconfig
        modify (set_server server)
        build_clients kubeconfig
        check_deployment
        modify (set_connection true Reason.harvester_connection_ready)
        pure (value kubeconfig))

  -- `reconcileHarvesterConfig`
  unfoldable pub reconcile_harvester_config : ClusterScope → Result String × ClusterScope
  unfolding get_harvester_secret connect
  reconcile_harvester_config = run (do
    modify (set_connection false Reason.harvester_connection_in_progress)
    secret ← get_harvester_secret
    connect secret)
