-- ===== src/Cluster/Reconcile.antt =====
-- `Reconcile` of internal/controller/harvestercluster_controller.go.
pub mod Frozen
use cluster_api_provider_har.Common.{Bool, Option, [], if◌then◌else◌, none, some, ◌||◌}
use cluster_api_provider_har.Api.Cluster.{HarvesterCluster}
use cluster_api_provider_har.Api.Condition.{Conditions, Finalizers}
use cluster_api_provider_har.Api.Meta.{
  Error, Response, Result, api, error, failed, is_not_found, message, ok, value,
}
use cluster_api_provider_har.CloudProvider.Codec.{Codec}
use cluster_api_provider_har.Cluster.Connection.{Kubeconfigs, reconcile_harvester_config}
use cluster_api_provider_har.Cluster.Scope.{ClusterScope, requeue_time_long}
use cluster_api_provider_har.Harvester.Cluster.{ClusterHistory, ClusterServers}
use cluster_api_provider_har.Machine.Scope.{
  Outcome, OwnerCluster, done_result, requeue_in, PausedAnswer,
}
use cluster_api_provider_har.Pool.Allocate.{Allocator}
use cluster_api_provider_har.Pool.Net.{Net}
use cluster_api_provider_har.Cluster.Delete.{reconcile_cluster_delete}
use cluster_api_provider_har.Cluster.Normal.{reconcile_cluster_normal}

-- The answers of the management cluster to this function: the object, the patch helper, the owner,
-- and the paused condition, which is published on the object.
pub record ClusterManagement : Type 0 where
  pub get_cluster : Response HarvesterCluster
  pub new_patch_helper : HarvesterCluster → Option Error
  pub get_owner_cluster : HarvesterCluster → Result (Option OwnerCluster)
  pub ensure_paused_condition : OwnerCluster → HarvesterCluster → PausedAnswer × HarvesterCluster

-- What the function returns, the object that the deferred function patches, if it is reached, and
-- the calls.
pub record Reconciled : Type 0 where
  pub outcome : Outcome
  pub patched : Option HarvesterCluster
  pub calls : ClusterHistory

-- The deferred function: `status.initialization.provisioned` follows `status.ready`.
unfoldable pub patch_cluster : Outcome × HarvesterCluster → ClusterHistory → Reconciled
patch_cluster (out, c) h = record {
  outcome = out;
  patched = some (record c {
    status = record c.status { initialization = record { provisioned = c.status.ready } };
  });
  calls = h;
}

abbrev pub unpatched : Outcome → Reconciled
unpatched out = record { outcome = out; patched = none; calls = [] }

module _ (conditions : Conditions) (servers : ClusterServers) (finalizers : Finalizers)
    (codec : Codec) (net : Net) (allocator : Allocator net) (kubeconfigs : Kubeconfigs) where
  -- The choice between both reconciliations.
  unfoldable pub dispatch : ClusterScope → Outcome × ClusterScope
  dispatch s =
      if s.hv_cluster.meta.is_deleting
      then reconcile_cluster_delete servers conditions finalizers s
      else reconcile_cluster_normal conditions servers finalizers codec net allocator s

  -- The connection to Harvester, and the work.
  unfoldable pub reconcile_connected : ClusterScope → Outcome × ClusterScope
  unfolding dispatch
  reconcile_connected s =
      let (out, s') = reconcile_harvester_config conditions kubeconfigs servers s in
      elim out [
        | error e ↦ ((requeue_in requeue_time_long, some e), s')
        | value kubeconfig ↦
            if kubeconfigs.builds_harvester_client kubeconfig then dispatch s' else (
              (
                requeue_in requeue_time_long,
                some (message "unable to create kubernetes client from restConfig"),
              ),
              s',
            )
      ]

  unfoldable pub reconcile_unpaused : OwnerCluster → HarvesterCluster → Reconciled
  unfolding reconcile_connected patch_cluster
  reconcile_unpaused owner c =
      let (out, s) = reconcile_connected (record { cluster = owner; hv_cluster = c; calls = [] }) in
      patch_cluster (out, s.hv_cluster) s.calls

  module _ (management : ClusterManagement) where
    unfoldable pub reconcile_answered : OwnerCluster → PausedAnswer → HarvesterCluster → Reconciled
    unfolding reconcile_unpaused patch_cluster
    reconcile_answered owner answer c = elim answer.err [
      | some e ↦ patch_cluster ((done_result, some e), c) []
      | none ↦
          if answer.is_paused || answer.requeue
          then patch_cluster ((done_result, none), c) []
          else reconcile_unpaused owner c
    ]

    unfoldable pub reconcile_owned : OwnerCluster → HarvesterCluster → Reconciled
    unfolding reconcile_answered
    reconcile_owned owner c =
        let (answer, c') = management.ensure_paused_condition owner c in
        reconcile_answered owner answer c'

    unfoldable pub reconcile_found : HarvesterCluster → Reconciled
    unfolding reconcile_owned patch_cluster
    reconcile_found c = elim (management.new_patch_helper c) [
      | some e ↦ unpatched (done_result, some e)
      | none ↦ elim (management.get_owner_cluster c) [
        | error e ↦ patch_cluster ((done_result, some e), c) []
        | value none ↦ patch_cluster ((done_result, none), c) []
        | value (some owner) ↦ reconcile_owned owner c
      ]
    ]

    unfoldable pub reconcile_response : Response HarvesterCluster → Reconciled
    unfolding reconcile_found
    reconcile_response (ok c) = reconcile_found c
    reconcile_response (failed e) =
        if is_not_found e
        then unpatched (done_result, none)
        else unpatched (done_result, some (api e))

    -- `Reconcile`
    unfoldable pub reconcile_cluster : Reconciled
    unfolding reconcile_response
    reconcile_cluster = reconcile_response management.get_cluster
