-- ===== src/Machine/Reconcile.antt =====
-- `Reconcile` of internal/controller/harvestermachine_controller.go.
pub mod Frozen
use cluster_api_provider_har.Common.{Option, String, [], if◌then◌else◌, none, some, ◌||◌}
use cluster_api_provider_har.Api.Cluster.{HarvesterCluster}
use cluster_api_provider_har.Api.Machine.{HarvesterMachine}
use cluster_api_provider_har.Api.Meta.{
  Error, Response, Result, api, error, failed, is_not_found, ok, value,
}
use cluster_api_provider_har.Harvester.Types.{History, Secret}
use cluster_api_provider_har.Machine.Scope.{
  Outcome, OwnerCluster, OwnerMachine, PausedAnswer, Scope, done_result, requeue_in,
  requeue_time_short,
}

-- The answers of the management cluster to this function: the object, the patch helper and the
-- patch, both owners, the paused condition, which is published on the object, the name in the
-- infrastructure reference of a Cluster, the HarvesterCluster and the secret of Harvester.
pub record MachineManagement : Type 0 where
  pub get_machine : Response HarvesterMachine
  pub new_patch_helper : HarvesterMachine → Option Error
  pub patch : HarvesterMachine → Option Error
  pub get_owner_machine : HarvesterMachine → Result (Option OwnerMachine)
  pub get_cluster_from_metadata : OwnerMachine → Result (Option OwnerCluster)
  pub ensure_paused_condition : OwnerCluster → HarvesterMachine → PausedAnswer × HarvesterMachine
  pub infrastructure_ref : OwnerCluster → String
  pub get_harvester_cluster : String → String → Response HarvesterCluster
  pub get_harvester_secret : String → String → Response Secret

-- What the function returns, the object that the deferred function patches, if it is reached, and
-- the calls on Harvester and the workload cluster.
pub record MachineReconciled : Type 0 where
  pub outcome : Outcome
  pub patched : Option HarvesterMachine
  pub calls : History

abbrev pub unpatched_machine : Outcome → MachineReconciled
unpatched_machine out = record { outcome = out; patched = none; calls = [] }

-- `reconciler` are ReconcileDelete and ReconcileNormal with the client of Harvester that
-- `GetHarvesterClientFromSecret` makes of a secret, which comes with an error or without; the error
-- is only logged, so that the function goes on with whatever client came with it.
module _ (management : MachineManagement) (reconcile_delete_with : Secret → Scope → Outcome × Scope)
    (reconcile_normal_with : Secret → Scope → Outcome × Scope) where
  -- The deferred function: the error of the patch is returned where there is none yet.
  unfoldable pub patch_machine : Outcome → HarvesterMachine → History → MachineReconciled
  patch_machine (r, e) m h = record {
    outcome = (r, elim e [ some x ↦ some x | none ↦ management.patch m ]);
    patched = some m;
    calls = h;
  }

  -- The choice between both reconciliations.
  unfoldable pub dispatch_machine : Secret → Scope → MachineReconciled
  unfolding patch_machine
  dispatch_machine secret s =
      let (out, s') =
        if s.hv_machine.meta.is_deleting
        then reconcile_delete_with secret s
        else reconcile_normal_with secret s in
      patch_machine out s'.hv_machine s'.calls

  -- The HarvesterCluster and the secret, for a machine that is not paused.
  unfoldable pub reconcile_unpaused_machine :
      OwnerMachine → OwnerCluster → HarvesterMachine → MachineReconciled
  unfolding dispatch_machine patch_machine
  reconcile_unpaused_machine machine cluster m =
      elim (management.get_harvester_cluster cluster.namespace
        (management.infrastructure_ref cluster)) [
          | failed e ↦ patch_machine (done_result, some (api e)) m []
          | ok hv_cluster ↦
              let key = hv_cluster.spec.identity_secret in
              elim (management.get_harvester_secret key.namespace key.name) [
                | failed e ↦ patch_machine (done_result, some (api e)) m []
                | ok secret ↦ dispatch_machine secret (record {
                  cluster = cluster;
                  machine = some machine;
                  hv_cluster = hv_cluster;
                  hv_machine = m;
                  effective_network_config = none;
                  calls = [];
                })
              ]
        ]

  unfoldable pub reconcile_answered_machine :
      OwnerMachine → OwnerCluster → PausedAnswer → HarvesterMachine → MachineReconciled
  unfolding reconcile_unpaused_machine patch_machine
  reconcile_answered_machine machine cluster answer m = elim answer.err [
    | some e ↦ patch_machine (done_result, some e) m []
    | none ↦
        if answer.is_paused || answer.requeue
        then patch_machine (done_result, none) m []
        else reconcile_unpaused_machine machine cluster m
  ]

  unfoldable pub reconcile_owned_machine :
      OwnerMachine → OwnerCluster → HarvesterMachine → MachineReconciled
  unfolding reconcile_answered_machine
  reconcile_owned_machine machine cluster m =
      let (answer, m') = management.ensure_paused_condition cluster m in
      reconcile_answered_machine machine cluster answer m'

  -- The owners: without one the function waits.
  unfoldable pub find_owners : HarvesterMachine → MachineReconciled
  unfolding reconcile_owned_machine patch_machine
  find_owners m = elim (management.get_owner_machine m) [
    | error e ↦ patch_machine (done_result, some e) m []
    | value none ↦ patch_machine (requeue_in requeue_time_short, none) m []
    | value (some machine) ↦ elim (management.get_cluster_from_metadata machine) [
      | error e ↦ patch_machine (done_result, some e) m []
      | value none ↦ patch_machine (done_result, none) m []
      | value (some cluster) ↦ reconcile_owned_machine machine cluster m
    ]
  ]

  unfoldable pub reconcile_response_machine : Response HarvesterMachine → MachineReconciled
  unfolding find_owners
  reconcile_response_machine (failed e) =
      if is_not_found e
      then unpatched_machine (done_result, none)
      else unpatched_machine (done_result, some (api e))
  reconcile_response_machine (ok m) = elim (management.new_patch_helper m) [
    | some e ↦ unpatched_machine (done_result, some e)
    | none ↦ find_owners m
  ]

  -- `Reconcile`
  unfoldable pub reconcile_machine : MachineReconciled
  unfolding reconcile_response_machine
  reconcile_machine = reconcile_response_machine management.get_machine
