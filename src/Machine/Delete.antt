-- ===== src/Machine/Delete.antt =====
-- `ReconcileDelete` and `deletePVCsByPrefix` of internal/controller/harvestermachine_controller.go.
pub mod Finalizer
pub mod Claims
use cluster_api_provider_har.Common.{
  List, String, [], if◌then◌else◌, none, some, starts_with, str_append, ◌∷◌,
}
use cluster_api_provider_har.Common.Flow.{Code, done, modify, next, run, ◌>>=◌, ◌>>◌}
use cluster_api_provider_har.Api.Condition.{Finalizers}
use cluster_api_provider_har.Api.Machine.{machine_finalizer, machine_finalizer_legacy}
use cluster_api_provider_har.Api.Meta.{api, failed, is_not_found, message, ok}
use cluster_api_provider_har.Etcd.{ClientGo}
use cluster_api_provider_har.Harvester.Types.{
  History, Servers, delete_pvc, delete_secret, delete_vm, get_vm, list_pvcs,
}
use cluster_api_provider_har.Machine.Address.{release_vm_ip}
use cluster_api_provider_har.Machine.Scope.{
  Outcome, Scope, done_result, log_call, requeue_delay, requeue_in, requeue_now, set_finalizers,
}
use cluster_api_provider_har.Machine.Workload.{remove_etcd_member_if_control_plane}
use cluster_api_provider_har.Pool.Net.{Net}

-- The loop of `deletePVCsByPrefix`: a failed deletion is logged and the loop goes on.
unfoldable pub delete_matching : String → String → List String → History → History
delete_matching ns prefix [] h = h
delete_matching ns prefix (pvc ∷ pvcs) h =
    delete_matching ns prefix pvcs (if starts_with pvc prefix then delete_pvc ns pvc ∷ h else h)

module _ (servers : Servers) where
  -- `deletePVCsByPrefix`
  unfoldable pub delete_pvcs_by_prefix : String → String → History → History
  unfolding delete_matching
  delete_pvcs_by_prefix ns prefix h = elim (servers.on_list_pvcs h ns) [
    | failed _ ↦ list_pvcs ns ∷ h
    | ok pvcs ↦ delete_matching ns prefix pvcs (list_pvcs ns ∷ h)
  ]

  -- The cloud-init secret goes first; that it is missing is no error.
  unfoldable pub delete_cloud_init : Code Scope Outcome (Unit {0})
  delete_cloud_init s =
      let ns = s.hv_cluster.spec.target_namespace in
      let name = str_append s.hv_machine.meta.name "-cloud-init" in
      let s' = log_call (delete_secret ns name) s in
      elim (servers.on_delete_secret s.calls ns name) [
        | ok _ ↦ next tt s'
        | failed e ↦ if is_not_found e then next tt s' else done (requeue_now, some (api e)) s'
      ]

  -- The deletion of a VM that is there, after which the reconciler waits.
  unfoldable pub request_vm_deletion : Code Scope Outcome (Unit {0})
  request_vm_deletion s =
      let ns = s.hv_cluster.spec.target_namespace in
      let name = s.hv_machine.meta.name in
      let s' = log_call (delete_vm ns name) s in
      elim (servers.on_delete_vm s.calls ns name) [
        | ok _ ↦ done (requeue_in requeue_delay, none) s'
        | failed e ↦
            if is_not_found e
            then done (requeue_in requeue_delay, none) s'
            else done (requeue_now, some (api e)) s'
      ]

  -- The look for the VM: the disks are cleaned up once it is gone. A VM that is found is never the
  -- address of a fresh literal, so that the source's test against one always passes.
  unfoldable pub terminate_vm : Code Scope Outcome (Unit {0})
  unfolding request_vm_deletion delete_pvcs_by_prefix
  terminate_vm s =
      let ns = s.hv_cluster.spec.target_namespace in
      let name = s.hv_machine.meta.name in
      let s' = log_call (get_vm ns name) s in
      elim (servers.on_get_vm s.calls ns name) [
        | ok _ ↦ request_vm_deletion s'
        | failed e ↦
            if is_not_found e
            then next tt
                (record s' { calls = delete_pvcs_by_prefix ns (str_append name "-disk-") s'.calls })
            else done (requeue_now, some (api e)) s'
      ]

module _ (finalizers : Finalizers) where
  -- Both finalizers are removed; the current one has to be there.
  unfoldable pub remove_finalizers : Code Scope Outcome Outcome
  remove_finalizers s =
      let (fs, _) = finalizers.remove s.hv_machine.meta.finalizers machine_finalizer_legacy in
      let (gs, removed) = finalizers.remove fs machine_finalizer in
      next
        (if removed
          then (done_result, none)
          else (done_result, some (message "unable to remove finalizer from HarvesterMachine")))
        (set_finalizers gs s)

module _ (net : Net) (client_go : ClientGo) (finalizers : Finalizers) (servers : Servers) where
  -- `ReconcileDelete`
  unfoldable pub reconcile_delete : Scope → Outcome × Scope
  unfolding delete_cloud_init terminate_vm remove_finalizers
  reconcile_delete = run (do
    modify (release_vm_ip net servers)
    modify (remove_etcd_member_if_control_plane client_go servers)
    delete_cloud_init servers
    terminate_vm servers
    remove_finalizers finalizers)
