-- ===== src/Cluster/Delete.antt =====
-- `ReconcileDelete` of internal/controller/harvestercluster_controller.go.
pub mod Owned
use cluster_api_provider_har.Common.{String, if◌then◌else◌, none, some, Option}
use cluster_api_provider_har.Common.Flow.{Code, done, modify, next, pure, run, ◌>>=◌, ◌>>◌, return}
use cluster_api_provider_har.Api.Cluster.{
  cluster_finalizer, cluster_finalizer_legacy, VmNetworkConfig,
}
use cluster_api_provider_har.Api.Condition.{ConditionType, Conditions, Finalizers}
use cluster_api_provider_har.Api.Meta.{Response, api, failed, is_not_found, ok, panic}
use cluster_api_provider_har.Cluster.Scope.{
  ClusterScope, generated_name, has_condition, log_cluster_call, requeue_time_long,
  set_cluster_finalizers, target_namespace_of, update_conditions,
}
use cluster_api_provider_har.Harvester.Cluster.{
  ClusterCall, ClusterHistory, ClusterServers, delete_ip_pool, delete_load_balancer, delete_service,
}
use cluster_api_provider_har.Machine.Scope.{Outcome, done_result, requeue_in}

-- A deletion: that there was nothing is no error.
unfoldable pub expect_deleted :
    ClusterCall → (ClusterHistory → Response (Unit {0})) → Code ClusterScope Outcome (Unit {0})
expect_deleted c answer s =
    let s' = log_cluster_call c s in
    elim (answer s.calls) [
      | ok _ ↦ next tt s'
      | failed e ↦
          if is_not_found e
          then next tt s'
          else done (requeue_in requeue_time_long, some (api e)) s'
    ]

module _ (servers : ClusterServers) where
  unfoldable pub expect_pool_deleted : String → Code ClusterScope Outcome (Unit {0})
  unfolding expect_deleted
  expect_pool_deleted name =
      expect_deleted (delete_ip_pool name) (λ h. servers.on_delete_ip_pool h name)

  unfoldable pub delete_load_balancer_of : Code ClusterScope Outcome (Unit {0})
  unfolding expect_deleted
  delete_load_balancer_of s =
      let ns = target_namespace_of s in
      let name = generated_name "lb" s.hv_cluster in
      expect_deleted (delete_load_balancer ns name) (λ h. servers.on_delete_load_balancer h ns name)
        s

  unfoldable pub delete_service_of : Code ClusterScope Outcome (Unit {0})
  unfolding expect_deleted
  delete_service_of s =
      let ns = target_namespace_of s in
      let name = generated_name "lb" s.hv_cluster in
      expect_deleted (delete_service ns name) (λ h. servers.on_delete_service h ns name) s

  unfoldable pub delete_generated_pool : Code ClusterScope Outcome (Unit {0})
  unfolding expect_pool_deleted
  delete_generated_pool s = expect_pool_deleted (generated_name "ippool" s.hv_cluster) s

  module _ (conditions : Conditions) (finalizers : Finalizers) where
    abbrev forget : ConditionType → ClusterScope → ClusterScope
    forget t = update_conditions (conditions.delete t)

    -- The pool of the definition, where the condition says that it was made.
    unfoldable pub delete_custom_pool : Code ClusterScope Outcome (Unit {0})
    unfolding expect_pool_deleted
    delete_custom_pool s =
        if has_condition conditions ConditionType.custom_ip_pool_created s
        then (do
          expect_pool_deleted s.hv_cluster.spec.load_balancer_config.ip_pool_ref
          modify (forget ConditionType.custom_ip_pool_created))
            s
        else next tt s

    -- Without a configuration the source follows a nil pointer.
    unfoldable pub delete_pool_of_config :
        Option VmNetworkConfig → Code ClusterScope Outcome (Unit {0})
    unfolding expect_pool_deleted
    delete_pool_of_config none = return (done_result, some panic)
    delete_pool_of_config (some c) = do
      expect_pool_deleted c.ip_pool_ref
      modify (forget ConditionType.vm_ip_pool_created_by_controller)

    -- The pool of the VMs, where the condition says that the controller made it.
    unfoldable pub delete_vm_pool : Code ClusterScope Outcome (Unit {0})
    unfolding delete_pool_of_config
    delete_vm_pool s =
        if has_condition conditions ConditionType.vm_ip_pool_created_by_controller s
        then delete_pool_of_config s.hv_cluster.spec.vm_network_config s
        else next tt s

    unfoldable pub remove_cluster_finalizers : ClusterScope → ClusterScope
    remove_cluster_finalizers s =
        let (fs, _) = finalizers.remove s.hv_cluster.meta.finalizers cluster_finalizer_legacy in
        let (gs, _) = finalizers.remove fs cluster_finalizer in set_cluster_finalizers gs s

    -- `ReconcileDelete`
    unfoldable pub reconcile_cluster_delete : ClusterScope → Outcome × ClusterScope
    unfolding delete_load_balancer_of delete_custom_pool delete_service_of delete_generated_pool
        delete_vm_pool remove_cluster_finalizers
    reconcile_cluster_delete = run (do
      delete_load_balancer_of
      delete_custom_pool
      delete_service_of
      delete_generated_pool
      delete_vm_pool
      modify remove_cluster_finalizers
      pure (done_result, none))
