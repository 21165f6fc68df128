-- ===== src/Cluster/Normal/Endpoint.antt =====
-- The endpoint along `ReconcileNormal` of a cluster.
use cluster_api_provider_har.Cluster.Normal.{
  await_lb_ip, check_cluster_finalizers, check_target_namespace, create_lb, create_target_namespace,
  keep_lb, make_lb, reconcile_cluster_normal, reconcile_lb, reconcile_placeholder, set_endpoint,
  set_infrastructure,
}
use cluster_api_provider_har.Cluster.Endpoint.{
  HasEndpoint, Keeps, Preserves, bind-Keeps, run-Preserves, modify-Keeps, set_condition-HasEndpoint,
  state_of, gets-Keeps, if-Keeps,
}
use cluster_api_provider_har.Common.{List, arith, false, if◌then◌else◌, none, true, Bool, is_nil}
use cluster_api_provider_har.Common.Flow.{modify, next, pure, ◌>>=◌, ◌>>◌}
use cluster_api_provider_har.Api.Condition.{Conditions, Finalizers, ConditionType, Reason}
use cluster_api_provider_har.CloudProvider.Codec.{Codec}
use cluster_api_provider_har.Cluster.Endpoint.Pools.{reconcile_vm_ip_pool-Preserves}
use cluster_api_provider_har.Cluster.LoadBalancer.{
  create_load_balancer_if_not_exists, get_load_balancer_ip,
}
use cluster_api_provider_har.Cluster.Machines.{
  get_owned_cp_harvester_machines, reconcile_failure_domains,
}
use cluster_api_provider_har.Cluster.Scope.{
  ClusterScope, set_ready, has_condition, set_condition, requeue_time_long,
}
use cluster_api_provider_har.Harvester.Cluster.{ClusterServers}
use cluster_api_provider_har.Machine.Scope.{
  Outcome, minute, requeue_in, done_result, requeue_time_short,
}
use cluster_api_provider_har.Pool.Allocate.{Allocator}
use cluster_api_provider_har.Pool.Net.{Net}
use cluster_api_provider_har.Api.Machine.{HarvesterMachine}
use cluster_api_provider_har.Cluster.Endpoint.Config.{
  reconcile_cloud_provider_config-Preserves, reconcile_fleet_integration-HasEndpoint,
}
use cluster_api_provider_har.Cluster.Fleet.{reconcile_fleet_integration}
use cluster_api_provider_har.Cluster.CloudConfig.{reconcile_cloud_provider_config}
use cluster_api_provider_har.Cluster.VmPool.{reconcile_vm_ip_pool}
use cluster_api_provider_har.Cluster.Endpoint.Placeholder.{
  or_return-Keeps, or_return_error-Keeps, reconcile_placeholder-Keeps,
}

check_cluster_finalizers-Keeps :
    (finalizers : Finalizers) → Keeps (check_cluster_finalizers finalizers)
unfolding HasEndpoint Keeps check_cluster_finalizers
check_cluster_finalizers-Keeps finalizers s h = ground arith

module _ (conditions : Conditions) (servers : ClusterServers) where
  check_target_namespace-HasEndpoint :
      (s : ClusterScope) → HasEndpoint s → HasEndpoint (check_target_namespace conditions servers s)
  unfolding HasEndpoint check_target_namespace create_target_namespace
  check_target_namespace-HasEndpoint s h = ground arith

  reconcile_failure_domains-HasEndpoint :
      (s : ClusterScope) → HasEndpoint s → HasEndpoint (reconcile_failure_domains servers s)
  unfolding HasEndpoint reconcile_failure_domains
  reconcile_failure_domains-HasEndpoint s h = ground arith

  get_owned_cp_harvester_machines-Preserves : Preserves (get_owned_cp_harvester_machines servers)
  unfolding HasEndpoint get_owned_cp_harvester_machines
  get_owned_cp_harvester_machines-Preserves s h = ground arith

  create_lb-Keeps : Keeps (create_lb conditions servers)
  unfolding HasEndpoint Keeps create_lb create_load_balancer_if_not_exists
  create_lb-Keeps s h = ground arith

  address_lb-Keeps : Keeps {R = Outcome} {A = Outcome} (do
    ip ← await_lb_ip conditions servers
    modify (set_endpoint ip)
    modify (set_ready true)
    modify
        (set_condition conditions ConditionType.load_balancer_ready true Reason.load_balancer_ready)
    modify (set_infrastructure conditions servers true Reason.infrastructure_ready)
    pure (requeue_in minute, none))
  unfolding HasEndpoint Keeps await_lb_ip get_load_balancer_ip
  address_lb-Keeps s h = ground arith

  make_lb-Keeps : Keeps (make_lb conditions servers)
  unfolding make_lb
  make_lb-Keeps = bind-Keeps _ _ create_lb-Keeps (λ _. address_lb-Keeps)

  note_infrastructure-HasEndpoint :
      (b : Bool) (s : ClusterScope)
      → HasEndpoint s
      → HasEndpoint (
          if b then set_infrastructure conditions servers true Reason.infrastructure_ready s else s)
  unfolding HasEndpoint
  note_infrastructure-HasEndpoint true s h = h
  note_infrastructure-HasEndpoint false s h = h

  keep_lb-Keeps : Keeps (keep_lb conditions servers)
  unfolding Keeps keep_lb
  keep_lb-Keeps s h =
      let t =
        if has_condition conditions ConditionType.load_balancer_ready s
        then set_infrastructure conditions servers true Reason.infrastructure_ready s
        else s in
      go t.hv_cluster.status.ready t (
        note_infrastructure-HasEndpoint
          (has_condition conditions ConditionType.load_balancer_ready s) s h)
    where
      go :
          (b : Bool) (t : ClusterScope)
          → HasEndpoint t
          → HasEndpoint (
              state_of {R = Outcome} {A = Outcome} (
                if b
                then next (done_result, none) (reconcile_fleet_integration conditions servers t)
                else next (done_result, none) t))
      go true t k = reconcile_fleet_integration-HasEndpoint conditions servers t k
      go false t k = k

  reconcile_lb-Keeps : (codec : Codec) → Keeps (reconcile_lb conditions servers codec)
  unfolding reconcile_lb
  reconcile_lb-Keeps codec =
      bind-Keeps _ _
        (or_return_error-Keeps (requeue_in requeue_time_long)
          (reconcile_cloud_provider_config servers codec conditions)
          (reconcile_cloud_provider_config-Preserves servers codec conditions))
        (λ _.
          bind-Keeps _ _
            (modify-Keeps _ _ (
              set_condition-HasEndpoint conditions ConditionType.infrastructure_ready false
                Reason.infrastructure_provisioning_in_progress))
            (λ _.
              bind-Keeps _ _
                (gets-Keeps _ _ (has_condition conditions ConditionType.load_balancer_ready))
                (λ ready. if-Keeps ready _ _ keep_lb-Keeps make_lb-Keeps)))

  normal-Keeps :
      (codec : Codec) (net : Net) (allocator : Allocator net) (machines : List HarvesterMachine)
      → Keeps (
          if is_nil machines
          then reconcile_placeholder conditions servers net allocator
          else reconcile_lb conditions servers codec)
  normal-Keeps codec net allocator machines =
      if-Keeps (is_nil machines) _ _ (reconcile_placeholder-Keeps conditions servers net allocator)
        (reconcile_lb-Keeps codec)

  -- ReconcileNormal of a cluster keeps this: the cluster is not ready, or its endpoint has a host that is not empty and the port 6443.
  pub reconcile_cluster_normal-HasEndpoint :
      (finalizers : Finalizers) (codec : Codec) (net : Net) (allocator : Allocator net)
      (s : ClusterScope)
      → HasEndpoint s
      → HasEndpoint (reconcile_cluster_normal conditions servers finalizers codec net allocator s).1
  unfolding reconcile_cluster_normal
  reconcile_cluster_normal-HasEndpoint finalizers codec net allocator s h =
      run-Preserves _
        (bind-Keeps _ _ (check_cluster_finalizers-Keeps finalizers) (λ _.
          bind-Keeps _ _
            (or_return_error-Keeps (requeue_in requeue_time_short)
              (reconcile_vm_ip_pool conditions servers)
              (reconcile_vm_ip_pool-Preserves conditions servers))
            (λ _.
              bind-Keeps _ _
                (modify-Keeps _ _ (
                  set_condition-HasEndpoint conditions ConditionType.target_namespace_ready false
                    Reason.target_namespace_checking))
                (λ _. bind-Keeps _ _ (modify-Keeps _ _ check_target_namespace-HasEndpoint) (λ _.
                  bind-Keeps _ _ (modify-Keeps _ _ reconcile_failure_domains-HasEndpoint) (λ _.
                    bind-Keeps _ _
                      (or_return-Keeps done_result (get_owned_cp_harvester_machines servers)
                        get_owned_cp_harvester_machines-Preserves)
                      (normal-Keeps codec net allocator)))))))
        s h
