-- ===== src/Cluster/Normal.antt =====
-- `ReconcileNormal` of internal/controller/harvestercluster_controller.go.
pub mod Endpoint
use cluster_api_provider_har.Common.{
  Bool, Option, String, [], false, if◌then◌else◌, is_empty, is_nil, none, not, some, str_append,
  str_eq, true, ◌&&◌, ◌∷◌,
}
use cluster_api_provider_har.Common.Flow.{
  Code, call, done, gets, modify, next, pure, run, ◌>>=◌, ◌>>◌,
}
use cluster_api_provider_har.Api.Cluster.{cluster_finalizer, cluster_finalizer_legacy}
use cluster_api_provider_har.Api.Condition.{ConditionType, Conditions, Finalizers, Reason}
use cluster_api_provider_har.Api.Meta.{
  Error, Result, api, error, failed, is_already_exists, is_not_found, ok, value, wrapped,
}
use cluster_api_provider_har.CloudProvider.Codec.{Codec}
use cluster_api_provider_har.Cluster.Fleet.{reconcile_fleet_integration}
use cluster_api_provider_har.Cluster.LoadBalancer.{
  api_server_port, create_load_balancer_if_not_exists, create_placeholder_svc, get_load_balancer_ip,
  lb_name,
}
use cluster_api_provider_har.Cluster.Machines.{
  get_owned_cp_harvester_machines, reconcile_failure_domains,
}
use cluster_api_provider_har.Cluster.Scope.{
  ClusterScope, has_condition, log_cluster_call, requeue_time_long, requeue_time_medium,
  set_cluster_finalizers, set_condition, set_ready, target_namespace_of, update_cluster_spec,
}
use cluster_api_provider_har.Cluster.VmPool.{reconcile_vm_ip_pool}
use cluster_api_provider_har.Harvester.Cluster.{
  ClusterServers, Service, create_namespace, get_namespace, get_service, update_service,
}
use cluster_api_provider_har.Machine.Scope.{
  CtrlResult, Outcome, done_result, minute, requeue_in, requeue_now, requeue_time_short,
}
use cluster_api_provider_har.Pool.Allocate.{Allocator}
use cluster_api_provider_har.Pool.Net.{Net}
use cluster_api_provider_har.Cluster.CloudConfig.{reconcile_cloud_provider_config}
use cluster_api_provider_har.Cluster.Pools.{get_ip_from_ip_pool}

abbrev pub Reconciling : Type 0 → Type 0
Reconciling A = Code ClusterScope Outcome A

abbrev pub pool_type : String
pool_type = "pool"

-- `infrav1.POOL` is the type of the addresses.
abbrev pub uses_pool : ClusterScope → Bool
uses_pool s = str_eq s.hv_cluster.spec.load_balancer_config.ipam_type pool_type

abbrev pub set_endpoint : String → ClusterScope → ClusterScope
set_endpoint host =
    update_cluster_spec
      (λ sp. record sp { control_plane_endpoint = record { host = host; port = api_server_port } })

-- An answer, or the return of its error with a result.
abbrev pub or_return :
    {A : Type 0} → CtrlResult → (ClusterScope → Result A × ClusterScope) → Reconciling A
or_return r f s =
    let (out, s') = f s in elim out [ value a ↦ next a s' | error e ↦ done (r, some e) s' ]

abbrev pub or_return_error :
    CtrlResult → (ClusterScope → Option Error × ClusterScope) → Reconciling (Unit {0})
or_return_error r f s =
    let (e, s') = f s in elim e [ none ↦ next tt s' | some x ↦ done (r, some x) s' ]

module _ (finalizers : Finalizers) where
  -- The legacy finalizer is exchanged, and a missing one is added; both end the round.
  unfoldable pub check_cluster_finalizers : Reconciling (Unit {0})
  check_cluster_finalizers s =
      let fs = s.hv_cluster.meta.finalizers in
      if finalizers.has fs cluster_finalizer_legacy && not (finalizers.has fs cluster_finalizer)
      then done (done_result, none)
          (set_cluster_finalizers
            (finalizers.remove (finalizers.add fs cluster_finalizer) cluster_finalizer_legacy).0 s)
      else if not (finalizers.has fs cluster_finalizer)
      then done (done_result, none) (set_cluster_finalizers (finalizers.add fs cluster_finalizer) s)
      else next tt s

module _ (conditions : Conditions) (servers : ClusterServers) where
  abbrev pub set_namespace_ready : Bool → Reason → ClusterScope → ClusterScope
  set_namespace_ready = set_condition conditions ConditionType.target_namespace_ready

  abbrev pub set_infrastructure : Bool → Reason → ClusterScope → ClusterScope
  set_infrastructure = set_condition conditions ConditionType.infrastructure_ready

  -- The target namespace is created where it is missing. Each way but that it was there ends with
  -- the condition False, and none ends the round.
  unfoldable pub create_target_namespace : ClusterScope → ClusterScope
  create_target_namespace s =
      let ns = target_namespace_of s in
      let s' = log_cluster_call (create_namespace ns) s in
      elim (servers.on_create_namespace s.calls ns) [
        | failed _ ↦ set_namespace_ready false Reason.target_namespace_not_ready s'
        | ok _ ↦ set_namespace_ready false Reason.target_namespace_not_ready s'
      ]

  unfoldable pub check_target_namespace : ClusterScope → ClusterScope
  unfolding create_target_namespace
  check_target_namespace s =
      let ns = target_namespace_of s in
      let s' = log_cluster_call (get_namespace ns) s in
      elim (servers.on_get_namespace s.calls ns) [
        | ok _ ↦ set_namespace_ready true Reason.target_namespace_ready s'
        | failed e ↦
            if is_not_found e
            then create_target_namespace s'
            else set_namespace_ready false Reason.target_namespace_not_ready s'
      ]

  module _ (net : Net) (allocator : Allocator net) where
    -- The address of a new placeholder: 0.0.0.0 asks for one by DHCP.
    unfoldable pub placeholder_ip : String → Reconciling String
    placeholder_ip lb_id s =
        if uses_pool s
        then or_return (requeue_in requeue_time_short)
            (get_ip_from_ip_pool net allocator servers lb_id) s
        else next "0.0.0.0" s

    -- No placeholder is there. The error that one exists already is logged and returned all the same.
    unfoldable pub make_placeholder : String → String → Reconciling Outcome
    unfolding placeholder_ip
    make_placeholder name lb_id = do
      lb_ip ← placeholder_ip lb_id
      e ← call (create_placeholder_svc servers name lb_ip)
      (elim e [
        | none ↦ pure (requeue_in requeue_time_short, none)
        | some x ↦
            if is_already_exists x
            then pure (requeue_in requeue_time_short, some (api x))
            else pure (requeue_now, some (api x))
      ])

    -- The update of a placeholder that waits for its address.
    unfoldable pub send_placeholder : Service → Reconciling Outcome
    send_placeholder updated s =
        let s' = log_cluster_call (update_service updated) s in
        elim (servers.on_update_service s.calls updated) [
          | ok _ ↦ next (requeue_now, none) s'
          | failed e ↦
              next
                (
                  requeue_in requeue_time_short,
                  some (wrapped "could not update the placeholder LoadBalancer" (api e)),
                )
                s'
        ]

    unfoldable pub address_placeholder : Service → String → Reconciling Outcome
    unfolding send_placeholder
    address_placeholder svc lb_id s =
        if uses_pool s
        then (do
          ip ←
              or_return (requeue_in requeue_time_short)
                (get_ip_from_ip_pool net allocator servers lb_id)
          send_placeholder (record svc { load_balancer_ip = ip }))
            s
        else next (requeue_in requeue_time_short, none) s

    -- The first address of the placeholder becomes the endpoint.
    unfoldable pub check_placeholder : Service → String → Reconciling Outcome
    unfolding address_placeholder
    check_placeholder svc lb_id = elim svc.ingress [
      | [] ↦ address_placeholder svc lb_id
      | ip ∷ _ ↦ if is_empty ip then address_placeholder svc lb_id else (do
        modify (set_endpoint ip)
        modify (set_ready true)
        pure (requeue_in minute, none))
    ]

    -- No machine of the control plane has a VM yet.
    unfoldable pub reconcile_placeholder : Reconciling Outcome
    unfolding make_placeholder check_placeholder
    reconcile_placeholder s =
        let ns = target_namespace_of s in
        let name = lb_name s.hv_cluster in
        let lb_id = str_append ns (str_append "/" name) in
        let s' = log_cluster_call (get_service ns name) s in
        elim (servers.on_get_service s.calls ns name) [
          | ok svc ↦ check_placeholder svc lb_id s'
          | failed e ↦
              if is_not_found e
              then make_placeholder name lb_id s'
              else next (requeue_in requeue_time_medium, some (api e)) s'
        ]

  -- The load balancer is created, and its address becomes the endpoint.
  unfoldable pub create_lb : Reconciling (Unit {0})
  create_lb s =
      let (e, s') = create_load_balancer_if_not_exists servers s in
      elim e [
        | none ↦ next tt s'
        | some x ↦
            done (requeue_in minute, some x)
              (set_infrastructure false Reason.infrastructure_provisioning_failed s')
      ]

  unfoldable pub await_lb_ip : Reconciling String
  await_lb_ip s =
      let (out, s') = get_load_balancer_ip servers s in
      elim out [
        | value ip ↦ next ip s'
        | error e ↦
            done (requeue_in requeue_time_short, some e)
              (set_infrastructure false Reason.infrastructure_provisioning_in_progress s')
      ]

  unfoldable pub make_lb : Reconciling Outcome
  unfolding create_lb await_lb_ip
  make_lb = do
    create_lb
    ip ← await_lb_ip
    modify (set_endpoint ip)
    modify (set_ready true)
    modify
        (set_condition conditions ConditionType.load_balancer_ready true Reason.load_balancer_ready)
    modify (set_infrastructure true Reason.infrastructure_ready)
    pure (requeue_in minute, none)

  -- The load balancer was made in an earlier round.
  unfoldable pub keep_lb : Reconciling Outcome
  keep_lb s =
      let s' =
        if has_condition conditions ConditionType.load_balancer_ready s
        then set_infrastructure true Reason.infrastructure_ready s
        else s in
      if s'.hv_cluster.status.ready
      then next (done_result, none) (reconcile_fleet_integration conditions servers s')
      else next (done_result, none) s'

  unfoldable pub reconcile_lb : Codec → Reconciling Outcome
  unfolding make_lb keep_lb
  reconcile_lb codec = do
    or_return_error (requeue_in requeue_time_long)
        (reconcile_cloud_provider_config servers codec conditions)
    modify (set_infrastructure false Reason.infrastructure_provisioning_in_progress)
    ready ← gets (has_condition conditions ConditionType.load_balancer_ready)
    (if ready then keep_lb else make_lb)

  module _ (finalizers : Finalizers) (codec : Codec) (net : Net) (allocator : Allocator net) where
    -- `ReconcileNormal`
    unfoldable pub reconcile_cluster_normal : ClusterScope → Outcome × ClusterScope
    unfolding check_cluster_finalizers check_target_namespace reconcile_placeholder reconcile_lb
    reconcile_cluster_normal = run (do
      check_cluster_finalizers finalizers
      or_return_error (requeue_in requeue_time_short) (reconcile_vm_ip_pool conditions servers)
      modify (set_namespace_ready false Reason.target_namespace_checking)
      modify check_target_namespace
      modify (reconcile_failure_domains servers)
      machines ← or_return done_result (get_owned_cp_harvester_machines servers)
      (if is_nil machines then reconcile_placeholder net allocator else reconcile_lb codec))
