-- ===== src/Cluster/Endpoint/Placeholder.antt =====
-- The endpoint along the placeholder of `ReconcileNormal`.
use cluster_api_provider_har.Cluster.Endpoint.{HasEndpoint, Keeps, Preserves, bind-Keeps, state_of}
use cluster_api_provider_har.Common.{
  Bool-cases, List, Option, String, [], arith, false, if◌then◌else◌, inl, inr, is_empty, none, refl,
  some, str_append, true, ◌∷◌, ◌≡◌,
}
use cluster_api_provider_har.Common.Flow.{Flow, call, done, modify, next, pure, ◌>>=◌, ◌>>◌}
use cluster_api_provider_har.Api.Condition.{Conditions}
use cluster_api_provider_har.Api.Meta.{
  ApiError, Error, Response, Result, api, error, failed, is_already_exists, is_not_found, ok, value,
}
use cluster_api_provider_har.Cluster.Endpoint.Pools.{get_ip_from_ip_pool-Preserves}
use cluster_api_provider_har.Cluster.LoadBalancer.{create_placeholder_svc, lb_name}
use cluster_api_provider_har.Cluster.Normal.{
  Reconciling, address_placeholder, check_placeholder, make_placeholder, or_return, or_return_error,
  placeholder_ip, reconcile_placeholder, send_placeholder, set_endpoint, uses_pool,
}
use cluster_api_provider_har.Cluster.Pools.{get_ip_from_ip_pool}
use cluster_api_provider_har.Cluster.Scope.{
  ClusterScope, log_cluster_call, requeue_time_medium, set_ready, target_namespace_of,
}
use cluster_api_provider_har.Harvester.Cluster.{ClusterServers, Service, get_service}
use cluster_api_provider_har.Machine.Scope.{
  CtrlResult, Outcome, minute, requeue_in, requeue_now, requeue_time_short,
}
use cluster_api_provider_har.Pool.Allocate.{Allocator}
use cluster_api_provider_har.Pool.Net.{Net}

pub or_return-Keeps :
    {A : Type 0} (r : CtrlResult) (f : ClusterScope → Result A × ClusterScope)
    → Preserves f
    → Keeps (or_return r f)
unfolding Keeps
or_return-Keeps {A} r f keep s h = go (f s).0 (f s).1 (keep s h)
  where
    go :
        (out : Result A) (t : ClusterScope)
        → HasEndpoint t
        → HasEndpoint (
            state_of (elim out as (λ _. Flow ClusterScope Outcome A) [
              | value a ↦ next a t
              | error e ↦ done (r, some e) t
            ]))
    go (value a) t k = k
    go (error e) t k = k

pub or_return_error-Keeps :
    (r : CtrlResult) (f : ClusterScope → Option Error × ClusterScope)
    → Preserves f
    → Keeps (or_return_error r f)
unfolding Keeps
or_return_error-Keeps r f keep s h = go (f s).0 (f s).1 (keep s h)
  where
    go :
        (out : Option Error) (t : ClusterScope)
        → HasEndpoint t
        → HasEndpoint (
            state_of (elim out as (λ _. Flow ClusterScope Outcome (Unit {0})) [
              | none ↦ next tt t
              | some e ↦ done (r, some e) t
            ]))
    go none t k = k
    go (some e) t k = k

-- The endpoint is set, and then the cluster is ready.
set_endpoint-HasEndpoint :
    (ip : String)
    → is_empty ip ≡ false
    → (s : ClusterScope) → HasEndpoint (set_ready true (set_endpoint ip s))
unfolding HasEndpoint
set_endpoint-HasEndpoint ip given s = inr (given, refl)

module _ (conditions : Conditions) (servers : ClusterServers) where
  module _ (net : Net) (allocator : Allocator net) where
    placeholder_ip-Keeps :
        (lb_id : String) → Keeps (placeholder_ip conditions servers net allocator lb_id)
    unfolding Keeps placeholder_ip
    placeholder_ip-Keeps lb_id s h = elim (Bool-cases (uses_pool s)) [
      | inl uses ↦ rw uses (
          or_return-Keeps _ (get_ip_from_ip_pool net allocator servers lb_id)
            (get_ip_from_ip_pool-Preserves net allocator servers lb_id) s h)
      | inr other ↦ rw other h
    ]

    placeholder_answer-Keeps :
        (e : Option ApiError)
        → Keeps {R = Outcome} (elim e as (λ _. Reconciling Outcome) [
          | none ↦ pure (requeue_in requeue_time_short, none)
          | some x ↦
              if is_already_exists x
              then pure (requeue_in requeue_time_short, some (api x))
              else pure (requeue_now, some (api x))
        ])
    unfolding HasEndpoint Keeps
    placeholder_answer-Keeps e s h = ground arith

    create_placeholder_svc-Keeps :
        (name ip : String) → Keeps {R = Outcome} (call (create_placeholder_svc servers name ip))
    unfolding HasEndpoint Keeps create_placeholder_svc
    create_placeholder_svc-Keeps name ip s h = ground arith

    make_placeholder-Keeps :
        (name lb_id : String) → Keeps (make_placeholder conditions servers net allocator name lb_id)
    unfolding make_placeholder
    make_placeholder-Keeps name lb_id =
        bind-Keeps _ _ (placeholder_ip-Keeps lb_id)
          (λ ip. bind-Keeps _ _ (create_placeholder_svc-Keeps name ip) placeholder_answer-Keeps)

    send_placeholder-Keeps :
        (svc : Service) → Keeps (send_placeholder conditions servers net allocator svc)
    unfolding HasEndpoint Keeps send_placeholder
    send_placeholder-Keeps svc s h = ground arith

    pool_address-Keeps :
        (svc : Service) (lb_id : String)
        → Keeps {R = Outcome} (do
          ip ←
              or_return
                (requeue_in requeue_time_short)
                (get_ip_from_ip_pool net allocator servers lb_id)
          send_placeholder conditions servers net allocator (record svc { load_balancer_ip = ip }))
    pool_address-Keeps svc lb_id =
        bind-Keeps _ _
          (or_return-Keeps _ _ (get_ip_from_ip_pool-Preserves net allocator servers lb_id))
          (λ ip. send_placeholder-Keeps (record svc { load_balancer_ip = ip }))

    address_placeholder-Keeps :
        (svc : Service) (lb_id : String)
        → Keeps (address_placeholder conditions servers net allocator svc lb_id)
    unfolding Keeps address_placeholder
    address_placeholder-Keeps svc lb_id s h = elim (Bool-cases (uses_pool s)) [
      | inl uses ↦ rw uses (pool_address-Keeps svc lb_id s h)
      | inr other ↦ rw other h
    ]

    check_placeholder-Keeps :
        (svc : Service) (lb_id : String)
        → Keeps (check_placeholder conditions servers net allocator svc lb_id)
    unfolding Keeps check_placeholder
    check_placeholder-Keeps svc lb_id s h = go svc.ingress
      where
        go :
            (ips : List String)
            → HasEndpoint (
                state_of {R = Outcome} {A = Outcome} (
                  (elim ips as (λ _. Reconciling Outcome) [
                    | [] ↦ address_placeholder conditions servers net allocator svc lb_id
                    | ip ∷ _ ↦
                        if is_empty ip
                        then address_placeholder conditions servers net allocator svc lb_id
                        else (do
                          modify (set_endpoint ip)
                          modify (set_ready true)
                          pure (requeue_in minute, none))
                  ])
                    s))
        go [] = address_placeholder-Keeps svc lb_id s h
        go (ip ∷ ips) = elim (Bool-cases (is_empty ip)) [
          | inl e ↦ rw e (address_placeholder-Keeps svc lb_id s h)
          | inr e ↦ rw e (set_endpoint-HasEndpoint ip e s)
        ]

    pub reconcile_placeholder-Keeps : Keeps (reconcile_placeholder conditions servers net allocator)
    unfolding HasEndpoint Keeps reconcile_placeholder
    reconcile_placeholder-Keeps s h = go (servers.on_get_service s.calls ns (lb_name s.hv_cluster))
      where
        ns : String
        ns = target_namespace_of s

        lb_id : String
        lb_id = str_append ns (str_append "/" (lb_name s.hv_cluster))

        t : ClusterScope
        t = log_cluster_call (get_service ns (lb_name s.hv_cluster)) s

        given : HasEndpoint t
        given = h

        go :
            (r : Response Service)
            → HasEndpoint (
                state_of (elim r as (λ _. Flow ClusterScope Outcome Outcome) [
                  | ok svc ↦ check_placeholder conditions servers net allocator svc lb_id t
                  | failed e ↦
                      if is_not_found e
                      then make_placeholder conditions servers net allocator
                          (lb_name s.hv_cluster)
                          lb_id
                          t
                      else next (requeue_in requeue_time_medium, some (api e)) t
                ]))
        go (ok svc) = check_placeholder-Keeps svc lb_id t given
        go (failed e) = elim (Bool-cases (is_not_found e)) [
          | inl missing ↦ rw missing (make_placeholder-Keeps (lb_name s.hv_cluster) lb_id t given)
          | inr other ↦ rw other given
        ]
