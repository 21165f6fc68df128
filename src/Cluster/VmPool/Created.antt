-- ===== src/Cluster/VmPool/Created.antt =====
-- What a successful `reconcileVMIPPool` means, and when the controller says that it made the pool of
-- the VMs.
use cluster_api_provider_har.Common.{
  All, Bool, List, Option, String, [], inl, inr, none, refl, some, true, ◌∙◌, ◌∷◌, ◌≡◌, ◌≢◌, ◌⊎◌,
  ap,
}
use cluster_api_provider_har.Api.Cluster.{IpPool, VmNetworkConfig, get_ip_pool_refs}
use cluster_api_provider_har.Api.Condition.{ConditionType, Conditions, Reason}
use cluster_api_provider_har.Api.Meta.{
  Error, Response, already_exists, failed, not_found, ok, other_error, message,
}
use cluster_api_provider_har.Cluster.Scope.{
  ClusterScope, generated_name, has_condition, log_cluster_call, set_condition,
}
use cluster_api_provider_har.Cluster.VmPool.{
  check_pool_refs, create_vm_pool, note_created_pool, set_vm_pool_ready, set_vm_pool_ref,
  take_existing_pool, vm_pool_to_create, ensure_vm_pool, reconcile_vm_ip_pool, reconcile_vm_network,
  reconcile_network_if_set,
}
use cluster_api_provider_har.Harvester.Cluster.{
  ClusterHistory, ClusterServers, create_ip_pool, get_ip_pool,
}
use cluster_api_provider_har.Pool.Types.{IpPoolResource, Range}

module _ (conditions : Conditions) (servers : ClusterServers) where
  -- Harvester has answered with the pool, at some point of the history.
  abbrev pub IsKnown : String → Type 0
  IsKnown name =
      (h : ClusterHistory) × (pool : IpPoolResource) × (servers.on_get_ip_pool h name ≡ ok pool)

  -- Whether the controller says that it made the pool.
  abbrev pub claims_pool : ClusterScope → Bool
  claims_pool s = has_condition conditions ConditionType.vm_ip_pool_created_by_controller s

  -- The specification and the claim are as before.
  abbrev pub KeepsClaim : ClusterScope → ClusterScope → Type 0
  KeepsClaim s s' = (s'.hv_cluster.spec ≡ s.hv_cluster.spec) × (claims_pool s' ≡ claims_pool s)

  abbrev pub IsFailed : ClusterScope → Option Error × ClusterScope → Type 0
  IsFailed s out = ((e : Error) × (out.0 ≡ some e)) × KeepsClaim s out.1

  -- The configuration refers to the pool, and the specification is otherwise as before.
  abbrev pub RefersTo : IpPoolResource → VmNetworkConfig → ClusterScope → ClusterScope → Type 0
  RefersTo pool c s s' =
      s'.hv_cluster.spec
      ≡ record s.hv_cluster.spec { vm_network_config = some (record c { ip_pool_ref = pool.name }) }

  -- The pool has the generated name, the network and the one range of the definition, and no
  -- address of it is allocated.
  abbrev pub IsPoolOf : ClusterScope → IpPool → IpPoolResource → Type 0
  IsPoolOf s p pool =
      (pool.name ≡ generated_name "vm-ippool" s.hv_cluster)
      × (pool.selector_network ≡ p.vm_network)
      × (pool.status.allocated ≡ none)
      × ((r : Range) × (pool.ranges ≡ r ∷ [])
          × (r.subnet ≡ p.subnet)
          × (r.range_start ≡ p.range_start)
          × (r.range_end ≡ p.range_end)
          × (r.gateway ≡ p.gateway))

  -- The pool of the generated name was there.
  abbrev pub TakesExisting : VmNetworkConfig → ClusterScope → ClusterScope → Type 0
  TakesExisting c s s' =
      (pool : IpPoolResource) × (h : ClusterHistory) × (servers.on_get_ip_pool h
          (generated_name "vm-ippool" s.hv_cluster)
        ≡ ok pool)
      × RefersTo pool c s s'
      × (claims_pool s' ≡ claims_pool s)

  -- Harvester accepted the pool of the definition.
  abbrev pub TakesCreated : IpPool → VmNetworkConfig → ClusterScope → ClusterScope → Type 0
  TakesCreated p c s s' =
      (pool : IpPoolResource) × (sent : IpPoolResource) × (h : ClusterHistory)
      × (servers.on_create_ip_pool h sent ≡ ok pool)
      × IsPoolOf s p sent
      × RefersTo pool c s s'
      × (claims_pool s' ≡ true)

  abbrev pub DefinitionEnds :
      IpPool → VmNetworkConfig → ClusterScope → Option Error × ClusterScope → Type 0
  DefinitionEnds p c s out =
      IsFailed s out ⊎ ((out.0 ≡ none) × (TakesExisting c s out.1 ⊎ TakesCreated p c s out.1))

  abbrev pub RefsEnd : List String → ClusterScope → Option Error × ClusterScope → Type 0
  RefsEnd refs s out = IsFailed s out ⊎ ((out.0 ≡ none) × All IsKnown refs × KeepsClaim s out.1)

  -- By the configuration: nothing to do, the pools that it refers to, or the pool that it defines.
  abbrev pub VmPoolEnds : ClusterScope → Option Error × ClusterScope → Type 0
  VmPoolEnds s out =
      ((s.hv_cluster.spec.vm_network_config ≡ none) × (out ≡ (none, s)))
      ⊎ ((c : VmNetworkConfig) × (s.hv_cluster.spec.vm_network_config ≡ some c)
          × (RefsEnd (get_ip_pool_refs c) s out × (get_ip_pool_refs c ≢ [])
              ⊎ ((get_ip_pool_refs c ≡ [])
                  × (IsFailed s out
                      ⊎ ((p : IpPool) × (c.ip_pool ≡ some p) × DefinitionEnds p c s out)))))

  ready-claim :
      (b : Bool) (reason : Reason) (s : ClusterScope)
      → claims_pool (set_vm_pool_ready conditions servers b reason s) ≡ claims_pool s
  ready-claim b reason s =
      conditions.is_true-set_ne
        (record { type = ConditionType.vm_ip_pool_ready; status = b; reason = reason })
        s.hv_cluster.status.conditions ConditionType.vm_ip_pool_created_by_controller (λ e. cc)

  check_pool_refs-RefsEnd :
      (refs : List String) (s : ClusterScope)
      → RefsEnd refs s (check_pool_refs conditions servers refs s)
  unfolding check_pool_refs
  check_pool_refs-RefsEnd [] s = inr (refl, tt, (refl, ready-claim _ _ s))
  check_pool_refs-RefsEnd (ref ∷ refs) s =
      go (check_pool_refs-RefsEnd refs (log_cluster_call (get_ip_pool ref) s))
        (servers.on_get_ip_pool s.calls ref) refl
    where
      go :
          RefsEnd refs
            (log_cluster_call (get_ip_pool ref) s)
            (check_pool_refs conditions servers refs (log_cluster_call (get_ip_pool ref) s))
          → (r : Response IpPoolResource) → servers.on_get_ip_pool s.calls ref ≡ r
          → RefsEnd (ref ∷ refs) s (check_pool_refs conditions servers (ref ∷ refs) s)
      go rest (ok pool) e =
          rw (e, check_pool_refs)
            (elim rest [
              | inl e ↦ inl e
              | inr (no_error, known, kept) ↦ inr (no_error, ((s.calls, pool, e), known), kept)
            ])
      go rest (failed x) e = rw (e, check_pool_refs) (inl ((_, refl), (refl, ready-claim _ _ s)))

  set_vm_pool_ref-RefersTo :
      (pool : IpPoolResource) (c : VmNetworkConfig) (s : ClusterScope)
      → s.hv_cluster.spec.vm_network_config ≡ some c
      → RefersTo pool c s (set_vm_pool_ref pool.name s)
  unfolding set_vm_pool_ref
  set_vm_pool_ref-RefersTo pool c s has =
      ap
        (λ (o : Option VmNetworkConfig). record s.hv_cluster.spec {
          vm_network_config = elim o as (λ _. Option VmNetworkConfig) [
            | none ↦ none
            | some x ↦ some (record x { ip_pool_ref = pool.name })
          ];
        })
        has

  take_existing_pool_ends :
      (p : IpPool) (c : VmNetworkConfig) (s : ClusterScope)
      → s.hv_cluster.spec.vm_network_config ≡ some c
      → DefinitionEnds p c s
          (take_existing_pool conditions servers (generated_name "vm-ippool" s.hv_cluster) s)
  unfolding take_existing_pool set_vm_pool_ref
  take_existing_pool_ends p c s has =
      go (servers.on_get_ip_pool s.calls (generated_name "vm-ippool" s.hv_cluster)) refl
    where
      go :
          (r : Response IpPoolResource)
          → servers.on_get_ip_pool s.calls (generated_name "vm-ippool" s.hv_cluster) ≡ r
          → DefinitionEnds p c s
              (take_existing_pool conditions servers (generated_name "vm-ippool" s.hv_cluster) s)
      go (ok pool) e =
          rw (e, take_existing_pool)
            (inr (refl, inl (pool, s.calls, e, set_vm_pool_ref-RefersTo pool c s has, refl)))
      go (failed x) e = rw (e, take_existing_pool) (inl ((_, refl), (refl, refl)))

  note_created_pool-claim :
      (pool : IpPoolResource) (s : ClusterScope)
      → claims_pool (note_created_pool conditions servers pool s) ≡ true
  unfolding note_created_pool set_vm_pool_ref
  note_created_pool-claim pool s =
      ready-claim _ _ (
        set_condition conditions ConditionType.vm_ip_pool_created_by_controller true
          Reason.vm_ip_pool_created_by_controller (set_vm_pool_ref pool.name s))
      ∙ conditions.is_true-set_self
          (record {
            type = ConditionType.vm_ip_pool_created_by_controller;
            status = true;
            reason = Reason.vm_ip_pool_created_by_controller;
          })
          s.hv_cluster.status.conditions

  create_vm_pool_ends :
      (p : IpPool) (c : VmNetworkConfig) (s : ClusterScope)
      → s.hv_cluster.spec.vm_network_config ≡ some c
      → DefinitionEnds p c s (create_vm_pool conditions servers p s)
  unfolding create_vm_pool note_created_pool set_vm_pool_ref vm_pool_to_create
  create_vm_pool_ends p c s has =
      go (servers.on_create_ip_pool s.calls (vm_pool_to_create s.hv_cluster p)) refl
    where
      s' : ClusterScope
      s' = log_cluster_call (create_ip_pool (vm_pool_to_create s.hv_cluster p)) s

      go :
          (r : Response IpPoolResource)
          → servers.on_create_ip_pool s.calls (vm_pool_to_create s.hv_cluster p) ≡ r
          → DefinitionEnds p c s (create_vm_pool conditions servers p s)
      go (ok pool) e =
          rw (e, create_vm_pool)
            (inr (
              refl,
              inr (
                pool,
                vm_pool_to_create s.hv_cluster p,
                s.calls,
                e,
                (refl, refl, refl, (_, refl, refl, refl, refl, refl)),
                set_vm_pool_ref-RefersTo pool c s has,
                note_created_pool-claim pool s',
              ),
            ))
      go (failed already_exists) e = rw (e, create_vm_pool) (take_existing_pool_ends p c s' has)
      go (failed not_found) e = rw (e, create_vm_pool) (inl ((_, refl), (refl, ready-claim _ _ s)))
      go (failed other_error) e =
          rw (e, create_vm_pool) (inl ((_, refl), (refl, ready-claim _ _ s)))

  ensure_vm_pool_ends :
      (p : IpPool) (c : VmNetworkConfig) (s : ClusterScope)
      → s.hv_cluster.spec.vm_network_config ≡ some c
      → DefinitionEnds p c s (ensure_vm_pool conditions servers p s)
  unfolding ensure_vm_pool set_vm_pool_ref
  ensure_vm_pool_ends p c s has = go (servers.on_get_ip_pool s.calls pool_name) refl
    where
      pool_name : String
      pool_name = generated_name "vm-ippool" s.hv_cluster

      go :
          (r : Response IpPoolResource)
          → servers.on_get_ip_pool s.calls pool_name ≡ r
          → DefinitionEnds p c s (ensure_vm_pool conditions servers p s)
      go (ok pool) e =
          rw (e, ensure_vm_pool)
            (inr (
              refl,
              inl (
                pool,
                s.calls,
                e,
                set_vm_pool_ref-RefersTo pool c s has,
                ready-claim _ _ (set_vm_pool_ref pool.name s),
              ),
            ))
      go (failed not_found) e =
          rw (e, ensure_vm_pool)
            (create_vm_pool_ends p c (log_cluster_call (get_ip_pool pool_name) s) has)
      go (failed already_exists) e = rw (e, ensure_vm_pool) (inl ((_, refl), (refl, refl)))
      go (failed other_error) e = rw (e, ensure_vm_pool) (inl ((_, refl), (refl, refl)))

  abbrev pub NetworkEnds : VmNetworkConfig → ClusterScope → Option Error × ClusterScope → Type 0
  NetworkEnds c s out =
      (RefsEnd (get_ip_pool_refs c) s out × (get_ip_pool_refs c ≢ []))
      ⊎ ((get_ip_pool_refs c ≡ [])
          × (IsFailed s out ⊎ ((p : IpPool) × (c.ip_pool ≡ some p) × DefinitionEnds p c s out)))

  reconcile_vm_network_ends :
      (c : VmNetworkConfig) (s : ClusterScope)
      → s.hv_cluster.spec.vm_network_config ≡ some c
      → NetworkEnds c s (reconcile_vm_network conditions servers c s)
  unfolding reconcile_vm_network
  reconcile_vm_network_ends c s has = go (get_ip_pool_refs c) refl
    where
      go :
          (refs : List String)
          → get_ip_pool_refs c ≡ refs
          → NetworkEnds c s (reconcile_vm_network conditions servers c s)
      go (ref ∷ refs) e =
          rw (e, reconcile_vm_network) (inl (check_pool_refs-RefsEnd (ref ∷ refs) s, λ f. cc))
      go [] e = rw (e, reconcile_vm_network) (inr (refl, defined c.ip_pool refl))
        where
          defined :
              (o : Option IpPool)
              → c.ip_pool ≡ o
              → let out : Option Error × ClusterScope = elim o [
                | none ↦ (
                  some (message "VMNetworkConfig requires either IPPoolRef or IPPool to be set"),
                  s,
                )
                | some p ↦ ensure_vm_pool conditions servers p s
              ] in
                IsFailed s out ⊎ ((p : IpPool) × (c.ip_pool ≡ some p) × DefinitionEnds p c s out)
          defined none f = inl ((_, refl), (refl, refl))
          defined (some p) f = inr (p, f, ensure_vm_pool_ends p c s has)

  -- Without a configuration of the VM network reconcileVMIPPool does nothing. With references it succeeds only when Harvester has shown each of these pools. With a definition it succeeds only when the pool of the generated name was there, or Harvester has accepted a pool of that name with the network and the range of the definition, and then the condition says that the controller made it; the reference becomes the name of the pool that was answered, and nothing else of the specification changes. After an error, specification and condition are as before.
  pub reconcile_vm_ip_pool_ends :
      (s : ClusterScope) → VmPoolEnds s (reconcile_vm_ip_pool conditions servers s)
  unfolding reconcile_vm_ip_pool reconcile_network_if_set
  reconcile_vm_ip_pool_ends s = go s.hv_cluster.spec.vm_network_config refl
    where
      go :
          (o : Option VmNetworkConfig)
          → s.hv_cluster.spec.vm_network_config ≡ o
          → VmPoolEnds s (reconcile_network_if_set conditions servers o s)
      go none e = inl (e, refl)
      go (some c) e = inr (c, e, reconcile_vm_network_ends c s e)
