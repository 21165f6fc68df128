-- ===== src/Cluster/Delete/Owned.antt =====
-- What `ReconcileDelete` of a cluster deletes, and when it lets the cluster go.
use mathlib.Core.List.{append_assoc}
use cluster_api_provider_har.Common.{
  List, [], if◌then◌else◌, inl, inr, none, refl, some, ◌++◌, ◌∷◌, ◌≡◌, ◌⊎◌, subst, Option, ap, ◌∙◌,
  Bool-cases, sym, String, false, ◌≢◌,
}
use cluster_api_provider_har.Common.Flow.{Code, Flow, done, next, modify, pure, ◌>>◌}
use cluster_api_provider_har.Api.Condition.{Condition, ConditionType, Conditions, Finalizers}
use cluster_api_provider_har.Api.Meta.{
  Error, Response, already_exists, failed, not_found, ok, other_error, panic,
}
use cluster_api_provider_har.Cluster.Delete.{
  expect_deleted, remove_cluster_finalizers, delete_vm_pool, delete_generated_pool,
  delete_service_of, expect_pool_deleted, delete_custom_pool, delete_load_balancer_of,
  delete_pool_of_config, reconcile_cluster_delete,
}
use cluster_api_provider_har.Cluster.Scope.{
  ClusterScope, generated_name, has_condition, log_cluster_call, requeue_time_long,
  target_namespace_of, update_conditions, set_cluster_finalizers,
}
use cluster_api_provider_har.Harvester.Cluster.{
  ClusterCall, ClusterHistory, ClusterServers, delete_ip_pool, delete_load_balancer, delete_service,
}
use cluster_api_provider_har.Machine.Scope.{Outcome, done_result, requeue_in, CtrlResult}
use cluster_api_provider_har.Api.Cluster.{
  VmNetworkConfig, cluster_finalizer, cluster_finalizer_legacy,
}

-- The answer to a deletion that is no error.
abbrev pub Settles : Response (Unit {0}) → Type 0
Settles r = (r ≡ ok tt) ⊎ (r ≡ failed not_found)

module _ (servers : ClusterServers) (conditions : Conditions) (finalizers : Finalizers) where
  -- The deletion was accepted, or there was nothing to delete.
  abbrev pub IsSettled : ClusterCall → ClusterHistory → Type 0
  IsSettled c h = elim c [
    | delete_load_balancer ns n ↦ Settles (servers.on_delete_load_balancer h ns n)
    | delete_service ns n ↦ Settles (servers.on_delete_service h ns n)
    | delete_ip_pool n ↦ Settles (servers.on_delete_ip_pool h n)
    | _ ↦ ⊥
  ]

  abbrev pub AllSettled : List ClusterCall → ClusterHistory → Type 0
  AllSettled [] h = Unit
  AllSettled (c ∷ cs) h = IsSettled c (cs ++ h) × AllSettled cs h

  -- The pool of the definition, where the controller noted that it made it.
  unfoldable pub custom_pool : ClusterScope → List ClusterCall
  custom_pool s =
      if has_condition conditions ConditionType.custom_ip_pool_created s
      then delete_ip_pool s.hv_cluster.spec.load_balancer_config.ip_pool_ref ∷ []
      else []

  abbrev pub pool_of_config : Option VmNetworkConfig → List ClusterCall
  pool_of_config none = []
  pool_of_config (some c) = delete_ip_pool c.ip_pool_ref ∷ []

  -- The pool of the VMs, where the controller noted that it made it.
  unfoldable pub vm_pool : ClusterScope → List ClusterCall
  vm_pool s =
      if has_condition conditions ConditionType.vm_ip_pool_created_by_controller s
      then pool_of_config s.hv_cluster.spec.vm_network_config
      else []

  abbrev pub lb_deletion : ClusterScope → ClusterCall
  lb_deletion s = delete_load_balancer (target_namespace_of s) (generated_name "lb" s.hv_cluster)

  -- All that is to be deleted, the last one first.
  unfoldable pub deletions : ClusterScope → List ClusterCall
  unfolding custom_pool vm_pool
  deletions s =
      let ns = target_namespace_of s in
      let lb = generated_name "lb" s.hv_cluster in
      vm_pool s
      ++ (delete_ip_pool (generated_name "ippool" s.hv_cluster)
          ∷ delete_service ns lb
          ∷ (custom_pool s ++ (lb_deletion s ∷ [])))

  -- The cluster with other conditions, and with these calls made.
  abbrev pub later : ClusterScope → List Condition → List ClusterCall → ClusterScope
  later s cs part = record (update_conditions (λ _. cs) s) { calls = part ++ s.calls }

  -- An error ended the work after a part of the deletions, and the finalizers are still there.
  abbrev pub IsStopped : ClusterScope → Outcome × ClusterScope → Type 0
  IsStopped s end =
      (cs : List Condition) × (part : List ClusterCall) × (rest : List ClusterCall) × (deletions s
        ≡ rest ++ part)
      × (end.1 ≡ later s cs part)
      × ((e : Error) × (end.0.1 ≡ some e))

  -- The list without the two finalizers of a cluster, and with all others of the first one.
  abbrev pub LacksFinalizers : List String → List String → Type 0
  LacksFinalizers fs fs' =
      (finalizers.has fs' cluster_finalizer ≡ false)
      × (finalizers.has fs' cluster_finalizer_legacy ≡ false)
      × ((f : String)
          → f ≢ cluster_finalizer
          → f ≢ cluster_finalizer_legacy
          → finalizers.has fs' f ≡ finalizers.has fs f)

  -- Everything was deleted and confirmed, and both finalizers are removed.
  abbrev pub IsFinished : ClusterScope → Outcome × ClusterScope → Type 0
  IsFinished s end =
      (cs : List Condition) × (fs : List String) × (end.1
        ≡ set_cluster_finalizers fs (later s cs (deletions s)))
      × LacksFinalizers s.hv_cluster.meta.finalizers fs
      × AllSettled (deletions s) s.calls
      × (end.0 ≡ (done_result, none))

  abbrev pub ClusterDeleteEnds : ClusterScope → Outcome × ClusterScope → Type 0
  ClusterDeleteEnds s end = IsStopped s end ⊎ IsFinished s end

  abbrev Ended : ClusterScope → Flow ClusterScope Outcome Outcome → Type 0
  Ended s f = ClusterDeleteEnds s (elim f [ next r t ↦ (r, t) | done r t ↦ (r, t) ])

  -- A deletion and what comes behind it, `k`.
  after_deletion :
      (c : ClusterCall) (answer : ClusterHistory → Response (Unit {0}))
      (k : Flow ClusterScope Outcome (Unit {0}) → Flow ClusterScope Outcome Outcome)
      (s t : ClusterScope)
      → (Settles (answer t.calls) → Ended s (k (next tt (log_cluster_call c t))))
      → ((e : Error)
          → Ended s (k (done (requeue_in requeue_time_long, some e) (log_cluster_call c t))))
      → Ended s (k (expect_deleted c answer t))
  unfolding expect_deleted
  after_deletion c answer k s t on_next on_done = go (answer t.calls) refl
    where
      go : (r : Response (Unit {0})) → answer t.calls ≡ r → Ended s (k (expect_deleted c answer t))
      go (ok tt) e = rw (e, expect_deleted) (on_next (inl e))
      go (failed not_found) e = rw (e, expect_deleted) (on_next (inr e))
      go (failed already_exists) e = rw (e, expect_deleted) (on_done _)
      go (failed other_error) e = rw (e, expect_deleted) (on_done _)

  abbrev behind :
      {A B : Type 0}
      → Code ClusterScope Outcome B
      → Flow ClusterScope Outcome A
      → Flow ClusterScope Outcome B
  behind k f = elim f [ next _ t ↦ k t | done r t ↦ done r t ]

  let_go : Code ClusterScope Outcome Outcome
  let_go =
      modify (remove_cluster_finalizers servers conditions finalizers) >> pure (done_result, none)

  stopped :
      (s : ClusterScope) (cs : List Condition) (part rest : List ClusterCall) (r : CtrlResult)
      (e : Error)
      → deletions s ≡ rest ++ part
      → Ended s (done (r, some e) (later s cs part))
  stopped s cs part rest r e h = inl (cs, part, rest, h, refl, (e, refl))

  removed-LacksFinalizers :
      (fs : List String)
      → LacksFinalizers fs
          (finalizers.remove (finalizers.remove fs cluster_finalizer_legacy).0 cluster_finalizer).0
  removed-LacksFinalizers fs =
      let gs = (finalizers.remove fs cluster_finalizer_legacy).0 in
      (
        finalizers.has-remove_self gs cluster_finalizer,
        finalizers.has-remove_ne gs cluster_finalizer cluster_finalizer_legacy (λ e. cc)
            ∙ finalizers.has-remove_self fs cluster_finalizer_legacy,
        λ f p q.
            finalizers.has-remove_ne gs cluster_finalizer f p
            ∙ finalizers.has-remove_ne fs cluster_finalizer_legacy f q,
      )

  let_go-Ended :
      (s : ClusterScope) (cs : List Condition) (part : List ClusterCall)
      → deletions s ≡ part
      → AllSettled part s.calls
      → Ended s (let_go (later s cs part))
  unfolding let_go remove_cluster_finalizers
  let_go-Ended s cs part h settled =
      subst (λ p. AllSettled p s.calls → Ended s (let_go (later s cs p))) h
        (λ all. inr (cs, _, refl, removed-LacksFinalizers s.hv_cluster.meta.finalizers, all, refl))
        settled

  config_stage :
      (s : ClusterScope) (cs : List Condition) (part : List ClusterCall)
      (o : Option VmNetworkConfig)
      → deletions s ≡ pool_of_config o ++ part
      → AllSettled part s.calls
      → Ended s
          ((delete_pool_of_config servers conditions finalizers o >> let_go) (later s cs part))
  unfolding delete_pool_of_config expect_pool_deleted
  config_stage s cs part none h settled = stopped s cs part [] done_result panic h
  config_stage s cs part (some c) h settled =
      let d = delete_ip_pool c.ip_pool_ref in
      after_deletion d (λ k. servers.on_delete_ip_pool k c.ip_pool_ref)
        (λ x. behind let_go (
          behind
            (modify (
              update_conditions (conditions.delete ConditionType.vm_ip_pool_created_by_controller)))
            x))
        s (later s cs part) (λ fine. let_go-Ended s _ (d ∷ part) h (fine, settled))
        (λ x. stopped s cs (d ∷ part) [] _ x h)

  -- The pool of the VMs and what comes behind it.
  vm_stage :
      (s : ClusterScope) (cs : List Condition) (part : List ClusterCall)
      → conditions.is_true cs ConditionType.vm_ip_pool_created_by_controller
        ≡ has_condition conditions ConditionType.vm_ip_pool_created_by_controller s
      → deletions s ≡ vm_pool s ++ part
      → AllSettled part s.calls
      → Ended s ((delete_vm_pool servers conditions finalizers >> let_go) (later s cs part))
  unfolding delete_vm_pool vm_pool
  vm_stage s cs part same h settled =
      elim (Bool-cases
        (has_condition conditions ConditionType.vm_ip_pool_created_by_controller s)) [
          | inr absent ↦
              let empty : vm_pool s ≡ [] = rw (absent, vm_pool) refl in
              rw (same, absent, delete_vm_pool)
                (let_go-Ended s cs part (h ∙ ap (λ v. v ++ part) empty) settled)
          | inl present ↦
              let o = s.hv_cluster.spec.vm_network_config in
              let all : vm_pool s ≡ pool_of_config o = rw (present, vm_pool) refl in
              rw (same, present, delete_vm_pool)
                (config_stage s cs part o (h ∙ ap (λ v. v ++ part) all) settled)
        ]

  split_deletions :
      (s : ClusterScope) (part : List ClusterCall)
      → custom_pool s ++ (lb_deletion s ∷ []) ≡ part
      → deletions s
        ≡ (vm_pool s
            ++ (delete_ip_pool (generated_name "ippool" s.hv_cluster)
                ∷ delete_service (target_namespace_of s) (generated_name "lb" s.hv_cluster)
                ∷ []))
          ++ part
  unfolding deletions
  split_deletions s part h =
      let pool = delete_ip_pool (generated_name "ippool" s.hv_cluster) in
      let c = delete_service (target_namespace_of s) (generated_name "lb" s.hv_cluster) in
      ap (λ p. vm_pool s ++ (pool ∷ c ∷ p)) h ∙ sym (append_assoc (vm_pool s) (pool ∷ c ∷ []) part)

  -- The generated pool and what comes behind it.
  pool_stage :
      (s : ClusterScope) (cs : List Condition) (part : List ClusterCall)
      → conditions.is_true cs ConditionType.vm_ip_pool_created_by_controller
        ≡ has_condition conditions ConditionType.vm_ip_pool_created_by_controller s
      → deletions s ≡ vm_pool s ++ (delete_ip_pool (generated_name "ippool" s.hv_cluster) ∷ part)
      → AllSettled part s.calls
      → Ended s (
          (delete_generated_pool servers
              >> (delete_vm_pool servers conditions finalizers >> let_go))
            (later s cs part))
  unfolding delete_generated_pool expect_pool_deleted
  pool_stage s cs part same h settled =
      let c = delete_ip_pool (generated_name "ippool" s.hv_cluster) in
      after_deletion c (λ k. servers.on_delete_ip_pool k (generated_name "ippool" s.hv_cluster))
        (behind (delete_vm_pool servers conditions finalizers >> let_go)) s (later s cs part)
        (λ fine. vm_stage s cs (c ∷ part) same h (fine, settled))
        (λ x. stopped s cs (c ∷ part) (vm_pool s) _ x h)

  -- The service and what comes behind it.
  service_stage :
      (s : ClusterScope) (cs : List Condition) (part : List ClusterCall)
      → conditions.is_true cs ConditionType.vm_ip_pool_created_by_controller
        ≡ has_condition conditions ConditionType.vm_ip_pool_created_by_controller s
      → custom_pool s ++ (lb_deletion s ∷ []) ≡ part
      → AllSettled part s.calls
      → Ended s (
          (delete_service_of servers
              >> (delete_generated_pool servers
                  >> (delete_vm_pool servers conditions finalizers >> let_go)))
            (later s cs part))
  unfolding delete_service_of deletions
  service_stage s cs part same h settled =
      let ns = target_namespace_of s in
      let lb = generated_name "lb" s.hv_cluster in
      let c = delete_service ns lb in
      let pool = delete_ip_pool (generated_name "ippool" s.hv_cluster) in
      let all : deletions s ≡ vm_pool s ++ (pool ∷ c ∷ part) =
        ap (λ p. vm_pool s ++ (pool ∷ c ∷ p)) h in
      after_deletion c (λ k. servers.on_delete_service k ns lb)
        (behind (
          delete_generated_pool servers
          >> (delete_vm_pool servers conditions finalizers >> let_go)))
        s (later s cs part) (λ fine. pool_stage s cs (c ∷ part) same all (fine, settled))
        (λ x.
          stopped s cs (c ∷ part) (vm_pool s ++ (pool ∷ [])) _ x
            (all ∙ sym (append_assoc (vm_pool s) (pool ∷ []) (c ∷ part))))

  split_lb :
      (s : ClusterScope)
      → deletions s
        ≡ (vm_pool s
            ++ (delete_ip_pool (generated_name "ippool" s.hv_cluster)
                ∷ delete_service (target_namespace_of s) (generated_name "lb" s.hv_cluster)
                ∷ custom_pool s))
          ++ (lb_deletion s ∷ [])
  unfolding deletions
  split_lb s = sym (append_assoc (vm_pool s) _ (lb_deletion s ∷ []))

  after_custom : Code ClusterScope Outcome Outcome
  after_custom =
      delete_service_of servers
      >> (delete_generated_pool servers >> (delete_vm_pool servers conditions finalizers >> let_go))

  -- The pool of the definition and what comes behind it.
  custom_stage :
      (s : ClusterScope) (settled : AllSettled (lb_deletion s ∷ []) s.calls)
      → Ended s (
          (delete_custom_pool servers conditions finalizers >> after_custom)
            (later s s.hv_cluster.status.conditions (lb_deletion s ∷ [])))
  unfolding delete_custom_pool expect_pool_deleted custom_pool after_custom
  custom_stage s settled =
      elim (Bool-cases (has_condition conditions ConditionType.custom_ip_pool_created s)) [
        | inr absent ↦
            let empty : custom_pool s ≡ [] = rw (absent, custom_pool) refl in
            rw (absent, delete_custom_pool)
              (service_stage s s.hv_cluster.status.conditions (lb_deletion s ∷ []) refl
                (ap (λ v. v ++ (lb_deletion s ∷ [])) empty) settled)
        | inl present ↦
            let ref = s.hv_cluster.spec.load_balancer_config.ip_pool_ref in
            let c = delete_ip_pool ref in
            let one : custom_pool s ≡ c ∷ [] = rw (present, custom_pool) refl in
            let all : custom_pool s ++ (lb_deletion s ∷ []) ≡ c ∷ lb_deletion s ∷ [] =
              ap (λ v. v ++ (lb_deletion s ∷ [])) one in
            rw (present, delete_custom_pool)
              (after_deletion c (λ k. servers.on_delete_ip_pool k ref)
                (λ x. behind after_custom (
                  behind
                    (modify
                      (update_conditions (conditions.delete ConditionType.custom_ip_pool_created)))
                    x))
                s (later s s.hv_cluster.status.conditions (lb_deletion s ∷ []))
                (λ fine.
                  service_stage s _ (c ∷ lb_deletion s ∷ [])
                    (conditions.is_true-delete_ne ConditionType.custom_ip_pool_created
                      ConditionType.vm_ip_pool_created_by_controller s.hv_cluster.status.conditions
                      (λ e. cc))
                    all (fine, settled))
                (λ x.
                  stopped s s.hv_cluster.status.conditions (c ∷ lb_deletion s ∷ []) _ _ x
                    (split_deletions s _ all)))
      ]

  -- ReconcileDelete of a cluster deletes the load balancer, its service, the generated pool, and the pool of the definition and that of the VMs where a condition says that the controller made them, and nothing else. Either an error ends it after a part of these, with the finalizers and the specification as they were, or all of them were accepted or found nothing, the current and the legacy finalizer are gone, every other finalizer is as it was, and there is no error.
  pub reconcile_cluster_delete_ends :
      (s : ClusterScope)
      → ClusterDeleteEnds s (reconcile_cluster_delete servers conditions finalizers s)
  unfolding reconcile_cluster_delete delete_load_balancer_of after_custom let_go
  reconcile_cluster_delete_ends s =
      let ns = target_namespace_of s in
      let lb = generated_name "lb" s.hv_cluster in
      after_deletion (lb_deletion s) (λ k. servers.on_delete_load_balancer k ns lb)
        (behind (delete_custom_pool servers conditions finalizers >> after_custom)) s s
        (λ fine. custom_stage s (fine, tt))
        (λ x. stopped s s.hv_cluster.status.conditions (lb_deletion s ∷ []) _ _ x (split_lb s))
