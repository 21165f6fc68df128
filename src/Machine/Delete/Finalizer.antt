-- ===== src/Machine/Delete/Finalizer.antt =====
-- When a HarvesterMachine is let go.
use mathlib.Core.Path.{ap₂}
use cluster_api_provider_har.Common.{
  List, String, arith, none, some, true, ◌↔◌, ◌≡◌, ◌⊎◌, inl, inr, refl, str_append, ◌≢◌, eq_iff,
  ◌∙◌, Bool, Bool-cases, subst, sym,
}
use cluster_api_provider_har.Api.Condition.{Finalizers}
use cluster_api_provider_har.Api.Machine.{
  machine_finalizer, machine_finalizer_legacy, HarvesterMachine,
}
use cluster_api_provider_har.Api.Meta.{Error, failed, not_found, ApiError, Response, api, ok}
use cluster_api_provider_har.Etcd.{ClientGo}
use cluster_api_provider_har.Harvester.Types.{History, Servers, VirtualMachine, get_vm}
use cluster_api_provider_har.Machine.Address.{release_vm_ip}
use cluster_api_provider_har.Machine.Scope.{
  CtrlResult, Outcome, Scope, done_result, requeue_delay, requeue_in, log_call, requeue_now,
}
use cluster_api_provider_har.Machine.Workload.{remove_etcd_member_if_control_plane}
use cluster_api_provider_har.Pool.Net.{Net}
use cluster_api_provider_har.Common.Flow.{◌>>◌, Flow, done, next, run}
use cluster_api_provider_har.Machine.Delete.{
  delete_cloud_init, request_vm_deletion, terminate_vm, reconcile_delete, remove_finalizers,
}
use cluster_api_provider_har.Api.Cluster.{HarvesterCluster}

module _ (net : Net) (client_go : ClientGo) (finalizers : Finalizers) (servers : Servers) where
  -- The finalizers after the removal of both.
  abbrev pub cleared : List String → List String
  cleared fs =
      (finalizers.remove (finalizers.remove fs machine_finalizer_legacy).0 machine_finalizer).0

  -- Harvester said that there is no VM of the machine.
  abbrev pub IsGone : Scope → Type 0
  IsGone s =
      (k : History) × (servers.on_get_vm k s.hv_cluster.spec.target_namespace s.hv_machine.meta.name
        ≡ failed not_found)

  -- Either the finalizers are untouched, and the machine is looked at again; or the VM is gone, both
  -- finalizers are removed, and the result is an error exactly when the current one was not there.
  abbrev pub DeleteEnds : Scope → Outcome × Scope → Type 0
  DeleteEnds s end =
      ((end.1.hv_machine ≡ s.hv_machine)
        × (((r : CtrlResult) × (e : Error) × (end.0 ≡ (r, some e)))
            ⊎ (end.0 ≡ (requeue_in requeue_delay, none))))
      ⊎ (IsGone s
          × (end.1.hv_machine ≡ record s.hv_machine {
            meta = record s.hv_machine.meta { finalizers = cleared s.hv_machine.meta.finalizers };
          })
          × (end.0.0 ≡ done_result)
          × ((end.0.1 ≡ none)
              ↔ (finalizers.has s.hv_machine.meta.finalizers machine_finalizer ≡ true)))

  release_vm_ip_keeps :
      (s : Scope)
      → ((release_vm_ip net servers s).hv_machine ≡ s.hv_machine)
        × ((release_vm_ip net servers s).hv_cluster ≡ s.hv_cluster)
  unfolding release_vm_ip
  release_vm_ip_keeps s = ground arith

  remove_etcd_keeps :
      (s : Scope)
      → ((remove_etcd_member_if_control_plane client_go servers s).hv_machine ≡ s.hv_machine)
        × ((remove_etcd_member_if_control_plane client_go servers s).hv_cluster ≡ s.hv_cluster)
  unfolding remove_etcd_member_if_control_plane
  remove_etcd_keeps s = ground arith

  abbrev SameObjects : Scope → Scope → Type 0
  SameObjects s s' = (s'.hv_machine ≡ s.hv_machine) × (s'.hv_cluster ≡ s.hv_cluster)

  abbrev HasError : Outcome → Type 0
  HasError out = (r : CtrlResult) × (e : Error) × (out ≡ (r, some e))

  abbrev SecretStep : Scope → Flow Scope Outcome (Unit {0}) → Type 0
  SecretStep s (next _ s') = SameObjects s s'
  SecretStep s (done out s') = SameObjects s s' × HasError out

  abbrev VmStep : Scope → Flow Scope Outcome (Unit {0}) → Type 0
  VmStep s (next _ s') = SameObjects s s' × IsGone s
  VmStep s (done out s') =
      SameObjects s s' × (HasError out ⊎ (out ≡ (requeue_in requeue_delay, none)))

  delete_cloud_init-SecretStep : (s : Scope) → SecretStep s (delete_cloud_init servers s)
  unfolding delete_cloud_init
  delete_cloud_init-SecretStep s =
      go
        (servers.on_delete_secret s.calls s.hv_cluster.spec.target_namespace
          (str_append s.hv_machine.meta.name "-cloud-init"))
        refl
    where
      go :
          (r : Response (Unit {0}))
          → servers.on_delete_secret s.calls s.hv_cluster.spec.target_namespace
              (str_append s.hv_machine.meta.name "-cloud-init")
            ≡ r
          → SecretStep s (delete_cloud_init servers s)
      go (ok u) p = rw (p, delete_cloud_init) (refl, refl)
      go (failed ApiError.not_found) p = rw (p, delete_cloud_init) (refl, refl)
      go (failed ApiError.already_exists) p =
          rw (p, delete_cloud_init) ((refl, refl), (requeue_now, api ApiError.already_exists, refl))
      go (failed ApiError.other_error) p =
          rw (p, delete_cloud_init) ((refl, refl), (requeue_now, api ApiError.other_error, refl))

  request_vm_deletion-VmStep : (s : Scope) → VmStep s (request_vm_deletion servers s)
  unfolding request_vm_deletion
  request_vm_deletion-VmStep s =
      go (servers.on_delete_vm s.calls s.hv_cluster.spec.target_namespace s.hv_machine.meta.name)
        refl
    where
      go :
          (r : Response (Unit {0}))
          → servers.on_delete_vm s.calls s.hv_cluster.spec.target_namespace s.hv_machine.meta.name
            ≡ r
          → VmStep s (request_vm_deletion servers s)
      go (ok u) p = rw (p, request_vm_deletion) ((refl, refl), inr refl)
      go (failed ApiError.not_found) p = rw (p, request_vm_deletion) ((refl, refl), inr refl)
      go (failed ApiError.already_exists) p =
          rw (p, request_vm_deletion)
            ((refl, refl), inl (requeue_now, api ApiError.already_exists, refl))
      go (failed ApiError.other_error) p =
          rw (p, request_vm_deletion)
            ((refl, refl), inl (requeue_now, api ApiError.other_error, refl))

  terminate_vm-VmStep : (s : Scope) → VmStep s (terminate_vm servers s)
  unfolding terminate_vm
  terminate_vm-VmStep s =
      go (servers.on_get_vm s.calls s.hv_cluster.spec.target_namespace s.hv_machine.meta.name) refl
    where
      s' : Scope
      s' = log_call (get_vm s.hv_cluster.spec.target_namespace s.hv_machine.meta.name) s

      weaken :
          (f : Flow Scope Outcome (Unit {0}))
          → VmStep s' f
          → ((t : Scope) → f ≢ next tt t)
          → VmStep s f
      weaken (next u t) h no_next = absurd (no_next t refl)
      weaken (done out t) h no_next = h

      go :
          (r : Response VirtualMachine)
          → servers.on_get_vm s.calls s.hv_cluster.spec.target_namespace s.hv_machine.meta.name ≡ r
          → VmStep s (terminate_vm servers s)
      go (ok vm) p =
          rw (p, terminate_vm)
            (weaken (request_vm_deletion servers s') (request_vm_deletion-VmStep s')
              (λ t e. ground arith))
      go (failed ApiError.not_found) p = rw (p, terminate_vm) ((refl, refl), (s.calls, p))
      go (failed ApiError.already_exists) p =
          rw (p, terminate_vm) ((refl, refl), inl (requeue_now, api ApiError.already_exists, refl))
      go (failed ApiError.other_error) p =
          rw (p, terminate_vm) ((refl, refl), inl (requeue_now, api ApiError.other_error, refl))

  finalizer_ne_legacy : machine_finalizer ≢ machine_finalizer_legacy
  finalizer_ne_legacy e = cc ((eq_iff machine_finalizer machine_finalizer_legacy).1 e)

  abbrev FinalStep : HarvesterMachine → Outcome × Scope → Type 0
  FinalStep m (out, s') =
      (s'.hv_machine ≡ record m { meta = record m.meta { finalizers = cleared m.meta.finalizers } })
      × (out.0 ≡ done_result)
      × ((out.1 ≡ none) ↔ (finalizers.has m.meta.finalizers machine_finalizer ≡ true))

  remove_finalizers-FinalStep :
      (t : Scope) → FinalStep t.hv_machine (run (remove_finalizers finalizers) t)
  unfolding remove_finalizers
  remove_finalizers-FinalStep t = elim (Bool-cases removed) [
    | inl gone ↦ rw (gone, remove_finalizers) (refl, refl, (λ _. sym reports ∙ gone, λ _. refl))
    | inr kept ↦
        rw (kept, remove_finalizers) (refl, refl, (λ e. cc, λ e. absurd (cc (e, reports, kept))))
  ]
    where
      removed : Bool
      removed =
          (finalizers.remove
            (finalizers.remove t.hv_machine.meta.finalizers machine_finalizer_legacy).0
            machine_finalizer).1

      reports : removed ≡ finalizers.has t.hv_machine.meta.finalizers machine_finalizer
      reports =
          finalizers.remove_reports _ _
          ∙ finalizers.has-remove_ne _ machine_finalizer_legacy machine_finalizer
              finalizer_ne_legacy

  -- The steps after the clean-up, from a scope with the objects of `s`.
  steps_end :
      (s t : Scope)
      → SameObjects s t
      → DeleteEnds s (
          run
            (delete_cloud_init servers >> (terminate_vm servers >> remove_finalizers finalizers))
            t)
  steps_end s t same = secret (delete_cloud_init servers t) (delete_cloud_init-SecretStep t)
    where
      gone_of : (u : Scope) → SameObjects s u → IsGone u → IsGone s
      gone_of u e (k, p) = (
        k,
        ap₂
              (λ (c : HarvesterCluster) (m : HarvesterMachine).
                servers.on_get_vm k c.spec.target_namespace m.meta.name)
              (sym e.1) (sym e.0)
            ∙ p,
      )

      last :
          (f : Flow Scope Outcome (Unit {0})) (u : Scope)
          → SameObjects s u
          → VmStep u f
          → DeleteEnds s (
              run
                (λ _. elim f [ next _ v ↦ remove_finalizers finalizers v | done r v ↦ done r v ])
                u)
      last (next _ v) u e (f, gone) =
          let (x, y, z) =
            subst (λ m. FinalStep m (run (remove_finalizers finalizers) v)) (f.0 ∙ e.0)
              (remove_finalizers-FinalStep v) in
          inr (gone_of u e gone, x, y, z)
      last (done r v) u e (f, out) = inl (f.0 ∙ e.0, out)

      secret :
          (f : Flow Scope Outcome (Unit {0}))
          → SecretStep t f
          → DeleteEnds s (
              run
                (λ _. elim f [
                  | next _ u ↦ (terminate_vm servers >> remove_finalizers finalizers) u
                  | done r u ↦ done r u
                ])
                t)
      secret (next _ u) h =
          last (terminate_vm servers u) u (h.0 ∙ same.0, h.1 ∙ same.1) (terminate_vm-VmStep u)
      secret (done r u) h = inl (h.0.0 ∙ same.0, inl h.1)

  -- `ReconcileDelete` lets a machine go only after Harvester has answered that its VM does not exist;
  -- until then the machine keeps its finalizers, and the reconciler returns an error or comes back
  -- after the delay. When the VM is gone both finalizers are removed, and there is no error exactly
  -- when the current finalizer was there.
  pub reconcile_delete_ends :
      (s : Scope) → DeleteEnds s (reconcile_delete net client_go finalizers servers s)
  unfolding reconcile_delete
  reconcile_delete_ends s =
      let s₁ = release_vm_ip net servers s in
      let s₂ = remove_etcd_member_if_control_plane client_go servers s₁ in
      let (a, b) = release_vm_ip_keeps s in
      let (c, d) = remove_etcd_keeps s₁ in steps_end s s₂ (c ∙ a, d ∙ b)
