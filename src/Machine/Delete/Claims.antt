-- ===== src/Machine/Delete/Claims.antt =====
-- Which disks are deleted when the VM of a machine is terminated, and when.
use cluster_api_provider_har.Harvester.Types.{
  History, Servers, delete_pvc, list_pvcs, get_vm, VirtualMachine,
}
use cluster_api_provider_har.Machine.Delete.{
  delete_matching, delete_pvcs_by_prefix, request_vm_deletion, terminate_vm,
}
use cluster_api_provider_har.Common.{
  Bool-cases, List, String, [], if◌then◌else◌, inl, inr, refl, some, starts_with, str_append, subst,
  sym, true, ◌↔◌, ◌∷◌, ◌≡◌, ◌≢◌, ◌⊎◌,
}
use cluster_api_provider_har.Common.Flow.{Flow, done, next}
use cluster_api_provider_har.Api.Meta.{
  ApiError, Response, already_exists, api, failed, is_not_found, not_found, ok, other_error,
}
use cluster_api_provider_har.Cluster.Delete.Owned.{later}
use cluster_api_provider_har.Machine.Scope.{Outcome, Scope, log_call, requeue_now}
use cluster_api_provider_har.Pool.Selection.{Any}

-- The disks whose deletion a history requests, with their namespaces.
abbrev pub deleted_pvcs : History → List (String × String)
deleted_pvcs [] = []
deleted_pvcs (delete_pvc ns name ∷ h) = (ns, name) ∷ deleted_pvcs h
deleted_pvcs (_ ∷ h) = deleted_pvcs h

abbrev pub IsDeleted : String → String → History → Type 0
IsDeleted ns name h = Any (λ p. (p.0 ≡ ns) × (p.1 ≡ name)) (deleted_pvcs h)

-- The second history deletes, besides what the first one does, exactly the disks of the list whose
-- name has the prefix, in the namespace.
abbrev pub DeletesAll : String → String → List String → History → History → Type 0
DeletesAll ns prefix pvcs h h' =
    (ns' name : String)
    → IsDeleted ns' name h' ↔ (
        IsDeleted ns' name h
        ⊎ ((ns' ≡ ns) × Any (λ p. p ≡ name) pvcs × (starts_with name prefix ≡ true)))

delete_matching-DeletesAll :
    (ns prefix : String) (pvcs : List String) (h : History)
    → DeletesAll ns prefix pvcs h (delete_matching ns prefix pvcs h)
unfolding delete_matching
delete_matching-DeletesAll ns prefix [] h ns' name =
    (λ m. inl m, elim [ inl m ↦ m | inr x ↦ absurd x.1 ])
delete_matching-DeletesAll ns prefix (pvc ∷ pvcs) h ns' name =
    elim (Bool-cases (starts_with pvc prefix)) [
      | inl matches ↦ rw matches (
          let ih = delete_matching-DeletesAll ns prefix pvcs (delete_pvc ns pvc ∷ h) ns' name in
          (
            λ m. elim (ih.0 m) [
              | inl (inl (e, f)) ↦
                  inr (sym e, inl f, subst (λ p. starts_with p prefix ≡ true) f matches)
              | inl (inr old) ↦ inl old
              | inr (e, later, s) ↦ inr (e, inr later, s)
            ],
            elim [
              | inl old ↦ ih.1 (inl (inr old))
              | inr (e, inl f, s) ↦ ih.1 (inl (inl (sym e, f)))
              | inr (e, inr later, s) ↦ ih.1 (inr (e, later, s))
            ],
          ))
      | inr other ↦ rw other (
          let ih = delete_matching-DeletesAll ns prefix pvcs h ns' name in
          (
            λ m. elim (ih.0 m) [ inl old ↦ inl old | inr (e, later, s) ↦ inr (e, inr later, s) ],
            elim [
              | inl old ↦ ih.1 (inl old)
              | inr (_, inl f, s) ↦ absurd (cc (f, other, s))
              | inr (e, inr later, s) ↦ ih.1 (inr (e, later, s))
            ],
          ))
    ]

module _ (servers : Servers) where
  -- Harvester's answer to the look for the VM of the machine.
  abbrev pub answer_to_look : Scope → Response VirtualMachine
  answer_to_look s =
      servers.on_get_vm s.calls s.hv_cluster.spec.target_namespace s.hv_machine.meta.name

  -- The disks are listed in the target namespace and those of the machine are deleted there, or they
  -- cannot be listed and none is deleted.
  abbrev pub CleansUp : Scope → Scope → Type 0
  CleansUp s t =
      ((h : History) × (e : ApiError) × (servers.on_list_pvcs h s.hv_cluster.spec.target_namespace
          ≡ failed e)
        × (deleted_pvcs t.calls ≡ deleted_pvcs s.calls))
      ⊎ ((h : History) × (pvcs : List String) × (servers.on_list_pvcs h
              s.hv_cluster.spec.target_namespace
            ≡ ok pvcs)
          × DeletesAll s.hv_cluster.spec.target_namespace
              (str_append s.hv_machine.meta.name "-disk-") pvcs s.calls t.calls)

  abbrev pub TerminationEnds : Scope → Flow Scope Outcome (Unit {0}) → Type 0
  TerminationEnds s (next _ t) = (answer_to_look s ≡ failed not_found) × CleansUp s t
  TerminationEnds s (done _ t) =
      (answer_to_look s ≢ failed not_found) × (deleted_pvcs t.calls ≡ deleted_pvcs s.calls)

  delete_pvcs_by_prefix-CleansUp :
      (s : Scope)
      → let ns = s.hv_cluster.spec.target_namespace in
        let name = s.hv_machine.meta.name in
        CleansUp s (record s {
          calls =
              delete_pvcs_by_prefix servers ns
                (str_append name "-disk-")
                (get_vm ns name ∷ s.calls);
        })
  unfolding delete_pvcs_by_prefix
  delete_pvcs_by_prefix-CleansUp s = go (servers.on_list_pvcs h ns) refl
    where
      ns : String
      ns = s.hv_cluster.spec.target_namespace

      prefix : String
      prefix = str_append s.hv_machine.meta.name "-disk-"

      h : History
      h = get_vm ns s.hv_machine.meta.name ∷ s.calls

      go :
          (r : Response (List String))
          → servers.on_list_pvcs h ns ≡ r
          → CleansUp s (record s {
            calls = elim r as (λ _. History) [
              | failed _ ↦ list_pvcs ns ∷ h
              | ok pvcs ↦ delete_matching ns prefix pvcs (list_pvcs ns ∷ h)
            ];
          })
      go (failed e) f = inl (h, e, f, refl)
      go (ok pvcs) f =
          inr (h, pvcs, f, delete_matching-DeletesAll ns prefix pvcs (list_pvcs ns ∷ h))

  -- A step of the termination goes on exactly when Harvester says that there is no VM of the machine. Then it has asked Harvester to delete exactly the disks in the target namespace that Harvester listed there and whose name begins with the name of the machine and -disk-, or none where they could not be listed. Otherwise no disk is deleted.
  pub terminate_vm_ends : (s : Scope) → TerminationEnds s (terminate_vm servers s)
  unfolding terminate_vm request_vm_deletion
  terminate_vm_ends s = go (answer_to_look s) refl
    where
      ns : String
      ns = s.hv_cluster.spec.target_namespace

      name : String
      name = s.hv_machine.meta.name

      s' : Scope
      s' = log_call (get_vm ns name) s

      requested :
          (r : Response (Unit {0}))
          → answer_to_look s ≢ failed not_found
          → servers.on_delete_vm s'.calls ns name ≡ r
          → TerminationEnds s (request_vm_deletion servers s')
      requested (ok _) ne f = rw (f, request_vm_deletion) (ne, refl)
      requested (failed not_found) ne f = rw (f, request_vm_deletion) (ne, refl)
      requested (failed already_exists) ne f = rw (f, request_vm_deletion) (ne, refl)
      requested (failed other_error) ne f = rw (f, request_vm_deletion) (ne, refl)

      go :
          (r : Response VirtualMachine)
          → answer_to_look s ≡ r
          → TerminationEnds s (elim r as (λ _. Flow Scope Outcome (Unit {0})) [
            | ok _ ↦ request_vm_deletion servers s'
            | failed e ↦
                if is_not_found e
                then next tt (record s' {
                  calls = delete_pvcs_by_prefix servers ns (str_append name "-disk-") s'.calls;
                })
                else done (requeue_now, some (api e)) s'
          ])
      go (ok vm) f = requested (servers.on_delete_vm s'.calls ns name) (λ e. cc (e, f)) refl
      go (failed not_found) f = (f, delete_pvcs_by_prefix-CleansUp s)
      go (failed already_exists) f = (λ e. cc (e, f), refl)
      go (failed other_error) f = (λ e. cc (e, f), refl)
