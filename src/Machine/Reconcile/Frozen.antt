-- ===== src/Machine/Reconcile/Frozen.antt =====
-- When a machine is left alone.
use cluster_api_provider_har.Common.{
  Option, Option-cases, [], false, inl, inr, none, refl, some, true, ◌≡◌, ◌≢◌, ◌⊎◌, Bool,
  if◌then◌else◌,
}
use cluster_api_provider_har.Api.Cluster.{HarvesterCluster}
use cluster_api_provider_har.Api.Machine.{HarvesterMachine}
use cluster_api_provider_har.Api.Meta.{
  Error, Response, Result, already_exists, api, error, failed, not_found, ok, other_error, value,
}
use cluster_api_provider_har.Harvester.Types.{History, Secret}
use cluster_api_provider_har.Machine.Reconcile.{
  MachineManagement, MachineReconciled, dispatch_machine, find_owners, patch_machine,
  reconcile_machine, reconcile_owned_machine, reconcile_unpaused_machine,
  reconcile_answered_machine, reconcile_response_machine,
}
use cluster_api_provider_har.Machine.Scope.{
  Outcome, OwnerCluster, OwnerMachine, Scope, done_result, requeue_in, requeue_time_short,
}

module _ (management : MachineManagement) (reconcile_delete_with : Secret → Scope → Outcome × Scope)
    (reconcile_normal_with : Secret → Scope → Outcome × Scope) where
  -- The machine was found with both owners, and neither it nor the cluster is paused.
  unfoldable pub IsActiveMachine : Type 0
  IsActiveMachine =
      (m : HarvesterMachine) × (m' : HarvesterMachine) × (machine : OwnerMachine)
      × (cluster : OwnerCluster) × (management.get_machine ≡ ok m)
      × (management.get_owner_machine m ≡ value (some machine))
      × (management.get_cluster_from_metadata machine ≡ value (some cluster))
      × (management.ensure_paused_condition cluster m
          ≡ (record { is_paused = false; requeue = false; err = none }, m'))

  found_active_machine :
      (m m' : HarvesterMachine) (machine : OwnerMachine) (cluster : OwnerCluster)
      → management.get_machine ≡ ok m
      → management.get_owner_machine m ≡ value (some machine)
      → management.get_cluster_from_metadata machine ≡ value (some cluster)
      → management.ensure_paused_condition cluster m
        ≡ (record { is_paused = false; requeue = false; err = none }, m')
      → IsActiveMachine
  unfolding IsActiveMachine
  found_active_machine m m' machine cluster found with_machine with_cluster answer =
      (m, m', machine, cluster, found, with_machine, with_cluster, answer)

  abbrev pub IsMachineLeftAlone : MachineReconciled → Type 0
  IsMachineLeftAlone r = (r.calls ≡ []) ⊎ IsActiveMachine

  -- The error of a patch that failed is not lost.
  abbrev pub ReportsPatch : MachineReconciled → Type 0
  ReportsPatch r =
      (m : HarvesterMachine) (e : Error)
      → r.patched ≡ some m
      → management.patch m ≡ some e
      → r.outcome.1 ≢ none

  abbrev Fine : MachineReconciled → Type 0
  Fine r = IsMachineLeftAlone r × ReportsPatch r

  patch_machine-Fine :
      (out : Outcome) (m : HarvesterMachine) (h : History)
      → (h ≡ []) ⊎ IsActiveMachine
      → Fine (patch_machine management reconcile_delete_with reconcile_normal_with out m h)
  unfolding patch_machine
  patch_machine-Fine (r, some e) m h p = (p, λ k f patched refused n. cc)
  patch_machine-Fine (r, none) m h p = (p, λ k f patched refused n. cc)

  abbrev owned : OwnerMachine → OwnerCluster → HarvesterMachine → MachineReconciled
  owned = reconcile_owned_machine management reconcile_delete_with reconcile_normal_with

  unpaused-Fine :
      (machine : OwnerMachine) (cluster : OwnerCluster) (m : HarvesterMachine)
      → IsActiveMachine
      → Fine (
          reconcile_unpaused_machine management reconcile_delete_with reconcile_normal_with machine
            cluster m)
  unfolding reconcile_unpaused_machine dispatch_machine
  unpaused-Fine machine cluster m active =
      go
        (management.get_harvester_cluster cluster.namespace (management.infrastructure_ref cluster))
        refl
    where
      secret_of :
          (hv_cluster : HarvesterCluster) (r : Response Secret)
          → Fine (elim r as (λ _. MachineReconciled) [
            | failed e ↦
                patch_machine management reconcile_delete_with reconcile_normal_with
                  (done_result, some (api e))
                  m
                  []
            | ok secret ↦
                dispatch_machine management reconcile_delete_with reconcile_normal_with secret
                  (record {
                    cluster = cluster;
                    machine = some machine;
                    hv_cluster = hv_cluster;
                    hv_machine = m;
                    effective_network_config = none;
                    calls = [];
                  })
          ])
      secret_of hv_cluster (failed e) =
          patch_machine-Fine (done_result, some (api e)) m [] (inl refl)
      secret_of hv_cluster (ok secret) =
          let s : Scope = record {
            cluster = cluster;
            machine = some machine;
            hv_cluster = hv_cluster;
            hv_machine = m;
            effective_network_config = none;
            calls = [];
          } in
          let (out, s') =
            if m.meta.is_deleting
            then reconcile_delete_with secret s
            else reconcile_normal_with secret s in
          patch_machine-Fine out s'.hv_machine s'.calls (inr active)

      go :
          (r : Response HarvesterCluster)
          → management.get_harvester_cluster cluster.namespace
              (management.infrastructure_ref cluster)
            ≡ r
          → Fine (
              reconcile_unpaused_machine management reconcile_delete_with reconcile_normal_with
                machine cluster m)
      go (failed e) f =
          rw (f, reconcile_unpaused_machine)
            (patch_machine-Fine (done_result, some (api e)) m [] (inl refl))
      go (ok hv_cluster) f =
          rw (f, reconcile_unpaused_machine)
            (secret_of hv_cluster (
              management.get_harvester_secret hv_cluster.spec.identity_secret.namespace
                hv_cluster.spec.identity_secret.name))

  owned-Fine :
      (machine : OwnerMachine) (cluster : OwnerCluster) (m : HarvesterMachine)
      → management.get_machine ≡ ok m
      → management.get_owner_machine m ≡ value (some machine)
      → management.get_cluster_from_metadata machine ≡ value (some cluster)
      → Fine (owned machine cluster m)
  unfolding reconcile_owned_machine reconcile_answered_machine
  owned-Fine machine cluster m found with_machine with_cluster =
      let a = management.ensure_paused_condition cluster m in
      go a.0.is_paused a.0.requeue a.0.err a.1 refl
    where
      go :
          (p q : Bool) (e : Option Error) (m' : HarvesterMachine)
          → management.ensure_paused_condition cluster m
            ≡ (record { is_paused = p; requeue = q; err = e }, m')
          → Fine (
              reconcile_answered_machine management reconcile_delete_with reconcile_normal_with
                machine cluster
                (record { is_paused = p; requeue = q; err = e })
                m')
      go p q (some e) m' f = patch_machine-Fine (done_result, some e) m' [] (inl refl)
      go true q none m' f = patch_machine-Fine (done_result, none) m' [] (inl refl)
      go false true none m' f = patch_machine-Fine (done_result, none) m' [] (inl refl)
      go false false none m' f =
          unpaused-Fine machine cluster m'
            (found_active_machine m m' machine cluster found with_machine with_cluster f)

  owners-Fine :
      (m : HarvesterMachine)
      → management.get_machine ≡ ok m
      → Fine (find_owners management reconcile_delete_with reconcile_normal_with m)
  unfolding find_owners
  owners-Fine m found = go (management.get_owner_machine m) refl
    where
      of_cluster :
          (machine : OwnerMachine) (c : Result (Option OwnerCluster))
          → management.get_owner_machine m ≡ value (some machine)
          → management.get_cluster_from_metadata machine ≡ c
          → Fine (find_owners management reconcile_delete_with reconcile_normal_with m)
      of_cluster machine (error e) f g =
          rw (f, g, find_owners) (patch_machine-Fine (done_result, some e) m [] (inl refl))
      of_cluster machine (value none) f g =
          rw (f, g, find_owners) (patch_machine-Fine (done_result, none) m [] (inl refl))
      of_cluster machine (value (some cluster)) f g =
          rw (f, g, find_owners) (owned-Fine machine cluster m found f g)

      go :
          (o : Result (Option OwnerMachine))
          → management.get_owner_machine m ≡ o
          → Fine (find_owners management reconcile_delete_with reconcile_normal_with m)
      go (error e) f =
          rw (f, find_owners) (patch_machine-Fine (done_result, some e) m [] (inl refl))
      go (value none) f =
          rw (f, find_owners)
            (patch_machine-Fine (requeue_in requeue_time_short, none) m [] (inl refl))
      go (value (some machine)) f = of_cluster machine _ f refl

  -- Reconcile of a machine makes no call on Harvester or the workload cluster unless the machine was found with its owner machine and their cluster and is not paused; and it returns an error where the patch at its end fails.
  pub reconcile_machine_frozen :
      IsMachineLeftAlone (reconcile_machine management reconcile_delete_with reconcile_normal_with)
      × ReportsPatch (reconcile_machine management reconcile_delete_with reconcile_normal_with)
  unfolding reconcile_machine reconcile_response_machine
  reconcile_machine_frozen = go management.get_machine refl
    where
      go :
          (r : Response HarvesterMachine)
          → management.get_machine ≡ r
          → Fine
              (reconcile_response_machine management reconcile_delete_with reconcile_normal_with r)
      go (failed not_found) f = (inl refl, λ m e patched refused. absurd (cc patched))
      go (failed already_exists) f = (inl refl, λ m e patched refused. absurd (cc patched))
      go (failed other_error) f = (inl refl, λ m e patched refused. absurd (cc patched))
      go (ok m) f = elim (Option-cases (management.new_patch_helper m)) [
        | inr (e, g) ↦
            rw (g, reconcile_response_machine)
              (inl refl, λ k x patched refused. absurd (cc patched))
        | inl g ↦ rw (g, reconcile_response_machine) (owners-Fine m f)
      ]
