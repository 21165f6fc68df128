-- ===== src/Machine/Normal/Creates.antt =====
-- When the normal reconciliation sends a VM.
use cluster_api_provider_har.Api.Condition.{
  infrastructure_ready, vm_ip_allocated, vm_provisioning_ready, machine_created, ConditionType,
  Conditions, Finalizers, Reason,
}
use cluster_api_provider_har.Common.{
  List, Option, String, Bool, none, some, true, ◌≡◌, ◌≢◌, refl, ◌∙◌, ap, inl, inr, ◌⊎◌, arith,
  Bool-cases, is_empty,
}
use cluster_api_provider_har.Common.Flow.{Code, Flow, done, next, ◌>>=◌, ◌>>◌}
use cluster_api_provider_har.Harvester.Types.{Servers, VirtualMachine}
use cluster_api_provider_har.Machine.Create.Quiet.{Keeps, created_vms}
use cluster_api_provider_har.Machine.Normal.{
  check_bootstrap, check_finalizers, check_infrastructure, find_vm, set_condition, static_network,
  check_addresses, check_found, check_provider_id, check_running_vm, check_vm, find_addresses,
  is_vm_running, pool_network, resolve_network, set_provider_id_of, prepare_machine,
}
use cluster_api_provider_har.Machine.Scope.{Outcome, Scope}
use cluster_api_provider_har.Api.Machine.{MachineAddress}
use cluster_api_provider_har.Api.Meta.{Result}
use cluster_api_provider_har.Etcd.{ClientGo}
use cluster_api_provider_har.Machine.Address.{allocate_vm_ip}
use cluster_api_provider_har.Machine.Normal.Quiet.{Calm, allocate_vm_ip-Calm, get_provider_id-Calm}
use cluster_api_provider_har.Machine.Workload.{get_provider_id_from_workload_cluster}
use cluster_api_provider_har.Pool.Allocate.{Allocator}
use cluster_api_provider_har.Pool.Net.{Net}
use cluster_api_provider_har.CloudInit.{Yaml}
use cluster_api_provider_har.Machine.Create.Template.{Json}
use cluster_api_provider_har.Webhook.{QuantityParser}

-- What goes on has kept the facts and, unless it set it, the condition that the VM was created; what
-- returns has sent no VM.
module _ (conditions : Conditions) where
  abbrev pub was_created : Scope → Bool
  was_created s = conditions.is_true s.hv_machine.status.conditions machine_created

  abbrev pub Waits : {A : Type 0} → Scope → Flow Scope Outcome A → Type 0
  Waits s (next _ t) = Keeps s t × ((was_created t ≡ was_created s) ⊎ (was_created t ≡ true))
  Waits s (done _ t) = created_vms t.calls ≡ created_vms s.calls

  Waits-after :
      {A : Type 0} (s t : Scope) (f : Flow Scope Outcome A)
      → Keeps s t
      → (was_created t ≡ was_created s) ⊎ (was_created t ≡ true)
      → Waits t f
      → Waits s f
  Waits-after s t (next a u) k (inl e) (j, inl d) = (j ∙ k, inl (d ∙ e))
  Waits-after s t (next a u) k (inr e) (j, inl d) = (j ∙ k, inr (d ∙ e))
  Waits-after s t (next a u) k c (j, inr d) = (j ∙ k, inr d)
  Waits-after s t (done r u) k c j = j ∙ ap (λ f. f.3) k

  Waits-bind :
      {A B : Type 0} (s : Scope) (m : Code Scope Outcome A) (k : A → Code Scope Outcome B)
      → Waits s (m s)
      → ((a : A) (t : Scope) → Waits t (k a t))
      → Waits s ((m >>= k) s)
  Waits-bind {A} {B} s m k waits then_waits = go (m s) waits
    where
      go :
          (f : Flow Scope Outcome A)
          → Waits s f
          → Waits s (elim f [ next a t ↦ k a t | done r t ↦ done r t ])
      go (next a t) (j, c) = Waits-after s t (k a t) j c (then_waits a t)
      go (done r t) j = j

  -- Another condition does not touch this one.
  other_condition :
      (type : ConditionType) (status : Bool) (reason : Reason) (s : Scope)
      → machine_created ≢ type
      → was_created (set_condition conditions type status reason s) ≡ was_created s
  other_condition type status reason s ne =
      conditions.is_true-set_ne (record { type = type; status = status; reason = reason })
        s.hv_machine.status.conditions machine_created ne

  check_finalizers-Waits :
      (finalizers : Finalizers) (s : Scope) → Waits s (check_finalizers finalizers s)
  unfolding check_finalizers
  check_finalizers-Waits finalizers s = ground arith

  check_infrastructure-Waits : (s : Scope) → Waits s (check_infrastructure conditions s)
  unfolding check_infrastructure
  check_infrastructure-Waits s =
      ground (arith, other_condition infrastructure_ready true infrastructure_ready s (λ e. cc))

  check_bootstrap-Waits : (s : Scope) → Waits s (check_bootstrap s)
  unfolding check_bootstrap
  check_bootstrap-Waits s = ground arith

  static_network-Waits : (s : Scope) → Waits s (static_network s)
  unfolding static_network
  static_network-Waits s = ground arith

  pub find_vm-Waits : (servers : Servers) (s : Scope) → Waits s (find_vm servers s)
  unfolding find_vm
  find_vm-Waits servers s = ground arith

  -- A scope that an allocation or a look at the workload cluster left calm has kept the facts.
  Calm-Keeps : (s t : Scope) → Calm s t → Keeps s t
  Calm-Keeps s t c = cc

  pool_network-Waits :
      (net : Net) (allocator : Allocator net) (servers : Servers) (s : Scope)
      → Waits s (pool_network net allocator conditions servers s)
  unfolding pool_network
  pool_network-Waits net allocator servers s = ground (
    arith,
    allocate_vm_ip-Calm net allocator servers s,
    other_condition vm_ip_allocated true vm_ip_allocated (allocate_vm_ip net allocator servers s).1
        (λ e. cc),
  )

  resolve_network-Waits :
      (net : Net) (allocator : Allocator net) (servers : Servers) (s : Scope)
      → Waits s (resolve_network net allocator conditions servers s)
  unfolding resolve_network
  resolve_network-Waits net allocator servers s =
      ground (arith, pool_network-Waits net allocator servers s, static_network-Waits s)

  find_addresses-Waits :
      (servers : Servers) (vm : VirtualMachine) (s : Scope) → Waits s (find_addresses servers vm s)
  unfolding find_addresses
  find_addresses-Waits servers vm s = ground arith

  check_addresses-Waits :
      (client_go : ClientGo) (servers : Servers) (addresses : List MachineAddress) (s : Scope)
      → Waits s (check_addresses conditions client_go servers addresses s)
  unfolding check_addresses
  check_addresses-Waits client_go servers addresses s = ground arith

  set_provider_id_of-Waits :
      (client_go : ClientGo) (servers : Servers) (vm : VirtualMachine) (s : Scope)
      (out : Result String × Scope)
      → Calm s out.1
      → Waits s (set_provider_id_of conditions client_go servers vm out)
  unfolding set_provider_id_of
  set_provider_id_of-Waits client_go servers vm s out c = ground arith

  check_provider_id-Waits :
      (client_go : ClientGo) (servers : Servers) (vm : VirtualMachine) (s : Scope)
      → Waits s (check_provider_id conditions client_go servers vm s)
  unfolding check_provider_id
  check_provider_id-Waits client_go servers vm s =
      elim (Bool-cases (is_empty s.hv_machine.spec.provider_id)) [
        | inl unset ↦
            rw (unset, check_provider_id)
              (set_provider_id_of-Waits client_go servers vm s
                (get_provider_id_from_workload_cluster client_go servers s)
                (get_provider_id-Calm client_go servers s))
        | inr is_set ↦
            rw (is_set, check_provider_id)
              (
                refl,
                inr (
                    conditions.is_true-set_self
                      (record { type = machine_created; status = true; reason = machine_created })
                      s.hv_machine.status.conditions),
              )
      ]

  check_running_vm-Waits :
      (client_go : ClientGo) (servers : Servers) (vm : VirtualMachine) (s : Scope)
      → Waits s (check_running_vm conditions client_go servers vm s)
  unfolding check_running_vm
  check_running_vm-Waits client_go servers vm s =
      Waits-bind s (find_addresses servers vm)
        (λ addresses.
          check_addresses conditions client_go servers addresses
          >> check_provider_id conditions client_go servers vm)
        (find_addresses-Waits servers vm s)
        (λ addresses t.
          Waits-bind t (check_addresses conditions client_go servers addresses)
            (λ _. check_provider_id conditions client_go servers vm)
            (check_addresses-Waits client_go servers addresses t)
            (λ _ u. check_provider_id-Waits client_go servers vm u))

  pub check_found-Waits :
      (client_go : ClientGo) (servers : Servers) (found : Option VirtualMachine) (s : Scope)
      → Waits s (check_found conditions client_go servers found s)
  unfolding check_found check_vm
  check_found-Waits client_go servers none s = (refl, inl refl)
  check_found-Waits client_go servers (some vm) s = elim (Bool-cases (is_vm_running vm)) [
    | inl runs ↦
        rw (runs, check_vm)
          (Waits-after s
            (set_condition conditions vm_provisioning_ready true vm_provisioning_ready s)
            (check_running_vm conditions client_go servers vm
              (set_condition conditions vm_provisioning_ready true vm_provisioning_ready s))
            refl
            (inl (other_condition vm_provisioning_ready true vm_provisioning_ready s (λ e. cc)))
            (check_running_vm-Waits client_go servers vm
              (set_condition conditions vm_provisioning_ready true vm_provisioning_ready s)))
    | inr stopped ↦ rw (stopped, check_vm) refl
  ]

  pub prepare_machine-Waits :
      (net : Net) (allocator : Allocator net) (finalizers : Finalizers) (client_go : ClientGo)
      (servers : Servers) (yaml : Yaml) (json : Json) (is_quantity : QuantityParser) (s : Scope)
      → Waits s (
          prepare_machine net allocator conditions finalizers client_go servers yaml json
            is_quantity s)
  unfolding prepare_machine
  prepare_machine-Waits net allocator finalizers client_go servers yaml json is_quantity s =
      Waits-bind s (check_finalizers finalizers)
        (λ _.
          check_infrastructure conditions
          >> (check_bootstrap >> resolve_network net allocator conditions servers))
        (check_finalizers-Waits finalizers s)
        (λ _ t.
          Waits-bind t (check_infrastructure conditions)
            (λ _. check_bootstrap >> resolve_network net allocator conditions servers)
            (check_infrastructure-Waits t)
            (λ _ u.
              Waits-bind u check_bootstrap (λ _. resolve_network net allocator conditions servers)
                (check_bootstrap-Waits u) (λ _ v. resolve_network-Waits net allocator servers v)))
