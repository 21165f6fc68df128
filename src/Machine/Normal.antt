-- ===== src/Machine/Normal.antt =====
-- `ReconcileNormal`, `isVMRunning` and `getIPAddressesFromVMI` of
-- internal/controller/harvestermachine_controller.go.
pub mod Quiet
pub mod Creates
pub mod Once
use cluster_api_provider_har.Api.Condition.{
  infrastructure_provisioning_in_progress, vm_ip_allocation_failed, vm_provisioning_failed,
  vm_provisioning_in_progress, machine_not_found, infrastructure_ready, vm_ip_allocated,
  vm_provisioning_ready, machine_created, init_machine_created,
}
use cluster_api_provider_har.Machine.Create.Template.{Json}
use cluster_api_provider_har.Common.{
  List, Option, String, Bool, [], ◌∷◌, none, some, true, false, not, ◌&&◌, if◌then◌else◌, is_empty,
  is_nil, str_eq, str_append, ◌||◌,
}
use cluster_api_provider_har.Common.Flow.{Code, done, next, run, modify, ◌>>=◌, ◌>>◌, Flow}
use cluster_api_provider_har.Api.Condition.{ConditionType, Conditions, Finalizers, Reason}
use cluster_api_provider_har.Api.Machine.{
  MachineAddress, machine_finalizer, machine_finalizer_legacy,
}
use cluster_api_provider_har.Api.Meta.{
  Error, Result, api, error, failed, is_not_found, ok, panic, value,
}
use cluster_api_provider_har.CloudInit.{Yaml}
use cluster_api_provider_har.Etcd.{ClientGo}
use cluster_api_provider_har.FailureDomains.{effective_failure_domain}
use cluster_api_provider_har.Harvester.Types.{
  Servers, VirtualMachine, always, get_vm, get_vmi, halted, manual, once, patch_cluster_status,
  rerun_on_failure,
}
use cluster_api_provider_har.Machine.Address.{allocate_vm_ip}
use cluster_api_provider_har.Machine.Create.{create_vm_from_harvester_machine}
use cluster_api_provider_har.Machine.Scope.{
  Outcome, Scope, done_result, effective_vm_network_config, log_call, minute, requeue_delay,
  requeue_in, requeue_now, requeue_time_short, set_finalizers, set_status,
}
use cluster_api_provider_har.Machine.Workload.{
  get_provider_id_from_workload_cluster, initialize_node,
}
use cluster_api_provider_har.Pool.Allocate.{Allocator}
use cluster_api_provider_har.Pool.Net.{Net}
use cluster_api_provider_har.Webhook.{QuantityParser}

abbrev pub set_ready : Bool → Scope → Scope
set_ready b = set_status (λ st. record st { ready = b })

abbrev pub set_ready_and_provisioned : Bool → Scope → Scope
set_ready_and_provisioned b =
    set_status (λ st. record st { ready = b; initialization = record { provisioned = b } })

-- `isVMRunning`
unfoldable pub is_vm_running : VirtualMachine → Bool
is_vm_running vm = elim vm.run_strategy [
  | none ↦ vm.ready
  | some always ↦ true
  | some rerun_on_failure ↦ true
  | some once ↦ true
  | some manual ↦ false
  | some halted ↦ false
]

-- The loop of `getIPAddressesFromVMI`.
unfoldable pub machine_addresses : List String → List MachineAddress
machine_addresses [] = []
machine_addresses (ip ∷ ips) =
    let rest = machine_addresses ips in
    if is_empty ip then rest else record { type = "ExternalIP"; address = ip } ∷ rest

module _ (finalizers : Finalizers) where
  -- The migration of the legacy finalizer, and the finalizer of a new object.
  unfoldable pub check_finalizers : Code Scope Outcome (Unit {0})
  check_finalizers s =
      let fs = s.hv_machine.meta.finalizers in
      let added = finalizers.add fs machine_finalizer in
      if finalizers.has fs machine_finalizer || s.hv_machine.meta.is_deleting
      then next tt s
      else if finalizers.has fs machine_finalizer_legacy
      then done (done_result, none)
          (set_finalizers (finalizers.remove added machine_finalizer_legacy).0 s)
      else done (done_result, none) (set_ready_and_provisioned false (set_finalizers added s))

module _ (conditions : Conditions) where
  abbrev pub set_condition : ConditionType → Bool → Reason → Scope → Scope
  set_condition type status reason = set_status (λ st. record st {
    conditions =
        conditions.set (record { type = type; status = status; reason = reason }) st.conditions;
  })

  unfoldable pub check_infrastructure : Code Scope Outcome (Unit {0})
  check_infrastructure s = elim s.cluster.infrastructure_provisioned [
    | some true ↦ next tt (set_condition infrastructure_ready true infrastructure_ready s)
    | _ ↦
        done (requeue_in minute, none)
          (set_condition infrastructure_ready false infrastructure_provisioning_in_progress
            (set_ready_and_provisioned false s))
  ]

-- The owner machine is dereferenced.
unfoldable pub check_bootstrap : Code Scope Outcome (Unit {0})
check_bootstrap s = elim s.machine [
  | none ↦ done (done_result, some panic) s
  | some m ↦ elim m.data_secret_name [
    | none ↦ done (requeue_in minute, none) (set_ready_and_provisioned false s)
    | some _ ↦
        next tt (set_status (λ st. record st { failure_domain = effective_failure_domain s }) s)
  ]
]

unfoldable pub static_network : Code Scope Outcome (Unit {0})
static_network s = elim s.hv_machine.spec.network_config [
  | none ↦ next tt s
  | some c ↦ next tt (record s { effective_network_config = some c })
]

module _ (net : Net) (allocator : Allocator net) (conditions : Conditions) (servers : Servers) where
  -- The network from a pool.
  unfoldable pub pool_network : Code Scope Outcome (Unit {0})
  pool_network s =
      let (e, t) = allocate_vm_ip net allocator servers s in
      elim e [
        | some x ↦
            done (requeue_in requeue_time_short, some x)
              (set_condition conditions vm_ip_allocated false vm_ip_allocation_failed t)
        | none ↦ elim (effective_vm_network_config t) [
          | none ↦ done (done_result, some panic) t
          | some cfg ↦ next tt (
              set_condition conditions vm_ip_allocated true vm_ip_allocated (record t {
                effective_network_config = some (record {
                  address = t.hv_machine.status.allocated_ip_address;
                  gateway = cfg.gateway;
                  dns_servers = cfg.dns_servers;
                  dns_search = cfg.dns_search;
                });
              }))
        ]
      ]

  -- The network of the VM: a pool's address, unless the machine has a static one.
  unfoldable pub resolve_network : Code Scope Outcome (Unit {0})
  unfolding pool_network static_network
  resolve_network s = elim (effective_vm_network_config s) [
    | none ↦ static_network s
    | some _ ↦ elim s.hv_machine.spec.network_config [
      | none ↦ pool_network s
      | some _ ↦ static_network s
    ]
  ]

module _ (servers : Servers) where
  -- The VM of the machine's name, if Harvester has one.
  unfoldable pub find_vm : Code Scope Outcome (Option VirtualMachine)
  find_vm s =
      let ns = s.hv_cluster.spec.target_namespace in
      let name = s.hv_machine.meta.name in
      let t = log_call (get_vm ns name) s in
      elim (servers.on_get_vm s.calls ns name) [
        | ok vm ↦ next (if str_eq vm.name name then some vm else none) t
        | failed e ↦
            if is_not_found e
            then next none t
            else done (done_result, some (api e)) (set_ready_and_provisioned false t)
      ]

  -- `getIPAddressesFromVMI`, whose errors all lead to a later look.
  unfoldable pub find_addresses : VirtualMachine → Code Scope Outcome (List MachineAddress)
  find_addresses vm s =
      let t = log_call (get_vmi vm.namespace vm.name) s in
      elim (servers.on_get_vmi s.calls vm.namespace vm.name) [
        | ok instance_ ↦
            next (machine_addresses instance_.ips)
              (set_status (λ st. record st { addresses = machine_addresses instance_.ips }) t)
        | failed _ ↦ done (requeue_in minute, none) (set_ready_and_provisioned false t)
      ]

module _ (conditions : Conditions) (client_go : ClientGo) (servers : Servers) where
  -- Addresses that appeared or went since the last time.
  unfoldable pub check_addresses : List MachineAddress → Code Scope Outcome (Unit {0})
  check_addresses addresses s =
      if is_nil addresses && s.hv_machine.status.ready
      then done (requeue_in minute, none) (set_ready_and_provisioned false s)
      else if not (is_nil addresses) && not s.hv_machine.status.ready
      then done (requeue_now, none)
          (set_condition conditions vm_provisioning_ready true vm_provisioning_ready
            (set_ready_and_provisioned true s))
      else next tt s

  -- The provider ID found, or a made one where the workload cluster does not tell.
  unfoldable pub set_provider_id_of :
      VirtualMachine → Result String × Scope → Flow Scope Outcome (Unit {0})
  set_provider_id_of vm (r, t) =
      let id : String = elim r [ value p ↦ p | error _ ↦ str_append "harvester://" vm.uid ] in
      if is_empty id
      then done (requeue_in minute, none) t
      else next tt (
          set_ready_and_provisioned true (record t {
            hv_machine = record t.hv_machine {
              spec = record t.hv_machine.spec { provider_id = id };
            };
          }))

  unfoldable pub check_provider_id : VirtualMachine → Code Scope Outcome (Unit {0})
  unfolding set_provider_id_of
  check_provider_id vm s =
      if is_empty s.hv_machine.spec.provider_id
      then set_provider_id_of vm (get_provider_id_from_workload_cluster client_go servers s)
      else next tt
          (set_ready true (set_condition conditions machine_created true machine_created s))

  unfoldable pub check_running_vm : VirtualMachine → Code Scope Outcome (Unit {0})
  unfolding check_addresses check_provider_id find_addresses
  check_running_vm vm = do
    addresses ← find_addresses servers vm
    check_addresses addresses
    check_provider_id vm

  -- The part for a VM that exists.
  unfoldable pub check_vm : VirtualMachine → Code Scope Outcome (Unit {0})
  unfolding check_running_vm
  check_vm vm s =
      let t = set_condition conditions vm_provisioning_ready true vm_provisioning_ready s in
      if is_vm_running vm
      then check_running_vm vm t
      else done (requeue_in requeue_time_short, none) (set_ready false t)

  unfoldable pub check_found : Option VirtualMachine → Code Scope Outcome (Unit {0})
  unfolding check_vm
  check_found none s = next tt s
  check_found (some vm) s = check_vm vm s

  -- The status patch on the cluster, whose failure is logged.
  unfoldable pub mark_init_machine : Scope → Scope
  mark_init_machine s =
      if conditions.is_true s.hv_cluster.status.conditions init_machine_created
      then s
      else log_call
          (patch_cluster_status (record s.hv_cluster {
            status = record s.hv_cluster.status {
              conditions =
                  conditions.set
                    (record {
                      type = init_machine_created;
                      status = true;
                      reason = init_machine_created;
                    })
                    s.hv_cluster.status.conditions;
            };
          }))
          s

  -- The last part: a machine that is through is ready, and its node is initialized.
  unfoldable pub finish : Code Scope Outcome Outcome
  finish s =
      let (initialized, t) = initialize_node client_go servers (set_ready true s) in
      next (if initialized then done_result else requeue_in requeue_delay, none) t

module _ (conditions : Conditions) (servers : Servers) (yaml : Yaml) (json : Json)
    (is_quantity : QuantityParser) where
  -- What follows the attempt to create the VM; a panic is not handled.
  unfoldable pub after_creation : Flow Scope Error (Unit {0}) → Flow Scope Outcome (Unit {0})
  after_creation (done panic t) = done (done_result, some panic) t
  after_creation (done e t) =
      done (done_result, some e)
        (set_condition conditions vm_provisioning_ready false vm_provisioning_failed t)
  after_creation (next _ t) =
      next tt (set_ready false (set_condition conditions machine_created true machine_created t))

  unfoldable pub create_missing : Code Scope Outcome (Unit {0})
  unfolding after_creation
  create_missing s = after_creation (
      create_vm_from_harvester_machine servers yaml json is_quantity (
        set_condition conditions vm_provisioning_ready false vm_provisioning_in_progress
          (set_ready false s)))

module _ (conditions : Conditions) (client_go : ClientGo) (servers : Servers) (yaml : Yaml)
    (json : Json) (is_quantity : QuantityParser) where
  -- The VM is created unless the machine says that it was.
  unfoldable pub ensure_created : Option VirtualMachine → Code Scope Outcome (Unit {0})
  unfolding create_missing mark_init_machine
  ensure_created found s =
      if conditions.is_true s.hv_machine.status.conditions machine_created
      then elim found [
        | some _ ↦ next tt s
        | none ↦
            done (requeue_in minute, none)
              (set_condition conditions machine_created false machine_not_found (set_ready false s))
      ]
      else (create_missing conditions servers yaml json is_quantity
            >> modify (mark_init_machine conditions client_go servers))
          s

module _ (net : Net) (allocator : Allocator net) (conditions : Conditions) (finalizers : Finalizers)
    (client_go : ClientGo) (servers : Servers) (yaml : Yaml) (json : Json)
    (is_quantity : QuantityParser) where
  -- Everything up to the look for the VM.
  unfoldable pub prepare_machine : Code Scope Outcome (Unit {0})
  unfolding check_finalizers check_infrastructure check_bootstrap resolve_network
  prepare_machine = do
    check_finalizers finalizers
    check_infrastructure conditions
    check_bootstrap
    resolve_network net allocator conditions servers

  -- `ReconcileNormal`
  unfoldable pub reconcile_normal : Scope → Outcome × Scope
  unfolding prepare_machine find_vm check_found ensure_created finish
  reconcile_normal = run (do
    prepare_machine
    found ← find_vm servers
    check_found conditions client_go servers found
    ensure_created conditions client_go servers yaml json is_quantity found
    finish conditions client_go servers)
