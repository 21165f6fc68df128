-- ===== src/Machine/Scope.antt =====
-- The `Scope` of the machine reconciler: the objects that it reads and writes, and the calls made.
use cluster_api_provider_har.Common.{
  Bool, List, Option, String, false, none, some, str_append, true, ℕ, ◌∷◌,
}
use cluster_api_provider_har.Api.Cluster.{HarvesterCluster, VmNetworkConfig}
use cluster_api_provider_har.Api.Machine.{HarvesterMachine, HarvesterMachineStatus, NetworkConfig}
use cluster_api_provider_har.Api.Meta.{Error}
use cluster_api_provider_har.Common.Dict.{Dict}
use cluster_api_provider_har.Harvester.Types.{Call, History}

-- The owner Cluster. `infrastructure_provisioned` is a pointer in the source.
pub record OwnerCluster : Type 0 where
  pub name : String
  pub namespace : String
  pub labels : Dict String
  pub infrastructure_provisioned : Option Bool

-- The owner Machine.
pub record OwnerMachine : Type 0 where
  pub name : String
  pub namespace : String
  pub failure_domain : String
  pub data_secret_name : Option String

pub record Scope : Type 0 where
  pub cluster : OwnerCluster
  pub machine : Option OwnerMachine
  pub hv_cluster : HarvesterCluster
  pub hv_machine : HarvesterMachine
  pub effective_network_config : Option NetworkConfig
  pub calls : History

-- `ctrl.Result`, times in seconds.
pub record CtrlResult : Type 0 where
  pub requeue : Bool
  pub requeue_after : ℕ

abbrev pub done_result : CtrlResult
done_result = record { requeue = false; requeue_after = 0 }

abbrev pub requeue_now : CtrlResult
requeue_now = record { requeue = true; requeue_after = 0 }

abbrev pub requeue_in : ℕ → CtrlResult
requeue_in n = record { requeue = false; requeue_after = n }

-- What a reconcile function returns.
abbrev pub Outcome : Type 0
Outcome = CtrlResult × Option Error

-- `requeueTimeShort`, `requeueDelay` and a minute.
abbrev pub requeue_time_short : ℕ
requeue_time_short = 30

abbrev pub requeue_delay : ℕ
requeue_delay = 10

abbrev pub minute : ℕ
minute = 60

-- What `paused.EnsurePausedCondition` answers.
pub record PausedAnswer : Type 0 where
  pub is_paused : Bool
  pub requeue : Bool
  pub err : Option Error

abbrev pub log_call : Call → Scope → Scope
log_call c s = record s { calls = c ∷ s.calls }

abbrev pub set_status : (HarvesterMachineStatus → HarvesterMachineStatus) → Scope → Scope
set_status f s = record s { hv_machine = record s.hv_machine { status = f s.hv_machine.status } }

abbrev pub set_finalizers : List String → Scope → Scope
set_finalizers fs s = record s {
  hv_machine = record s.hv_machine { meta = record s.hv_machine.meta { finalizers = fs } };
}

-- `effectiveVMNetworkConfig`
unfoldable pub effective_vm_network_config : Scope → Option VmNetworkConfig
effective_vm_network_config s = elim s.hv_machine.spec.vm_network_config [
  | some c ↦ some c
  | none ↦ s.hv_cluster.spec.vm_network_config
]

-- The identity under which a machine holds an address: "namespace/name".
abbrev pub machine_id : HarvesterMachine → String
machine_id m = str_append m.meta.namespace (str_append "/" m.meta.name)
