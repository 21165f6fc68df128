-- ===== src/Harvester/Types.antt =====
-- The objects that are sent and received, the calls and the servers' answers.
use cluster_api_provider_har.Common.{Bool, List, Option, String, ℕ}
use cluster_api_provider_har.Api.Cluster.{HarvesterCluster}
use cluster_api_provider_har.Api.Machine.{NodeAffinity, PodAffinity}
use cluster_api_provider_har.Api.Meta.{Response}
use cluster_api_provider_har.Common.Dict.{Dict}
use cluster_api_provider_har.Pool.Types.{IpPoolResource}

-- What `RunStrategy()` of a kubevirt VirtualMachine answers.
pub data RunStrategy : Type 0 where
  always rerun_on_failure once manual halted : RunStrategy

-- A VirtualMachine as the code reads it. `run_strategy` is none where `RunStrategy()` returns an
-- error.
pub record VirtualMachine : Type 0 where
  pub name : String
  pub namespace : String
  pub uid : String
  pub run_strategy : Option RunStrategy
  pub ready : Bool

-- A Secret with its data; also for ConfigMap data.
pub record Secret : Type 0 where
  pub name : String
  pub namespace : String
  pub data_entries : Dict String

-- A Harvester VM image.
pub record VirtualMachineImage : Type 0 where
  pub name : String
  pub namespace : String
  pub display_name : String
  pub storage_class_name : String

pub record KeyPair : Type 0 where
  pub name : String
  pub public_key : String

-- A PersistentVolumeClaim as `buildPVCForVolume` makes it.
pub record PersistentVolumeClaim : Type 0 where
  pub name : String
  pub namespace : String
  pub annotations : Dict String
  pub storage : String
  pub storage_class_name : Option String

pub record Disk : Type 0 where
  pub name : String
  pub bus : String
  pub boot_order : Option ℕ

-- The source of a kubevirt volume.
pub data VolumeSource : Type 0 where
  persistent_volume_claim : String → VolumeSource
  cloud_init_no_cloud : String → String → VolumeSource  -- user data and network data secrets

pub record KubevirtVolume : Type 0 where
  pub name : String
  pub source : VolumeSource

pub record Interface : Type 0 where
  pub name : String
  pub model : String

-- A kubevirt network with its Multus network name.
pub record KubevirtNetwork : Type 0 where
  pub name : String
  pub network_name : String

-- The parts of the domain that firmware and TPM settings decide: `secure_boot` is the EFI
-- bootloader with its flag, `smm` the SMM feature, `tpm` the device with its persistence.
pub record Domain : Type 0 where
  pub secure_boot : Option Bool
  pub smm : Option Bool
  pub tpm : Option Bool

-- `v1.Affinity`, with the host name anti-affinity on VMs of one name prefix.
pub record Affinity : Type 0 where
  pub anti_affinity_prefix : String
  pub node_affinity : Option NodeAffinity
  pub pod_affinity : Option PodAffinity

pub record VmTemplate : Type 0 where
  pub annotations : Dict String
  pub labels : Dict String
  pub hostname : String
  pub networks : List KubevirtNetwork
  pub volumes : List KubevirtVolume
  pub cores : ℕ
  pub interfaces : List Interface
  pub disks : List Disk
  pub memory : String
  pub domain : Domain
  pub affinity : Affinity

-- The VirtualMachine that is sent to Harvester; it runs always.
pub record NewVm : Type 0 where
  pub name : String
  pub namespace : String
  pub annotations : Dict String
  pub labels : Dict String
  pub template : VmTemplate

-- The interfaces of a VM instance, by their addresses.
pub record VmInstance : Type 0 where
  pub ips : List String

pub record Taint : Type 0 where
  pub key : String
  pub value_text : String
  pub effect : String

-- A node of the workload cluster.
pub record Node : Type 0 where
  pub name : String
  pub labels : Dict String
  pub provider_id : String
  pub taints : List Taint

-- A pod as the etcd clean-up reads it: `ready` says that a condition has type Ready and status True.
pub record Pod : Type 0 where
  pub name : String
  pub namespace : String
  pub node_name : String
  pub phase : String
  pub conditions : List (String × String)

pub record EtcdMember : Type 0 where
  pub id : ℕ  -- uint64
  pub name : String

-- A call on a server.
pub data Call : Type 0 where
  get_pool : String → Call
  update_pool : IpPoolResource → Call
  create_pool : IpPoolResource → Call
  delete_pool : String → Call
  get_vm : String → String → Call
  create_vm : NewVm → Call
  delete_vm : String → String → Call
  get_vmi : String → String → Call
  get_secret : String → String → Call
  create_secret : Secret → Call
  update_secret : Secret → Call
  delete_secret : String → String → Call
  list_pvcs : String → Call
  delete_pvc : String → String → Call
  list_images : String → Call
  get_key_pair : String → String → Call
  get_management_secret : String → String → Call
  patch_cluster_status : HarvesterCluster → Call
  get_node : String → Call
  patch_provider_id : String → String → Call
  patch_taints : String → List Taint → Call
  list_etcd_pods : Call
  list_system_pods : Call
  exec_member_list : Pod → Call
  exec_member_remove : Pod → ℕ → Call
  random_id : Call

-- The calls so far, the last one first.
abbrev pub History : Type 0
History = List Call

-- The answers. `Unit` stands for an answer that the code does not look at.
pub record Servers : Type 0 where
  pub on_get_pool : History → String → Response IpPoolResource
  pub on_update_pool : History → IpPoolResource → Response (Unit {0})
  pub on_create_pool : History → IpPoolResource → Response IpPoolResource
  pub on_delete_pool : History → String → Response (Unit {0})
  pub on_get_vm : History → String → String → Response VirtualMachine
  pub on_create_vm : History → NewVm → Response (Unit {0})
  pub on_delete_vm : History → String → String → Response (Unit {0})
  pub on_get_vmi : History → String → String → Response VmInstance
  pub on_get_secret : History → String → String → Response Secret
  pub on_create_secret : History → Secret → Response (Unit {0})
  pub on_update_secret : History → Secret → Response (Unit {0})
  pub on_delete_secret : History → String → String → Response (Unit {0})
  pub on_list_pvcs : History → String → Response (List String)
  pub on_delete_pvc : History → String → String → Response (Unit {0})
  pub on_list_images : History → String → Response (List VirtualMachineImage)
  pub on_get_key_pair : History → String → String → Response KeyPair
  pub on_get_management_secret : History → String → String → Response Secret
  pub on_patch_cluster_status : History → HarvesterCluster → Response (Unit {0})
  pub on_get_node : History → String → Response Node
  pub on_patch_provider_id : History → String → String → Response (Unit {0})
  pub on_patch_taints : History → String → List Taint → Response (Unit {0})
  pub on_list_etcd_pods : History → Response (List Pod)
  pub on_list_system_pods : History → Response (List Pod)
  pub on_exec_member_list : History → Pod → Response (List EtcdMember)
  pub on_exec_member_remove : History → Pod → ℕ → Response (Unit {0})
  pub on_random_id : History → String
