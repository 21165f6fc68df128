-- ===== src/Api/Machine.antt =====
-- api/v1beta1/harvestermachine_types.go: the HarvesterMachine resource.
use cluster_api_provider_har.Common.{ℕ, String, Bool, Option, List}
use cluster_api_provider_har.Api.Meta.{ObjectMeta}
use cluster_api_provider_har.Api.Condition.{Condition}
use cluster_api_provider_har.Api.Cluster.{VmNetworkConfig, Initialization}

-- Go's `int`, which may be negative.
pub data ℤ : Type 0 where
  pos : ℕ → ℤ
  negsuc : ℕ → ℤ

pub record Firmware : Type 0 where
  pub efi : Bool
  pub secure_boot : Bool

pub record Tpm : Type 0 where
  pub enabled : Bool
  pub persistent : Bool

pub record NetworkConfig : Type 0 where
  pub address : String
  pub gateway : String
  pub dns_servers : List String
  pub dns_search : List String

-- `VolumeType` is a string with two values that the code knows. A quantity is its text.
pub record Volume : Type 0 where
  pub volume_type : String
  pub image_name : String
  pub storage_class : String
  pub volume_size : Option String
  pub boot_order : ℤ

-- The Kubernetes types that scheduling works on.
pub record NodeSelectorRequirement : Type 0 where
  pub key : String
  pub operator : String
  pub values : List String

pub record NodeSelectorTerm : Type 0 where
  pub match_expressions : List NodeSelectorRequirement
  pub match_fields : List NodeSelectorRequirement

pub record PreferredSchedulingTerm : Type 0 where
  pub weight : ℤ
  pub preference : NodeSelectorTerm

-- `required` is nil, or the terms of the node selector.
pub record NodeAffinity : Type 0 where
  pub required : Option (List NodeSelectorTerm)
  pub preferred : List PreferredSchedulingTerm

-- A pod affinity is passed on whole: its content is not looked at, and a text stands for it.
pub record PodAffinity : Type 0 where
  pub content : String

pub record HarvesterMachineSpec : Type 0 where
  pub provider_id : String
  pub failure_domain : String
  pub cpu : ℕ  -- uint32
  pub memory : String
  pub ssh_user : String
  pub ssh_key_pair : String
  pub volumes : List Volume
  pub networks : List String
  pub node_affinity : Option NodeAffinity
  pub workload_affinity : Option PodAffinity
  pub network_config : Option NetworkConfig
  pub vm_network_config : Option VmNetworkConfig
  pub firmware : Option Firmware
  pub tpm : Option Tpm

pub record MachineAddress : Type 0 where
  pub type : String
  pub address : String

pub record HarvesterMachineStatus : Type 0 where
  pub ready : Bool
  pub conditions : List Condition
  pub addresses : List MachineAddress
  pub initialization : Initialization
  pub allocated_ip_address : String
  pub allocated_pool_ref : String
  pub failure_domain : String

pub record HarvesterMachine : Type 0 where
  pub meta : ObjectMeta
  pub spec : HarvesterMachineSpec
  pub status : HarvesterMachineStatus

abbrev pub machine_finalizer : String
machine_finalizer = "harvestermachine.infrastructure.cluster.x-k8s.io/finalizer"

abbrev pub machine_finalizer_legacy : String
machine_finalizer_legacy = "harvestermachine.infrastructure.cluster.x-k8s.io"
