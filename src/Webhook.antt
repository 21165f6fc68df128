-- ===== src/Webhook.antt =====
-- api/v1beta1/harvestermachine_webhook.go and harvestercluster_webhook.go: the validation of the two
-- resources. An object is accepted when the list of complaints is empty.
pub mod Accepts
use cluster_api_provider_har.Common.{
  Bool, List, Option, String, [], false, if◌then◌else◌, is_empty, is_nil, none, not, some, str_eq,
  suc, true, ℕ, ◌&&◌, ◌++◌, ◌==◌, ◌∷◌,
}
use cluster_api_provider_har.Api.Cluster.{HarvesterClusterSpec, VmNetworkConfig, get_ip_pool_refs}
use cluster_api_provider_har.Api.Machine.{Firmware, HarvesterMachineSpec, NetworkConfig, Volume}
use cluster_api_provider_har.Pool.Net.{Ip, Net}

-- The complaints; a volume's is given with its index.
pub data Complaint : Type 0 where
  cpu_zero memory_required memory_invalid ssh_user_required ssh_key_pair_required : Complaint
  no_volumes no_networks : Complaint
  volume_type_unknown image_name_required storage_class_required : ℕ → Complaint
  address_required network_gateway_required network_gateway_invalid : Complaint
  mutually_exclusive ip_pool_unsupported pool_refs_required gateway_required gateway_invalid :
      Complaint
  subnet_mask_required subnet_mask_invalid secure_boot_without_efi : Complaint
  target_namespace_required secret_name_required secret_namespace_required : Complaint
  ipam_type_unknown pool_required : Complaint

-- `if test { errs = append(errs, c) }`
abbrev pub complain_if : Bool → Complaint → List Complaint
complain_if true c = c ∷ []
complain_if false c = []

-- `resource.ParseQuantity` of k8s.io/apimachinery succeeds.
abbrev pub QuantityParser : Type 0
QuantityParser = String → Bool

abbrev pub parses : Option Ip → Bool
parses none = false
parses (some _) = true

-- A required text, which then has to parse as an address.
unfoldable pub check_ip : Net → String → Complaint → Complaint → List Complaint
check_ip net text required invalid =
    if is_empty text then required ∷ [] else complain_if (not (parses (net.parse_ip text))) invalid

unfoldable pub check_memory : QuantityParser → String → List Complaint
check_memory is_quantity memory =
    if is_empty memory
    then memory_required ∷ []
    else complain_if (not (is_quantity memory)) memory_invalid

-- One round of the loop over the volumes.
unfoldable pub check_volume : ℕ → Volume → List Complaint
check_volume i v =
    complain_if (not (str_eq v.volume_type "image") && not (str_eq v.volume_type "storageClass"))
      (volume_type_unknown i)
    ++ (complain_if (str_eq v.volume_type "image" && is_empty v.image_name) (image_name_required i)
        ++ complain_if (str_eq v.volume_type "storageClass" && is_empty v.storage_class)
            (storage_class_required i))

unfoldable pub check_volumes : ℕ → List Volume → List Complaint
unfolding check_volume
check_volumes i [] = []
check_volumes i (v ∷ vs) = check_volume i v ++ check_volumes (suc i) vs

unfoldable pub check_network_config : Net → Option NetworkConfig → List Complaint
unfolding check_ip
check_network_config net none = []
check_network_config net (some c) =
    complain_if (is_empty c.address) address_required
    ++ check_ip net c.gateway network_gateway_required network_gateway_invalid

abbrev pub is_some : {A : Type 0} → Option A → Bool
is_some none = false
is_some (some _) = true

-- `validateMachineVMNetworkConfig`
unfoldable pub check_machine_vm_network_config : Net → HarvesterMachineSpec → List Complaint
unfolding check_ip
check_machine_vm_network_config net spec = elim spec.vm_network_config [
  | none ↦ []
  | some c ↦
      complain_if (is_some spec.network_config) mutually_exclusive
      ++ (complain_if (is_some c.ip_pool) ip_pool_unsupported
          ++ (complain_if (is_nil (get_ip_pool_refs c)) pool_refs_required
              ++ (check_ip net c.gateway gateway_required gateway_invalid
                  ++ check_ip net c.subnet_mask subnet_mask_required subnet_mask_invalid)))
]

unfoldable pub check_firmware : Option Firmware → List Complaint
check_firmware none = []
check_firmware (some f) = complain_if (f.secure_boot && not f.efi) secure_boot_without_efi

-- `validateHarvesterMachine`
unfoldable pub validate_harvester_machine :
    Net → QuantityParser → HarvesterMachineSpec → List Complaint
validate_harvester_machine net is_quantity spec =
    complain_if (spec.cpu == 0) cpu_zero
    ++ (check_memory is_quantity spec.memory
        ++ (complain_if (is_empty spec.ssh_user) ssh_user_required
            ++ (complain_if (is_empty spec.ssh_key_pair) ssh_key_pair_required
                ++ (complain_if (is_nil spec.volumes) no_volumes
                    ++ (check_volumes 0 spec.volumes
                        ++ (complain_if (is_nil spec.networks) no_networks
                            ++ (check_network_config net spec.network_config
                                ++ (check_machine_vm_network_config net spec
                                    ++ check_firmware spec.firmware))))))))

-- The part of `validateHarvesterCluster` about the VM network.
unfoldable pub check_cluster_vm_network_config : Net → Option VmNetworkConfig → List Complaint
unfolding check_ip
check_cluster_vm_network_config net none = []
check_cluster_vm_network_config net (some c) =
    complain_if (is_nil (get_ip_pool_refs c) && not (is_some c.ip_pool)) pool_required
    ++ (check_ip net c.gateway gateway_required gateway_invalid
        ++ check_ip net c.subnet_mask subnet_mask_required subnet_mask_invalid)

-- `validateHarvesterCluster`
unfoldable pub validate_harvester_cluster : Net → HarvesterClusterSpec → List Complaint
validate_harvester_cluster net spec =
    complain_if (is_empty spec.target_namespace) target_namespace_required
    ++ (complain_if (is_empty spec.identity_secret.name) secret_name_required
        ++ (complain_if (is_empty spec.identity_secret.namespace) secret_namespace_required
            ++ (complain_if
                  (not (str_eq spec.load_balancer_config.ipam_type "dhcp")
                    && not (str_eq spec.load_balancer_config.ipam_type "pool"))
                  ipam_type_unknown
                ++ check_cluster_vm_network_config net spec.vm_network_config)))
