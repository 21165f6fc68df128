-- ===== src/Webhook/Accepts.antt =====
-- What an accepted resource satisfies, and that nothing else is refused.
use cluster_api_provider_har.Common.{
  All, Bool, List, String, [], arith, eq_iff, false, suc, sym, true, ℕ, ◌++◌, ◌↔◌, ◌∙◌, ◌∷◌, ◌≡◌,
  ◌≢◌, ◌⊎◌, Option, Option-cases, inl, inr, is_empty, is_nil, none, some, ◌==◌, not, ◌&&◌,
}
use cluster_api_provider_har.Api.Machine.{Volume, Firmware, HarvesterMachineSpec, NetworkConfig}
use cluster_api_provider_har.Pool.Net.{Net}
use cluster_api_provider_har.Webhook.{
  address_required, network_gateway_required, network_gateway_invalid, mutually_exclusive,
  ip_pool_unsupported, pool_refs_required, gateway_required, gateway_invalid, subnet_mask_required,
  subnet_mask_invalid, pool_required, Complaint, check_ip, check_volume, check_volumes, complain_if,
  parses, QuantityParser, check_firmware, check_machine_vm_network_config, check_memory,
  check_network_config, is_some, validate_harvester_machine, check_cluster_vm_network_config,
  validate_harvester_cluster,
}
use cluster_api_provider_har.Api.Cluster.{VmNetworkConfig, get_ip_pool_refs, HarvesterClusterSpec}

append_nil_iff : (xs ys : List Complaint) → (xs ++ ys ≡ []) ↔ ((xs ≡ []) × (ys ≡ []))
append_nil_iff [] ys = ground arith
append_nil_iff (x ∷ xs) ys = ground arith

complain_if_iff : (b : Bool) (c : Complaint) → (complain_if b c ≡ []) ↔ (b ≡ false)
complain_if_iff true c = ground arith
complain_if_iff false c = ground arith

-- A text that is there and parses as an address.
abbrev pub IsAddress : Net → String → Type 0
IsAddress net text = (text ≢ "") × (parses (net.parse_ip text) ≡ true)

check_ip_iff :
    (net : Net) (text : String) (r i : Complaint)
    → (check_ip net text r i ≡ []) ↔ IsAddress net text
unfolding check_ip
check_ip_iff net text r i = ground (arith, eq_iff text "")

-- A volume of a known type with the field that its type needs.
abbrev pub IsVolume : Volume → Type 0
IsVolume v =
    ((v.volume_type ≡ "image") × (v.image_name ≢ ""))
    ⊎ ((v.volume_type ≡ "storageClass") × (v.storage_class ≢ ""))

types_differ : (s : String) → s ≡ "image" → s ≢ "storageClass"
types_differ s e f = cc ((eq_iff "image" "storageClass").1 (sym e ∙ f))

check_volume_iff : (i : ℕ) (v : Volume) → (check_volume i v ≡ []) ↔ IsVolume v
unfolding check_volume
check_volume_iff i v = ground (
  arith,
  eq_iff v.volume_type "image",
  eq_iff v.volume_type "storageClass",
  eq_iff v.image_name "",
  eq_iff v.storage_class "",
  types_differ v.volume_type,
)

check_volumes_iff : (i : ℕ) (vs : List Volume) → (check_volumes i vs ≡ []) ↔ All IsVolume vs
unfolding check_volumes
check_volumes_iff i [] = ground arith
check_volumes_iff i (v ∷ vs) = ground (
  arith,
  append_nil_iff (check_volume i v) (check_volumes (suc i) vs),
  check_volume_iff i v,
  check_volumes_iff (suc i) vs,
)

-- A property of the value of a pointer that is not nil.
abbrev pub WhenSet : {A : Type 0} → (A → Type 0) → Option A → Type 0
WhenSet P none = Unit
WhenSet P (some a) = P a

check_network_config_iff :
    (net : Net) (o : Option NetworkConfig)
    → (check_network_config net o ≡ [])
      ↔ WhenSet (λ c. (c.address ≢ "") × IsAddress net c.gateway) o
unfolding check_network_config
check_network_config_iff net none = ground arith
check_network_config_iff net (some c) = ground (
  arith,
  eq_iff c.address "",
  append_nil_iff (complain_if (is_empty c.address) address_required)
      (check_ip net c.gateway network_gateway_required network_gateway_invalid),
  check_ip_iff net c.gateway network_gateway_required network_gateway_invalid,
)

-- The network configuration of a machine: only references to pools, at least one, a gateway and a
-- mask, and no static configuration beside it.
abbrev pub IsMachineNetwork : Net → Option NetworkConfig → VmNetworkConfig → Type 0
IsMachineNetwork net static c =
    (is_some static ≡ false)
    × (is_some c.ip_pool ≡ false)
    × (is_nil (get_ip_pool_refs c) ≡ false)
    × IsAddress net c.gateway
    × IsAddress net c.subnet_mask

five_parts :
    (a b c : Bool) (x y z : Complaint) (ds es : List Complaint)
    → (complain_if a x ++ (complain_if b y ++ (complain_if c z ++ (ds ++ es))) ≡ [])
      ↔ ((a ≡ false) × (b ≡ false) × (c ≡ false) × (ds ≡ []) × (es ≡ []))
five_parts true b c x y z ds es = ground arith
five_parts false true c x y z ds es = ground arith
five_parts false false true x y z ds es = ground arith
five_parts false false false x y z ds es = ground (arith, append_nil_iff ds es)

check_machine_vm_network_config_iff :
    (net : Net) (spec : HarvesterMachineSpec)
    → (check_machine_vm_network_config net spec ≡ [])
      ↔ WhenSet (IsMachineNetwork net spec.network_config) spec.vm_network_config
unfolding check_machine_vm_network_config
check_machine_vm_network_config_iff net spec = elim (Option-cases spec.vm_network_config) [
  | inl unset ↦ rw (unset, check_machine_vm_network_config) (ground arith)
  | inr (c, set) ↦
      rw (set, check_machine_vm_network_config)
        (ground (
          arith,
          five_parts (is_some spec.network_config) (is_some c.ip_pool) (is_nil (get_ip_pool_refs c))
              mutually_exclusive ip_pool_unsupported pool_refs_required
              (check_ip net c.gateway gateway_required gateway_invalid)
              (check_ip net c.subnet_mask subnet_mask_required subnet_mask_invalid),
          check_ip_iff net c.gateway gateway_required gateway_invalid,
          check_ip_iff net c.subnet_mask subnet_mask_required subnet_mask_invalid,
        ))
]

check_firmware_iff :
    (o : Option Firmware)
    → (check_firmware o ≡ []) ↔ WhenSet (λ f. f.secure_boot ≡ true → f.efi ≡ true) o
unfolding check_firmware
check_firmware_iff none = ground arith
check_firmware_iff (some f) = ground arith

check_memory_iff :
    (is_quantity : QuantityParser) (memory : String)
    → (check_memory is_quantity memory ≡ []) ↔ ((memory ≢ "") × (is_quantity memory ≡ true))
unfolding check_memory
check_memory_iff is_quantity memory = ground (arith, eq_iff memory "")

-- What the webhook asks of a machine.
pub record IsMachineSpec (net : Net) (is_quantity : QuantityParser) (spec : HarvesterMachineSpec)
    : Type 0 where
  pub cpus : (spec.cpu == 0) ≡ false
  pub quantity : (spec.memory ≢ "") × (is_quantity spec.memory ≡ true)
  pub user : is_empty spec.ssh_user ≡ false
  pub key_pair : is_empty spec.ssh_key_pair ≡ false
  pub some_volume : is_nil spec.volumes ≡ false
  pub volumes : All IsVolume spec.volumes
  pub some_network : is_nil spec.networks ≡ false
  pub static_network : WhenSet (λ c. (c.address ≢ "") × IsAddress net c.gateway) spec.network_config
  pub pool_network : WhenSet (IsMachineNetwork net spec.network_config) spec.vm_network_config
  pub firmware : WhenSet (λ f. f.secure_boot ≡ true → f.efi ≡ true) spec.firmware

-- The webhook accepts a machine exactly when its specification is well formed.
pub validate_harvester_machine_iff :
    (net : Net) (is_quantity : QuantityParser) (spec : HarvesterMachineSpec)
    → (validate_harvester_machine net is_quantity spec ≡ []) ↔ IsMachineSpec net is_quantity spec
unfolding validate_harvester_machine
validate_harvester_machine_iff net is_quantity spec = (
  λ e.
      let (a, e₁) = (append_nil_iff _ _).0 e in
      let (b, e₂) = (append_nil_iff _ _).0 e₁ in
      let (c, e₃) = (append_nil_iff _ _).0 e₂ in
      let (d, e₄) = (append_nil_iff _ _).0 e₃ in
      let (f, e₅) = (append_nil_iff _ _).0 e₄ in
      let (g, e₆) = (append_nil_iff _ _).0 e₅ in
      let (h, e₇) = (append_nil_iff _ _).0 e₆ in
      let (i, e₈) = (append_nil_iff _ _).0 e₇ in
      let (j, k) = (append_nil_iff _ _).0 e₈ in
      record {
        cpus = (complain_if_iff _ _).0 a;
        quantity = (check_memory_iff _ _).0 b;
        user = (complain_if_iff _ _).0 c;
        key_pair = (complain_if_iff _ _).0 d;
        some_volume = (complain_if_iff _ _).0 f;
        volumes = (check_volumes_iff 0 _).0 g;
        some_network = (complain_if_iff _ _).0 h;
        static_network = (check_network_config_iff net _).0 i;
        pool_network = (check_machine_vm_network_config_iff net spec).0 j;
        firmware = (check_firmware_iff _).0 k;
      },
  λ v. (append_nil_iff _ _).1 (
    (complain_if_iff _ _).1 v.cpus,
    (append_nil_iff _ _).1 (
      (check_memory_iff _ _).1 v.quantity,
      (append_nil_iff _ _).1 (
        (complain_if_iff _ _).1 v.user,
        (append_nil_iff _ _).1 (
          (complain_if_iff _ _).1 v.key_pair,
          (append_nil_iff _ _).1 (
            (complain_if_iff _ _).1 v.some_volume,
            (append_nil_iff _ _).1 (
              (check_volumes_iff 0 _).1 v.volumes,
              (append_nil_iff _ _).1 (
                (complain_if_iff _ _).1 v.some_network,
                (append_nil_iff _ _).1 (
                  (check_network_config_iff net _).1 v.static_network,
                  (append_nil_iff _ _).1 (
                    (check_machine_vm_network_config_iff net spec).1 v.pool_network,
                    (check_firmware_iff _).1 v.firmware,
                  ),
                ),
              ),
            ),
          ),
        ),
      ),
    ),
  ),
)

-- The pool-based network of a cluster: a source of pools, a gateway and a mask.
abbrev pub IsClusterNetwork : Net → VmNetworkConfig → Type 0
IsClusterNetwork net c =
    ((is_nil (get_ip_pool_refs c) ≡ false) ⊎ (is_some c.ip_pool ≡ true))
    × IsAddress net c.gateway
    × IsAddress net c.subnet_mask

check_cluster_vm_network_config_iff :
    (net : Net) (o : Option VmNetworkConfig)
    → (check_cluster_vm_network_config net o ≡ []) ↔ WhenSet (IsClusterNetwork net) o
unfolding check_cluster_vm_network_config
check_cluster_vm_network_config_iff net none = ground arith
check_cluster_vm_network_config_iff net (some c) = ground (
  arith,
  complain_if_iff (is_nil (get_ip_pool_refs c) && not (is_some c.ip_pool)) pool_required,
  append_nil_iff
      (complain_if (is_nil (get_ip_pool_refs c) && not (is_some c.ip_pool)) pool_required)
      (check_ip net c.gateway gateway_required gateway_invalid
        ++ check_ip net c.subnet_mask subnet_mask_required subnet_mask_invalid),
  append_nil_iff (check_ip net c.gateway gateway_required gateway_invalid)
      (check_ip net c.subnet_mask subnet_mask_required subnet_mask_invalid),
  check_ip_iff net c.gateway gateway_required gateway_invalid,
  check_ip_iff net c.subnet_mask subnet_mask_required subnet_mask_invalid,
)

-- The webhook accepts a cluster exactly when it names its target namespace and its identity secret
-- in full, has one of the two ways of addressing, and describes the VM network, if at all, in full.
pub validate_harvester_cluster_iff :
    (net : Net) (spec : HarvesterClusterSpec)
    → (validate_harvester_cluster net spec ≡ []) ↔ (
        (spec.target_namespace ≢ "")
        × (spec.identity_secret.name ≢ "")
        × (spec.identity_secret.namespace ≢ "")
        × ((spec.load_balancer_config.ipam_type ≡ "dhcp")
            ⊎ (spec.load_balancer_config.ipam_type ≡ "pool"))
        × WhenSet (IsClusterNetwork net) spec.vm_network_config)
unfolding validate_harvester_cluster
validate_harvester_cluster_iff net spec = ground (
  arith,
  eq_iff spec.target_namespace "",
  eq_iff spec.identity_secret.name "",
  eq_iff spec.identity_secret.namespace "",
  eq_iff spec.load_balancer_config.ipam_type "dhcp",
  eq_iff spec.load_balancer_config.ipam_type "pool",
  check_cluster_vm_network_config_iff net spec.vm_network_config,
)
