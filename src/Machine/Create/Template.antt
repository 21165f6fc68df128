-- ===== src/Machine/Create/Template.antt =====
-- buildVMTemplate, getCloudInitData and applyFirmwareAndTPM of
-- internal/controller/harvestermachine_controller.go.
use cluster_api_provider_har.Api.Machine.{ℤ, pos, negsuc}
use cluster_api_provider_har.Common.{
  List, Option, String, [], ◌∷◌, ◌++◌, none, some, true, ℕ, zero, suc, if◌then◌else◌, str_append,
  is_nil,
}
use cluster_api_provider_har.Common.Flow.{call, done, gets, next, ◌>>=◌, ◌>>◌}
use cluster_api_provider_har.Api.Machine.{HarvesterMachineSpec, Volume}
use cluster_api_provider_har.Api.Meta.{
  api, error, failed, is_not_found, message, ok, panic, value, wrapped,
}
use cluster_api_provider_har.CloudInit.{Yaml, merge_cloud_init_data}
use cluster_api_provider_har.Common.Dict.{Dict, lookup}
use cluster_api_provider_har.Harvester.Types.{
  Affinity, Disk, Domain, KeyPair, KubevirtVolume, PersistentVolumeClaim, Secret, Servers,
  VmTemplate, cloud_init_no_cloud, create_secret, get_key_pair, get_management_secret, get_secret,
  persistent_volume_claim, update_secret,
}
use cluster_api_provider_har.Machine.Create.Scheduling.{build_affinity}
use cluster_api_provider_har.Machine.Create.Disks.{Attempts, DiskInfo, ask, lift, within}
use cluster_api_provider_har.Machine.Create.Networks.{
  build_dhcp_cloud_init, build_network_data_static, build_network_interfaces, get_kubevirt_networks,
}
use cluster_api_provider_har.Machine.Scope.{Scope, log_call}
use cluster_api_provider_har.Names.{get_namespaced_name, itoa}
use cluster_api_provider_har.Webhook.{QuantityParser}

-- `json.Marshal` of the values that the VM is annotated with.
pub record Json : Type 0 where
  pub marshal_claims : List PersistentVolumeClaim → Option String
  pub marshal_names : List String → Option String

-- `applyFirmwareAndTPM`, on a domain that has none of the three.
unfoldable pub apply_firmware_and_tpm : HarvesterMachineSpec → Domain
apply_firmware_and_tpm spec = record {
  secure_boot = elim spec.firmware [
    | none ↦ none
    | some f ↦ if f.efi then some f.secure_boot else none
  ];
  smm = elim spec.firmware [
    | none ↦ none
    | some f ↦ if f.efi then (if f.secure_boot then some true else none) else none
  ];
  tpm = elim spec.tpm [ none ↦ none | some t ↦ if t.enabled then some t.persistent else none ];
}

unfoldable pub volume_at : ℕ → List Volume → Option Volume
volume_at i [] = none
volume_at zero (v ∷ vs) = some v
volume_at (suc i) (v ∷ vs) = volume_at i vs

-- A boot order that is not positive is not set.
unfoldable pub positive : ℤ → Option ℕ
positive (pos zero) = none
positive (pos (suc n)) = some (suc n)
positive (negsuc _) = none

abbrev pub disk_name : DiskInfo → String
disk_name d = str_append "disk-" (itoa d.index)

-- The first loop over the disks: the volumes of the VM and their disks.
unfoldable pub claim_volumes : List DiskInfo → List KubevirtVolume
claim_volumes [] = []
claim_volumes (d ∷ ds) =
    record { name = disk_name d; source = persistent_volume_claim d.pvc_name } ∷ claim_volumes ds

unfoldable pub claim_disks : List Volume → List DiskInfo → List Disk
unfolding positive volume_at
claim_disks vols [] = []
claim_disks vols (d ∷ ds) =
    record {
      name = disk_name d;
      bus = "virtio";
      boot_order = elim (volume_at d.index vols) [ none ↦ none | some v ↦ positive v.boot_order ];
    }
    ∷ claim_disks vols ds

unfoldable pub pvc_names : List DiskInfo → List String
pvc_names [] = []
pvc_names (d ∷ ds) = d.pvc_name ∷ pvc_names ds

abbrev pub cloud_init_base : String
cloud_init_base =
    "package_update: true\npackages:\n  - qemu-guest-agent\n  - iptables\nruncmd:\n  - - systemctl\n    - enable\n    - --now\n    - qemu-guest-agent.service"

abbrev pub cloud_init_name : Scope → String
cloud_init_name s = str_append s.hv_machine.meta.name "-cloud-init"

unfoldable pub user_data : Secret → Attempts String
user_data secret s = elim (lookup "value" secret.data_entries) [
  | none ↦ done (message "no userData key found in secret") s
  | some text ↦ next text s
]

module _ (servers : Servers) where
  -- `getCloudInitData`: the owner machine and the name of its secret are dereferenced.
  unfoldable pub get_cloud_init_data : Attempts String
  unfolding user_data
  get_cloud_init_data s = elim s.machine [
    | none ↦ done panic s
    | some m ↦ elim m.data_secret_name [
      | none ↦ done panic s
      | some name ↦
          (ask (get_management_secret m.namespace name)
                (λ h. servers.on_get_management_secret h m.namespace name)
              >>= user_data)
            s
    ]
  ]

  -- The key pair that the specification names.
  unfoldable pub get_ssh_key : Attempts KeyPair
  get_ssh_key s =
      elim (get_namespaced_name s.hv_machine.spec.ssh_key_pair s.hv_cluster.spec.target_namespace) [
        | error _ ↦ done (message "SSHKeyPair is malformed") s
        | value n ↦
            let s' = log_call (get_key_pair n.namespace n.name) s in
            elim (servers.on_get_key_pair s.calls n.namespace n.name) [
              | ok key ↦ next key s'
              | failed e ↦
                  if is_not_found e
                  then done (message "no keypair could be found") s'
                  else done (wrapped "error during getting keypair from Harvester" (api e)) s'
            ]
      ]

  -- The secret is created or updated; where the look for it fails otherwise, nothing is written and
  -- the function goes on.
  unfoldable pub write_cloud_init : Secret → Attempts (Unit {0})
  write_cloud_init secret s =
      let s' = log_call (get_secret secret.namespace secret.name) s in
      elim (servers.on_get_secret s.calls secret.namespace secret.name) [
        | ok _ ↦
            within "unable to update cloud-init secret"
              (ask (update_secret secret) (λ h. servers.on_update_secret h secret)) s'
        | failed e ↦
            if is_not_found e
            then within "unable to create cloud-init secret"
                (ask (create_secret secret) (λ h. servers.on_create_secret h secret)) s'
            else next tt s'
      ]

-- The secret with the user data, and the network data where the addresses are static.
unfoldable pub cloud_init_secret : String → Scope → Secret
cloud_init_secret text s = record {
  name = cloud_init_name s;
  namespace = s.hv_cluster.spec.target_namespace;
  data_entries = ("userdata", text) ∷ (elim s.effective_network_config [
    | none ↦ []
    | some cfg ↦
        if is_nil s.hv_machine.spec.networks
        then []
        else ("networkdata", build_network_data_static cfg s) ∷ []
  ]);
}

-- The third document of the cloud-init: the work-around for DHCP.
unfoldable pub cloud_init_dhcp : Scope → String
cloud_init_dhcp s = elim s.effective_network_config [
  | some _ ↦ ""
  | none ↦
      if is_nil s.hv_machine.spec.networks
      then ""
      else build_dhcp_cloud_init s.hv_machine.spec.networks
]

-- The template, from its parts.
unfoldable pub make_template :
    List DiskInfo → Dict String → KeyPair → String → Affinity → Scope → VmTemplate
unfolding apply_firmware_and_tpm claim_volumes claim_disks
make_template disks labels key names affinity s = record {
  annotations =
      ("harvesterhci.io/diskNames", names)
      ∷ ("harvesterhci.io/sshNames", str_append "[\"" (str_append key.name "\"]"))
      ∷ ("harvestercluster/machinetype", str_append "controlplane-" s.cluster.name)
      ∷ [];
  labels = labels;
  hostname = s.hv_machine.meta.name;
  networks = get_kubevirt_networks 0 s.hv_machine.spec.networks;
  volumes =
      claim_volumes disks
      ++ (record {
        name = "cloudinitdisk";
        source = cloud_init_no_cloud (cloud_init_name s) (cloud_init_name s);
      }
          ∷ []);
  cores = s.hv_machine.spec.cpu;
  interfaces = build_network_interfaces 0 s.hv_machine.spec.networks;
  disks =
      claim_disks s.hv_machine.spec.volumes disks
      ++ (record { name = "cloudinitdisk"; bus = "virtio"; boot_order = none } ∷ []);
  memory = s.hv_machine.spec.memory;
  domain = apply_firmware_and_tpm s.hv_machine.spec;
  affinity = affinity;
}

module _ (servers : Servers) (yaml : Yaml) (json : Json) (is_quantity : QuantityParser) where
  -- The cloud-init, merged from the four documents.
  unfoldable pub final_cloud_init : KeyPair → Attempts String
  unfolding get_cloud_init_data cloud_init_dhcp
  final_cloud_init key = do
    user ← within "error during getting cloud init user data" (get_cloud_init_data servers)
    dhcp ← gets cloud_init_dhcp
    within "error during merging cloud init user data" (
        lift (
          merge_cloud_init_data yaml (
            cloud_init_base
            ∷ str_append "\nssh_authorized_keys:\n  - " (str_append key.public_key "\n")
            ∷ dhcp
            ∷ user
            ∷ [])))

  -- The end of `buildVMTemplate`: `resource.MustParse` panics on what is no quantity.
  unfoldable pub finish_template :
      List DiskInfo → Dict String → KeyPair → Affinity → Attempts VmTemplate
  unfolding make_template
  finish_template disks labels key affinity s = elim (json.marshal_names (pvc_names disks)) [
    | none ↦ done (message "unable to marshal disk names to JSON") s
    | some names ↦
        if is_quantity s.hv_machine.spec.memory
        then next (make_template disks labels key names affinity s) s
        else done panic s
  ]

  -- `buildVMTemplate`
  unfoldable pub build_vm_template : List DiskInfo → Dict String → Attempts VmTemplate
  unfolding get_ssh_key final_cloud_init write_cloud_init finish_template
  build_vm_template disks labels = do
    key ← get_ssh_key servers
    text ← final_cloud_init key
    secret ← gets (cloud_init_secret text)
    write_cloud_init servers secret
    affinity ← call build_affinity
    finish_template disks labels key affinity
