-- ===== src/Machine/Create/Parts.antt =====
-- What each part of the creation of a VM keeps and yields.
use mathlib.Core.Path.{ap₂}
use cluster_api_provider_har.Common.{
  List, String, [], ◌∷◌, ◌++◌, ◌≡◌, refl, Option, none, some, ap, ℕ, inl, inr, suc, length,
  Option-cases, Bool-cases, str_eq, arith,
}
use cluster_api_provider_har.Common.Flow.{call, pure}
use cluster_api_provider_har.Api.Machine.{Volume}
use cluster_api_provider_har.Harvester.Types.{
  PersistentVolumeClaim, Servers, list_images, VirtualMachineImage, Affinity, Secret, VmTemplate,
  cloud_init_no_cloud, KeyPair,
}
use cluster_api_provider_har.Machine.Create.Disks.{
  DiskInfo, build_claims, build_image_claim, build_pvc_for_volume, find_image, found_image,
  get_image_by_name, next_pvc_name,
}
use cluster_api_provider_har.Machine.Create.Quiet.{
  Anything, Gives, Gives-ask, Gives-bind, Gives-lift, Gives-within,
}
use cluster_api_provider_har.Machine.Create.Template.{
  pvc_names, claim_volumes, get_cloud_init_data, get_ssh_key, user_data, write_cloud_init, Json,
  build_vm_template, cloud_init_secret, final_cloud_init, finish_template, make_template,
}
use cluster_api_provider_har.Names.{get_namespaced_name}
use cluster_api_provider_har.Api.Meta.{Error}
use cluster_api_provider_har.Machine.Create.Scheduling.{build_affinity, share_node_affinity}
use cluster_api_provider_har.Machine.Scope.{Scope}
use cluster_api_provider_har.CloudInit.{Yaml, merge_cloud_init_data}
use cluster_api_provider_har.Common.Dict.{Dict}
use cluster_api_provider_har.Webhook.{QuantityParser}

abbrev pub claim_names : List PersistentVolumeClaim → List String
claim_names [] = []
claim_names (p ∷ ps) = p.name ∷ claim_names ps

-- One claim and one disk for each volume, with the same names.
abbrev pub Matches : List Volume → List PersistentVolumeClaim × List DiskInfo → Type 0
Matches vols (pvcs, disks) = (claim_names pvcs ≡ pvc_names disks) × (length disks ≡ length vols)

found_image-Gives : (o : Option VirtualMachineImage) → Gives Anything (found_image o)
unfolding found_image
found_image-Gives none s = refl
found_image-Gives (some i) s = (refl, tt)

module _ (servers : Servers) where
  get_image_by_name-Gives :
      (image_name ns : String) → Gives Anything (get_image_by_name servers image_name ns)
  unfolding get_image_by_name
  get_image_by_name-Gives image_name ns =
      Gives-bind Anything Anything _ _
        (Gives-within Anything _ _ (Gives-lift (get_namespaced_name image_name ns)))
        (λ n _.
          Gives-bind Anything Anything _ _ (Gives-ask (list_images n.namespace) _ (λ h. refl))
            (λ images _. found_image-Gives (find_image n.name images)))

  build_image_claim-Gives :
      (vol : Volume) (name ns size : String)
      → Gives
          (λ (p : PersistentVolumeClaim). p.name ≡ name)
          (build_image_claim servers vol name ns size)
  unfolding build_image_claim
  build_image_claim-Gives vol name ns size =
      Gives-bind Anything _ _ _
        (Gives-within Anything _ _ (get_image_by_name-Gives vol.image_name ns))
        (λ image _ s. (refl, refl))

  build_pvc_for_volume-Gives :
      (vol : Volume) (name ns : String)
      → Gives
          (λ (p : PersistentVolumeClaim). p.name ≡ name)
          (build_pvc_for_volume servers vol name ns)
  unfolding build_pvc_for_volume
  build_pvc_for_volume-Gives vol name ns s = elim (Option-cases vol.volume_size) [
    | inl unset ↦ rw (unset, build_pvc_for_volume) refl
    | inr (size, is_set) ↦ elim (Bool-cases (str_eq vol.volume_type "image")) [
      | inl image ↦
          rw (is_set, image, build_pvc_for_volume) (build_image_claim-Gives vol name ns size s)
      | inr other ↦ rw (is_set, other, build_pvc_for_volume) (refl, refl)
    ]
  ]

  next_pvc_name-Gives :
      (vm_name : String) (i : ℕ) → Gives Anything (next_pvc_name servers vm_name i)
  unfolding next_pvc_name
  next_pvc_name-Gives vm_name i s = (refl, tt)

  pub build_claims-Gives :
      (vm_name ns : String) (i : ℕ) (vols : List Volume)
      → Gives (Matches vols) (build_claims servers vm_name ns i vols)
  unfolding build_claims pvc_names
  build_claims-Gives vm_name ns i [] = λ s. (refl, (refl, refl))
  build_claims-Gives vm_name ns i (vol ∷ vols) =
      Gives-bind Anything (Matches (vol ∷ vols)) (next_pvc_name servers vm_name i) _
        (next_pvc_name-Gives vm_name i)
        (λ name _.
          Gives-bind (λ (p : PersistentVolumeClaim). p.name ≡ name) (Matches (vol ∷ vols)) _ _
            (Gives-within _ "unable to build PVC for volume" _
              (build_pvc_for_volume-Gives vol name ns))
            (λ pvc named.
              Gives-bind (Matches vols) (Matches (vol ∷ vols)) _
                (λ both. pure (pvc ∷ both.0, record { pvc_name = name; index = i } ∷ both.1))
                (build_claims-Gives vm_name ns (suc i) vols)
                (λ both m s. (refl, (ap₂ (λ x xs. x ∷ xs) named m.0, ap suc m.1)))))

  get_cloud_init_data-Gives : Gives Anything (get_cloud_init_data servers)
  unfolding get_cloud_init_data user_data
  get_cloud_init_data-Gives s = ground arith

  get_ssh_key-Gives : Gives Anything (get_ssh_key servers)
  unfolding get_ssh_key
  get_ssh_key-Gives s = ground arith

  write_cloud_init-Gives : (secret : Secret) → Gives Anything (write_cloud_init servers secret)
  unfolding write_cloud_init
  write_cloud_init-Gives secret s = ground arith

-- One volume for each disk, and the cloud-init's.
abbrev pub HasVolumes : List DiskInfo → VmTemplate → Type 0
HasVolumes disks template =
    (name : String) × (template.volumes
      ≡ claim_volumes disks
        ++ (record { name = "cloudinitdisk"; source = cloud_init_no_cloud name name } ∷ []))

build_affinity-Gives : Gives Anything (call {S = Scope} {R = Error} {A = Affinity} build_affinity)
unfolding build_affinity share_node_affinity
build_affinity-Gives s = elim (Option-cases s.hv_machine.spec.node_affinity) [
  | inl unset ↦ rw (unset, build_affinity) (refl, tt)
  | inr (a, is_set) ↦ rw (is_set, build_affinity) (refl, tt)
]

module _ (servers : Servers) (yaml : Yaml) (json : Json) (is_quantity : QuantityParser) where
  final_cloud_init-Gives :
      (key : KeyPair) → Gives Anything (final_cloud_init servers yaml json is_quantity key)
  unfolding final_cloud_init
  final_cloud_init-Gives key =
      Gives-bind Anything Anything _ _
        (Gives-within Anything "error during getting cloud init user data" _
          (get_cloud_init_data-Gives servers))
        (λ user _ s.
          Gives-within Anything "error during merging cloud init user data" _
            (Gives-lift (merge_cloud_init_data yaml _)) s)

  finish_template-Gives :
      (disks : List DiskInfo) (labels : Dict String) (key : KeyPair) (affinity : Affinity)
      → Gives
          (HasVolumes disks)
          (finish_template servers yaml json is_quantity disks labels key affinity)
  unfolding finish_template make_template
  finish_template-Gives disks labels key affinity s =
      elim (Option-cases (json.marshal_names (pvc_names disks))) [
        | inl none_ ↦ rw (none_, finish_template) refl
        | inr (names, some_) ↦ elim (Bool-cases (is_quantity s.hv_machine.spec.memory)) [
          | inl valid ↦ rw (some_, valid, finish_template) (refl, (_, refl))
          | inr invalid ↦ rw (some_, invalid, finish_template) refl
        ]
      ]

  pub build_vm_template-Gives :
      (disks : List DiskInfo) (labels : Dict String)
      → Gives (HasVolumes disks) (build_vm_template servers yaml json is_quantity disks labels)
  unfolding build_vm_template
  build_vm_template-Gives disks labels =
      Gives-bind Anything (HasVolumes disks) _ _ (get_ssh_key-Gives servers) (λ key _.
        Gives-bind Anything (HasVolumes disks) _ _ (final_cloud_init-Gives key) (λ text _ s.
          Gives-bind Anything (HasVolumes disks) _ _
            (write_cloud_init-Gives servers (cloud_init_secret text s))
            (λ _ _.
              Gives-bind Anything (HasVolumes disks) (call build_affinity) _ build_affinity-Gives
                (λ affinity _. finish_template-Gives disks labels key affinity))
            s))
