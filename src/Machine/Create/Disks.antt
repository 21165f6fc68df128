-- ===== src/Machine/Create/Disks.antt =====
-- The disks of a new VM: buildPVCForVolume, getImageByName and storageClassForImage of
-- internal/controller/harvestermachine_controller.go.
use cluster_api_provider_har.Common.{
  List, Option, String, [], ◌∷◌, none, some, ℕ, suc, if◌then◌else◌, str_eq, str_append, is_empty,
  ◌||◌,
}
use cluster_api_provider_har.Common.Flow.{Code, done, next, pure, return, ◌>>=◌}
use cluster_api_provider_har.Api.Machine.{Volume}
use cluster_api_provider_har.Api.Meta.{
  Error, Response, Result, api, error, failed, message, ok, panic, value, wrapped,
}
use cluster_api_provider_har.Harvester.Types.{
  Call, History, PersistentVolumeClaim, Servers, VirtualMachineImage, list_images, random_id,
}
use cluster_api_provider_har.Machine.Scope.{Scope, log_call}
use cluster_api_provider_har.Names.{get_namespaced_name, itoa}

-- Steps that end with an error. A panic takes no context.
abbrev pub Attempts : Type 0 → Type 0
Attempts A = Code Scope Error A

abbrev pub in_context : String → Error → Error
in_context context panic = panic
in_context context e = wrapped context e

abbrev pub within : {A : Type 0} → String → Attempts A → Attempts A
within context m s = elim (m s) [ next a t ↦ next a t | done e t ↦ done (in_context context e) t ]

abbrev pub lift : {A : Type 0} → Result A → Attempts A
lift (value a) s = next a s
lift (error e) s = done e s

-- A call and its answer.
abbrev pub ask : {A : Type 0} → Call → (History → Response A) → Attempts A
ask c answer s = elim (answer s.calls) [
  | ok a ↦ next a (log_call c s)
  | failed e ↦ done (api e) (log_call c s)
]

-- `storageClassForImage`
unfoldable pub storage_class_for_image : VirtualMachineImage → String
storage_class_for_image image =
    if is_empty image.storage_class_name
    then str_append "longhorn-" image.name
    else image.storage_class_name

-- The loop of `getImageByName`: the display name or the resource's name.
unfoldable pub find_image : String → List VirtualMachineImage → Option VirtualMachineImage
find_image name [] = none
find_image name (image ∷ images) =
    let rest = find_image name images in
    if str_eq image.display_name name || str_eq image.name name then some image else rest

-- `diskInfo`
pub record DiskInfo : Type 0 where
  pub pvc_name : String
  pub index : ℕ

unfoldable pub found_image : Option VirtualMachineImage → Attempts VirtualMachineImage
found_image none s = done (message "VM image not found") s
found_image (some image) s = next image s

module _ (servers : Servers) where
  -- `getImageByName`
  unfoldable pub get_image_by_name : String → String → Attempts VirtualMachineImage
  unfolding found_image
  get_image_by_name image_name default_namespace = do
    n ← within "imageName is malformed" (lift (get_namespaced_name image_name default_namespace))
    images ← ask (list_images n.namespace) (λ h. servers.on_list_images h n.namespace)
    found_image (find_image n.name images)

  -- The claim for an image, whose storage class is the image's.
  unfoldable pub build_image_claim :
      Volume → String → String → String → Attempts PersistentVolumeClaim
  unfolding get_image_by_name
  build_image_claim vol pvc_name ns size = do
    image ← within "unable to find VM image" (get_image_by_name vol.image_name ns)
    pure (record {
      name = pvc_name;
      namespace = ns;
      annotations =
          ("harvesterhci.io/imageId", str_append image.namespace (str_append "/" image.name)) ∷ [];
      storage = size;
      storage_class_name = some (storage_class_for_image image);
    })

  -- `buildPVCForVolume`: the size is dereferenced, and a volume without one is a panic.
  unfoldable pub build_pvc_for_volume : Volume → String → String → Attempts PersistentVolumeClaim
  unfolding build_image_claim
  build_pvc_for_volume vol pvc_name ns = elim vol.volume_size [
    | none ↦ return panic
    | some size ↦
        if str_eq vol.volume_type "image"
        then build_image_claim vol pvc_name ns size
        else pure (record {
          name = pvc_name;
          namespace = ns;
          annotations = [];
          storage = size;
          storage_class_name =
              if str_eq vol.volume_type "storageClass" then some vol.storage_class else none;
        })
  ]

  -- "<vm>-disk-<i>-<random>"
  unfoldable pub next_pvc_name : String → ℕ → Attempts String
  next_pvc_name vm_name i s =
      next
        (str_append vm_name (
          str_append "-disk-"
            (str_append (itoa i) (str_append "-" (servers.on_random_id s.calls)))))
        (log_call random_id s)

  -- The loop over the volumes, from index `i`.
  unfoldable pub build_claims :
      String → String → ℕ → List Volume → Attempts (List PersistentVolumeClaim × List DiskInfo)
  unfolding next_pvc_name build_pvc_for_volume
  build_claims vm_name ns i [] = pure ([], [])
  build_claims vm_name ns i (vol ∷ vols) = do
    pvc_name ← next_pvc_name vm_name i
    pvc ← within "unable to build PVC for volume" (build_pvc_for_volume vol pvc_name ns)
    (pvcs, disks) ← build_claims vm_name ns (suc i) vols
    pure (pvc ∷ pvcs, record { pvc_name = pvc_name; index = i } ∷ disks)
