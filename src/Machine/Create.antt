-- ===== src/Machine/Create.antt =====
-- `createVMFromHarvesterMachine` of internal/controller/harvestermachine_controller.go.
pub mod Disks
pub mod Networks
pub mod Scheduling
pub mod Template
pub mod Quiet
pub mod Parts
pub mod Once
use cluster_api_provider_har.Machine.Create.Template.{Json, build_vm_template}
use cluster_api_provider_har.Machine.Create.Disks.{Attempts, DiskInfo, ask, build_claims, within}
use cluster_api_provider_har.Common.{List, Option, String, [], ◌∷◌, none, some, str_append}
use cluster_api_provider_har.Common.Flow.{done, gets, next, ◌>>=◌, ◌>>◌}
use cluster_api_provider_har.Api.Meta.{message}
use cluster_api_provider_har.CloudInit.{Yaml}
use cluster_api_provider_har.Common.Dict.{Dict, lookup}
use cluster_api_provider_har.Harvester.Types.{
  NewVm, PersistentVolumeClaim, Servers, VmTemplate, create_vm,
}
use cluster_api_provider_har.Machine.Scope.{Scope}
use cluster_api_provider_har.Webhook.{QuantityParser}

-- The labels of the VM and of its template, which are one map.
unfoldable pub vm_labels : Scope → Dict String
vm_labels s =
    let name = s.hv_machine.meta.name in
    ("harvesterhci.io/vmNamePrefix", name)
    ∷ ("harvesterhci.io/vmName", name)
    ∷ ("harvesterhci.io/creator", "harvester")
    ∷ (elim (lookup "cluster.x-k8s.io/control-plane" s.hv_machine.meta.labels) [
      | none ↦ []
      | some _ ↦ ("harvestercluster/machinetype", str_append "controlplane-" s.cluster.name) ∷ []
    ])

-- The VM that is sent.
unfoldable pub make_vm : String → VmTemplate → Scope → NewVm
unfolding vm_labels
make_vm claims template s = record {
  name = s.hv_machine.meta.name;
  namespace = s.hv_cluster.spec.target_namespace;
  annotations =
      ("harvesterhci.io/volumeClaimTemplates", claims)
      ∷ ("networks.harvesterhci.io/ips", "[]")
      ∷ [];
  labels = vm_labels s;
  template = template;
}

module _ (servers : Servers) (yaml : Yaml) (json : Json) (is_quantity : QuantityParser) where
  unfoldable pub marshal_claims_or_fail : List PersistentVolumeClaim → Attempts String
  marshal_claims_or_fail pvcs s = elim (json.marshal_claims pvcs) [
    | none ↦ done (message "unable to marshal PVC annotations") s
    | some text ↦ next text s
  ]

  unfoldable pub send_vm : NewVm → Attempts (Unit {0})
  send_vm vm = ask (create_vm vm) (λ h. servers.on_create_vm h vm)

  -- The claims of all volumes of the machine.
  unfoldable pub claims_of_machine : Attempts (List PersistentVolumeClaim × List DiskInfo)
  claims_of_machine s =
      build_claims servers s.hv_machine.meta.name s.hv_cluster.spec.target_namespace 0
        s.hv_machine.spec.volumes s

  -- The VM for the claims, from their annotation on.
  unfoldable pub prepare_from :
      Dict String → List PersistentVolumeClaim × List DiskInfo → Attempts NewVm
  unfolding marshal_claims_or_fail
  prepare_from labels both = do
    claims ← marshal_claims_or_fail both.0
    template ←
        within "unable to build VM definition"
          (build_vm_template servers yaml json is_quantity both.1 labels)
    gets (make_vm claims template)

  -- The VM, ready to be sent.
  unfoldable pub prepare_vm : Attempts NewVm
  unfolding claims_of_machine prepare_from
  prepare_vm = do labels ← gets vm_labels; both ← claims_of_machine; prepare_from labels both

  -- `createVMFromHarvesterMachine`
  unfoldable pub create_vm_from_harvester_machine : Attempts (Unit {0})
  unfolding prepare_vm send_vm
  create_vm_from_harvester_machine = do vm ← prepare_vm; send_vm vm
