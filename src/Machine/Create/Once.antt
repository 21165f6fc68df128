-- ===== src/Machine/Create/Once.antt =====
-- What the creation of a VM sends to Harvester.
use cluster_api_provider_har.Common.{List, String, ◌∷◌, ◌≡◌, ◌⊎◌}
use cluster_api_provider_har.Common.Flow.{Flow, done, next}
use cluster_api_provider_har.Api.Meta.{ApiError, Error, Response, api, failed, ok}
use cluster_api_provider_har.CloudInit.{Yaml}
use cluster_api_provider_har.Common.Dict.{lookup, Dict}
use cluster_api_provider_har.Harvester.Types.{
  NewVm, PersistentVolumeClaim, Servers, VmTemplate, create_vm, History,
}
use cluster_api_provider_har.Machine.Create.Disks.{DiskInfo, Attempts, within}
use cluster_api_provider_har.Machine.Create.Parts.{HasVolumes, Matches}
use cluster_api_provider_har.Machine.Create.Quiet.{Keeps, created_vms}
use cluster_api_provider_har.Machine.Create.Template.{Json, build_vm_template}
use cluster_api_provider_har.Machine.Scope.{Scope}
use cluster_api_provider_har.Webhook.{QuantityParser}

module _ (servers : Servers) (yaml : Yaml) (json : Json) (is_quantity : QuantityParser) where
  -- The VM has the machine's name, stands in the target namespace, and has for each volume of the
  -- machine a claim in its annotation and a disk on the claim of that name.
  abbrev pub IsVmOf : Scope → NewVm → Type 0
  IsVmOf s vm =
      (vm.name ≡ s.hv_machine.meta.name)
      × (vm.namespace ≡ s.hv_cluster.spec.target_namespace)
      × ((both : List PersistentVolumeClaim × List DiskInfo) × Matches s.hv_machine.spec.volumes
            both
          × (json.marshal_claims both.0
              ≡ lookup "harvesterhci.io/volumeClaimTemplates" vm.annotations)
          × HasVolumes both.1 vm.template)

  -- One VM was sent, and it is of the machine.
  abbrev pub Sends : Scope → Scope → Type 0
  Sends s t = (vm : NewVm) × (created_vms t.calls ≡ vm ∷ created_vms s.calls) × IsVmOf s vm

  -- The last call sent the VM, and this was the answer to it.
  abbrev pub IsAnswered : Scope → NewVm → Response (Unit {0}) → Type 0
  IsAnswered t vm r = (h : History) × (t.calls ≡ create_vm vm ∷ h) × (servers.on_create_vm h vm ≡ r)

  -- One VM was sent, which is of the machine, and this was the answer to it.
  abbrev pub SendsWith : Scope → Scope → Response (Unit {0}) → Type 0
  SendsWith s t r =
      (vm : NewVm) × (created_vms t.calls ≡ vm ∷ created_vms s.calls)
      × IsVmOf s vm
      × IsAnswered t vm r

  abbrev pub CreateEnds : Scope → Flow Scope Error (Unit {0}) → Type 0
  CreateEnds s (next _ t) = SendsWith s t (ok tt)
  CreateEnds s (done e t) = Keeps s t ⊎ ((x : ApiError) × (e ≡ api x) × SendsWith s t (failed x))

  -- The template that the claims are put into.
  abbrev template_for :
      Dict String → List PersistentVolumeClaim × List DiskInfo → Attempts VmTemplate
  template_for labels both =
      within "unable to build VM definition"
        (build_vm_template servers yaml json is_quantity both.1 labels)
