-- ===== src/V1alpha1/RoundTrip.antt =====
-- Converting between the versions and back.
use cluster_api_provider_har.Common.{List, Option, [], ap, map, none, refl, some, ◌∷◌, ◌≡◌}
use cluster_api_provider_har.Api.Cluster.{HarvesterClusterSpec, VmNetworkConfig, HarvesterCluster}
use cluster_api_provider_har.Api.Machine.{HarvesterMachine, HarvesterMachineSpec}
use cluster_api_provider_har.Api.Meta.{Result, error, value}
use cluster_api_provider_har.V1alpha1.Conversion.{
  convert_cluster_from, convert_cluster_template_from, convert_cluster_template_to,
  convert_cluster_to, convert_machine_from, convert_machine_template_from,
  convert_machine_template_to, convert_machine_to, err_unexpected_hub,
}
use cluster_api_provider_har.V1alpha1.Conversion.From.{
  convert_cluster_spec_from, convert_cluster_status_from, convert_machine_spec_from,
  convert_machine_status_from, convert_vm_network_config_from, firmware_from, ip_pool_from,
  listener_from, network_config_from, tpm_from, volume_from,
}
use cluster_api_provider_har.V1alpha1.Conversion.To.{
  convert_cluster_spec_to, convert_cluster_status_to, convert_machine_spec_to,
  convert_machine_status_to, convert_pointer, convert_vm_network_config_to, firmware_to, ip_pool_to,
  listener_to, network_config_to, tpm_to, volume_to,
}
use cluster_api_provider_har.V1alpha1.Types.{
  HarvesterClusterSpecV1alpha1, HarvesterMachineSpecV1alpha1, HarvesterMachineV1alpha1, Hub,
  VmNetworkConfigV1alpha1, another_hub, cluster_hub, cluster_template_hub, machine_hub,
  machine_template_hub, HarvesterClusterTemplate, HarvesterMachineTemplate,
}

map_inverse :
    {A B : Type 0} (f : A → B) (g : B → A)
    → ((a : A) → g (f a) ≡ a)
    → (xs : List A) → map g (map f xs) ≡ xs
map_inverse f g h [] = refl
map_inverse f g h (x ∷ xs) = rw (h x, map_inverse f g h xs) refl

pointer_inverse :
    {A B : Type 0} (f : A → B) (g : B → A)
    → ((a : A) → g (f a) ≡ a)
    → (o : Option A) → convert_pointer g (convert_pointer f o) ≡ o
pointer_inverse f g h none = refl
pointer_inverse f g h (some a) = ap some (h a)

vm_network_config-to_from :
    (o : Option VmNetworkConfig)
    → convert_vm_network_config_to (convert_vm_network_config_from o) ≡ o
unfolding convert_vm_network_config_to convert_vm_network_config_from
vm_network_config-to_from none = refl
vm_network_config-to_from (some c) =
    rw (pointer_inverse ip_pool_from ip_pool_to (λ _. refl) c.ip_pool) refl

vm_network_config-from_to :
    (o : Option VmNetworkConfigV1alpha1)
    → convert_vm_network_config_from (convert_vm_network_config_to o) ≡ o
unfolding convert_vm_network_config_to convert_vm_network_config_from
vm_network_config-from_to none = refl
vm_network_config-from_to (some c) =
    rw (pointer_inverse ip_pool_to ip_pool_from (λ _. refl) c.ip_pool) refl

cluster_spec-to_from :
    (sp : HarvesterClusterSpec) → convert_cluster_spec_to (convert_cluster_spec_from sp) ≡ sp
unfolding convert_cluster_spec_to convert_cluster_spec_from
cluster_spec-to_from sp =
    rw (vm_network_config-to_from sp.vm_network_config) (
      rw (map_inverse listener_from listener_to (λ _. refl) sp.load_balancer_config.listeners) refl)

cluster_spec-from_to :
    (sp : HarvesterClusterSpecV1alpha1)
    → convert_cluster_spec_from (convert_cluster_spec_to sp) ≡ sp
unfolding convert_cluster_spec_to convert_cluster_spec_from
cluster_spec-from_to sp =
    rw (vm_network_config-from_to sp.vm_network_config) (
      rw (map_inverse listener_to listener_from (λ _. refl) sp.load_balancer_config.listeners) refl)

machine_spec-to_from :
    (sp : HarvesterMachineSpec) → convert_machine_spec_to (convert_machine_spec_from sp) ≡ sp
unfolding convert_machine_spec_to convert_machine_spec_from
machine_spec-to_from sp =
    rw
      (
        vm_network_config-to_from sp.vm_network_config,
        map_inverse volume_from volume_to (λ _. refl) sp.volumes,
        pointer_inverse network_config_from network_config_to (λ _. refl) sp.network_config,
        pointer_inverse firmware_from firmware_to (λ _. refl) sp.firmware,
        pointer_inverse tpm_from tpm_to (λ _. refl) sp.tpm,
      )
      refl

machine_spec-from_to :
    (sp : HarvesterMachineSpecV1alpha1)
    → convert_machine_spec_from (convert_machine_spec_to sp) ≡ sp
unfolding convert_machine_spec_to convert_machine_spec_from
machine_spec-from_to sp =
    rw
      (
        vm_network_config-from_to sp.vm_network_config,
        map_inverse volume_to volume_from (λ _. refl) sp.volumes,
        pointer_inverse network_config_to network_config_from (λ _. refl) sp.network_config,
        pointer_inverse firmware_to firmware_from (λ _. refl) sp.firmware,
        pointer_inverse tpm_to tpm_from (λ _. refl) sp.tpm,
      )
      refl

-- A conversion after another.
abbrev pub and_then : {A B : Type 0} → Result A → (A → Result B) → Result B
and_then (value a) f = f a
and_then (error e) f = error e

-- An object of the hub version is read as v1alpha1 and written back over an object of its type.
unfoldable pub there_and_back : Hub → Hub → Result Hub
there_and_back (cluster_hub c) old =
    and_then (convert_cluster_from (cluster_hub c)) (λ a. convert_cluster_to a old)
there_and_back (machine_hub m) old =
    and_then (convert_machine_from (machine_hub m)) (λ a. convert_machine_to a old)
there_and_back (cluster_template_hub t) old =
    and_then (convert_cluster_template_from (cluster_template_hub t))
      (λ a. convert_cluster_template_to a old)
there_and_back (machine_template_hub t) old =
    and_then (convert_machine_template_from (machine_template_hub t))
      (λ a. convert_machine_template_to a old)
there_and_back another_hub old = error err_unexpected_hub

-- Two resources of the hub version of the same type, of the four types that there are.
pub data AreAlike : Hub → Hub → Type 0 where
  clusters : (c old : HarvesterCluster) → AreAlike (cluster_hub c) (cluster_hub old)
  machines : (m old : HarvesterMachine) → AreAlike (machine_hub m) (machine_hub old)
  cluster_templates :
      (t old : HarvesterClusterTemplate)
      → AreAlike (cluster_template_hub t) (cluster_template_hub old)
  machine_templates :
      (t old : HarvesterMachineTemplate)
      → AreAlike (machine_template_hub t) (machine_template_hub old)

-- Converting a resource of the hub version to v1alpha1 and back, over any object of its type, gives that resource, whatever the object was, for clusters, machines and the templates of both.
pub there_and_back_self : (h old : Hub) → AreAlike h old → there_and_back h old ≡ value h
unfolding there_and_back convert_cluster_from convert_cluster_to convert_machine_from
    convert_machine_to convert_cluster_template_from convert_cluster_template_to
    convert_machine_template_from convert_machine_template_to convert_cluster_status_from
    convert_cluster_status_to convert_machine_status_from convert_machine_status_to
there_and_back_self _ _ (clusters c old) = rw (cluster_spec-to_from c.spec) refl
there_and_back_self _ _ (machines m old) = rw (machine_spec-to_from m.spec) refl
there_and_back_self _ _ (cluster_templates t old) = rw (cluster_spec-to_from t.template_spec) refl
there_and_back_self _ _ (machine_templates t old) = rw (machine_spec-to_from t.template_spec) refl

-- The object without what v1beta1 has no field for.
abbrev pub without_failure : HarvesterMachineV1alpha1 → HarvesterMachineV1alpha1
without_failure m = record m {
  status = record m.status { failure_reason = ""; failure_message = "" };
}

-- Converting a machine of v1alpha1 to the hub version and back clears its two failure fields and keeps all others.
pub convert_machine-from_to :
    (m : HarvesterMachineV1alpha1) (old : HarvesterMachine)
    → and_then (convert_machine_to m (machine_hub old)) convert_machine_from
      ≡ value (without_failure m)
unfolding convert_machine_from convert_machine_to convert_machine_status_from
    convert_machine_status_to
convert_machine-from_to m old = rw (machine_spec-from_to m.spec) refl
