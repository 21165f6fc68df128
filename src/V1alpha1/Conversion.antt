-- ===== src/V1alpha1/Conversion.antt =====
-- The methods `ConvertTo` and `ConvertFrom` of api/v1alpha1/conversion.go.
pub mod To
pub mod From
use cluster_api_provider_har.V1alpha1.Conversion.To.{
  convert_cluster_spec_to, convert_cluster_status_to, convert_machine_spec_to,
  convert_machine_status_to,
}
use cluster_api_provider_har.V1alpha1.Conversion.From.{
  convert_cluster_spec_from, convert_cluster_status_from, convert_machine_spec_from,
  convert_machine_status_from,
}
use cluster_api_provider_har.Api.Meta.{Error, Result, error, message, value}
use cluster_api_provider_har.V1alpha1.Types.{
  HarvesterClusterTemplateV1alpha1, HarvesterClusterV1alpha1, HarvesterMachineTemplateV1alpha1,
  HarvesterMachineV1alpha1, Hub, cluster_hub, cluster_template_hub, machine_hub,
  machine_template_hub,
}

-- `errUnexpectedHub`
abbrev pub err_unexpected_hub : Error
err_unexpected_hub = message "unexpected hub type"

-- `HarvesterCluster.ConvertTo`: the object that the hub becomes.
unfoldable pub convert_cluster_to : HarvesterClusterV1alpha1 → Hub → Result Hub
unfolding convert_cluster_spec_to convert_cluster_status_to
convert_cluster_to x (cluster_hub _) = value (
    cluster_hub (record {
      meta = x.meta;
      spec = convert_cluster_spec_to x.spec;
      status = convert_cluster_status_to x.status;
    }))
convert_cluster_to x _ = error err_unexpected_hub

-- `HarvesterCluster.ConvertFrom`
unfoldable pub convert_cluster_from : Hub → Result HarvesterClusterV1alpha1
unfolding convert_cluster_spec_from convert_cluster_status_from
convert_cluster_from (cluster_hub x) = value (record {
  meta = x.meta;
  spec = convert_cluster_spec_from x.spec;
  status = convert_cluster_status_from x.status;
})
convert_cluster_from _ = error err_unexpected_hub

-- `HarvesterMachine.ConvertTo`: the object that the hub becomes.
unfoldable pub convert_machine_to : HarvesterMachineV1alpha1 → Hub → Result Hub
unfolding convert_machine_spec_to convert_machine_status_to
convert_machine_to x (machine_hub _) = value (
    machine_hub (record {
      meta = x.meta;
      spec = convert_machine_spec_to x.spec;
      status = convert_machine_status_to x.status;
    }))
convert_machine_to x _ = error err_unexpected_hub

-- `HarvesterMachine.ConvertFrom`
unfoldable pub convert_machine_from : Hub → Result HarvesterMachineV1alpha1
unfolding convert_machine_spec_from convert_machine_status_from
convert_machine_from (machine_hub x) = value (record {
  meta = x.meta;
  spec = convert_machine_spec_from x.spec;
  status = convert_machine_status_from x.status;
})
convert_machine_from _ = error err_unexpected_hub

-- `HarvesterClusterTemplate.ConvertTo`: the object that the hub becomes.
unfoldable pub convert_cluster_template_to : HarvesterClusterTemplateV1alpha1 → Hub → Result Hub
unfolding convert_cluster_spec_to
convert_cluster_template_to x (cluster_template_hub _) = value (
    cluster_template_hub (record {
      meta = x.meta;
      template_meta = x.template_meta;
      template_spec = convert_cluster_spec_to x.template_spec;
    }))
convert_cluster_template_to x _ = error err_unexpected_hub

-- `HarvesterClusterTemplate.ConvertFrom`
unfoldable pub convert_cluster_template_from : Hub → Result HarvesterClusterTemplateV1alpha1
unfolding convert_cluster_spec_from
convert_cluster_template_from (cluster_template_hub x) = value (record {
  meta = x.meta;
  template_meta = x.template_meta;
  template_spec = convert_cluster_spec_from x.template_spec;
})
convert_cluster_template_from _ = error err_unexpected_hub

-- `HarvesterMachineTemplate.ConvertTo`: the object that the hub becomes.
unfoldable pub convert_machine_template_to : HarvesterMachineTemplateV1alpha1 → Hub → Result Hub
unfolding convert_machine_spec_to
convert_machine_template_to x (machine_template_hub _) = value (
    machine_template_hub (record {
      meta = x.meta;
      template_meta = x.template_meta;
      template_spec = convert_machine_spec_to x.template_spec;
    }))
convert_machine_template_to x _ = error err_unexpected_hub

-- `HarvesterMachineTemplate.ConvertFrom`
unfoldable pub convert_machine_template_from : Hub → Result HarvesterMachineTemplateV1alpha1
unfolding convert_machine_spec_from
convert_machine_template_from (machine_template_hub x) = value (record {
  meta = x.meta;
  template_meta = x.template_meta;
  template_spec = convert_machine_spec_from x.template_spec;
})
convert_machine_template_from _ = error err_unexpected_hub
