-- ===== src/Scenarios/Versions.antt =====
-- Generated names, and a machine in both versions.
use cluster_api_provider_har.Common.{[], arith, false, refl, true, ◌∷◌, ◌≡◌, ◌≤◌}
use cluster_api_provider_har.Api.Meta.{value}
use cluster_api_provider_har.Names.Label.{generate_rfc1035_name, is_label_char, is_letter}
use cluster_api_provider_har.Names.Label.Bounds.{
  all_label_chars, ends_with_dash, generate_rfc1035_name_bounds, generate_rfc1035_name_keeps,
  label_length, starts_with_letter,
}
use cluster_api_provider_har.Scenarios.Machines.{machine}
use cluster_api_provider_har.V1alpha1.Conversion.{convert_machine_from, convert_machine_to}
use cluster_api_provider_har.V1alpha1.Conversion.From.{convert_machine_spec_from}
use cluster_api_provider_har.V1alpha1.RoundTrip.{
  and_then, convert_machine-from_to, there_and_back, there_and_back_self, without_failure, machines,
}
use cluster_api_provider_har.V1alpha1.Types.{HarvesterMachineV1alpha1, machine_hub}
use cluster_api_provider_har.Api.Machine.{HarvesterMachine}

abbrev pub old_machine : HarvesterMachineV1alpha1
old_machine = record {
  meta = machine.meta;
  spec = convert_machine_spec_from machine.spec;
  status = record {
    ready = false;
    failure_reason = "CreateError";
    failure_message = "no quota";
    conditions = [];
    addresses = [];
    initialization = record { provisioned = false };
    allocated_ip_address = "";
    allocated_pool_ref = "";
    failure_domain = "";
  };
}

-- Another machine, which is written over.
abbrev other_machine : HarvesterMachine
other_machine = record machine {
  spec = record machine.spec { provider_id = "other"; networks = [] };
  status = record machine.status { ready = false; addresses = [] };
}

there_and_back_self_example :
    there_and_back (machine_hub machine) (machine_hub other_machine) ≡ value (machine_hub machine)
there_and_back_self_example =
    there_and_back_self (machine_hub machine) (machine_hub other_machine)
      (machines machine other_machine)

convert_machine-from_to_example :
    and_then (convert_machine_to old_machine (machine_hub machine)) convert_machine_from
    ≡ value (without_failure old_machine)
convert_machine-from_to_example = convert_machine-from_to old_machine machine

generate_rfc1035_name_bounds_example :
    (label_length (generate_rfc1035_name ("Prod" ∷ "cluster.1" ∷ "lb" ∷ [])) ≤ 63)
    × (all_label_chars (generate_rfc1035_name ("Prod" ∷ "cluster.1" ∷ "lb" ∷ [])) ≡ true)
    × (starts_with_letter (generate_rfc1035_name ("Prod" ∷ "cluster.1" ∷ "lb" ∷ [])) ≡ true)
generate_rfc1035_name_bounds_example =
    generate_rfc1035_name_bounds ("Prod" ∷ "cluster.1" ∷ "lb" ∷ [])

generate_rfc1035_name_keeps_example : generate_rfc1035_name ("prod-lb" ∷ []) ≡ "prod-lb"
unfolding label_length all_label_chars starts_with_letter ends_with_dash is_label_char is_letter
generate_rfc1035_name_keeps_example =
    generate_rfc1035_name_keeps "prod-lb" (omega arith, refl, refl, refl)
