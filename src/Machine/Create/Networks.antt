-- ===== src/Machine/Create/Networks.antt =====
-- The networks of a new VM: buildNetworkInterfaces, getKubevirtNetworksFromHarvesterMachine,
-- buildNetworkDataStatic and buildDHCPCloudInit of
-- internal/controller/harvestermachine_controller.go.
use cluster_api_provider_har.Common.{
  List, String, [], ◌∷◌, none, some, ℕ, zero, suc, if◌then◌else◌, str_append, is_nil,
}
use cluster_api_provider_har.Api.Machine.{NetworkConfig}
use cluster_api_provider_har.Harvester.Types.{Interface, KubevirtNetwork}
use cluster_api_provider_har.Machine.Scope.{Scope, effective_vm_network_config}
use cluster_api_provider_har.Names.{itoa}

abbrev pub concat_strings : List String → String
concat_strings [] = ""
concat_strings (s ∷ ss) = str_append s (concat_strings ss)

abbrev pub nic_name : ℕ → String
nic_name i = str_append "nic-" (itoa (suc i))

abbrev pub eth_name : ℕ → String
eth_name i = str_append "eth" (itoa i)

-- `buildNetworkInterfaces`, from index `i`.
unfoldable pub build_network_interfaces : ℕ → List String → List Interface
build_network_interfaces i [] = []
build_network_interfaces i (_ ∷ networks) =
    record { name = nic_name i; model = "virtio" } ∷ build_network_interfaces (suc i) networks

-- `getKubevirtNetworksFromHarvesterMachine`, from index `i`.
unfoldable pub get_kubevirt_networks : ℕ → List String → List KubevirtNetwork
get_kubevirt_networks i [] = []
get_kubevirt_networks i (network ∷ networks) =
    record { name = nic_name i; network_name = network } ∷ get_kubevirt_networks (suc i) networks

-- One line for each text.
unfoldable pub list_lines : List String → String
list_lines [] = ""
list_lines (x ∷ xs) = concat_strings ("      - " ∷ x ∷ "\n" ∷ list_lines xs ∷ [])

-- The subnets of one interface: the first has the address, the others use DHCP.
unfoldable pub subnet_lines : ℕ → NetworkConfig → String → String
subnet_lines zero cfg mask = concat_strings (
    "      - type: static\n        address: " ∷ cfg.address ∷ "\n        netmask: " ∷ mask
    ∷ "\n        gateway: " ∷ cfg.gateway ∷ "\n" ∷ [])
subnet_lines (suc _) cfg mask = "      - type: dhcp\n"

unfoldable pub interface_lines : ℕ → List String → NetworkConfig → String → String
unfolding subnet_lines
interface_lines i [] cfg mask = ""
interface_lines i (_ ∷ networks) cfg mask = concat_strings (
    "  - type: physical\n    name: "
    ∷ eth_name i
    ∷ "\n    subnets:\n"
    ∷ subnet_lines i cfg mask
    ∷ interface_lines (suc i) networks cfg mask
    ∷ [])

-- The search list is written only below name servers.
unfoldable pub name_server_lines : NetworkConfig → String
unfolding list_lines
name_server_lines cfg =
    if is_nil cfg.dns_servers
    then ""
    else concat_strings (
        "  - type: nameserver\n    address:\n"
        ∷ list_lines cfg.dns_servers
        ∷ (if is_nil cfg.dns_search
            then ""
            else str_append "    search:\n" (list_lines cfg.dns_search))
        ∷ [])

-- `buildNetworkDataStatic`
unfoldable pub build_network_data_static : NetworkConfig → Scope → String
unfolding interface_lines name_server_lines
build_network_data_static cfg s =
    let mask : String = elim (effective_vm_network_config s) [
      | none ↦ "255.255.0.0"
      | some vm ↦ vm.subnet_mask
    ] in
    concat_strings (
      "version: 1\nconfig:\n"
      ∷ interface_lines 0 s.hv_machine.spec.networks cfg mask
      ∷ name_server_lines cfg
      ∷ [])

-- `dhclientScriptContent`, by its lines.
abbrev dhclient_script : List String
dhclient_script =
    "#!/bin/bash" ∷ "case \"$reason\" in" ∷ "  PREINIT)" ∷ "    ip link set dev $interface up"
    ∷ "    ;;" ∷ "  BOUND|RENEW|REBIND|REBOOT)" ∷ "    ip addr flush dev $interface 2>/dev/null"
    ∷ "    IFS=. read -r a b c d <<< \"$new_subnet_mask\"" ∷ "    prefix=0"
    ∷ "    for octet in $a $b $c $d; do" ∷ "      while [ $octet -gt 0 ]; do"
    ∷ "        prefix=$((prefix + (octet & 1)))" ∷ "        octet=$((octet >> 1))" ∷ "      done"
    ∷ "    done" ∷ "    ip addr add $new_ip_address/$prefix dev $interface"
    ∷ "    if [ -n \"$new_routers\" ]; then"
    ∷ "      ip route add default via $new_routers dev $interface 2>/dev/null" ∷ "    fi"
    ∷ "    if [ -n \"$new_domain_name_servers\" ]; then" ∷ "      : > /etc/resolv.conf"
    ∷ "      for dns in $new_domain_name_servers; do"
    ∷ "        echo \"nameserver $dns\" >> /etc/resolv.conf" ∷ "      done" ∷ "    fi" ∷ "    ;;"
    ∷ "esac" ∷ []

abbrev script_path : String
script_path = "/usr/local/bin/dhclient-script-caphv.sh"

script_lines : List String → String
script_lines [] = ""
script_lines (line ∷ lines) = concat_strings ("    " ∷ line ∷ "\n" ∷ script_lines lines ∷ [])

-- One dhclient run for each interface.
unfoldable pub dhclient_lines : ℕ → List String → String
dhclient_lines i [] = ""
dhclient_lines i (_ ∷ networks) = concat_strings (
    "  - ['dhclient', '-1', '-sf', '"
    ∷ script_path
    ∷ "', '-lf', '/tmp/dhclient-"
    ∷ eth_name i
    ∷ ".lease', '-pf', '/tmp/dhclient-"
    ∷ eth_name i
    ∷ ".pid', '"
    ∷ eth_name i
    ∷ "']\n"
    ∷ dhclient_lines (suc i) networks
    ∷ [])

-- `buildDHCPCloudInit`
unfoldable pub build_dhcp_cloud_init : List String → String
unfolding script_lines dhclient_lines
build_dhcp_cloud_init networks = concat_strings (
    "bootcmd:\n"
    ∷ "  - |\n"
    ∷ "    cat > "
    ∷ script_path
    ∷ " << 'DHCSCRIPT'\n"
    ∷ script_lines dhclient_script
    ∷ "    DHCSCRIPT\n"
    ∷ "    chmod +x "
    ∷ script_path
    ∷ "\n"
    ∷ dhclient_lines 0 networks
    ∷ [])
