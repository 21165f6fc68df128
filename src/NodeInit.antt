-- ===== src/NodeInit.antt =====
-- util/node_init.go: the initialization of a node of the workload cluster.
pub mod Success
use cluster_api_provider_har.Common.{
  Bool, List, String, [], false, if◌then◌else◌, is_empty, length, str_eq, true, ◌==◌, ◌||◌, ◌∷◌,
}
use cluster_api_provider_har.Api.Meta.{Result, failed, ok}
use cluster_api_provider_har.Etcd.{ClientGo}
use cluster_api_provider_har.Harvester.Types.{
  History, Node, Servers, Taint, get_node, patch_provider_id, patch_taints,
}

abbrev pub uninitialized_taint_key : String
uninitialized_taint_key = "node.cloudprovider.kubernetes.io/uninitialized"

-- `hasUninitializedTaint`
unfoldable pub has_uninitialized_taint : List Taint → Bool
has_uninitialized_taint [] = false
has_uninitialized_taint (t ∷ ts) =
    str_eq t.key uninitialized_taint_key || has_uninitialized_taint ts

-- `removeTaint`
unfoldable pub remove_taint : List Taint → List Taint
remove_taint [] = []
remove_taint (t ∷ ts) =
    let rest = remove_taint ts in if str_eq t.key uninitialized_taint_key then rest else t ∷ rest

module _ (servers : Servers) where
  -- The patch of the provider ID; false is the early `return false`.
  unfoldable pub set_provider_id : Bool → String → String → History → Bool × History
  set_provider_id false name provider_id h = (true, h)
  set_provider_id true name provider_id h = elim (servers.on_patch_provider_id h name provider_id) [
    | failed _ ↦ (false, patch_provider_id name provider_id ∷ h)
    | ok _ ↦ (true, patch_provider_id name provider_id ∷ h)
  ]

  -- The taints of the node that was fetched again.
  unfoldable pub patch_fetched : String → Node → History → Bool × History
  patch_fetched name node h =
      if length (remove_taint node.taints) == length node.taints
      then (true, h)
      else elim (servers.on_patch_taints h name (remove_taint node.taints)) [
        | failed _ ↦ (false, patch_taints name (remove_taint node.taints) ∷ h)
        | ok _ ↦ (true, patch_taints name (remove_taint node.taints) ∷ h)
      ]

  -- The removal of the taint, with the node fetched again.
  unfoldable pub clear_taint : Bool → String → History → Bool × History
  unfolding patch_fetched
  clear_taint false name h = (true, h)
  clear_taint true name h = elim (servers.on_get_node h name) [
    | failed _ ↦ (false, get_node name ∷ h)
    | ok node ↦ patch_fetched name node (get_node name ∷ h)
  ]

  -- What is done to a node that was found.
  unfoldable pub initialize_found : String → String → Node → History → Bool × History
  unfolding set_provider_id clear_taint
  initialize_found name provider_id node h =
      if is_empty node.provider_id || has_uninitialized_taint node.taints
      then (let (set, h') = set_provider_id (is_empty node.provider_id) name provider_id h in
          if set then clear_taint (has_uninitialized_taint node.taints) name h' else (false, h'))
      else (true, h)

  -- `InitializeWorkloadNode`
  unfoldable pub initialize_workload_node :
      ClientGo → String → String → String → History → Bool × History
  unfolding initialize_found
  initialize_workload_node client_go config name provider_id h =
      if is_empty provider_id
      then (false, h)
      else if client_go.builds_client config
      then elim (servers.on_get_node h name) [
        | failed _ ↦ (false, get_node name ∷ h)
        | ok node ↦ initialize_found name provider_id node (get_node name ∷ h)
      ]
      else (false, h)
