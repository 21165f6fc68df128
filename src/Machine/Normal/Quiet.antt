-- ===== src/Machine/Normal/Quiet.antt =====
-- The parts of the normal reconciliation that send no VM.
use cluster_api_provider_har.Common.{
  List, Option, String, Bool, [], ◌∷◌, none, some, false, ◌≡◌, refl, ◌∙◌, inl, inr, arith, suc, ℕ,
  Bool-cases, Option-cases, is_empty,
}
use cluster_api_provider_har.Api.Meta.{Error, Result, error, value}
use cluster_api_provider_har.Etcd.{ClientGo}
use cluster_api_provider_har.Harvester.Types.{History, Node, Servers}
use cluster_api_provider_har.Machine.Address.{
  allocate_vm_ip, try_found, try_pool, try_pools, update_allocated, Attempt, failed_pool,
  other_network, returned,
}
use cluster_api_provider_har.Machine.Create.Quiet.{created_vms}
use cluster_api_provider_har.Machine.Scope.{Scope, effective_vm_network_config}
use cluster_api_provider_har.Machine.Workload.{
  get_provider_id_from_workload_cluster, get_workload_cluster_config, initialize_node,
  read_kubeconfig,
}
use cluster_api_provider_har.NodeInit.{
  clear_taint, initialize_found, initialize_workload_node, patch_fetched, set_provider_id,
}
use cluster_api_provider_har.Pool.Allocate.{Allocator}
use cluster_api_provider_har.Pool.Net.{Net}
use cluster_api_provider_har.Api.Cluster.{get_ip_pool_refs}

-- What an allocation leaves alone.
abbrev pub Calm : Scope → Scope → Type 0
Calm s t =
    (created_vms t.calls ≡ created_vms s.calls)
    × (t.hv_machine.meta ≡ s.hv_machine.meta)
    × (t.hv_machine.spec.volumes ≡ s.hv_machine.spec.volumes)
    × (t.hv_cluster ≡ s.hv_cluster)
    × (t.hv_machine.status.conditions ≡ s.hv_machine.status.conditions)

Calm-trans : (s t u : Scope) → Calm s t → Calm t u → Calm s u
Calm-trans s t u a b = (b.0 ∙ a.0, b.1 ∙ a.1, b.2 ∙ a.2, b.3 ∙ a.3, b.4 ∙ a.4)

module _ (net : Net) (allocator : Allocator net) (servers : Servers) where
  try_pool-Calm : (ref : String) (s : Scope) → Calm s (try_pool net allocator servers ref s).1
  unfolding try_pool try_found update_allocated
  try_pool-Calm ref s = ground arith

  try_pools-Calm :
      (refs : List String) (last_err : Option Error) (skipped : ℕ) (s : Scope)
      → Calm s (try_pools net allocator servers refs last_err skipped s).1
  unfolding try_pools
  try_pools-Calm [] last_err skipped s = (refl, refl, refl, refl, refl)
  try_pools-Calm (ref ∷ refs) last_err skipped s =
      go (λ e n t. try_pools-Calm refs e n t) (try_pool net allocator servers ref s)
        (try_pool-Calm ref s)
    where
      go :
          ((e : Option Error) (n : ℕ) (t : Scope)
            → Calm t (try_pools net allocator servers refs e n t).1)
          → (out : Attempt × Scope) → Calm s out.1
          → Calm s
              (elim out.0 as (λ _. Option Error × Scope) [
                | failed_pool e ↦ try_pools net allocator servers refs (some e) skipped out.1
                | other_network ↦ try_pools net allocator servers refs last_err (suc skipped) out.1
                | returned e ↦ (e, out.1)
              ]).1
      go rest (failed_pool e, t) c =
          Calm-trans s t (try_pools net allocator servers refs (some e) skipped t).1 c
            (rest (some e) skipped t)
      go rest (other_network, t) c =
          Calm-trans s t (try_pools net allocator servers refs last_err (suc skipped) t).1 c
            (rest last_err (suc skipped) t)
      go rest (returned e, t) c = c

  pub allocate_vm_ip-Calm : (s : Scope) → Calm s (allocate_vm_ip net allocator servers s).1
  unfolding allocate_vm_ip
  allocate_vm_ip-Calm s = elim (Option-cases (effective_vm_network_config s)) [
    | inl unset ↦ ground (arith, unset)
    | inr (cfg, is_set) ↦ ground (arith, is_set, try_pools-Calm (get_ip_pool_refs cfg) none 0 s)
  ]

module _ (client_go : ClientGo) (servers : Servers) where
  initialize_found-created :
      (name provider_id : String) (node : Node) (h : History)
      → created_vms (initialize_found servers name provider_id node h).1 ≡ created_vms h
  unfolding initialize_found set_provider_id clear_taint patch_fetched
  initialize_found-created name provider_id node h = ground arith

  initialize_workload_node-created :
      (config name provider_id : String) (h : History)
      → created_vms (initialize_workload_node servers client_go config name provider_id h).1
        ≡ created_vms h
  unfolding initialize_workload_node
  initialize_workload_node-created config name provider_id h =
      ground (arith, initialize_found-created name provider_id)

  get_workload_cluster_config-created :
      (s : Scope)
      → created_vms (get_workload_cluster_config client_go servers s).1.calls ≡ created_vms s.calls
  unfolding get_workload_cluster_config read_kubeconfig
  get_workload_cluster_config-created s = ground arith

  pub initialize_node-created :
      (s : Scope) → created_vms (initialize_node client_go servers s).1.calls ≡ created_vms s.calls
  unfolding initialize_node
  initialize_node-created s = elim (Bool-cases (is_empty s.hv_machine.spec.provider_id)) [
    | inl unset ↦ rw (unset, initialize_node) refl
    | inr is_set ↦
        rw (is_set, initialize_node)
          (go (get_workload_cluster_config client_go servers s)
            (get_workload_cluster_config-created s))
  ]
    where
      init : String → Scope → Bool × History
      init c t =
          initialize_workload_node servers client_go c s.hv_machine.meta.name
            s.hv_machine.spec.provider_id t.calls

      go :
          (out : Result String × Scope)
          → created_vms out.1.calls ≡ created_vms s.calls
          → created_vms
              (elim out.0 as (λ _. Bool × Scope) [
                | error _ ↦ (false, out.1)
                | value c ↦ ((init c out.1).0, record out.1 { calls = (init c out.1).1 })
              ]).1.calls
            ≡ created_vms s.calls
      go (error e, t) c = c
      go (value config, t) c =
          initialize_workload_node-created config s.hv_machine.meta.name
            s.hv_machine.spec.provider_id t.calls
          ∙ c

  pub get_provider_id-Calm :
      (s : Scope) → Calm s (get_provider_id_from_workload_cluster client_go servers s).1
  unfolding get_provider_id_from_workload_cluster get_workload_cluster_config read_kubeconfig
  get_provider_id-Calm s = ground arith
