-- ===== src/NodeInit/Success.antt =====
-- What a true answer of `InitializeWorkloadNode` says of the node.
use cluster_api_provider_har.Common.{
  Bool-cases, List, String, [], ap, arith, false, inl, inr, length, refl, str_eq, true, ◌==◌, ◌↔◌,
  ◌∙◌, ◌∷◌, ◌≡◌, ◌≢◌, ◌≤◌, ◌⊎◌, eq_iff, is_empty,
}
use cluster_api_provider_har.Api.Meta.{Response, failed, ok}
use cluster_api_provider_har.Harvester.Types.{History, Node, Servers, Taint, get_node}
use cluster_api_provider_har.NodeInit.{
  clear_taint, has_uninitialized_taint, patch_fetched, remove_taint, set_provider_id,
  uninitialized_taint_key, initialize_found, initialize_workload_node,
}
use cluster_api_provider_har.Pool.Selection.{Any}
use cluster_api_provider_har.Etcd.{ClientGo}

has_uninitialized_taint-remove_taint :
    (ts : List Taint) → has_uninitialized_taint (remove_taint ts) ≡ false
unfolding has_uninitialized_taint remove_taint
has_uninitialized_taint-remove_taint [] = refl
has_uninitialized_taint-remove_taint (t ∷ ts) =
    ground (arith, has_uninitialized_taint-remove_taint ts)

-- `len(newTaints) != len(node.Spec.Taints)` tests exactly whether there was such a taint.
length-remove_taint_iff :
    (ts : List Taint)
    → (length (remove_taint ts) ≤ length ts)
      × ((length (remove_taint ts) ≡ length ts) ↔ (has_uninitialized_taint ts ≡ false))
unfolding has_uninitialized_taint remove_taint
length-remove_taint_iff [] = ground arith
length-remove_taint_iff (t ∷ ts) = ground (arith, length-remove_taint_iff ts)

-- Every other taint is kept, in its place among the others.
remove_taint_keeps :
    (t : Taint) (ts : List Taint)
    → str_eq t.key uninitialized_taint_key ≡ false
    → Any (λ u. u ≡ t) ts
    → Any (λ u. u ≡ t) (remove_taint ts)
unfolding remove_taint
remove_taint_keeps t [] other m = m
remove_taint_keeps t (x ∷ xs) other (inl e) =
    rw (ap (λ (u : Taint). str_eq u.key uninitialized_taint_key) e ∙ other, remove_taint) (inl e)
remove_taint_keeps t (x ∷ xs) other (inr m) =
    elim (Bool-cases (str_eq x.key uninitialized_taint_key)) [
      | inl gone ↦ rw (gone, remove_taint) (remove_taint_keeps t xs other m)
      | inr kept ↦ rw (kept, remove_taint) (inr (remove_taint_keeps t xs other m))
    ]

module _ (servers : Servers) where
  -- Some call found the node, or had it patched, so that it carries a provider ID.
  abbrev pub HasProviderId : String → String → Type 0
  HasProviderId name provider_id =
      ((k : History) × (node : Node) × (servers.on_get_node k name ≡ ok node)
        × (node.provider_id ≢ ""))
      ⊎ ((k : History) × (servers.on_patch_provider_id k name provider_id ≡ ok tt))

  -- Some call found the node without the taint, or accepted its other taints as the new list.
  abbrev pub IsUntainted : String → Type 0
  IsUntainted name =
      (k : History) × (node : Node) × (servers.on_get_node k name ≡ ok node)
      × ((has_uninitialized_taint node.taints ≡ false)
          ⊎ ((k' : History) × (servers.on_patch_taints k' name (remove_taint node.taints) ≡ ok tt)))

  set_provider_id-true :
      (name provider_id : String) (h : History)
      → (set_provider_id servers true name provider_id h).0 ≡ true
      → servers.on_patch_provider_id h name provider_id ≡ ok tt
  unfolding set_provider_id
  set_provider_id-true name provider_id h e = ground arith

  clear_taint-true :
      (name : String) (h : History) → (clear_taint servers true name h).0 ≡ true → IsUntainted name
  unfolding clear_taint patch_fetched
  clear_taint-true name h e = go (servers.on_get_node h name) refl
    where
      go : (r : Response Node) → servers.on_get_node h name ≡ r → IsUntainted name
      go (failed x) p = absurd (ground arith)
      go (ok node) p = elim (Bool-cases (length (remove_taint node.taints) == length node.taints)) [
        | inl same ↦ (h, node, p, inl (ground (arith, length-remove_taint_iff node.taints)))
        | inr fewer ↦ (h, node, p, inr (get_node name ∷ h, ground arith))
      ]

  initialize_found_parts :
      (name provider_id : String) (h : History) (node : Node)
      → (initialize_found servers name provider_id node h).0 ≡ true
      → ((is_empty node.provider_id ≡ false)
          ⊎ ((set_provider_id servers true name provider_id h).0 ≡ true))
        × ((has_uninitialized_taint node.taints ≡ false)
            ⊎ ((clear_taint servers true name
                  (set_provider_id servers (is_empty node.provider_id) name provider_id h).1).0
                ≡ true))
  unfolding initialize_found set_provider_id
  initialize_found_parts name provider_id h node e = ground arith

  initialize_found-true :
      (name provider_id : String) (k h : History) (node : Node)
      → servers.on_get_node k name ≡ ok node
      → (initialize_found servers name provider_id node h).0 ≡ true
      → HasProviderId name provider_id × IsUntainted name
  initialize_found-true name provider_id k h node found e =
      let (p, q) = initialize_found_parts name provider_id h node e in
      (
        elim p [
          | inl has ↦ inl (k, node, found, λ x. ground (arith, x, has, eq_iff node.provider_id ""))
          | inr set ↦ inr (h, set_provider_id-true name provider_id h set)
        ],
        elim q [
          | inl clean ↦ (k, node, found, inl clean)
          | inr cleared ↦ clear_taint-true name _ cleared
        ],
      )

  -- Where the initialization reports success, the node was found with a provider ID or had the given
  -- one accepted, and was found without the taint or had its other taints accepted as the new list.
  pub initialize_workload_node-true :
      (client_go : ClientGo) (config name provider_id : String) (h : History)
      → (initialize_workload_node servers client_go config name provider_id h).0 ≡ true
      → HasProviderId name provider_id × IsUntainted name
  unfolding initialize_workload_node
  initialize_workload_node-true client_go config name provider_id h e =
      go (servers.on_get_node h name) refl
    where
      go :
          (r : Response Node)
          → servers.on_get_node h name ≡ r
          → HasProviderId name provider_id × IsUntainted name
      go (failed x) p = absurd (ground arith)
      go (ok node) p =
          initialize_found-true name provider_id h (get_node name ∷ h) node p (ground (arith, p, e))
