-- ===== src/Cluster/Reconcile/Frozen.antt =====
-- When a cluster is left alone, and what is patched.
use cluster_api_provider_har.Common.{
  Option, Option-cases, [], false, inl, inr, none, refl, some, true, ◌≡◌, ◌⊎◌, Bool,
}
use cluster_api_provider_har.Api.Cluster.{HarvesterCluster}
use cluster_api_provider_har.Api.Condition.{Conditions, Finalizers}
use cluster_api_provider_har.Api.Meta.{
  Response, Result, already_exists, error, failed, not_found, ok, other_error, value, Error,
}
use cluster_api_provider_har.CloudProvider.Codec.{Codec}
use cluster_api_provider_har.Cluster.Connection.{Kubeconfigs}
use cluster_api_provider_har.Cluster.Reconcile.{
  ClusterManagement, Reconciled, patch_cluster, reconcile_cluster, reconcile_found, reconcile_owned,
  reconcile_unpaused, reconcile_connected, reconcile_answered, reconcile_response,
}
use cluster_api_provider_har.Harvester.Cluster.{ClusterHistory, ClusterServers}
use cluster_api_provider_har.Machine.Scope.{Outcome, OwnerCluster, done_result}
use cluster_api_provider_har.Pool.Allocate.{Allocator}
use cluster_api_provider_har.Pool.Net.{Net}

module _ (conditions : Conditions) (servers : ClusterServers) (finalizers : Finalizers)
    (codec : Codec) (net : Net) (allocator : Allocator net) (kubeconfigs : Kubeconfigs)
    (management : ClusterManagement) where
  -- The cluster was found with its owner, and neither is paused.
  unfoldable pub IsActive : Type 0
  IsActive =
      (c : HarvesterCluster) × (c' : HarvesterCluster) × (owner : OwnerCluster)
      × (management.get_cluster ≡ ok c)
      × (management.get_owner_cluster c ≡ value (some owner))
      × (management.ensure_paused_condition owner c
          ≡ (record { is_paused = false; requeue = false; err = none }, c'))

  found_active :
      (c c' : HarvesterCluster) (owner : OwnerCluster)
      → management.get_cluster ≡ ok c
      → management.get_owner_cluster c ≡ value (some owner)
      → management.ensure_paused_condition owner c
        ≡ (record { is_paused = false; requeue = false; err = none }, c')
      → IsActive
  unfolding IsActive
  found_active c c' owner found owned answer = (c, c', owner, found, owned, answer)

  -- What is patched says in both fields whether the cluster is ready.
  abbrev pub IsInSync : Reconciled → Type 0
  IsInSync r =
      (r.patched ≡ none)
      ⊎ ((c : HarvesterCluster) × (r.patched ≡ some c)
          × (c.status.initialization.provisioned ≡ c.status.ready))

  abbrev pub IsLeftAlone : Reconciled → Type 0
  IsLeftAlone r = (r.calls ≡ []) ⊎ IsActive

  abbrev Fine : Reconciled → Type 0
  Fine r = IsInSync r × IsLeftAlone r

  patch_cluster-Fine :
      (out : Outcome) (c : HarvesterCluster) (h : ClusterHistory)
      → (h ≡ []) ⊎ IsActive
      → Fine (patch_cluster (out, c) h)
  unfolding patch_cluster
  patch_cluster-Fine out c h p = (inr (_, refl, refl), p)

  reconcile_owned-Fine :
      (c : HarvesterCluster) (owner : OwnerCluster)
      → management.get_cluster ≡ ok c
      → management.get_owner_cluster c ≡ value (some owner)
      → Fine (
          reconcile_owned conditions servers finalizers codec net allocator kubeconfigs management
            owner c)
  unfolding reconcile_owned reconcile_answered reconcile_unpaused
  reconcile_owned-Fine c owner found owned =
      let a = management.ensure_paused_condition owner c in
      go a.0.is_paused a.0.requeue a.0.err a.1 refl
    where
      go :
          (p q : Bool) (e : Option Error) (c' : HarvesterCluster)
          → management.ensure_paused_condition owner c
            ≡ (record { is_paused = p; requeue = q; err = e }, c')
          → Fine (
              reconcile_answered conditions servers finalizers codec net allocator kubeconfigs
                management owner
                (record { is_paused = p; requeue = q; err = e })
                c')
      go p q (some e) c' f = patch_cluster-Fine (done_result, some e) c' [] (inl refl)
      go true q none c' f = patch_cluster-Fine (done_result, none) c' [] (inl refl)
      go false true none c' f = patch_cluster-Fine (done_result, none) c' [] (inl refl)
      go false false none c' f =
          let (out, s) =
            reconcile_connected conditions servers finalizers codec net allocator kubeconfigs
              (record { cluster = owner; hv_cluster = c'; calls = [] }) in
          patch_cluster-Fine out s.hv_cluster s.calls (inr (found_active c c' owner found owned f))

  reconcile_found-Fine :
      (c : HarvesterCluster)
      → management.get_cluster ≡ ok c
      → Fine (
          reconcile_found conditions servers finalizers codec net allocator kubeconfigs management
            c)
  unfolding reconcile_found
  reconcile_found-Fine c found = elim (Option-cases (management.new_patch_helper c)) [
    | inr (e, f) ↦ rw (f, reconcile_found) (inl refl, inl refl)
    | inl f ↦ rw (f, reconcile_found) (go (management.get_owner_cluster c) refl)
  ]
    where
      go :
          (o : Result (Option OwnerCluster))
          → management.get_owner_cluster c ≡ o
          → Fine (elim (management.get_owner_cluster c) as (λ _. Reconciled) [
            | error e ↦ patch_cluster ((done_result, some e), c) []
            | value none ↦ patch_cluster ((done_result, none), c) []
            | value (some owner) ↦
                reconcile_owned conditions servers finalizers codec net allocator kubeconfigs
                  management owner c
          ])
      go (error e) f = rw f (patch_cluster-Fine (done_result, some e) c [] (inl refl))
      go (value none) f = rw f (patch_cluster-Fine (done_result, none) c [] (inl refl))
      go (value (some owner)) f = rw f (reconcile_owned-Fine c owner found f)

  -- Reconcile of a cluster makes no call on Harvester or for Fleet unless the cluster was found with its owner and neither is paused; and what it patches says in status.initialization.provisioned what it says in status.ready.
  pub reconcile_cluster_frozen :
      IsInSync
        (reconcile_cluster conditions servers finalizers codec net allocator kubeconfigs management)
      × IsLeftAlone (
          reconcile_cluster conditions servers finalizers codec net allocator kubeconfigs
            management)
  unfolding reconcile_cluster reconcile_response
  reconcile_cluster_frozen = go management.get_cluster refl
    where
      go :
          (r : Response HarvesterCluster)
          → management.get_cluster ≡ r
          → Fine (
              reconcile_response conditions servers finalizers codec net allocator kubeconfigs
                management r)
      go (ok c) f = reconcile_found-Fine c f
      go (failed not_found) f = (inl refl, inl refl)
      go (failed already_exists) f = (inl refl, inl refl)
      go (failed other_error) f = (inl refl, inl refl)
