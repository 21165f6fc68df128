-- ===== src/Cluster/Fleet/Labels.antt =====
-- Which labels Fleet sees.
use cluster_api_provider_har.Common.{
  Bool, Bool-cases, String, [], inl, inr, none, refl, some, str_eq, true, ◌∙◌, ◌∷◌, ◌≡◌, arith,
  eq_iff, false, ◌⊎◌, ap, sym, Option, if◌then◌else◌, str_eq_refl, ◌||◌, ◌≢◌,
}
use cluster_api_provider_har.Cluster.Fleet.{
  merge_labels, labels_to_propagate, propagated, set_fleet, propagate_labels, send_labels,
  stop_fleet,
}
use cluster_api_provider_har.Common.Dict.{Dict, HasDistinctKeys, insert, lookup, lookup-insert}
use cluster_api_provider_har.Pool.Store.{value_or_empty}
use cluster_api_provider_har.Machine.Scope.{OwnerCluster}
use cluster_api_provider_har.Common.Flow.{Flow, done, next}
use cluster_api_provider_har.Api.Condition.{Conditions, Reason}
use cluster_api_provider_har.Api.Meta.{ApiError, failed, ok, Response}
use cluster_api_provider_har.Cluster.Scope.{ClusterScope, log_cluster_call}
use cluster_api_provider_har.Harvester.Cluster.{ClusterServers, FleetCluster, update_fleet_cluster}

-- The labels by `lookup` after the loop.
merge_labels-lookup :
    (wanted existing : Dict String) (changed : Bool) (k : String)
    → HasDistinctKeys wanted
    → value_or_empty (lookup k (merge_labels wanted existing changed).0)
      ≡ (elim (lookup k wanted) as (λ _. String) [
        | none ↦ value_or_empty (lookup k existing)
        | some v ↦ v
      ])
unfolding merge_labels lookup
merge_labels-lookup [] existing changed k h = refl
merge_labels-lookup ((j, v) ∷ wanted) existing changed k (fresh, h) =
    elim (Bool-cases (str_eq (value_or_empty (lookup j existing)) v)) [
      | inl same ↦
          rw (same, merge_labels)
            (merge_labels-lookup wanted existing changed k h
              ∙ ground (arith, eq_iff j k, eq_iff (value_or_empty (lookup j existing)) v))
      | inr other ↦
          rw (other, merge_labels)
            (merge_labels-lookup wanted (insert j v existing) true k h
              ∙ ground (arith, eq_iff j k, lookup-insert j k v existing))
    ]

-- Without a change nothing is written.
merge_labels_unchanged :
    (wanted existing : Dict String) (changed : Bool)
    → (merge_labels wanted existing changed).1 ≡ false
    → ((merge_labels wanted existing changed).0 ≡ existing) × (changed ≡ false)
unfolding merge_labels
merge_labels_unchanged [] existing changed h = (refl, h)
merge_labels_unchanged ((j, v) ∷ wanted) existing changed h = ground (
  arith,
  merge_labels_unchanged wanted existing changed,
  merge_labels_unchanged wanted (insert j v existing) true,
)

-- A change is made only where some label is not what it is to be.
merge_labels_changed :
    (wanted existing : Dict String)
    → HasDistinctKeys wanted
    → (merge_labels wanted existing false).1 ≡ true
    → (k : String) × (v : String) × (lookup k wanted ≡ some v)
      × (value_or_empty (lookup k existing) ≢ v)
unfolding merge_labels lookup
merge_labels_changed [] existing h e = absurd (cc e)
merge_labels_changed ((j, v) ∷ wanted) existing (fresh, h) e =
    elim (Bool-cases (str_eq (value_or_empty (lookup j existing)) v)) [
      | inl same ↦
          let (k, w, found, other) =
            merge_labels_changed wanted existing h (ground (arith, e, same)) in
          (k, w, ground (arith, fresh, found, eq_iff j k), other)
      | inr other ↦ (
        j,
        v,
        ground (arith, str_eq_refl j),
        λ q. ground (arith, other, q, eq_iff (value_or_empty (lookup j existing)) v),
      )
    ]

labels_to_propagate-HasDistinctKeys : (c : OwnerCluster) → HasDistinctKeys (labels_to_propagate c)
unfolding labels_to_propagate propagated lookup
labels_to_propagate-HasDistinctKeys c = ground (arith)

-- What is taken of a label of the Cluster: what it was in Fleet stays where the Cluster has none.
abbrev pub label_or : String → Option String → String
label_or old none = old
label_or old (some v) = v

-- What a label of the Fleet cluster is to be: the name of the cluster, the label of the Cluster where it has it and it is one of three, or what it was.
abbrev pub wanted_label : OwnerCluster → Dict String → String → String
wanted_label c existing k =
    let old = value_or_empty (lookup k existing) in
    if str_eq k "cluster.x-k8s.io/cluster-name"
    then c.name
    else if str_eq k "cni" || str_eq k "csi" || str_eq k "cloud-config"
    then label_or old (lookup k c.labels)
    else old

lookup-labels_to_propagate :
    (c : OwnerCluster) (existing : Dict String) (k : String)
    → (elim (lookup k (labels_to_propagate c)) as (λ _. String) [
      | none ↦ value_or_empty (lookup k existing)
      | some v ↦ v
    ])
      ≡ wanted_label c existing k
unfolding labels_to_propagate propagated lookup
lookup-labels_to_propagate c existing k = ground (
  arith,
  eq_iff "cluster.x-k8s.io/cluster-name" k,
  eq_iff k "cluster.x-k8s.io/cluster-name",
  eq_iff "cni" k,
  eq_iff k "cni",
  eq_iff "csi" k,
  eq_iff k "csi",
  eq_iff "cloud-config" k,
  eq_iff k "cloud-config",
)

module _ (servers : ClusterServers) (conditions : Conditions) where
  -- The Fleet cluster with its labels after the update.
  abbrev pub IsPropagated : ClusterScope → FleetCluster → FleetCluster → Type 0
  IsPropagated s fc updated =
      (updated.name ≡ fc.name)
      × ((k : String)
          → value_or_empty (lookup k updated.labels) ≡ wanted_label s.cluster fc.labels k)

  -- Some label of the Fleet cluster is not what it is to be.
  abbrev pub IsOutdated : ClusterScope → FleetCluster → Type 0
  IsOutdated s fc =
      (k : String) × (value_or_empty (lookup k fc.labels) ≢ wanted_label s.cluster fc.labels k)

  -- The labels are right already and nothing is sent, or Fleet has accepted the right ones, or it has refused them and the condition says so.
  abbrev pub PropagationEnds :
      ClusterScope → FleetCluster → Flow ClusterScope (Unit {0}) (Unit {0}) → Type 0
  PropagationEnds s fc f =
      ((f ≡ next tt s) × IsPropagated s fc fc)
      ⊎ (IsOutdated s fc
          × (updated : FleetCluster) × IsPropagated s fc updated
          × (((servers.on_update_fleet_cluster s.calls updated ≡ ok tt)
                × (f ≡ next tt (log_cluster_call (update_fleet_cluster updated) s)))
              ⊎ ((e : ApiError) × (servers.on_update_fleet_cluster s.calls updated ≡ failed e)
                  × (f
                      ≡ done tt (
                          set_fleet conditions servers false Reason.fleet_integration_failed
                            (log_cluster_call (update_fleet_cluster updated) s))))))

  -- Either the Fleet cluster has the labels already and the propagation sends nothing, or some label of it differs and it sends the cluster with its labels changed to the name of the cluster and to those of the labels cni, csi and cloud-config that the Cluster has, with no other label changed, and goes on only where Fleet accepts it.
  pub propagate_labels_ends :
      (s : ClusterScope) (fc : FleetCluster)
      → PropagationEnds s fc (propagate_labels conditions servers fc s)
  unfolding propagate_labels send_labels stop_fleet
  propagate_labels_ends s fc =
      go (merge_labels (labels_to_propagate s.cluster) fc.labels false) refl
    where
      merged : Dict String × Bool
      merged = merge_labels (labels_to_propagate s.cluster) fc.labels false

      right : (k : String) → value_or_empty (lookup k merged.0) ≡ wanted_label s.cluster fc.labels k
      right k =
          merge_labels-lookup (labels_to_propagate s.cluster) fc.labels false k
            (labels_to_propagate-HasDistinctKeys s.cluster)
          ∙ lookup-labels_to_propagate s.cluster fc.labels k

      updated : FleetCluster
      updated = record fc { labels = merged.0 }

      outdated : merged.1 ≡ true → IsOutdated s fc
      outdated e =
          let (k, v, found, other) =
            merge_labels_changed (labels_to_propagate s.cluster) fc.labels
              (labels_to_propagate-HasDistinctKeys s.cluster) e in
          (
            k,
            λ q.
                other
                  (q ∙ (sym (lookup-labels_to_propagate s.cluster fc.labels k) ∙ rw found refl)),
          )

      sent :
          IsOutdated s fc
          → (r : Response (Unit {0})) → servers.on_update_fleet_cluster s.calls updated ≡ r
          → PropagationEnds s fc (send_labels conditions servers updated s)
      sent old (ok tt) e = rw (e, send_labels) (inr (old, updated, (refl, right), inl (e, refl)))
      sent old (failed x) e =
          rw (e, send_labels) (inr (old, updated, (refl, right), inr (x, e, refl)))

      go :
          (m : Dict String × Bool)
          → merged ≡ m
          → PropagationEnds s fc (propagate_labels conditions servers fc s)
      go (labels, true) e =
          rw (ap (λ (x : Dict String × Bool). x.1) e, propagate_labels)
            (sent (outdated (ap (λ (x : Dict String × Bool). x.1) e))
              (servers.on_update_fleet_cluster s.calls updated) refl)
      go (labels, false) e =
          let unchanged = ap (λ (x : Dict String × Bool). x.1) e in
          let (same, _) =
            merge_labels_unchanged (labels_to_propagate s.cluster) fc.labels false unchanged in
          rw (unchanged, propagate_labels)
            (inl (refl, (refl, λ k. ap (λ d. value_or_empty (lookup k d)) (sym same) ∙ right k)))
