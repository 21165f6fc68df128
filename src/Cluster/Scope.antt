-- ===== src/Cluster/Scope.antt =====
-- The `ClusterScope` of the cluster reconciler: the objects that it reads and writes, and the calls
-- made. `hv_cluster` is a pointer in the source, shared by all functions.
use cluster_api_provider_har.Common.{Bool, List, String, [], ℕ, ◌∷◌}
use cluster_api_provider_har.Api.Cluster.{
  HarvesterCluster, HarvesterClusterSpec, HarvesterClusterStatus,
}
use cluster_api_provider_har.Api.Condition.{Condition, ConditionType, Conditions, Reason}
use cluster_api_provider_har.Harvester.Cluster.{ClusterCall, ClusterHistory}
use cluster_api_provider_har.Machine.Scope.{OwnerCluster}
use cluster_api_provider_har.Names.Label.{generate_rfc1035_name}

pub record ClusterScope : Type 0 where
  pub cluster : OwnerCluster
  pub hv_cluster : HarvesterCluster
  pub calls : ClusterHistory

-- `requeueTimeMedium` and `requeueTimeLong`, in seconds.
abbrev pub requeue_time_medium : ℕ
requeue_time_medium = 300

abbrev pub requeue_time_long : ℕ
requeue_time_long = 180

abbrev pub log_cluster_call : ClusterCall → ClusterScope → ClusterScope
log_cluster_call c s = record s { calls = c ∷ s.calls }

abbrev pub update_cluster_status :
    (HarvesterClusterStatus → HarvesterClusterStatus) → ClusterScope → ClusterScope
update_cluster_status f s = record s {
  hv_cluster = record s.hv_cluster { status = f s.hv_cluster.status };
}

abbrev pub update_cluster_spec :
    (HarvesterClusterSpec → HarvesterClusterSpec) → ClusterScope → ClusterScope
update_cluster_spec f s = record s {
  hv_cluster = record s.hv_cluster { spec = f s.hv_cluster.spec };
}

abbrev pub update_conditions : (List Condition → List Condition) → ClusterScope → ClusterScope
update_conditions f = update_cluster_status (λ st. record st { conditions = f st.conditions })

-- `conditions.Set(scope.HarvesterCluster, v1.Condition{...})`
abbrev pub set_condition : Conditions → ConditionType → Bool → Reason → ClusterScope → ClusterScope
set_condition conditions t status reason =
    update_conditions (conditions.set (record { type = t; status = status; reason = reason }))

abbrev pub has_condition : Conditions → ConditionType → ClusterScope → Bool
has_condition conditions t s = conditions.is_true s.hv_cluster.status.conditions t

abbrev pub set_ready : Bool → ClusterScope → ClusterScope
set_ready b = update_cluster_status (λ st. record st { ready = b })

abbrev pub set_cluster_finalizers : List String → ClusterScope → ClusterScope
set_cluster_finalizers fs s = record s {
  hv_cluster = record s.hv_cluster { meta = record s.hv_cluster.meta { finalizers = fs } };
}

-- The names that are generated for a cluster: `GenerateRFC1035Name` of its namespace, its name and
-- what is named.
abbrev pub generated_name : String → HarvesterCluster → String
generated_name suffix c = generate_rfc1035_name (c.meta.namespace ∷ c.meta.name ∷ suffix ∷ [])

-- `scope.HarvesterCluster.Spec.TargetNamespace`
abbrev pub target_namespace_of : ClusterScope → String
target_namespace_of s = s.hv_cluster.spec.target_namespace
