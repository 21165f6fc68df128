-- ===== src/Cluster/Endpoint.antt =====
-- The endpoint of a cluster that is ready, along the functions of
-- internal/controller/harvestercluster_controller.go.
pub mod Pools
pub mod Config
pub mod Placeholder
use cluster_api_provider_har.Common.{
  String, false, is_empty, refl, true, ◌≡◌, Bool, if◌then◌else◌, ◌⊎◌,
}
use cluster_api_provider_har.Common.Flow.{Code, Flow, done, modify, next, run, ◌>>=◌, gets}
use cluster_api_provider_har.Api.Condition.{ConditionType, Conditions, Reason}
use cluster_api_provider_har.Cluster.Scope.{ClusterScope, set_condition}

-- A cluster is not ready, or it has an endpoint, at the port of the API server.
unfoldable pub HasEndpoint : ClusterScope → Type 0
HasEndpoint s =
    (s.hv_cluster.status.ready ≡ false)
    ⊎ ((is_empty s.hv_cluster.spec.control_plane_endpoint.host ≡ false)
        × (s.hv_cluster.spec.control_plane_endpoint.port ≡ 6443))

abbrev pub state_of : {R A : Type 0} → Flow ClusterScope R A → ClusterScope
state_of f = elim f [ next _ s ↦ s | done _ s ↦ s ]

unfoldable pub Keeps : {R A : Type 0} → Code ClusterScope R A → Type 0
Keeps m = (s : ClusterScope) → HasEndpoint s → HasEndpoint (state_of (m s))

abbrev pub Preserves : {A : Type 0} → (ClusterScope → A × ClusterScope) → Type 0
Preserves f = (s : ClusterScope) → HasEndpoint s → HasEndpoint (f s).1

-- One piece of code after another.
pub bind-Keeps :
    {R A B : Type 0} (m : Code ClusterScope R A) (k : A → Code ClusterScope R B)
    → Keeps m
    → ((a : A) → Keeps (k a))
    → Keeps (m >>= k)
unfolding Keeps
bind-Keeps {R} {A} {B} m k keep_m keep_k s h = go (m s) (keep_m s h)
  where
    go :
        (f : Flow ClusterScope R A)
        → HasEndpoint (state_of f)
        → HasEndpoint (
            state_of
              (elim f as (λ _. Flow ClusterScope R B) [ next a t ↦ k a t | done r t ↦ done r t ]))
    go (next a t) e = keep_k a t e
    go (done r t) e = e

pub run-Preserves : {R : Type 0} (m : Code ClusterScope R R) → Keeps m → Preserves (run m)
unfolding Keeps
run-Preserves {R} m keep s h = go (m s) (keep s h)
  where
    go :
        (f : Flow ClusterScope R R)
        → HasEndpoint (state_of f)
        → HasEndpoint
            (elim f as (λ _. R × ClusterScope) [ next r t ↦ (r, t) | done r t ↦ (r, t) ]).1
    go (next r t) e = e
    go (done r t) e = e

-- What touches neither the endpoint nor whether the cluster is ready.
pub modify-Keeps :
    (R : Type 0) (f : ClusterScope → ClusterScope)
    → ((s : ClusterScope) → HasEndpoint s → HasEndpoint (f s))
    → Keeps (modify {R = R} f)
unfolding Keeps
modify-Keeps R f keep s h = keep s h

pub gets-Keeps : (R A : Type 0) (f : ClusterScope → A) → Keeps (gets {R = R} f)
unfolding Keeps
gets-Keeps R A f s h = h

pub if-Keeps :
    {R A : Type 0} (b : Bool) (m k : Code ClusterScope R A)
    → Keeps m
    → Keeps k
    → Keeps (if b then m else k)
if-Keeps true m k keep_m keep_k = keep_m
if-Keeps false m k keep_m keep_k = keep_k

pub set_condition-HasEndpoint :
    (conditions : Conditions) (t : ConditionType) (b : Bool) (reason : Reason) (s : ClusterScope)
    → HasEndpoint s
    → HasEndpoint (set_condition conditions t b reason s)
unfolding HasEndpoint
set_condition-HasEndpoint conditions t b reason s h = h
