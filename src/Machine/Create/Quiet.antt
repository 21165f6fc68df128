-- ===== src/Machine/Create/Quiet.antt =====
-- Steps of the creation that send no VM and keep what the creation reads, with what they yield.
use cluster_api_provider_har.Common.Flow.{◌>>=◌}
use cluster_api_provider_har.Common.{List, String, [], ◌∷◌, ◌≡◌, refl, ◌∙◌, ap}
use cluster_api_provider_har.Common.Flow.{Flow, done, next}
use cluster_api_provider_har.Api.Cluster.{HarvesterCluster}
use cluster_api_provider_har.Api.Machine.{Volume}
use cluster_api_provider_har.Api.Meta.{
  Error, ObjectMeta, Response, Result, api, error, failed, ok, value,
}
use cluster_api_provider_har.Harvester.Types.{Call, History, NewVm, create_vm}
use cluster_api_provider_har.Machine.Create.Disks.{Attempts, ask, in_context, lift, within}
use cluster_api_provider_har.Machine.Scope.{Scope, log_call}

-- The VMs that were sent to Harvester.
abbrev pub created_vms : History → List NewVm
created_vms [] = []
created_vms (create_vm vm ∷ h) = vm ∷ created_vms h
created_vms (_ ∷ h) = created_vms h

-- What the steps keep.
abbrev pub facts : Scope → ObjectMeta × HarvesterCluster × List Volume × List NewVm
facts s = (s.hv_machine.meta, s.hv_cluster, s.hv_machine.spec.volumes, created_vms s.calls)

abbrev pub Keeps : Scope → Scope → Type 0
Keeps s t = facts t ≡ facts s

abbrev pub Settles : {A : Type 0} → (A → Type 0) → Scope → Flow Scope Error A → Type 0
Settles P s (next a t) = Keeps s t × P a
Settles P s (done e t) = Keeps s t

-- From every scope the steps keep the facts, and their value, if they have one, satisfies `P`.
abbrev pub Gives : {A : Type 0} → (A → Type 0) → Attempts A → Type 0
Gives P m = (s : Scope) → Settles P s (m s)

abbrev pub Anything : {A : Type 0} → A → Type 0
Anything _ = Unit {0}

pub Settles-after :
    {A : Type 0} (P : A → Type 0) (s t : Scope) (f : Flow Scope Error A)
    → Keeps s t
    → Settles P t f
    → Settles P s f
Settles-after P s t (next a u) k (j, p) = (j ∙ k, p)
Settles-after P s t (done e u) k j = j ∙ k

pub Gives-bind :
    {A B : Type 0} (P : A → Type 0) (Q : B → Type 0) (m : Attempts A) (k : A → Attempts B)
    → Gives P m
    → ((a : A) → P a → Gives Q (k a))
    → Gives Q (m >>= k)
Gives-bind {A} {B} P Q m k gives then_gives s = go (m s) (gives s)
  where
    go :
        (f : Flow Scope Error A)
        → Settles P s f
        → Settles Q s (elim f [ next a t ↦ k a t | done e t ↦ done e t ])
    go (next a t) (j, p) = Settles-after Q s t (k a t) j (then_gives a p t)
    go (done e t) j = j

pub Gives-within :
    {A : Type 0} (P : A → Type 0) (context : String) (m : Attempts A)
    → Gives P m
    → Gives P (within context m)
Gives-within {A} P context m gives s = go (m s) (gives s)
  where
    go :
        (f : Flow Scope Error A)
        → Settles P s f
        → Settles P s (elim f [ next a t ↦ next a t | done e t ↦ done (in_context context e) t ])
    go (next a t) h = h
    go (done e t) h = h

pub Gives-lift : {A : Type 0} (r : Result A) → Gives Anything (lift r)
Gives-lift (value a) s = (refl, tt)
Gives-lift (error e) s = refl

pub Gives-ask :
    {A : Type 0} (c : Call) (answer : History → Response A)
    → ((h : History) → created_vms (c ∷ h) ≡ created_vms h)
    → Gives Anything (ask c answer)
Gives-ask {A} c answer quiet s = go (answer s.calls)
  where
    logged : Keeps s (log_call c s)
    logged =
        ap (λ vms. (s.hv_machine.meta, s.hv_cluster, s.hv_machine.spec.volumes, vms))
          (quiet s.calls)

    go :
        (r : Response A)
        → Settles Anything s
            (elim r [ ok a ↦ next a (log_call c s) | failed e ↦ done (api e) (log_call c s) ])
    go (ok a) = (logged, tt)
    go (failed e) = logged

-- The same from one scope, whose facts the steps have kept so far.
pub Settles-bind :
    {A B : Type 0} (P : A → Type 0) (Q : B → Type 0) (s t : Scope) (m : Attempts A)
    (k : A → Attempts B)
    → Settles P s (m t)
    → ((a : A) (u : Scope) → Keeps s u → P a → Settles Q s (k a u))
    → Settles Q s ((m >>= k) t)
Settles-bind {A} {B} P Q s t m k ends then_ends = go (m t) ends
  where
    go :
        (f : Flow Scope Error A)
        → Settles P s f
        → Settles Q s (elim f [ next a u ↦ k a u | done e u ↦ done e u ])
    go (next a u) (j, p) = then_ends a u j p
    go (done e u) j = j
