-- ===== src/Machine/Create/Scheduling/Pinned.antt =====
-- A machine with a failure domain lands in it.
use cluster_api_provider_har.Common.{
  List, Option, [], ◌∷◌, ◌++◌, ◌≡◌, ◌≢◌, refl, none, some, inl, inr, All, Bool-cases, is_empty,
  eq_iff,
}
use cluster_api_provider_har.Api.Machine.{NodeAffinity, NodeSelectorRequirement, NodeSelectorTerm}
use cluster_api_provider_har.FailureDomains.{effective_failure_domain, failure_domain_node_selector}
use cluster_api_provider_har.Machine.Create.Scheduling.{
  build_affinity, merged_node_affinity, pin_affinity, pin_terms, requirement,
}
use cluster_api_provider_har.Machine.Scope.{Scope}
use cluster_api_provider_har.Pool.Selection.{Any}

-- The term asks for the label.
abbrev pub Asks : NodeSelectorRequirement → NodeSelectorTerm → Type 0
Asks r t = Any (λ (x : NodeSelectorRequirement). x ≡ r) t.match_expressions

-- Whatever a term asked for, the term in its place still asks for.
abbrev pub Refines : List NodeSelectorTerm → List NodeSelectorTerm → Type 0
Refines [] [] = Unit {0}
Refines (t ∷ ts) (u ∷ us) =
    ((r : NodeSelectorRequirement) → Asks r t → Asks r u)
    × (u.match_fields ≡ t.match_fields)
    × Refines ts us
Refines _ _ = ⊥

Any-last :
    (r : NodeSelectorRequirement) (rs : List NodeSelectorRequirement)
    → Any (λ x. x ≡ r) (rs ++ (r ∷ []))
Any-last r [] = inl refl
Any-last r (x ∷ rs) = inr (Any-last r rs)

Any-front :
    (q r : NodeSelectorRequirement) (rs : List NodeSelectorRequirement)
    → Any (λ x. x ≡ q) rs
    → Any (λ x. x ≡ q) (rs ++ (r ∷ []))
Any-front q r [] h = elim h [ ]
Any-front q r (x ∷ rs) (inl e) = inl e
Any-front q r (x ∷ rs) (inr h) = inr (Any-front q r rs h)

pin_terms-Asks :
    (r : NodeSelectorRequirement) (ts : List NodeSelectorTerm) → All (Asks r) (pin_terms r ts)
unfolding pin_terms
pin_terms-Asks r [] = tt
pin_terms-Asks r (t ∷ ts) = (Any-last r t.match_expressions, pin_terms-Asks r ts)

pin_terms-Refines :
    (r : NodeSelectorRequirement) (ts : List NodeSelectorTerm) → Refines ts (pin_terms r ts)
unfolding pin_terms
pin_terms-Refines r [] = tt
pin_terms-Refines r (t ∷ ts) =
    ((λ q. Any-front q r t.match_expressions), refl, pin_terms-Refines r ts)

-- The terms that the user's affinity has, or the empty one that is made for lack of them.
abbrev pub user_terms : Option NodeAffinity → List NodeSelectorTerm
user_terms none = record { match_expressions = []; match_fields = [] } ∷ []
user_terms (some a) = elim a.required [
  | none ↦ record { match_expressions = []; match_fields = [] } ∷ []
  | some ts ↦ ts
]

-- The affinity pins: it has required terms, each asks for the label, and each refines the user's.
abbrev pub Pins : NodeSelectorRequirement → Option NodeAffinity → NodeAffinity → Type 0
Pins r user a =
    (ts : List NodeSelectorTerm) × (a.required ≡ some ts)
    × All (Asks r) ts
    × Refines (user_terms user) ts

pin_terms-Pins :
    (r : NodeSelectorRequirement) (user : Option NodeAffinity) (a : NodeAffinity)
    → a.required ≡ some (pin_terms r (user_terms user))
    → Pins r user a
pin_terms-Pins r user a e =
    (pin_terms r (user_terms user), e, pin_terms-Asks r _, pin_terms-Refines r _)

pin_affinity-Pins :
    (r : NodeSelectorRequirement) (user : Option NodeAffinity) → Pins r user (pin_affinity r user)
unfolding pin_affinity
pin_affinity-Pins r none = pin_terms-Pins r none (pin_affinity r none) refl
pin_affinity-Pins r (some a) =
    pin_terms-Pins r (some a) (pin_affinity r (some a)) (made a.required refl)
  where
    made :
        (o : Option (List NodeSelectorTerm))
        → a.required ≡ o
        → (pin_affinity r (some a)).required ≡ some (pin_terms r (user_terms (some a)))
    made none e = rw (e, pin_affinity) refl
    made (some ts) e = rw (e, pin_affinity) refl

-- What the domain of the machine asks for.
abbrev pub domain_requirement : Scope → NodeSelectorRequirement
domain_requirement s =
    let (key, zone) =
      failure_domain_node_selector s.hv_cluster.status.failure_domains
        (effective_failure_domain s) in
    requirement key zone

-- A machine with a failure domain gets a node affinity in which every required term asks for the
-- label and the value of its domain, and for all that the term in the user's affinity asked for.
pub build_affinity-Pins :
    (s : Scope)
    → effective_failure_domain s ≢ ""
    → (a : NodeAffinity) × ((build_affinity s).0.node_affinity ≡ some a)
      × Pins (domain_requirement s) s.hv_machine.spec.node_affinity a
unfolding build_affinity merged_node_affinity
build_affinity-Pins s pinned = elim (Bool-cases (is_empty (effective_failure_domain s))) [
  | inl unpinned ↦ absurd (pinned ((eq_iff (effective_failure_domain s) "").0 unpinned))
  | inr pins ↦ (
    pin_affinity (domain_requirement s) s.hv_machine.spec.node_affinity,
    rw (pins, build_affinity) refl,
    pin_affinity-Pins (domain_requirement s) _,
  )
]
