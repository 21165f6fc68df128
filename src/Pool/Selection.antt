-- ===== src/Pool/Selection.antt =====
-- `PoolMatchesNetworks` of util/ippool.go: which pools serve a machine, by network. References are
-- walked character by character, so they are lists of code points here.
use Prim.Native.Char.{code}
use cluster_api_provider_har.Common.{
  Bool, List, Option, String, [], arith, false, if◌then◌else◌, is_empty, is_nil, none, refl, some,
  true, ℕ, ◌&&◌, ◌==◌, ◌||◌, ◌↔◌, ◌∷◌, ◌≡◌, ◌≢◌, ◌⊎◌, All, Option-cases, eq_iff, inl, inr, ◌++◌,
}
use cluster_api_provider_har.Pool.Types.{IpPoolResource}

-- The code points of a text. `String` has its own `[]` and `∷`.
abbrev pub codes : String → List ℕ
codes String.[] = []
codes (String.◌∷◌ c s) = code c ∷ codes s

abbrev pub codes_eq : List ℕ → List ℕ → Bool
codes_eq [] [] = true
codes_eq [] (_ ∷ _) = false
codes_eq (_ ∷ _) [] = false
codes_eq (x ∷ xs) (y ∷ ys) = x == y && codes_eq xs ys

-- What stands before the last "/" and what stands behind it; `none` without a "/".
last_slash : List ℕ → Option (List ℕ × List ℕ)
last_slash [] = none
last_slash (c ∷ cs) = elim (last_slash cs) [
  | some (before, behind) ↦ some (c ∷ before, behind)
  | none ↦ if c == b'/' then some ([], cs) else none
]

-- `splitNetworkRef`: namespace and name.
unfoldable pub split_network_ref : List ℕ → List ℕ × List ℕ
unfolding last_slash
split_network_ref ref = elim (last_slash ref) [
  | some (namespace, name) ↦ (namespace, name)
  | none ↦ ([], ref)
]

-- `networkRefsEqual`
unfoldable pub network_refs_equal : List ℕ → List ℕ → Bool
unfolding split_network_ref
network_refs_equal a b =
    let (a_ns, a_name) = split_network_ref a in
    let (b_ns, b_name) = split_network_ref b in
    if codes_eq a b
    then true
    else if is_nil a_ns || is_nil b_ns
    then codes_eq a_name b_name
    else false

-- The loop of `PoolMatchesNetworks`.
any_network_equal : String → List String → Bool
unfolding network_refs_equal
any_network_equal selector [] = false
any_network_equal selector (network ∷ rest) =
    network_refs_equal (codes selector) (codes network) || any_network_equal selector rest

-- `PoolMatchesNetworks`
unfoldable pub pool_matches_networks : IpPoolResource → List String → Bool
unfolding any_network_equal
pool_matches_networks pool machine_networks =
    if is_empty pool.selector_network
    then true
    else any_network_equal pool.selector_network machine_networks

codes_eq_refl : (xs : List ℕ) → codes_eq xs xs ≡ true
codes_eq_refl [] = refl
codes_eq_refl (x ∷ xs) = ground (arith, codes_eq_refl xs)

codes_eq_iff : (xs ys : List ℕ) → (codes_eq xs ys ≡ true) ↔ (xs ≡ ys)
codes_eq_iff [] [] = ground arith
codes_eq_iff [] (_ ∷ _) = ground arith
codes_eq_iff (_ ∷ _) [] = ground arith
codes_eq_iff (x ∷ xs) (y ∷ ys) = ground (arith, codes_eq_iff xs ys)

-- A property of some element, by recursion.
abbrev pub Any : {A : Type 0} → (A → Type 0) → List A → Type 0
Any P [] = ⊥
Any P (x ∷ xs) = P x ⊎ Any P xs

-- When two references designate one network: they are the same text, or they have the same name
-- and at least one of them names no namespace.
abbrev pub Designates : List ℕ → List ℕ → Type 0
Designates a b =
    (a ≡ b)
    ⊎ (((split_network_ref a).1 ≡ (split_network_ref b).1)
        × (((split_network_ref a).0 ≡ []) ⊎ ((split_network_ref b).0 ≡ [])))

network_refs_equal_iff : (a b : List ℕ) → (network_refs_equal a b ≡ true) ↔ Designates a b
unfolding network_refs_equal
network_refs_equal_iff a b =
    ground (arith, codes_eq_iff a b, codes_eq_iff (split_network_ref a).1 (split_network_ref b).1)

any_network_equal_iff :
    (selector : String) (networks : List String)
    → (any_network_equal selector networks ≡ true)
      ↔ Any (λ n. Designates (codes selector) (codes n)) networks
unfolding any_network_equal
any_network_equal_iff selector [] = ground arith
any_network_equal_iff selector (n ∷ rest) =
    ground (
      arith,
      network_refs_equal_iff (codes selector) (codes n),
      any_network_equal_iff selector rest,
    )

-- A pool serves a machine exactly when its selector names no network, or when the selector and one
-- of the networks of the machine designate the same network.
pub pool_matches_networks_iff :
    (pool : IpPoolResource) (networks : List String)
    → (pool_matches_networks pool networks ≡ true) ↔ (
        (pool.selector_network ≡ "")
        ⊎ Any (λ n. Designates (codes pool.selector_network) (codes n)) networks)
unfolding pool_matches_networks
pool_matches_networks_iff pool networks =
    ground
      (arith, eq_iff pool.selector_network "", any_network_equal_iff pool.selector_network networks)

-- No "/" among the code points.
abbrev pub HasNoSlash : List ℕ → Type 0
HasNoSlash = All (λ c. c ≢ b'/')

last_slash-none : (ref : List ℕ) → last_slash ref ≡ none → HasNoSlash ref
unfolding last_slash
last_slash-none [] h = tt
last_slash-none (c ∷ cs) h = ground (arith, last_slash-none cs)

last_slash-some :
    (ref before behind : List ℕ)
    → last_slash ref ≡ some (before, behind)
    → (ref ≡ before ++ b'/' ∷ behind) × HasNoSlash behind
unfolding last_slash
last_slash-some [] before behind h = cc
last_slash-some (c ∷ cs) before behind h = elim (Option-cases (last_slash cs)) [
  | inl none_left ↦ ground (arith, none_left, last_slash-none cs)
  | inr ((x, y), found) ↦ ground (arith, found, last_slash-some cs x y)
]

-- A reference without "/" is a bare name; any other is cut at its last "/", so that no "/" is left
-- in the name.
pub split_network_ref_parts :
    (ref : List ℕ)
    → let (namespace, name) = split_network_ref ref in
      HasNoSlash name × (((namespace ≡ []) × (name ≡ ref)) ⊎ (ref ≡ namespace ++ b'/' ∷ name))
unfolding split_network_ref
split_network_ref_parts ref = elim (Option-cases (last_slash ref)) [
  | inl bare ↦ rw (bare, split_network_ref) (last_slash-none ref bare, inl (refl, refl))
  | inr ((x, y), found) ↦
      rw (found, split_network_ref)
        (let (whole, clean) = last_slash-some ref x y found in (clean, inr whole))
]
