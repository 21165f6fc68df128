-- ===== src/Pool/ById.antt =====
-- `ReleaseByID` and `GetByID` of util/ippool.go: what one holder has, and giving it all back.
pub mod Returned
use cluster_api_provider_har.Common.{
  ℕ, String, Option, none, some, [], ◌∷◌, str_eq, ◌≡◌, ◌≢◌, refl, ◌∙◌, arith, eq_iff, if◌then◌else◌,
  inl, inr, Bool-cases, str_eq_refl, Option-cases,
}
use cluster_api_provider_har.Common.Dict.{
  Dict, lookup, HasDistinctKeys, lookup-erase_ne, lookup-erase_self, erase-HasDistinctKeys,
  length-erase, lookup-nil,
}
use cluster_api_provider_har.Pool.Types.{PoolStatus}
use cluster_api_provider_har.Pool.Store.{entries, release_entry, release_entries, release_by_id}
use cluster_api_provider_har.Pool.Accounting.{IsAccounted, allocation}

-- A holder stays if it is not `id`.
abbrev pub unless_held_by : String → Option String → Option String
unless_held_by id none = none
unless_held_by id (some a) = if str_eq a id then none else some a

-- What is found at `j` after the loop: its entry among those that the loop has still to visit, or
-- what the state has.
abbrev after_loop : String → Option String → Option String → Option String
after_loop id none old = old
after_loop id (some a) old = if str_eq a id then none else old

-- The entries still to visit are still in the map.
abbrev pub IsPending : Dict String → Dict String → Type 0
IsPending rest d = (j : String) (a : String) → lookup j rest ≡ some a → lookup j d ≡ some a

pub release_entry-distinct :
    (id ip a : String) (s : PoolStatus)
    → HasDistinctKeys (entries s.allocated)
    → HasDistinctKeys (entries (release_entry id ip a s).allocated)
unfolding release_entry
release_entry-distinct id ip a s h = elim (Bool-cases (str_eq a id)) [
  | inl same ↦ rw (same, release_entry) (erase-HasDistinctKeys ip _ h)
  | inr other ↦ rw (other, release_entry) h
]

allocation-release_entry_ne :
    (id ip a j : String) (s : PoolStatus)
    → ip ≢ j
    → allocation j (release_entry id ip a s) ≡ allocation j s
unfolding release_entry
allocation-release_entry_ne id ip a j s h =
    ground (arith, lookup-erase_ne ip j (entries s.allocated) h)

allocation-release_entry_self :
    (id ip a : String) (s : PoolStatus)
    → HasDistinctKeys (entries s.allocated)
    → allocation ip s ≡ some a
    → allocation ip (release_entry id ip a s) ≡ unless_held_by id (some a)
unfolding release_entry
allocation-release_entry_self id ip a s h e =
    ground (arith, lookup-erase_self ip (entries s.allocated) h)

release_entry-IsAccounted :
    (total : ℕ) (id ip a : String) (s : PoolStatus)
    → IsAccounted total s
    → allocation ip s ≡ some a
    → IsAccounted total (release_entry id ip a s)
unfolding release_entry
release_entry-IsAccounted total id ip a s h e = ground (
  arith,
  h.in_range,
  erase-HasDistinctKeys ip (entries s.allocated) h.distinct,
  length-erase ip a (entries s.allocated) e,
)

-- The other entries are still there after a round.
pub IsPending-tail :
    (id ip a : String) (rest : Dict String) (s : PoolStatus)
    → lookup ip rest ≡ none
    → IsPending ((ip, a) ∷ rest) (entries s.allocated)
    → IsPending rest (entries (release_entry id ip a s).allocated)
unfolding lookup
IsPending-tail id ip a rest s fresh h j b e = elim (Bool-cases (str_eq ip j)) [
  | inl same ↦ absurd (cc (fresh, (eq_iff ip j).0 same, e))
  | inr other ↦
      allocation-release_entry_ne id ip a j s (λ p. ground (arith, eq_iff ip j))
      ∙ h j b (rw other e)
]

release_entries-IsAccounted :
    (total : ℕ) (id : String) (rest : Dict String) (s : PoolStatus)
    → HasDistinctKeys rest
    → IsPending rest (entries s.allocated)
    → IsAccounted total s
    → IsAccounted total (release_entries id rest s)
unfolding release_entries
release_entries-IsAccounted total id [] s distinct pending h = h
release_entries-IsAccounted total id ((ip, a) ∷ rest) s distinct pending h =
    release_entries-IsAccounted total id rest (release_entry id ip a s) distinct.1
      (IsPending-tail id ip a rest s distinct.0 pending)
      (release_entry-IsAccounted total id ip a s h
        (pending ip a (unfold lookup in (rw (str_eq_refl ip)))))

allocation-release_entries :
    (id j : String) (rest : Dict String) (s : PoolStatus)
    → HasDistinctKeys rest
    → HasDistinctKeys (entries s.allocated)
    → IsPending rest (entries s.allocated)
    → allocation j (release_entries id rest s) ≡ after_loop id (lookup j rest) (allocation j s)
unfolding release_entries lookup
allocation-release_entries id j [] s distinct keys pending = refl
allocation-release_entries id j ((ip, a) ∷ rest) s distinct keys pending =
    allocation-release_entries id j rest (release_entry id ip a s) distinct.1
      (release_entry-distinct id ip a s keys) (IsPending-tail id ip a rest s distinct.0 pending)
    ∙ here
  where
    here :
        after_loop id (lookup j rest) (allocation j (release_entry id ip a s))
        ≡ after_loop id (if str_eq ip j then some a else lookup j rest) (allocation j s)
    here = elim (Bool-cases (str_eq ip j)) [
      | inl same ↦ ground (
        arith,
        eq_iff ip j,
        distinct.0,
        allocation-release_entry_self id ip a s keys,
        pending ip a,
        str_eq_refl ip,
      )
      | inr other ↦ ground (arith, eq_iff ip j, allocation-release_entry_ne id ip a j s)
    ]

-- Giving back all that one holder has keeps the accounts.
pub release_by_id-IsAccounted :
    (total : ℕ) (id : String) (s : PoolStatus)
    → IsAccounted total s
    → IsAccounted total (release_by_id id s)
unfolding release_by_id
release_by_id-IsAccounted total id s h = elim (Option-cases s.allocated) [
  | inl nothing ↦ rw (nothing, release_by_id) h
  | inr (d, found) ↦
      rw (found, release_by_id)
        (release_entries-IsAccounted total id d s (rw found at h.distinct) (λ j a e. rw found e) h)
]

-- Afterwards exactly the addresses of other holders are allocated, to the same holders, where no
-- address was listed twice.
pub allocation-release_by_id :
    (id j : String) (s : PoolStatus)
    → HasDistinctKeys (entries s.allocated)
    → allocation j (release_by_id id s) ≡ unless_held_by id (allocation j s)
unfolding release_by_id
allocation-release_by_id id j s h = elim (Option-cases s.allocated) [
  | inl nothing ↦ ground (arith, nothing, lookup-nil {V = String} j)
  | inr (d, found) ↦
      rw (found, release_by_id)
        (allocation-release_entries id j d s (rw found at h) h (λ j a e. rw found e)
          ∙ ground (arith, found))
]
