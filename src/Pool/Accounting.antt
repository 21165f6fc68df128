-- ===== src/Pool/Accounting.antt =====
-- The counter `Available` against the map `Allocated`, under each method of `Store`.
use cluster_api_provider_har.Common.{
  ℕ, ◌+◌, ◌%◌, ◌<◌, String, Option, none, some, str_eq, ◌≡◌, sym, ◌∙◌, arith, eq_iff, length, inl,
  inr, Option-cases, Bool-cases, str_eq_refl,
}
use cluster_api_provider_har.Common.Dict.{
  Dict, lookup, insert, erase, HasDistinctKeys, lookup-nil, lookup-insert, lookup-erase_ne,
  lookup-erase_self, insert-HasDistinctKeys, erase-HasDistinctKeys, length-insert_new, length-erase,
  erase_absent,
}
use cluster_api_provider_har.Pool.Types.{PoolStatus}
use cluster_api_provider_har.Pool.Store.{increment, entries, value_or_empty, reserve, release}

-- What is free and what is allocated add up to the size of the pool, as int64 values do.
pub record IsAccounted (total : ℕ) (s : PoolStatus) : Type 0 where
  pub distinct : HasDistinctKeys (entries s.allocated)
  pub in_range : s.available < 18446744073709551616
  pub adds_up :
      (s.available + length (entries s.allocated)) % 18446744073709551616
      ≡ total % 18446744073709551616

abbrev pub allocation : String → PoolStatus → Option String
allocation ip s = lookup ip (entries s.allocated)

-- Reserving an address, free or taken, keeps the accounts.
pub reserve-IsAccounted :
    (total : ℕ) (id ip : String) (s : PoolStatus)
    → IsAccounted total s
    → IsAccounted total (reserve id ip s).1
unfolding reserve
reserve-IsAccounted total id ip s h = elim (Option-cases (allocation ip s)) [
  | inl free ↦ ground (
    arith,
    free,
    h.in_range,
    insert-HasDistinctKeys ip id (entries s.allocated) h.distinct,
    length-insert_new ip id (entries s.allocated) free,
  )
  | inr (v, taken) ↦ rw (taken, reserve) h
]

-- Releasing an allocated address keeps the accounts.
pub release-IsAccounted :
    (total : ℕ) (ip : String) (s : PoolStatus) {id : String}
    → IsAccounted total s
    → allocation ip s ≡ some id
    → IsAccounted total (release ip s)
unfolding release
release-IsAccounted total ip s {id} h e = elim (Option-cases s.allocated) [
  | inl nothing ↦ ground (arith, nothing, lookup-nil {V = String} ip)
  | inr (d, found) ↦ ground (arith, found, erase-HasDistinctKeys ip d, length-erase ip id d)
]

-- Releasing an address that is not allocated, from a pool that has a map, still counts it as
-- returned: the map is as before and the counter is one higher.
release_unallocated :
    (ip : String) (s : PoolStatus) (d : Dict String)
    → s.allocated ≡ some d
    → lookup ip d ≡ none
    → ((release ip s).allocated ≡ some d) × ((release ip s).available ≡ increment s.available)
unfolding release
release_unallocated ip s d e absent = ground (arith, absent, erase_absent ip d)

-- So the accounts of a pool with a map, right before, are wrong after such a release.
pub release_unallocated-not-IsAccounted :
    (total : ℕ) (ip : String) (s : PoolStatus) (d : Dict String)
    → IsAccounted total s
    → s.allocated ≡ some d
    → lookup ip d ≡ none
    → ¬ IsAccounted total (release ip s)
release_unallocated-not-IsAccounted total ip s d h e absent after =
    ground (arith, release_unallocated ip s d e absent, h.adds_up, after.adds_up)

-- What the reservation of a free address did, its release undoes, for distinct keys and a counter in
-- range: every allocation and the counter are as before, and the history names the last holder.
pub release-reserve :
    (id ip : String) (s : PoolStatus)
    → s.available < 18446744073709551616
    → HasDistinctKeys (entries s.allocated)
    → allocation ip s ≡ none
    → let s' = release ip (reserve id ip s).1 in
      ((j : String) → allocation j s' ≡ allocation j s)
      × (s'.available ≡ s.available)
      × (lookup ip (entries s'.allocated_history) ≡ some id)
unfolding reserve release
release-reserve id ip s bound distinct free = rw (free, reserve) (others, ground arith, history)
  where
    d' : Dict String
    d' = insert ip id (entries s.allocated)

    others : (j : String) → lookup j (erase ip d') ≡ allocation j s
    others j = elim (Bool-cases (str_eq ip j)) [
      | inl same ↦
          rw (← (eq_iff ip j).0 same)
            (lookup-erase_self ip d' (insert-HasDistinctKeys ip id _ distinct) ∙ sym free)
      | inr other ↦
          lookup-erase_ne ip j d' (λ e. ground (arith, eq_iff ip j))
          ∙ ground (arith, lookup-insert ip j id (entries s.allocated))
    ]

    history :
        lookup ip (insert ip (value_or_empty (lookup ip d')) (entries s.allocated_history))
        ≡ some id
    history = ground (
      arith,
      lookup-insert ip ip (value_or_empty (lookup ip d')) (entries s.allocated_history),
      lookup-insert ip ip id (entries s.allocated),
      str_eq_refl ip,
    )
