-- ===== src/Pool/Store.antt =====
-- The type `Store` of util/ippool.go. Its methods work on the status of the pool; an address is
-- given by the text that `ip.String()` makes of it, which is the key of the maps.
use cluster_api_provider_har.Common.{
  ℕ, ◌+◌, ◌%◌, String, Bool, true, false, Option, none, some, List, [], ◌∷◌, str_eq, if◌then◌else◌,
}
use cluster_api_provider_har.Common.Dict.{Dict, lookup, insert, erase}
use cluster_api_provider_har.Pool.Types.{PoolStatus}
use cluster_api_provider_har.Pool.Net.{Ip, Net}

-- `Available--` and `Available++` on an int64.
abbrev pub decrement : ℕ → ℕ
decrement n = (n + 18446744073709551615) % 18446744073709551616

abbrev pub increment : ℕ → ℕ
increment n = (n + 1) % 18446744073709551616

-- Reading a nil map finds nothing.
abbrev pub entries : Option (Dict String) → Dict String
entries none = []
entries (some d) = d

-- `m[k]`, which is "" for a missing key.
abbrev pub value_or_empty : Option String → String
value_or_empty none = ""
value_or_empty (some v) = v

-- The rest of `Reserve` when the address is free.
unfoldable pub add_allocation : String → String → PoolStatus → PoolStatus
add_allocation id ip s = record s {
  allocated = some (insert ip id (entries s.allocated));
  last_allocated = ip;
  available = decrement s.available;
}

-- `Reserve`: false when the address is taken.
unfoldable pub reserve : String → String → PoolStatus → Bool × PoolStatus
unfolding add_allocation
reserve id ip s = elim (lookup ip (entries s.allocated)) [
  | some _ ↦ (false, s)
  | none ↦ (true, add_allocation id ip s)
]

release_allocated : String → Dict String → PoolStatus → PoolStatus
release_allocated ip d s = record s {
  allocated_history = some (insert ip (value_or_empty (lookup ip d)) (entries s.allocated_history));
  allocated = some (erase ip d);
  available = increment s.available;
}

-- `Release`
unfoldable pub release : String → PoolStatus → PoolStatus
unfolding release_allocated
release ip s = elim s.allocated [ none ↦ s | some d ↦ release_allocated ip d s ]

-- One round of the loop of `ReleaseByID`, for the entry `ip`, `applicant`.
unfoldable pub release_entry : String → String → String → PoolStatus → PoolStatus
release_entry id ip applicant s =
    if str_eq applicant id
    then record s {
      allocated_history = some (insert ip applicant (entries s.allocated_history));
      allocated = some (erase ip (entries s.allocated));
      available = increment s.available;
    }
    else s

-- The loop of `ReleaseByID` over the entries that the map had when it began.
unfoldable pub release_entries : String → Dict String → PoolStatus → PoolStatus
release_entries id [] s = s
release_entries id ((ip, applicant) ∷ rest) s =
    release_entries id rest (release_entry id ip applicant s)

-- `ReleaseByID`
unfoldable pub release_by_id : String → PoolStatus → PoolStatus
unfolding release_entries release_entry
release_by_id id s = elim s.allocated [ none ↦ s | some d ↦ release_entries id d s ]

-- `GetByID`: `net.ParseIP` of the keys with the value `id`, in the map's order. It answers with nil,
-- here `none`, for a text that is no address.
unfoldable pub get_by_id : Net → String → Dict String → List (Option Ip)
get_by_id net id [] = []
get_by_id net id ((ip, applicant) ∷ d) =
    let rest = get_by_id net id d in if str_eq id applicant then net.parse_ip ip ∷ rest else rest
