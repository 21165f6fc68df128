-- ===== src/Common/Dict.antt =====
-- A Go map with string keys: its entries in the order in which `range` walks them. The order is
-- not specified, so the theorems hold for every list of entries.
use Prim.Native.Nat.{◌+◌}
use Prim.Native.String.{String}
use mathlib.Core.Path.{◌≡◌, refl}
use mathlib.Core.Logic.{◌≢◌}
use mathlib.Core.Option.{Option, none, some}
use mathlib.Core.List.{List, [], ◌∷◌}
use native.Mathlib.Omega.{arith}
use text.Mathlib.Text.{◌==◌ as str_eq}
use text.Mathlib.TextEquality.{eq_iff}
use cluster_api_provider_har.Common.Tests.{if◌then◌else◌}
use cluster_api_provider_har.Common.Lists.{length}

abbrev pub Dict {ℓ} : Type ℓ → Type ℓ
Dict V = List (String × V)

module _ {V : Type 0} where
  unfoldable pub lookup : String → Dict V → Option V
  lookup k [] = none
  lookup k ((j, v) ∷ d) = if str_eq j k then some v else lookup k d

  -- `d[k] = v`
  unfoldable pub insert : String → V → Dict V → Dict V
  insert k v [] = (k, v) ∷ []
  insert k v ((j, w) ∷ d) = if str_eq j k then (k, v) ∷ d else (j, w) ∷ insert k v d

  -- `delete(d, k)`; a map has one entry at most for a key.
  unfoldable pub erase : String → Dict V → Dict V
  erase k [] = []
  erase k ((j, w) ∷ d) = if str_eq j k then d else (j, w) ∷ erase k d

  -- No key twice.
  abbrev pub HasDistinctKeys : Dict V → Type 0
  HasDistinctKeys [] = Unit
  HasDistinctKeys ((k, _) ∷ d) = (lookup k d ≡ none) × HasDistinctKeys d

  pub lookup-nil : (k : String) → lookup k [] ≡ none
  unfolding lookup
  lookup-nil k = refl

  pub lookup-insert :
      (k j : String) (v : V) (d : Dict V)
      → lookup j (insert k v d) ≡ (if str_eq k j then some v else lookup j d)
  unfolding lookup insert
  lookup-insert k j v [] = refl
  lookup-insert k j v ((i, w) ∷ d) =
      ground (arith, eq_iff k j, eq_iff i k, eq_iff i j, lookup-insert k j v d)

  pub lookup-erase_ne : (k j : String) (d : Dict V) → k ≢ j → lookup j (erase k d) ≡ lookup j d
  unfolding lookup erase
  lookup-erase_ne k j [] h = refl
  lookup-erase_ne k j ((i, w) ∷ d) h =
      ground (arith, eq_iff k j, eq_iff i k, eq_iff i j, lookup-erase_ne k j d h)

  pub lookup-erase_self :
      (k : String) (d : Dict V) → HasDistinctKeys d → lookup k (erase k d) ≡ none
  unfolding lookup erase
  lookup-erase_self k [] h = refl
  lookup-erase_self k ((i, w) ∷ d) h = ground (arith, eq_iff i k, lookup-erase_self k d h.1)

  pub insert-HasDistinctKeys :
      (k : String) (v : V) (d : Dict V) → HasDistinctKeys d → HasDistinctKeys (insert k v d)
  unfolding lookup insert
  insert-HasDistinctKeys k v [] h = (refl, tt)
  insert-HasDistinctKeys k v ((i, w) ∷ d) h =
      ground
        (arith, eq_iff i k, eq_iff k i, lookup-insert k i v d, insert-HasDistinctKeys k v d h.1)

  pub erase-HasDistinctKeys :
      (k : String) (d : Dict V) → HasDistinctKeys d → HasDistinctKeys (erase k d)
  unfolding lookup erase
  erase-HasDistinctKeys k [] h = tt
  erase-HasDistinctKeys k ((i, w) ∷ d) h =
      ground (arith, eq_iff i k, eq_iff k i, lookup-erase_ne k i d, erase-HasDistinctKeys k d h.1)

  pub length-insert_new :
      (k : String) (v : V) (d : Dict V) → lookup k d ≡ none → length (insert k v d) ≡ length d + 1
  unfolding lookup insert
  length-insert_new k v [] h = omega arith
  length-insert_new k v ((i, w) ∷ d) h = ground (arith, length-insert_new k v d)

  pub length-erase :
      (k : String) (v : V) (d : Dict V) → lookup k d ≡ some v → length (erase k d) + 1 ≡ length d
  unfolding lookup erase
  length-erase k v [] h = cc
  length-erase k v ((i, w) ∷ d) h = ground (arith, length-erase k v d)

  pub erase_absent : (k : String) (d : Dict V) → lookup k d ≡ none → erase k d ≡ d
  unfolding lookup erase
  erase_absent k [] h = refl
  erase_absent k ((i, w) ∷ d) h = ground (arith, erase_absent k d)
