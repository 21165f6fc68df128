-- ===== src/Names/Label/Bounds.antt =====
-- What `GenerateRFC1035Name` promises of every name, and which names it keeps.
use Prim.Native.Char.{Char, code}
use cluster_api_provider_har.Common.{
  Bool, List, String, [], ap, arith, false, refl, suc, true, zero, ℕ, ◌&&◌, ◌==◌, ◌∷◌, ◌≡◌, ◌≤◌,
  Bool-cases, inl, inr, ◌-◌, if◌then◌else◌,
}
use cluster_api_provider_har.Names.Label.{
  char_at, cons_unless_end, generate_rfc1035_name, is_label_char, is_letter, join_dash, label_char,
  lower_letters, replace_invalid, start_with_letter, trim_end, trim_start, truncate, dash, is_upper,
}

-- All characters are of the class `[a-z0-9-]`.
unfoldable pub all_label_chars : String → Bool
all_label_chars String.[] = true
all_label_chars (String.◌∷◌ c s) = is_label_char (code c) && all_label_chars s

unfoldable pub starts_with_letter : String → Bool
starts_with_letter String.[] = true
starts_with_letter (String.◌∷◌ c s) = is_letter (code c)

unfoldable pub ends_with_dash : String → Bool
ends_with_dash String.[] = false
ends_with_dash (String.◌∷◌ c s) = elim s [
  | String.[] ↦ code c == b'-'
  | String.◌∷◌ _ _ ↦ ends_with_dash s
]

-- A number of characters.
unfoldable pub label_length : String → ℕ
label_length String.[] = 0
label_length (String.◌∷◌ c s) = suc (label_length s)

char_at-valid :
    (n : ℕ) (s : String) → all_label_chars s ≡ true → is_label_char (code (char_at n s)) ≡ true
unfolding all_label_chars char_at is_label_char is_letter
char_at-valid n String.[] h = refl
char_at-valid zero (String.◌∷◌ c s) h = ground arith
char_at-valid (suc n) (String.◌∷◌ c s) h = char_at-valid n s (ground arith)

lower_letters-valid : all_label_chars lower_letters ≡ true
unfolding all_label_chars is_label_char is_letter
lower_letters-valid = refl

dash-valid : is_label_char b'-' ≡ true
unfolding is_label_char is_letter
dash-valid = refl

if-valid :
    (b : Bool) (x y : Char)
    → (b ≡ true → is_label_char (code x) ≡ true)
    → is_label_char (code y) ≡ true
    → is_label_char (code (if b then x else y)) ≡ true
if-valid true x y h k = h refl
if-valid false x y h k = k

label_char-valid : (c : Char) → is_label_char (code (label_char c)) ≡ true
unfolding label_char
label_char-valid c =
    let letters = λ (n : ℕ). char_at-valid n lower_letters lower_letters-valid in
    let i : Char = char_at 8 lower_letters in
    let k : Char = char_at 10 lower_letters in
    let upper : Char = char_at (code c - b'A') lower_letters in
    let outside : Char = if code c == 8490 then k else dash in
    let folded : Char = if code c == 304 then i else outside in
    let lowered : Char = if is_upper (code c) then upper else folded in
    if-valid (is_label_char (code c)) c lowered (λ kept. kept)
      (if-valid (is_upper (code c)) upper folded (λ _. letters (code c - b'A'))
        (if-valid (code c == 304) i outside (λ _. letters 8)
          (if-valid (code c == 8490) k dash (λ _. letters 10) dash-valid)))

replace_invalid-all : (s : String) → all_label_chars (replace_invalid s) ≡ true
unfolding all_label_chars replace_invalid
replace_invalid-all String.[] = refl
replace_invalid-all (String.◌∷◌ c s) = ground (arith, label_char-valid c, replace_invalid-all s)

trim_start-all : (s : String) → all_label_chars s ≡ true → all_label_chars (trim_start s) ≡ true
unfolding all_label_chars trim_start
trim_start-all String.[] h = refl
trim_start-all (String.◌∷◌ c s) h = ground (arith, trim_start-all s)

cons_unless_end-all :
    (c : Char) (s : String)
    → is_label_char (code c) ≡ true
    → all_label_chars s ≡ true
    → all_label_chars (cons_unless_end c s) ≡ true
unfolding all_label_chars
cons_unless_end-all c String.[] h k = elim (Bool-cases (code c == b'-')) [
  | inl dash ↦ rw dash refl
  | inr other ↦ rw other (rw h refl)
]
cons_unless_end-all c (String.◌∷◌ d s) h k = ground arith

trim_end-all : (s : String) → all_label_chars s ≡ true → all_label_chars (trim_end s) ≡ true
unfolding all_label_chars trim_end
trim_end-all String.[] h = refl
trim_end-all (String.◌∷◌ c s) h =
    cons_unless_end-all c (trim_end s) (ground arith) (trim_end-all s (ground arith))

start_with_letter-all :
    (s : String) → all_label_chars s ≡ true → all_label_chars (start_with_letter s) ≡ true
unfolding all_label_chars start_with_letter is_label_char is_letter
start_with_letter-all String.[] h = refl
start_with_letter-all (String.◌∷◌ c s) h = ground arith

start_with_letter-starts : (s : String) → starts_with_letter (start_with_letter s) ≡ true
unfolding starts_with_letter start_with_letter is_letter
start_with_letter-starts String.[] = refl
start_with_letter-starts (String.◌∷◌ c s) = ground arith

truncate-all :
    (n : ℕ) (s : String) → all_label_chars s ≡ true → all_label_chars (truncate n s) ≡ true
unfolding all_label_chars truncate
truncate-all zero s h = refl
truncate-all (suc n) String.[] h = refl
truncate-all (suc n) (String.◌∷◌ c s) h = ground (arith, truncate-all n s)

truncate-starts :
    (n : ℕ) (s : String) → starts_with_letter s ≡ true → starts_with_letter (truncate n s) ≡ true
unfolding starts_with_letter truncate
truncate-starts zero s h = refl
truncate-starts (suc n) String.[] h = refl
truncate-starts (suc n) (String.◌∷◌ c s) h = h

label_length-truncate : (n : ℕ) (s : String) → label_length (truncate n s) ≤ n
unfolding label_length truncate
label_length-truncate zero s = omega arith
label_length-truncate (suc n) String.[] = omega arith
label_length-truncate (suc n) (String.◌∷◌ c s) = omega (arith, label_length-truncate n s)

-- A generated name has at most 63 characters, all of them lower case letters, digits or dashes, and starts with a letter unless it is empty.
pub generate_rfc1035_name_bounds :
    (parts : List String)
    → (label_length (generate_rfc1035_name parts) ≤ 63)
      × (all_label_chars (generate_rfc1035_name parts) ≡ true)
      × (starts_with_letter (generate_rfc1035_name parts) ≡ true)
unfolding generate_rfc1035_name
generate_rfc1035_name_bounds parts =
    let trimmed = trim_end (trim_start (replace_invalid (join_dash parts))) in
    let all =
      start_with_letter-all trimmed
        (trim_end-all _ (trim_start-all _ (replace_invalid-all (join_dash parts)))) in
    (
      label_length-truncate 63 (start_with_letter trimmed),
      truncate-all 63 (start_with_letter trimmed) all,
      truncate-starts 63 (start_with_letter trimmed) (start_with_letter-starts trimmed),
    )

-- A label of RFC 1035 with at most 63 characters.
abbrev pub IsLabel : String → Type 0
IsLabel s =
    (label_length s ≤ 63)
    × (all_label_chars s ≡ true)
    × (starts_with_letter s ≡ true)
    × (ends_with_dash s ≡ false)

replace_invalid_keeps : (s : String) → all_label_chars s ≡ true → replace_invalid s ≡ s
unfolding all_label_chars replace_invalid label_char
replace_invalid_keeps String.[] h = refl
replace_invalid_keeps (String.◌∷◌ c s) h = ground (arith, replace_invalid_keeps s)

trim_start_keeps : (s : String) → starts_with_letter s ≡ true → trim_start s ≡ s
unfolding starts_with_letter trim_start is_letter
trim_start_keeps String.[] h = refl
trim_start_keeps (String.◌∷◌ c s) h = ground arith

trim_end_keeps : (s : String) → ends_with_dash s ≡ false → trim_end s ≡ s
unfolding ends_with_dash trim_end
trim_end_keeps String.[] h = refl
trim_end_keeps (String.◌∷◌ c String.[]) h = ground arith
trim_end_keeps (String.◌∷◌ c (String.◌∷◌ d s)) h = rw (trim_end_keeps (String.◌∷◌ d s) h) refl

start_with_letter_keeps : (s : String) → starts_with_letter s ≡ true → start_with_letter s ≡ s
unfolding starts_with_letter start_with_letter
start_with_letter_keeps String.[] h = refl
start_with_letter_keeps (String.◌∷◌ c s) h = ground arith

truncate_keeps : (n : ℕ) (s : String) → label_length s ≤ n → truncate n s ≡ s
unfolding label_length truncate
truncate_keeps zero String.[] h = refl
truncate_keeps zero (String.◌∷◌ c s) h = absurd (omega (arith, h))
truncate_keeps (suc n) String.[] h = refl
truncate_keeps (suc n) (String.◌∷◌ c s) h =
    ap (String.◌∷◌ c) (truncate_keeps n s (omega (arith, h)))

-- A name that is a label of RFC 1035 already is kept as it is.
pub generate_rfc1035_name_keeps :
    (name : String) → IsLabel name → generate_rfc1035_name (name ∷ []) ≡ name
unfolding generate_rfc1035_name join_dash
generate_rfc1035_name_keeps name (short, all, starts, ends) = rw (replace_invalid_keeps name all) (
    rw (trim_start_keeps name starts) (
      rw (trim_end_keeps name ends)
        (rw (start_with_letter_keeps name starts) (truncate_keeps 63 name short))))
