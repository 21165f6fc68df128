-- ===== src/Names/Label.antt =====
-- `GenerateRFC1035Name` of util/util.go. After the replacement all characters are ASCII, so that a
-- length in bytes is a number of characters.
pub mod Bounds
use Prim.Native.Char.{Char, char, code}
use Prim.Native.String.{count}
use cluster_api_provider_har.Common.{
  Bool, List, String, [], if◌then◌else◌, leb, str_append, suc, zero, ℕ, ◌&&◌, ◌-◌, ◌==◌, ◌||◌, ◌∷◌,
}

abbrev pub dash : Char
dash = char 45 tt

abbrev pub letter_a : Char
letter_a = char 97 tt

-- `[a-z]`, `[A-Z]` and `[a-z0-9-]`
unfoldable pub is_letter : ℕ → Bool
is_letter c = leb b'a' c && leb c b'z'

unfoldable pub is_upper : ℕ → Bool
is_upper c = leb b'A' c && leb c b'Z'

unfoldable pub is_label_char : ℕ → Bool
unfolding is_letter
is_label_char c = is_letter c || (leb b'0' c && leb c b'9') || c == b'-'

unfoldable pub char_at : ℕ → String → Char
char_at n String.[] = dash
char_at zero (String.◌∷◌ c s) = c
char_at (suc n) (String.◌∷◌ c s) = char_at n s

abbrev pub lower_letters : String
lower_letters = "abcdefghijklmnopqrstuvwxyz"

-- `strings.ToLower` and then the replacement, on one character. U+0130 and U+212A are the two
-- characters outside ASCII that have a lower case in it.
unfoldable pub label_char : Char → Char
unfolding is_label_char is_upper char_at
label_char c =
    if is_label_char (code c)
    then c
    else if is_upper (code c)
    then char_at (code c - b'A') lower_letters
    else if code c == 304
    then char_at 8 lower_letters
    else if code c == 8490
    then char_at 10 lower_letters
    else dash

unfoldable pub replace_invalid : String → String
unfolding label_char
replace_invalid String.[] = ""
replace_invalid (String.◌∷◌ c s) = String.◌∷◌ (label_char c) (replace_invalid s)

-- `strings.Join(parts, "-")`
unfoldable pub join_dash : List String → String
join_dash [] = ""
join_dash (x ∷ []) = x
join_dash (x ∷ y ∷ ys) = str_append x (str_append "-" (join_dash (y ∷ ys)))

-- `strings.Trim(name, "-")`
unfoldable pub trim_start : String → String
trim_start String.[] = ""
trim_start (String.◌∷◌ c s) =
    let rest = trim_start s in if code c == b'-' then rest else String.◌∷◌ c s

abbrev pub cons_unless_end : Char → String → String
cons_unless_end c String.[] = if code c == b'-' then "" else String.◌∷◌ c ""
cons_unless_end c (String.◌∷◌ d s) = String.◌∷◌ c (String.◌∷◌ d s)

unfoldable pub trim_end : String → String
trim_end String.[] = ""
trim_end (String.◌∷◌ c s) = cons_unless_end c (trim_end s)

-- The prefix is "a-".
unfoldable pub start_with_letter : String → String
unfolding is_letter
start_with_letter String.[] = ""
start_with_letter (String.◌∷◌ c s) =
    if is_letter (code c)
    then String.◌∷◌ c s
    else String.◌∷◌ letter_a (String.◌∷◌ dash (String.◌∷◌ c s))

-- `name[:n]` of a longer name
unfoldable pub truncate : ℕ → String → String
truncate zero s = ""
truncate (suc n) String.[] = ""
truncate (suc n) (String.◌∷◌ c s) = String.◌∷◌ c (truncate n s)

abbrev pub maximum_label_length : ℕ
maximum_label_length = 63

-- `GenerateRFC1035Name`
unfoldable pub generate_rfc1035_name : List String → String
unfolding join_dash replace_invalid trim_start trim_end start_with_letter truncate
generate_rfc1035_name parts =
    truncate maximum_label_length
      (start_with_letter (trim_end (trim_start (replace_invalid (join_dash parts)))))
