-- ===== src/Names.antt =====
-- util/util.go: references to named objects, and generated names in Names/Label.
pub mod Label
use Prim.Native.Char.{code}
use cluster_api_provider_har.Common.{
  Bool, List, Option, String, [], false, if◌then◌else◌, is_empty, leb, none, not, some, str_append,
  suc, true, zero, ℕ, ◌&&◌, ◌+◌, ◌==◌, ◌||◌, ◌∷◌,
}
use cluster_api_provider_har.Api.Meta.{Result, error, message, value}

pub record NamespacedName : Type 0 where
  pub namespace : String
  pub name : String

-- The class `[a-z0-9-\._]` of the two expressions.
unfoldable pub is_name_char : ℕ → Bool
is_name_char c =
    (leb b'a' c && leb c b'z') || (leb b'0' c && leb c b'9') || c == b'-' || c == b'.' || c == b'_'

abbrev all_name_chars : String → Bool
all_name_chars String.[] = true
all_name_chars (String.◌∷◌ c s) = is_name_char (code c) && all_name_chars s

-- `^[a-z0-9-\._]+$`
unfoldable pub is_name : String → Bool
unfolding is_name_char
is_name s = not (is_empty s) && all_name_chars s

-- The parts before and behind the first "/", as `strings.Split` cuts a text with one "/".
unfoldable pub split_slash : String → Option (String × String)
split_slash String.[] = none
split_slash (String.◌∷◌ c s) =
    let rest = split_slash s in
    if code c == b'/'
    then some ("", s)
    else elim rest [ none ↦ none | some (a, b) ↦ some (String.◌∷◌ c a, b) ]

-- `CheckNamespacedName`: `^[a-z0-9-\._]+/[a-z0-9-\._]+$`
unfoldable pub check_namespaced_name : String → Bool
unfolding is_name split_slash
check_namespaced_name s = elim (split_slash s) [
  | none ↦ false
  | some (a, b) ↦ is_name a && is_name b
]

-- `GetNamespacedName`; the split of a text that was checked has both parts.
unfoldable pub get_namespaced_name : String → String → Result NamespacedName
unfolding check_namespaced_name
get_namespaced_name name alternative =
    if check_namespaced_name name
    then elim (split_slash name) [
      | some (a, b) ↦ value (record { namespace = a; name = b })
      | none ↦ error (message "unreachable")
    ]
    else if is_name name
    then value (record { namespace = alternative; name = name })
    else error (message "malformed reference, should be <NAMESPACE>/<NAME>")

-- `strconv.Itoa` on naturals: decimal digits, the last one first.
next_digits : List ℕ → List ℕ
next_digits [] = 1 ∷ []
next_digits (d ∷ ds) = let rest = next_digits ds in if d == 9 then 0 ∷ rest else (d + 1) ∷ ds

decimal_digits : ℕ → List ℕ
unfolding next_digits
decimal_digits zero = 0 ∷ []
decimal_digits (suc n) = next_digits (decimal_digits n)

digit_text : ℕ → String
digit_text d =
    if d == 0
    then "0"
    else if d == 1
    then "1"
    else if d == 2
    then "2"
    else if d == 3
    then "3"
    else if d == 4
    then "4"
    else if d == 5
    then "5"
    else if d == 6
    then "6"
    else if d == 7
    then "7"
    else if d == 8
    then "8"
    else "9"

print_digits : List ℕ → String
unfolding digit_text
print_digits [] = ""
print_digits (d ∷ ds) = str_append (print_digits ds) (digit_text d)

unfoldable pub itoa : ℕ → String
unfolding decimal_digits print_digits
itoa n = print_digits (decimal_digits n)
