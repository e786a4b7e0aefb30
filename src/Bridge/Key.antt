-- ===== src/Bridge/Key.antt =====
-- The names of bundles. formatKey and parseKey of internal/bridge/bridge.go
pub mod Reading
use agentic_stats.Prelude.{
  ℕ, zero, suc, ◌+◌, ◌-◌, ◌*◌, ◌/◌, ◌%◌, ◌^◌, ◌≤◌, ◌<◌, ◌≡◌, ◌≢◌, refl, sym, ap, ap₂, subst, ◌∙◌,
  Bool, true, false, not, ◌&&◌, ◌||◌, ◌⊎◌, inl, inr, Option, none, some, List, [], ◌∷◌, ◌++◌,
  append_assoc, append-nil, arith, ltb, ◌==◌, if◌then◌else◌, length, codes, All, Bool-cases,
}
use agentic_stats.Source.{Bytes}
use agentic_stats.Version.{is_digit, digits_value}

-- An int64 as strconv.ParseInt gives it: `negsuc n` is -(n + 1).
pub data ℤ : Type 0 where
  pos negsuc : ℕ → ℤ

-- `n <= z`
unfoldable pub at_most : ℕ → ℤ → Bool
at_most n (pos k) = not (ltb k n)
at_most n (negsuc k) = false

-- The decimal digits of a number, before the digits `acc`, on fuel.
unfoldable pub digits : ℕ → ℕ → Bytes → Bytes
digits zero n acc = acc
digits (suc fuel) n acc = elim (n == 0) [
  | true ↦ acc
  | false ↦ digits fuel (n / 10) ((b'0' + n % 10) ∷ acc)
]

unfoldable pub zeros : ℕ → Bytes
zeros zero = []
zeros (suc k) = b'0' ∷ zeros k

-- `%012d`
unfoldable pub padded : ℕ → Bytes
padded n = let s = digits n n [] in zeros (12 - length s) ++ s

abbrev pub bundle_suffix : Bytes
bundle_suffix = codes ".bundle"

unfoldable pub format_key : Bytes → ℕ → ℕ → Bytes
format_key origin first last =
    origin ++ b'/' ∷ (padded first ++ b'-' ∷ (padded last ++ bundle_suffix))

abbrev pub cons_first : ℕ → Option (Bytes × Bytes) → Option (Bytes × Bytes)
cons_first c none = none
cons_first c (some (a, b)) = some (c ∷ a, b)

-- A text before and behind the last separator.
unfoldable pub cut_last : ℕ → Bytes → Option (Bytes × Bytes)
cut_last sep [] = none
cut_last sep (c ∷ s) = elim (cut_last sep s) [
  | some (a, b) ↦ some (c ∷ a, b)
  | none ↦ if c == sep then some ([], s) else none
]

-- A text before and behind the first separator.
unfoldable pub cut_first : ℕ → Bytes → Option (Bytes × Bytes)
cut_first sep [] = none
cut_first sep (c ∷ s) =
    let rest = cut_first sep s in if c == sep then some ([], s) else cons_first c rest

abbrev pub bytes_eq : Bytes → Bytes → Bool
bytes_eq [] [] = true
bytes_eq [] (d ∷ t) = false
bytes_eq (c ∷ s) [] = false
bytes_eq (c ∷ s) (d ∷ t) = (c == d) && bytes_eq s t

-- strings.HasSuffix and strings.TrimSuffix: the text before the suffix.
unfoldable pub before_suffix : Bytes → Bytes → Option Bytes
before_suffix suffix [] = if bytes_eq [] suffix then some [] else none
before_suffix suffix (c ∷ s) =
    let rest = before_suffix suffix s in
    if bytes_eq (c ∷ s) suffix then some [] else elim rest [ none ↦ none | some a ↦ some (c ∷ a) ]

-- A magnitude in the range of int64.
unfoldable pub in_range : Bool → Option ℕ → Option ℤ
in_range negative none = none
in_range false (some n) = if ltb n (2 ^ 63) then some (pos n) else none
in_range true (some n) =
    if ltb (2 ^ 63) n then none else if n == 0 then some (pos 0) else some (negsuc (n - 1))

unfoldable pub parse_magnitude : Bytes → Option ℕ
parse_magnitude [] = none
parse_magnitude (c ∷ s) = digits_value 0 (c ∷ s)

-- strconv.ParseInt(s, 10, 64); `none` is an error.
unfoldable pub parse_int : Bytes → Option ℤ
parse_int [] = none
parse_int (c ∷ s) =
    if c == b'-'
    then in_range true (parse_magnitude s)
    else if c == b'+'
    then in_range false (parse_magnitude s)
    else in_range false (parse_magnitude (c ∷ s))

pub record Key : Type 0 where
  pub origin : Bytes
  pub first : ℤ
  pub last : ℤ

unfoldable pub key_of_range : Bytes → Option ℤ → Option ℤ → Option Key
key_of_range origin none last = none
key_of_range origin (some first) none = none
key_of_range origin (some first) (some last) =
    some (record { origin = origin; first = first; last = last })

unfoldable pub key_of_span : Bytes → Option (Bytes × Bytes) → Option Key
key_of_span origin none = none
key_of_span origin (some (a, b)) = key_of_range origin (parse_int a) (parse_int b)

-- The object's name behind the last slash, without its suffix.
unfoldable pub key_of_name : Bytes → Option Bytes → Option Key
key_of_name origin none = none
key_of_name origin (some span) = key_of_span origin (cut_first b'-' span)

unfoldable pub key_of_path : Option (Bytes × Bytes) → Option Key
key_of_path none = none
key_of_path (some (origin, name)) = key_of_name origin (before_suffix bundle_suffix name)

unfoldable pub parse_key : Bytes → Option Key
parse_key key = key_of_path (cut_last b'/' key)
