-- ===== src/Version.antt =====
-- internal/version/version.go: a build's identity, read from text and ranked.
-- A text is the list of its bytes.
pub mod Ranking
pub mod Reading
use Prim.Native.Nat.{compare, Ordering}
use agentic_stats.Prelude.{
  ℕ, ◌+◌, ◌-◌, ◌*◌, ◌^◌, ◌≡◌, refl, Bool, true, false, not, ◌&&◌, Option, none, some, List, [], ◌∷◌,
  leb, ltb, ◌==◌, if◌then◌else◌, codes,
}

pub data Kind : Type 0 where
  unreleased release : Kind

pub data Order : Type 0 where
  unknown same newer older : Order

pub record Version : Type 0 where
  pub raw : List ℕ
  pub kind : Kind
  pub major : ℕ
  pub minor : ℕ
  pub patch : ℕ

-- Puts a byte before the first piece.
unfoldable pub push : ℕ → List (List ℕ) → List (List ℕ)
push c [] = (c ∷ []) ∷ []
push c (p ∷ ps) = (c ∷ p) ∷ ps

-- strings.Split(s, sep) for a separator of one byte.
unfoldable pub split : ℕ → List ℕ → List (List ℕ)
unfolding push
split sep [] = [] ∷ []
split sep (c ∷ s) = let rest = split sep s in if c == sep then [] ∷ rest else push c rest

unfoldable pub is_digit : ℕ → Bool
is_digit c = leb b'0' c && leb c b'9'

-- The value of a run of digits, read after the value so far.
unfoldable pub digits_value : ℕ → List ℕ → Option ℕ
unfolding is_digit
digits_value n [] = some n
digits_value n (c ∷ s) =
    let rest = digits_value (n * 10 + (c - b'0')) s in if is_digit c then rest else none

-- strconv.ParseUint(s, 10, 31): digits only, at least one, and a value of at most 31 bits.
unfoldable pub parse_uint31 : List ℕ → Option ℕ
unfolding digits_value
parse_uint31 [] = none
parse_uint31 (c ∷ s) = elim (digits_value 0 (c ∷ s)) [
  | none ↦ none
  | some n ↦ if ltb n (2 ^ 31) then some n else none
]

-- The loop over the three parts: it fails at the first that is no number.
unfoldable pub triple_of : List ℕ → List ℕ → List ℕ → Option (ℕ × ℕ × ℕ)
triple_of p q r = elim (parse_uint31 p) [
  | none ↦ none
  | some a ↦ elim (parse_uint31 q) [
    | none ↦ none
    | some b ↦ elim (parse_uint31 r) [ none ↦ none | some c ↦ some (a, b, c) ]
  ]
]

unfoldable pub three_parts : List (List ℕ) → Option (ℕ × ℕ × ℕ)
unfolding triple_of
three_parts (p ∷ q ∷ r ∷ []) = triple_of p q r
three_parts _ = none

unfoldable pub split_triple : List ℕ → Option (ℕ × ℕ × ℕ)
split_triple s = three_parts (split b'.' s)

-- strings.TrimPrefix(s, "v")
unfoldable pub trim_v : List ℕ → List ℕ
trim_v [] = []
trim_v (c ∷ s) = if c == b'v' then s else c ∷ s

unfoldable pub version_of : List ℕ → Option (ℕ × ℕ × ℕ) → Version
version_of raw none = record { raw = raw; kind = unreleased; major = 0; minor = 0; patch = 0 }
version_of raw (some (a, b, c)) = record {
  raw = raw;
  kind = release;
  major = a;
  minor = b;
  patch = c;
}

-- strings.TrimSpace is the argument `trim_space`.
unfoldable pub parse : (List ℕ → List ℕ) → List ℕ → Version
unfolding version_of
parse trim_space s = let raw = trim_space s in version_of raw (split_triple (trim_v raw))

unfoldable pub is_release : Version → Bool
is_release v = elim v.kind [ release ↦ true | unreleased ↦ false ]

-- cmp.Or on the results of cmp.Compare: the first that is not 0.
unfoldable pub cmp_or : Ordering → Ordering → Ordering
cmp_or a b = elim a [ Ordering.eq ↦ b | x ↦ x ]

unfoldable pub order_of : Ordering → Order
order_of o = elim o [ Ordering.gt ↦ newer | Ordering.lt ↦ older | Ordering.eq ↦ same ]

-- Compare, called `rank` here beside the native `compare`.
unfoldable pub rank : Version → Version → Order
unfolding is_release cmp_or order_of
rank v w =
    if is_release v && not (is_release w)
    then newer
    else if not (is_release v) && is_release w
    then older
    else if not (is_release v)
    then unknown
    else order_of (
        cmp_or (compare v.major w.major)
          (cmp_or (compare v.minor w.minor) (compare v.patch w.patch)))
