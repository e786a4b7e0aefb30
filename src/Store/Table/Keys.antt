-- ===== src/Store/Table/Keys.antt =====
-- The keys that a table holds, and what one insert does to them.
use agentic_stats.Prelude.{
  ℕ, ◌+◌, ◌≤◌, ◌≡◌, refl, Bool, true, false, ◌||◌, ◌⊎◌, none, some, List, [], ◌∷◌, ◌++◌, arith,
  String, str_eq, str_eq_refl, if◌then◌else◌, any, any-append, any-or, max, inl, inr, Bool-cases,
}
use agentic_stats.Store.Record.{Record, Row, to_row}
use agentic_stats.Store.Table.{
  has_key, conflicts, same_line, exec_insert, held, find_row, max_seq, IsDense,
}

pub held-snoc :
    (rows : List Row) (w : Row) (origin : String) (k : ℕ)
    → held (rows ++ w ∷ []) origin k ≡ (held rows origin k || has_key origin k w)
unfolding held
held-snoc rows w origin k = ground (arith, any-append (has_key origin k) rows (w ∷ []))

pub find_row-none :
    (rows : List Row) (origin : String) (k : ℕ)
    → find_row rows origin k ≡ none
    → held rows origin k ≡ false
unfolding find_row held
find_row-none [] origin k h = refl
find_row-none (w ∷ rows) origin k h = ground (arith, find_row-none rows origin k)

pub find_row-snoc :
    (rows : List Row) (w : Row) (origin : String) (k : ℕ)
    → find_row (rows ++ w ∷ []) origin k ≡ elim (find_row rows origin k) [
      | some v ↦ some v
      | none ↦ if has_key origin k w then some w else none
    ]
unfolding find_row
find_row-snoc [] w origin k = refl
find_row-snoc (v ∷ rows) w origin k = ground (arith, find_row-snoc rows w origin k)

max_swap :
    (b c : Bool) (x y m : ℕ)
    → (if b then max x (if c then max y m else m) else (if c then max y m else m))
      ≡ (if c then max y (if b then max x m else m) else (if b then max x m else m))
max_swap true true x y m = omega arith
max_swap true false x y m = refl
max_swap false c x y m = refl

pub max_seq-snoc :
    (rows : List Row) (w : Row) (origin : String)
    → max_seq (rows ++ w ∷ []) origin
      ≡ (if str_eq w.origin_id origin then max w.seq (max_seq rows origin) else max_seq rows origin)
unfolding max_seq
max_seq-snoc [] w origin = refl
max_seq-snoc (v ∷ rows) w origin = rw (max_seq-snoc rows w origin) (
    max_swap (str_eq v.origin_id origin) (str_eq w.origin_id origin) v.seq w.seq
      (max_seq rows origin))

pub held-le-max_seq :
    (rows : List Row) (origin : String) (k : ℕ)
    → held rows origin k ≡ true
    → k ≤ max_seq rows origin
unfolding held max_seq has_key
held-le-max_seq [] origin k h = cc
held-le-max_seq (w ∷ rows) origin k h = ground (arith, held-le-max_seq rows origin k)

-- An insert either writes its row at the end, under a key that was free, or changes nothing.
pub exec_insert_cases :
    (rows : List Row) (r : Record) (now : String)
    → (exec_insert rows r now ≡ (rows, 0)) × (any (conflicts (to_row r now)) rows ≡ true)
      ⊎ (exec_insert rows r now ≡ (rows ++ to_row r now ∷ [], 1))
        × (any (conflicts (to_row r now)) rows ≡ false)
unfolding exec_insert
exec_insert_cases rows r now = elim (Bool-cases (any (conflicts (to_row r now)) rows)) [
  | inl e ↦ inl (rw e, e)
  | inr e ↦ inr (rw e, e)
]

-- A number that follows the highest keeps an origin dense.
pub IsDense-snoc :
    (rows : List Row) (w : Row)
    → IsDense rows w.origin_id
    → w.seq ≡ max_seq rows w.origin_id + 1
    → IsDense (rows ++ w ∷ []) w.origin_id
unfolding has_key
IsDense-snoc rows w d e k = ground (
  arith,
  held-snoc rows w w.origin_id k,
  max_seq-snoc rows w w.origin_id,
  d k,
  str_eq_refl w.origin_id,
)

-- What refuses a row: a row with its key, or one that holds the same line.
pub any-conflicts :
    (rows : List Row) (w : Row)
    → any (conflicts w) rows ≡ (held rows w.origin_id w.seq || any (same_line w) rows)
unfolding held conflicts
any-conflicts rows w = any-or (has_key w.origin_id w.seq) (same_line w) rows

pub next_free :
    (rows : List Row) (origin : String) → held rows origin (max_seq rows origin + 1) ≡ false
next_free rows origin = elim (Bool-cases (held rows origin (max_seq rows origin + 1))) [
  | inl e ↦ absurd (omega (arith, held-le-max_seq rows origin (max_seq rows origin + 1) e))
  | inr e ↦ e
]
