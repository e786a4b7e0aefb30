-- ===== src/Store/Table/Unique.antt =====
-- No two rows of a table have one key or hold one line, and an insert keeps it so.
use agentic_stats.Prelude.{
  ℕ, ◌≡◌, refl, Bool, false, ◌&&◌, Option, none, some, List, [], ◌∷◌, ◌++◌, arith, String, str_eq,
  eq_iff, any, any-append, inl, inr, ◌==◌,
}
use agentic_stats.Store.Record.{Record, Row, to_row}
use agentic_stats.Store.Table.{
  has_key, same_value, is_null, same_uuid, same_hash, same_line, conflicts, exec_insert,
}
use agentic_stats.Store.Table.Keys.{exec_insert_cases}

abbrev pub IsUnique : List Row → Type 0
IsUnique [] = Unit
IsUnique (w ∷ rows) = (any (conflicts w) rows ≡ false) × IsUnique rows

pub str_eq_comm : (s t : String) → str_eq s t ≡ str_eq t s
str_eq_comm s t = ground (arith, eq_iff s t, eq_iff t s)

num_eq_comm : (a b : ℕ) → (a == b) ≡ (b == a)
num_eq_comm a b = ground arith

same_value_comm : (a b : Option String) → same_value a b ≡ same_value b a
unfolding same_value
same_value_comm (some a) (some b) = str_eq_comm a b
same_value_comm (some a) none = refl
same_value_comm none (some b) = refl
same_value_comm none none = refl

and_comm : (a b : Bool) → (a && b) ≡ (b && a)
and_comm a b = ground arith

same_uuid_comm : (w v : Row) → same_uuid w v ≡ same_uuid v w
unfolding same_uuid
same_uuid_comm w v = rw (
  str_eq_comm w.origin_id v.origin_id,
  same_value_comm w.session_id v.session_id,
  same_value_comm w.line_uuid v.line_uuid,
)

same_hash_comm : (w v : Row) → same_hash w v ≡ same_hash v w
unfolding same_hash
same_hash_comm w v = rw (
  and_comm (is_null w.line_uuid) (is_null v.line_uuid),
  str_eq_comm w.origin_id v.origin_id,
  str_eq_comm w.source v.source,
  str_eq_comm w.path v.path,
  num_eq_comm w.byte_offset v.byte_offset,
  str_eq_comm w.content_hash v.content_hash,
)

has_key_comm : (w v : Row) → has_key w.origin_id w.seq v ≡ has_key v.origin_id v.seq w
unfolding has_key
has_key_comm w v = rw (str_eq_comm v.origin_id w.origin_id, num_eq_comm v.seq w.seq)

pub conflicts_comm : (w v : Row) → conflicts w v ≡ conflicts v w
unfolding conflicts same_line
conflicts_comm w v = rw (has_key_comm w v, same_uuid_comm w v, same_hash_comm w v)

pub IsUnique-snoc :
    (rows : List Row) (w : Row)
    → IsUnique rows
    → any (conflicts w) rows ≡ false
    → IsUnique (rows ++ w ∷ [])
IsUnique-snoc [] w u h = (refl, tt)
IsUnique-snoc (v ∷ rows) w u h = (
  ground (arith, any-append (conflicts v) rows (w ∷ []), conflicts_comm v w, u.0),
  IsUnique-snoc rows w u.1 (ground arith),
)

pub exec_insert-IsUnique :
    (rows : List Row) (r : Record) (now : String)
    → IsUnique rows
    → IsUnique (exec_insert rows r now).0
exec_insert-IsUnique rows r now u = elim (exec_insert_cases rows r now) [
  | inl (e, _) ↦ rw e u
  | inr (e, c) ↦ rw e (IsUnique-snoc rows (to_row r now) u c)
]
