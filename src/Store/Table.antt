-- ===== src/Store/Table.antt =====
-- The records table under its primary key and its two unique indexes, and the insert that skips
-- a row which any of them refuses. internal/store/records.go,
-- internal/store/migrations/0001_init.sql
pub mod Keys
pub mod Unique
use agentic_stats.Prelude.{
  ℕ, zero, suc, ◌+◌, ◌≤◌, ◌<◌, ◌≡◌, refl, Bool, true, false, ◌&&◌, ◌||◌, Option, none, some, List,
  [], ◌∷◌, ◌++◌, arith, String, str_eq, eq_iff, str_eq_refl, ◌==◌, if◌then◌else◌, any, any-append,
  max, ◌↔◌,
}
use agentic_stats.Store.Record.{Record, Row, to_row}

-- PRIMARY KEY (origin_id, seq)
unfoldable pub has_key : String → ℕ → Row → Bool
has_key origin k w = str_eq w.origin_id origin && (w.seq == k)

-- Two values that SQL's unique index takes for equal: NULLs are distinct.
unfoldable pub same_value : Option String → Option String → Bool
same_value (some a) (some b) = str_eq a b
same_value _ _ = false

unfoldable pub is_null : Option String → Bool
is_null none = true
is_null (some a) = false

-- records_semantic_uuid: (origin_id, session_id, line_uuid) WHERE line_uuid IS NOT NULL
unfoldable pub same_uuid : Row → Row → Bool
unfolding same_value
same_uuid w v =
    str_eq w.origin_id v.origin_id
    && (same_value w.session_id v.session_id && same_value w.line_uuid v.line_uuid)

-- records_semantic_hash: (origin_id, source, path, byte_offset, content_hash)
-- WHERE line_uuid IS NULL
unfoldable pub same_hash : Row → Row → Bool
unfolding is_null
same_hash w v =
    (is_null w.line_uuid && is_null v.line_uuid)
    && (str_eq w.origin_id v.origin_id
        && (str_eq w.source v.source
            && (str_eq w.path v.path
                && ((w.byte_offset == v.byte_offset) && str_eq w.content_hash v.content_hash))))

unfoldable pub same_line : Row → Row → Bool
same_line w v = same_uuid w v || same_hash w v

unfoldable pub conflicts : Row → Row → Bool
conflicts w v = has_key w.origin_id w.seq v || same_line w v

-- INSERT … ON CONFLICT DO NOTHING: the rows, and how many were written.
unfoldable pub exec_insert : List Row → Record → String → List Row × ℕ
exec_insert rows r now =
    let row = to_row r now in if any (conflicts row) rows then (rows, 0) else (rows ++ row ∷ [], 1)

-- Whether a row of an origin holds a sequence number.
unfoldable pub held : List Row → String → ℕ → Bool
held rows origin k = any (has_key origin k) rows

-- SELECT … WHERE origin_id = ? AND seq = ?
unfoldable pub find_row : List Row → String → ℕ → Option Row
find_row [] origin k = none
find_row (w ∷ rows) origin k = if has_key origin k w then some w else find_row rows origin k

-- SELECT max(seq) FROM records WHERE origin_id = ?; 0 where there is no row.
unfoldable pub max_seq : List Row → String → ℕ
max_seq [] origin = 0
max_seq (w ∷ rows) origin =
    if str_eq w.origin_id origin then max w.seq (max_seq rows origin) else max_seq rows origin

-- An origin has every number from 1 up to its highest, and no other.
abbrev pub IsDense : List Row → String → Type 0
IsDense rows origin = (k : ℕ) → (held rows origin k ≡ true) ↔ ((1 ≤ k) × (k ≤ max_seq rows origin))
