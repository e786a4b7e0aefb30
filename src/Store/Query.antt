-- ===== src/Store/Query.antt =====
-- The reads that replication is made of: Since and Vector. internal/store/records.go
pub mod Vector
pub mod Backlog
pub mod Dense
pub mod Batch
use agentic_stats.Prelude.{
  ℕ, ◌+◌, ◌≡◌, refl, Bool, true, false, not, ◌&&◌, Option, none, some, List, [], ◌∷◌, ◌++◌, map,
  String, str_eq, ltb, if◌then◌else◌, take, select, any, length,
}
use agentic_stats.Store.Record.{Record, Row, of_row}
use agentic_stats.Store.Table.{max_seq}
use agentic_stats.Store.Order.{order_by_seq}
use agentic_stats.Store.Append.{Db}

-- The rows of one origin above a number, in order: `Since` with no limit.
unfoldable pub backlog : List Row → String → ℕ → List Record
backlog rows origin after =
    order_by_seq (map of_row (select (λ w. str_eq w.origin_id origin && ltb after w.seq) rows))

unfoldable pub since : Db → String → ℕ → ℕ → List Record
since db origin after limit = take limit (backlog db.rows origin after)

abbrev pub VersionVector : Type 0
VersionVector = List (String × ℕ)

-- `vec[origin]`: 0 for an origin that the map does not have.
unfoldable pub seq_at : VersionVector → String → ℕ
seq_at [] origin = 0
seq_at ((o, n) ∷ vec) origin = if str_eq o origin then n else seq_at vec origin

unfoldable pub has_origin : VersionVector → String → Bool
has_origin vec origin = any (λ e. str_eq e.0 origin) vec

-- SELECT origin_id, max(seq) FROM records GROUP BY origin_id
unfoldable pub group_max : List Row → VersionVector
group_max [] = []
group_max (w ∷ rows) =
    let rest = group_max rows in
    (w.origin_id, max_seq (w ∷ rows) w.origin_id) ∷ select (λ e. not (str_eq e.0 w.origin_id)) rest

-- This node announces itself, even before it has collected anything.
unfoldable pub vector : Db → VersionVector
vector db =
    let vec = group_max db.rows in if has_origin vec db.origin then vec else (db.origin, 0) ∷ vec

unfoldable pub count : Db → ℕ
count db = length db.rows

unfoldable pub quarantined : Db → ℕ
quarantined db = length db.quarantine
