-- ===== src/Store/Query/Vector.antt =====
-- The version vector is the highest number of every origin.
use agentic_stats.Prelude.{
  ◌≡◌, refl, true, false, not, List, [], ◌∷◌, arith, String, str_eq, eq_iff, str_eq_refl,
  if◌then◌else◌, select, inl, inr, Bool-cases,
}
use agentic_stats.Store.Record.{Row}
use agentic_stats.Store.Table.{max_seq}
use agentic_stats.Store.Append.{Db}
use agentic_stats.Store.Query.{VersionVector, seq_at, has_origin, group_max, vector}

seq_at-select :
    (vec : VersionVector) (gone o : String)
    → seq_at (select (λ e. not (str_eq e.0 gone)) vec) o
      ≡ (if str_eq gone o then 0 else seq_at vec o)
unfolding seq_at
seq_at-select [] gone o = ground arith
seq_at-select ((p, n) ∷ vec) gone o =
    ground (arith, seq_at-select vec gone o, eq_iff p gone, eq_iff p o, eq_iff gone o)

max_seq_other :
    (w : Row) (rows : List Row) (o : String)
    → str_eq w.origin_id o ≡ false
    → max_seq (w ∷ rows) o ≡ max_seq rows o
unfolding max_seq
max_seq_other w rows o h = rw h

seq_at-group_max : (rows : List Row) (o : String) → seq_at (group_max rows) o ≡ max_seq rows o
unfolding group_max seq_at
seq_at-group_max [] o = unfold max_seq in refl
seq_at-group_max (w ∷ rows) o = elim (Bool-cases (str_eq w.origin_id o)) [
  | inl e ↦ rw (e, (eq_iff w.origin_id o).0 e)
  | inr e ↦ rw (
    e,
    seq_at-select (group_max rows) w.origin_id o,
    e,
    seq_at-group_max rows o,
    max_seq_other w rows o e,
  )
]

seq_at_absent : (vec : VersionVector) (o : String) → has_origin vec o ≡ false → seq_at vec o ≡ 0
unfolding has_origin seq_at
seq_at_absent [] o h = refl
seq_at_absent ((p, n) ∷ vec) o h = ground (arith, seq_at_absent vec o)

-- For every origin the vector gives the highest number held, or 0 where nothing is, and this node's
-- own origin is always listed.
pub vector-max_seq :
    (db : Db) (o : String)
    → (seq_at (vector db) o ≡ max_seq db.rows o) × (has_origin (vector db) db.origin ≡ true)
unfolding vector seq_at
vector-max_seq db o = elim (Bool-cases (has_origin (group_max db.rows) db.origin)) [
  | inl e ↦ rw e (seq_at-group_max db.rows o, e)
  | inr e ↦ rw e (
    ground (
      arith,
      seq_at-group_max db.rows o,
      seq_at_absent (group_max db.rows) o,
      eq_iff db.origin o,
    ),
    unfold has_origin in (rw (str_eq_refl db.origin)),
  )
]
