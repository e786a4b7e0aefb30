-- ===== src/Store/Extraction/Marks.antt =====
-- The marks of the extraction table and what one write does to them. internal/store/extraction.go
use agentic_stats.Prelude.{
  ℕ, ◌≡◌, true, List, [], ◌∷◌, arith, String, str_eq, eq_iff, ◌==◌, if◌then◌else◌, max, ◌≤◌, inl,
  inr, Bool-cases, All,
}
use agentic_stats.Store.Record.{Row}
use agentic_stats.Store.Table.{max_seq}
use agentic_stats.Store.Order.{All-select}
use agentic_stats.Store.Query.{VersionVector, seq_at, group_max}
use agentic_stats.Store.Extraction.{
  Mark, Archive, extraction_marks, advance, sum_high, sum_marks, extraction_pending,
}

advance_same :
    (new m : Mark) (marks : List Mark) (o : String)
    → str_eq m.origin_id new.origin_id ≡ true
    → (m.version == new.version) ≡ true
    → seq_at (extraction_marks (advance new (m ∷ marks)) new.version) o ≡ (
        if str_eq new.origin_id o
        then max (seq_at (extraction_marks (m ∷ marks) new.version) o) new.seq
        else seq_at (extraction_marks (m ∷ marks) new.version) o)
unfolding seq_at extraction_marks advance
advance_same new m marks o e g = rw (e, g, (eq_iff m.origin_id new.origin_id).0 e) (ground arith)

-- A write raises the mark of its origin at its version to its number, and leaves every other.
pub advance_lem :
    (new : Mark) (marks : List Mark) (o : String)
    → seq_at (extraction_marks (advance new marks) new.version) o ≡ (
        if str_eq new.origin_id o
        then max (seq_at (extraction_marks marks new.version) o) new.seq
        else seq_at (extraction_marks marks new.version) o)
unfolding seq_at extraction_marks advance
advance_lem new [] o = ground arith
advance_lem new (m ∷ marks) o = elim (Bool-cases (str_eq m.origin_id new.origin_id)) [
  | inl e ↦ elim (Bool-cases (m.version == new.version)) [
    | inl g ↦ advance_same new m marks o e g
    | inr g ↦ rw (e, g, extraction_marks, g) (advance_lem new marks o)
  ]
  | inr e ↦ ground (
    arith,
    e,
    advance_lem new marks o,
    eq_iff m.origin_id new.origin_id,
    eq_iff m.origin_id o,
    eq_iff new.origin_id o,
  )
]

low_marks :
    (rows : List Row) (f : String → ℕ)
    → ((o : String) → max_seq rows o ≤ f o)
    → All (λ (e : String × ℕ). e.1 ≤ f (e.0)) (group_max rows)
unfolding group_max
low_marks [] f h = tt
low_marks (w ∷ rows) f h = (
  h w.origin_id,
  All-select (λ (e : String × ℕ). e.1 ≤ f (e.0)) _ (group_max rows)
      (low_marks rows f (λ o. unfold max_seq in (ground (arith, h o)))),
)

sum_high-sum_marks :
    (marks vec : VersionVector)
    → All (λ (e : String × ℕ). e.1 ≤ seq_at marks (e.0)) vec
    → sum_high vec ≤ sum_marks marks vec
unfolding sum_high sum_marks
sum_high-sum_marks marks [] h = omega arith
sum_high-sum_marks marks (e ∷ vec) h = omega (arith, h.0, sum_high-sum_marks marks vec h.1)

-- Nothing is pending where every mark is on its origin's highest number.
pub extraction_pending_none :
    (version : ℕ) (a : Archive)
    → ((o : String) → max_seq a.db.rows o ≤ seq_at (extraction_marks a.marks version) o)
    → extraction_pending version a ≡ 0
unfolding extraction_pending
extraction_pending_none version a h =
    let marks = extraction_marks a.marks version in
    omega
      (arith, sum_high-sum_marks marks (group_max a.db.rows) (low_marks a.db.rows (seq_at marks) h))
