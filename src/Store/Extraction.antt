-- ===== src/Store/Extraction.antt =====
-- How far the archive is re-extracted, and what that writes. internal/store/extraction.go, the
-- table of internal/store/migrations/0006_extraction.sql
pub mod Marks
use agentic_stats.Prelude.{
  ℕ, ◌+◌, ◌-◌, Bool, ◌&&◌, Option, List, [], ◌∷◌, map, String, str_eq, ◌==◌, if◌then◌else◌, max,
}
use agentic_stats.Store.Record.{Row, nullable, nullable_int}
use agentic_stats.Store.Table.{has_key}
use agentic_stats.Store.Append.{Db}
use agentic_stats.Store.Query.{VersionVector, seq_at, group_max}

pub record Extracted : Type 0 where
  pub origin_id : String
  pub seq : ℕ
  pub cwd : String
  pub git_branch : String
  pub pr_repo : String
  pub pr_number : ℕ

-- A row of the extraction table.
pub record Mark : Type 0 where
  pub origin_id : String
  pub version : ℕ
  pub seq : ℕ
  pub updated_at : String

-- The two tables that re-extraction reads and writes.
pub record Archive : Type 0 where
  pub db : Db
  pub marks : List Mark

unfoldable pub extraction_marks : List Mark → ℕ → VersionVector
extraction_marks [] version = []
extraction_marks (m ∷ marks) version =
    let rest = extraction_marks marks version in
    if m.version == version then (m.origin_id, m.seq) ∷ rest else rest

unfoldable pub set_extracted : Extracted → Row → Row
set_extracted e w = record w {
  cwd = nullable e.cwd;
  git_branch = nullable e.git_branch;
  pr_repo = nullable e.pr_repo;
  pr_number = nullable_int e.pr_number;
}

-- UPDATE records SET … WHERE origin_id = ? AND seq = ?
unfoldable pub update_row : Extracted → Row → Row
update_row e w = if has_key e.origin_id e.seq w then set_extracted e w else w

unfoldable pub update_rows : List Extracted → List Row → List Row
update_rows [] rows = rows
update_rows (e ∷ es) rows = update_rows es (map (update_row e) rows)

-- INSERT … ON CONFLICT (origin_id, version) DO UPDATE SET seq = max(seq, excluded.seq), …
unfoldable pub advance : Mark → List Mark → List Mark
advance new [] = new ∷ []
advance new (m ∷ marks) =
    let rest = advance new marks in
    if str_eq m.origin_id new.origin_id && (m.version == new.version)
    then record m { seq = max m.seq new.seq; updated_at = new.updated_at } ∷ marks
    else m ∷ rest

unfoldable pub save_extracted : ℕ → String → ℕ → String → List Extracted → Archive → Archive
save_extracted version origin up_to now es a = record {
  db = record (a.db) { rows = update_rows es a.db.rows };
  marks =
      advance (record { origin_id = origin; version = version; seq = up_to; updated_at = now })
        a.marks;
}

-- The sums of the highest numbers and of their marks, 0 where there is none.
unfoldable pub sum_high : VersionVector → ℕ
sum_high [] = 0
sum_high (e ∷ vec) = e.1 + sum_high vec

unfoldable pub sum_marks : VersionVector → VersionVector → ℕ
sum_marks marks [] = 0
sum_marks marks (e ∷ vec) = seq_at marks (e.0) + sum_marks marks vec

-- The sum of the differences is the difference of the sums, and what is below 0 is clamped.
unfoldable pub extraction_pending : ℕ → Archive → ℕ
extraction_pending version a =
    let held = group_max a.db.rows in
    sum_high held - sum_marks (extraction_marks a.marks version) held
