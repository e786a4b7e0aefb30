-- ===== src/Tests/Reprocess.antt =====
-- internal/ingest/reprocess.go, internal/store/extraction.go
use agentic_stats.Prelude.{
  ℕ, ◌≤◌, ◌≡◌, refl, Bool, true, false, none, some, Option, List, [], ◌∷◌, map, arith, String, ltb,
  if◌then◌else◌,
}
use agentic_stats.Source.{Bytes}
use agentic_stats.Store.Record.{Row, to_row, nullable}
use agentic_stats.Store.Table.{
  max_seq, has_key, same_value, is_null, same_uuid, same_hash, same_line, conflicts,
}
use agentic_stats.Store.Table.Unique.{IsUnique}
use agentic_stats.Store.Extraction.{Archive, extraction_pending}
use agentic_stats.Derive.Identity.{Shape}
use agentic_stats.Ingest.Reprocess.{Opener, Run, no_stats, extraction_version, pass}
use agentic_stats.Ingest.Reprocess.Batch.{refreshed}
use agentic_stats.Ingest.Reprocess.Walked.{mark, Walked}
use agentic_stats.Ingest.Reprocess.Whole.{pass-Walked, pass_completes}
use agentic_stats.Tests.Data.{sent}

-- A body in a checkout of a branch.
abbrev body : Shape
body = record {
  session_id = "s1";
  uuid = "u1";
  timestamp = "2026-01-01T00:00:00Z";
  request_id = "";
  kind = "user";
  pr_repo = "";
  pr_number = 0;
  cwd = "/home/u/p";
  git_branch = "topic";
  model = "";
  usage = none;
}

-- Bodies that are one byte long cannot be opened.
abbrev open_body : Bytes → Option Bytes
open_body (x ∷ y ∷ b) = some (x ∷ y ∷ b)
open_body _ = none

abbrev opener : Opener
opener = record { trim = λ s. s; parse = λ b. some body; unseal = open_body }

abbrev rows : List Row
rows =
    to_row (sent "a" 1 "u1" "h1") "t0"
    ∷ to_row (sent "b" 1 "u1" "h1") "t0"
    ∷ to_row (record (sent "a" 2 "u2" "h2") { sealed = 1 ∷ [] }) "t0"
    ∷ to_row (sent "a" 3 "u3" "h3") "t0"
    ∷ []

abbrev old : Archive
old = record {
  db = record { origin = "a"; rows = rows; quarantine = [] };
  marks = record { origin_id = "b"; version = 1; seq = 1; updated_at = "t0" } ∷ [];
}

abbrev stopped_after : ℕ → Bool → Run
stopped_after batch stop = record {
  opener = opener;
  batch = batch;
  times = λ i. "t1";
  cancelled = λ i. stop;
}

rows-IsUnique : IsUnique rows
unfolding conflicts to_row nullable has_key same_line same_value is_null same_uuid same_hash
rows-IsUnique = (refl, (refl, (refl, (refl, tt))))

pass-Walked_example :
    Walked opener old (pass (stopped_after 2 true) old).0.archive
    × IsUnique (pass (stopped_after 2 true) old).0.archive.db.rows
pass-Walked_example = pass-Walked (stopped_after 2 true) old rows-IsUnique

pass_completes_example :
    ((pass (stopped_after 2 false) old).1 ≡ none)
    × ((pass (stopped_after 2 false) old).0.archive.db.rows
        ≡ map (λ w. if ltb (mark old w.origin_id) w.seq then refreshed opener w else w) rows)
    × ((o : String)
        → max_seq (pass (stopped_after 2 false) old).0.archive.db.rows o
          ≤ mark (pass (stopped_after 2 false) old).0.archive o)
    × (extraction_pending extraction_version (pass (stopped_after 2 false) old).0.archive ≡ 0)
    × (pass (stopped_after 2 false) (pass (stopped_after 2 false) old).0.archive ≡ (
      record {
        archive = (pass (stopped_after 2 false) old).0.archive;
        stats = no_stats;
        batches = 0;
      },
      none,
    ))
pass_completes_example =
    pass_completes (stopped_after 2 false) old rows-IsUnique (omega arith) (λ i. refl)
