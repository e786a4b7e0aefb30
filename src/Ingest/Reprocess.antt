-- ===== src/Ingest/Reprocess.antt =====
-- Re-extracting what is archived. internal/ingest/reprocess.go
pub mod Batch
pub mod Walked
pub mod Loop
pub mod Origins
pub mod Whole
use agentic_stats.Prelude.{
  ℕ, zero, suc, ◌+◌, Bool, true, false, ◌&&◌, Option, none, some, List, [], ◌∷◌, map, String,
  str_eq, ltb, ◌==◌, if◌then◌else◌, length, is_empty,
}
use Prim.Native.String.{compare}
use Prim.Native.Nat.{Ordering}
use agentic_stats.Source.{Bytes}
use agentic_stats.Store.Record.{Record}
use agentic_stats.Store.Order.{last_seq}
use agentic_stats.Store.Query.{VersionVector, seq_at, since, vector}
use agentic_stats.Store.Extraction.{Extracted, Archive, extraction_marks, save_extracted}
use agentic_stats.Derive.Identity.{Identity, Shape, identify}

abbrev pub extraction_version : ℕ
extraction_version = 1

abbrev pub default_reprocess_batch : ℕ
default_reprocess_batch = 500

-- strings.TrimSpace, json.Unmarshal of a line, and OpenPayload; `none` is an error.
pub record Opener : Type 0 where
  pub trim : String → String
  pub parse : Bytes → Option Shape
  pub unseal : Bytes → Option Bytes

pub record ReprocessStats : Type 0 where
  pub examined : ℕ
  pub updated : ℕ
  pub unreadable : ℕ

abbrev pub no_stats : ReprocessStats
no_stats = record { examined = 0; updated = 0; unreadable = 0 }

unfoldable pub wanted : Record → Identity → Extracted
wanted r id = record {
  origin_id = r.origin_id;
  seq = r.seq;
  cwd = id.cwd;
  git_branch = id.git_branch;
  pr_repo = id.pr_repo;
  pr_number = id.pr_number;
}

unfoldable pub agrees : Extracted → Record → Bool
agrees e r =
    str_eq e.cwd r.cwd
    && (str_eq e.git_branch r.git_branch
        && (str_eq e.pr_repo r.pr_repo && (e.pr_number == r.pr_number)))

-- The rows to write and how many bodies could not be read: one record before the rest.
unfoldable pub reextract_one :
    Opener → Record → Option Bytes → List Extracted × ℕ → List Extracted × ℕ
reextract_one opener r none (rows, unreadable) = (rows, suc unreadable)
reextract_one opener r (some plain) (rows, unreadable) =
    let want = wanted r (identify opener.trim (opener.parse plain)) in
    if agrees want r then (rows, unreadable) else (want ∷ rows, unreadable)

unfoldable pub reextract : Opener → List Record → List Extracted × ℕ
reextract opener [] = ([], 0)
reextract opener (r ∷ batch) =
    reextract_one opener r (opener.unseal r.sealed) (reextract opener batch)

-- slices.Sort of the origins.
unfoldable pub place : String → List String → List String
place o [] = o ∷ []
place o (p ∷ origins) =
    let rest = place o origins in
    elim (compare o p) [ Ordering.gt ↦ p ∷ rest | _ ↦ o ∷ p ∷ origins ]

unfoldable pub sorted_origins : VersionVector → List String
sorted_origins [] = []
sorted_origins (e ∷ vec) = place (e.0) (sorted_origins vec)

-- What a pass runs with: its keys, its batch size, and for the i-th batch the time that is written
-- and whether the context is done after it.
pub record Run : Type 0 where
  pub opener : Opener
  pub batch : ℕ
  pub times : ℕ → String
  pub cancelled : ℕ → Bool

pub record Pass : Type 0 where
  pub archive : Archive
  pub stats : ReprocessStats
  pub batches : ℕ

pub data PassError : Type 0 where
  cancelled : PassError

abbrev pub Passed : Type 0
Passed = Pass × Option PassError

-- One batch: re-extracted, and saved with the mark on its last number.
unfoldable pub examine : Run → String → List Record → ℕ → Pass → Pass
examine run origin batch up_to s =
    let (rows, unreadable) = reextract run.opener batch in
    record {
      archive = save_extracted extraction_version origin up_to (run.times s.batches) rows s.archive;
      stats = record {
        examined = s.stats.examined + length batch;
        updated = s.stats.updated + length rows;
        unreadable = s.stats.unreadable + unreadable;
      };
      batches = suc s.batches;
    }

-- The loop over one origin, on fuel.
unfoldable pub pass_loop : ℕ → Run → String → ℕ → ℕ → Pass → Passed
pass_loop zero run o high after s = (s, none)
pass_loop (suc fuel) run o high after s =
    let batch = since s.archive.db o after run.batch in
    let up_to = last_seq batch after in
    let next = examine run o batch up_to s in
    elim (ltb after high) [
      | false ↦ (s, none)
      | true ↦ elim (is_empty batch) [
        | true ↦ (s, none)
        | false ↦ elim (run.cancelled s.batches) [
          | true ↦ (next, some cancelled)
          | false ↦ pass_loop fuel run o high up_to next
        ]
      ]
    ]

unfoldable pub then_pass : (Pass → Passed) → Passed → Passed
then_pass more (s, some e) = (s, some e)
then_pass more (s, none) = more s

-- The walk over the origins; the vector and the marks are those read before it.
unfoldable pub pass_origins : Run → VersionVector → VersionVector → List String → Pass → Passed
pass_origins run vec marks [] s = (s, none)
pass_origins run vec marks (o ∷ origins) s =
    let high = seq_at vec o in
    then_pass (pass_origins run vec marks origins) (pass_loop high run o high (seq_at marks o) s)

unfoldable pub pass : Run → Archive → Passed
pass run a =
    let vec = vector a.db in
    pass_origins run vec (extraction_marks a.marks extraction_version) (sorted_origins vec)
      (record { archive = a; stats = no_stats; batches = 0 })
