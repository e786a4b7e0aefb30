-- ===== src/Ingest.antt =====
-- Collected lines into the local replica. internal/ingest/ingest.go
pub mod Again
pub mod Reprocess
use agentic_stats.Prelude.{
  ℕ, ◌+◌, Bool, true, false, Option, none, some, List, [], ◌∷◌, ◌++◌, String, if◌then◌else◌, ltb,
  length, is_empty,
}
use agentic_stats.Source.{Bytes}
use agentic_stats.Collector.{Upload, IngestResult}
use agentic_stats.Store.Record.{Record}
use agentic_stats.Store.Append.{Db, AppendResult, AppendError, append_local}
use agentic_stats.Derive.Identity.{Identity, Shape, identify}

abbrev pub max_batch_records : ℕ
max_batch_records = 50000

abbrev pub nothing_ingested : IngestResult
nothing_ingested = record { received = 0; stored = 0; duplicates = 0 }

pub data IngestError : Type 0 where
  batch_too_large : ℕ → IngestError
  seal_failed : IngestError
  append_failed : AppendError → IngestError

-- strings.TrimSpace, json.Unmarshal of a line, and SealPayload of the i-th line of a batch, which
-- seals with a nonce of its own each time.
pub record Env : Type 0 where
  pub trim : String → String
  pub parse : Bytes → Option Shape
  pub seal : ℕ → Bytes → Option Bytes

unfoldable pub to_record : Identity → Bytes → Upload → Record
to_record id sealed r = record {
  origin_id = "";
  seq = 0;
  source = r.source;
  path = r.path;
  byte_offset = r.offset;
  content_hash = r.hash;
  session_id = id.session_id;
  line_uuid = id.line_uuid;
  captured_at = id.captured_at;
  request_id = id.request_id;
  model = id.model;
  input = id.usage.input;
  output = id.usage.output;
  thinking = id.usage.thinking;
  cache_read = id.usage.cache_read;
  cache_write5m = id.usage.cache_write5m;
  cache_write1h = id.usage.cache_write1h;
  pr_repo = id.pr_repo;
  pr_number = id.pr_number;
  cwd = id.cwd;
  git_branch = id.git_branch;
  sealed = sealed;
}

unfoldable pub prepend : Option Record → Option (List Record) → Option (List Record)
prepend none recs = none
prepend (some r) none = none
prepend (some r) (some recs) = some (r ∷ recs)

unfoldable pub sealed_record : Env → Upload → Option Bytes → Option Record
sealed_record env r none = none
sealed_record env r (some sealed) =
    some (to_record (identify env.trim (env.parse r.bytes)) sealed r)

-- The loop over the batch, from its i-th line on; `none` is a payload that cannot be sealed.
unfoldable pub to_records : Env → ℕ → List Upload → Option (List Record)
to_records env i [] = some []
to_records env i (r ∷ records) =
    prepend (sealed_record env r (env.seal i r.bytes)) (to_records env (i + 1) records)

abbrev pub Ingested : Type 0
Ingested = Db × IngestResult × Option IngestError

unfoldable pub counted : ℕ → Db × AppendResult × Option AppendError → Ingested
counted n (db, out, some e) = (db, nothing_ingested, some (append_failed e))
counted n (db, out, none) =
    (db, record { received = n; stored = out.stored; duplicates = out.duplicates }, none)

unfoldable pub append_sealed : Db → String → ℕ → Option (List Record) → Ingested
append_sealed db now n none = (db, nothing_ingested, some seal_failed)
append_sealed db now n (some recs) = counted n (append_local db now recs)

unfoldable pub ingest : Env → Db → String → List Upload → Ingested
ingest env db now records =
    if is_empty records
    then (db, nothing_ingested, none)
    else if ltb max_batch_records (length records)
    then (db, nothing_ingested, some (batch_too_large (length records)))
    else append_sealed db now (length records) (to_records env 0 records)
