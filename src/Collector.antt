-- ===== src/Collector.antt =====
-- One collection pass: read, upload, and only then advance. internal/collector/collector.go,
-- internal/cursor/memory.go, NewRecord of internal/wire/wire.go
pub mod Commit
pub mod Safety
pub mod Stores
use agentic_stats.Prelude.{
  ◌⊎◌, inl, inr, not, ℕ, zero, suc, ◌+◌, Bool, true, false, ◌&&◌, ◌||◌, Option, none, some, List,
  [], ◌∷◌, ◌++◌, map, String, str_eq, if◌then◌else◌, leb, ◌==◌, length, is_empty,
}
use agentic_stats.Source.{Bytes, Cursor, StreamId, RawLine, ReadResult, Continuity, appended}
use agentic_stats.Cursor.{Key, key_of, zero_cursor}

-- wire.Record
pub record Upload : Type 0 where
  pub source : String
  pub path : String
  pub offset : ℕ
  pub hash : String
  pub bytes : Bytes

unfoldable pub new_record : (Bytes → String) → String → String → ℕ → Bytes → Upload
new_record sha source path offset bytes = record {
  source = source;
  path = path;
  offset = offset;
  hash = sha bytes;
  bytes = bytes;
}

abbrev pub uploads : (Bytes → String) → List RawLine → List Upload
uploads sha lines = map (λ l. new_record sha l.stream.source l.stream.path l.offset l.bytes) lines

unfoldable pub same_key : Key → Key → Bool
same_key a b = str_eq a.source b.source && str_eq a.path b.path

abbrev pub Cursors : Type 0
Cursors = List (Key × Cursor)

-- MemoryStore, and the map of pending cursors: one entry for each key.
unfoldable pub memory_load : Cursors → Key → Cursor
memory_load [] k = zero_cursor
memory_load (e ∷ m) k = if same_key (e.0) k then e.1 else memory_load m k

unfoldable pub memory_delete : Cursors → Key → Cursors
memory_delete [] k = []
memory_delete (e ∷ m) k =
    let rest = memory_delete m k in if same_key (e.0) k then rest else e ∷ rest

unfoldable pub memory_save : Cursors → Key → Cursor → Cursors
memory_save m k c = (k, c) ∷ memory_delete m k

pub record Stats : Type 0 where
  pub streams : ℕ
  pub lines : ℕ
  pub batches : ℕ
  pub stored : ℕ
  pub duplicates : ℕ
  pub gone : ℕ
  pub restarted : ℕ

abbrev pub no_stats : Stats
no_stats = record {
  streams = 0;
  lines = 0;
  batches = 0;
  stored = 0;
  duplicates = 0;
  gone = 0;
  restarted = 0;
}

pub record IngestResult : Type 0 where
  pub received : ℕ
  pub stored : ℕ
  pub duplicates : ℕ

-- What one Read answers: ErrStreamGone, another error, or a result.
pub data Outcome : Type 0 where
  gone : Outcome
  failed : Outcome
  got : ReadResult → Outcome

-- `read i` is the stream's answer in the i-th round of the loop over it, as the file may change.
pub record Stream : Type 0 where
  pub id : StreamId
  pub read : ℕ → Cursor → Outcome

-- What Discover answers: `none` is an error.
pub record Source : Type 0 where
  pub discovered : Option (List Stream)

-- The server's answer may depend on what it has acknowledged; the cursor store may fail.
pub record Config : Type 0 where
  pub sha : Bytes → String
  pub batch_size : ℕ
  pub ingest : List Upload → List Upload → Option IngestResult
  pub load_fails : Key → Bool
  pub save_fails : Key → Cursor → Bool

abbrev pub default_batch_size : ℕ
default_batch_size = 2000

pub data ConfigError : Type 0 where
  source_required : ConfigError
  cursors_required : ConfigError
  uploader_required : ConfigError

-- New: which parts the caller gave, and the configuration.
unfoldable pub new_collector : List Source → Bool → Bool → Config → Config ⊎ ConfigError
new_collector srcs has_cursors has_uploader cfg =
    if is_empty srcs
    then inr source_required
    else if not has_cursors
    then inr cursors_required
    else if not has_uploader
    then inr uploader_required
    else inl (record cfg {
      batch_size = if cfg.batch_size == 0 then default_batch_size else cfg.batch_size;
    })

pub data CollectError : Type 0 where
  discover_failed : CollectError
  load_failed : CollectError
  read_failed : CollectError
  upload_failed : CollectError
  save_failed : CollectError
  out_of_fuel : CollectError

-- The cursor store, what the server has acknowledged, what is pending, and the counts.
pub record Pass : Type 0 where
  pub saved : Cursors
  pub acked : List Upload
  pub records : List Upload
  pub cursors : Cursors
  pub stats : Stats

abbrev pub Result : Type 0
Result = Pass × Option CollectError

-- The code's `if err != nil { return err }`.
unfoldable pub and_then : Result → (Pass → Result) → Result
and_then (s, none) f = f s
and_then (s, some e) f = (s, some e)

unfoldable pub commit_loop : Config → Pass → Cursors → Result
commit_loop cfg s [] = (record s { cursors = [] }, none)
commit_loop cfg s (e ∷ rest) = elim (cfg.save_fails (e.0) (e.1)) [
  | true ↦ (record s { cursors = e ∷ rest }, some save_failed)
  | false ↦ commit_loop cfg (record s { saved = memory_save s.saved (e.0) (e.1) }) rest
]

unfoldable pub commit : Config → Pass → Result
commit cfg s = commit_loop cfg s s.cursors

-- The upload was acknowledged.
unfoldable pub acknowledged : Pass → IngestResult → Pass
acknowledged s r = record s {
  acked = s.acked ++ s.records;
  stats = record (s.stats) {
    batches = s.stats.batches + 1;
    stored = s.stats.stored + r.stored;
    duplicates = s.stats.duplicates + r.duplicates;
  };
}

unfoldable pub flush : Config → Pass → Result
flush cfg s = if is_empty s.records then commit cfg s else elim (cfg.ingest s.acked s.records) [
  | none ↦ (s, some upload_failed)
  | some r ↦ and_then (commit cfg (acknowledged s r)) (λ t. (record t { records = [] }, none))
]

unfoldable pub restarted_by : Continuity → ℕ
restarted_by appended = 0
restarted_by _ = 1

-- A read's lines and cursor become pending.
unfoldable pub absorb : Config → Key → Pass → ReadResult → Pass
absorb cfg key s r = record s {
  records = s.records ++ uploads cfg.sha r.lines;
  cursors = memory_save s.cursors key r.next;
  stats = record (s.stats) {
    lines = s.stats.lines + length r.lines;
    restarted = s.stats.restarted + restarted_by r.continuity;
  };
}

unfoldable pub flush_if_full : Config → Pass → Result
flush_if_full cfg s = if leb cfg.batch_size (length s.records) then flush cfg s else (s, none)

-- The loop over one stream, in its i-th round.
unfoldable pub drain_loop : ℕ → Config → Stream → ℕ → Cursor → Pass → Result
drain_loop zero cfg stream i from s = (s, some out_of_fuel)
drain_loop (suc fuel) cfg stream i from s = elim (stream.read i from) [
  | gone ↦ (record s { stats = record (s.stats) { gone = s.stats.gone + 1 } }, none)
  | failed ↦ (s, some read_failed)
  | got r ↦ and_then (flush_if_full cfg (absorb cfg (key_of stream.id) s r)) (λ t.
      if is_empty r.lines || (r.next.offset == from.offset)
      then (t, none)
      else drain_loop fuel cfg stream (i + 1) r.next t)
]

unfoldable pub drain_stream : ℕ → Config → Stream → Pass → Result
drain_stream fuel cfg stream s =
    let key = key_of stream.id in
    if cfg.load_fails key
    then (s, some load_failed)
    else drain_loop fuel cfg stream 0 (memory_load s.saved key) s

unfoldable pub drain_streams : ℕ → Config → List Stream → Pass → Result
drain_streams fuel cfg [] s = (s, none)
drain_streams fuel cfg (stream ∷ streams) s =
    and_then (drain_stream fuel cfg stream s) (λ t. drain_streams fuel cfg streams t)

unfoldable pub collect_sources : ℕ → Config → List Source → Pass → Result
collect_sources fuel cfg [] s = (s, none)
collect_sources fuel cfg (src ∷ srcs) s = elim src.discovered [
  | none ↦ (s, some discover_failed)
  | some streams ↦
      and_then
        (drain_streams fuel cfg streams
          (record s { stats = record (s.stats) { streams = s.stats.streams + length streams } }))
        (λ t. collect_sources fuel cfg srcs t)
]

abbrev pub begin : Cursors → List Upload → Pass
begin saved acked = record {
  saved = saved;
  acked = acked;
  records = [];
  cursors = [];
  stats = no_stats;
}

unfoldable pub collect_once : ℕ → Config → List Source → Cursors → List Upload → Result
collect_once fuel cfg srcs saved acked =
    and_then (collect_sources fuel cfg srcs (begin saved acked)) (λ t. flush cfg t)
