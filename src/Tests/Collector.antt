-- ===== src/Tests/Collector.antt =====
-- internal/source, internal/cursor, internal/collector
use mathlib.Core.Option.{some-injective}
use agentic_stats.Prelude.{
  ℕ, zero, suc, ◌*◌, ◌≤◌, ◌≡◌, ◌≢◌, refl, ap, subst, false, some, List, [], ◌∷◌, ◌++◌, arith,
  length, length-append, All,
}
use agentic_stats.Source.{
  Bytes, Cursor, FileIdentity, File, StreamId, ReadResult, appended, read, resolve_start,
  fingerprint, restart, read_lines, split_lines, cut_line, window, is_zero, same_identity,
}
use agentic_stats.Source.Resume.{Whole, read-Whole, read_stalls}
use agentic_stats.Cursor.{Key, save, load, delete, zero_cursor, key_string}
use agentic_stats.Cursor.Codec.{load-save}
use agentic_stats.Collector.{
  Stream, Source, Config, Outcome, got, gone, failed, collect_once, uploads, memory_load,
}
use agentic_stats.Collector.Commit.{Claim, Stable, SourceReads, Reads}
use agentic_stats.Collector.Safety.{collect_once_safe}
use agentic_stats.Collector.Stores.{
  IsClean, Operation, saving, deleting, bolt_after, memory_after, stores_agree,
}

abbrev inode : FileIdentity
inode = record { device = 1; serial = 7 }

abbrev transcript : StreamId
transcript = record { source = "claudecode"; path = "/a.jsonl"; identity = inode }

-- `{}`, a newline, and the beginning of a second line.
abbrev file : File
file = record {
  info = record { size = 5; identity = inode };
  content = 123 ∷ 125 ∷ 10 ∷ 123 ∷ 34 ∷ [];
}

abbrev after_first : Cursor
after_first = record { offset = 3; fingerprint = 9; identity = inode }

abbrev hash : Bytes → ℕ
hash s = length s

read-Whole_example :
    (r : ReadResult) × (read hash 100 transcript file zero_cursor ≡ some r)
    × ((fp : ℕ) × (start : ℕ) × (fingerprint hash file.content file.info.size ≡ some fp)
        × Whole 100 transcript file zero_cursor fp start r)
read-Whole_example = read-Whole hash 100 transcript file zero_cursor (omega arith)

read_first :
    read hash 100 transcript file zero_cursor
    ≡ some record {
      lines = record { stream = transcript; offset = 0; bytes = 123 ∷ 125 ∷ [] } ∷ [];
      next = record { offset = 3; fingerprint = 5; identity = inode };
      continuity = appended;
    }
unfolding read resolve_start fingerprint read_lines split_lines cut_line window is_zero
    same_identity restart
read_first = refl

read_stalls_example :
    read hash 2 transcript file after_first
    ≡ some record { lines = []; next = after_first; continuity = appended }
unfolding is_zero
read_stalls_example =
    read_stalls hash 2 transcript file after_first (refl, refl, refl, omega arith) refl

abbrev key : Key
key = record { source = "claudecode"; path = "/a.jsonl" }

load-save_example :
    (load (save [] key after_first) key ≡ some after_first)
    × (load (delete [] key) key ≡ some zero_cursor)
    × ((j : Key)
        → key_string key ≢ key_string j
        → (load (save [] key after_first) j ≡ load [] j) × (load (delete [] key) j ≡ load [] j))
load-save_example =
    load-save [] key after_first (omega arith, omega arith, omega arith, omega arith)

abbrev operations : List Operation
operations = saving key zero_cursor ∷ deleting key ∷ saving key after_first ∷ []

key-IsClean : IsClean key
key-IsClean = (
  omega arith,
  (
    omega arith,
    (
      omega arith,
      (
        omega arith,
        (
          omega arith,
          (omega arith, (omega arith, (omega arith, (omega arith, (omega arith, tt))))),
        ),
      ),
    ),
  ),
)

stores_agree_example :
    load (bolt_after operations []) key ≡ some (memory_load (memory_after operations []) key)
stores_agree_example =
    stores_agree operations key
      (
        (key-IsClean, (omega arith, omega arith, omega arith, omega arith)),
        (key-IsClean, ((key-IsClean, (omega arith, omega arith, omega arith, omega arith)), tt)),
      )
      key-IsClean

-- A stream that gives one line of four bytes, and then nothing.
abbrev one_line : ReadResult
one_line = record {
  lines = record { stream = transcript; offset = 0; bytes = 1 ∷ 2 ∷ 3 ∷ [] } ∷ [];
  next = record { offset = 4; fingerprint = 9; identity = inode };
  continuity = appended;
}

abbrev answer : ℕ → Cursor → Outcome
answer zero from = got one_line
answer (suc i) from = got record { lines = []; next = from; continuity = appended }

abbrev stream : Stream
stream = record { id = transcript; read = answer }

abbrev config : Config
config = record {
  sha = λ s. "h";
  batch_size = 1;
  ingest =
      λ acked recs. some record { received = length recs; stored = length recs; duplicates = 0 };
  load_fails = λ k. false;
  save_fails = λ k c. false;
}

abbrev sources : List Source
sources = record { discovered = some (stream ∷ []) } ∷ []

-- A cursor is no further than four bytes for each record delivered.
abbrev covered : Claim
covered k c recs = c.offset ≤ 4 * length recs

covered-Stable : Stable covered
covered-Stable = record {
  none_yet = λ k recs. omega arith;
  more = λ k c recs extra h. omega (arith, h, length-append recs extra);
}

result_of : Outcome → ReadResult
result_of gone = one_line
result_of failed = one_line
result_of (got r) = r

stream-Reads : Reads covered config stream
unfolding result_of
stream-Reads zero from r recs e h =
    subst (λ r. r.next.offset ≤ 4 * length (recs ++ uploads config.sha r.lines)) (ap result_of e)
      (omega (arith, length-append recs (uploads config.sha one_line.lines)))
stream-Reads (suc i) from r recs e h =
    subst (λ r. r.next.offset ≤ 4 * length (recs ++ uploads config.sha r.lines)) (ap result_of e)
      (omega (arith, h, length-append recs []))

sources-Reads : All (SourceReads covered config) sources
sources-Reads = (
  (λ streams e.
      subst (All (Reads covered config)) (some-injective (stream ∷ []) streams e)
        (stream-Reads, tt)),
  tt,
)

collect_once_safe_example :
    let t = (collect_once 5 config sources [] []).0 in
    All (λ e. covered (e.0) (e.1) t.acked) t.saved
collect_once_safe_example =
    collect_once_safe covered config 5 sources [] [] covered-Stable sources-Reads tt
