-- ===== src/Store/Append.antt =====
-- Appends, local and remote. internal/store/records.go, inTx of internal/store/store.go
pub mod Local
pub mod Resend
pub mod Remote
pub mod Fresh
use agentic_stats.Prelude.{
  ℕ, suc, ◌+◌, Bool, true, false, ◌||◌, Option, none, some, List, [], ◌∷◌, ◌++◌, String, str_eq,
  ◌==◌, is_empty, ltb, if◌then◌else◌,
}
use agentic_stats.Store.Record.{Record, Row}
use agentic_stats.Store.Table.{exec_insert, find_row, max_seq}

pub record AppendResult : Type 0 where
  pub stored : ℕ
  pub duplicates : ℕ
  pub forked : ℕ
  pub last_seq : ℕ

-- A row of the quarantine table.
pub record Evidence : Type 0 where
  pub origin_id : String
  pub seq : ℕ
  pub content_hash : String
  pub sealed : List ℕ
  pub noticed_at : String

pub record Db : Type 0 where
  pub origin : String
  pub rows : List Row
  pub quarantine : List Evidence

pub data AppendError : Type 0 where
  missing_origin_or_sequence : AppendError

-- What a transaction has done so far.
pub record Tx : Type 0 where
  pub rows : List Row
  pub quarantine : List Evidence
  pub out : AppendResult

abbrev pub nothing_done : AppendResult
nothing_done = record { stored = 0; duplicates = 0; forked = 0; last_seq = 0 }

abbrev pub begin : Db → Tx
begin db = record { rows = db.rows; quarantine = db.quarantine; out = nothing_done }

-- inTx: the work is kept if it succeeded, and rolled back if it failed.
unfoldable pub in_tx : Db → Tx × Option AppendError → Db × AppendResult × Option AppendError
in_tx db (t, none) = (record db { rows = t.rows; quarantine = t.quarantine }, t.out, none)
in_tx db (t, some e) = (db, t.out, some e)

unfoldable pub next_seq : List Row → String → ℕ
next_seq rows origin = max_seq rows origin + 1

-- One round of AppendLocal's loop: the next free number, and the transaction.
unfoldable pub local_step : String → String → ℕ × Tx → Record → ℕ × Tx
local_step origin now (next, t) rec =
    let r = record rec { origin_id = origin; seq = next } in
    let (rows, n) = exec_insert t.rows r now in
    if n == 0
    then (next, record t { out = record (t.out) { duplicates = t.out.duplicates + 1 } })
    else (
      next + 1,
      record t { rows = rows; out = record (t.out) { stored = t.out.stored + 1; last_seq = next } },
    )

unfoldable pub local_loop : String → String → ℕ × Tx → List Record → ℕ × Tx
local_loop origin now s [] = s
local_loop origin now s (r ∷ recs) = local_loop origin now (local_step origin now s r) recs

unfoldable pub append_local : Db → String → List Record → Db × AppendResult × Option AppendError
append_local db now recs =
    if is_empty recs
    then (db, nothing_done, none)
    else let s = local_loop db.origin now (next_seq db.rows db.origin, begin db) recs in
      in_tx db (s.1, none)

-- `r.OriginID == "" || r.Seq <= 0`
unfoldable pub malformed : Record → Bool
malformed r = str_eq r.origin_id "" || (r.seq == 0)

-- One round of AppendRemote's loop, for a record that passed the first check.
unfoldable pub remote_step : String → Tx → Record → Tx
remote_step now t r = elim (find_row t.rows r.origin_id r.seq) [
  | some w ↦
      if str_eq w.content_hash r.content_hash
      then record t { out = record (t.out) { duplicates = t.out.duplicates + 1 } }
      else record t {
        quarantine =
            t.quarantine
            ++ record {
              origin_id = r.origin_id;
              seq = r.seq;
              content_hash = r.content_hash;
              sealed = r.sealed;
              noticed_at = now;
            }
              ∷ [];
        out = record (t.out) { forked = t.out.forked + 1 };
      }
  | none ↦
      let (rows, n) = exec_insert t.rows r now in
      if n == 0
      then record t { out = record (t.out) { duplicates = t.out.duplicates + 1 } }
      else record t {
        rows = rows;
        out = record (t.out) {
          stored = t.out.stored + 1;
          last_seq = if ltb t.out.last_seq r.seq then r.seq else t.out.last_seq;
        };
      }
]

-- The loop stops at the first record with no origin or no sequence number.
unfoldable pub remote_loop : String → Tx → List Record → Tx × Option AppendError
remote_loop now t [] = (t, none)
remote_loop now t (r ∷ recs) = elim (malformed r) [
  | true ↦ (t, some missing_origin_or_sequence)
  | false ↦ remote_loop now (remote_step now t r) recs
]

unfoldable pub append_remote : Db → String → List Record → Db × AppendResult × Option AppendError
append_remote db now recs =
    if is_empty recs then (db, nothing_done, none) else in_tx db (remote_loop now (begin db) recs)
