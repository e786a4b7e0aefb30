-- ===== src/Sync/Receive.antt =====
-- What a node makes of the frames that a peer sends. internal/mesh/sync/sync.go
use agentic_stats.Prelude.{
  ℕ, ◌+◌, Bool, true, false, Option, none, some, List, [], ◌∷◌, map, String, length,
}
use agentic_stats.Store.Append.{Db, AppendResult, AppendError, append_remote}
use agentic_stats.Sync.Wire.{WireRecord, from_wire}
use agentic_stats.Sync.Message.{Announcement, Message, vector, records, done, unknown}

pub record Stats : Type 0 where
  pub sent : ℕ
  pub received : ℕ
  pub stored : ℕ
  pub duplicates : ℕ
  pub forked : ℕ
  pub peer : Option Announcement

abbrev pub no_stats : Stats
no_stats = record { sent = 0; received = 0; stored = 0; duplicates = 0; forked = 0; peer = none }

-- What one call of readFrame gives: a message at a time, or an error that is no end of file. The
-- end of the list is the end of file.
pub data Frame : Type 0 where
  message : String → Message → Frame
  broken : Frame

pub data SyncError : Type 0 where
  read_failed second_vector : SyncError
  append_failed : AppendError → SyncError
  unknown_kind : String → SyncError

pub record Receiver : Type 0 where
  pub db : Db
  pub stats : Stats

-- Whether the announcement was handed to the sending side.
unfoldable pub published : Receiver → Bool
published s = elim s.stats.peer [ none ↦ false | some a ↦ true ]

-- The counts of one applied batch.
unfoldable pub applied : Receiver → Db → ℕ → AppendResult → Receiver
applied s db n out = record s {
  db = db;
  stats = record (s.stats) {
    received = s.stats.received + n;
    stored = s.stats.stored + out.stored;
    duplicates = s.stats.duplicates + out.duplicates;
    forked = s.stats.forked + out.forked;
  };
}

-- A batch that cannot be applied ends the exchange.
unfoldable pub absorb :
    Receiver → ℕ → Db × AppendResult × Option AppendError → Receiver × Option SyncError
absorb s n (db, out, none) = (applied s db n out, none)
absorb s n (db, out, some e) = (record s { db = db }, some (append_failed e))

unfoldable pub apply_records : Receiver → String → List WireRecord → Receiver × Option SyncError
unfolding absorb
apply_records s now ws =
    let recs = map from_wire ws in absorb s (length recs) (append_remote s.db now recs)

unfoldable pub receive : Receiver → List Frame → Receiver × Option SyncError
receive s [] = (s, none)
receive s (broken ∷ frames) = (s, some read_failed)
receive s (message now (vector a) ∷ frames) = elim (published s) [
  | true ↦ (s, some second_vector)
  | false ↦ receive (record s { stats = record (s.stats) { peer = some a } }) frames
]
receive s (message now (records ws) ∷ frames) =
    let (s', e) = apply_records s now ws in
    elim e [ some x ↦ (s', some x) | none ↦ receive s' frames ]
receive s (message now done ∷ frames) = (s, none)
receive s (message now (unknown kind) ∷ frames) = (s, some (unknown_kind kind))
