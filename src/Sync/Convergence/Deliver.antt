-- ===== src/Sync/Convergence/Deliver.antt =====
-- Batches that fit the receiver's table are stored whole. internal/mesh/sync/sync.go
use mathlib.Core.List.{map-append}
use agentic_stats.Prelude.{
  ℕ, ◌+◌, ◌≡◌, refl, sym, ap, subst, ◌∙◌, Option, none, some, List, [], ◌∷◌, ◌++◌, map, arith,
  String, length, length-append, All, All-append, append_assoc, append-nil,
}
use agentic_stats.Store.Record.{Record, Row, to_row, of_row, of_row-to_row}
use agentic_stats.Store.Append.{Db, AppendResult, AppendError, append_remote}
use agentic_stats.Store.Append.Fresh.{append_remote_fresh}
use agentic_stats.Sync.Wire.{WireRecord, to_wire, from_wire, from_wire-to_wire}
use agentic_stats.Sync.Message.{Message, records}
use agentic_stats.Sync.Send.{concat}
use agentic_stats.Sync.Receive.{
  Receiver, Frame, message, SyncError, applied, absorb, apply_records, receive,
}
use agentic_stats.Sync.Clash.{IsNormal, Fits, Fits-drop, IsFresh-of_Fits}

-- The frames in which messages arrive: the i-th message of all at the i-th time of a clock.
abbrev pub arrive : (ℕ → String) → ℕ → List Message → List Frame
arrive clock i [] = []
arrive clock i (m ∷ ms) = message (clock i) m ∷ arrive clock (i + 1) ms

pub arrive-append :
    (clock : ℕ → String) (i : ℕ) (ms ns : List Message)
    → arrive clock i (ms ++ ns) ≡ arrive clock i ms ++ arrive clock (i + length ms) ns
arrive-append clock i [] ns = ap (λ j. arrive clock j ns) (omega arith)
arrive-append clock i (m ∷ ms) ns = ap (◌∷◌ (message (clock i) m)) (
    arrive-append clock (i + 1) ms ns
    ∙ ap (λ j. arrive clock (i + 1) ms ++ arrive clock j ns) (omega arith))

-- What a receiver gains: rows for some records, behind its own.
pub record Delivered (s : Receiver) (recs : List Record) (t : Receiver) : Type 0 where
  pub rows : List Row
  pub behind : t.db ≡ record (s.db) { rows = s.db.rows ++ rows }
  pub content : map of_row rows ≡ recs
  pub normal : All IsNormal rows
  pub peer : t.stats.peer ≡ s.stats.peer
  pub received : t.stats.received ≡ s.stats.received + length recs
  pub stored : t.stats.stored ≡ s.stats.stored + length recs

map_from_to : (b : List Record) → map from_wire (map to_wire b) ≡ b
map_from_to [] = refl
map_from_to (r ∷ b) = rw ((from_wire-to_wire r (to_wire r)).0, map_from_to b)

map_of_to : (now : String) (b : List Record) → map of_row (map (λ r. to_row r now) b) ≡ b
map_of_to now [] = refl
map_of_to now (r ∷ b) = rw (of_row-to_row r now, map_of_to now b)

IsNormal-to_row : (r : Record) (now : String) → IsNormal (to_row r now)
unfolding to_row
IsNormal-to_row r now = ap (λ (x : Record). to_row x now) (sym (of_row-to_row r now))

IsNormal-of_to : (now : String) (b : List Record) → All IsNormal (map (λ r. to_row r now) b)
IsNormal-of_to now [] = tt
IsNormal-of_to now (r ∷ b) = (IsNormal-to_row r now, IsNormal-of_to now b)

Delivered-refl : (s : Receiver) → Delivered s [] s
Delivered-refl s = record {
  rows = [];
  behind = rw append-nil;
  content = refl;
  normal = tt;
  peer = refl;
  received = omega arith;
  stored = omega arith;
}

Delivered-trans :
    {s t u : Receiver} {b c : List Record}
    → Delivered s b t
    → Delivered t c u
    → Delivered s (b ++ c) u
Delivered-trans {s} {t} {u} {b} {c} g h = record {
  rows = g.rows ++ h.rows;
  behind =
      h.behind
      ∙ ap (λ (d : Db). let e : Db = record d { rows = d.rows ++ h.rows } in e) g.behind
      ∙ ap (λ (x : List Row). let e : Db = record (s.db) { rows = x } in e)
          (append_assoc s.db.rows g.rows h.rows);
  content = rw (map-append of_row g.rows h.rows, g.content, h.content);
  normal = All-append IsNormal g.rows h.rows g.normal h.normal;
  peer = h.peer ∙ g.peer;
  received = omega (arith, g.received, h.received, length-append b c);
  stored = omega (arith, g.stored, h.stored, length-append b c);
}

absorb_ok :
    (s : Receiver) (n : ℕ) (x : Db × AppendResult × Option AppendError) (d : Db)
    → x.0 ≡ d
    → x.2 ≡ none
    → absorb s n x ≡ (applied s d n x.1, none)
unfolding absorb
absorb_ok s n (db, out, none) d p e =
    ap (λ (y : Db). let z : Receiver × Option SyncError = (applied s y n out, none) in z) p
absorb_ok s n (db, out, some x) d p e = cc

receive_next :
    (s : Receiver) (now : String) (ws : List WireRecord) (frames : List Frame) {t : Receiver}
    → apply_records s now ws ≡ (t, none)
    → receive s (message now (records ws) ∷ frames) ≡ receive t frames
unfolding receive
receive_next s now ws frames e =
    ap {B = Receiver × Option SyncError}
      (λ (x : Receiver × Option SyncError). elim x.1 [
        | some y ↦ (x.0, some y)
        | none ↦ receive x.0 frames
      ])
      e

apply_fresh :
    (s : Receiver) (now : String) (b more : List Record)
    → Fits s.db.rows (b ++ more)
    → (t : Receiver) × (apply_records s now (map to_wire b) ≡ (t, none))
      × Delivered s b t
      × (t.db ≡ record (s.db) { rows = s.db.rows ++ map (λ r. to_row r now) b })
unfolding apply_records applied
apply_fresh s now b more f =
    let (e, d, n) = append_remote_fresh s.db now b (IsFresh-of_Fits now s.db.rows b more f) in
    let db' : Db = record (s.db) { rows = s.db.rows ++ map (λ r. to_row r now) b } in
    let out = (append_remote s.db now b).1 in
    (
      applied s db' (length b) out,
      ap (λ (x : List Record). absorb s (length x) (append_remote s.db now x)) (map_from_to b)
          ∙ absorb_ok s (length b) (append_remote s.db now b) db' d e,
      record {
        rows = map (λ r. to_row r now) b;
        behind = refl;
        content = map_of_to now b;
        normal = IsNormal-of_to now b;
        peer = refl;
        received = refl;
        stored = ap (λ k. s.stats.stored + k) n;
      },
      refl,
    )

abbrev pub frames_of : List (List Record) → List Message
frames_of bs = map (λ b. records (map to_wire b)) bs

-- Batches that fit are all stored, and the receiver then goes on with whatever follows.
pub receive_batches :
    (s : Receiver) (clock : ℕ → String) (i : ℕ) (bs : List (List Record))
    → Fits s.db.rows (concat bs)
    → (t : Receiver) × ((rest : List Frame)
        → receive s (arrive clock i (frames_of bs) ++ rest) ≡ receive t rest)
      × Delivered s (concat bs) t
receive_batches s clock i [] f = (s, (λ rest. refl), Delivered-refl s)
receive_batches s clock i (b ∷ bs) f =
    let (t, e, d, rows) = apply_fresh s (clock i) b (concat bs) f in
    let fits : Fits t.db.rows (concat bs) =
      subst (λ (x : Db). Fits x.rows (concat bs)) (sym rows)
        (Fits-drop (clock i) s.db.rows b (concat bs) f) in
    let (u, p, g) = receive_batches t clock (i + 1) bs fits in
    (u, (λ rest. receive_next s (clock i) (map to_wire b) _ e ∙ p rest), Delivered-trans d g)
