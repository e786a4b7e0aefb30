-- ===== src/Sync/Convergence/Behind.antt =====
-- How far a receiver is behind a sender, and what it has in the end. internal/mesh/sync/sync.go
use agentic_stats.Prelude.{
  ℕ, ◌≤◌, ◌<◌, ◌≡◌, ◌≢◌, ap, ◌∙◌, ◌&&◌, none, List, [], ◌∷◌, map, arith, String, str_eq, ltb, leb,
  select, All, if◌then◌else◌, length-select-le, length, length-map,
}
use agentic_stats.Store.Record.{Row, of_row}
use agentic_stats.Store.Order.{order_by_seq}
use agentic_stats.Store.Order.Merge.{length-order_by_seq}
use agentic_stats.Store.Query.{VersionVector, seq_at, backlog}
use agentic_stats.Store.Query.Backlog.{records_of, ordered}
use agentic_stats.Sync.Digest.{first_mismatch}
use agentic_stats.Sync.Message.{Announcement, digests_at}
use agentic_stats.Sync.Receive.{Receiver}
use agentic_stats.Sync.Clash.{IsNormal}

-- What the receiver lacks of one origin can be told from its watermark: it is level with the sender
-- or ahead, or it holds just the sender's records up to its watermark. And no bucket of the
-- announced digests disagrees.
pub record IsBehindOrLevel (sender rows : List Row) (mine theirs : Announcement) (origin : String)
    (have : ℕ) : Type 0 where
  pub named : origin ≢ ""
  pub agree :
      first_mismatch (digests_at mine.digests origin) (digests_at theirs.digests origin) ≡ none
  pub prefix :
      seq_at theirs.vector origin < have
      → ordered rows origin
        ≡ select (λ r. leb r.seq (seq_at theirs.vector origin)) (ordered sender origin)

-- What it has of it in the end.
abbrev pub HasCaughtUp : List Row → List Row → List Row → Announcement → String × ℕ → Type 0
HasCaughtUp sender before after theirs e =
    ordered after e.0
    ≡ (if ltb (seq_at theirs.vector e.0) e.1 then ordered sender e.0 else ordered before e.0)

-- No origin twice.
abbrev pub HasDistinctOrigins : VersionVector → Type 0
HasDistinctOrigins [] = Unit
HasDistinctOrigins (e ∷ vec) = All (λ f. e.0 ≢ f.0) vec × HasDistinctOrigins vec

pub length-backlog :
    (rows : List Row) (origin : String) (after : ℕ)
    → length (backlog rows origin after) ≤ length rows
unfolding backlog
length-backlog rows origin after = omega (
  arith,
  length-order_by_seq
      (map of_row (select (λ w. str_eq w.origin_id origin && ltb after w.seq) rows)),
  length-map of_row (select (λ w. str_eq w.origin_id origin && ltb after w.seq) rows),
  length-select-le (λ w. str_eq w.origin_id origin && ltb after w.seq) rows,
)

pub same_ordered :
    (rows more : List Row) (origin : String)
    → records_of rows origin ≡ records_of more origin
    → ordered rows origin ≡ ordered more origin
unfolding ordered
same_ordered rows more origin e = ap order_by_seq e

-- Rows that went in for some origins left every other one alone.
abbrev pub Untouched : List Row → List Row → VersionVector → Type 0
Untouched before after vec =
    (o : String) → All (λ e. e.0 ≢ o) vec → records_of after o ≡ records_of before o

-- What a walk over some origins leaves.
pub record Final (sender : List Row) (theirs : Announcement) (s t : Receiver) (vec : VersionVector)
    : Type 0 where
  pub normal : All IsNormal t.db.rows
  pub caught_up : All (HasCaughtUp sender s.db.rows t.db.rows theirs) vec
  pub untouched : Untouched s.db.rows t.db.rows vec
  pub same_peer : t.stats.peer ≡ s.stats.peer
  pub same_quarantine : t.db.quarantine ≡ s.db.quarantine

module _ (sender : List Row) (theirs : Announcement) (s t : Receiver) where
  pub caught_up_later :
      (u : Receiver) (vec : VersionVector)
      → All (λ e. records_of t.db.rows e.0 ≡ records_of s.db.rows e.0) vec
      → All (HasCaughtUp sender t.db.rows u.db.rows theirs) vec
      → All (HasCaughtUp sender s.db.rows u.db.rows theirs) vec
  caught_up_later u [] e h = tt
  caught_up_later u ((o, n) ∷ vec) e h = (
    h.0
        ∙ ap (λ x. if ltb (seq_at theirs.vector o) n then ordered sender o else x)
            (same_ordered t.db.rows s.db.rows o e.0),
    caught_up_later u vec e.1 h.1,
  )

  pub behind_later :
      (mine : Announcement) (vec : VersionVector)
      → All (λ e. records_of t.db.rows e.0 ≡ records_of s.db.rows e.0) vec
      → All (λ e. IsBehindOrLevel sender s.db.rows mine theirs e.0 e.1) vec
      → All (λ e. IsBehindOrLevel sender t.db.rows mine theirs e.0 e.1) vec
  behind_later mine [] e h = tt
  behind_later mine ((o, n) ∷ vec) e h = (
    record {
      named = h.0.named;
      agree = h.0.agree;
      prefix = λ lt. same_ordered t.db.rows s.db.rows o e.0 ∙ h.0.prefix lt;
    },
    behind_later mine vec e.1 h.1,
  )
