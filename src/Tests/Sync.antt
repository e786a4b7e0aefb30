-- ===== src/Tests/Sync.antt =====
-- internal/mesh/sync
use agentic_stats.Prelude.{
  ℕ, ◌*◌, ◌≤◌, ◌<◌, ◌≡◌, refl, ◌⊎◌, none, some, List, [], ◌∷◌, arith, String, eq_iff, All, codes,
  Option, map, length,
}
use agentic_stats.Store.Record.{Record, Row, to_row, of_row, nullable, nullable_int}
use agentic_stats.Store.Table.{has_key, same_line, same_uuid, same_hash, conflicts}
use agentic_stats.Store.Table.Unique.{IsUnique}
use agentic_stats.Store.Order.{order_by_seq, last_seq}
use agentic_stats.Store.Append.{Db}
use agentic_stats.Store.Query.{backlog, seq_at, since}
use agentic_stats.Store.Query.Backlog.{ordered, records_of}
use agentic_stats.Sync.Digest.{
  Digests, bucket_size, Mismatch, count_of, disagree, digest_at, text_eq, first_mismatch,
  first_mismatch_loop, lower, resend_from, first_mismatch-least, resend_from-min,
}
use agentic_stats.Source.{Bytes}
use agentic_stats.Sync.Wire.{to_wire}
use agentic_stats.Sync.Message.{Announcement, Message, vector, records, done, unknown, digests_at}
use agentic_stats.Sync.Frame.{Json, encode_failed, write_frame, write_marshalled, write_body}
use agentic_stats.Sync.Send.{
  Sent, batches, batches-backlog, concat, IsBatch, write_batches, then_batch, then_sent, then_done,
  send_origins, send,
}
use agentic_stats.Sync.Receive.{Receiver, receive, no_stats}
use agentic_stats.Sync.Convergence.Deliver.{arrive}
use agentic_stats.Sync.Convergence.Writable.{IsWritable}
use agentic_stats.Sync.Convergence.Behind.{IsBehindOrLevel, HasCaughtUp}
use agentic_stats.Sync.Convergence.Exchange.{exchange_converges}
use agentic_stats.Tests.Data.{sent}

abbrev pub rows_of_b : List Row
rows_of_b = to_row (sent "b" 1 "v1" "g1") "t0" ∷ to_row (sent "b" 2 "v2" "g2") "t0" ∷ []

abbrev pub node_b : Db
node_b = record { origin = "b"; rows = rows_of_b; quarantine = [] }

abbrev node_a : Db
node_a = record { origin = "a"; rows = to_row (sent "b" 1 "v1" "g1") "t5" ∷ []; quarantine = [] }

pub node_b-IsUnique : IsUnique rows_of_b
unfolding conflicts to_row nullable has_key same_line same_uuid same_hash
node_b-IsUnique = (refl, (refl, tt))

abbrev says_b : Announcement
says_b = record { vector = ("b", 2) ∷ []; digests = []; host = "b"; version = "dev" }

abbrev says_a : Announcement
says_a = record { vector = ("a", 0) ∷ ("b", 1) ∷ []; digests = []; host = "a"; version = "dev" }

-- Bucket 0 is agreed on, bucket 1 differs, and bucket 2 is only longer on one side.
abbrev mine : Digests
mine = (0, codes "1000:aa") ∷ (1, codes "1000:bb") ∷ (2, codes "7:cc") ∷ []

abbrev theirs : Digests
theirs = (2, codes "9:dd") ∷ (1, codes "1000:xx") ∷ (0, codes "1000:aa") ∷ []

divergence : first_mismatch mine theirs ≡ some 1000
unfolding first_mismatch first_mismatch_loop disagree count_of digest_at text_eq lower
divergence = refl

first_mismatch-least_example :
    ((first_mismatch mine theirs ≡ none) × ((b : ℕ) → ¬ Mismatch mine theirs b))
    ⊎ ((low : ℕ) × Mismatch mine theirs low
        × (first_mismatch mine theirs ≡ some (low * bucket_size))
        × ((b : ℕ) → Mismatch mine theirs b → low ≤ b))
first_mismatch-least_example = first_mismatch-least mine theirs

resend_from-min_example :
    ((2007 ≤ 2009) × (resend_from 2007 2009 mine theirs ≡ first_mismatch mine theirs))
    ⊎ ((2009 < 2007)
        × ((after : ℕ) × (resend_from 2007 2009 mine theirs ≡ some after)
            × (after ≤ 2009)
            × ((b : ℕ) → Mismatch mine theirs b → after ≤ b * bucket_size)
            × ((after ≡ 2009) ⊎ (first_mismatch mine theirs ≡ some after))))
resend_from-min_example = resend_from-min 2007 2009 mine theirs

batches-backlog_example :
    (bs : List (List Record)) × (batches 5 node_b "b" 0 ≡ some bs)
    × (concat bs ≡ backlog node_b.rows "b" 0)
    × All IsBatch bs
unfolding backlog order_by_seq to_row of_row nullable
batches-backlog_example = batches-backlog 5 node_b "b" 0 node_b-IsUnique (omega arith)

level_or_behind : IsBehindOrLevel rows_of_b node_a.rows says_b says_a "b" 2
unfolding digests_at first_mismatch first_mismatch_loop seq_at ordered records_of order_by_seq
    to_row nullable of_row
level_or_behind = record { named = ground (arith, eq_iff "b" ""); agree = refl; prefix = λ _. refl }

abbrev clock : ℕ → String
clock n = "t6"

-- Every message is encoded as its number of records and a byte.
abbrev marshal : Message → Option Bytes
marshal (vector a) = some (1 ∷ [])
marshal (records rs) = some (2 ∷ length rs ∷ [])
marshal done = some (3 ∷ [])
marshal (unknown kind) = none

abbrev json : Json
json = record { marshal = marshal; unmarshal = λ s. none }

All-IsWritable : (bs : List (List Record)) → All (λ b. IsWritable json (records (map to_wire b))) bs
All-IsWritable [] = tt
All-IsWritable (b ∷ bs) = ((_, refl, omega arith), All-IsWritable bs)

exchange_converges_example :
    (sent : Sent) × (s : Receiver) × (send 3 json node_b says_b says_a ≡ some sent)
    × (sent.failed ≡ none)
    × (receive
          (record { db = node_a; stats = no_stats })
          (arrive clock 0 (vector says_b ∷ sent.frames))
        ≡ (s, none))
    × All (HasCaughtUp rows_of_b node_a.rows s.db.rows says_a) says_b.vector
    × (records_of s.db.rows "c" ≡ records_of node_a.rows "c")
    × (s.db.quarantine ≡ [])
    × (s.stats.peer ≡ some says_b)
unfolding to_row of_row nullable nullable_int
exchange_converges_example =
    exchange_converges 3 json node_b node_a says_b says_a clock "c" node_b-IsUnique
      (refl, (refl, tt)) (omega arith) (tt, tt) (level_or_behind, tt) (refl, tt)
      (ground (arith, eq_iff "b" "c"), tt) ((λ after bs p q. All-IsWritable bs), tt)
      (_, refl, omega arith)

-- Nothing can be encoded: nothing is sent, not even the done frame, and the error is told.
abbrev mute : Json
mute = record { marshal = λ m. none; unmarshal = λ s. none }

send_fails :
    send 3 mute node_b says_b says_a
    ≡ some (record { frames = []; total = 0; failed = some encode_failed })
unfolding send send_origins write_batches then_batch then_sent then_done resend_from first_mismatch
    first_mismatch_loop digests_at seq_at batches write_frame write_marshalled write_body to_row
    of_row nullable nullable_int since backlog order_by_seq last_seq
send_fails = refl
