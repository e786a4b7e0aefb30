-- ===== src/Sync/Send.antt =====
-- What a node streams to a peer. internal/mesh/sync/sync.go
use agentic_stats.Prelude.{
  ℕ, zero, ◌+◌, suc, ◌≤◌, ◌<◌, ◌≡◌, refl, sym, ap, ◌∙◌, true, false, inl, inr, Option, none, some,
  List, [], ◌∷◌, ◌++◌, map, arith, String, if◌then◌else◌, is_empty, length, take, drop, All,
  length-take, length-drop, take-append-drop, Bool-cases,
}
use agentic_stats.Store.Record.{Record}
use agentic_stats.Store.Table.Unique.{IsUnique}
use agentic_stats.Store.Order.{last_seq}
use agentic_stats.Store.Append.{Db}
use agentic_stats.Store.Query.{VersionVector, seq_at, since, backlog}
use agentic_stats.Store.Query.Backlog.{backlog_after_take}
use agentic_stats.Sync.Wire.{to_wire}
use agentic_stats.Sync.Digest.{resend_from}
use agentic_stats.Sync.Message.{Announcement, digests_at, Message, records, done}
use agentic_stats.Sync.Frame.{Json, FrameError, Written, refused, wrote, write_frame}

abbrev pub batch_size : ℕ
batch_size = 500

-- The inner loop for one origin: the batches that it reads, `none` if the fuel runs out.
unfoldable pub batches : ℕ → Db → String → ℕ → Option (List (List Record))
batches zero db origin after = none
batches (suc fuel) db origin after =
    let batch = since db origin after batch_size in
    let rest = batches fuel db origin (last_seq batch after) in
    if is_empty batch then some [] else elim rest [ none ↦ none | some bs ↦ some (batch ∷ bs) ]

-- What send has written in the end: the frames, the number of records in them, and the error it
-- stopped at.
pub record Sent : Type 0 where
  pub frames : List Message
  pub total : ℕ
  pub failed : Option FrameError

abbrev pub nothing_sent : Sent
nothing_sent = record { frames = []; total = 0; failed = none }

-- One batch, and what follows where its frame was not refused.
unfoldable pub then_batch : List Record → Written → Sent → Sent
then_batch b (refused e) more = record nothing_sent { failed = some e }
then_batch b (wrote bytes) more = record {
  frames = records (map to_wire b) ∷ more.frames;
  total = length b + more.total;
  failed = more.failed;
}

-- The batches of one origin are written in turn, up to the first that is refused.
unfoldable pub write_batches : Json → List (List Record) → Sent
write_batches json [] = nothing_sent
write_batches json (b ∷ bs) =
    then_batch b (write_frame json (records (map to_wire b))) (write_batches json bs)

-- One origin, and the others where it did not fail.
unfoldable pub then_sent : Sent → Sent → Sent
then_sent s more = elim s.failed [
  | some e ↦ s
  | none ↦ record {
    frames = s.frames ++ more.frames;
    total = s.total + more.total;
    failed = more.failed;
  }
]

-- The origins of this node's vector, in turn.
unfoldable pub send_origins :
    ℕ → Json → Db → Announcement → Announcement → VersionVector → Option Sent
send_origins fuel json db mine theirs [] = some nothing_sent
send_origins fuel json db mine theirs ((origin, have) ∷ vec) =
    elim (send_origins fuel json db mine theirs vec) [
      | none ↦ none
      | some more ↦
          elim (resend_from have (seq_at theirs.vector origin) (digests_at mine.digests origin)
            (digests_at theirs.digests origin)) [
              | none ↦ some more
              | some after ↦ elim (batches fuel db origin after) [
                | none ↦ none
                | some bs ↦ some (then_sent (write_batches json bs) more)
              ]
            ]
    ]

-- The done frame, which may be refused as well.
unfoldable pub then_done : Written → Sent
then_done (refused e) = record nothing_sent { failed = some e }
then_done (wrote bytes) = record nothing_sent { frames = done ∷ [] }

-- Everything for the peer, closed by a done frame.
unfoldable pub send : ℕ → Json → Db → Announcement → Announcement → Option Sent
send fuel json db mine theirs = elim (send_origins fuel json db mine theirs mine.vector) [
  | none ↦ none
  | some s ↦ some (then_sent s (then_done (write_frame json done)))
]

abbrev pub concat : List (List Record) → List Record
concat [] = []
concat (b ∷ bs) = b ++ concat bs

-- Every batch has records, and no more than fit.
abbrev pub IsBatch : List Record → Type 0
IsBatch b = (1 ≤ length b) × (length b ≤ batch_size)

take_nothing : (n : ℕ) (l : List Record) → is_empty (take (suc n) l) ≡ true → l ≡ []
take_nothing n [] h = refl
take_nothing n (r ∷ l) h = cc

not_empty : (l : List Record) → is_empty l ≡ false → 1 ≤ length l
not_empty [] h = cc
not_empty (r ∷ l) h = omega arith

-- The loop over one origin ends, and its batches, none of them empty or over the limit, are
-- together the records of the origin above the watermark, in order and each once. Fuel of one more
-- than their number is enough.
pub batches-backlog :
    (fuel : ℕ) (db : Db) (origin : String) (after : ℕ)
    → IsUnique db.rows
    → length (backlog db.rows origin after) < fuel
    → (bs : List (List Record)) × (batches fuel db origin after ≡ some bs)
      × (concat bs ≡ backlog db.rows origin after)
      × All IsBatch bs
unfolding batches since
batches-backlog zero db origin after u h = absurd (omega arith)
batches-backlog (suc fuel) db origin after u h = elim (Bool-cases (is_empty (take batch_size l))) [
  | inl e ↦ ([], rw e, sym (take_nothing 499 l e), tt)
  | inr e ↦
      let more : 1 ≤ length (take batch_size l) = not_empty (take batch_size l) e in
      let left : length (backlog db.rows origin next) < fuel =
        omega (arith, ap length step, length-drop batch_size l, length-take batch_size l) in
      let (bs, p, c, k) = batches-backlog fuel db origin next u left in
      (
        take batch_size l ∷ bs,
        rw (e, p),
        ap (λ x. take batch_size l ++ x) (c ∙ step) ∙ take-append-drop batch_size l,
        ((more, omega (arith, length-take batch_size l)), k),
      )
]
  where
    l : List Record
    l = backlog db.rows origin after

    next : ℕ
    next = last_seq (take batch_size l) after

    step : backlog db.rows origin next ≡ drop batch_size l
    step = backlog_after_take db.rows origin after batch_size u
