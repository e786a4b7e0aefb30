-- ===== src/Sync/Convergence/Writable.antt =====
-- What send does where no frame is refused. send of internal/mesh/sync/sync.go, writeFrame of
-- internal/mesh/sync/frame.go
use agentic_stats.Prelude.{
  ℕ, ◌≤◌, ◌≡◌, refl, ap, none, some, List, [], ◌∷◌, ◌++◌, map, String, All, length, ltb-eq_false,
}
use agentic_stats.Store.Record.{Record}
use agentic_stats.Store.Append.{Db}
use agentic_stats.Store.Query.{seq_at}
use agentic_stats.Source.{Bytes}
use agentic_stats.Cursor.{put_uint}
use agentic_stats.Sync.Wire.{to_wire}
use agentic_stats.Sync.Digest.{resend_from}
use agentic_stats.Sync.Message.{Announcement, Message, records, done, digests_at}
use agentic_stats.Sync.Frame.{
  Json, wrote, frame_header_bytes, max_message_bytes, write_body, write_marshalled, write_frame,
}
use agentic_stats.Sync.Send.{
  Sent, batches, write_batches, then_batch, then_sent, then_done, send_origins, send,
}
use agentic_stats.Sync.Convergence.Deliver.{frames_of}

-- A message that is encoded, within the limit of a frame.
abbrev pub IsWritable : Json → Message → Type 0
IsWritable json m =
    (body : Bytes) × (json.marshal m ≡ some body) × (length body ≤ max_message_bytes)

-- Every batch that is read for an announced origin can be written.
abbrev pub HasWritableBatches : ℕ → Json → Db → Announcement → Announcement → String × ℕ → Type 0
HasWritableBatches fuel json db mine theirs (origin, have) =
    (after : ℕ) (bs : List (List Record))
    → resend_from have (seq_at theirs.vector origin) (digests_at mine.digests origin)
        (digests_at theirs.digests origin)
      ≡ some after
    → batches fuel db origin after ≡ some bs
    → All (λ b. IsWritable json (records (map to_wire b))) bs

IsWritable-wrote :
    (json : Json) (m : Message)
    → IsWritable json m
    → (bytes : Bytes) × (write_frame json m ≡ wrote bytes)
unfolding write_frame write_marshalled write_body
IsWritable-wrote json m (body, e, le) = (
  put_uint frame_header_bytes (length body) ++ body,
  rw (e, ltb-eq_false max_message_bytes (length body) le),
)

-- What is sent then are the frames of the batches.
pub written_batches :
    (json : Json) (bs : List (List Record))
    → All (λ b. IsWritable json (records (map to_wire b))) bs
    → ((write_batches json bs).frames ≡ frames_of bs) × ((write_batches json bs).failed ≡ none)
unfolding write_batches then_batch
written_batches json [] h = (refl, refl)
written_batches json (b ∷ bs) h =
    let (bytes, e) = IsWritable-wrote json (records (map to_wire b)) h.0 in
    let (f, k) = written_batches json bs h.1 in rw e (ap (◌∷◌ (records (map to_wire b))) f, k)

pub then_sent-join :
    (s more : Sent)
    → s.failed ≡ none
    → ((then_sent s more).frames ≡ s.frames ++ more.frames)
      × ((then_sent s more).failed ≡ more.failed)
unfolding then_sent
then_sent-join s more h = rw h (refl, refl)

pub closed :
    (fuel : ℕ) (json : Json) (sender : Db) (mine theirs : Announcement) (s : Sent)
    → send_origins fuel json sender mine theirs mine.vector ≡ some s
    → s.failed ≡ none
    → IsWritable json done
    → (sent : Sent) × (send fuel json sender mine theirs ≡ some sent)
      × (sent.failed ≡ none)
      × (sent.frames ≡ s.frames ++ done ∷ [])
unfolding send then_done
closed fuel json sender mine theirs s p ok w =
    let (bytes, e) = IsWritable-wrote json done w in
    let last = then_done (wrote bytes) in
    let (f, k) = then_sent-join s last ok in (then_sent s last, rw (p, e, send), k, f)
