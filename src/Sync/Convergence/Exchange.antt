-- ===== src/Sync/Convergence/Exchange.antt =====
-- The whole of one direction: announce, send, receive. internal/mesh/sync/sync.go
use agentic_stats.Prelude.{
  ℕ, ◌+◌, ◌<◌, ◌≡◌, ◌≢◌, refl, sym, ap, subst, ◌∙◌, true, false, none, some, List, [], ◌∷◌, ◌++◌,
  map, arith, String, ltb, ltb→lt, leb, select, All, All-append, Bool-cases, inl, inr, length,
  append_assoc,
}
use agentic_stats.Store.Record.{Record, of_row}
use agentic_stats.Store.Table.Unique.{IsUnique}
use agentic_stats.Store.Order.{All-map}
use agentic_stats.Store.Append.{Db}
use agentic_stats.Store.Query.{VersionVector, seq_at, backlog}
use agentic_stats.Store.Query.Backlog.{records_of, ordered}
use agentic_stats.Sync.Digest.{resend_from}
use agentic_stats.Sync.Message.{Announcement, Message, vector, done}
use agentic_stats.Sync.Frame.{Json}
use agentic_stats.Sync.Send.{
  Sent, nothing_sent, write_batches, then_sent, send_origins, send, batches-backlog,
}
use agentic_stats.Sync.Convergence.Writable.{
  IsWritable, HasWritableBatches, written_batches, then_sent-join, closed,
}
use agentic_stats.Sync.Receive.{Receiver, Frame, message, published, receive, no_stats}
use agentic_stats.Sync.Clash.{IsNormal, Fits}
use agentic_stats.Sync.Convergence.Deliver.{arrive, arrive-append, frames_of, receive_batches}
use agentic_stats.Sync.Convergence.Behind.{
  IsBehindOrLevel, HasCaughtUp, HasDistinctOrigins, length-backlog, same_ordered, Final,
  caught_up_later, behind_later,
}
use agentic_stats.Sync.Convergence.Origin.{
  From, backlog-From, backlog-Fits, ordered_complete, records_of_kept,
}

-- What is sent and gained for one origin.
record OneOrigin (json : Json) (sender : Db) (mine theirs : Announcement) (fuel : ℕ)
    (origin : String) (have : ℕ) (s t : Receiver) (ms : List Message) : Type 0 where
  frames :
      (more : Sent) (vec : VersionVector)
      → send_origins fuel json sender mine theirs vec ≡ some more
      → (all : Sent) × (send_origins fuel json sender mine theirs ((origin, have) ∷ vec) ≡ some all)
        × (all.frames ≡ ms ++ more.frames)
        × (all.failed ≡ more.failed)
  normal : All IsNormal t.db.rows
  caught_up : HasCaughtUp sender.rows s.db.rows t.db.rows theirs (origin, have)
  untouched : (o : String) → origin ≢ o → records_of t.db.rows o ≡ records_of s.db.rows o
  same_peer : t.stats.peer ≡ s.stats.peer
  same_quarantine : t.db.quarantine ≡ s.db.quarantine

module _ (fuel : ℕ) (json : Json) (sender : Db) (mine theirs : Announcement) (clock : ℕ → String)
    (unique : IsUnique sender.rows) (normal : All IsNormal sender.rows)
    (enough : length sender.rows < fuel) where
  level_origin :
      (origin : String) (have : ℕ) (s : Receiver)
      → IsBehindOrLevel sender.rows s.db.rows mine theirs origin have
      → All IsNormal s.db.rows
      → ltb (seq_at theirs.vector origin) have ≡ false
      → OneOrigin json sender mine theirs fuel origin have s s []
  unfolding send_origins resend_from
  level_origin origin have s h n e = record {
    frames = λ more vec p. (more, rw (p, e, h.agree), refl, refl);
    normal = n;
    caught_up = rw e;
    untouched = λ o d. refl;
    same_peer = refl;
    same_quarantine = refl;
  }

  behind_origin :
      (origin : String) (have : ℕ) (s : Receiver) (i : ℕ)
      → IsBehindOrLevel sender.rows s.db.rows mine theirs origin have
      → All IsNormal s.db.rows
      → ltb (seq_at theirs.vector origin) have ≡ true
      → HasWritableBatches fuel json sender mine theirs (origin, have)
      → (ms : List Message) × (t : Receiver) × ((rest : List Frame)
          → receive s (arrive clock i ms ++ rest) ≡ receive t rest)
        × OneOrigin json sender mine theirs fuel origin have s t ms
  unfolding send_origins resend_from
  behind_origin origin have s i h n e can =
      let after = seq_at theirs.vector origin in
      let prefix : ordered s.db.rows origin
          ≡ select (λ r. leb r.seq after) (ordered sender.rows origin) =
        h.prefix (ltb→lt after have e) in
      let (bs, p, c, _) =
        batches-backlog fuel sender origin after unique
          (omega (arith, length-backlog sender.rows origin after)) in
      let (f, ok) = written_batches json bs (can after bs (rw (e, h.agree)) p) in
      let fits = backlog-Fits sender.rows origin after unique normal s.db.rows h.named n prefix in
      let (t, q, d) =
        receive_batches s clock i bs (subst (λ (x : List Record). Fits s.db.rows x) (sym c) fits) in
      let rows : t.db.rows ≡ s.db.rows ++ d.rows = ap (λ (x : Db). x.rows) d.behind in
      let content : map of_row d.rows ≡ backlog sender.rows origin after = d.content ∙ c in
      (
        frames_of bs,
        t,
        q,
        record {
          frames = λ more vec k.
              let (q, o) = then_sent-join (write_batches json bs) more ok in
              (
                then_sent (write_batches json bs) more,
                rw (k, e, h.agree, p),
                q ∙ ap (λ x. x ++ more.frames) f,
                o,
              );
          normal =
              subst (All IsNormal) (sym rows) (All-append IsNormal s.db.rows d.rows n d.normal);
          caught_up =
              rw (rows, e)
                (ordered_complete sender.rows s.db.rows d.rows origin after unique prefix content);
          untouched = λ o ne. rw rows (
              records_of_kept s.db.rows d.rows origin o ne (
                subst (All (From origin)) (sym content)
                  (backlog-From sender.rows origin after unique)));
          same_peer = d.peer;
          same_quarantine = ap (λ (x : Db). x.quarantine) d.behind;
        },
      )

  some_origin :
      (origin : String) (have : ℕ) (s : Receiver) (i : ℕ)
      → IsBehindOrLevel sender.rows s.db.rows mine theirs origin have
      → All IsNormal s.db.rows
      → HasWritableBatches fuel json sender mine theirs (origin, have)
      → (ms : List Message) × (t : Receiver) × ((rest : List Frame)
          → receive s (arrive clock i ms ++ rest) ≡ receive t rest)
        × OneOrigin json sender mine theirs fuel origin have s t ms
  some_origin origin have s i h n can = elim (Bool-cases (ltb (seq_at theirs.vector origin) have)) [
    | inl e ↦ behind_origin origin have s i h n e can
    | inr e ↦ ([], s, (λ rest. refl), level_origin origin have s h n e)
  ]

  untouched_by :
      (s t : Receiver) (origin : String) (vec : VersionVector)
      → ((o : String) → origin ≢ o → records_of t.db.rows o ≡ records_of s.db.rows o)
      → All (λ e. origin ≢ e.0) vec
      → All (λ e. records_of t.db.rows e.0 ≡ records_of s.db.rows e.0) vec
  untouched_by s t origin vec u d =
      All-map (λ e. origin ≢ e.0) (λ e. records_of t.db.rows e.0 ≡ records_of s.db.rows e.0)
        (λ e ne. u e.0 ne) vec d

  send_receive :
      (vec : VersionVector) (s : Receiver) (i : ℕ)
      → HasDistinctOrigins vec
      → All (λ e. IsBehindOrLevel sender.rows s.db.rows mine theirs e.0 e.1) vec
      → All IsNormal s.db.rows
      → All (HasWritableBatches fuel json sender mine theirs) vec
      → (sent : Sent) × (t : Receiver) × (send_origins fuel json sender mine theirs vec ≡ some sent)
        × (sent.failed ≡ none)
        × ((rest : List Frame) → receive s (arrive clock i sent.frames ++ rest) ≡ receive t rest)
        × Final sender.rows theirs s t vec
  send_receive [] s i d h n can = (
    nothing_sent,
    s,
    unfold send_origins in refl,
    refl,
    (λ rest. refl),
    record {
      normal = n;
      caught_up = tt;
      untouched = λ o _. refl;
      same_peer = refl;
      same_quarantine = refl;
    },
  )
  send_receive ((origin, have) ∷ vec) s i d h n can =
      let (ms, t, e, one) = some_origin origin have s i h.0 n can.0 in
      let kept = untouched_by s t origin vec one.untouched d.0 in
      let (more, u, p, ok, f, fin) =
        send_receive vec t (i + length ms) d.1
          (behind_later sender.rows theirs s t mine vec kept h.1) one.normal can.1 in
      let (all, sends, joined, ends) = one.frames more vec p in
      let ns = more.frames in
      let apart : All (λ x. x.0 ≢ origin) vec =
        All-map (λ x. origin ≢ x.0) (λ x. x.0 ≢ origin) (λ x ne k. ne (sym k)) vec d.0 in
      (
        all,
        u,
        sends,
        ends ∙ ok,
        (λ rest.
            ap (λ (x : List Message). receive s (arrive clock i x ++ rest)) joined
            ∙ ap (λ (x : List Frame). receive s (x ++ rest)) (arrive-append clock i ms ns)
            ∙ ap (receive s)
                (append_assoc (arrive clock i ms) (arrive clock (i + length ms) ns) rest)
            ∙ e (arrive clock (i + length ms) ns ++ rest)
            ∙ f rest),
        record {
          normal = fin.normal;
          caught_up = (
            same_ordered u.db.rows t.db.rows origin (fin.untouched origin apart) ∙ one.caught_up,
            caught_up_later sender.rows theirs s t u vec kept fin.caught_up,
          );
          untouched = λ o ne. fin.untouched o ne.1 ∙ one.untouched o (λ k. ne.0 k);
          same_peer = fin.same_peer ∙ one.same_peer;
          same_quarantine = fin.same_quarantine ∙ one.same_quarantine;
        },
      )

first_frame :
    (receiver : Db) (mine : Announcement) (clock : ℕ → String) (frames : List Frame)
    → receive
        (record { db = receiver; stats = no_stats })
        (message (clock 0) (vector mine) ∷ frames)
      ≡ receive (record { db = receiver; stats = record no_stats { peer = some mine } }) frames
unfolding receive published
first_frame receiver mine clock frames = refl

done_frame : (s : Receiver) (now : String) → receive s (message now done ∷ []) ≡ (s, none)
unfolding receive
done_frame s now = refl

-- One direction of an exchange converges. The sender's table is unique and as inserts write it, and
-- so are the receiver's columns; the sender announces no origin twice; every batch that it reads
-- for an announced origin, and the done frame, are encoded within the limit of a frame; for every
-- origin it announces, the receiver holds just its records up to the watermark that it announced,
-- or is level or ahead, and no digests disagree. Then the loops end with fuel of one more than the
-- sender's rows, no write is refused, and what is sent, arriving at any times, is received without
-- an error: of every announced origin on which the receiver was behind it then holds exactly the
-- sender's records, of every other what it held before, announced or not, no fork is recorded, and
-- it has the sender's announcement.
pub exchange_converges :
    (fuel : ℕ) (json : Json) (sender receiver : Db) (mine theirs : Announcement)
    (clock : ℕ → String) (other : String)
    → IsUnique sender.rows
    → All IsNormal sender.rows
    → length sender.rows < fuel
    → HasDistinctOrigins mine.vector
    → All (λ e. IsBehindOrLevel sender.rows receiver.rows mine theirs e.0 e.1) mine.vector
    → All IsNormal receiver.rows
    → All (λ e. e.0 ≢ other) mine.vector
    → All (HasWritableBatches fuel json sender mine theirs) mine.vector
    → IsWritable json done
    → (sent : Sent) × (s : Receiver) × (send fuel json sender mine theirs ≡ some sent)
      × (sent.failed ≡ none)
      × (receive
            (record { db = receiver; stats = no_stats })
            (arrive clock 0 (vector mine ∷ sent.frames))
          ≡ (s, none))
      × All (HasCaughtUp sender.rows receiver.rows s.db.rows theirs) mine.vector
      × (records_of s.db.rows other ≡ records_of receiver.rows other)
      × (s.db.quarantine ≡ receiver.quarantine)
      × (s.stats.peer ≡ some mine)
exchange_converges fuel json sender receiver mine theirs clock other u n k d h m away can w =
    let met : Receiver = record { db = receiver; stats = record no_stats { peer = some mine } } in
    let (all, s, p, ok, f, fin) =
      send_receive fuel json sender mine theirs clock u n k mine.vector met 1 d h m can in
    let (sent, q, fine, e) = closed fuel json sender mine theirs all p ok w in
    let ms = all.frames in
    (
      sent,
      s,
      q,
      fine,
      first_frame receiver mine clock (arrive clock 1 sent.frames)
          ∙ ap (λ (x : List Message). receive met (arrive clock 1 x)) e
          ∙ ap (receive met) (arrive-append clock 1 ms (done ∷ []))
          ∙ f (arrive clock (1 + length ms) (done ∷ []))
          ∙ done_frame s _,
      fin.caught_up,
      fin.untouched other away,
      fin.same_quarantine,
      fin.same_peer,
    )
