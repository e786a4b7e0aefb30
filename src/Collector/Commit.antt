-- ===== src/Collector/Commit.antt =====
-- A saved cursor is justified by what the server acknowledged. internal/collector/collector.go
use agentic_stats.Prelude.{
  ℕ, zero, suc, ◌+◌, ◌≡◌, refl, sym, ap, ap₂, ◌∙◌, ◌&&◌, str_eq, eq_iff, subst, Bool, true, false,
  ◌⊎◌, inl, inr, none, some, List, [], ◌∷◌, ◌++◌, append-nil, append_assoc, if◌then◌else◌, leb,
  ◌==◌, ◌||◌, length, is_empty, All, Bool-cases, Option-cases,
}
use agentic_stats.Source.{Cursor, ReadResult}
use agentic_stats.Cursor.{Key, key_of, zero_cursor}
use agentic_stats.Collector.{
  Upload, uploads, save_failed, read_failed, load_failed, discover_failed, upload_failed, same_key,
  Cursors, memory_load, memory_delete, memory_save, Outcome, gone, failed, got, Stream, Source,
  Config, Pass, Result, and_then, commit_loop, commit, acknowledged, flush, absorb, flush_if_full,
  drain_loop, drain_stream, drain_streams, collect_sources,
}

abbrev pub Claim : Type 1
Claim = Key → Cursor → List Upload → Type 0

-- More records do not spoil a claim, and a cursor that starts at nothing has it.
pub record Stable (J : Claim) : Type 0 where
  pub none_yet : (k : Key) (recs : List Upload) → J k zero_cursor recs
  pub more : (k : Key) (c : Cursor) (recs extra : List Upload) → J k c recs → J k c (recs ++ extra)

-- A read keeps a claim if its lines are delivered.
abbrev pub Reads : Claim → Config → Stream → Type 0
Reads J cfg stream =
    (i : ℕ) (from : Cursor) (r : ReadResult) (recs : List Upload)
    → stream.read i from ≡ got r
    → J (key_of stream.id) from recs
    → J (key_of stream.id) r.next (recs ++ uploads cfg.sha r.lines)

abbrev pub SourceReads : Claim → Config → Source → Type 0
SourceReads J cfg src =
    (streams : List Stream) → src.discovered ≡ some streams → All (Reads J cfg) streams

both : (a b : Bool) → (a && b) ≡ true → (a ≡ true) × (b ≡ true)
both true b h = (refl, h)
both false b h = cc

pub same_key_sound : (a b : Key) → same_key a b ≡ true → a ≡ b
unfolding same_key
same_key_sound a b h =
    let (p, q) = both (str_eq a.source b.source) (str_eq a.path b.path) h in
    ap₂ (λ x y. record { source = x; path = y }) ((eq_iff a.source b.source).0 p)
      ((eq_iff a.path b.path).0 q)

empty_nil : (l : List Upload) → is_empty l ≡ true → l ≡ []
empty_nil [] h = refl
empty_nil (x ∷ l) h = cc

Outcome-cases : (o : Outcome) → (o ≡ gone) ⊎ ((o ≡ failed) ⊎ ((r : ReadResult) × (o ≡ got r)))
Outcome-cases gone = inl refl
Outcome-cases failed = inr (inl refl)
Outcome-cases (got r) = inr (inr (r, refl))

module _ (J : Claim) (cfg : Config) (just : Stable J) where
  abbrev pub Justified : List Upload → Cursors → Type 0
  Justified recs m = All (λ e. J (e.0) (e.1) recs) m

  abbrev pub Inv : Pass → Type 0
  Inv s = Justified s.acked s.saved × Justified (s.acked ++ s.records) s.cursors

  -- What holds of the store however a step ends, and of the whole if it succeeds.
  abbrev pub Safe : Result → Type 0
  Safe (s, none) = Inv s
  Safe (s, some e) = Justified s.acked s.saved

  -- Likewise, for a step that reads nothing.
  abbrev pub SafeWith : List Upload → Result → Type 0
  SafeWith total (t, none) = Inv t × (t.acked ++ t.records ≡ total)
  SafeWith total (t, some e) = Justified t.acked t.saved

  abbrev pub Committed : Pass → Result → Type 0
  Committed s (t, none) =
      Justified s.acked t.saved × (t.acked ≡ s.acked) × (t.records ≡ s.records) × (t.cursors ≡ [])
  Committed s (t, some e) = Justified t.acked t.saved

  delete-Justified :
      (recs : List Upload) (m : Cursors) (k : Key)
      → Justified recs m
      → Justified recs (memory_delete m k)
  unfolding memory_delete
  delete-Justified recs [] k h = tt
  delete-Justified recs (e ∷ m) k h = elim (Bool-cases (same_key (e.0) k)) [
    | inl d ↦ rw d (delete-Justified recs m k h.1)
    | inr d ↦ rw d (h.0, delete-Justified recs m k h.1)
  ]

  more-Justified :
      (recs extra : List Upload) (m : Cursors) → Justified recs m → Justified (recs ++ extra) m
  more-Justified recs extra [] h = tt
  more-Justified recs extra (e ∷ m) h =
      (just.more (e.0) (e.1) recs extra h.0, more-Justified recs extra m h.1)

  load-Justified :
      (recs : List Upload) (m : Cursors) (k : Key) → Justified recs m → J k (memory_load m k) recs
  unfolding memory_load
  load-Justified recs [] k h = just.none_yet k recs
  load-Justified recs (e ∷ m) k h = elim (Bool-cases (same_key (e.0) k)) [
    | inl d ↦ rw d (subst (λ x. J x (e.1) recs) (same_key_sound (e.0) k d) h.0)
    | inr d ↦ rw d (load-Justified recs m k h.1)
  ]

  pub and_then-Safe :
      (r : Result) (f : Pass → Result)
      → Safe r
      → ((s : Pass) → Inv s → Safe (f s))
      → Safe (and_then r f)
  unfolding and_then
  and_then-Safe (s, none) f h k = k s h
  and_then-Safe (s, some e) f h k = h

  commit_loop-Committed :
      (s : Pass) (m : Cursors)
      → Justified s.acked s.saved
      → Justified s.acked m
      → Committed s (commit_loop cfg s m)
  unfolding commit_loop memory_save
  commit_loop-Committed s [] h k = (h, refl, refl, refl)
  commit_loop-Committed s (e ∷ m) h k = elim (Bool-cases (cfg.save_fails (e.0) (e.1))) [
    | inl d ↦
        let to : commit_loop cfg s (e ∷ m) ≡ (record s { cursors = e ∷ m }, some save_failed) =
          rw (d, commit_loop) refl in
        subst (Committed s) (sym to) h
    | inr d ↦
        let to : commit_loop cfg s (e ∷ m)
            ≡ commit_loop cfg (record s { saved = memory_save s.saved (e.0) (e.1) }) m =
          rw (d, commit_loop) refl in
        subst (Committed s) (sym to) (
          commit_loop-Committed (record s { saved = memory_save s.saved (e.0) (e.1) }) m
            (k.0, delete-Justified s.acked s.saved (e.0) h) k.1)
  ]

  -- A commit that succeeds and leaves the pending lines leaves a safe pass.
  commit-SafeWith :
      (s : Pass) (r : Result) → is_empty s.records ≡ true → Committed s r → SafeWith s.acked r
  commit-SafeWith s (t, none) z (h, a, b, c) =
      let all : t.acked ++ t.records ≡ s.acked =
        ap₂ ◌++◌ a (b ∙ empty_nil s.records z) ∙ append-nil s.acked in
      (
        (
          subst (λ x. Justified x t.saved) (sym a) h,
          subst (Justified (t.acked ++ t.records)) (sym c) tt,
        ),
        all,
      )
  commit-SafeWith s (t, some e) z h = h

  clear-SafeWith :
      (s : Pass) (r : Result)
      → Committed s r
      → SafeWith s.acked (and_then r (λ t. (record t { records = [] }, none)))
  unfolding and_then
  clear-SafeWith s (t, none) (h, a, b, c) = (
    (subst (λ x. Justified x t.saved) (sym a) h, subst (Justified (t.acked ++ [])) (sym c) tt),
    append-nil t.acked ∙ a,
  )
  clear-SafeWith s (t, some e) h = h

  pub flush-SafeWith : (s : Pass) → Inv s → SafeWith (s.acked ++ s.records) (flush cfg s)
  unfolding flush commit acknowledged
  flush-SafeWith s (h, k) = elim (Bool-cases (is_empty s.records)) [
    | inl z ↦
        let all : s.acked ++ s.records ≡ s.acked =
          ap (λ x. s.acked ++ x) (empty_nil s.records z) ∙ append-nil s.acked in
        let to : flush cfg s ≡ commit_loop cfg s s.cursors = rw z refl in
        subst (SafeWith (s.acked ++ s.records)) (sym to) (
          subst (λ x. SafeWith x (commit_loop cfg s s.cursors)) (sym all)
            (commit-SafeWith s (commit_loop cfg s s.cursors) z
              (commit_loop-Committed s s.cursors h (subst (λ x. Justified x s.cursors) all k))))
    | inr z ↦ elim (Option-cases (cfg.ingest s.acked s.records)) [
      | inl e ↦
          let to : flush cfg s ≡ (s, some upload_failed) = rw (z, e) refl in
          subst (SafeWith (s.acked ++ s.records)) (sym to) h
      | inr (r, e) ↦
          let t = acknowledged s r in
          let to : flush cfg s
              ≡ and_then (commit_loop cfg t t.cursors) (λ u. (record u { records = [] }, none)) =
            rw (z, e) refl in
          subst (SafeWith (s.acked ++ s.records)) (sym to) (
            clear-SafeWith t (commit_loop cfg t t.cursors)
              (commit_loop-Committed t s.cursors (more-Justified s.acked s.records s.saved h) k))
    ]
  ]

  flush_if_full-SafeWith :
      (s : Pass) → Inv s → SafeWith (s.acked ++ s.records) (flush_if_full cfg s)
  unfolding flush_if_full
  flush_if_full-SafeWith s h = elim (Bool-cases (leb cfg.batch_size (length s.records))) [
    | inl e ↦
        let to : flush_if_full cfg s ≡ flush cfg s = rw e refl in
        subst (SafeWith (s.acked ++ s.records)) (sym to) (flush-SafeWith s h)
    | inr e ↦
        let to : flush_if_full cfg s ≡ (s, none) = rw e refl in
        subst (SafeWith (s.acked ++ s.records)) (sym to) (h, refl)
  ]

  absorb-Inv :
      (stream : Stream) (i : ℕ) (from : Cursor) (s : Pass) (r : ReadResult)
      → J (key_of stream.id) r.next ((s.acked ++ s.records) ++ uploads cfg.sha r.lines)
      → Inv s
      → Inv (absorb cfg (key_of stream.id) s r)
  unfolding absorb memory_save
  absorb-Inv stream i from s r j (h, k) =
      let all : (s.acked ++ s.records) ++ uploads cfg.sha r.lines
          ≡ s.acked ++ (s.records ++ uploads cfg.sha r.lines) =
        append_assoc s.acked s.records (uploads cfg.sha r.lines) in
      (
        h,
        subst (λ x. Justified x (memory_save s.cursors (key_of stream.id) r.next)) all
            (j, delete-Justified _ s.cursors (key_of stream.id) (more-Justified _ _ s.cursors k)),
      )

  -- After a step that read nothing, the rest of the round.
  then-Safe :
      (total : List Upload) (r : Result) (f : Pass → Result)
      → SafeWith total r
      → ((t : Pass) → Inv t → t.acked ++ t.records ≡ total → Safe (f t))
      → Safe (and_then r f)
  unfolding and_then
  then-Safe total (t, none) f (h, e) k = k t h e
  then-Safe total (t, some e) f h k = h

  next_round : ℕ → Stream → ℕ → Cursor → ReadResult → Pass → Result
  next_round fuel stream i from r t =
      if is_empty r.lines || (r.next.offset == from.offset)
      then (t, none)
      else drain_loop fuel cfg stream (i + 1) r.next t

  drain_loop-Safe :
      (fuel : ℕ) (stream : Stream) (i : ℕ) (from : Cursor) (s : Pass)
      → Reads J cfg stream
      → J (key_of stream.id) from (s.acked ++ s.records)
      → Inv s
      → Safe (drain_loop fuel cfg stream i from s)
  unfolding drain_loop absorb next_round
  drain_loop-Safe zero stream i from s reads j h = h.0
  drain_loop-Safe (suc fuel) stream i from s reads j h = elim (Outcome-cases (stream.read i from)) [
    | inl e ↦
        let to : drain_loop (suc fuel) cfg stream i from s
            ≡ (record s { stats = record (s.stats) { gone = s.stats.gone + 1 } }, none) =
          rw (e, drain_loop) refl in
        subst Safe (sym to) h
    | inr (inl e) ↦
        let to : drain_loop (suc fuel) cfg stream i from s ≡ (s, some read_failed) =
          rw (e, drain_loop) refl in
        subst Safe (sym to) h.0
    | inr (inr (r, e)) ↦
        let a = absorb cfg (key_of stream.id) s r in
        let rest : Pass → Result = next_round fuel stream i from r in
        let to : drain_loop (suc fuel) cfg stream i from s ≡ and_then (flush_if_full cfg a) rest =
          rw (e, drain_loop) refl in
        let k = reads i from r (s.acked ++ s.records) e j in
        subst Safe (sym to) (
          then-Safe (a.acked ++ a.records) (flush_if_full cfg a) rest
            (flush_if_full-SafeWith a (absorb-Inv stream i from s r k h))
            (λ t inv all. elim (Bool-cases (is_empty r.lines || (r.next.offset == from.offset))) [
              | inl q ↦ let stop : rest t ≡ (t, none) = rw q refl in subst Safe (sym stop) inv
              | inr q ↦
                  let on : rest t ≡ drain_loop fuel cfg stream (i + 1) r.next t = rw q refl in
                  subst Safe (sym on) (
                    drain_loop-Safe fuel stream (i + 1) r.next t reads
                      (subst (J (key_of stream.id) r.next)
                        (append_assoc s.acked s.records (uploads cfg.sha r.lines) ∙ sym all) k)
                      inv)
            ]))
  ]

  drain_stream-Safe :
      (fuel : ℕ) (stream : Stream) (s : Pass)
      → Reads J cfg stream
      → Inv s
      → Safe (drain_stream fuel cfg stream s)
  unfolding drain_stream
  drain_stream-Safe fuel stream s reads h =
      let key = key_of stream.id in
      let j = just.more key _ s.acked s.records (load-Justified s.acked s.saved key h.0) in
      elim (Bool-cases (cfg.load_fails key)) [
        | inl e ↦
            let to : drain_stream fuel cfg stream s ≡ (s, some load_failed) =
              rw (e, drain_stream) refl in
            subst Safe (sym to) h.0
        | inr e ↦
            let to : drain_stream fuel cfg stream s
                ≡ drain_loop fuel cfg stream 0 (memory_load s.saved key) s =
              rw (e, drain_stream) refl in
            subst Safe (sym to) (drain_loop-Safe fuel stream 0 _ s reads j h)
      ]

  drain_streams-Safe :
      (fuel : ℕ) (streams : List Stream) (s : Pass)
      → All (Reads J cfg) streams
      → Inv s
      → Safe (drain_streams fuel cfg streams s)
  unfolding drain_streams
  drain_streams-Safe fuel [] s reads h = h
  drain_streams-Safe fuel (stream ∷ streams) s reads h =
      and_then-Safe (drain_stream fuel cfg stream s) (λ t. drain_streams fuel cfg streams t)
        (drain_stream-Safe fuel stream s reads.0 h)
        (λ t k. drain_streams-Safe fuel streams t reads.1 k)

  pub collect_sources-Safe :
      (fuel : ℕ) (srcs : List Source) (s : Pass)
      → All (SourceReads J cfg) srcs
      → Inv s
      → Safe (collect_sources fuel cfg srcs s)
  unfolding collect_sources
  collect_sources-Safe fuel [] s reads h = h
  collect_sources-Safe fuel (src ∷ srcs) s reads h = elim (Option-cases src.discovered) [
    | inl e ↦
        let to : collect_sources fuel cfg (src ∷ srcs) s ≡ (s, some discover_failed) =
          rw (e, collect_sources) refl in
        subst Safe (sym to) h.0
    | inr (streams, e) ↦
        let t = record s {
          stats = record (s.stats) { streams = s.stats.streams + length streams };
        } in
        let to : collect_sources fuel cfg (src ∷ srcs) s
            ≡ and_then (drain_streams fuel cfg streams t) (λ u. collect_sources fuel cfg srcs u) =
          rw (e, collect_sources) refl in
        subst Safe (sym to) (
          and_then-Safe (drain_streams fuel cfg streams t) (λ u. collect_sources fuel cfg srcs u)
            (drain_streams-Safe fuel streams t (reads.0 streams e) h)
            (λ u k. collect_sources-Safe fuel srcs u reads.1 k))
  ]
