-- ===== src/Store/Append/Local.antt =====
-- AppendLocal hands out the sequence numbers of this node without a gap.
use agentic_stats.Prelude.{
  ℕ, suc, ◌+◌, ◌≡◌, refl, ◌⊎◌, none, List, [], ◌∷◌, ◌++◌, arith, String, str_eq_refl, inl, inr,
  length, length-append, append_assoc, append-nil, ◌∙◌,
}
use native.Mathlib.Nat.{zero-add}
use agentic_stats.Store.Record.{Record, Row, to_row}
use agentic_stats.Store.Table.{max_seq, IsDense}
use agentic_stats.Store.Table.Keys.{exec_insert_cases, IsDense-snoc, max_seq-snoc}
use agentic_stats.Store.Append.{
  Db, Tx, begin, in_tx, next_seq, local_step, local_loop, append_local,
}

-- What the loop keeps between rounds, from the rows that it started with.
pub record Numbered (origin : String) (start : List Row) (rounds : ℕ) (s : ℕ × Tx) : Type 0 where
  pub dense : IsDense s.1.rows origin
  pub next : s.0 ≡ max_seq s.1.rows origin + 1
  count : s.1.out.stored + s.1.out.duplicates ≡ rounds
  moved : max_seq s.1.rows origin ≡ max_seq start origin + s.1.out.stored
  last : (s.1.out.stored ≡ 0) ⊎ (s.1.out.last_seq ≡ max_seq s.1.rows origin)
  added : (ws : List Row) × (s.1.rows ≡ start ++ ws) × (length ws ≡ s.1.out.stored)

skipped-Numbered :
    (origin : String) (start : List Row) (rounds next : ℕ) (t : Tx)
    → Numbered origin start rounds (next, t)
    → Numbered origin start
        (suc rounds)
        (next, record t { out = record (t.out) { duplicates = t.out.duplicates + 1 } })
skipped-Numbered origin start rounds next t h = record {
  dense = h.dense;
  next = h.next;
  count = omega (arith, h.count);
  moved = h.moved;
  last = h.last;
  added = h.added;
}

written-Numbered :
    (start : List Row) (rounds next : ℕ) (t : Tx) (w : Row)
    → w.seq ≡ next
    → Numbered w.origin_id start rounds (next, t)
    → Numbered w.origin_id start (suc rounds) (
      next + 1,
      record t {
        rows = t.rows ++ w ∷ [];
        out = record (t.out) { stored = t.out.stored + 1; last_seq = next };
      },
    )
written-Numbered start rounds next t w e h = record {
  dense = IsDense-snoc t.rows w h.dense (e ∙ h.next);
  next = omega (arith, grown, h.next);
  count = omega (arith, h.count);
  moved = omega (arith, grown, h.moved);
  last = inr (omega (arith, grown, h.next));
  added = (
    h.added.0 ++ w ∷ [],
    rw h.added.1 (append_assoc start h.added.0 (w ∷ [])),
    omega (arith, length-append h.added.0 (w ∷ []), h.added.2),
  );
}
  where
    grown : max_seq (t.rows ++ w ∷ []) w.origin_id ≡ max_seq t.rows w.origin_id + 1
    grown =
        rw (max_seq-snoc t.rows w w.origin_id, str_eq_refl w.origin_id) (omega (arith, e, h.next))

pub local_step-Numbered :
    (origin now : String) (start : List Row) (rounds : ℕ) (s : ℕ × Tx) (r : Record)
    → Numbered origin start rounds s
    → Numbered origin start (suc rounds) (local_step origin now s r)
unfolding local_step to_row
local_step-Numbered origin now start rounds (next, t) r h =
    elim (exec_insert_cases t.rows (record r { origin_id = origin; seq = next }) now) [
      | inl (e, _) ↦ rw (e, local_step) (skipped-Numbered origin start rounds next t h)
      | inr (e, _) ↦
          rw (e, local_step)
            (written-Numbered start rounds next t
              (to_row (record r { origin_id = origin; seq = next }) now) refl h)
    ]

pub local_loop-Numbered :
    (origin now : String) (start : List Row) (rounds : ℕ) (s : ℕ × Tx) (recs : List Record)
    → Numbered origin start rounds s
    → Numbered origin start (length recs + rounds) (local_loop origin now s recs)
unfolding local_loop
local_loop-Numbered origin now start rounds s [] h = rw zero-add h
local_loop-Numbered origin now start rounds s (r ∷ recs) h =
    let rest =
      local_loop-Numbered origin now start (suc rounds) (local_step origin now s r) recs
        (local_step-Numbered origin now start rounds s r h) in
    let e : suc (length recs) + rounds ≡ length recs + suc rounds = omega arith in rw e rest

pub begin-Numbered :
    (db : Db)
    → IsDense db.rows db.origin
    → Numbered db.origin db.rows 0 (next_seq db.rows db.origin, begin db)
unfolding next_seq
begin-Numbered db d = record {
  dense = d;
  next = refl;
  count = refl;
  moved = omega arith;
  last = inl refl;
  added = ([], rw append-nil, refl);
}

-- Where this node's numbers are 1, 2, 3, … without a gap, they are so after any batch of its own
-- lines. The batch fails never, adds rows at the end and changes none, counts every line as stored
-- or as a duplicate, and raises the highest number by what it stored, which is the number that it
-- reports if it stored anything.
pub append_local-IsDense :
    (db : Db) (now : String) (recs : List Record)
    → IsDense db.rows db.origin
    → let (db', out, e) = append_local db now recs in
      IsDense db'.rows db.origin
      × (e ≡ none)
      × (out.stored + out.duplicates ≡ length recs)
      × (max_seq db'.rows db.origin ≡ max_seq db.rows db.origin + out.stored)
      × ((out.stored ≡ 0) ⊎ (out.last_seq ≡ max_seq db'.rows db.origin))
      × ((ws : List Row) × (db'.rows ≡ db.rows ++ ws) × (length ws ≡ out.stored))
unfolding append_local in_tx
append_local-IsDense db now [] d = (d, refl, refl, omega arith, inl refl, ([], rw append-nil, refl))
append_local-IsDense db now (r ∷ recs) d =
    let s = local_loop db.origin now (next_seq db.rows db.origin, begin db) (r ∷ recs) in
    let h : Numbered db.origin db.rows (length (r ∷ recs) + 0) s =
      local_loop-Numbered db.origin now db.rows 0 (next_seq db.rows db.origin, begin db) (r ∷ recs)
        (begin-Numbered db d) in
    (h.dense, refl, omega (arith, h.count), h.moved, h.last, h.added)
