-- ===== src/Ingest/Reprocess/Loop.antt =====
-- The loop over one origin: what a batch does to the archive, and that the loop reaches the
-- origin's highest number. internal/ingest/reprocess.go
use agentic_stats.Prelude.{
  ℕ, zero, suc, ◌+◌, ◌≤◌, ◌<◌, ◌≡◌, refl, sym, ap, subst, ◌∙◌, true, false, inl, inr, none, List,
  [], ◌∷◌, map, arith, String, str_eq, str_eq_refl, eq_iff, ltb, max, if◌then◌else◌, take, All, In,
  is_empty, Bool-cases,
}
use agentic_stats.Store.Record.{Record, Row}
use agentic_stats.Store.Table.{max_seq}
use agentic_stats.Store.Table.Unique.{IsUnique}
use agentic_stats.Store.Order.{IsAscending, Above, last_seq, last_seq-ge, take-IsAscending}
use agentic_stats.Store.Append.{Db}
use agentic_stats.Store.Query.{backlog, since}
use agentic_stats.Store.Query.Backlog.{backlog-IsAscending, backlog-Above}
use agentic_stats.Store.Query.Batch.{batch_has, batch_of_row, batch_misses, batch_empty}
use agentic_stats.Store.Extraction.{save_extracted}
use agentic_stats.Store.Extraction.Marks.{advance_lem}
use agentic_stats.Ingest.Reprocess.{
  Opener, Run, Pass, extraction_version, reextract, examine, pass_loop,
}
use agentic_stats.Ingest.Reprocess.Batch.{
  update_all, update_rows-map, update_all_batch, update_all-Misses,
}
use agentic_stats.Ingest.Reprocess.Walked.{
  mark, walked, Walked, Walked-refl, Walked-trans, Walked-IsUnique, Walked-max_seq,
}

-- One row after a batch of an origin above its mark.
row_after :
    (opener : Opener) (rows : List Row) (o : String) (after n : ℕ) (m l : String → ℕ) (w : Row)
    → IsUnique rows
    → In w rows
    → m o ≡ after
    → ((p : String)
        → l p ≡ (if str_eq o p then last_seq (take n (backlog rows o after)) after else m p))
    → update_all (reextract opener (take n (backlog rows o after))).0 w ≡ walked opener m l w
unfolding walked
row_after opener rows o after n m l w u i q f = elim (Bool-cases (str_eq w.origin_id o)) [
  | inl e ↦
      let key = (eq_iff w.origin_id o).0 e in
      update_all_batch opener (take n (backlog rows o after)) w
        (take-IsAscending n (backlog rows o after) (backlog-IsAscending rows o after u))
        (batch_of_row rows o after n w u i e)
      ∙ rw (batch_has rows o after n w u i e, f w.origin_id, key, q, str_eq_refl o) refl
  | inr e ↦
      update_all-Misses opener (take n (backlog rows o after)) w (batch_misses rows o after n w e)
      ∙ ground (arith, f w.origin_id, e, eq_iff w.origin_id o, eq_iff o w.origin_id)
]

pub map_In :
    {A B : Type 0} (f g : A → B) (l : List A) → ((a : A) → In a l → f a ≡ g a) → map f l ≡ map g l
map_In f g [] h = refl
map_In f g (a ∷ l) h = rw (h a (inl refl), map_In f g l (λ b i. h b (inr i))) refl

-- The marks after a batch.
mark-examine :
    (run : Run) (o : String) (batch : List Record) (up : ℕ) (s : Pass) (p : String)
    → mark (examine run o batch up s).archive p
      ≡ (if str_eq o p then max (mark s.archive p) up else mark s.archive p)
unfolding mark examine save_extracted
mark-examine run o batch up s p =
    advance_lem
      (record {
        origin_id = o;
        version = extraction_version;
        seq = up;
        updated_at = run.times s.batches;
      })
      s.archive.marks p

mark_raised :
    (m : String → ℕ) (o p : String) (after up : ℕ)
    → m o ≡ after
    → after ≤ up
    → (if str_eq o p then max (m p) up else m p) ≡ (if str_eq o p then up else m p)
mark_raised m o p after up q le = elim (Bool-cases (str_eq o p)) [
  | inl e ↦ let at_p = ap m (sym ((eq_iff o p).0 e)) ∙ q in rw e (omega (arith, at_p, le))
  | inr e ↦ rw e refl
]

grows :
    (m : String → ℕ) (o p : String) (after up : ℕ)
    → m o ≡ after
    → after ≤ up
    → (k : ℕ) → k ≡ (if str_eq o p then up else m p)
    → m p ≤ k
grows m o p after up q le k f = elim (Bool-cases (str_eq o p)) [
  | inl e ↦ let at_p = ap m (sym ((eq_iff o p).0 e)) ∙ q in ground (arith, at_p, f)
  | inr e ↦ ground (arith, f)
]

-- A batch above the mark leaves the archive walked up to its last number.
examine-Walked :
    (run : Run) (o : String) (after : ℕ) (s : Pass)
    → IsUnique s.archive.db.rows
    → mark s.archive o ≡ after
    → let batch = since s.archive.db o after run.batch in
      let next = examine run o batch (last_seq batch after) s in
      Walked run.opener s.archive next.archive × (mark next.archive o ≡ last_seq batch after)
unfolding since
examine-Walked run o after s u q =
    let rows = s.archive.db.rows in
    let batch = take run.batch (backlog rows o after) in
    let next = examine run o batch (last_seq batch after) s in
    let up : after ≤ last_seq batch after =
      last_seq-ge run.batch (backlog rows o after) after (backlog-Above rows o after u)
        (backlog-IsAscending rows o after u) in
    let marks : (p : String)
        → mark next.archive p ≡ (if str_eq o p then last_seq batch after else mark s.archive p) =
      (λ p.
        mark-examine run o batch (last_seq batch after) s p
        ∙ mark_raised (mark s.archive) o p after (last_seq batch after) q up) in
    (
      (
        unfold examine save_extracted in
            (update_rows-map (reextract run.opener batch).0 rows
              ∙ map_In _ (walked run.opener (mark s.archive) (mark next.archive)) rows (λ w i.
                row_after run.opener rows o after run.batch (mark s.archive) (mark next.archive) w u
                  i q marks)),
        (λ p.
            grows (mark s.archive) o p after (last_seq batch after) q up (mark next.archive p)
              (marks p)),
        unfold examine save_extracted in refl,
      ),
      ground (arith, marks o, str_eq_refl o),
    )

-- What the loop does to the archive, however it ends.
pub pass_loop-Walked :
    (fuel : ℕ) (run : Run) (o : String) (high after : ℕ) (s : Pass)
    → IsUnique s.archive.db.rows
    → mark s.archive o ≡ after
    → Walked run.opener s.archive (pass_loop fuel run o high after s).0.archive
      × ((p : String)
          → str_eq o p ≡ false
          → mark (pass_loop fuel run o high after s).0.archive p ≡ mark s.archive p)
unfolding pass_loop
pass_loop-Walked zero run o high after s u q = (Walked-refl run.opener s.archive, (λ p e. refl))
pass_loop-Walked (suc fuel) run o high after s u q = elim (Bool-cases (ltb after high)) [
  | inr e ↦ rw (pass_loop, e) (Walked-refl run.opener s.archive, (λ p e. refl))
  | inl e ↦ elim (Bool-cases (is_empty batch)) [
    | inl g ↦ rw (pass_loop, e, g) (Walked-refl run.opener s.archive, (λ p e. refl))
    | inr g ↦
        let step = examine-Walked run o after s u q in
        let other = other_marks in
        elim (Bool-cases (run.cancelled s.batches)) [
          | inl c ↦ rw (pass_loop, e, g, c) (step.0, other)
          | inr c ↦
              let rest =
                pass_loop-Walked fuel run o high (last_seq batch after) next
                  (Walked-IsUnique run.opener s.archive next.archive step.0 u) step.1 in
              rw (pass_loop, e, g, c)
                (
                  Walked-trans run.opener s.archive next.archive _ step.0 rest.0,
                  (λ p d. rest.1 p d ∙ other p d),
                )
        ]
  ]
]
  where
    batch : List Record
    batch = since s.archive.db o after run.batch

    next : Pass
    next = examine run o batch (last_seq batch after) s

    other_marks : (p : String) → str_eq o p ≡ false → mark next.archive p ≡ mark s.archive p
    other_marks p d = mark-examine run o batch (last_seq batch after) s p ∙ rw d refl

-- The batch that is read is not empty, so its last number is above the mark.
batch_moves :
    (l : List Record) (n after : ℕ)
    → All (Above after) l
    → IsAscending l
    → is_empty (take n l) ≡ false
    → after < last_seq (take n l) after
unfolding last_seq
batch_moves l zero after h a e = cc
batch_moves [] (suc n) after h a e = cc
batch_moves (r ∷ l) (suc n) after h a e = omega (arith, h.0, last_seq-ge n l r.seq a.0 a.1)

since_moves :
    (db : Db) (o : String) (after n : ℕ)
    → IsUnique db.rows
    → is_empty (since db o after n) ≡ false
    → after < last_seq (since db o after n) after
unfolding since
since_moves db o after n u e =
    batch_moves (backlog db.rows o after) n after (backlog-Above db.rows o after u)
      (backlog-IsAscending db.rows o after u) e

since_empty :
    (db : Db) (o : String) (after n : ℕ)
    → 0 < n
    → is_empty (since db o after n) ≡ true
    → max_seq db.rows o ≤ after
unfolding since
since_empty db o after n p e = batch_empty db.rows o after n p e

-- Never cancelled, the loop ends without error with the mark on the highest number.
pub pass_loop_ends :
    (fuel : ℕ) (run : Run) (o : String) (high after : ℕ) (s : Pass)
    → IsUnique s.archive.db.rows
    → mark s.archive o ≡ after
    → high ≤ max_seq s.archive.db.rows o
    → high ≤ fuel + after
    → 0 < run.batch
    → ((i : ℕ) → run.cancelled i ≡ false)
    → ((pass_loop fuel run o high after s).1 ≡ none)
      × (high ≤ mark (pass_loop fuel run o high after s).0.archive o)
unfolding pass_loop
pass_loop_ends zero run o high after s u q top f p c = (refl, omega (arith, q, f))
pass_loop_ends (suc fuel) run o high after s u q top f p c = elim (Bool-cases (ltb after high)) [
  | inr e ↦ rw (pass_loop, e) (refl, ground (arith, q))
  | inl e ↦ elim (Bool-cases (is_empty batch)) [
    | inl g ↦
        let past = since_empty s.archive.db o after run.batch p g in
        rw (pass_loop, e, g) (refl, omega (arith, q, past, top))
    | inr g ↦
        let step = examine-Walked run o after s u q in
        let up = since_moves s.archive.db o after run.batch u g in
        rw (pass_loop, e, g, c s.batches)
          (pass_loop_ends fuel run o high (last_seq batch after) next
            (Walked-IsUnique run.opener s.archive next.archive step.0 u) step.1
            (subst (λ m. high ≤ m) (sym (Walked-max_seq run.opener s.archive next.archive o step.0))
              top)
            (omega (arith, up, f)) p c)
  ]
]
  where
    batch : List Record
    batch = since s.archive.db o after run.batch

    next : Pass
    next = examine run o batch (last_seq batch after) s
