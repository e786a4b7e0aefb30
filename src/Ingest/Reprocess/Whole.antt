-- ===== src/Ingest/Reprocess/Whole.antt =====
-- A whole pass: what it does to the archive, and that it leaves nothing for the next.
-- internal/ingest/reprocess.go
use agentic_stats.Prelude.{
  ℕ, zero, suc, ◌≤◌, ◌<◌, ◌≡◌, refl, sym, ap, subst, ◌∙◌, false, inl, inr, none, List, [], ◌∷◌, map,
  arith, String, str_eq, str_eq_refl, ltb, if◌then◌else◌, All, In, In-All, All-In, Option-cases,
}
use agentic_stats.Store.Record.{Row}
use agentic_stats.Store.Table.{max_seq}
use agentic_stats.Store.Table.Unique.{IsUnique}
use agentic_stats.Store.Query.{VersionVector, seq_at, vector}
use agentic_stats.Store.Query.Vector.{vector-max_seq}
use agentic_stats.Store.Extraction.{Archive, extraction_marks, extraction_pending}
use agentic_stats.Store.Extraction.Marks.{extraction_pending_none}
use agentic_stats.Ingest.Reprocess.{
  Opener, Run, Pass, Passed, no_stats, extraction_version, sorted_origins, then_pass, pass_loop,
  pass_origins, pass,
}
use agentic_stats.Ingest.Reprocess.Batch.{refreshed}
use agentic_stats.Ingest.Reprocess.Walked.{
  mark, walked, Walked, Walked-refl, Walked-trans, Walked-IsUnique, Walked-max_seq,
}
use agentic_stats.Ingest.Reprocess.Loop.{map_In, pass_loop-Walked, pass_loop_ends}
use agentic_stats.Ingest.Reprocess.Origins.{
  NoRepeat, NoRepeat-vector, origin_walked, then_pass-none, then_pass-some,
}

-- The marks that the walk was given are still those of the origins it has not come to.
abbrev Known : VersionVector → Archive → List String → Type 0
Known marks a os = All (λ o. seq_at marks o ≡ mark a o) os

Known-after :
    (marks : VersionVector) (a b : Archive) (o : String) (os : List String)
    → ((p : String) → str_eq o p ≡ false → mark b p ≡ mark a p)
    → All (λ p. str_eq o p ≡ false) os
    → Known marks a os
    → Known marks b os
Known-after marks a b o [] f n h = tt
Known-after marks a b o (p ∷ os) f n h = (h.0 ∙ sym (f p n.0), Known-after marks a b o os f n.1 h.1)

pass_origins-Walked :
    (run : Run) (vec marks : VersionVector) (os : List String) (s : Pass)
    → IsUnique s.archive.db.rows
    → NoRepeat os
    → Known marks s.archive os
    → Walked run.opener s.archive (pass_origins run vec marks os s).0.archive
unfolding pass_origins
pass_origins-Walked run vec marks [] s u n h = Walked-refl run.opener s.archive
pass_origins-Walked run vec marks (o ∷ os) s u n h =
    let r = pass_loop (seq_at vec o) run o (seq_at vec o) (seq_at marks o) s in
    let own = pass_loop-Walked (seq_at vec o) run o (seq_at vec o) (seq_at marks o) s u (sym h.0) in
    elim (Option-cases r.1) [
      | inr (x, e) ↦ rw (then_pass-some (pass_origins run vec marks os) r x e) own.0
      | inl e ↦ rw (then_pass-none (pass_origins run vec marks os) r e) (
          Walked-trans run.opener s.archive r.0.archive _ own.0 (
            pass_origins-Walked run vec marks os r.0
              (Walked-IsUnique run.opener s.archive r.0.archive own.0 u) n.1
              (Known-after marks s.archive r.0.archive o os own.1 n.0 h.1)))
    ]

-- Never cancelled, the walk ends without error with every mark on its origin's highest number.
pass_origins_ends :
    (run : Run) (vec marks : VersionVector) (os : List String) (s : Pass)
    → IsUnique s.archive.db.rows
    → NoRepeat os
    → Known marks s.archive os
    → ((o : String) → seq_at vec o ≤ max_seq s.archive.db.rows o)
    → 0 < run.batch
    → ((i : ℕ) → run.cancelled i ≡ false)
    → ((pass_origins run vec marks os s).1 ≡ none)
      × All (λ o. seq_at vec o ≤ mark (pass_origins run vec marks os s).0.archive o) os
unfolding pass_origins
pass_origins_ends run vec marks [] s u n h top p c = (refl, tt)
pass_origins_ends run vec marks (o ∷ os) s u n h top p c =
    let r = pass_loop (seq_at vec o) run o (seq_at vec o) (seq_at marks o) s in
    let own = pass_loop-Walked (seq_at vec o) run o (seq_at vec o) (seq_at marks o) s u (sym h.0) in
    let done =
      pass_loop_ends (seq_at vec o) run o (seq_at vec o) (seq_at marks o) s u (sym h.0) (top o)
        (omega arith) p c in
    let unique = Walked-IsUnique run.opener s.archive r.0.archive own.0 u in
    let known = Known-after marks s.archive r.0.archive o os own.1 n.0 h.1 in
    let rest =
      pass_origins_ends run vec marks os r.0 unique n.1 known
        (λ q.
          subst (λ m. seq_at vec q ≤ m)
            (sym (Walked-max_seq run.opener s.archive r.0.archive q own.0)) (top q))
        p c in
    let grown = (pass_origins-Walked run vec marks os r.0 unique n.1 known).1 o in
    subst (λ (t : Passed). (t.1 ≡ none) × All (λ q. seq_at vec q ≤ mark t.0.archive q) (o ∷ os))
      (sym (then_pass-none (pass_origins run vec marks os) r done.0))
      (rest.0, (omega (arith, done.1, grown), rest.1))

start-Known :
    (a : Archive) (os : List String) → Known (extraction_marks a.marks extraction_version) a os
unfolding mark
start-Known a os =
    In-All (λ o. seq_at (extraction_marks a.marks extraction_version) o ≡ mark a o) os (λ o i. refl)

-- A pass, cancelled or not, leaves exactly the rows refreshed whose numbers are above the old mark
-- of their origin and not above the new one; no mark goes back, and the keys stay unique.
pub pass-Walked :
    (run : Run) (a : Archive)
    → IsUnique a.db.rows
    → Walked run.opener a (pass run a).0.archive × IsUnique (pass run a).0.archive.db.rows
unfolding pass
pass-Walked run a u =
    let vec = vector a.db in
    let s : Pass = record { archive = a; stats = no_stats; batches = 0 } in
    let walk =
      pass_origins-Walked run vec (extraction_marks a.marks extraction_version) (sorted_origins vec)
        s u (NoRepeat-vector a.db) (start-Known a (sorted_origins vec)) in
    (walk, Walked-IsUnique run.opener a _ walk u)

-- A walk that finds every mark on its origin's highest number does nothing.
pass_origins_idle :
    (run : Run) (vec marks : VersionVector) (os : List String) (s : Pass)
    → ((o : String) → seq_at vec o ≤ seq_at marks o)
    → pass_origins run vec marks os s ≡ (s, none)
unfolding pass_origins then_pass pass_loop
pass_origins_idle run vec marks [] s h = refl
pass_origins_idle run vec marks (o ∷ os) s h =
    ap (then_pass (pass_origins run vec marks os)) (idle (seq_at vec o) (seq_at vec o) (h o))
    ∙ pass_origins_idle run vec marks os s h
  where
    idle :
        (fuel high : ℕ)
        → high ≤ seq_at marks o
        → pass_loop fuel run o high (seq_at marks o) s ≡ (s, none)
    idle zero high le = refl
    idle (suc fuel) high le =
        let past : ltb (seq_at marks o) high ≡ false = ground (arith, le) in
        rw (pass_loop, past) refl

held_below : (rows : List Row) (w : Row) → In w rows → w.seq ≤ max_seq rows w.origin_id
unfolding max_seq
held_below [] w i = absurd i
held_below (v ∷ rows) w (inl e) = rw e (ground (arith, str_eq_refl v.origin_id))
held_below (v ∷ rows) w (inr i) = ground (arith, held_below rows w i)

pass_ends :
    (run : Run) (a : Archive)
    → IsUnique a.db.rows
    → 0 < run.batch
    → ((i : ℕ) → run.cancelled i ≡ false)
    → ((pass run a).1 ≡ none) × ((o : String) → max_seq a.db.rows o ≤ mark (pass run a).0.archive o)
unfolding pass
pass_ends run a u p c =
    let vec = vector a.db in
    let s : Pass = record { archive = a; stats = no_stats; batches = 0 } in
    let marks = extraction_marks a.marks extraction_version in
    let b = (pass_origins run vec marks (sorted_origins vec) s).0.archive in
    let top : (o : String) → seq_at vec o ≡ max_seq a.db.rows o =
      (λ o. (vector-max_seq a.db o).0) in
    let ends =
      pass_origins_ends run vec marks (sorted_origins vec) s u (NoRepeat-vector a.db)
        (start-Known a (sorted_origins vec)) (λ o. omega (arith, top o)) p c in
    (
      ends.0,
      (λ o. elim (origin_walked vec o) [
        | inl q ↦ omega (arith, top o, q)
        | inr i ↦
            let le = All-In (λ q. seq_at vec q ≤ mark b q) (sorted_origins vec) o ends.1 i in
            omega (arith, top o, le)
      ]),
    )

pass_idle :
    (run : Run) (b : Archive)
    → ((o : String) → max_seq b.db.rows o ≤ mark b o)
    → pass run b ≡ (record { archive = b; stats = no_stats; batches = 0 }, none)
unfolding pass mark
pass_idle run b h =
    pass_origins_idle run (vector b.db) (extraction_marks b.marks extraction_version)
      (sorted_origins (vector b.db)) (record { archive = b; stats = no_stats; batches = 0 })
      (λ o. omega (arith, h o, (vector-max_seq b.db o).0))

walked_to_end :
    (opener : Opener) (m n : String → ℕ) (rows : List Row)
    → ((o : String) → max_seq rows o ≤ n o)
    → map (walked opener m n) rows
      ≡ map (λ w. if ltb (m w.origin_id) w.seq then refreshed opener w else w) rows
unfolding walked
walked_to_end opener m n rows h =
    map_In _ _ rows (λ w i. ground (arith, held_below rows w i, h w.origin_id))

-- A pass that is never cancelled ends without error; it refreshes every row above its origin's
-- mark and no other, leaves every mark at or above its origin's highest number and nothing pending,
-- and a pass after it finds nothing to do.
pub pass_completes :
    (run : Run) (a : Archive)
    → IsUnique a.db.rows
    → 0 < run.batch
    → ((i : ℕ) → run.cancelled i ≡ false)
    → let b = (pass run a).0.archive in
      ((pass run a).1 ≡ none)
      × (b.db.rows
          ≡ map
              (λ w. if ltb (mark a w.origin_id) w.seq then refreshed run.opener w else w)
              a.db.rows)
      × ((o : String) → max_seq b.db.rows o ≤ mark b o)
      × (extraction_pending extraction_version b ≡ 0)
      × (pass run b ≡ (record { archive = b; stats = no_stats; batches = 0 }, none))
pass_completes run a u p c =
    let b = (pass run a).0.archive in
    let ends = pass_ends run a u p c in
    let walk : Walked run.opener a b = (pass-Walked run a u).0 in
    let reached : (o : String) → max_seq b.db.rows o ≤ mark b o =
      (λ o. omega (arith, Walked-max_seq run.opener a b o walk, ends.1 o)) in
    (
      ends.0,
      walk.0 ∙ walked_to_end run.opener (mark a) (mark b) a.db.rows ends.1,
      reached,
      extraction_pending_none extraction_version b (unfold mark in reached),
      pass_idle run b reached,
    )
