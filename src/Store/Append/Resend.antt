-- ===== src/Store/Append/Resend.antt =====
-- The collector may hand in a line more than once. What AppendLocal makes of that.
use native.Mathlib.Nat.{add-zero, zero-add}
use agentic_stats.Prelude.{
  ℕ, suc, ◌+◌, ◌≡◌, ◌≢◌, refl, sym, subst, true, false, ◌⊎◌, Option, none, List, [], ◌∷◌, ◌++◌,
  arith, String, false, eq_iff, str_eq_refl, inl, inr, length, any, any-append, All, ap, ◌∙◌,
  or_true,
}
use agentic_stats.Store.Record.{Record, Row, nullable, to_row}
use agentic_stats.Store.Table.{
  conflicts, same_line, same_uuid, same_hash, exec_insert, max_seq, IsDense,
}
use agentic_stats.Store.Table.Keys.{max_seq-snoc, exec_insert_cases, any-conflicts, next_free}
use agentic_stats.Store.Append.{
  Db, Tx, AppendResult, AppendError, nothing_done, begin, in_tx, next_seq, local_step, local_loop,
  append_local,
}
use agentic_stats.Store.Append.Local.{Numbered, local_step-Numbered, begin-Numbered}

-- A line that the unique indexes can recognise: it has no uuid, or a session beside it.
abbrev pub HasIdentity : Record → Type 0
HasIdentity r = (r.line_uuid ≡ "") ⊎ (r.session_id ≢ "")

-- A row holds the line, whatever its number and its time of arrival.
abbrev pub IsArchived : List Row → String → Record → Type 0
IsArchived rows origin r =
    any (same_line (to_row (record r { origin_id = origin; seq = 0 }) "")) rows ≡ true

same_line_self :
    (r : Record) (origin : String) (k : ℕ) (now : String)
    → HasIdentity r
    → same_line
        (to_row (record r { origin_id = origin; seq = 0 }) "")
        (to_row (record r { origin_id = origin; seq = k }) now)
      ≡ true
unfolding same_line same_uuid same_hash to_row nullable
same_line_self r origin k now h = ground (
  arith,
  eq_iff r.line_uuid "",
  eq_iff r.session_id "",
  str_eq_refl origin,
  str_eq_refl r.line_uuid,
  str_eq_refl r.session_id,
  str_eq_refl r.source,
  str_eq_refl r.path,
  str_eq_refl r.content_hash,
)

IsArchived-snoc :
    (rows : List Row) (w : Row) (origin : String) (r : Record)
    → IsArchived rows origin r
    → IsArchived (rows ++ w ∷ []) origin r
IsArchived-snoc rows w origin r h = rw (any-append _ rows (w ∷ []), h)

-- The test of an insert does not depend on the number or the time in the new row.
any-same_line-to_row :
    (rows : List Row) (origin : String) (r : Record) (k : ℕ) (now : String)
    → any (same_line (to_row (record r { origin_id = origin; seq = k }) now)) rows
      ≡ any (same_line (to_row (record r { origin_id = origin; seq = 0 }) "")) rows
unfolding same_line same_uuid same_hash to_row
any-same_line-to_row rows origin r k now = refl

-- At the next free number, only the line itself can stand in the way of a row.
refused_by_line :
    (rows : List Row) (origin now : String) (next : ℕ) (r : Record)
    → next ≡ max_seq rows origin + 1
    → any (conflicts (to_row (record r { origin_id = origin; seq = next }) now)) rows ≡ true
    → IsArchived rows origin r
unfolding to_row
refused_by_line rows origin now next r e c = ground (
  arith,
  any-conflicts rows (to_row (record r { origin_id = origin; seq = next }) now),
  any-same_line-to_row rows origin r next now,
  next_free rows origin,
)

line_refuses :
    (rows : List Row) (origin now : String) (next : ℕ) (r : Record)
    → IsArchived rows origin r
    → any (conflicts (to_row (record r { origin_id = origin; seq = next }) now)) rows ≡ true
unfolding to_row
line_refuses rows origin now next r h = ground (
  arith,
  any-conflicts rows (to_row (record r { origin_id = origin; seq = next }) now),
  any-same_line-to_row rows origin r next now,
)

module _ (origin now : String) where
  local_step-IsArchived :
      (start : List Row) (rounds : ℕ) (s : ℕ × Tx) (r : Record)
      → Numbered origin start rounds s
      → HasIdentity r
      → IsArchived (local_step origin now s r).1.rows origin r
  unfolding local_step
  local_step-IsArchived start rounds (next, t) r h i =
      elim (exec_insert_cases t.rows (record r { origin_id = origin; seq = next }) now) [
        | inl (e, c) ↦ rw (e, local_step) (refused_by_line t.rows origin now next r h.next c)
        | inr (e, _) ↦
            rw (e, local_step)
              (rw
                (
                  any-append (same_line (to_row (record r { origin_id = origin; seq = 0 }) ""))
                      t.rows _,
                  same_line_self r origin next now i,
                )
                (or_true _))
      ]

  local_step-keeps :
      (s : ℕ × Tx) (r q : Record)
      → IsArchived s.1.rows origin q
      → IsArchived (local_step origin now s r).1.rows origin q
  unfolding local_step
  local_step-keeps (next, t) r q h =
      elim (exec_insert_cases t.rows (record r { origin_id = origin; seq = next }) now) [
        | inl (e, _) ↦ rw (e, local_step) h
        | inr (e, _) ↦ rw (e, local_step) (IsArchived-snoc t.rows _ origin q h)
      ]

  local_loop-keeps :
      (s : ℕ × Tx) (recs : List Record) (q : Record)
      → IsArchived s.1.rows origin q
      → IsArchived (local_loop origin now s recs).1.rows origin q
  unfolding local_loop
  local_loop-keeps s [] q h = h
  local_loop-keeps s (r ∷ recs) q h =
      local_loop-keeps (local_step origin now s r) recs q (local_step-keeps s r q h)

  local_loop-IsArchived :
      (start : List Row) (rounds : ℕ) (s : ℕ × Tx) (recs : List Record)
      → Numbered origin start rounds s
      → All HasIdentity recs
      → All (IsArchived (local_loop origin now s recs).1.rows origin) recs
  unfolding local_loop
  local_loop-IsArchived start rounds s [] h i = tt
  local_loop-IsArchived start rounds s (r ∷ recs) h i = (
    local_loop-keeps (local_step origin now s r) recs r
        (local_step-IsArchived start rounds s r h i.0),
    local_loop-IsArchived start (suc rounds) (local_step origin now s r) recs
        (local_step-Numbered origin now start rounds s r h) i.1,
  )

  -- A batch that is archived already only moves the count of duplicates.
  local_loop_again :
      (next : ℕ) (t : Tx) (recs : List Record)
      → All (IsArchived t.rows origin) recs
      → local_loop origin now (next, t) recs
        ≡ (next, record t { out = record (t.out) { duplicates = t.out.duplicates + length recs } })
  unfolding local_loop local_step exec_insert
  local_loop_again next t [] h = rw add-zero
  local_loop_again next t (r ∷ recs) h = rw (line_refuses t.rows origin now next r h.0) (
      local_loop_again next
        (record t { out = record (t.out) { duplicates = t.out.duplicates + 1 } }) recs h.1
      ∙ ap (λ (d : ℕ). (next, record t { out = record (t.out) { duplicates = d } })) (omega arith))

-- A batch whose lines are all in the archive changes nothing and is counted as duplicates only.
pub append_local_archived :
    (db : Db) (later : String) (recs : List Record)
    → All (IsArchived db.rows db.origin) recs
    → append_local db later recs ≡ (db, record nothing_done { duplicates = length recs }, none)
unfolding append_local in_tx
append_local_archived db later [] a = refl
append_local_archived db later (r ∷ recs) a =
    ap (λ (x : ℕ × Tx). in_tx db (x.1, none))
      (local_loop_again db.origin later (next_seq db.rows db.origin) (begin db) (r ∷ recs) a)
    ∙ ap
        (λ (n : ℕ).
          let z : Db × AppendResult × Option AppendError =
            (db, record nothing_done { duplicates = n }, none) in
          z)
        (zero-add (length (r ∷ recs)))

pub append_local-IsArchived :
    (db : Db) (now : String) (recs : List Record)
    → IsDense db.rows db.origin
    → All HasIdentity recs
    → All (IsArchived (append_local db now recs).0.rows db.origin) recs
unfolding append_local in_tx
append_local-IsArchived db now [] d i = tt
append_local-IsArchived db now (r ∷ recs) d i =
    local_loop-IsArchived db.origin now db.rows 0 (next_seq db.rows db.origin, begin db) (r ∷ recs)
      (begin-Numbered db d) i

pub append_local_origin :
    (db : Db) (now : String) (recs : List Record) → (append_local db now recs).0.origin ≡ db.origin
unfolding append_local in_tx
append_local_origin db now [] = refl
append_local_origin db now (r ∷ recs) = refl

-- Every line of a batch is in the archive afterwards, and the same batch handed in again, at
-- whatever time, changes nothing there and is counted as duplicates only. It holds for lines that
-- have no uuid or a session beside it, and a node whose numbers have no gap.
pub append_local_again :
    (db : Db) (now later : String) (recs : List Record)
    → IsDense db.rows db.origin
    → All HasIdentity recs
    → let db' = (append_local db now recs).0 in
      All (IsArchived db'.rows db.origin) recs
      × (append_local db' later recs
          ≡ (db', record nothing_done { duplicates = length recs }, none))
append_local_again db now later recs d i =
    let a = append_local-IsArchived db now recs d i in
    let db' = (append_local db now recs).0 in
    (
      a,
      append_local_archived db' later recs
          (subst (λ o. All (IsArchived db'.rows o) recs) (sym (append_local_origin db now recs)) a),
    )

unrecognised :
    (rows : List Row) (origin now : String) (k : ℕ) (r : Record)
    → r.line_uuid ≢ ""
    → r.session_id ≡ ""
    → any (same_line (to_row (record r { origin_id = origin; seq = k }) now)) rows ≡ false
unfolding same_line same_uuid same_hash to_row nullable
unrecognised [] origin now k r u s = refl
unrecognised (v ∷ rows) origin now k r u s =
    ground
      (arith, eq_iff r.line_uuid "", eq_iff r.session_id "", unrecognised rows origin now k r u s)

-- The row that a line gets under the next free number.
abbrev pub next_row : Db → String → Record → Row
next_row db now r =
    to_row (record r { origin_id = db.origin; seq = next_seq db.rows db.origin }) now

next_row-free :
    (db : Db) (now : String) (r : Record)
    → r.line_uuid ≢ ""
    → r.session_id ≡ ""
    → any (conflicts (next_row db now r)) db.rows ≡ false
unfolding next_seq to_row
next_row-free db now r u s = ground (
  arith,
  any-conflicts db.rows
      (to_row (record r { origin_id = db.origin; seq = next_seq db.rows db.origin }) now),
  next_free db.rows db.origin,
  unrecognised db.rows db.origin now (next_seq db.rows db.origin) r u s,
)

-- One row is added, and counted as stored.
abbrev pub Adds : Db → Row → Db × AppendResult × Option AppendError → Type 0
Adds db w (after, out, e) =
    (after.rows ≡ db.rows ++ w ∷ []) × (after.origin ≡ db.origin) × (out.stored ≡ 1) × (e ≡ none)

stored_unrecognised :
    (db : Db) (now : String) (r : Record)
    → r.line_uuid ≢ ""
    → r.session_id ≡ ""
    → Adds db (next_row db now r) (append_local db now (r ∷ []))
unfolding append_local local_loop local_step in_tx exec_insert
stored_unrecognised db now r u s = rw (next_row-free db now r u s) (refl, refl, refl, refl)

next_number :
    (db after : Db) (now : String) (r : Record)
    → after.rows ≡ db.rows ++ next_row db now r ∷ []
    → after.origin ≡ db.origin
    → next_seq after.rows after.origin ≡ next_seq db.rows db.origin + 1
unfolding next_seq to_row
next_number db after now r e o =
    let m = max_seq-snoc db.rows (next_row db now r) db.origin in
    rw (e, o, m, str_eq_refl db.origin) (omega arith)

-- A line with a uuid and no session escapes both indexes: a node stores it under the next free
-- number, and when it is handed in again, at whatever time, adds a second row with it under a
-- higher number; both calls count it as stored.
pub append_local_stores_twice :
    (db : Db) (now later : String) (r : Record)
    → r.line_uuid ≢ ""
    → r.session_id ≡ ""
    → let once = append_local db now (r ∷ []) in
      let twice = append_local once.0 later (r ∷ []) in
      Adds db (next_row db now r) once
      × Adds once.0 (next_row once.0 later r) twice
      × ((next_row once.0 later r).seq ≡ (next_row db now r).seq + 1)
append_local_stores_twice db now later r u s =
    let once = stored_unrecognised db now r u s in
    (
      once,
      stored_unrecognised (append_local db now (r ∷ [])).0 later r u s,
      unfold to_row in (next_number db (append_local db now (r ∷ [])).0 now r once.0 once.1),
    )
