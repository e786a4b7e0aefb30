-- ===== src/Store/Append/Fresh.antt =====
-- A batch that meets no row on its way is stored whole and in order.
use agentic_stats.Prelude.{
  ℕ, ◌+◌, ◌≡◌, refl, ◌∙◌, false, Option, none, some, List, [], ◌∷◌, ◌++◌, map, arith, String,
  length, any, append_assoc, append-nil,
}
use agentic_stats.Store.Record.{Record, Row, to_row}
use agentic_stats.Store.Table.{conflicts, exec_insert, held, find_row}
use agentic_stats.Store.Table.Keys.{any-conflicts}
use agentic_stats.Store.Append.{
  Db, Tx, AppendError, begin, in_tx, malformed, remote_step, remote_loop, append_remote,
}

-- Each record is well formed and meets neither a row of the table nor one that went in before it.
abbrev pub IsFresh : String → List Row → List Record → Type 0
IsFresh now rows [] = Unit
IsFresh now rows (r ∷ recs) =
    (malformed r ≡ false)
    × (any (conflicts (to_row r now)) rows ≡ false)
    × IsFresh now (rows ++ to_row r now ∷ []) recs

find_row_free :
    (rows : List Row) (origin : String) (k : ℕ)
    → held rows origin k ≡ false
    → find_row rows origin k ≡ none
unfolding held find_row
find_row_free [] origin k h = refl
find_row_free (w ∷ rows) origin k h = ground (arith, find_row_free rows origin k)

key_free :
    (rows : List Row) (r : Record) (now : String)
    → any (conflicts (to_row r now)) rows ≡ false
    → find_row rows r.origin_id r.seq ≡ none
unfolding to_row
key_free rows r now c =
    find_row_free rows r.origin_id r.seq (ground (arith, any-conflicts rows (to_row r now)))

stores :
    (now : String) (t : Tx) (r : Record)
    → any (conflicts (to_row r now)) t.rows ≡ false
    → ((remote_step now t r).rows ≡ t.rows ++ to_row r now ∷ [])
      × ((remote_step now t r).out.stored ≡ t.out.stored + 1)
      × ((remote_step now t r).quarantine ≡ t.quarantine)
unfolding remote_step exec_insert
stores now t r c = rw (key_free t.rows r now c, remote_step, c) (refl, refl, refl)

loop_fresh :
    (now : String) (t : Tx) (recs : List Record)
    → IsFresh now t.rows recs
    → let (u, e) = remote_loop now t recs in
      (e ≡ none)
      × (u.rows ≡ t.rows ++ map (λ r. to_row r now) recs)
      × (u.out.stored ≡ t.out.stored + length recs)
      × (u.quarantine ≡ t.quarantine)
unfolding remote_loop
loop_fresh now t [] f = (refl, rw append-nil, omega arith, refl)
loop_fresh now t (r ∷ recs) f =
    let (rows, n, q) = stores now t r f.1 in
    let (e, all, count, same) = loop_fresh now (remote_step now t r) recs (rw rows f.2) in
    rw (f.0, remote_loop)
      (
        e,
        all ∙ rw rows (append_assoc t.rows (to_row r now ∷ []) _),
        omega (arith, count, n),
        same ∙ q,
      )

finished :
    (db : Db) (x : Tx × Option AppendError) (rows : List Row) (n : ℕ)
    → x.1 ≡ none
    → x.0.rows ≡ rows
    → x.0.out.stored ≡ 0 + n
    → x.0.quarantine ≡ db.quarantine
    → let (db', out, e) = in_tx db x in
      (e ≡ none) × (db' ≡ record db { rows = rows }) × (out.stored ≡ n)
unfolding in_tx
finished db (t, none) rows n e p c q = (refl, rw (p, q), omega (arith, c))
finished db (t, some x) rows n e p c q = cc

-- A batch that meets nothing is stored whole: behind the rows held before, in its order.
pub append_remote_fresh :
    (db : Db) (now : String) (recs : List Record)
    → IsFresh now db.rows recs
    → let (db', out, e) = append_remote db now recs in
      (e ≡ none)
      × (db' ≡ record db { rows = db.rows ++ map (λ r. to_row r now) recs })
      × (out.stored ≡ length recs)
unfolding append_remote in_tx
append_remote_fresh db now [] f = (refl, rw append-nil, refl)
append_remote_fresh db now (r ∷ recs) f =
    let (e, rows, n, q) = loop_fresh now (begin db) (r ∷ recs) f in
    finished db (remote_loop now (begin db) (r ∷ recs)) _ _ e rows n q
