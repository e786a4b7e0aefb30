-- ===== src/Store/Query/Backlog.antt =====
-- What `Since` walks: the records of an origin above a number, in order and each once.
use agentic_stats.Prelude.{
  ℕ, ◌≤◌, ◌≡◌, refl, sym, ap, ◌∙◌, true, false, ◌&&◌, List, [], ◌∷◌, map, arith, String, str_eq,
  eq_iff, ltb, take, drop, select, any, All, inl, inr, Bool-cases,
}
use agentic_stats.Store.Record.{Record, Row, of_row}
use agentic_stats.Store.Table.{has_key, conflicts}
use agentic_stats.Store.Table.Unique.{IsUnique}
use agentic_stats.Store.Order.{
  order_by_seq, IsAscending, IsDistinct, Differs, Above, order_by_seq-IsAscending,
  select-order_by_seq, select-Above, IsDistinct-select, last_seq, select_after_take, select-select,
  last_seq-ge,
}
use agentic_stats.Store.Query.{backlog}

-- The records of an origin, in the order of the table, and by number.
unfoldable pub records_of : List Row → String → List Record
records_of rows origin = map of_row (select (λ w. str_eq w.origin_id origin) rows)

unfoldable pub ordered : List Row → String → List Record
ordered rows origin = order_by_seq (records_of rows origin)

Differs-of_unique :
    (w : Row) (rows : List Row) (origin : String)
    → str_eq w.origin_id origin ≡ true
    → any (conflicts w) rows ≡ false
    → All (Differs (of_row w)) (records_of rows origin)
unfolding records_of of_row conflicts has_key
Differs-of_unique w [] origin e h = tt
Differs-of_unique w (v ∷ rows) origin e h = elim (Bool-cases (str_eq v.origin_id origin)) [
  | inl f ↦ rw f (
    ground (
      arith,
      eq_iff w.origin_id origin,
      eq_iff v.origin_id origin,
      eq_iff v.origin_id w.origin_id,
    ),
    Differs-of_unique w rows origin e (ground arith),
  )
  | inr f ↦ rw f (Differs-of_unique w rows origin e (ground arith))
]

pub records_of-IsDistinct :
    (rows : List Row) (origin : String) → IsUnique rows → IsDistinct (records_of rows origin)
unfolding records_of
records_of-IsDistinct [] origin u = tt
records_of-IsDistinct (w ∷ rows) origin u = elim (Bool-cases (str_eq w.origin_id origin)) [
  | inl e ↦ rw e (Differs-of_unique w rows origin e u.0, records_of-IsDistinct rows origin u.1)
  | inr e ↦ rw e (records_of-IsDistinct rows origin u.1)
]

where_and :
    (rows : List Row) (origin : String) (after : ℕ)
    → map of_row (select (λ w. str_eq w.origin_id origin && ltb after w.seq) rows)
      ≡ select (λ r. ltb after r.seq) (records_of rows origin)
unfolding records_of of_row
where_and [] origin after = refl
where_and (w ∷ rows) origin after = ground (arith, where_and rows origin after)

pub backlog_lem :
    (rows : List Row) (origin : String) (after : ℕ)
    → IsUnique rows
    → backlog rows origin after ≡ select (λ r. ltb after r.seq) (ordered rows origin)
unfolding backlog ordered
backlog_lem rows origin after u =
    ap order_by_seq (where_and rows origin after)
    ∙ sym (
        select-order_by_seq (λ r. ltb after r.seq) (records_of rows origin)
          (records_of-IsDistinct rows origin u))

pub ordered-IsAscending :
    (rows : List Row) (origin : String) → IsUnique rows → IsAscending (ordered rows origin)
unfolding ordered
ordered-IsAscending rows origin u = order_by_seq-IsAscending _ (records_of-IsDistinct rows origin u)

pub backlog-IsAscending :
    (rows : List Row) (origin : String) (after : ℕ)
    → IsUnique rows
    → IsAscending (backlog rows origin after)
unfolding backlog
backlog-IsAscending rows origin after u =
    rw (where_and rows origin after)
      (order_by_seq-IsAscending _ (IsDistinct-select _ _ (records_of-IsDistinct rows origin u)))

pub backlog-Above :
    (rows : List Row) (origin : String) (after : ℕ)
    → IsUnique rows
    → All (Above after) (backlog rows origin after)
backlog-Above rows origin after u =
    rw (backlog_lem rows origin after u) (select-Above after (ordered rows origin))

-- After a batch the walk goes on with exactly what the batch left.
pub backlog_after_take :
    (rows : List Row) (origin : String) (after n : ℕ)
    → IsUnique rows
    → backlog rows origin (last_seq (take n (backlog rows origin after)) after)
      ≡ drop n (backlog rows origin after)
backlog_after_take rows origin after n u =
    let l = backlog rows origin after in
    let z = last_seq (take n l) after in
    let up : after ≤ z =
      last_seq-ge n l after (backlog-Above rows origin after u)
        (backlog-IsAscending rows origin after u) in
    backlog_lem rows origin z u
    ∙ sym (select-select after z (ordered rows origin) up)
    ∙ ap (select (λ r. ltb z r.seq)) (sym (backlog_lem rows origin after u))
    ∙ select_after_take n l after (backlog-Above rows origin after u)
        (backlog-IsAscending rows origin after u)
