-- ===== src/Sync/Clash.antt =====
-- Records that the unique indexes of one table would not hold together.
use agentic_stats.Prelude.{
  ◌≡◌, refl, sym, ap, subst, ◌∙◌, false, List, [], ◌∷◌, ◌++◌, map, arith, String, str_eq, leb, any,
  any-append, All, inl, inr, Bool-cases, append_assoc, append-nil,
}
use agentic_stats.Store.Record.{Record, Row, to_row, of_row}
use agentic_stats.Store.Table.{conflicts, has_key, same_line, same_uuid, same_hash}
use agentic_stats.Store.Table.Unique.{IsUnique, conflicts_comm}
use agentic_stats.Store.Order.{insert_by_seq, order_by_seq, All-insert_by_seq, All-order_by_seq}
use agentic_stats.Store.Append.{malformed}
use agentic_stats.Store.Append.Fresh.{IsFresh}
use agentic_stats.Store.Query.Backlog.{records_of}

-- A row as an insert writes it: no column holds the empty text or the number 0 that stands for
-- NULL.
abbrev pub IsNormal : Row → Type 0
IsNormal w = w ≡ to_row (of_row w) w.received_at

abbrev pub Apart : Record → Record → Type 0
Apart r q = conflicts (to_row r "") (to_row q "") ≡ false

abbrev pub AllApart : List Record → Type 0
AllApart [] = Unit
AllApart (r ∷ l) = All (Apart r) l × AllApart l

-- Neither the test of a row nor that against it looks at the times.
conflicts_now :
    (r q : Record) (now later : String)
    → conflicts (to_row r now) (to_row q later) ≡ conflicts (to_row r "") (to_row q "")
unfolding conflicts has_key same_line same_uuid same_hash to_row
conflicts_now r q now later = refl

any-conflicts_now :
    (rows : List Row) (r : Record) (now : String)
    → any (conflicts (to_row r now)) rows ≡ any (conflicts (to_row r "")) rows
unfolding conflicts has_key same_line same_uuid same_hash to_row
any-conflicts_now rows r now = refl

-- A normal row may be read back for the test.
pub conflicts-to_row :
    (r : Record) (v : Row)
    → IsNormal v
    → conflicts (to_row r "") v ≡ conflicts (to_row r "") (to_row (of_row v) "")
conflicts-to_row r v n =
    ap (conflicts (to_row r "")) n ∙ conflicts_now r (of_row v) "" v.received_at

pub Apart-comm : (r q : Record) → Apart r q → Apart q r
Apart-comm r q h = conflicts_comm (to_row q "") (to_row r "") ∙ h

-- Records that are apart from the rows of a table and from one another can go in one by one.
pub record Fits (rows : List Row) (recs : List Record) : Type 0 where
  pub formed : All (λ r. malformed r ≡ false) recs
  pub free : All (λ r. any (conflicts (to_row r "")) rows ≡ false) recs
  pub apart : AllApart recs

free_snoc :
    (rows : List Row) (r : Record) (now : String) (recs : List Record)
    → All (λ q. any (conflicts (to_row q "")) rows ≡ false) recs
    → All (Apart r) recs
    → All (λ q. any (conflicts (to_row q "")) (rows ++ to_row r now ∷ []) ≡ false) recs
free_snoc rows r now [] f a = tt
free_snoc rows r now (q ∷ recs) f a = (
  ground (
    arith,
    any-append (conflicts (to_row q "")) rows (to_row r now ∷ []),
    conflicts_now q r "" now,
    Apart-comm r q a.0,
    f.0,
  ),
  free_snoc rows r now recs f.1 a.1,
)

Fits-tail :
    (rows : List Row) (r : Record) (now : String) (recs : List Record)
    → Fits rows (r ∷ recs)
    → Fits (rows ++ to_row r now ∷ []) recs
Fits-tail rows r now recs f = record {
  formed = f.formed.1;
  free = free_snoc rows r now recs f.free.1 f.apart.0;
  apart = f.apart.1;
}

pub IsFresh-of_Fits :
    (now : String) (rows : List Row) (recs more : List Record)
    → Fits rows (recs ++ more)
    → IsFresh now rows recs
IsFresh-of_Fits now rows [] more f = tt
IsFresh-of_Fits now rows (r ∷ recs) more f = (
  f.formed.0,
  any-conflicts_now rows r now ∙ f.free.0,
  IsFresh-of_Fits now (rows ++ to_row r now ∷ []) recs more (Fits-tail rows r now (recs ++ more) f),
)

-- What is left of the records fits the table with the first part in it.
pub Fits-drop :
    (now : String) (rows : List Row) (recs more : List Record)
    → Fits rows (recs ++ more)
    → Fits (rows ++ map (λ r. to_row r now) recs) more
Fits-drop now rows [] more f = rw append-nil f
Fits-drop now rows (r ∷ recs) more f =
    subst (λ x. Fits x more) (append_assoc rows (to_row r now ∷ []) (map (λ q. to_row q now) recs))
      (Fits-drop now (rows ++ to_row r now ∷ []) recs more (Fits-tail rows r now (recs ++ more) f))

-- The sort keeps records apart.
AllApart-insert :
    (r : Record) (l : List Record) → All (Apart r) l → AllApart l → AllApart (insert_by_seq r l)
unfolding insert_by_seq
AllApart-insert r [] h a = (tt, tt)
AllApart-insert r (q ∷ l) h a = elim (Bool-cases (leb r.seq q.seq)) [
  | inl e ↦ rw e (h, a)
  | inr e ↦
      rw e (All-insert_by_seq (Apart q) r l (Apart-comm r q h.0) a.0, AllApart-insert r l h.1 a.1)
]

pub AllApart-order : (l : List Record) → AllApart l → AllApart (order_by_seq l)
unfolding order_by_seq
AllApart-order [] a = tt
AllApart-order (r ∷ l) a =
    AllApart-insert r (order_by_seq l) (All-order_by_seq (Apart r) l a.0) (AllApart-order l a.1)

-- The records of a table are apart.
Apart-of_rows :
    (w : Row) (rows : List Row) (origin : String)
    → IsNormal w
    → All IsNormal rows
    → any (conflicts w) rows ≡ false
    → All (Apart (of_row w)) (records_of rows origin)
unfolding records_of
Apart-of_rows w [] origin n ns c = tt
Apart-of_rows w (v ∷ rows) origin n ns c = elim (Bool-cases (str_eq v.origin_id origin)) [
  | inl e ↦ rw e (
    sym (conflicts_now (of_row w) (of_row v) w.received_at v.received_at)
        ∙ ap (λ x. conflicts x (to_row (of_row v) v.received_at)) (sym n)
        ∙ ap (conflicts w) (sym ns.0)
        ∙ ground arith,
    Apart-of_rows w rows origin n ns.1 (ground arith),
  )
  | inr e ↦ rw e (Apart-of_rows w rows origin n ns.1 (ground arith))
]

pub records_of-AllApart :
    (rows : List Row) (origin : String)
    → IsUnique rows
    → All IsNormal rows
    → AllApart (records_of rows origin)
unfolding records_of
records_of-AllApart [] origin u n = tt
records_of-AllApart (w ∷ rows) origin u n = elim (Bool-cases (str_eq w.origin_id origin)) [
  | inl e ↦ rw e (Apart-of_rows w rows origin n.0 n.1 u.0, records_of-AllApart rows origin u.1 n.1)
  | inr e ↦ rw e (records_of-AllApart rows origin u.1 n.1)
]
