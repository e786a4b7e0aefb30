-- ===== src/Sync/Convergence/Origin.antt =====
-- One origin: the records above the receiver's watermark fit its table, and complete it.
-- internal/mesh/sync/sync.go
use mathlib.Core.List.{map-append}
use agentic_stats.Prelude.{
  ℕ, ◌≡◌, ◌≢◌, refl, sym, ap, subst, ◌∙◌, false, List, [], ◌∷◌, ◌++◌, map, arith, String, str_eq,
  eq_iff, leb, any, select, select-append, All, All-append-right, All-zip, Bool-cases, inl, inr,
  append-nil,
}
use agentic_stats.Store.Record.{Record, Row, to_row, of_row}
use agentic_stats.Store.Table.{conflicts, has_key, same_line, same_uuid, same_hash}
use agentic_stats.Store.Table.Unique.{IsUnique}
use agentic_stats.Store.Order.{order_by_seq, Above, Upto, All-map, All-select, All-order_by_seq}
use agentic_stats.Store.Order.Merge.{order_by_seq-append, split_at, select-Upto, All-of_order}
use agentic_stats.Store.Append.{malformed}
use agentic_stats.Store.Query.{backlog}
use agentic_stats.Store.Query.Backlog.{
  records_of, ordered, backlog_lem, ordered-IsAscending, backlog-IsAscending, backlog-Above,
}
use agentic_stats.Sync.Clash.{
  IsNormal, Apart, AllApart, Fits, records_of-AllApart, AllApart-order, conflicts-to_row,
  Apart-comm,
}

abbrev pub From : String → Record → Type 0
From origin r = r.origin_id ≡ origin

records_of-From : (rows : List Row) (origin : String) → All (From origin) (records_of rows origin)
unfolding records_of of_row
records_of-From [] origin = tt
records_of-From (w ∷ rows) origin = elim (Bool-cases (str_eq w.origin_id origin)) [
  | inl e ↦ rw e ((eq_iff w.origin_id origin).0 e, records_of-From rows origin)
  | inr e ↦ rw e (records_of-From rows origin)
]

pub backlog-From :
    (rows : List Row) (origin : String) (after : ℕ)
    → IsUnique rows
    → All (From origin) (backlog rows origin after)
unfolding ordered
backlog-From rows origin after u =
    rw (backlog_lem rows origin after u) (
      All-select (From origin) _ _ (All-order_by_seq (From origin) _ (records_of-From rows origin)))

formed :
    (origin : String) (after : ℕ) (l : List Record)
    → origin ≢ ""
    → All (From origin) l
    → All (Above after) l
    → All (λ r. malformed r ≡ false) l
unfolding malformed
formed origin after [] o f a = tt
formed origin after (r ∷ l) o f a =
    (ground (arith, eq_iff r.origin_id "", f.0, a.0), formed origin after l o f.1 a.1)

-- A row of another origin stands in nobody's way.
conflicts_other :
    (r : Record) (v : Row)
    → str_eq v.origin_id r.origin_id ≡ false
    → conflicts (to_row r "") v ≡ false
unfolding conflicts has_key same_line same_uuid same_hash to_row
conflicts_other r v e =
    ground (arith, eq_iff v.origin_id r.origin_id, eq_iff r.origin_id v.origin_id)

free_of_Apart :
    (rows : List Row) (r : Record)
    → All IsNormal rows
    → All (Apart r) (records_of rows r.origin_id)
    → any (conflicts (to_row r "")) rows ≡ false
unfolding records_of
free_of_Apart [] r n = λ a. refl
free_of_Apart (v ∷ rows) r n = elim (Bool-cases (str_eq v.origin_id r.origin_id)) [
  | inl e ↦ rw e (λ a. ground (arith, conflicts-to_row r v n.0, a.0, free_of_Apart rows r n.1 a.1))
  | inr e ↦ rw e (λ a. ground (arith, conflicts_other r v e, free_of_Apart rows r n.1 a))
]

cross :
    (xs ys : List Record)
    → AllApart (xs ++ ys)
    → All (λ y. All (λ x. Apart x y) xs) ys × AllApart ys
cross [] ys a = (all_tt ys, a)
  where
    all_tt : (zs : List Record) → All (λ y. Unit {0}) zs
    all_tt [] = tt
    all_tt (z ∷ zs) = (tt, all_tt zs)
cross (x ∷ xs) ys a =
    let (c, d) = cross xs ys a.1 in
    (
      All-zip (Apart x) (λ y. All (λ z. Apart z y) xs) ys (All-append-right (Apart x) xs ys a.0) c,
      d,
    )

pub held_and_missing :
    (rows : List Row) (origin : String) (after : ℕ)
    → IsUnique rows
    → select (λ r. leb r.seq after) (ordered rows origin) ++ backlog rows origin after
      ≡ ordered rows origin
held_and_missing rows origin after u =
    ap (λ x. select (λ r. leb r.seq after) (ordered rows origin) ++ x)
      (backlog_lem rows origin after u)
    ∙ split_at after (ordered rows origin) (ordered-IsAscending rows origin u)

module _ (send_rows : List Row) (origin : String) (after : ℕ) (unique : IsUnique send_rows)
    (normal : All IsNormal send_rows) where
  ordered-AllApart : AllApart (ordered send_rows origin)
  unfolding ordered
  ordered-AllApart = AllApart-order _ (records_of-AllApart send_rows origin unique normal)

  free :
      (rows : List Row) (l : List Record)
      → All IsNormal rows
      → All (From origin) l
      → All (λ y. All (λ x. Apart x y) (records_of rows origin)) l
      → All (λ r. any (conflicts (to_row r "")) rows ≡ false) l
  free rows [] n f a = tt
  free rows (r ∷ l) n f a = (
    free_of_Apart rows r n (
        subst (λ o. All (Apart r) (records_of rows o)) (sym f.0)
          (All-map (λ x. Apart x r) (Apart r) (λ x h. Apart-comm x r h) (records_of rows origin)
            a.0)),
    free rows l n f.1 a.1,
  )

  unordered :
      (rows : List Row) (l : List Record)
      → All (λ y. All (λ x. Apart x y) (ordered rows origin)) l
      → All (λ y. All (λ x. Apart x y) (records_of rows origin)) l
  unfolding ordered
  unordered rows [] a = tt
  unordered rows (r ∷ l) a =
      (All-of_order (λ x. Apart x r) (records_of rows origin) a.0, unordered rows l a.1)

  -- What the sender holds above the watermark fits a table that holds what it holds up to there.
  pub backlog-Fits :
      (rows : List Row)
      → origin ≢ ""
      → All IsNormal rows
      → ordered rows origin ≡ select (λ r. leb r.seq after) (ordered send_rows origin)
      → Fits rows (backlog send_rows origin after)
  backlog-Fits rows o n same =
      let l = backlog send_rows origin after in
      let from : All (From origin) l = backlog-From send_rows origin after unique in
      let (c, apart) =
        cross (select (λ r. leb r.seq after) (ordered send_rows origin)) l (
          subst AllApart (sym (held_and_missing send_rows origin after unique)) ordered-AllApart) in
      record {
        formed = formed origin after l o from (backlog-Above send_rows origin after unique);
        free = free rows l n from (
            unordered rows l
              (subst (λ (x : List Record). All (λ y. All (λ z. Apart z y) x) l) (sym same) c));
        apart = apart;
      }

sent_above :
    (ws : List Row) (origin : String)
    → All (From origin) (map of_row ws)
    → records_of ws origin ≡ map of_row ws
unfolding records_of of_row
sent_above [] origin f = refl
sent_above (w ∷ ws) origin f = rw ((eq_iff w.origin_id origin).1 f.0, sent_above ws origin f.1)

records_of_other :
    (ws : List Row) (origin other : String)
    → origin ≢ other
    → All (From origin) (map of_row ws)
    → records_of ws other ≡ []
unfolding records_of of_row
records_of_other [] origin other d f = refl
records_of_other (w ∷ ws) origin other d f =
    ground (arith, eq_iff w.origin_id other, f.0, records_of_other ws origin other d f.1)

records_of-append :
    (rows ws : List Row) (origin : String)
    → records_of (rows ++ ws) origin ≡ records_of rows origin ++ records_of ws origin
unfolding records_of
records_of-append rows ws origin =
    ap (map of_row) (select-append (λ w. str_eq w.origin_id origin) rows ws) ∙ map-append of_row _ _

-- With the missing records behind its own, the receiver holds what the sender holds.
pub ordered_complete :
    (send_rows rows ws : List Row) (origin : String) (after : ℕ)
    → IsUnique send_rows
    → ordered rows origin ≡ select (λ r. leb r.seq after) (ordered send_rows origin)
    → map of_row ws ≡ backlog send_rows origin after
    → ordered (rows ++ ws) origin ≡ ordered send_rows origin
unfolding ordered
ordered_complete send_rows rows ws origin after u same content =
    let l = backlog send_rows origin after in
    let from : All (From origin) l = backlog-From send_rows origin after u in
    let gained : records_of ws origin ≡ l =
      sent_above ws origin (subst (All (From origin)) (sym content) from) ∙ content in
    let low : All (Upto after) (records_of rows origin) =
      All-of_order (Upto after) (records_of rows origin)
        (subst (All (Upto after)) (sym same) (select-Upto after (ordered send_rows origin))) in
    ap order_by_seq
      (records_of-append rows ws origin ∙ ap (λ x. records_of rows origin ++ x) gained)
    ∙ order_by_seq-append (records_of rows origin) l after low
        (backlog-Above send_rows origin after u) (backlog-IsAscending send_rows origin after u)
    ∙ ap (λ x. x ++ l) same
    ∙ held_and_missing send_rows origin after u

pub records_of_kept :
    (rows ws : List Row) (origin other : String)
    → origin ≢ other
    → All (From origin) (map of_row ws)
    → records_of (rows ++ ws) other ≡ records_of rows other
records_of_kept rows ws origin other d f =
    records_of-append rows ws other
    ∙ ap (λ x. records_of rows other ++ x) (records_of_other ws origin other d f)
    ∙ append-nil (records_of rows other)
