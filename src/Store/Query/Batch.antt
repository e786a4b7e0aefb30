-- ===== src/Store/Query/Batch.antt =====
-- Which rows a batch of `Since` has. internal/store/records.go
use agentic_stats.Prelude.{
  ℕ, zero, suc, ◌≤◌, ◌<◌, ◌≡◌, ◌⊎◌, refl, sym, ap, subst, ◌∙◌, Bool, true, false, ◌&&◌, ◌||◌, List,
  [], ◌∷◌, map, arith, String, str_eq, str_eq_refl, eq_iff, leb, ltb, ◌==◌, take, select, any, All,
  All-take, inl, inr, Bool-cases, is_empty, In, any-In,
}
use agentic_stats.Store.Record.{Record, Row, of_row}
use agentic_stats.Store.Table.{has_key, held, max_seq, conflicts}
use agentic_stats.Store.Table.Unique.{IsUnique}
use agentic_stats.Store.Order.{IsAscending, Above, All-order_by_seq, last_seq}
use agentic_stats.Store.Query.{backlog}
use agentic_stats.Store.Query.Backlog.{backlog-IsAscending, backlog-Above}
use agentic_stats.Store.Query.Dense.{numbered, held-backlog, Above-lacks}

-- Of an ascending list above d, its first n have what is not above their last.
ascending_batch :
    (n k d : ℕ) (l : List Record)
    → All (Above d) l
    → IsAscending l
    → any (numbered k) l ≡ true
    → any (numbered k) (take n l) ≡ leb k (last_seq (take n l) d)
unfolding last_seq
ascending_batch zero k d l h s m = elim (Bool-cases (leb k d)) [
  | inl e ↦ absurd (clash (any (numbered k) l) m (Above-lacks k d l h (ground arith)))
  | inr e ↦ sym e
]
  where
    clash : (b : Bool) → b ≡ true → b ≡ false → ⊥
    clash b x y = ground arith
ascending_batch (suc n) k d [] h s m = cc
ascending_batch (suc n) k d (r ∷ l) h s m = elim (Bool-cases (r.seq == k)) [
  | inl e ↦ let top = reaches n r.seq l s.0 s.1 in ground (arith, top)
  | inr e ↦ let rest = ascending_batch n k r.seq l s.0 s.1 (ground arith) in rw e rest
]
  where
    reaches :
        (n d : ℕ) (l : List Record) → All (Above d) l → IsAscending l → d ≤ last_seq (take n l) d
    reaches zero d l h s = omega arith
    reaches (suc n) d [] h s = omega arith
    reaches (suc n) d (r ∷ l) h s = omega (arith, h.0, reaches n r.seq l s.0 s.1)

held_In : (rows : List Row) (w : Row) → In w rows → held rows w.origin_id w.seq ≡ true
unfolding held has_key
held_In rows w i =
    any-In (has_key w.origin_id w.seq) rows w i (ground (arith, str_eq_refl w.origin_id))

-- A row is in a batch of its origin exactly if its number is above the mark and not above the last.
pub batch_has :
    (rows : List Row) (origin : String) (after n : ℕ) (w : Row)
    → IsUnique rows
    → In w rows
    → str_eq w.origin_id origin ≡ true
    → any (numbered w.seq) (take n (backlog rows origin after))
      ≡ (ltb after w.seq && leb w.seq (last_seq (take n (backlog rows origin after)) after))
batch_has rows origin after n w u i o =
    let above = backlog-Above rows origin after u in
    elim (Bool-cases (ltb after w.seq)) [
      | inl e ↦ rw e (
          ascending_batch n w.seq after (backlog rows origin after) above
            (backlog-IsAscending rows origin after u)
            (held-backlog rows origin after w.seq
              (subst (λ x. held rows x w.seq ≡ true) ((eq_iff w.origin_id origin).0 o)
                (held_In rows w i))
              (ground arith)))
      | inr e ↦ rw e (
          Above-lacks w.seq after (take n (backlog rows origin after))
            (All-take (Above after) n (backlog rows origin after) above) (ground arith))
    ]

-- Two rows of a table with one key are one.
same_key_row :
    (rows : List Row) (w : Row)
    → IsUnique rows
    → In w rows
    → All (λ v. v.origin_id ≡ w.origin_id → v.seq ≡ w.seq → v ≡ w) rows
unfolding conflicts has_key
same_key_row [] w u i = tt
same_key_row (x ∷ rows) w u (inl e) = ((λ a b. sym e), later rows u.0)
  where
    later :
        (rows : List Row)
        → any (conflicts x) rows ≡ false
        → All (λ v. v.origin_id ≡ w.origin_id → v.seq ≡ w.seq → v ≡ w) rows
    later [] h = tt
    later (v ∷ rows) h = (
      (λ a b.
          let p = a ∙ ap (λ (r : Row). r.origin_id) e in
          let q = b ∙ ap (λ (r : Row). r.seq) e in
          absurd (ground (arith, p, q, eq_iff v.origin_id x.origin_id))),
      later rows (ground arith),
    )
same_key_row (x ∷ rows) w u (inr i) =
    ((λ a b. absurd (clash x w rows u.0 i a b)), same_key_row rows w u.1 i)
  where
    clash :
        (x w : Row) (rows : List Row)
        → any (conflicts x) rows ≡ false
        → In w rows
        → x.origin_id ≡ w.origin_id
        → x.seq ≡ w.seq
        → ⊥
    clash x w [] h i a b = i
    clash x w (v ∷ rows) h (inl e) a b =
        let p = a ∙ ap (λ (r : Row). r.origin_id) e in
        let q = b ∙ ap (λ (r : Row). r.seq) e in
        ground (arith, p, q, eq_iff v.origin_id x.origin_id)
    clash x w (v ∷ rows) h (inr i) a b = clash x w rows (ground arith) i a b

-- What holds of the records of an origin's rows above a number holds of a batch.
batch_All :
    (P : Record → Type 0) (rows : List Row) (origin : String) (after n : ℕ)
    → All (λ v. str_eq v.origin_id origin ≡ true → P (of_row v)) rows
    → All P (take n (backlog rows origin after))
unfolding backlog
batch_All P rows origin after n h =
    All-take P n (backlog rows origin after) (All-order_by_seq P _ (go rows h))
  where
    go :
        (rows : List Row)
        → All (λ v. str_eq v.origin_id origin ≡ true → P (of_row v)) rows
        → All P (map of_row (select (λ w. str_eq w.origin_id origin && ltb after w.seq) rows))
    go [] h = tt
    go (v ∷ rows) h = elim (Bool-cases (str_eq v.origin_id origin)) [
      | inl e ↦ elim (Bool-cases (ltb after v.seq)) [
        | inl g ↦ rw (e, g) (h.0 e, go rows h.1)
        | inr g ↦ rw (e, g) (go rows h.1)
      ]
      | inr e ↦ rw e (go rows h.1)
    ]

-- The records of a batch under a row's number are that row's.
pub batch_of_row :
    (rows : List Row) (origin : String) (after n : ℕ) (w : Row)
    → IsUnique rows
    → In w rows
    → str_eq w.origin_id origin ≡ true
    → All (λ r. r.seq ≡ w.seq → r ≡ of_row w) (take n (backlog rows origin after))
unfolding of_row
batch_of_row rows origin after n w u i o =
    batch_All (λ r. r.seq ≡ w.seq → r ≡ of_row w) rows origin after n
      (go rows (same_key_row rows w u i))
  where
    go :
        (rows : List Row)
        → All (λ v. v.origin_id ≡ w.origin_id → v.seq ≡ w.seq → v ≡ w) rows
        → All
            (λ v. str_eq v.origin_id origin ≡ true → (of_row v).seq ≡ w.seq → of_row v ≡ of_row w)
            rows
    go [] h = tt
    go (v ∷ rows) h = (
      (λ e q.
          ap of_row
            (h.0 ((eq_iff v.origin_id origin).0 e ∙ sym ((eq_iff w.origin_id origin).0 o)) q)),
      go rows h.1,
    )

-- A batch has no record of another origin's row.
pub batch_misses :
    (rows : List Row) (origin : String) (after n : ℕ) (w : Row)
    → str_eq w.origin_id origin ≡ false
    → All (λ r. has_key r.origin_id r.seq w ≡ false) (take n (backlog rows origin after))
unfolding of_row has_key
batch_misses rows origin after n w o =
    batch_All (λ r. has_key r.origin_id r.seq w ≡ false) rows origin after n (go rows)
  where
    go :
        (rows : List Row)
        → All
            (λ v.
              str_eq v.origin_id origin ≡ true
              → (str_eq w.origin_id v.origin_id && (w.seq == v.seq)) ≡ false)
            rows
    go [] = tt
    go (v ∷ rows) = (
      (λ e. ground (
        arith,
        o,
        eq_iff v.origin_id origin,
        eq_iff w.origin_id v.origin_id,
        eq_iff w.origin_id origin,
      )),
      go rows,
    )

max_seq-le :
    (rows : List Row) (origin : String) (after : ℕ)
    → ((k : ℕ) → after < k → held rows origin k ≡ false)
    → max_seq rows origin ≤ after
unfolding held has_key max_seq
max_seq-le [] origin after f = omega arith
max_seq-le (w ∷ rows) origin after f =
    let rest : max_seq rows origin ≤ after =
      max_seq-le rows origin after (λ k lt. ground (arith, f k lt)) in
    elim (Bool-cases (str_eq w.origin_id origin)) [
      | inl e ↦ elim (Bool-cases (ltb after w.seq)) [
        | inl g ↦ absurd (clash (any (has_key origin w.seq) rows) w.seq e (f w.seq (ground arith)))
        | inr g ↦ rw e (ground arith)
      ]
      | inr e ↦ rw e rest
    ]
  where
    clash :
        (b : Bool) (k : ℕ)
        → str_eq w.origin_id origin ≡ true
        → ((str_eq w.origin_id origin && (k == k)) || b) ≡ false
        → ⊥
    clash b k x y = ground arith

-- A batch is empty only if nothing of the origin is above the mark.
pub batch_empty :
    (rows : List Row) (origin : String) (after n : ℕ)
    → 0 < n
    → is_empty (take n (backlog rows origin after)) ≡ true
    → max_seq rows origin ≤ after
batch_empty rows origin after n p h =
    max_seq-le rows origin after (λ k lt. none_held k lt (Bool-cases (held rows origin k)))
  where
    nothing :
        (k m : ℕ) (l : List Record)
        → 0 < m
        → is_empty (take m l) ≡ true
        → any (numbered k) l ≡ false
    nothing k zero l p h = absurd (omega (arith, p))
    nothing k (suc m) [] p h = refl
    nothing k (suc m) (r ∷ l) p h = cc

    clash : (b : Bool) → b ≡ true → b ≡ false → ⊥
    clash b x y = ground arith

    none_held :
        (k : ℕ)
        → after < k
        → (held rows origin k ≡ true) ⊎ (held rows origin k ≡ false)
        → held rows origin k ≡ false
    none_held k lt (inl e) = absurd (
        clash (any (numbered k) (backlog rows origin after)) (held-backlog rows origin after k e lt)
          (nothing k n (backlog rows origin after) p h))
    none_held k lt (inr e) = e
