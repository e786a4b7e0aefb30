-- ===== src/Store/Order/Merge.antt =====
-- Lists of records in order, joined and taken apart. internal/store/records.go (ORDER BY seq)
use agentic_stats.Prelude.{
  ℕ, suc, ◌≡◌, refl, ap, ◌∙◌, Bool, true, false, List, [], ◌∷◌, ◌++◌, arith, leb, leb→le, ltb,
  lt→ltb, if◌then◌else◌, length, select, All, Bool-cases, inl, inr,
}
use agentic_stats.Store.Record.{Record}
use agentic_stats.Store.Order.{
  insert_by_seq, order_by_seq, Above, Upto, AtLeast, IsAscending, All-map, All-select,
  insert_by_seq_first, select-All,
}

length-insert_by_seq : (r : Record) (l : List Record) → length (insert_by_seq r l) ≡ suc (length l)
unfolding insert_by_seq
length-insert_by_seq r [] = refl
length-insert_by_seq r (q ∷ l) = elim (Bool-cases (leb r.seq q.seq)) [
  | inl e ↦ rw e
  | inr e ↦ rw e (ap suc (length-insert_by_seq r l))
]

pub length-order_by_seq : (l : List Record) → length (order_by_seq l) ≡ length l
unfolding order_by_seq
length-order_by_seq [] = refl
length-order_by_seq (r ∷ l) =
    length-insert_by_seq r (order_by_seq l) ∙ ap suc (length-order_by_seq l)

insert_by_seq-append :
    (r : Record) (a b : List Record)
    → All (Above r.seq) b
    → insert_by_seq r (a ++ b) ≡ insert_by_seq r a ++ b
unfolding insert_by_seq
insert_by_seq-append r [] b h =
    insert_by_seq_first r b (All-map (Above r.seq) (AtLeast r.seq) (λ x k. omega arith) b h)
insert_by_seq-append r (q ∷ a) b h = elim (Bool-cases (leb r.seq q.seq)) [
  | inl e ↦ rw e
  | inr e ↦ rw e (ap (◌∷◌ q) (insert_by_seq-append r a b h))
]

order_ascending : (l : List Record) → IsAscending l → order_by_seq l ≡ l
unfolding order_by_seq
order_ascending [] a = refl
order_ascending (r ∷ l) a =
    rw (order_ascending l a.1)
      (insert_by_seq_first r l (All-map (Above r.seq) (AtLeast r.seq) (λ x k. omega arith) l a.0))

-- Records that are in order, and above all the others, stay behind them.
pub order_by_seq-append :
    (a b : List Record) (n : ℕ)
    → All (Upto n) a
    → All (Above n) b
    → IsAscending b
    → order_by_seq (a ++ b) ≡ order_by_seq a ++ b
unfolding order_by_seq
order_by_seq-append [] b n ha hb c = order_ascending b c
order_by_seq-append (r ∷ a) b n ha hb c = rw (order_by_seq-append a b n ha.1 hb c) (
    insert_by_seq-append r (order_by_seq a) b
      (All-map (Above n) (Above r.seq) (λ x k. omega (arith, ha.0)) b hb))

All-of_insert {ℓ} :
    (P : Record → Type ℓ) (r : Record) (l : List Record) → All P (insert_by_seq r l) → P r × All P l
unfolding insert_by_seq
All-of_insert P r [] = λ h. h
All-of_insert P r (q ∷ l) =
    elim (leb r.seq q.seq)
      as (λ b. All P (if b then r ∷ q ∷ l else q ∷ insert_by_seq r l) → P r × All P (q ∷ l)) [
        | true ↦ λ h. (h.0, h.1)
        | false ↦ λ h. let (x, y) = All-of_insert P r l h.1 in (x, (h.0, y))
      ]

pub All-of_order {ℓ} : (P : Record → Type ℓ) (l : List Record) → All P (order_by_seq l) → All P l
unfolding order_by_seq
All-of_order P [] h = tt
All-of_order P (r ∷ l) h =
    let (x, y) = All-of_insert P r (order_by_seq l) h in (x, All-of_order P l y)

none_upto : (n : ℕ) (l : List Record) → All (Above n) l → select (λ r. leb r.seq n) l ≡ []
none_upto n [] h = refl
none_upto n (r ∷ l) h = ground (arith, none_upto n l h.1, h.0)

-- A list in order is what lies up to a number, and then what lies above it.
pub split_at :
    (n : ℕ) (l : List Record)
    → IsAscending l
    → select (λ r. leb r.seq n) l ++ select (λ r. ltb n r.seq) l ≡ l
split_at n [] a = refl
split_at n (r ∷ l) a = elim (Bool-cases (leb r.seq n)) [
  | inl e ↦ ground (arith, split_at n l a.1)
  | inr e ↦
      let up : All (Above n) l = All-map (Above r.seq) (Above n) (λ x k. ground arith) l a.0 in
      rw (e, lt→ltb n r.seq (ground arith), none_upto n l up) (ap (◌∷◌ r) (select-All n l up))
]

pub select-Upto : (n : ℕ) (l : List Record) → All (Upto n) (select (λ r. leb r.seq n) l)
select-Upto n [] = tt
select-Upto n (r ∷ l) = elim (Bool-cases (leb r.seq n)) [
  | inl e ↦ rw e (leb→le r.seq n e, select-Upto n l)
  | inr e ↦ rw e (select-Upto n l)
]

pub select-IsAscending :
    (p : Record → Bool) (l : List Record) → IsAscending l → IsAscending (select p l)
select-IsAscending p [] a = tt
select-IsAscending p (r ∷ l) a = elim (Bool-cases (p r)) [
  | inl e ↦ rw e (All-select (Above r.seq) p l a.0, select-IsAscending p l a.1)
  | inr e ↦ rw e (select-IsAscending p l a.1)
]
