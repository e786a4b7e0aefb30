-- ===== src/Store/Order.antt =====
-- ORDER BY seq, as an insertion sort, and its laws on records whose numbers differ.
pub mod Merge
use agentic_stats.Prelude.{
  ℕ, zero, suc, ◌≤◌, ◌<◌, ◌≡◌, ◌≢◌, refl, Bool, true, false, List, [], ◌∷◌, ◌++◌, arith, ap, leb,
  leb→le, ltb, lt→ltb, ltb→lt, ltb-eq_false, take, drop, All-take, if◌then◌else◌, length, select,
  All, Bool-cases, inl, inr, sym, ◌∙◌,
}
use agentic_stats.Store.Record.{Record}

unfoldable pub insert_by_seq : Record → List Record → List Record
insert_by_seq r [] = r ∷ []
insert_by_seq r (q ∷ l) = if leb r.seq q.seq then r ∷ q ∷ l else q ∷ insert_by_seq r l

unfoldable pub order_by_seq : List Record → List Record
unfolding insert_by_seq
order_by_seq [] = []
order_by_seq (r ∷ l) = insert_by_seq r (order_by_seq l)

abbrev pub Above : ℕ → Record → Type 0
Above n r = n < r.seq

abbrev pub Upto : ℕ → Record → Type 0
Upto n r = r.seq ≤ n

abbrev pub Differs : Record → Record → Type 0
Differs r q = q.seq ≢ r.seq

-- Every number above those before it.
abbrev pub IsAscending : List Record → Type 0
IsAscending [] = Unit
IsAscending (r ∷ l) = All (Above r.seq) l × IsAscending l

-- No number twice.
abbrev pub IsDistinct : List Record → Type 0
IsDistinct [] = Unit
IsDistinct (r ∷ l) = All (Differs r) l × IsDistinct l

pub All-map {ℓ κ μ} :
    {A : Type ℓ} (P : A → Type κ) (Q : A → Type μ) (f : (a : A) → P a → Q a) (l : List A)
    → All P l
    → All Q l
All-map P Q f [] h = tt
All-map P Q f (r ∷ l) h = (f r h.0, All-map P Q f l h.1)

pub All-insert_by_seq {ℓ} :
    (P : Record → Type ℓ) (r : Record) (l : List Record) → P r → All P l → All P (insert_by_seq r l)
unfolding insert_by_seq
All-insert_by_seq P r [] h hs = (h, tt)
All-insert_by_seq P r (q ∷ l) h hs = elim (Bool-cases (leb r.seq q.seq)) [
  | inl e ↦ rw e (h, hs)
  | inr e ↦ rw e (hs.0, All-insert_by_seq P r l h hs.1)
]

pub All-order_by_seq {ℓ} :
    (P : Record → Type ℓ) (l : List Record) → All P l → All P (order_by_seq l)
unfolding order_by_seq
All-order_by_seq P [] h = tt
All-order_by_seq P (r ∷ l) h = All-insert_by_seq P r (order_by_seq l) h.0 (All-order_by_seq P l h.1)

insert_by_seq-IsAscending :
    (r : Record) (l : List Record)
    → All (Differs r) l
    → IsAscending l
    → IsAscending (insert_by_seq r l)
unfolding insert_by_seq
insert_by_seq-IsAscending r [] d a = (tt, tt)
insert_by_seq-IsAscending r (q ∷ l) d a = elim (Bool-cases (leb r.seq q.seq)) [
  | inl e ↦
      let lt : r.seq < q.seq = ground (arith, d.0) in
      rw e ((lt, All-map (Above q.seq) (Above r.seq) (λ x h. omega arith) l a.0), a)
  | inr e ↦ rw e (
    All-insert_by_seq (Above q.seq) r l (ground arith) a.0,
    insert_by_seq-IsAscending r l d.1 a.1,
  )
]

pub order_by_seq-IsAscending : (l : List Record) → IsDistinct l → IsAscending (order_by_seq l)
unfolding order_by_seq
order_by_seq-IsAscending [] d = tt
order_by_seq-IsAscending (r ∷ l) d =
    insert_by_seq-IsAscending r (order_by_seq l) (All-order_by_seq (Differs r) l d.0)
      (order_by_seq-IsAscending l d.1)

abbrev pub AtLeast : ℕ → Record → Type 0
AtLeast n r = n ≤ r.seq

-- A record that no other is below goes first.
pub insert_by_seq_first :
    (r : Record) (l : List Record) → All (AtLeast r.seq) l → insert_by_seq r l ≡ r ∷ l
unfolding insert_by_seq
insert_by_seq_first r [] h = refl
insert_by_seq_first r (q ∷ l) h = ground (arith, h.0)

pub All-select {ℓ κ} :
    {A : Type ℓ} (P : A → Type κ) (p : A → Bool) (l : List A) → All P l → All P (select p l)
All-select P p [] h = tt
All-select P p (r ∷ l) h = elim (Bool-cases (p r)) [
  | inl e ↦ rw e (h.0, All-select P p l h.1)
  | inr e ↦ rw e (All-select P p l h.1)
]

select-insert_by_seq :
    (p : Record → Bool) (r : Record) (l : List Record)
    → IsAscending l
    → select p (insert_by_seq r l) ≡ (if p r then insert_by_seq r (select p l) else select p l)
unfolding insert_by_seq
select-insert_by_seq p r [] a = refl
select-insert_by_seq p r (q ∷ l) a = elim (Bool-cases (leb r.seq q.seq)) [
  | inl e ↦
      let le : r.seq ≤ q.seq = leb→le r.seq q.seq e in
      let low : All (AtLeast r.seq) (q ∷ l) =
        (le, All-map (Above q.seq) (AtLeast r.seq) (λ x h. omega arith) l a.0) in
      rw e (
        ap (λ (m : List Record). if p r then m else select p (q ∷ l))
          (sym
            (insert_by_seq_first r (select p (q ∷ l)) (All-select (AtLeast r.seq) p (q ∷ l) low))))
  | inr e ↦ rw e (ground (arith, select-insert_by_seq p r l a.1))
]

-- A selection may be made before the sort or after it.
pub select-order_by_seq :
    (p : Record → Bool) (l : List Record)
    → IsDistinct l
    → select p (order_by_seq l) ≡ order_by_seq (select p l)
unfolding order_by_seq
select-order_by_seq p [] d = refl
select-order_by_seq p (r ∷ l) d =
    select-insert_by_seq p r (order_by_seq l) (order_by_seq-IsAscending l d.1)
    ∙ rw (select-order_by_seq p l d.1) (insert_if (p r))
  where
    insert_if :
        (b : Bool)
        → (if b then insert_by_seq r (order_by_seq (select p l)) else order_by_seq (select p l))
          ≡ order_by_seq (if b then r ∷ select p l else select p l)
    insert_if true = refl
    insert_if false = refl

-- batch[len(batch)-1].Seq, or `d` where there is no batch.
unfoldable pub last_seq : List Record → ℕ → ℕ
last_seq [] d = d
last_seq (r ∷ l) d = last_seq l r.seq

pub last_seq-ge :
    (n : ℕ) (l : List Record) (d : ℕ) → All (Above d) l → IsAscending l → d ≤ last_seq (take n l) d
unfolding last_seq
last_seq-ge zero l d h a = omega arith
last_seq-ge (suc n) [] d h a = omega arith
last_seq-ge (suc n) (r ∷ l) d h a = omega (arith, h.0, last_seq-ge n l r.seq a.0 a.1)

pub select-All : (n : ℕ) (l : List Record) → All (Above n) l → select (λ r. ltb n r.seq) l ≡ l
select-All n [] h = refl
select-All n (r ∷ l) h = rw (lt→ltb n r.seq h.0, select-All n l h.1)

-- What is left above the last number of a first part is the rest.
pub select_after_take :
    (n : ℕ) (l : List Record) (d : ℕ)
    → All (Above d) l
    → IsAscending l
    → select (λ r. ltb (last_seq (take n l) d) r.seq) l ≡ drop n l
unfolding last_seq
select_after_take zero l d h a = select-All d l h
select_after_take (suc n) [] d h a = refl
select_after_take (suc n) (r ∷ l) d h a =
    rw (ltb-eq_false (last_seq (take n l) r.seq) r.seq (last_seq-ge n l r.seq a.0 a.1))
      (select_after_take n l r.seq a.0 a.1)

-- A later selection above a higher number.
pub select-select :
    (m n : ℕ) (l : List Record)
    → m ≤ n
    → select (λ r. ltb n r.seq) (select (λ r. ltb m r.seq) l) ≡ select (λ r. ltb n r.seq) l
select-select m n [] h = refl
select-select m n (r ∷ l) h = ground (arith, select-select m n l h)

pub select-Above : (n : ℕ) (l : List Record) → All (Above n) (select (λ r. ltb n r.seq) l)
select-Above n [] = tt
select-Above n (r ∷ l) = elim (Bool-cases (ltb n r.seq)) [
  | inl e ↦ rw e (ltb→lt n r.seq e, select-Above n l)
  | inr e ↦ rw e (select-Above n l)
]

pub IsDistinct-select :
    (p : Record → Bool) (l : List Record) → IsDistinct l → IsDistinct (select p l)
IsDistinct-select p [] d = tt
IsDistinct-select p (r ∷ l) d = elim (Bool-cases (p r)) [
  | inl e ↦ rw e (All-select (Differs r) p l d.0, IsDistinct-select p l d.1)
  | inr e ↦ rw e (IsDistinct-select p l d.1)
]

pub take-IsAscending : (n : ℕ) (l : List Record) → IsAscending l → IsAscending (take n l)
take-IsAscending zero l a = tt
take-IsAscending (suc n) [] a = tt
take-IsAscending (suc n) (r ∷ l) a = (All-take (Above r.seq) n l a.0, take-IsAscending n l a.1)
