-- ===== src/Store/Query/Dense.antt =====
-- What `Since` gives of an origin whose numbers have no gap. internal/store/records.go
use agentic_stats.Prelude.{
  ℕ, zero, suc, ◌+◌, ◌≤◌, ◌<◌, ◌≡◌, refl, ap, ◌∙◌, Bool, true, false, ◌&&◌, ◌||◌, List, [], ◌∷◌,
  map, arith, String, str_eq, ltb, ◌==◌, min, take, select, any, All, inl, inr, Bool-cases,
}
use agentic_stats.Store.Record.{Record, Row, of_row}
use agentic_stats.Store.Table.{has_key, held, max_seq, IsDense}
use agentic_stats.Store.Table.Unique.{IsUnique}
use agentic_stats.Store.Order.{
  order_by_seq, insert_by_seq, IsAscending, Above, All-order_by_seq, last_seq, last_seq-ge,
}
use agentic_stats.Store.Query.{backlog}
use agentic_stats.Store.Query.Backlog.{backlog-IsAscending, backlog-Above}

-- Whether a record of a number is among some.
abbrev pub numbered : ℕ → Record → Bool
numbered k r = r.seq == k

any-insert_by_seq :
    (p : Record → Bool) (r : Record) (l : List Record)
    → any p (insert_by_seq r l) ≡ (p r || any p l)
unfolding insert_by_seq
any-insert_by_seq p r [] = refl
any-insert_by_seq p r (q ∷ l) = ground (arith, any-insert_by_seq p r l)

any-order_by_seq : (p : Record → Bool) (l : List Record) → any p (order_by_seq l) ≡ any p l
unfolding order_by_seq
any-order_by_seq p [] = refl
any-order_by_seq p (r ∷ l) =
    any-insert_by_seq p r (order_by_seq l) ∙ ap (λ b. p r || b) (any-order_by_seq p l)

held_row :
    (rows : List Row) (origin : String) (after k : ℕ)
    → held rows origin k ≡ true
    → after < k
    → any
        (numbered k)
        (map of_row (select (λ w. str_eq w.origin_id origin && ltb after w.seq) rows))
      ≡ true
unfolding held has_key of_row
held_row [] origin after k h lt = h
held_row (w ∷ rows) origin after k h lt = ground (arith, held_row rows origin after k)

pub held-backlog :
    (rows : List Row) (origin : String) (after k : ℕ)
    → held rows origin k ≡ true
    → after < k
    → any (numbered k) (backlog rows origin after) ≡ true
unfolding backlog
held-backlog rows origin after k h lt =
    any-order_by_seq (numbered k) _ ∙ held_row rows origin after k h lt

pub Above-lacks : (k d : ℕ) (l : List Record) → All (Above d) l → k ≤ d → any (numbered k) l ≡ false
Above-lacks k d [] h le = refl
Above-lacks k d (r ∷ l) h le = ground (arith, h.0, Above-lacks k d l h.1 le)

-- The first n of an ascending list that has every number from a up to m reach a + n or m.
last_seq_reaches :
    (n a m : ℕ) (l : List Record)
    → All (Above a) l
    → IsAscending l
    → ((k : ℕ) → a < k → k ≤ m → any (numbered k) l ≡ true)
    → min (a + n) m ≤ last_seq (take n l) a
unfolding last_seq
last_seq_reaches zero a m l h s f = omega arith
last_seq_reaches (suc n) a m [] h s f = elim (Bool-cases (ltb a m)) [
  | inl e ↦ absurd (clash (f (suc a) (omega arith) (ground arith)))
  | inr e ↦ ground arith
]
  where
    clash : false ≡ true → ⊥
    clash h = cc
last_seq_reaches (suc n) a m (r ∷ l) h s f = elim (Bool-cases (ltb a m)) [
  | inl e ↦
      let next : r.seq ≡ suc a = first (f (suc a) (omega arith) (ground arith)) in
      let rest =
        last_seq_reaches n r.seq m l s.0 s.1
          (λ k lt le. later k lt (f k (omega (arith, h.0)) le)) in
      omega (arith, rest, next)
  | inr e ↦ let up = last_seq-ge n l r.seq s.0 s.1 in ground (arith, up, h.0)
]
  where
    first : any (numbered (suc a)) (r ∷ l) ≡ true → r.seq ≡ suc a
    first g = elim (Bool-cases (r.seq == suc a)) [
      | inl e ↦ ground arith
      | inr e ↦ ground (arith, Above-lacks (suc a) r.seq l s.0, h.0)
    ]

    later : (k : ℕ) → r.seq < k → any (numbered k) (r ∷ l) ≡ true → any (numbered k) l ≡ true
    later k lt g = ground arith

last_seq-le :
    (n m d : ℕ) (l : List Record) → All (λ r. r.seq ≤ m) l → d ≤ m → last_seq (take n l) d ≤ m
unfolding last_seq
last_seq-le zero m d l h le = le
last_seq-le (suc n) m d [] h le = le
last_seq-le (suc n) m d (r ∷ l) h le = last_seq-le n m r.seq l h.1 h.0

at_most_max :
    (rows : List Row) (origin : String) (after m : ℕ)
    → max_seq rows origin ≤ m
    → All
        (λ r. r.seq ≤ m)
        (map of_row (select (λ w. str_eq w.origin_id origin && ltb after w.seq) rows))
unfolding max_seq of_row
at_most_max [] origin after m h = tt
at_most_max (w ∷ rows) origin after m h = elim (Bool-cases (str_eq w.origin_id origin)) [
  | inl e ↦ elim (Bool-cases (ltb after w.seq)) [
    | inl g ↦ rw (e, g) (ground arith, at_most_max rows origin after m (ground arith))
    | inr g ↦ rw (e, g) (at_most_max rows origin after m (ground arith))
  ]
  | inr e ↦ rw e (at_most_max rows origin after m (ground arith))
]

-- The batch above a number reaches as far as its size or the highest number does, and no further
-- than that.
pub backlog_reaches :
    (rows : List Row) (origin : String) (after n : ℕ)
    → IsUnique rows
    → IsDense rows origin
    → after ≤ max_seq rows origin
    → (min (after + n) (max_seq rows origin) ≤ last_seq (take n (backlog rows origin after)) after)
      × (last_seq (take n (backlog rows origin after)) after ≤ max_seq rows origin)
unfolding backlog
backlog_reaches rows origin after n u d le = (
  last_seq_reaches n after (max_seq rows origin) (backlog rows origin after)
      (backlog-Above rows origin after u) (backlog-IsAscending rows origin after u)
      (λ k lt top. held-backlog rows origin after k ((d k).1 (omega arith, top)) lt),
  last_seq-le n (max_seq rows origin) after (backlog rows origin after)
      (All-order_by_seq (λ r. r.seq ≤ max_seq rows origin) _
        (at_most_max rows origin after (max_seq rows origin) (omega arith)))
      le,
)
