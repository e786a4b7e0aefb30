-- ===== src/Bridge/Ranges.antt =====
-- The ranges that a listing shows. listRanges of internal/bridge/bridge.go
use agentic_stats.Prelude.{
  ℕ, ◌≤◌, ◌≡◌, refl, sym, ap, ap₂, ◌∙◌, Bool, true, false, not, ◌⊎◌, inl, inr, Option, none, some,
  List, [], ◌∷◌, arith, ltb, ==_iff, if◌then◌else◌, Bool-cases, Option-cases, In,
}
use agentic_stats.Source.{Bytes}
use agentic_stats.Bridge.Key.{ℤ, pos, negsuc, at_most, Key, bytes_eq, parse_key}
use agentic_stats.Bridge.Key.Reading.{bytes_eq_refl}
use agentic_stats.Bridge.Folder.{
  Ranges, same_number, below, range_from, raised, add_key, ranges_of, covered,
}

-- A key of a listing for a range of an origin that begins with a number and ends at another, or
-- behind it.
abbrev pub HasRange : List Bytes → Bytes → ℕ → ℕ → Type 0
HasRange keys origin first last =
    (key : Bytes) × In key keys
    × (m : ℕ) × (parse_key key ≡ some (record { origin = origin; first = pos first; last = pos m }))
    × (last ≤ m)

bytes_eq-eq : (s t : Bytes) → bytes_eq s t ≡ true → s ≡ t
bytes_eq-eq [] [] h = refl
bytes_eq-eq [] (d ∷ t) h = cc
bytes_eq-eq (c ∷ s) [] h = cc
bytes_eq-eq (c ∷ s) (d ∷ t) h =
    ap₂ (λ x y. x ∷ y) ((==_iff c d).0 (ground arith)) (bytes_eq-eq s t (ground arith))

same_number-eq : (a b : ℤ) → same_number a b ≡ true → a ≡ b
same_number-eq (pos a) (pos b) h = ap pos ((==_iff a b).0 h)
same_number-eq (negsuc a) (negsuc b) h = ap negsuc ((==_iff a b).0 h)
same_number-eq (pos a) (negsuc b) h = cc
same_number-eq (negsuc a) (pos b) h = cc

same_number_refl : (a : ℤ) → same_number a a ≡ true
same_number_refl (pos a) = ground arith
same_number_refl (negsuc a) = ground arith

-- Where a range comes from: it was there, or a key has it.
abbrev From : Bytes → Ranges → List Bytes → ℤ → ℤ → Type 0
From origin before keys first end =
    (range_from before first ≡ some end)
    ⊎ ((key : Bytes) × In key keys
        × (parse_key key ≡ some (record { origin = origin; first = first; last = end })))

put_first-From :
    (ranges : Ranges) (f l first end : ℤ)
    → range_from ((f, l) ∷ ranges) first ≡ some end
    → (range_from ranges first ≡ some end) ⊎ ((f ≡ first) × (l ≡ end))
unfolding range_from
put_first-From ranges f l first end h = elim (Bool-cases (same_number f first)) [
  | inl e ↦ inr (same_number-eq f first e, value (rw e at (h)))
  | inr e ↦ inl (rw e at (h))
]
  where
    value : ◌≡◌ {A = Option ℤ} (some l) (some end) → l ≡ end
    value k = ap (λ (o : Option ℤ). elim o [ none ↦ l | some z ↦ z ]) k

raised-From :
    (ranges : Ranges) (f l : ℤ) (old : Option ℤ) (first end : ℤ)
    → range_from (raised ranges f l old) first ≡ some end
    → (range_from ranges first ≡ some end) ⊎ ((f ≡ first) × (l ≡ end))
unfolding raised
raised-From ranges f l none first end h = put_first-From ranges f l first end h
raised-From ranges f l (some old) first end h = elim (Bool-cases (below old l)) [
  | inl b ↦ put_first-From ranges f l first end (rw b at (h))
  | inr b ↦ inl (rw b at (h))
]

-- A key that adds a range has it.
add_key-From :
    (origin : Bytes) (ranges : Ranges) (o : Option Key) (first end : ℤ)
    → range_from (add_key origin ranges o) first ≡ some end
    → (range_from ranges first ≡ some end)
      ⊎ (o ≡ some (record { origin = origin; first = first; last = end }))
unfolding add_key
add_key-From origin ranges none first end h = inl h
add_key-From origin ranges (some k) first end h = elim (Bool-cases (bytes_eq k.origin origin)) [
  | inl e ↦
      elim (raised-From ranges k.first k.last (range_from ranges k.first) first end (rw e at (h))) [
        | inl old ↦ inl old
        | inr (f, l) ↦ inr (ap some (same_key (bytes_eq-eq k.origin origin e) f l))
      ]
  | inr e ↦ inl (rw e at (h))
]
  where
    same_key :
        k.origin ≡ origin
        → k.first ≡ first
        → k.last ≡ end
        → k ≡ record { origin = origin; first = first; last = end }
    same_key a b c =
        ap (λ x. record k { origin = x }) a
        ∙ ap (λ x. record k { origin = origin; first = x }) b
        ∙ ap (λ x. let r : Key = record { origin = origin; first = first; last = x } in r) c

ranges_of-From :
    (origin : Bytes) (keys : List Bytes) (ranges : Ranges) (first end : ℤ)
    → range_from (ranges_of origin keys ranges) first ≡ some end
    → From origin ranges keys first end
unfolding ranges_of
ranges_of-From origin [] ranges first end h = inl h
ranges_of-From origin (key ∷ keys) ranges first end h =
    elim (ranges_of-From origin keys (add_key origin ranges (parse_key key)) first end h) [
      | inl e ↦ elim (add_key-From origin ranges (parse_key key) first end e) [
        | inl old ↦ inl old
        | inr k ↦ inr (key, inl refl, k)
      ]
      | inr (k, i, e) ↦ inr (k, inr i, e)
    ]

-- A range that the listing covers is the range of one of its keys.
pub covered-HasRange :
    (origin : Bytes) (keys : List Bytes) (first last : ℕ)
    → covered last (range_from (ranges_of origin keys []) (pos first)) ≡ true
    → HasRange keys origin first last
unfolding covered at_most range_from
covered-HasRange origin keys first last h =
    go (range_from (ranges_of origin keys []) (pos first)) refl h
  where
    from_key :
        (end : ℤ)
        → From origin [] keys (pos first) end
        → at_most last end ≡ true
        → HasRange keys origin first last
    from_key end (inl e) c = cc
    from_key (pos m) (inr (key, i, e)) c = (key, i, m, e, ground arith)
    from_key (negsuc m) (inr (key, i, e)) c = cc

    go :
        (o : Option ℤ)
        → range_from (ranges_of origin keys []) (pos first) ≡ o
        → covered last o ≡ true
        → HasRange keys origin first last
    go none e c = cc
    go (some end) e c = from_key end (ranges_of-From origin keys [] (pos first) end e) c

-- More keys cover no less.
at_most-below : (n : ℕ) (a b : ℤ) → at_most n a ≡ true → below a b ≡ true → at_most n b ≡ true
unfolding at_most
at_most-below n (pos a) (pos b) h k = ground arith
at_most-below n (pos a) (negsuc b) h k = cc
at_most-below n (negsuc a) b h k = cc

raised_covers :
    (n : ℕ) (ranges : Ranges) (f l first : ℤ)
    → covered n (range_from ranges first) ≡ true
    → covered n (range_from (raised ranges f l (range_from ranges f)) first) ≡ true
unfolding raised range_from covered
raised_covers n ranges f l first h = elim (Option-cases (range_from ranges f)) [
  | inl e ↦ rw e (new e)
  | inr (old, e) ↦ elim (Bool-cases (below old l)) [
    | inl b ↦ rw (e, b) (over old e b)
    | inr b ↦ rw (e, b) h
  ]
]
  where
    not_covered : covered n none ≡ true → ⊥
    not_covered k = cc

    new :
        range_from ranges f ≡ none
        → covered n (if same_number f first then some l else range_from ranges first) ≡ true
    new e = elim (Bool-cases (same_number f first)) [
      | inl s ↦
          let at_first : range_from ranges first ≡ none =
            ap (range_from ranges) (sym (same_number-eq f first s)) ∙ e in
          absurd (not_covered (rw at_first at (h)))
      | inr s ↦ rw s h
    ]

    over :
        (old : ℤ)
        → range_from ranges f ≡ some old
        → below old l ≡ true
        → covered n (if same_number f first then some l else range_from ranges first) ≡ true
    over old e b = elim (Bool-cases (same_number f first)) [
      | inl s ↦
          let at_first : range_from ranges first ≡ some old =
            ap (range_from ranges) (sym (same_number-eq f first s)) ∙ e in
          rw s (at_most-below n old l (rw at_first at (h)) b)
      | inr s ↦ rw s h
    ]

raised_own :
    (ranges : Ranges) (f : ℤ) (m : ℕ)
    → covered m (range_from (raised ranges f (pos m) (range_from ranges f)) f) ≡ true
unfolding raised range_from covered at_most
raised_own ranges f m = go (range_from ranges f) refl
  where
    mine : (b : Bool) → b ≡ false → not b ≡ true
    mine b e = ground arith

    go :
        (o : Option ℤ)
        → range_from ranges f ≡ o
        → covered m (range_from (raised ranges f (pos m) o) f) ≡ true
    go none e = rw (same_number_refl f) (ground arith)
    go (some (pos k)) e = elim (Bool-cases (ltb k m)) [
      | inl b ↦ rw (b, same_number_refl f) (ground arith)
      | inr b ↦ rw (b, e) (ground arith)
    ]
    go (some (negsuc k)) e = rw (same_number_refl f) (ground arith)

add_key_covers :
    (n : ℕ) (origin : Bytes) (ranges : Ranges) (o : Option Key) (first : ℤ)
    → covered n (range_from ranges first) ≡ true
    → covered n (range_from (add_key origin ranges o) first) ≡ true
unfolding add_key
add_key_covers n origin ranges none first h = h
add_key_covers n origin ranges (some k) first h = elim (Bool-cases (bytes_eq k.origin origin)) [
  | inl e ↦ rw e (raised_covers n ranges k.first k.last first h)
  | inr e ↦ rw e h
]

ranges_of_covers :
    (n : ℕ) (origin : Bytes) (keys : List Bytes) (ranges : Ranges) (first : ℤ)
    → covered n (range_from ranges first) ≡ true
    → covered n (range_from (ranges_of origin keys ranges) first) ≡ true
unfolding ranges_of
ranges_of_covers n origin [] ranges first h = h
ranges_of_covers n origin (key ∷ keys) ranges first h =
    ranges_of_covers n origin keys _ first (add_key_covers n origin ranges (parse_key key) first h)

covered-le : (n m : ℕ) (o : Option ℤ) → n ≤ m → covered m o ≡ true → covered n o ≡ true
unfolding covered at_most
covered-le n m none le h = h
covered-le n m (some (pos k)) le h = ground arith
covered-le n m (some (negsuc k)) le h = h

-- A listing covers the range of each of its keys.
pub HasRange-covered :
    (origin : Bytes) (keys : List Bytes) (ranges : Ranges) (first last : ℕ)
    → HasRange keys origin first last
    → covered last (range_from (ranges_of origin keys ranges) (pos first)) ≡ true
unfolding ranges_of add_key
HasRange-covered origin [] ranges first last (key, i, m, p, le) = absurd i
HasRange-covered origin (k ∷ keys) ranges first last (key, inl e, m, p, le) =
    ranges_of_covers last origin keys (add_key origin ranges (parse_key k)) (pos first) (
      rw (ap parse_key (sym e) ∙ p, bytes_eq_refl origin)
        (covered-le last m _ le (raised_own ranges (pos first) m)))
HasRange-covered origin (k ∷ keys) ranges first last (key, inr i, m, p, le) =
    HasRange-covered origin keys _ first last (key, i, m, p, le)
