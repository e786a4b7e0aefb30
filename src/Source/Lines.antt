-- ===== src/Source/Lines.antt =====
-- The lines of one Read. readLines of internal/source/tail.go
use agentic_stats.Prelude.{
  ℕ, zero, suc, ◌+◌, ◌-◌, ◌≤◌, ◌<◌, ◌≡◌, refl, sym, ap, ap₂, ◌∙◌, Bool, true, false, inl, inr, none,
  some, List, [], ◌∷◌, ◌++◌, arith, min, leb, ◌==◌, length, take, drop, any, any-append, ◌||◌,
  subst, leb→le, length-take, ◌⊎◌, append_assoc, ==_iff, Bool-cases, length-append,
}
use agentic_stats.Source.{
  Bytes, StreamId, RawLine, newline, cut_line, split_lines, window, read_lines,
}

abbrev pub is_newline : ℕ → Bool
is_newline c = c == newline

abbrev pub NoNewline : Bytes → Type 0
NoNewline s = any is_newline s ≡ false

-- The bytes that lines stand for: each with its newline.
abbrev pub joined : List RawLine → Bytes
joined [] = []
joined (l ∷ ls) = (l.bytes ++ newline ∷ []) ++ joined ls

-- The lines lie one behind the other from an offset on, each whole.
abbrev pub Placed : StreamId → ℕ → List RawLine → Type 0
Placed id at [] = Unit
Placed id at (l ∷ ls) =
    (l.stream ≡ id) × (l.offset ≡ at) × NoNewline l.bytes × Placed id (at + (length l.bytes + 1)) ls

-- Either there is no newline, or the text is cut at the first one.
pub cut_cases :
    (s : Bytes)
    → ((cut_line s ≡ none) × NoNewline s)
      ⊎ ((p : Bytes × Bytes) × (cut_line s ≡ some p)
          × (s ≡ (p.0 ++ newline ∷ []) ++ p.1)
          × NoNewline (p.0))
unfolding cut_line
cut_cases [] = inl (refl, refl)
cut_cases (c ∷ s) = elim (Bool-cases (c == newline)) [
  | inl e ↦ inr (([], s), rw e refl, ap (λ x. x ∷ s) ((==_iff c newline).0 e), refl)
  | inr e ↦ elim (cut_cases s) [
    | inl n ↦ inl (rw (e, n.0) refl, rw (e, n.1) refl)
    | inr (p, k, q, w) ↦ inr ((c ∷ p.0, p.1), rw (e, k) refl, ap (◌∷◌ c) q, rw (e, w) refl)
  ]
]

abbrev pub Loop : StreamId → ℕ → ℕ → Bytes → List RawLine × ℕ → Type 0
Loop id start consumed buf r =
    (rest : Bytes) × (buf ≡ joined (r.0) ++ rest)
    × NoNewline rest
    × (r.1 ≡ consumed + length (joined (r.0)))
    × Placed id (start + consumed) (r.0)

-- Fuel of one more than the bytes is enough for the loop: it leaves only the part after the last
-- newline.
pub split_lines_lem :
    (fuel : ℕ) (id : StreamId) (start consumed : ℕ) (buf : Bytes)
    → length buf < fuel
    → Loop id start consumed buf (split_lines fuel id start consumed buf)
unfolding split_lines
split_lines_lem zero id start consumed buf h = absurd (omega arith)
split_lines_lem (suc fuel) id start consumed buf h = elim (cut_cases buf) [
  | inl n ↦ rw (n.0, split_lines) (buf, refl, n.1, omega arith, tt)
  | inr (p, k, q, w) ↦
      let size : length buf ≡ length (p.0) + 1 + length (p.1) = omega (
        arith,
        ap length q,
        length-append (p.0 ++ newline ∷ []) (p.1),
        length-append (p.0) (newline ∷ []),
      ) in
      let next = consumed + (length (p.0) + 1) in
      let (rest, e, free, count, placed) =
        split_lines_lem fuel id start next (p.1) (omega (arith, size)) in
      let later = (split_lines fuel id start next (p.1)).0 in
      let all : buf
          ≡ joined (record { stream = id; offset = start + consumed; bytes = p.0 } ∷ later)
            ++ rest =
        q
        ∙ ap (λ x. (p.0 ++ newline ∷ []) ++ x) e
        ∙ sym (append_assoc (p.0 ++ newline ∷ []) _ rest) in
      rw (k, split_lines)
        (
          rest,
          all,
          free,
          omega (
            arith,
            count,
            length-append (p.0 ++ newline ∷ []) (joined later),
            length-append (p.0) (newline ∷ []),
          ),
          (refl, refl, w, subst (λ x. Placed id x later) (omega arith) placed),
        )
]

pub take_prefix : (s t : Bytes) → take (length s) (s ++ t) ≡ s
take_prefix [] t = refl
take_prefix (c ∷ s) t = ap (◌∷◌ c) (take_prefix s t)

pub drop_prefix : (s t : Bytes) → drop (length s) (s ++ t) ≡ t
drop_prefix [] t = refl
drop_prefix (c ∷ s) t = drop_prefix s t

take-take : (n m : ℕ) (s : Bytes) → n ≤ m → take n (take m s) ≡ take n s
take-take zero m s h = refl
take-take (suc n) zero s h = absurd (omega arith)
take-take (suc n) (suc m) [] h = refl
take-take (suc n) (suc m) (c ∷ s) h = ap (◌∷◌ c) (take-take n m s (omega arith))

none_left :
    (max_bytes : ℕ) (content : Bytes) (start size : ℕ)
    → leb size start ≡ true
    → NoNewline (window max_bytes content start size)
unfolding window
none_left max_bytes content start size e =
    let h = leb→le size start e in
    let none : min (size - start) max_bytes ≡ 0 = omega arith in
    ap (λ n. any is_newline (take n (drop start content))) none

lines_le : (ls : List RawLine) → length ls ≤ length (joined ls)
lines_le [] = omega arith
lines_le (l ∷ ls) = omega (
  arith,
  lines_le ls,
  length-append (l.bytes ++ newline ∷ []) (joined ls),
  length-append l.bytes (newline ∷ []),
)

-- What a read of a window gives: whole lines in place, which with their newlines are the bytes from
-- the start on, and nothing after the last newline of the window.
pub read_lines_lem :
    (max_bytes : ℕ) (id : StreamId) (content : Bytes) (start size : ℕ)
    → let r = read_lines max_bytes id content start size in
      (joined (r.0) ≡ take (r.1) (drop start content))
      × Placed id start (r.0)
      × NoNewline (drop (r.1) (window max_bytes content start size))
      × (r.1 ≡ length (joined (r.0)))
      × (r.1 ≤ size - start)
unfolding read_lines window
read_lines_lem max_bytes id content start size = elim (Bool-cases (leb size start)) [
  | inl e ↦ rw e (refl, tt, none_left max_bytes content start size e, refl, omega arith)
  | inr e ↦
      let buf = window max_bytes content start size in
      let (rest, all, free, count, placed) =
        split_lines_lem (suc (length buf)) id start 0 buf (omega arith) in
      let ls = (split_lines (suc (length buf)) id start 0 buf).0 in
      let sum : (split_lines (suc (length buf)) id start 0 buf).1 ≡ length (joined ls) =
        omega (arith, count) in
      let n = min (size - start) max_bytes in
      let short : length (joined ls) ≤ n = omega (
        arith,
        ap length all,
        length-append (joined ls) rest,
        length-take n (drop start content),
      ) in
      rw e (
        sym (
            ap (λ k. take k (drop start content)) sum
            ∙ sym (take-take (length (joined ls)) n (drop start content) short)
            ∙ ap (take (length (joined ls))) all
            ∙ take_prefix (joined ls) rest),
        subst (λ k. Placed id k ls) (omega arith) placed,
        ap₂ (λ k b. any is_newline (drop k b)) sum all
            ∙ ap (any is_newline) (drop_prefix (joined ls) rest)
            ∙ free,
        sum,
        omega (arith, sum, short),
      )
]

-- Without a newline in the window a read gives nothing, and with one it gives a line.
pub read_lines_progress :
    (max_bytes : ℕ) (id : StreamId) (content : Bytes) (start size : ℕ)
    → let r = read_lines max_bytes id content start size in
      (NoNewline (window max_bytes content start size) × (r ≡ ([], 0)))
      ⊎ ((any is_newline (window max_bytes content start size) ≡ true) × (1 ≤ length (r.0)))
unfolding read_lines split_lines
read_lines_progress max_bytes id content start size = elim (Bool-cases (leb size start)) [
  | inl e ↦ inl (none_left max_bytes content start size e, rw e refl)
  | inr e ↦ elim (cut_cases (window max_bytes content start size)) [
    | inl n ↦ inl (n.1, rw (e, n.0, split_lines) refl)
    | inr (p, k, q, w) ↦ inr (
      ap (any is_newline) q
          ∙ any-append is_newline (p.0 ++ newline ∷ []) (p.1)
          ∙ ap (λ b. b || any is_newline (p.1)) (any-append is_newline (p.0) (newline ∷ []))
          ∙ rw w refl,
      rw (e, k, split_lines) (omega arith),
    )
  ]
]
