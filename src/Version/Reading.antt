-- ===== src/Version/Reading.antt =====
-- What Parse takes for a release. internal/version/version.go
use agentic_stats.Prelude.{
  ℕ, ◌+◌, ◌-◌, ◌*◌, ◌^◌, ◌<◌, ◌≡◌, ◌≢◌, refl, sym, ap, ◌∙◌, ◌⊎◌, inl, inr, Option, none, some, List,
  [], ◌∷◌, ◌++◌, arith, ◌==◌, All, Bool-cases, Option-cases,
}
use agentic_stats.Version.{
  Version, unreleased, release, push, split, is_digit, digits_value, parse_uint31, triple_of,
  three_parts, split_triple, trim_v, version_of, parse,
}

-- The pieces with the separator between them again.
abbrev pub join : ℕ → List (List ℕ) → List ℕ
join sep [] = []
join sep (p ∷ []) = p
join sep (p ∷ q ∷ ps) = p ++ sep ∷ join sep (q ∷ ps)

join-push : (sep c : ℕ) (ps : List (List ℕ)) → join sep (push c ps) ≡ c ∷ join sep ps
unfolding push
join-push sep c [] = refl
join-push sep c (p ∷ []) = refl
join-push sep c (p ∷ q ∷ ps) = refl

split_ne : (sep : ℕ) (s : List ℕ) → (p : List ℕ) × (ps : List (List ℕ)) × (split sep s ≡ p ∷ ps)
unfolding split
split_ne sep [] = ([], [], refl)
split_ne sep (c ∷ s) = elim (Bool-cases (c == sep)) [
  | inl e ↦ ([], split sep s, rw e)
  | inr e ↦ let (p, ps, h) = split_ne sep s in (c ∷ p, ps, rw (e, h))
]

pub join-split : (sep : ℕ) (s : List ℕ) → join sep (split sep s) ≡ s
unfolding split
join-split sep [] = refl
join-split sep (c ∷ s) = elim (Bool-cases (c == sep)) [
  | inl e ↦
      let (p, ps, h) = split_ne sep s in
      rw (e, h) (ground (arith, ap (join sep) (sym h) ∙ join-split sep s))
  | inr e ↦ rw e (join-push sep c (split sep s) ∙ ap (◌∷◌ c) (join-split sep s))
]

-- A piece without the separator comes off whole.
split-append :
    (sep : ℕ) (p s : List ℕ) → All (λ c. c ≢ sep) p → split sep (p ++ sep ∷ s) ≡ p ∷ split sep s
unfolding split
split-append sep [] s h = ground arith
split-append sep (c ∷ p) s h = rw (split-append sep p s h.1) (ground (arith, h.0))

split_whole : (sep : ℕ) (p : List ℕ) → All (λ c. c ≢ sep) p → split sep p ≡ p ∷ []
unfolding split
split_whole sep [] h = refl
split_whole sep (c ∷ p) h = rw (split_whole sep p h.1) (ground (arith, h.0))

digits_lack_dot : (n : ℕ) (s : List ℕ) {v : ℕ} → digits_value n s ≡ some v → All (λ c. c ≢ b'.') s
unfolding digits_value
digits_lack_dot n [] h = tt
digits_lack_dot n (c ∷ s) h = elim (Bool-cases (is_digit c)) [
  | inl e ↦ (ground arith, digits_lack_dot (n * 10 + (c - b'0')) s (rw e at h))
  | inr e ↦ absurd (ground arith)
]

number_lacks_dot : (s : List ℕ) {v : ℕ} → parse_uint31 s ≡ some v → All (λ c. c ≢ b'.') s
unfolding parse_uint31
number_lacks_dot [] h = tt
number_lacks_dot (c ∷ s) h = elim (Option-cases (digits_value 0 (c ∷ s))) [
  | inl e ↦ absurd (ground arith)
  | inr (n, e) ↦ digits_lack_dot 0 (c ∷ s) e
]

three_numbers :
    (p q r : List ℕ) {a b c : ℕ}
    → parse_uint31 p ≡ some a
    → parse_uint31 q ≡ some b
    → parse_uint31 r ≡ some c
    → three_parts (p ∷ q ∷ r ∷ []) ≡ some (a, b, c)
unfolding three_parts
three_numbers p q r x y z = ground arith

abbrev pub dotted : List ℕ → List ℕ → List ℕ → List ℕ
dotted p q r = p ++ b'.' ∷ (q ++ b'.' ∷ r)

split_triple_of :
    (p q r : List ℕ) {a b c : ℕ}
    → parse_uint31 p ≡ some a
    → parse_uint31 q ≡ some b
    → parse_uint31 r ≡ some c
    → split_triple (dotted p q r) ≡ some (a, b, c)
unfolding split_triple
split_triple_of p q r x y z =
    ap three_parts (
      split-append b'.' p (q ++ b'.' ∷ r) (number_lacks_dot p x)
      ∙ ap (◌∷◌ p) (
          split-append b'.' q r (number_lacks_dot q y)
          ∙ ap (◌∷◌ q) (split_whole b'.' r (number_lacks_dot r z))))
    ∙ three_numbers p q r x y z

-- Three numbers of at most 31 bits with dots between them, behind a v or not, are read as the
-- release with these numbers, once the space around them is trimmed.
pub parse-dotted :
    (trim_space : List ℕ → List ℕ) (s p q r : List ℕ) {a b c : ℕ}
    → trim_v (trim_space s) ≡ dotted p q r
    → parse_uint31 p ≡ some a
    → parse_uint31 q ≡ some b
    → parse_uint31 r ≡ some c
    → parse trim_space s
      ≡ record { raw = trim_space s; kind = release; major = a; minor = b; patch = c }
unfolding parse
parse-dotted trim_space s p q r e x y z =
    ap (version_of (trim_space s)) (ap split_triple e ∙ split_triple_of p q r x y z)

number_bound : (s : List ℕ) {n : ℕ} → parse_uint31 s ≡ some n → n < 2 ^ 31
unfolding parse_uint31
number_bound [] h = absurd (ground arith)
number_bound (c ∷ s) h = ground arith

-- What a release was read from.
abbrev pub ReadFrom : List ℕ → Version → Type 0
ReadFrom s v =
    (p : List ℕ) × (q : List ℕ) × (r : List ℕ) × (trim_v s ≡ dotted p q r)
    × (parse_uint31 p ≡ some v.major)
    × (parse_uint31 q ≡ some v.minor)
    × (parse_uint31 r ≡ some v.patch)
    × (v.major < 2 ^ 31)
    × (v.minor < 2 ^ 31)
    × (v.patch < 2 ^ 31)

triple_inverse :
    (p q r : List ℕ) {a b c : ℕ}
    → triple_of p q r ≡ some (a, b, c)
    → (parse_uint31 p ≡ some a) × (parse_uint31 q ≡ some b) × (parse_uint31 r ≡ some c)
unfolding triple_of
triple_inverse p q r h = ground arith

parts_inverse :
    (ps : List (List ℕ)) {a b c : ℕ}
    → three_parts ps ≡ some (a, b, c)
    → (p : List ℕ) × (q : List ℕ) × (r : List ℕ) × (ps ≡ p ∷ q ∷ r ∷ [])
      × (triple_of p q r ≡ some (a, b, c))
unfolding three_parts
parts_inverse (p ∷ q ∷ r ∷ []) h = (p, q, r, refl, h)
parts_inverse [] h = absurd (ground arith)
parts_inverse (p ∷ []) h = absurd (ground arith)
parts_inverse (p ∷ q ∷ []) h = absurd (ground arith)
parts_inverse (p ∷ q ∷ r ∷ t ∷ ps) h = absurd (ground arith)

Reads : List ℕ → Version → Type 0
Reads s v = (v.raw ≡ s) × ((v.kind ≡ unreleased) ⊎ (v.kind ≡ release) × ReadFrom s v)

version_of-Reads :
    (s : List ℕ) (o : Option (ℕ × ℕ × ℕ)) → split_triple (trim_v s) ≡ o → Reads s (version_of s o)
unfolding version_of Reads split_triple
version_of-Reads s none e = (refl, inl refl)
version_of-Reads s (some (a, b, c)) e =
    let (p, q, r, h, t) = parts_inverse (split b'.' (trim_v s)) e in
    let (x, y, z) = triple_inverse p q r t in
    (
      refl,
      inr (
        refl,
        (
          p,
          q,
          r,
          sym (join-split b'.' (trim_v s)) ∙ ap (join b'.') h,
          x,
          y,
          z,
          number_bound p x,
          number_bound q y,
          number_bound r z,
        ),
      ),
    )

-- Every text is read, as itself without the space around it. It is a release only if it is three
-- numbers with dots between them, behind a v or not, and the release has these numbers, none of
-- them of more than 31 bits; anything else names no release.
pub parse_total :
    (trim_space : List ℕ → List ℕ) (s : List ℕ)
    → ((parse trim_space s).raw ≡ trim_space s)
      × (((parse trim_space s).kind ≡ unreleased)
          ⊎ ((parse trim_space s).kind ≡ release) × ReadFrom (trim_space s) (parse trim_space s))
unfolding parse Reads
parse_total trim_space s =
    version_of-Reads (trim_space s) (split_triple (trim_v (trim_space s))) refl
