-- ===== src/Sync/Digest.antt =====
-- Where two nodes that claim the same range hold different records. internal/mesh/sync/sync.go
use mathlib.Core.Option.{some-injective}
use agentic_stats.Prelude.{
  ℕ, ◌*◌, ◌≤◌, ◌<◌, ◌≡◌, refl, sym, ap, ◌∙◌, Bool, true, false, ◌&&◌, ◌⊎◌, inl, inr, Option, none,
  some, List, [], ◌∷◌, arith, ◌==◌, ltb, if◌then◌else◌, Bool-cases, Option-cases,
}

abbrev pub Text : Type 0
Text = List ℕ

unfoldable pub text_eq : Text → Text → Bool
text_eq [] [] = true
text_eq (a ∷ s) (b ∷ t) = (a == b) && text_eq s t
text_eq _ _ = false

abbrev pub Digests : Type 0
Digests = List (ℕ × Text)

-- `theirs[bucket]`
unfoldable pub digest_at : Digests → ℕ → Option Text
digest_at [] b = none
digest_at ((c, d) ∷ ds) b = if c == b then some d else digest_at ds b

abbrev pub bucket_size : ℕ
bucket_size = 1000

-- The part before the first ':', or the whole text.
unfoldable pub count_of : Text → Text
count_of [] = []
count_of (c ∷ s) = let rest = count_of s in if c == b':' then [] else c ∷ rest

-- Two digests of one bucket that count as many records and yet differ.
unfoldable pub disagree : Text → Option Text → Bool
disagree digest none = false
disagree digest (some other) =
    if text_eq other digest then false else text_eq (count_of digest) (count_of other)

-- `if found < 0 || start < found { found = start }`; `none` is the code's -1.
unfoldable pub lower : Option ℕ → ℕ → Option ℕ
lower none start = some start
lower (some found) start = if ltb start found then some start else some found

-- The loop over this node's buckets.
unfoldable pub first_mismatch_loop : Digests → Option ℕ → Digests → Option ℕ
first_mismatch_loop theirs found [] = found
first_mismatch_loop theirs found ((bucket, digest) ∷ mine) =
    first_mismatch_loop theirs
      (if disagree digest (digest_at theirs bucket)
        then lower found (bucket * bucket_size)
        else found)
      mine

unfoldable pub first_mismatch : Digests → Digests → Option ℕ
first_mismatch mine theirs = first_mismatch_loop theirs none mine

unfoldable pub resend_from : ℕ → ℕ → Digests → Digests → Option ℕ
resend_from have peer_seq mine theirs =
    if ltb peer_seq have
    then elim (first_mismatch mine theirs) [
      | none ↦ some peer_seq
      | some from ↦ if ltb from peer_seq then some from else some peer_seq
    ]
    else first_mismatch mine theirs

abbrev pub Listed : ℕ → Text → Digests → Type 0
Listed b d [] = ⊥
Listed b d ((c, e) ∷ ds) = ((b ≡ c) × (d ≡ e)) ⊎ Listed b d ds

-- A bucket on which the two sides hold different records.
abbrev pub Mismatch : Digests → Digests → ℕ → Type 0
Mismatch mine theirs b = (d : Text) × Listed b d mine × (disagree d (digest_at theirs b) ≡ true)

-- The loop only goes down.
loop_le :
    (mine theirs : Digests) (f : ℕ)
    → (r : ℕ) × (first_mismatch_loop theirs (some f) mine ≡ some r) × (r ≤ f)
unfolding first_mismatch_loop lower
loop_le [] theirs f = (f, refl, omega arith)
loop_le ((b, d) ∷ mine) theirs f = elim (Bool-cases (disagree d (digest_at theirs b))) [
  | inl e ↦ elim (Bool-cases (ltb (b * bucket_size) f)) [
    | inl k ↦
        let (r, p, le) = loop_le mine theirs (b * bucket_size) in (r, rw (e, k) p, ground arith)
    | inr k ↦ let (r, p, le) = loop_le mine theirs f in (r, rw (e, k) p, le)
  ]
  | inr e ↦ let (r, p, le) = loop_le mine theirs f in (r, rw e p, le)
]

-- Every mismatched bucket is found, or a lower one is.
loop_complete :
    (mine theirs : Digests) (found : Option ℕ) (b : ℕ)
    → Mismatch mine theirs b
    → (r : ℕ) × (first_mismatch_loop theirs found mine ≡ some r) × (r ≤ b * bucket_size)
unfolding first_mismatch_loop lower
loop_complete [] theirs found b (d, l, m) = absurd l
loop_complete ((c, e) ∷ mine) theirs none b (d, inl (p, q), m) =
    let (r, k, le) = loop_le mine theirs (b * bucket_size) in (r, rw (← p, ← q, m) k, le)
loop_complete ((c, e) ∷ mine) theirs (some f) b (d, inl (p, q), m) =
    elim (Bool-cases (ltb (b * bucket_size) f)) [
      | inl x ↦
          let (r, k, le) = loop_le mine theirs (b * bucket_size) in (r, rw (← p, ← q, m, x) k, le)
      | inr x ↦ let (r, k, le) = loop_le mine theirs f in (r, rw (← p, ← q, m, x) k, ground arith)
    ]
loop_complete ((c, e) ∷ mine) theirs found b (d, inr l, m) = loop_complete mine theirs _ b (d, l, m)

lower_cases : (found : Option ℕ) (s r : ℕ) → lower found s ≡ some r → (found ≡ some r) ⊎ (r ≡ s)
unfolding lower
lower_cases none s r h = ground arith
lower_cases (some f) s r h = ground arith

-- What is found is the start of a mismatched bucket, or what was found before.
loop_sound :
    (mine theirs : Digests) (found : Option ℕ) (r : ℕ)
    → first_mismatch_loop theirs found mine ≡ some r
    → (found ≡ some r) ⊎ ((b : ℕ) × Mismatch mine theirs b × (r ≡ b * bucket_size))
unfolding first_mismatch_loop lower
loop_sound [] theirs found r h = inl h
loop_sound ((c, e) ∷ mine) theirs found r h = elim (Bool-cases (disagree e (digest_at theirs c))) [
  | inl m ↦ elim (loop_sound mine theirs (lower found (c * bucket_size)) r (rw m at h)) [
    | inl k ↦ elim (lower_cases found (c * bucket_size) r k) [
      | inl same ↦ inl same
      | inr start ↦ inr (c, (e, inl (refl, refl), m), start)
    ]
    | inr (b, (d, l, k), s) ↦ inr (b, (d, inr l, k), s)
  ]
  | inr m ↦ elim (loop_sound mine theirs found r (rw m at h)) [
    | inl k ↦ inl k
    | inr (b, (d, l, k), s) ↦ inr (b, (d, inr l, k), s)
  ]
]

-- The first mismatch is the start of the lowest bucket on which the two sides count as many records
-- and hold different ones: it is the start of such a bucket, and none starts below it. Where there
-- is no mismatch to be found there is no such bucket.
pub first_mismatch-least :
    (mine theirs : Digests)
    → ((first_mismatch mine theirs ≡ none) × ((b : ℕ) → ¬ Mismatch mine theirs b))
      ⊎ ((low : ℕ) × Mismatch mine theirs low
          × (first_mismatch mine theirs ≡ some (low * bucket_size))
          × ((b : ℕ) → Mismatch mine theirs b → low ≤ b))
unfolding first_mismatch
first_mismatch-least mine theirs = elim (Option-cases (first_mismatch_loop theirs none mine)) [
  | inl e ↦ inl (e, λ b m. let (r, k, _) = loop_complete mine theirs none b m in cc)
  | inr (r, e) ↦ elim (loop_sound mine theirs none r e) [
    | inl k ↦ cc
    | inr (low, m, s) ↦ inr (
      low,
      m,
      e ∙ ap some s,
      λ b mb.
          let (q, k, le) = loop_complete mine theirs none b mb in
          let same : r ≡ q = some-injective r q (sym e ∙ k) in omega arith,
    )
  ]
]

-- A peer that claims as much as this node is sent something exactly when a bucket disagrees, from
-- the start of the lowest such bucket on. A peer that is behind is sent everything above what it
-- claims, and from the start of the lowest disagreeing bucket where that lies lower.
pub resend_from-min :
    (have peer_seq : ℕ) (mine theirs : Digests)
    → ((have ≤ peer_seq) × (resend_from have peer_seq mine theirs ≡ first_mismatch mine theirs))
      ⊎ ((peer_seq < have)
          × ((after : ℕ) × (resend_from have peer_seq mine theirs ≡ some after)
              × (after ≤ peer_seq)
              × ((b : ℕ) → Mismatch mine theirs b → after ≤ b * bucket_size)
              × ((after ≡ peer_seq) ⊎ (first_mismatch mine theirs ≡ some after))))
unfolding resend_from
resend_from-min have peer_seq mine theirs = elim (Bool-cases (ltb peer_seq have)) [
  | inr e ↦ inl (ground arith, rw e)
  | inl e ↦ elim (first_mismatch-least mine theirs) [
    | inl (n, no_mismatch) ↦ inr (
      ground arith,
      (peer_seq, rw (e, n), omega arith, (λ b m. absurd (no_mismatch b m)), inl refl),
    )
    | inr (low, m, f, least) ↦ elim (Bool-cases (ltb (low * bucket_size) peer_seq)) [
      | inl k ↦ inr (
        ground arith,
        (low * bucket_size, rw (e, f, k), ground arith, (λ b mb. omega (arith, least b mb)), inr f),
      )
      | inr k ↦ inr (
        ground arith,
        (peer_seq, rw (e, f, k), omega arith, (λ b mb. ground (arith, least b mb)), inl refl),
      )
    ]
  ]
]
