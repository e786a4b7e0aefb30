-- ===== src/Source/Start.antt =====
-- Where a read of a file starts. resolveStart of internal/source/tail.go
use agentic_stats.Prelude.{
  ℕ, ◌||◌, ◌≤◌, ◌<◌, ◌≡◌, ◌≢◌, ◌↔◌, refl, sym, subst, Bool, true, false, not, ◌&&◌, ◌⊎◌, inl, inr,
  some, arith, min, ltb, ltb-eq_false, ==_iff, ◌==◌, length, take, Bool-cases,
}
use agentic_stats.Source.{
  Bytes, FileIdentity, File, Cursor, Continuity, appended, truncated, replaced, is_zero,
  same_identity, fingerprint, fingerprint_size, restart, by_content, resolve_start,
}

-- An identity that the file system gave.
abbrev pub IsKnown : FileIdentity → Type 0
IsKnown id = (id.device ≢ 0) ⊎ (id.serial ≢ 0)

-- The file at the path is another one than the cursor is of: by its identity where both are known,
-- and by the fingerprint of its beginning where the cursor has one and not both are known.
abbrev pub IsReplaced : File → Cursor → ℕ → Type 0
IsReplaced f from fp =
    (IsKnown from.identity × IsKnown f.info.identity × (f.info.identity ≢ from.identity))
    ⊎ ((IsKnown from.identity × IsKnown f.info.identity → ⊥)
        × (from.fingerprint ≢ 0)
        × (fp ≢ from.fingerprint))

-- Where a read starts and what it reports: at the beginning of a file that is shorter than the
-- cursor's offset or was replaced, and at the cursor's offset of every other.
abbrev pub Start : File → Cursor → ℕ → ℕ → Continuity → Type 0
Start f from fp start c =
    ((f.info.size < from.offset) × (c ≡ truncated) × (start ≡ 0))
    ⊎ ((from.offset ≤ f.info.size) × IsReplaced f from fp × (c ≡ replaced) × (start ≡ 0))
    ⊎ ((from.offset ≤ f.info.size)
        × (IsReplaced f from fp → ⊥)
        × (c ≡ appended)
        × (start ≡ from.offset))

fingerprint_some :
    (hash : Bytes → ℕ) (f : File)
    → f.info.size ≤ length f.content
    → (fp : ℕ) × (fingerprint hash f.content f.info.size ≡ some fp)
unfolding fingerprint
fingerprint_some hash f h =
    let n = min f.info.size fingerprint_size in
    elim (Bool-cases (n == 0)) [
      | inl e ↦ (0, rw e refl)
      | inr e ↦
          (hash (take n f.content), rw (e, ltb-eq_false (length f.content) n (omega arith)) refl)
    ]

not_ltb : (a b : ℕ) → ltb a b ≡ false → b ≤ a
not_ltb a b h = ground arith

shorter : (a b : ℕ) → ltb a b ≡ true → a < b
shorter a b h = ground arith

and_left : (a b : Bool) → (a && b) ≡ true → a ≡ true
and_left true b h = refl
and_left false b h = cc

and_true : (a b : Bool) → (a && b) ≡ true → (a ≡ true) × (b ≡ true)
and_true true b h = (refl, h)
and_true false b h = cc

IsKnown-iff : (id : FileIdentity) → (not (is_zero id) ≡ true) ↔ IsKnown id
unfolding is_zero
IsKnown-iff id = (there, back)
  where
    there : not ((id.device == 0) && (id.serial == 0)) ≡ true → IsKnown id
    there h = elim (Bool-cases (id.device == 0)) [
      | inr e ↦ inl (λ q. ground (arith, e, q))
      | inl e ↦ inr (λ q. ground (arith, e, q, h))
    ]

    back : IsKnown id → not ((id.device == 0) && (id.serial == 0)) ≡ true
    back (inl n) = ground (arith, n)
    back (inr n) = ground (arith, n)

same_identity_iff : (a b : FileIdentity) → (same_identity a b ≡ true) ↔ (a ≡ b)
unfolding same_identity
same_identity_iff a b = (there, (λ e. rw e (ground arith)))
  where
    there : ((a.device == b.device) && (a.serial == b.serial)) ≡ true → a ≡ b
    there h =
        let (d, s) = and_true (a.device == b.device) (a.serial == b.serial) h in
        rw ((==_iff a.device b.device).0 d, (==_iff a.serial b.serial).0 s) refl

are_known : File → Cursor → Bool
are_known f from = not (is_zero from.identity) && not (is_zero f.info.identity)

is_replaced : File → Cursor → ℕ → Bool
is_replaced f from fp =
    (are_known f from && not (same_identity from.identity f.info.identity))
    || (not (are_known f from) && (not (from.fingerprint == 0) && not (fp == from.fingerprint)))

are_known_iff :
    (f : File) (from : Cursor)
    → (are_known f from ≡ true) ↔ (IsKnown from.identity × IsKnown f.info.identity)
unfolding are_known
are_known_iff f from = (
  (λ h.
      let (a, b) = and_true (not (is_zero from.identity)) (not (is_zero f.info.identity)) h in
      ((IsKnown-iff from.identity).0 a, (IsKnown-iff f.info.identity).0 b)),
  (λ h. rw ((IsKnown-iff from.identity).1 h.0, (IsKnown-iff f.info.identity).1 h.1) refl),
)

clash : (b : Bool) → b ≡ true → b ≡ false → ⊥
clash b x y = cc

is_replaced_iff :
    (f : File) (from : Cursor) (fp : ℕ) → (is_replaced f from fp ≡ true) ↔ IsReplaced f from fp
unfolding is_replaced
is_replaced_iff f from fp = (there, back)
  where
    there :
        ((are_known f from && not (same_identity from.identity f.info.identity))
            || (not (are_known f from)
                && (not (from.fingerprint == 0) && not (fp == from.fingerprint))))
          ≡ true
        → IsReplaced f from fp
    there h = elim (Bool-cases (are_known f from)) [
      | inl k ↦
          let (a, b) = (are_known_iff f from).0 k in
          let other : same_identity from.identity f.info.identity ≡ false = ground (arith, h, k) in
          inl (
            a,
            b,
            (λ e. clash _ ((same_identity_iff from.identity f.info.identity).1 (sym e)) other),
          )
      | inr k ↦ inr (
        (λ g. clash _ ((are_known_iff f from).1 g) k),
        (λ e. ground (arith, h, k, e)),
        (λ e. ground (arith, h, k, e)),
      )
    ]

    back :
        IsReplaced f from fp
        → ((are_known f from && not (same_identity from.identity f.info.identity))
            || (not (are_known f from)
                && (not (from.fingerprint == 0) && not (fp == from.fingerprint))))
          ≡ true
    back (inl (a, b, n)) = elim (Bool-cases (same_identity from.identity f.info.identity)) [
      | inl e ↦ absurd (n (sym ((same_identity_iff from.identity f.info.identity).0 e)))
      | inr e ↦ rw ((are_known_iff f from).1 (a, b), e) refl
    ]
    back (inr (n, a, b)) = elim (Bool-cases (are_known f from)) [
      | inl k ↦ absurd (n ((are_known_iff f from).0 k))
      | inr k ↦ rw k (ground (arith, a, b))
    ]

began_over :
    (f : File) (from : Cursor) (fp : ℕ)
    → from.offset ≤ f.info.size
    → is_replaced f from fp ≡ true
    → Start f from fp 0 replaced
began_over f from fp le h = inr (inl (le, (is_replaced_iff f from fp).0 h, refl, refl))

went_on :
    (f : File) (from : Cursor) (fp : ℕ)
    → from.offset ≤ f.info.size
    → is_replaced f from fp ≡ false
    → Start f from fp from.offset appended
went_on f from fp le h =
    inr (inr (le, (λ r. clash _ ((is_replaced_iff f from fp).1 r) h), refl, refl))

pub resolve_start-some :
    (hash : Bytes → ℕ) (f : File) (from : Cursor)
    → f.info.size ≤ length f.content
    → (fp : ℕ) × (fingerprint hash f.content f.info.size ≡ some fp)
      × ((s : ℕ × Continuity × ℕ) × (resolve_start hash f from ≡ some s)
          × Start f from fp (s.0) (s.1))
unfolding resolve_start restart by_content is_replaced are_known
resolve_start-some hash f from h =
    let (fp, e) = fingerprint_some hash f h in
    let known = not (is_zero from.identity) && not (is_zero f.info.identity) in
    let same = same_identity from.identity f.info.identity in
    let fresh = (from.offset == 0) && (from.fingerprint == 0) in
    let changed = not (from.fingerprint == 0) && not (fp == from.fingerprint) in
    (
      fp,
      e,
      elim (Bool-cases (ltb f.info.size from.offset)) [
        | inl t ↦ (
          (0, truncated, fp),
          rw (t, e) refl,
          inl (shorter f.info.size from.offset t, refl, refl),
        )
        | inr t ↦
            let fits = not_ltb f.info.size from.offset t in
            elim (Bool-cases (known && not same)) [
              | inl k ↦ (
                (0, replaced, fp),
                rw (t, k, e) refl,
                began_over f from fp fits (ground (arith, k)),
              )
              | inr k ↦ elim (Bool-cases fresh) [
                | inl z ↦
                    let at : from.offset ≡ 0 = (==_iff from.offset 0).0 (and_left _ _ z) in
                    (
                      (0, appended, fp),
                      rw (t, k, z, e) refl,
                      subst (λ o. Start f from fp o appended) at
                          (went_on f from fp fits (ground (arith, k, z))),
                    )
                | inr z ↦ elim (Bool-cases (known && same)) [
                  | inl m ↦ (
                    (from.offset, appended, from.fingerprint),
                    rw (t, k, z, m) refl,
                    went_on f from fp fits (ground (arith, k, m)),
                  )
                  | inr m ↦ elim (Bool-cases changed) [
                    | inl c ↦ (
                      (0, replaced, fp),
                      rw (t, k, z, m, e, c) refl,
                      began_over f from fp fits (ground (arith, k, m, c)),
                    )
                    | inr c ↦ (
                      (from.offset, appended, fp),
                      rw (t, k, z, m, e, c) refl,
                      went_on f from fp fits (ground (arith, k, m, c)),
                    )
                  ]
                ]
              ]
            ]
      ],
    )
