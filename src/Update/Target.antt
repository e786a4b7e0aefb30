-- ===== src/Update/Target.antt =====
-- Which release a node converges on. internal/update/update.go
use agentic_stats.Prelude.{
  ◌≡◌, ◌≢◌, ◌↔◌, ◌⊎◌, refl, sym, subst, Bool, true, false, inl, inr, none, some, List, [], ◌∷◌,
  arith, is_empty, All, In, Bool-cases,
}
use agentic_stats.Version.{
  Version, newer, parse, is_release, rank, version_of, split_triple, three_parts, trim_v, split,
}
use agentic_stats.Release.{Text}
use agentic_stats.Update.{no_version, is_newer, target_step, target_loop, target}

both : (b : Bool) → b ≡ true → b ≡ false → ⊥
both b x y = ground arith

newer_trans : (u v w : Version) → is_newer u v ≡ true → is_newer v w ≡ true → is_newer u w ≡ true
unfolding is_newer rank
newer_trans u v w h k = ground arith

newer_still :
    (u v w : Version) → is_newer u v ≡ false → is_newer v w ≡ false → is_newer u w ≡ true → ⊥
unfolding is_newer rank is_release
newer_still u v w h k l = ground arith

newer-is_release : (v w : Version) → is_newer v w ≡ true → is_release v ≡ true
unfolding is_newer rank is_release
newer-is_release v w h = ground arith

not_release_newer : (v w : Version) → is_release v ≡ false → is_newer v w ≡ false
unfolding is_newer rank is_release
not_release_newer v w h = ground arith

is_newer_self : (v : Version) → is_newer v v ≡ false
unfolding is_newer rank
is_newer_self v = ground arith

-- Where the loop stands: with nothing, or with a text and the release that it names.
abbrev Stands : (Text → Text) → Version → Text × Version → Type 0
Stands trim current (best, v) =
    (is_empty best ≡ true)
    ⊎ (is_empty best ≡ false) × (v ≡ parse trim best) × (is_newer v current ≡ true)

-- Where it ends: where it stood if nothing is newer, and else at or above everything.
abbrev Ends : (Text → Text) → Version → List Text → Text × Version → Text × Version → Type 0
Ends trim current reported (best, v) (b, w) =
    (is_empty best ≡ true)
      × (is_empty b ≡ true)
      × All (λ r. is_newer (parse trim r) current ≡ false) reported
    ⊎ (is_empty b ≡ false)
      × (w ≡ parse trim b)
      × (is_newer w current ≡ true)
      × ((b ≡ best) ⊎ In b reported)
      × All (λ r. is_newer (parse trim r) w ≡ false) reported
      × ((is_empty best ≡ true) ⊎ (is_newer v w ≡ false))

-- A text that is no release, or not a newer one, changes nothing.
skip_Ends :
    (trim : Text → Text) (current : Version) (raw : Text) (reported : List Text)
    (s t : Text × Version)
    → is_newer (parse trim raw) current ≡ false
    → Ends trim current reported s t
    → Ends trim current (raw ∷ reported) s t
skip_Ends trim current raw reported s t h (inl (e, f, a)) = inl (e, f, (h, a))
skip_Ends trim current raw reported s t h (inr (n, p, q, from, a, top)) = inr (
  n,
  p,
  q,
  later from,
  (
    elim (Bool-cases (is_newer (parse trim raw) t.1)) [
      | inl x ↦ absurd (
          both (is_newer (parse trim raw) current) (newer_trans (parse trim raw) t.1 current x q) h)
      | inr x ↦ x
    ],
    a,
  ),
  top,
)
  where
    later : (t.0 ≡ s.0) ⊎ In t.0 reported → (t.0 ≡ s.0) ⊎ In t.0 (raw ∷ reported)
    later (inl e) = inl e
    later (inr i) = inr (inr i)

no_release_in_nothing : (trim : Text → Text) → trim [] ≡ [] → is_release (parse trim []) ≡ false
unfolding parse version_of split_triple three_parts trim_v split is_release
no_release_in_nothing trim h = rw h refl

newer_not_empty :
    (trim : Text → Text) (current : Version) (raw : Text)
    → trim [] ≡ []
    → is_newer (parse trim raw) current ≡ true
    → is_empty raw ≡ false
newer_not_empty trim current [] t h = absurd (
    both (is_newer (parse trim []) current) h
      (not_release_newer (parse trim []) current (no_release_in_nothing trim t)))
newer_not_empty trim current (c ∷ raw) t h = refl

-- The text is taken.
take_Ends :
    (trim : Text → Text) (current : Version) (raw : Text) (reported : List Text)
    (s t : Text × Version)
    → is_empty raw ≡ false
    → (is_empty s.0 ≡ true) ⊎ (is_newer (parse trim raw) s.1 ≡ true)
    → Ends trim current reported (raw, parse trim raw) t
    → Ends trim current (raw ∷ reported) s t
take_Ends trim current raw reported s t n old (inl (e, f, a)) = absurd (both (is_empty raw) e n)
take_Ends trim current raw reported s t n old (inr (m, p, q, from, a, inl e)) =
    absurd (both (is_empty raw) e n)
take_Ends trim current raw reported s t n old (inr (m, p, q, from, a, inr top)) = inr (
  m,
  p,
  q,
  inr from,
  (top, a),
  (elim old [
    | inl e ↦ inl e
    | inr y ↦ inr (elim (Bool-cases (is_newer s.1 t.1)) [
      | inl x ↦
          absurd
            (both (is_newer (parse trim raw) t.1) (newer_trans (parse trim raw) s.1 t.1 y x) top)
      | inr x ↦ x
    ])
  ]),
)

-- What stands is kept: the text is no newer than it.
keep_Ends :
    (trim : Text → Text) (current : Version) (raw : Text) (reported : List Text)
    (s t : Text × Version)
    → is_empty s.0 ≡ false
    → is_newer (parse trim raw) s.1 ≡ false
    → Ends trim current reported s t
    → Ends trim current (raw ∷ reported) s t
keep_Ends trim current raw reported s t n old (inl (e, f, a)) = absurd (both (is_empty s.0) e n)
keep_Ends trim current raw reported s t n old (inr (m, p, q, from, a, top)) =
    inr (m, p, q, later from, (below top, a), top)
  where
    below :
        (is_empty s.0 ≡ true) ⊎ (is_newer s.1 t.1 ≡ false) → is_newer (parse trim raw) t.1 ≡ false
    below (inl e) = absurd (both (is_empty s.0) e n)
    below (inr f) = elim (Bool-cases (is_newer (parse trim raw) t.1)) [
      | inl x ↦ absurd (newer_still (parse trim raw) s.1 t.1 old f x)
      | inr x ↦ x
    ]

    later : (t.0 ≡ s.0) ⊎ In t.0 reported → (t.0 ≡ s.0) ⊎ In t.0 (raw ∷ reported)
    later (inl e) = inl e
    later (inr i) = inr (inr i)

step_cases :
    (trim : Text → Text) (current : Version) (raw : Text) (s : Text × Version)
    → let v = parse trim raw in
      let t = target_step trim current raw s in
      (t ≡ s) × (is_newer v current ≡ false)
      ⊎ (t ≡ (raw, v))
        × (is_newer v current ≡ true)
        × ((is_empty s.0 ≡ true) ⊎ (is_newer v s.1 ≡ true))
      ⊎ (t ≡ s) × (is_empty s.0 ≡ false) × (is_newer v s.1 ≡ false)
unfolding target_step
step_cases trim current raw (best, best_v) = elim (Bool-cases (is_release (parse trim raw))) [
  | inr r ↦ inl (rw r refl, not_release_newer (parse trim raw) current r)
  | inl r ↦ elim (Bool-cases (is_newer (parse trim raw) current)) [
    | inr c ↦ inl (rw (r, c) refl, c)
    | inl c ↦ elim (Bool-cases (is_empty best)) [
      | inl e ↦ inr (inl (rw (r, c, e) refl, c, inl e))
      | inr e ↦ elim (Bool-cases (is_newer (parse trim raw) best_v)) [
        | inl n ↦ inr (inl (rw (r, c, e, n) refl, c, inr n))
        | inr n ↦ inr (inr (rw (r, c, e, n) refl, e, n))
      ]
    ]
  ]
]

target_loop-Ends :
    (trim : Text → Text) (current : Version) (reported : List Text) (s : Text × Version)
    → trim [] ≡ []
    → Stands trim current s
    → Ends trim current reported s (target_loop trim current reported s)
unfolding target_loop
target_loop-Ends trim current [] s e (inl h) = inl (h, h, tt)
target_loop-Ends trim current [] s e (inr (n, p, q)) =
    inr (n, p, q, inl refl, tt, inr (is_newer_self s.1))
target_loop-Ends trim current (raw ∷ reported) s e h =
    let P : Text × Version → Type 0 =
      (λ t. Ends trim current (raw ∷ reported) s (target_loop trim current reported t)) in
    elim (step_cases trim current raw s) [
      | inl (k, c) ↦
          subst P (sym k) (
            skip_Ends trim current raw reported s _ c
              (target_loop-Ends trim current reported s e h))
      | inr (inl (k, c, old)) ↦
          let n = newer_not_empty trim current raw e c in
          subst P (sym k) (
            take_Ends trim current raw reported s _ n old
              (target_loop-Ends trim current reported (raw, parse trim raw) e (inr (n, refl, c))))
      | inr (inr (k, n, old)) ↦ subst P (sym k) (
          keep_Ends trim current raw reported s _ n old
            (target_loop-Ends trim current reported s e h))
    ]

-- One of the texts, which names a release that is newer than the build, and than which no text
-- names a newer one.
abbrev pub IsTarget : (Text → Text) → Version → List Text → Text → Type 0
IsTarget trim current reported best =
    In best reported
    × (rank (parse trim best) current ≡ newer)
    × All (λ r. rank (parse trim r) (parse trim best) ≢ newer) reported

newer_rank : (v w : Version) → (is_newer v w ≡ true) ↔ (rank v w ≡ newer)
unfolding is_newer
newer_rank v w = ground arith

not_newer :
    (trim : Text → Text) (w : Version) (reported : List Text)
    → All (λ r. is_newer (parse trim r) w ≡ false) reported
    → All (λ r. rank (parse trim r) w ≢ newer) reported
not_newer trim w [] h = tt
not_newer trim w (r ∷ reported) h = (
  (λ e. both (is_newer (parse trim r) w) ((newer_rank (parse trim r) w).1 e) h.0),
  not_newer trim w reported h.1,
)

found :
    (best : Text) (reported : List Text)
    → is_empty best ≡ false
    → (best ≡ []) ⊎ In best reported
    → In best reported
found best reported n (inl e) = absurd (both (is_empty best) (rw e refl) n)
found best reported n (inr i) = i

-- An unreleased build has no target. A release has one where a text names a newer release, and it
-- is one of the texts and the highest release that they name; where none does, it has none.
pub target_lem :
    (trim : Text → Text) (current : Version) (reported : List Text)
    → trim [] ≡ []
    → (is_release current ≡ false) × (target trim current reported ≡ none)
      ⊎ (is_release current ≡ true)
        × (target trim current reported ≡ none)
        × All (λ r. rank (parse trim r) current ≢ newer) reported
      ⊎ (is_release current ≡ true)
        × ((best : Text) × (target trim current reported ≡ some best)
            × IsTarget trim current reported best)
unfolding target
target_lem trim current reported e = elim (Bool-cases (is_release current)) [
  | inr r ↦ inl (r, rw r refl)
  | inl r ↦ elim (target_loop-Ends trim current reported ([], no_version) e (inl refl)) [
    | inl (x, n, a) ↦ inr (inl (r, rw (r, n) refl, not_newer trim current reported a))
    | inr (n, q, c, from, a, top) ↦
        let (best, v) = target_loop trim current reported ([], no_version) in
        inr (
          inr (
            r,
            (
              best,
              rw (r, n) refl,
              (
                found best reported n from,
                (newer_rank (parse trim best) current).0
                    (subst (λ w. is_newer w current ≡ true) q c),
                not_newer trim (parse trim best) reported
                    (subst (λ w. All (λ r. is_newer (parse trim r) w ≡ false) reported) q a),
              ),
            ),
          ))
  ]
]
