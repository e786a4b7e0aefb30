-- ===== src/Release/Reading.antt =====
-- What a manifest that opens is known to be. internal/release/release.go
use agentic_stats.Prelude.{
  ℕ, suc, ◌≡◌, ◌⊎◌, refl, subst, Bool, true, false, inl, inr, some, List, [], ◌∷◌, codes, ◌==◌,
  ==_iff, is_prefix, length, is_empty, All, In, In-All, Bool-cases, Option-cases,
}
use agentic_stats.Release.{
  Text, Library, Manifest, ManifestError, not_signed, no_artifacts, digest_size, trim_star,
  is_plain, has_digest, add_name, add_digest, read_fields, read_line, read_all, whole,
  parse_manifest, open_manifest,
}

-- A line with the digest in hexadecimal and then the name, which may have an asterisk in front.
abbrev pub IsListed : Library → List Text → Text × Text → Type 0
IsListed lib lines d =
    (line : Text) × (hex : Text) × (field : Text) × In line lines
    × (lib.fields line ≡ hex ∷ field ∷ [])
    × (lib.unhex hex ≡ some d.1)
    × (d.0 ≡ trim_star field)

abbrev OnceEach : List (Text × Text) → Type 0
OnceEach [] = Unit
OnceEach (d ∷ ds) = (has_digest ds (d.0) ≡ false) × OnceEach ds

-- Plain file names, each once, with digests of the right size that the lines list.
abbrev pub IsGenuine : Library → List Text → Manifest → Type 0
IsGenuine lib lines m =
    OnceEach m.digests
    × All
        (λ (d : Text × Text).
          (is_plain lib (d.0) ≡ true) × (length d.1 ≡ digest_size) × IsListed lib lines d)
        m.digests

-- What is known of a result, if it is one.
abbrev pub Gives : {E A : Type 0} → (A → Type 0) → E ⊎ A → Type 0
Gives P (inl e) = Unit
Gives P (inr a) = P a

add_digest-IsGenuine :
    (lib : Library) (lines : List Text) (line : ℕ) (text hex field : Text) (m : Manifest)
    → In text lines
    → lib.fields text ≡ hex ∷ field ∷ []
    → IsGenuine lib lines m
    → Gives (IsGenuine lib lines) (add_digest lib line (lib.unhex hex) field m)
unfolding add_name add_digest
add_digest-IsGenuine lib lines line text hex field m i f g = elim (Option-cases (lib.unhex hex)) [
  | inl e ↦ rw e tt
  | inr (sum, e) ↦ elim (Bool-cases (length sum == digest_size)) [
    | inr l ↦ rw (e, add_digest, l) tt
    | inl l ↦ elim (Bool-cases (is_plain lib (trim_star field))) [
      | inr p ↦ rw (e, add_digest, l, p) tt
      | inl p ↦ elim (Bool-cases (has_digest m.digests (trim_star field))) [
        | inl d ↦ rw (e, add_digest, l, p, d) tt
        | inr d ↦
            rw (e, add_digest, l, p, d)
              (
                (d, g.0),
                (
                  (p, (==_iff (length sum) digest_size).0 l, (text, hex, field, i, f, e, refl)),
                  g.1,
                ),
              )
      ]
    ]
  ]
]

read_fields-IsGenuine :
    (lib : Library) (lines : List Text) (line : ℕ) (text : Text) (m : Manifest) (fields : List Text)
    → In text lines
    → lib.fields text ≡ fields
    → IsGenuine lib lines m
    → Gives (IsGenuine lib lines) (read_fields lib line fields m)
unfolding read_fields
read_fields-IsGenuine lib lines line text m [] i f g = g
read_fields-IsGenuine lib lines line text m (hex ∷ []) i f g = tt
read_fields-IsGenuine lib lines line text m (hex ∷ field ∷ []) i f g =
    add_digest-IsGenuine lib lines line text hex field m i f g
read_fields-IsGenuine lib lines line text m (hex ∷ field ∷ more ∷ fields) i f g = tt

read_line-IsGenuine :
    (lib : Library) (lines : List Text) (line : ℕ) (text : Text) (m : Manifest)
    → In text lines
    → IsGenuine lib lines m
    → Gives (IsGenuine lib lines) (read_line lib line text m)
unfolding read_line
read_line-IsGenuine lib lines line text m i g = elim (Bool-cases (is_prefix (codes "#") text)) [
  | inl e ↦ rw e g
  | inr e ↦ rw e (read_fields-IsGenuine lib lines line text m (lib.fields text) i refl g)
]

read_all-IsGenuine :
    (lib : Library) (lines : List Text) (line : ℕ) (texts : List Text) (m : Manifest)
    → All (λ t. In t lines) texts
    → IsGenuine lib lines m
    → Gives (IsGenuine lib lines) (read_all lib line texts m)
unfolding read_all
read_all-IsGenuine lib lines line [] m i g = g
read_all-IsGenuine lib lines line (text ∷ texts) m i g =
    go (read_line lib line text m) (read_line-IsGenuine lib lines line text m i.0 g)
      (λ next h. read_all-IsGenuine lib lines (suc line) texts next i.1 h)
  where
    go :
        (r : ManifestError ⊎ Manifest)
        → Gives (IsGenuine lib lines) r
        → ((next : Manifest)
            → IsGenuine lib lines next
            → Gives (IsGenuine lib lines) (read_all lib (suc line) texts next))
        → Gives
            (IsGenuine lib lines)
            (elim r [ inl e ↦ inl e | inr next ↦ read_all lib (suc line) texts next ])
    go (inl e) h f = tt
    go (inr next) h f = f next h

not_both :
    (r : ManifestError ⊎ Manifest) (e : ManifestError) (m : Manifest) → r ≡ inl e → r ≡ inr m → ⊥
not_both r e m p q = cc

one_result : (r : ManifestError ⊎ Manifest) (n m : Manifest) → r ≡ inr n → r ≡ inr m → n ≡ m
one_result r n m p q = cc

whole-IsGenuine :
    (lib : Library) (lines : List Text) (failed : Bool) (r : ManifestError ⊎ Manifest)
    (m : Manifest)
    → Gives (IsGenuine lib lines) r
    → whole failed r ≡ inr m
    → (failed ≡ false) × (is_empty m.digests ≡ false) × IsGenuine lib lines m
unfolding whole
whole-IsGenuine lib lines failed (inl e) m g h = absurd (cc)
whole-IsGenuine lib lines true (inr n) m g h = absurd (cc)
whole-IsGenuine lib lines false (inr n) m g h = elim (Bool-cases (is_empty n.digests)) [
  | inl e ↦ absurd (not_both (whole false (inr n)) no_artifacts m (rw e refl) h)
  | inr e ↦
      let same : n ≡ m = one_result (whole false (inr n)) n m (rw e refl) h in
      subst (λ k. (false ≡ false) × (is_empty k.digests ≡ false) × IsGenuine lib lines k) same
        (refl, e, g)
]

-- A manifest that opens has a signature that holds for the whole text; it covers at least one
-- artifact, and each under one name only, which is a plain file name, with a digest of 32 bytes
-- that a line of the text gives for that name.
pub open_manifest-IsGenuine :
    (lib : Library) (body signature : Text) (m : Manifest)
    → open_manifest lib body signature ≡ inr m
    → (lib.verify body signature ≡ true)
      × ((lib.scan body).1 ≡ false)
      × (is_empty m.digests ≡ false)
      × IsGenuine lib (lib.scan body).0 m
unfolding open_manifest parse_manifest
open_manifest-IsGenuine lib body signature m h = elim (Bool-cases (lib.verify body signature)) [
  | inr e ↦ absurd (not_both (open_manifest lib body signature) not_signed m (rw e refl) h)
  | inl e ↦
      let read =
        whole-IsGenuine lib (lib.scan body).0 (lib.scan body).1 _ m
          (read_all-IsGenuine lib (lib.scan body).0 1 (lib.scan body).0
            (record { version = []; digests = [] })
            (In-All (λ t. In t (lib.scan body).0) (lib.scan body).0 (λ t i. i)) (tt, tt))
          (rw e at h) in
      (e, read.0, read.1, read.2)
]
