-- ===== src/Update/Contents.antt =====
-- What a staging that ends without error has. internal/update/update.go
use agentic_stats.Prelude.{
  ◌≡◌, refl, sym, ap, subst, ◌∙◌, true, inl, inr, Option, none, some, List, [], ◌∷◌, arith, All,
  Bool-cases, Option-cases,
}
use agentic_stats.Bridge.Key.{bytes_eq}
use agentic_stats.Bridge.Key.Reading.{bytes_eq_refl, bytes_eq_sound}
use agentic_stats.Release.{Text, Library, Manifest, CheckError, digest_of, check_digest, check}
use agentic_stats.Update.{
  Updater, UpdateError, Files, Staging, download, download_reply, verify_file, stage_loop,
  staged_contents,
}
use agentic_stats.Update.Staged.{IsFresh, IsVerified, has_name, step-IsVerified}

newest :
    (name path : Text) (old new : List (Text × Text))
    → new ≡ (name, path) ∷ old
    → has_name new name ≡ true
unfolding has_name
newest name path old new h = rw (h, bytes_eq_refl name) refl

older :
    (name path n : Text) (old new : List (Text × Text))
    → new ≡ (name, path) ∷ old
    → has_name old n ≡ true
    → has_name new n ≡ true
unfolding has_name
older name path n old new h k = rw h (ground (arith, k))

-- Verified files, for every name and for the names that were there.
abbrev pub IsStaged : Updater → Manifest → Staging → List Text → Staging → Type 0
IsStaged u m s names r =
    All (IsVerified u m r.files) r.staged
    × All (λ n. has_name r.staged n ≡ true) names
    × ((n : Text) → has_name s.staged n ≡ true → has_name r.staged n ≡ true)

pub stage_loop_verified :
    (u : Updater) (tag : Text) (m : Manifest) (names : List Text) (s : Staging)
    → IsFresh u
    → All (IsVerified u m s.files) s.staged
    → let r = stage_loop u tag m names s in r.failed ≡ none → IsStaged u m s names r
unfolding stage_loop download download_reply
stage_loop_verified u tag m [] s f v q = (v, tt, (λ n h. h))
stage_loop_verified u tag m (name ∷ names) s f v q =
    let next = download u tag name s in
    elim (Option-cases next.failed) [
      | inr (e, k) ↦ absurd (clash next.failed e (rw (stage_loop, k) at q) k)
      | inl k ↦ elim (Option-cases (verify_file u m name next)) [
        | inr (e, l) ↦ absurd (impossible e (rw (stage_loop, k, l) at q))
        | inl l ↦
            let (verified, (path, staged)) = step-IsVerified u m tag name s f v k l in
            let rest =
              stage_loop_verified u tag m names next f verified (rw (stage_loop, k, l) at q) in
            let on : stage_loop u tag m (name ∷ names) s ≡ stage_loop u tag m names next =
              rw (stage_loop, k, l) refl in
            subst (IsStaged u m s (name ∷ names)) (sym on) (
              rest.0,
              (rest.2 name (newest name path s.staged next.staged staged), rest.1),
              (λ n h. rest.2 n (older name path n s.staged next.staged staged h)),
            )
      ]
    ]
  where
    clash : (o : Option UpdateError) (e : UpdateError) → o ≡ none → o ≡ some e → ⊥
    clash o e p q = cc

    impossible : (e : UpdateError) → some e ≡ none → ⊥
    impossible e h = cc

check-none :
    (lib : Library) (m : Manifest) (name content : Text)
    → check lib m name content ≡ none
    → digest_of m.digests name ≡ some (lib.sha256 content)
unfolding check check_digest
check-none lib m name content h = elim (Option-cases (digest_of m.digests name)) [
  | inl e ↦ absurd (impossible (rw (e, check_digest) at h))
  | inr (want, e) ↦ elim (Bool-cases (bytes_eq (lib.sha256 content) want)) [
    | inl q ↦ e ∙ ap some (sym (bytes_eq_sound (lib.sha256 content) want q))
    | inr q ↦ absurd (impossible (rw (e, check_digest, q) at h))
  ]
]
  where
    impossible : {e : CheckError} → some e ≡ none → ⊥
    impossible h = cc

-- Every content is one that the manifest has the digest of, under the artifact's name.
abbrev pub IsDescribed : Library → Manifest → List (Text × Text) → Type 0
IsDescribed lib m given =
    All (λ (e : Text × Text). digest_of m.digests (e.0) ≡ some (lib.sha256 e.1)) given

pub given-IsDescribed :
    (u : Updater) (m : Manifest) (files : Files) (staged : List (Text × Text))
    → All (IsVerified u m files) staged
    → IsDescribed u.lib m (staged_contents files staged)
      × ((n : Text) → has_name staged n ≡ true → has_name (staged_contents files staged) n ≡ true)
unfolding staged_contents has_name
given-IsDescribed u m files [] v = (tt, (λ n h. h))
given-IsDescribed u m files (e ∷ staged) ((content, c, k), v) =
    let rest = given-IsDescribed u m files staged v in
    rw (staged_contents, c)
      ((check-none u.lib m (e.0) content k, rest.0), (λ n h. ground (arith, h, rest.1 n)))
