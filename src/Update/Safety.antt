-- ===== src/Update/Safety.antt =====
-- What a pass gives the installer. internal/update/update.go
use agentic_stats.Prelude.{
  ◌≡◌, ◌⊎◌, refl, sym, ap, subst, ◌∙◌, true, false, inl, inr, Option, none, some, List, [], codes,
  In-All, All-In, is_empty, All, Bool-cases, Option-cases,
}
use agentic_stats.Bridge.Key.{bytes_eq}
use agentic_stats.Bridge.Key.Reading.{bytes_eq_sound}
use agentic_stats.Version.{is_release}
use agentic_stats.Release.{Text, Manifest, ManifestError, open_manifest}
use agentic_stats.Update.{
  Updater, UpdateError, other_release, not_installed, nothing_published, Files, Staging, stage_loop,
  published, stage, remove_all, staged_contents, artifact_names, get, of_release, manifest,
  up_to_date, is_installed, Passed, install_staged, pass_to, pass_target, pass,
}
use agentic_stats.Update.Target.{IsTarget, target_lem}
use agentic_stats.Update.Staged.{IsFresh, has_name, stage_loop_clean}
use agentic_stats.Update.Contents.{IsDescribed, stage_loop_verified, given-IsDescribed}

-- What stands behind files that are given to the installer: a release that the peers report, newer
-- than this build and at or above every other, whose manifest the release key has signed and which
-- names that release, with the digest of every file; and every artifact of the platform is there.
abbrev pub IsEntitled : Updater → Option (List Text) → List (Text × Text) → Type 0
IsEntitled u reported given =
    (texts : List Text) × (best : Text) × (body : Text) × (signature : Text) × (m : Manifest)
    × (reported ≡ some texts)
    × (is_release u.current ≡ true)
    × IsTarget u.lib.trim_space u.current texts best
    × (open_manifest u.lib body signature ≡ inr m)
    × (m.version ≡ best)
    × IsDescribed u.lib m given
    × All (λ n. has_name given n ≡ true) (artifact_names u.goos u.goarch)

-- The installer is given nothing and the build stays, or what it is given is of a release that the
-- node is to run, and the outcome is what it answers.
abbrev pub IsSafe : Updater → Option (List Text) → Passed → Type 0
IsSafe u reported p =
    (p.given ≡ none) × (p.outcome ≡ up_to_date)
    ⊎ ((given : List (Text × Text)) × (p.given ≡ some given)
        × IsEntitled u reported given
        × ((u.installed given ≡ true) × (p.outcome ≡ is_installed) × (p.failed ≡ none)
            ⊎ (u.installed given ≡ false)
              × (p.outcome ≡ up_to_date)
              × (p.failed ≡ some not_installed)))

manifest_opened :
    (u : Updater) (tag : Text) (m : Manifest)
    → manifest u tag ≡ inr m
    → (body : Text) × (signature : Text) × (open_manifest u.lib body signature ≡ inr m)
      × (m.version ≡ tag)
unfolding manifest of_release
manifest_opened u tag m h =
    go (get u tag (codes "SHA256SUMS")) (get u tag (codes "SHA256SUMS.sig")) h
  where
    one : (r : UpdateError ⊎ Manifest) (n : Manifest) → r ≡ inr n → r ≡ inr m → n ≡ m
    one r n p q = cc

    other : (r : UpdateError ⊎ Manifest) (e : UpdateError) → r ≡ inl e → r ≡ inr m → ⊥
    other r e p q = cc

    of :
        (body signature : Text) (r : ManifestError ⊎ Manifest)
        → open_manifest u.lib body signature ≡ r
        → of_release tag r ≡ inr m
        → (body : Text) × (signature : Text) × (open_manifest u.lib body signature ≡ inr m)
          × (m.version ≡ tag)
    of body signature (inl e) q h = absurd (cc)
    of body signature (inr n) q h = elim (Bool-cases (bytes_eq n.version tag)) [
      | inl e ↦
          let same : n ≡ m = one (of_release tag (inr n)) n (rw e refl) h in
          (
            body,
            signature,
            q ∙ ap inr same,
            ap (λ (k : Manifest). k.version) (sym same) ∙ bytes_eq_sound n.version tag e,
          )
      | inr e ↦ absurd (other (of_release tag (inr n)) (other_release n.version) (rw e refl) h)
    ]

    go :
        (a b : UpdateError ⊎ Text)
        → elim a [
          | inl e ↦ inl e
          | inr body ↦ elim b [
            | inl e ↦ inl e
            | inr signature ↦ of_release tag (open_manifest u.lib body signature)
          ]
        ]
          ≡ inr m
        → (body : Text) × (signature : Text) × (open_manifest u.lib body signature ≡ inr m)
          × (m.version ≡ tag)
    go (inl e) b h = absurd (cc)
    go (inr body) (inl e) h = absurd (cc)
    go (inr body) (inr signature) h = of body signature (open_manifest u.lib body signature) refl h

published_cases :
    (s : Staging)
    → ((published s).files ≡ s.files)
      × ((published s).staged ≡ s.staged)
      × (((e : UpdateError) × ((published s).failed ≡ some e))
          ⊎ ((published s).failed ≡ none) × (s.failed ≡ none))
unfolding published
published_cases s = elim (Option-cases s.failed) [
  | inr (e, q) ↦ rw (published, q) (refl, refl, inl (e, q))
  | inl q ↦ elim (Bool-cases (is_empty s.staged)) [
    | inl n ↦ rw (published, q, n) (refl, refl, inl (nothing_published, refl))
    | inr n ↦ rw (published, q, n) (refl, refl, inr (q, refl))
  ]
]

-- What the installer answers to what was given.
abbrev Answered : Updater → List (Text × Text) → Passed → Type 0
Answered u given p =
    (u.installed given ≡ true) × (p.outcome ≡ is_installed) × (p.failed ≡ none)
    ⊎ (u.installed given ≡ false) × (p.outcome ≡ up_to_date) × (p.failed ≡ some not_installed)

install_cases :
    (u : Updater) (s : Staging)
    → let p = install_staged u s in
      let given = staged_contents s.files s.staged in
      (p.files ≡ remove_all s.staged s.files)
      × ((p.given ≡ none) × (p.outcome ≡ up_to_date)
          ⊎ (s.failed ≡ none) × (p.given ≡ some given) × Answered u given p)
unfolding install_staged
install_cases u s = elim (Option-cases s.failed) [
  | inr (e, q) ↦ rw (install_staged, q) (refl, inl (refl, refl))
  | inl q ↦ elim (Bool-cases (u.installed (staged_contents s.files s.staged))) [
    | inl ok ↦ rw (install_staged, q, ok) (refl, inr (refl, refl, inl (refl, refl, refl)))
    | inr ok ↦ rw (install_staged, q, ok) (refl, inr (refl, refl, inr (refl, refl, refl)))
  ]
]

-- A pass with a manifest that opened and names the release.
install_staged-IsSafe :
    (u : Updater) (reported : Option (List Text)) (tag : Text) (m : Manifest) (files : Files)
    → IsFresh u
    → ((given : List (Text × Text))
        → IsDescribed u.lib m given
        → All (λ n. has_name given n ≡ true) (artifact_names u.goos u.goarch)
        → IsEntitled u reported given)
    → let p = install_staged u (stage u tag m files) in (p.files ≡ files) × IsSafe u reported p
unfolding stage remove_all
install_staged-IsSafe u reported tag m files f give =
    let names = artifact_names u.goos u.goarch in
    let start : Staging = record { files = files; staged = []; failed = none } in
    let s = stage_loop u tag m names start in
    let (removed, ends) = install_cases u (published s) in
    let (same_files, same_staged, failing) = published_cases s in
    let clean : remove_all (published s).staged (published s).files ≡ files =
      ap (λ l. remove_all (published s).staged l) same_files
      ∙ ap (λ l. remove_all l s.files) same_staged
      ∙ stage_loop_clean u tag m names start f in
    (
      removed ∙ clean,
      (elim ends [
        | inl x ↦ inl x
        | inr (q, g, a) ↦ elim failing [
          | inl (e, x) ↦ absurd (clash (published s).failed e q x)
          | inr (y, z) ↦
              let verified = stage_loop_verified u tag m names start f tt z in
              let described = given-IsDescribed u m s.files s.staged verified.0 in
              let same : staged_contents s.files s.staged
                  ≡ staged_contents (published s).files (published s).staged =
                ap (λ l. staged_contents l s.staged) (sym same_files)
                ∙ ap (λ l. staged_contents (published s).files l) (sym same_staged) in
              inr (
                staged_contents (published s).files (published s).staged,
                g,
                give (staged_contents (published s).files (published s).staged)
                    (subst (IsDescribed u.lib m) same described.0)
                    (subst (λ l. All (λ n. has_name l n ≡ true) names) same
                      (In-All (λ n. has_name (staged_contents s.files s.staged) n ≡ true) names
                        (λ n i.
                          described.1 n
                            (All-In (λ n. has_name s.staged n ≡ true) names n verified.1 i)))),
                a,
              )
        ]
      ]),
    )
  where
    clash : (o : Option UpdateError) (e : UpdateError) → o ≡ none → o ≡ some e → ⊥
    clash o e p q = cc

-- A pass leaves the temporary files as they were, and either gives the installer nothing and keeps
-- the build, or gives it, for every artifact of the platform, contents whose digests stand in the
-- signed manifest of the highest release that the peers report, which is newer than this build;
-- its outcome is then what the installer answers.
pub pass-IsSafe :
    (u : Updater) (reported : Option (List Text)) (files : Files)
    → u.lib.trim_space [] ≡ []
    → IsFresh u
    → ((pass u reported files).files ≡ files) × IsSafe u reported (pass u reported files)
unfolding pass pass_target pass_to
pass-IsSafe u none files t f = (refl, inl (refl, refl))
pass-IsSafe u (some texts) files t f = elim (target_lem u.lib.trim_space u.current texts t) [
  | inl (r, e) ↦ rw (pass_target, e) (refl, inl (refl, refl))
  | inr (inl (r, e, a)) ↦ rw (pass_target, e) (refl, inl (refl, refl))
  | inr (inr (r, (best, e, is_target))) ↦
      subst
        (λ o.
          ((pass_target u files o).files ≡ files) × IsSafe u (some texts) (pass_target u files o))
        (sym e) (with_manifest r best is_target (manifest u best) refl)
]
  where
    with_manifest :
        is_release u.current ≡ true
        → (best : Text) → IsTarget u.lib.trim_space u.current texts best
        → (o : UpdateError ⊎ Manifest) → manifest u best ≡ o
        → ((pass_to u files best o).files ≡ files) × IsSafe u (some texts) (pass_to u files best o)
    with_manifest r best is_target (inl e) h = (refl, inl (refl, refl))
    with_manifest r best is_target (inr m) h =
        let (body, signature, opened, named) = manifest_opened u best m h in
        install_staged-IsSafe u (some texts) best m files f
          (λ given d a. (texts, best, body, signature, m, refl, r, is_target, opened, named, d, a))
