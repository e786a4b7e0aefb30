-- ===== src/Update/Replace/Usable.antt =====
-- At every moment of a replacement there is a whole binary. internal/update/install_windows.go
use agentic_stats.Prelude.{
  ℕ, zero, suc, ◌≡◌, ◌⊎◌, refl, sym, subst, ◌∙◌, false, inl, inr, Option, none, some, [], All,
  Bool-cases,
}
use agentic_stats.Bridge.Key.{bytes_eq}
use agentic_stats.Bridge.Key.Reading.{bytes_eq_sound}
use agentic_stats.Release.{Text}
use agentic_stats.Update.{Files, content_of, remove}
use agentic_stats.Update.Replace.{
  Host, Disk, refused, ReplaceError, not_staged, not_moved, not_replaced, by_hand, tick, changed,
  put, remove_file, rename_file, rename, settle, copy_to, create_beside, open_source, stage_beside,
  stale_path, restored, placed, moved, replace_staged, replace,
}
use agentic_stats.Update.Replace.Written.{
  bytes_eq_comm, content_of-remove, content_of-put-other, content_of-put, stale_differs,
}

-- The file of os.CreateTemp is not there yet, and its name is no binary's with `.old`.
abbrev pub IsFreshBeside : Host → Text → Type 0
IsFreshBeside h dst =
    (files : Files) (tmp : Text)
    → h.temp files dst ≡ some tmp
    → (content_of files tmp ≡ none) × (bytes_eq tmp (stale_path dst) ≡ false)

-- The old binary is in its place or moved aside, or the new one is in place.
abbrev pub IsUsable : Text → Text → Text → Files → Type 0
IsUsable dst old new files =
    (content_of files dst ≡ some old)
    ⊎ (content_of files (stale_path dst) ≡ some old)
    ⊎ (content_of files dst ≡ some new)

module _ (h : Host) (dst old new : Text) where
  -- What holds of the files now, when they were usable after every change.
  abbrev Held : (Files → Type 0) → Disk → Type 0
  Held P d = P d.files × All (IsUsable dst old new) d.past

  abbrev InPlace : Files → Type 0
  InPlace files = content_of files dst ≡ some old

  abbrev Ready : Text → Files → Type 0
  Ready tmp files = (content_of files dst ≡ some old) × (content_of files tmp ≡ some new)

  abbrev Aside : Text → Files → Type 0
  Aside tmp files =
      (content_of files (stale_path dst) ≡ some old) × (content_of files tmp ≡ some new)

  abbrev Swapped : Files → Type 0
  Swapped files = content_of files dst ≡ some new

  changed-Held :
      (P : Files → Type 0) (files : Files) (d : Disk)
      → P files
      → IsUsable dst old new files
      → All (IsUsable dst old new) d.past
      → Held P (changed files d)
  unfolding changed
  changed-Held P files d p u a = (p, (u, a))

  remove_file-Held :
      (P : Files → Type 0) (path : Text) (d : Disk)
      → P d.files
      → P (remove path d.files)
      → IsUsable dst old new (remove path d.files)
      → All (IsUsable dst old new) d.past
      → Held P (remove_file h path d)
  unfolding remove_file tick
  remove_file-Held P path d p q u a = elim (Bool-cases (h.fails d.calls)) [
    | inl e ↦ rw (remove_file, e) (p, a)
    | inr e ↦ rw (remove_file, e) (changed-Held P (remove path d.files) d q u a)
  ]

  -- Taking a temporary file away leaves the old binary in place.
  drop-InPlace :
      (tmp : Text) (d : Disk)
      → bytes_eq tmp dst ≡ false
      → Held InPlace d
      → Held InPlace (remove_file h tmp d)
  drop-InPlace tmp d b (p, a) =
      let q = content_of-remove tmp dst d.files b ∙ p in
      remove_file-Held InPlace tmp d p q (inl q) a

  abbrev StagedAs : Text → Option Text × Disk → Type 0
  StagedAs tmp r = (r.0 ≡ none) × Held InPlace r.1 ⊎ (r.0 ≡ some tmp) × Held (Ready tmp) r.1

  settle-StagedAs :
      (k : ℕ) (tmp : Text) (d : Disk)
      → bytes_eq tmp dst ≡ false
      → Held (Ready tmp) d
      → StagedAs tmp (settle k h tmp d)
  unfolding settle tick
  settle-StagedAs zero tmp d b r = inr (refl, r)
  settle-StagedAs (suc k) tmp d b (r, a) = elim (Bool-cases (h.fails d.calls)) [
    | inl e ↦ rw (settle, e) (inl (refl, drop-InPlace tmp (tick d) b (r.0, a)))
    | inr e ↦ rw (settle, e) (settle-StagedAs k tmp (tick d) b (r, a))
  ]

  put-InPlace :
      (tmp content : Text) (d : Disk)
      → bytes_eq tmp dst ≡ false
      → Held InPlace d
      → Held InPlace (changed (put tmp content d.files) d)
  put-InPlace tmp content d b (p, a) =
      let q = content_of-put-other tmp dst content d.files b ∙ p in
      changed-Held InPlace (put tmp content d.files) d q (inl q) a

  copy_to-StagedAs :
      (tmp : Text) (d : Disk)
      → bytes_eq tmp dst ≡ false
      → Held InPlace d
      → StagedAs tmp (copy_to h tmp new d)
  unfolding copy_to
  copy_to-StagedAs tmp d b (p, a) = elim (Bool-cases (h.fails d.calls)) [
    | inl e ↦
        rw (copy_to, e)
          (inl (
            refl,
            drop-InPlace tmp (changed (put tmp (h.torn new) d.files) d) b
                (put-InPlace tmp (h.torn new) d b (p, a)),
          ))
    | inr e ↦
        let q = content_of-put-other tmp dst new d.files b ∙ p in
        rw (copy_to, e)
          (settle-StagedAs 3 tmp (changed (put tmp new d.files) d) b (
            changed-Held (Ready tmp) (put tmp new d.files) d (q, content_of-put tmp new d.files)
              (inl q) a))
  ]

  -- A staging that fails leaves the old binary; one that succeeds has the new content beside it.
  abbrev Staged : Option Text × Disk → Type 0
  Staged r =
      (r.0 ≡ none) × Held InPlace r.1
      ⊎ ((tmp : Text) × (r.0 ≡ some tmp)
          × (bytes_eq tmp dst ≡ false)
          × (bytes_eq tmp (stale_path dst) ≡ false)
          × Held (Ready tmp) r.1)

  as_Staged :
      (tmp : Text) (r : Option Text × Disk)
      → bytes_eq tmp dst ≡ false
      → bytes_eq tmp (stale_path dst) ≡ false
      → StagedAs tmp r
      → Staged r
  as_Staged tmp r b c (inl x) = inl x
  as_Staged tmp r b c (inr (e, x)) = inr (tmp, e, b, c, x)

  -- A path that is not there is not the binary's.
  fresh_differs :
      (tmp : Text) (files : Files)
      → content_of files dst ≡ some old
      → content_of files tmp ≡ none
      → bytes_eq tmp dst ≡ false
  fresh_differs tmp files p e = elim (Bool-cases (bytes_eq tmp dst)) [
    | inl q ↦ absurd (
        clash (content_of files dst) p
          (subst (λ t. content_of files t ≡ none) (bytes_eq_sound tmp dst q) e))
    | inr q ↦ q
  ]
    where
      clash : (o : Option Text) → o ≡ some old → o ≡ none → ⊥
      clash o a b = cc

  create_beside-Staged :
      (o : Option Text) (d : Disk)
      → IsFreshBeside h dst
      → h.temp d.files dst ≡ o
      → Held InPlace d
      → Staged (create_beside h new o d)
  unfolding create_beside tick
  create_beside-Staged none d f e (p, a) = inl (refl, (p, a))
  create_beside-Staged (some tmp) d f e (p, a) =
      let b = fresh_differs tmp d.files p (f d.files tmp e).0 in
      as_Staged tmp (copy_to h tmp new (changed (put tmp [] d.files) d)) b (f d.files tmp e).1
        (copy_to-StagedAs tmp (changed (put tmp [] d.files) d) b (put-InPlace tmp [] d b (p, a)))

  stage_beside-Staged :
      (src : Text) (d : Disk)
      → IsFreshBeside h dst
      → content_of d.files src ≡ some new
      → Held InPlace d
      → Staged (stage_beside h dst src d)
  unfolding stage_beside open_source tick
  stage_beside-Staged src d f c (p, a) = elim (Bool-cases (h.fails d.calls)) [
    | inl e ↦ rw (open_source, e) (inl (refl, (p, a)))
    | inr e ↦
        rw (open_source, e, c) (create_beside-Staged (h.temp d.files dst) (tick d) f refl (p, a))
  ]

  rename_cases :
      (from to content : Text) (d : Disk)
      → content_of d.files from ≡ some content
      → (rename h from to d ≡ (some refused, tick d))
        ⊎ (rename h from to d ≡ (none, changed (put to content (remove from d.files)) d))
  unfolding rename rename_file
  rename_cases from to content d c = elim (Bool-cases (h.fails d.calls)) [
    | inl e ↦ inl (rw (rename_file, e) refl)
    | inr e ↦ inr (rw (rename_file, e, c) refl)
  ]

  -- Replaced; or not, with the old binary in place; or with it left aside, which the error tells.
  abbrev pub Ends : Option ReplaceError × Disk → Type 0
  Ends r =
      ((r.0 ≡ none) × (content_of r.1.files dst ≡ some new)
        ⊎ ((e : ReplaceError) × (r.0 ≡ some e) × (content_of r.1.files dst ≡ some old))
        ⊎ (r.0 ≡ some (by_hand (stale_path dst)))
          × (content_of r.1.files (stale_path dst) ≡ some old))
      × All (IsUsable dst old new) r.1.past

  restored-Ends :
      (tmp : Text) (d : Disk)
      → bytes_eq tmp dst ≡ false
      → Held (Aside tmp) d
      → Ends (restored h tmp (stale_path dst) (rename h (stale_path dst) dst d))
  unfolding restored tick
  restored-Ends tmp d b ((p, q), a) = elim (rename_cases (stale_path dst) dst old d p) [
    | inl e ↦ subst (λ r. Ends (restored h tmp (stale_path dst) r)) (sym e) (inr (inr (refl, p)), a)
    | inr e ↦
        let files = put dst old (remove (stale_path dst) d.files) in
        let back = content_of-put dst old (remove (stale_path dst) d.files) in
        let (in_place, past) =
          drop-InPlace tmp (changed files d) b (changed-Held InPlace files d back (inl back) a) in
        subst (λ r. Ends (restored h tmp (stale_path dst) r)) (sym e)
          (inr (inl (not_replaced, refl, in_place)), past)
  ]

  placed-Ends :
      (tmp : Text) (d : Disk)
      → bytes_eq tmp dst ≡ false
      → Held (Aside tmp) d
      → Ends (placed h dst tmp (stale_path dst) (rename h tmp dst d))
  unfolding placed tick changed put
  placed-Ends tmp d b ((p, q), a) = elim (rename_cases tmp dst new d q) [
    | inl e ↦
        subst (λ r. Ends (placed h dst tmp (stale_path dst) r)) (sym e)
          (restored-Ends tmp (tick d) b ((p, q), a))
    | inr e ↦
        let files = put dst new (remove tmp d.files) in
        let swapped = content_of-put dst new (remove tmp d.files) in
        let kept = content_of-remove (stale_path dst) dst files (stale_differs dst).0 ∙ swapped in
        let (in_place, past) =
          remove_file-Held Swapped (stale_path dst) (changed files d) swapped kept (inr (inr kept))
            (inr (inr swapped), a) in
        subst (λ r. Ends (placed h dst tmp (stale_path dst) r)) (sym e) (inl (refl, in_place), past)
  ]

  moved-Ends :
      (tmp : Text) (d : Disk)
      → bytes_eq tmp dst ≡ false
      → bytes_eq tmp (stale_path dst) ≡ false
      → Held (Ready tmp) d
      → Ends (moved h dst tmp (stale_path dst) (rename h dst (stale_path dst) d))
  unfolding moved tick
  moved-Ends tmp d b c ((p, q), a) = elim (rename_cases dst (stale_path dst) old d p) [
    | inl e ↦
        let (in_place, past) = drop-InPlace tmp (tick d) b (p, a) in
        subst (λ r. Ends (moved h dst tmp (stale_path dst) r)) (sym e)
          (inr (inl (not_moved, refl, in_place)), past)
    | inr e ↦
        let files = put (stale_path dst) old (remove dst d.files) in
        let aside = content_of-put (stale_path dst) old (remove dst d.files) in
        let staged =
          content_of-put-other (stale_path dst) tmp old (remove dst d.files)
            (bytes_eq_comm (stale_path dst) tmp ∙ c)
          ∙ content_of-remove dst tmp d.files (bytes_eq_comm dst tmp ∙ b)
          ∙ q in
        subst (λ r. Ends (moved h dst tmp (stale_path dst) r)) (sym e)
          (placed-Ends tmp (changed files d) b
            (changed-Held (Aside tmp) files d (aside, staged) (inr (inl aside)) a))
  ]

  replace_staged-Ends : (r : Option Text × Disk) → Staged r → Ends (replace_staged h dst r)
  unfolding replace_staged
  replace_staged-Ends r (inl (e, (p, a))) =
      subst (λ o. Ends (replace_staged h dst (o, r.1))) (sym e) (inr (inl (not_staged, refl, p)), a)
  replace_staged-Ends r (inr (tmp, e, b, c, ((p, q), a))) =
      let kept = content_of-remove (stale_path dst) dst r.1.files (stale_differs dst).0 ∙ p in
      let staged =
        content_of-remove (stale_path dst) tmp r.1.files (bytes_eq_comm (stale_path dst) tmp ∙ c)
        ∙ q in
      subst (λ o. Ends (replace_staged h dst (o, r.1))) (sym e)
        (moved-Ends tmp (remove_file h (stale_path dst) r.1) b c
          (remove_file-Held (Ready tmp) (stale_path dst) r.1 (p, q) (kept, staged) (inl kept) a))

-- A replacement of a binary that is there by a staged file, whichever calls fail: without an error
-- the new content is in place; with one the old content is, or it is at the path aside that the
-- error tells; and after every change of the files the old content was in place or aside, or the
-- new one was in place. Temporary files are new ones and not called like the binary with `.old`.
pub replace-Ends :
    (h : Host) (dst src old new : Text) (files : Files)
    → IsFreshBeside h dst
    → content_of files dst ≡ some old
    → content_of files src ≡ some new
    → Ends h dst old new (replace h dst src (record { files = files; calls = 0; past = [] }))
unfolding replace
replace-Ends h dst src old new files f p c =
    let d : Disk = record { files = files; calls = 0; past = [] } in
    replace_staged-Ends h dst old new (stage_beside h dst src d)
      (stage_beside-Staged h dst old new src d f c (p, tt))
