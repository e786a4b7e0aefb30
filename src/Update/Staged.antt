-- ===== src/Update/Staged.antt =====
-- What is staged is what the manifest describes, and nothing of it is left behind.
-- internal/update/update.go
use agentic_stats.Prelude.{
  ◌≡◌, ◌⊎◌, refl, sym, ap, subst, ◌∙◌, Bool, inl, inr, Option, none, some, List, [], ◌∷◌, any, All,
  Bool-cases, Option-cases,
}
use agentic_stats.Bridge.Key.{bytes_eq}
use agentic_stats.Bridge.Key.Reading.{bytes_eq_refl, bytes_eq_sound}
use agentic_stats.Release.{Text, Manifest, CheckError, check}
use agentic_stats.Update.{
  Updater, UpdateError, not_fetched, no_temp, Files, content_of, remove, Staging, write_reply,
  download_reply, download, check_result, check_file, verify_file, stage_loop, remove_all,
  release_url,
}

-- os.CreateTemp makes a file that is not there.
abbrev pub IsFresh : Updater → Type 0
IsFresh u =
    (files : Files) (path : Text) → u.create_temp files ≡ some path → content_of files path ≡ none

download_cases :
    (u : Updater) (target name : Text) (s : Staging)
    → let t = download u target name s in
      (t.files ≡ s.files) × (t.staged ≡ s.staged) × ((e : UpdateError) × (t.failed ≡ some e))
      ⊎ ((path : Text) × (content : Text) × (u.create_temp s.files ≡ some path)
          × (t.files ≡ (path, content) ∷ s.files)
          × (t.staged ≡ (name, path) ∷ s.staged))
unfolding download download_reply write_reply
download_cases u target name s =
    elim (Option-cases (u.fetch (release_url u.base_url target name))) [
      | inl e ↦ rw e (inl (refl, refl, (not_fetched, refl)))
      | inr (reply, e) ↦ elim (Option-cases (u.create_temp s.files)) [
        | inl f ↦ rw (e, download_reply, f) (inl (refl, refl, (no_temp, refl)))
        | inr (path, f) ↦
            inr (
              path,
              reply.content,
              f,
              rw (e, download_reply, f) refl,
              rw (e, download_reply, f) refl,
            )
      ]
    ]

remove_absent :
    (path : Text) (files : Files) → content_of files path ≡ none → remove path files ≡ files
unfolding content_of remove
remove_absent path [] h = refl
remove_absent path (f ∷ files) h = elim (Bool-cases (bytes_eq (f.0) path)) [
  | inl e ↦ absurd (impossible (rw e at h))
  | inr e ↦ rw e (ap (λ l. f ∷ l) (remove_absent path files (rw e at h)))
]
  where
    impossible : {c : Text} → some c ≡ none → ⊥
    impossible h = cc

remove_new :
    (path content : Text) (files : Files)
    → content_of files path ≡ none
    → remove path ((path, content) ∷ files) ≡ files
unfolding remove
remove_new path content files h = rw (bytes_eq_refl path) (remove_absent path files h)

-- What is staged can be removed again to what there was.
download_clean :
    (u : Updater) (target name : Text) (s : Staging)
    → IsFresh u
    → remove_all (download u target name s).staged (download u target name s).files
      ≡ remove_all s.staged s.files
unfolding remove_all
download_clean u target name s f = elim (download_cases u target name s) [
  | inl (a, b, e) ↦ rw (a, b) refl
  | inr (path, content, c, a, b) ↦
      rw (a, b, remove_new path content s.files (f s.files path c)) refl
]

pub stage_loop_clean :
    (u : Updater) (target : Text) (m : Manifest) (names : List Text) (s : Staging)
    → IsFresh u
    → let r = stage_loop u target m names s in
      remove_all r.staged r.files ≡ remove_all s.staged s.files
unfolding stage_loop
stage_loop_clean u target m [] s f = refl
stage_loop_clean u target m (name ∷ names) s f =
    let next = download u target name s in
    elim (Option-cases next.failed) [
      | inr (e, q) ↦ rw (stage_loop, q) (download_clean u target name s f)
      | inl q ↦ elim (Option-cases (verify_file u m name next)) [
        | inr (e, k) ↦ rw (stage_loop, q, k) (download_clean u target name s f)
        | inl k ↦
            rw (stage_loop, q, k)
              (stage_loop_clean u target m names next f ∙ download_clean u target name s f)
      ]
    ]

-- The file is there, with a content that the manifest's digest is of.
abbrev pub IsVerified : Updater → Manifest → Files → Text × Text → Type 0
IsVerified u m files e =
    (content : Text) × (content_of files e.1 ≡ some content) × (check u.lib m (e.0) content ≡ none)

unfoldable pub has_name : List (Text × Text) → Text → Bool
has_name entries name = any (λ e. bytes_eq (e.0) name) entries

other_file :
    (path new content added : Text) (files : Files)
    → content_of files new ≡ none
    → content_of files path ≡ some content
    → content_of ((new, added) ∷ files) path ≡ some content
unfolding content_of
other_file path new content added files h k = elim (Bool-cases (bytes_eq new path)) [
  | inl e ↦ absurd (
      clash (content_of files path)
        (subst (λ p. content_of files p ≡ none) (bytes_eq_sound new path e) h) k)
  | inr e ↦ rw (e, k) refl
]
  where
    clash : (o : Option Text) → o ≡ none → o ≡ some content → ⊥
    clash o p q = cc

others-IsVerified :
    (u : Updater) (m : Manifest) (new added : Text) (files : Files) (staged : List (Text × Text))
    → content_of files new ≡ none
    → All (IsVerified u m files) staged
    → All (IsVerified u m ((new, added) ∷ files)) staged
others-IsVerified u m new added files [] h v = tt
others-IsVerified u m new added files (e ∷ staged) h ((content, c, k), v) = (
  (content, other_file e.1 new content added files h c, k),
  others-IsVerified u m new added files staged h v,
)

check_file-none :
    (u : Updater) (m : Manifest) (name : Text) (o : Option Text)
    → check_file u m name o ≡ none
    → (content : Text) × (o ≡ some content) × (check u.lib m name content ≡ none)
unfolding check_file check_result
check_file-none u m name none h = absurd (cc)
check_file-none u m name (some content) h = (content, refl, go (check u.lib m name content) h)
  where
    go : (r : Option CheckError) → check_result r ≡ none → r ≡ none
    go none h = refl
    go (some e) h = absurd (cc)

verify_newest :
    (u : Updater) (m : Manifest) (name path : Text) (staged : List (Text × Text)) (s : Staging)
    → s.staged ≡ (name, path) ∷ staged
    → verify_file u m name s ≡ check_file u m name (content_of s.files path)
unfolding verify_file content_of
verify_newest u m name path staged s h = rw (h, verify_file, bytes_eq_refl name) refl

-- A download that did not fail and was verified joins the staged files.
pub step-IsVerified :
    (u : Updater) (m : Manifest) (target name : Text) (s : Staging)
    → IsFresh u
    → All (IsVerified u m s.files) s.staged
    → let t = download u target name s in
      t.failed ≡ none
      → verify_file u m name t ≡ none
      → All (IsVerified u m t.files) t.staged
        × ((path : Text) × (t.staged ≡ (name, path) ∷ s.staged))
unfolding verify_file content_of
step-IsVerified u m target name s f v q k = elim (download_cases u target name s) [
  | inl (a, b, (e, x)) ↦ absurd (clash (download u target name s).failed e q x)
  | inr (path, content, c, a, b) ↦
      let new = others-IsVerified u m path content s.files s.staged (f s.files path c) v in
      let own : check_file u m name (content_of (download u target name s).files path) ≡ none =
        sym (verify_newest u m name path s.staged (download u target name s) b) ∙ k in
      (rw (a, b) (check_file-none u m name _ (rw a at own), new), (path, b))
]
  where
    clash : (o : Option UpdateError) (e : UpdateError) → o ≡ none → o ≡ some e → ⊥
    clash o e p q = cc
