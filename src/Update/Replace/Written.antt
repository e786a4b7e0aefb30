-- ===== src/Update/Replace/Written.antt =====
-- The files after one is written or taken away. internal/update/install_windows.go
use agentic_stats.Prelude.{◌≡◌, refl, sym, subst, false, inl, inr, some, [], ◌∷◌, arith, Bool-cases}
use agentic_stats.Bridge.Key.{bytes_eq}
use agentic_stats.Bridge.Key.Reading.{bytes_eq_refl, bytes_eq_sound}
use agentic_stats.Release.{Text}
use agentic_stats.Update.{Files, content_of, remove}
use agentic_stats.Update.Replace.{put, stale_path}

pub bytes_eq_comm : (s t : Text) → bytes_eq s t ≡ bytes_eq t s
bytes_eq_comm [] [] = refl
bytes_eq_comm [] (d ∷ t) = refl
bytes_eq_comm (c ∷ s) [] = refl
bytes_eq_comm (c ∷ s) (d ∷ t) = ground (arith, bytes_eq_comm s t)

pub content_of-remove :
    (gone path : Text) (files : Files)
    → bytes_eq gone path ≡ false
    → content_of (remove gone files) path ≡ content_of files path
unfolding content_of remove
content_of-remove gone path [] h = refl
content_of-remove gone path (f ∷ files) h = elim (Bool-cases (bytes_eq (f.0) gone)) [
  | inl e ↦
      let other : bytes_eq (f.0) path ≡ false =
        subst (λ p. bytes_eq p path ≡ false) (sym (bytes_eq_sound (f.0) gone e)) h in
      rw (e, other, content_of-remove gone path files h) refl
  | inr e ↦ rw (e, content_of-remove gone path files h) refl
]

pub content_of-put-other :
    (new path content : Text) (files : Files)
    → bytes_eq new path ≡ false
    → content_of (put new content files) path ≡ content_of files path
unfolding content_of put
content_of-put-other new path content files h = rw h (content_of-remove new path files h)

pub content_of-put :
    (path content : Text) (files : Files) → content_of (put path content files) path ≡ some content
unfolding content_of put
content_of-put path content files = rw (bytes_eq_refl path) refl

pub stale_differs :
    (dst : Text) → (bytes_eq (stale_path dst) dst ≡ false) × (bytes_eq dst (stale_path dst) ≡ false)
unfolding stale_path
stale_differs [] = (refl, refl)
stale_differs (c ∷ dst) =
    let rest = stale_differs dst in (ground (arith, rest.0), ground (arith, rest.1))
