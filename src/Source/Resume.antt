-- ===== src/Source/Resume.antt =====
-- Reading on from a cursor. Read and resolveStart of internal/source/tail.go
use agentic_stats.Prelude.{
  ℕ, zero, suc, ◌∷◌, ◌||◌, any, ◌+◌, ◌-◌, ◌≤◌, ◌≡◌, refl, sym, ap, subst, ◌∙◌, Bool, true, false,
  ◌&&◌, inl, inr, some, [], arith, min, ltb-eq_false, ◌==◌, length, take, drop,
}
use agentic_stats.Source.{
  Bytes, FileIdentity, File, Cursor, StreamId, ReadResult, Continuity, appended, window, is_zero,
  same_identity, fingerprint, resolve_start, read_lines, read,
}
use agentic_stats.Source.Lines.{
  NoNewline, is_newline, joined, Placed, read_lines_lem, read_lines_progress,
}
use agentic_stats.Source.Start.{Start, resolve_start-some}

within_file :
    (f : File) (from : Cursor) (fp start : ℕ) (c : Continuity) (n : ℕ)
    → Start f from fp start c
    → n ≤ f.info.size - start
    → start + n ≤ f.info.size
within_file f from fp start c n (inl (a, k, e)) h = omega (arith, e, h)
within_file f from fp start c n (inr (inl (le, r, k, e))) h = omega (arith, e, h)
within_file f from fp start c n (inr (inr (le, r, k, e))) h = omega (arith, e, h, le)

-- What one Read promises of its result, from the offset where it started.
abbrev pub Whole : ℕ → StreamId → File → Cursor → ℕ → ℕ → ReadResult → Type 0
Whole max_bytes id f from fp start r =
    let n = r.next.offset - start in
    Start f from fp start r.continuity
    × (joined r.lines ≡ take n (drop start f.content))
    × Placed id start r.lines
    × NoNewline (drop n (window max_bytes f.content start f.info.size))
    × (r.next.offset ≡ start + length (joined r.lines))
    × (r.next.offset ≤ f.info.size)
    × (r.next.identity ≡ f.info.identity)

-- Every file that was not cut short while it was read is read: from the beginning where it is
-- shorter than the cursor's offset, or is another file by its identity or, where the identities are
-- not both known and the cursor has one, by its fingerprint; and from the cursor's offset on
-- otherwise. The lines, each with its newline, are the file's bytes from there up to the new
-- cursor, which stays within the file; each line is whole and carries its own offset; and no
-- newline is left over in the bytes that were looked at.
pub read-Whole :
    (hash : Bytes → ℕ) (max_bytes : ℕ) (id : StreamId) (f : File) (from : Cursor)
    → f.info.size ≤ length f.content
    → (r : ReadResult) × (read hash max_bytes id f from ≡ some r)
      × ((fp : ℕ) × (start : ℕ) × (fingerprint hash f.content f.info.size ≡ some fp)
          × Whole max_bytes id f from fp start r)
unfolding read
read-Whole hash max_bytes id f from h =
    let (now, known, ((start, c, fp), e, begun)) = resolve_start-some hash f from h in
    let (bytes, placed, free, count, within) =
      read_lines_lem max_bytes id f.content start f.info.size in
    let got = read_lines max_bytes id f.content start f.info.size in
    let back : (start + got.1) - start ≡ got.1 = omega arith in
    (
      record {
        lines = got.0;
        next = record { offset = start + got.1; fingerprint = fp; identity = f.info.identity };
        continuity = c;
      },
      rw (e, read) refl,
      (
        now,
        start,
        known,
        (
          begun,
          bytes ∙ ap (λ n. take n (drop start f.content)) (sym back),
          placed,
          subst (λ n. NoNewline (drop n (window max_bytes f.content start f.info.size))) (sym back)
              free,
          omega (arith, count),
          within_file f from now start c (got.1) begun within,
          refl,
        ),
      ),
    )

neither : (a b : Bool) → (a || b) ≡ false → (a ≡ false) × (b ≡ false)
neither true b h = cc
neither false b h = (refl, h)

NoNewline-take : (n m : ℕ) (s : Bytes) → n ≤ m → NoNewline (take m s) → NoNewline (take n s)
NoNewline-take zero m s h e = refl
NoNewline-take (suc n) zero s h e = absurd (omega arith)
NoNewline-take (suc n) (suc m) [] h e = refl
NoNewline-take (suc n) (suc m) (c ∷ s) h e =
    let (first, later) = neither (is_newline c) (any is_newline (take m s)) e in
    rw first (NoNewline-take n m s (omega arith) later)

-- The cursor belongs to the file: the identities are known and the same, it is not fresh, and the
-- file is not shorter.
abbrev pub Follows : File → Cursor → Type 0
Follows f from =
    (is_zero from.identity ≡ false)
    × (f.info.identity ≡ from.identity)
    × (((from.offset == 0) && (from.fingerprint == 0)) ≡ false)
    × (from.offset ≤ f.info.size)

same_identity_refl : (a : FileIdentity) → same_identity a a ≡ true
unfolding same_identity
same_identity_refl a = ground arith

resolve_start-Follows :
    (hash : Bytes → ℕ) (f : File) (from : Cursor)
    → Follows f from
    → resolve_start hash f from ≡ some (from.offset, appended, from.fingerprint)
unfolding resolve_start
resolve_start-Follows hash f from (k, e, z, le) =
    rw (ltb-eq_false f.info.size from.offset le, e, k, z, same_identity_refl from.identity) refl

-- A cursor that belongs to the file, with no newline among the next max_bytes bytes behind it,
-- stays where it is, however much follows them: the read gives no line and the same cursor.
pub read_stalls :
    (hash : Bytes → ℕ) (max_bytes : ℕ) (id : StreamId) (f : File) (from : Cursor)
    → Follows f from
    → NoNewline (take max_bytes (drop from.offset f.content))
    → read hash max_bytes id f from ≡ some record { lines = []; next = from; continuity = appended }
unfolding read window
read_stalls hash max_bytes id f from h e =
    elim (read_lines_progress max_bytes id f.content from.offset f.info.size) [
      | inl (w, got) ↦
          rw (resolve_start-Follows hash f from h, got, h.1, read)
            (ap
              (λ n.
                some
                  record { lines = []; next = record from { offset = n }; continuity = appended })
              (at from.offset))
      | inr (w, got) ↦
          let no : NoNewline (window max_bytes f.content from.offset f.info.size) =
            NoNewline-take (min (f.info.size - from.offset) max_bytes) max_bytes
              (drop from.offset f.content) (omega arith) e in
          cc
    ]
  where
    at : (n : ℕ) → n + 0 ≡ n
    at n = omega arith
