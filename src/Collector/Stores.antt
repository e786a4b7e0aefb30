-- ===== src/Collector/Stores.antt =====
-- The two cursor stores. internal/cursor/cursor.go, internal/cursor/memory.go
use text.Mathlib.TextEquality.{Char-path}
use agentic_stats.Prelude.{
  ℕ, ◌≡◌, ◌≢◌, refl, sym, ap, ap₂, subst, ◌∙◌, Bool, true, false, ◌&&◌, some, List, [], ◌∷◌, ◌++◌,
  arith, String, str_eq, eq_iff, codes, if◌then◌else◌, All, Bool-cases, inl, inr,
}
use agentic_stats.Source.{Bytes, Cursor}
use agentic_stats.Cursor.{
  Key, key_string, bytes_eq, Bucket, zero_cursor, get, decoded, load, save, delete,
}
use agentic_stats.Cursor.Codec.{Fits, load-save, bytes_eq_refl, bytes_eq_sound}
use agentic_stats.Collector.{Cursors, same_key, memory_load, memory_save, memory_delete}
use agentic_stats.Collector.Commit.{same_key_sound}

head_of : List ℕ → ℕ
head_of [] = 0
head_of (c ∷ s) = c

tail_of : List ℕ → List ℕ
tail_of [] = []
tail_of (c ∷ s) = s

codes-injective : (s t : String) → codes s ≡ codes t → s ≡ t
unfolding head_of tail_of
codes-injective String.[] String.[] h = refl
codes-injective String.[] (String.◌∷◌ d t) h = cc
codes-injective (String.◌∷◌ c s) String.[] h = cc
codes-injective (String.◌∷◌ c s) (String.◌∷◌ d t) h =
    ap₂ String.◌∷◌ (Char-path c d (ap head_of h)) (codes-injective s t (ap tail_of h))

bytes_eq-codes : (s t : String) → bytes_eq (codes s) (codes t) ≡ str_eq s t
bytes_eq-codes s t = elim (Bool-cases (str_eq s t)) [
  | inl e ↦
      ap (λ x. bytes_eq (codes s) (codes x)) (sym ((eq_iff s t).0 e))
      ∙ bytes_eq_refl (codes s)
      ∙ sym e
  | inr e ↦ elim (Bool-cases (bytes_eq (codes s) (codes t))) [
    | inl b ↦ absurd (
        clash (str_eq s t)
          ((eq_iff s t).1 (codes-injective s t (bytes_eq_sound (codes s) (codes t) b))) e)
    | inr b ↦ b ∙ sym e
  ]
]
  where
    clash : (b : Bool) → b ≡ true → b ≡ false → ⊥
    clash b h k = ground arith

-- A source without the NUL byte that ends it in the storage key.
abbrev pub IsClean : Key → Type 0
IsClean k = All (λ c. c ≢ 0) (codes k.source)

bytes_eq-append :
    (a b s t : Bytes)
    → All (λ c. c ≢ 0) a
    → All (λ c. c ≢ 0) b
    → bytes_eq (a ++ 0 ∷ s) (b ++ 0 ∷ t) ≡ (bytes_eq a b && bytes_eq s t)
unfolding bytes_eq
bytes_eq-append [] [] s t h k = ground arith
bytes_eq-append [] (d ∷ b) s t h k = ground (arith, k.0)
bytes_eq-append (c ∷ a) [] s t h k = ground (arith, h.0)
bytes_eq-append (c ∷ a) (d ∷ b) s t h k = ground (arith, bytes_eq-append a b s t h.1 k.1)

key_string-same_key :
    (k j : Key) → IsClean k → IsClean j → bytes_eq (key_string k) (key_string j) ≡ same_key k j
unfolding key_string same_key
key_string-same_key k j h i =
    bytes_eq-append (codes k.source) (codes j.source) (codes k.path) (codes j.path) h i
    ∙ ap₂ (λ a b. a && b) (bytes_eq-codes k.source j.source) (bytes_eq-codes k.path j.path)

memory_load-delete :
    (m : Cursors) (k j : Key)
    → memory_load (memory_delete m k) j ≡ (if same_key k j then zero_cursor else memory_load m j)
unfolding memory_load memory_delete
memory_load-delete [] k j = ground arith
memory_load-delete (e ∷ m) k j = elim (Bool-cases (same_key (e.0) k)) [
  | inl a ↦
      rw (a, memory_load-delete m k j, ap (λ x. same_key x j) (same_key_sound (e.0) k a))
        (ground arith)
  | inr a ↦ elim (Bool-cases (same_key (e.0) j)) [
    | inl b ↦
        let other : same_key k j ≡ false = apart (λ s.
          clash (same_key (e.0) k)
            (subst (λ x. same_key (e.0) x ≡ true) (sym (same_key_sound k j s)) b) a) in
        rw (a, b, memory_load, other) refl
    | inr b ↦ rw (a, b, memory_load, memory_load-delete m k j) refl
  ]
]
  where
    clash : (b : Bool) → b ≡ true → b ≡ false → ⊥
    clash b h k = ground arith

    apart : (same_key k j ≡ true → ⊥) → same_key k j ≡ false
    apart f = elim (Bool-cases (same_key k j)) [ inl s ↦ absurd (f s) | inr s ↦ s ]

memory_load-save :
    (m : Cursors) (k j : Key) (c : Cursor)
    → memory_load (memory_save m k c) j ≡ (if same_key k j then c else memory_load m j)
unfolding memory_load memory_save
memory_load-save m k j c = elim (Bool-cases (same_key k j)) [
  | inl s ↦ rw s refl
  | inr s ↦ rw s (memory_load-delete m k j ∙ rw s refl)
]

-- What is done to a store.
pub data Operation : Type 0 where
  saving : Key → Cursor → Operation
  deleting : Key → Operation

-- The cursor store of the embedded database, and the one in memory, after some operations.
unfoldable pub bolt_after : List Operation → Bucket → Bucket
bolt_after [] db = db
bolt_after (saving k c ∷ ops) db = bolt_after ops (save db k c)
bolt_after (deleting k ∷ ops) db = bolt_after ops (delete db k)

unfoldable pub memory_after : List Operation → Cursors → Cursors
memory_after [] m = m
memory_after (saving k c ∷ ops) m = memory_after ops (memory_save m k c)
memory_after (deleting k ∷ ops) m = memory_after ops (memory_delete m k)

-- An operation on a clean key, of a cursor whose fields fit.
abbrev pub IsSound : Operation → Type 0
IsSound (saving k c) = IsClean k × Fits c
IsSound (deleting k) = IsClean k

-- Every clean key is loaded alike.
abbrev Agree : Bucket → Cursors → Type 0
Agree db m = (j : Key) → IsClean j → load db j ≡ some (memory_load m j)

differ_strings :
    (k j : Key) → IsClean k → IsClean j → same_key k j ≡ false → key_string k ≢ key_string j
differ_strings k j h i s e =
    clash (same_key k j)
      (sym (key_string-same_key k j h i)
        ∙ ap (λ x. bytes_eq x (key_string j)) e
        ∙ bytes_eq_refl (key_string j))
      s
  where
    clash : (b : Bool) → b ≡ true → b ≡ false → ⊥
    clash b h k = ground arith

save-Agree :
    (db : Bucket) (m : Cursors) (k : Key) (c : Cursor)
    → IsClean k
    → Fits c
    → Agree db m
    → Agree (save db k c) (memory_save m k c)
save-Agree db m k c h f a j i =
    let (own, gone, rest) = load-save db k c f in
    elim (Bool-cases (same_key k j)) [
      | inl s ↦
          ap (load (save db k c)) (sym (same_key_sound k j s))
          ∙ own
          ∙ ap some (sym (memory_load-save m k j c ∙ rw s refl))
      | inr s ↦
          (rest j (differ_strings k j h i s)).0
          ∙ a j i
          ∙ ap some (sym (memory_load-save m k j c ∙ rw s refl))
    ]

delete-Agree :
    (db : Bucket) (m : Cursors) (k : Key)
    → IsClean k
    → Agree db m
    → Agree (delete db k) (memory_delete m k)
delete-Agree db m k h a j i =
    let (own, gone, rest) =
      load-save db k zero_cursor (omega arith, omega arith, omega arith, omega arith) in
    elim (Bool-cases (same_key k j)) [
      | inl s ↦
          ap (load (delete db k)) (sym (same_key_sound k j s))
          ∙ gone
          ∙ ap some (sym (memory_load-delete m k j ∙ rw s refl))
      | inr s ↦
          (rest j (differ_strings k j h i s)).1
          ∙ a j i
          ∙ ap some (sym (memory_load-delete m k j ∙ rw s refl))
    ]

-- The two cursor stores are interchangeable: after any saves and deletes from empty, every key is
-- loaded from both with the same cursor, where no source holds a NUL byte and the fields of every
-- cursor that was saved fit.
pub stores_agree :
    (ops : List Operation) (j : Key)
    → All IsSound ops
    → IsClean j
    → load (bolt_after ops []) j ≡ some (memory_load (memory_after ops []) j)
unfolding bolt_after memory_after load decoded get memory_load
stores_agree ops j h i = go ops [] [] h empty j i
  where
    go :
        (ops : List Operation) (db : Bucket) (m : Cursors)
        → All IsSound ops
        → Agree db m
        → Agree (bolt_after ops db) (memory_after ops m)
    go [] db m h a = a
    go (saving k c ∷ ops) db m h a =
        go ops (save db k c) (memory_save m k c) h.1 (save-Agree db m k c h.0.0 h.0.1 a)
    go (deleting k ∷ ops) db m h a =
        go ops (delete db k) (memory_delete m k) h.1 (delete-Agree db m k h.0 a)

    empty : Agree [] []
    empty j i = refl
