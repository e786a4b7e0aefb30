-- ===== src/Cursor/Codec.antt =====
-- What is written is read back. internal/cursor/codec.go, internal/cursor/cursor.go
use agentic_stats.Prelude.{
  ℕ, zero, suc, ◌+◌, ◌*◌, ◌/◌, ◌%◌, ◌^◌, ◌<◌, ◌≡◌, ◌≢◌, refl, ap, ap₂, ◌∙◌, Bool, true, false, ◌&&◌,
  ==_iff, Option, none, some, [], ◌∷◌, ◌++◌, arith, if◌then◌else◌, ◌==◌, length, length-append,
  Bool-cases, inl, inr,
}
use agentic_stats.Source.{Bytes, Cursor}
use agentic_stats.Cursor.{
  Key, Bucket, put_uint, uint_from, encode_cursor, decode_cursor, bytes_eq, get, remove, load,
  decoded, save, delete, key_string, zero_cursor,
}

uint_from_snoc :
    (acc : ℕ) (s : Bytes) (b : ℕ) → uint_from acc (s ++ b ∷ []) ≡ uint_from acc s * 256 + b
unfolding uint_from
uint_from_snoc acc [] b = refl
uint_from_snoc acc (c ∷ s) b = uint_from_snoc (acc * 256 + c) s b

pub length-put_uint : (k n : ℕ) → length (put_uint k n) ≡ k
unfolding put_uint
length-put_uint zero n = refl
length-put_uint (suc k) n =
    omega
      (arith, length-append (put_uint k (n / 256)) ((n % 256) ∷ []), length-put_uint k (n / 256))

-- The bytes that fit: 256 to the k.
abbrev pub bound : ℕ → ℕ
bound zero = 1
bound (suc k) = 256 * bound k

pub uint_from-put_uint : (k n : ℕ) → n < bound k → uint_from 0 (put_uint k n) ≡ n
unfolding put_uint uint_from
uint_from-put_uint zero n h = omega arith
uint_from-put_uint (suc k) n h =
    uint_from_snoc 0 (put_uint k (n / 256)) (n % 256)
    ∙ omega (arith, uint_from-put_uint k (n / 256) (omega arith))

-- Every field is within 64 bits, and the offset within 63.
abbrev pub Fits : Cursor → Type 0
Fits c =
    (c.offset < 2 ^ 63)
    × (c.fingerprint < 2 ^ 64)
    × (c.identity.device < 2 ^ 64)
    × (c.identity.serial < 2 ^ 64)

-- The four numbers that a record stands for, read back.
fields : ℕ → ℕ → ℕ → ℕ → Option Cursor
fields o f d n =
    some record { offset = o; fingerprint = f; identity = record { device = d; serial = n } }

decode_cursor-encode_cursor : (c : Cursor) → Fits c → decode_cursor (encode_cursor c) ≡ some c
unfolding decode_cursor encode_cursor put_uint fields
decode_cursor-encode_cursor c (o, f, d, n) =
    read
    ∙ rw
        (
          uint_from-put_uint 8 c.offset (omega (arith, o)),
          uint_from-put_uint 8 c.fingerprint f,
          uint_from-put_uint 8 c.identity.device d,
          uint_from-put_uint 8 c.identity.serial n,
        )
        refl
  where
    read :
        decode_cursor (encode_cursor c)
        ≡ fields
            (uint_from 0 (put_uint 8 c.offset))
            (uint_from 0 (put_uint 8 c.fingerprint))
            (uint_from 0 (put_uint 8 c.identity.device))
            (uint_from 0 (put_uint 8 c.identity.serial))
    read = refl

pub bytes_eq_refl : (s : Bytes) → bytes_eq s s ≡ true
unfolding bytes_eq
bytes_eq_refl [] = refl
bytes_eq_refl (c ∷ s) = ground (arith, bytes_eq_refl s)

both : (a b : Bool) → (a && b) ≡ true → (a ≡ true) × (b ≡ true)
both true b h = (refl, h)
both false b h = cc

pub bytes_eq_sound : (s t : Bytes) → bytes_eq s t ≡ true → s ≡ t
unfolding bytes_eq
bytes_eq_sound [] [] h = refl
bytes_eq_sound [] (d ∷ t) h = cc
bytes_eq_sound (c ∷ s) [] h = cc
bytes_eq_sound (c ∷ s) (d ∷ t) h =
    let (a, b) = both (c == d) (bytes_eq s t) h in ap₂ ◌∷◌ ((==_iff c d).0 a) (bytes_eq_sound s t b)

bytes_differ : (s t : Bytes) → s ≢ t → bytes_eq s t ≡ false
bytes_differ s t h = elim (Bool-cases (bytes_eq s t)) [
  | inl e ↦ absurd (h (bytes_eq_sound s t e))
  | inr e ↦ e
]

get-remove : (db : Bucket) (k j : Bytes) → bytes_eq k j ≡ false → get (remove db k) j ≡ get db j
unfolding get remove
get-remove [] k j h = refl
get-remove (e ∷ db) k j h = elim (Bool-cases (bytes_eq (e.0) k)) [
  | inl m ↦ rw (m, ap (λ s. bytes_eq s j) (bytes_eq_sound (e.0) k m) ∙ h) (get-remove db k j h)
  | inr m ↦ rw (m, get) (ap (λ x. if bytes_eq (e.0) j then some (e.1) else x) (get-remove db k j h))
]

get-remove_same : (db : Bucket) (k : Bytes) → get (remove db k) k ≡ none
unfolding get remove
get-remove_same [] k = refl
get-remove_same (e ∷ db) k = ground (arith, get-remove_same db k)

get_first :
    (k v : Bytes) (db : Bucket) (j : Bytes) → bytes_eq k j ≡ true → get ((k, v) ∷ db) j ≡ some v
unfolding get
get_first k v db j h = rw h refl

get_later :
    (k v : Bytes) (db : Bucket) (j : Bytes) → bytes_eq k j ≡ false → get ((k, v) ∷ db) j ≡ get db j
unfolding get
get_later k v db j h = rw h refl

-- A cursor that was saved is loaded again; one that was deleted is loaded as the zero cursor; and
-- the cursors of all other keys stay what they were through both.
pub load-save :
    (db : Bucket) (k : Key) (c : Cursor)
    → Fits c
    → (load (save db k c) k ≡ some c)
      × (load (delete db k) k ≡ some zero_cursor)
      × ((j : Key)
          → key_string k ≢ key_string j
          → (load (save db k c) j ≡ load db j) × (load (delete db k) j ≡ load db j))
unfolding load save delete decoded
load-save db k c h = (
  ap decoded (get_first (key_string k) _ _ _ (bytes_eq_refl (key_string k)))
      ∙ decode_cursor-encode_cursor c h,
  ap decoded (get-remove_same db (key_string k)),
  λ j apart.
      let other = bytes_differ (key_string k) (key_string j) apart in
      let kept = get-remove db (key_string k) (key_string j) other in
      (ap decoded (get_later (key_string k) _ _ _ other ∙ kept), ap decoded kept),
)
