-- ===== src/Cursor.antt =====
-- How far each stream has been read, on disk. internal/cursor/codec.go, internal/cursor/cursor.go
pub mod Codec
use agentic_stats.Prelude.{
  ℕ, zero, suc, ◌+◌, ◌*◌, ◌/◌, ◌%◌, Bool, true, false, ◌&&◌, Option, none, some, List, [], ◌∷◌,
  ◌++◌, String, codes, if◌then◌else◌, ◌==◌, length, take, drop,
}
use agentic_stats.Source.{Bytes, Cursor, StreamId}

pub record Key : Type 0 where
  pub source : String
  pub path : String

unfoldable pub key_of : StreamId → Key
key_of id = record { source = id.source; path = id.path }

-- The bytes of the storage key: the source, a NUL byte, the path.
unfoldable pub key_string : Key → Bytes
key_string k = codes k.source ++ 0 ∷ codes k.path

-- The last `k` bytes of a number, the highest first: binary.BigEndian.PutUint64 for 8.
unfoldable pub put_uint : ℕ → ℕ → Bytes
put_uint zero n = []
put_uint (suc k) n = put_uint k (n / 256) ++ (n % 256) ∷ []

-- The number that bytes stand for: binary.BigEndian.Uint64 for 8.
unfoldable pub uint_from : ℕ → Bytes → ℕ
uint_from acc [] = acc
uint_from acc (b ∷ bs) = uint_from (acc * 256 + b) bs

abbrev pub encoded_cursor_size : ℕ
encoded_cursor_size = 32

unfoldable pub encode_cursor : Cursor → Bytes
encode_cursor c =
    put_uint 8 c.offset
    ++ (put_uint 8 c.fingerprint ++ (put_uint 8 c.identity.device ++ put_uint 8 c.identity.serial))

-- `none` is a malformed record.
unfoldable pub decode_cursor : Bytes → Option Cursor
decode_cursor raw =
    if length raw == encoded_cursor_size
    then some record {
      offset = uint_from 0 (take 8 raw);
      fingerprint = uint_from 0 (take 8 (drop 8 raw));
      identity = record {
        device = uint_from 0 (take 8 (drop 16 raw));
        serial = uint_from 0 (take 8 (drop 24 raw));
      };
    }
    else none

unfoldable pub bytes_eq : Bytes → Bytes → Bool
bytes_eq [] [] = true
bytes_eq (a ∷ s) (b ∷ t) = (a == b) && bytes_eq s t
bytes_eq _ _ = false

-- The bucket of the embedded database: each key once, as Put replaces.
abbrev pub Bucket : Type 0
Bucket = List (Bytes × Bytes)

unfoldable pub get : Bucket → Bytes → Option Bytes
get [] k = none
get (e ∷ db) k = if bytes_eq (e.0) k then some (e.1) else get db k

unfoldable pub remove : Bucket → Bytes → Bucket
remove [] k = []
remove (e ∷ db) k = let rest = remove db k in if bytes_eq (e.0) k then rest else e ∷ rest

abbrev pub zero_cursor : Cursor
zero_cursor = record { offset = 0; fingerprint = 0; identity = record { device = 0; serial = 0 } }

-- The zero cursor where there is no record; `none` is one that cannot be read.
unfoldable pub decoded : Option Bytes → Option Cursor
decoded none = some zero_cursor
decoded (some raw) = decode_cursor raw

unfoldable pub load : Bucket → Key → Option Cursor
load db k = decoded (get db (key_string k))

unfoldable pub save : Bucket → Key → Cursor → Bucket
save db k c = (key_string k, encode_cursor c) ∷ remove db (key_string k)

unfoldable pub delete : Bucket → Key → Bucket
delete db k = remove db (key_string k)
