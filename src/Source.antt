-- ===== src/Source.antt =====
-- Tailing an append-only transcript. internal/source/source.go, internal/source/tail.go
pub mod Lines
pub mod Start
pub mod Resume
use agentic_stats.Prelude.{
  ◌⊎◌, inl, inr, str_eq, ℕ, zero, suc, ◌+◌, ◌-◌, ◌≡◌, refl, Bool, true, false, not, ◌&&◌, Option,
  none, some, List, [], ◌∷◌, ◌++◌, String, min, if◌then◌else◌, ltb, leb, ◌==◌, length, take, drop,
}

abbrev pub Bytes : Type 0
Bytes = List ℕ

pub record FileIdentity : Type 0 where
  pub device : ℕ
  pub serial : ℕ

pub record FileInfo : Type 0 where
  pub size : ℕ
  pub identity : FileIdentity

pub record StreamId : Type 0 where
  pub source : String
  pub path : String
  pub identity : FileIdentity

pub record RawLine : Type 0 where
  pub stream : StreamId
  pub offset : ℕ
  pub bytes : Bytes

pub record Cursor : Type 0 where
  pub offset : ℕ
  pub fingerprint : ℕ
  pub identity : FileIdentity

pub data Continuity : Type 0 where
  appended : Continuity
  truncated : Continuity
  replaced : Continuity

unfoldable pub continuity_text : Continuity → String
continuity_text appended = "appended"
continuity_text truncated = "truncated"
continuity_text replaced = "replaced"

pub record ReadResult : Type 0 where
  pub lines : List RawLine
  pub next : Cursor
  pub continuity : Continuity

-- What Stat and Open gave: the metadata, and the bytes that were there when they were read.
pub record File : Type 0 where
  pub info : FileInfo
  pub content : Bytes

unfoldable pub is_zero : FileIdentity → Bool
is_zero id = (id.device == 0) && (id.serial == 0)

unfoldable pub same_identity : FileIdentity → FileIdentity → Bool
same_identity a b = (a.device == b.device) && (a.serial == b.serial)

abbrev pub fingerprint_size : ℕ
fingerprint_size = 4096

-- `hash` is FNV-1a of 64 bits; `none` is a file that ended before io.ReadFull had its bytes.
unfoldable pub fingerprint : (Bytes → ℕ) → Bytes → ℕ → Option ℕ
fingerprint hash content size =
    let n = min size fingerprint_size in
    if n == 0 then some 0 else if ltb (length content) n then none else some (hash (take n content))

-- A start at the beginning, for a reason, with a new fingerprint.
unfoldable pub restart : Continuity → Option ℕ → Option (ℕ × Continuity × ℕ)
restart c none = none
restart c (some fp) = some (0, c, fp)

-- The last case of resolveStart: no usable identity, so the content is compared.
unfoldable pub by_content : Cursor → Option ℕ → Option (ℕ × Continuity × ℕ)
by_content from none = none
by_content from (some fp) =
    if not (from.fingerprint == 0) && not (fp == from.fingerprint)
    then some (0, replaced, fp)
    else some (from.offset, appended, fp)

-- Where to read from, how that relates to the cursor, and the fingerprint to record.
unfoldable pub resolve_start : (Bytes → ℕ) → File → Cursor → Option (ℕ × Continuity × ℕ)
resolve_start hash f from =
    let fp = fingerprint hash f.content f.info.size in
    let known = not (is_zero from.identity) && not (is_zero f.info.identity) in
    if ltb f.info.size from.offset
    then restart truncated fp
    else if known && not (same_identity from.identity f.info.identity)
    then restart replaced fp
    else if (from.offset == 0) && (from.fingerprint == 0)
    then restart appended fp
    else if known && same_identity from.identity f.info.identity
    then some (from.offset, appended, from.fingerprint)
    else by_content from fp

-- A configured stream; the file system is an argument of its reads.
pub record FileStream : Type 0 where
  pub id : StreamId
  pub max_bytes_per_read : ℕ

pub data ConfigError : Type 0 where
  fs_required : ConfigError
  path_required : ConfigError

abbrev pub default_max_bytes_per_read : ℕ
default_max_bytes_per_read = 4194304

-- NewFileStream; `has_fs` is cfg.FS != nil.
unfoldable pub new_file_stream : Bool → StreamId → ℕ → FileStream ⊎ ConfigError
new_file_stream has_fs id max_bytes =
    if not has_fs
    then inr fs_required
    else if str_eq id.path ""
    then inr path_required
    else inl record {
      id = id;
      max_bytes_per_read = if max_bytes == 0 then default_max_bytes_per_read else max_bytes;
    }

abbrev pub newline : ℕ
newline = 10

-- bytes.IndexByte(buf, '\n'): what stands before the first newline, and what stands behind it.
unfoldable pub cut_line : Bytes → Option (Bytes × Bytes)
cut_line [] = none
cut_line (c ∷ s) =
    let rest = cut_line s in
    if c == newline then some ([], s) else elim rest [ none ↦ none | some p ↦ some (c ∷ p.0, p.1) ]

-- The loop of readLines, on fuel: the complete lines, and how many bytes they took.
unfoldable pub split_lines : ℕ → StreamId → ℕ → ℕ → Bytes → List RawLine × ℕ
split_lines zero id start consumed buf = ([], consumed)
split_lines (suc fuel) id start consumed buf = elim (cut_line buf) [
  | none ↦ ([], consumed)
  | some p ↦
      let rest = split_lines fuel id start (consumed + (length (p.0) + 1)) (p.1) in
      (record { stream = id; offset = start + consumed; bytes = p.0 } ∷ rest.0, rest.1)
]

-- The bytes that one Read looks at.
unfoldable pub window : ℕ → Bytes → ℕ → ℕ → Bytes
window max_bytes content start size = take (min (size - start) max_bytes) (drop start content)

unfoldable pub read_lines : ℕ → StreamId → Bytes → ℕ → ℕ → List RawLine × ℕ
read_lines max_bytes id content start size =
    if leb size start
    then ([], 0)
    else let buf = window max_bytes content start size in
      split_lines (suc (length buf)) id start 0 buf

-- `none` is a file that was cut short while it was hashed.
unfoldable pub read : (Bytes → ℕ) → ℕ → StreamId → File → Cursor → Option ReadResult
read hash max_bytes id f from = elim (resolve_start hash f from) [
  | none ↦ none
  | some s ↦
      let r = read_lines max_bytes id f.content (s.0) f.info.size in
      some record {
        lines = r.0;
        next = record { offset = s.0 + r.1; fingerprint = s.2; identity = f.info.identity };
        continuity = s.1;
      }
]
