-- ===== src/Release.antt =====
-- The signed manifest of a release. internal/release/release.go
pub mod Reading
use agentic_stats.Prelude.{
  ℕ, suc, ◌≡◌, ◌⊎◌, Bool, true, false, not, ◌&&◌, ◌||◌, inl, inr, Option, none, some, List, [], ◌∷◌,
  codes, ◌==◌, if◌then◌else◌, is_prefix, drop, length, any, is_empty,
}
use agentic_stats.Bridge.Key.{bytes_eq}

abbrev pub Text : Type 0
Text = List ℕ

-- What the standard library gives: the lines of a bufio.Scanner and whether it failed after them,
-- strings.Fields, strings.TrimSpace, filepath.Base, hex.DecodeString, sha256.Sum256, and
-- ed25519.Verify under the verifier's key.
pub record Library : Type 0 where
  pub scan : Text → List Text × Bool
  pub fields : Text → List Text
  pub trim_space : Text → Text
  pub base : Text → Text
  pub unhex : Text → Option Text
  pub sha256 : Text → Text
  pub verify : Text → Text → Bool

pub record Manifest : Type 0 where
  pub version : Text
  pub digests : List (Text × Text)

pub data ManifestError : Type 0 where
  not_signed unread no_artifacts : ManifestError
  no_digest_and_name no_digest no_file_name appears_twice : ℕ → ManifestError

abbrev pub version_line : Text
version_line = codes "# agentic-stats "

-- sha256.Size
abbrev pub digest_size : ℕ
digest_size = 32

-- strings.CutPrefix(text, VersionLine)
unfoldable pub version_after : Library → Text → Text → Text
version_after lib text version =
    if is_prefix version_line text
    then lib.trim_space (drop (length version_line) text)
    else version

-- strings.TrimPrefix(s, "*")
unfoldable pub trim_star : Text → Text
trim_star [] = []
trim_star (c ∷ s) = if c == 42 then s else c ∷ s

-- The test of a plain file name: `/` is 47 and `\` is 92.
unfoldable pub is_plain : Library → Text → Bool
is_plain lib name =
    bytes_eq name (lib.base name)
    && (not (bytes_eq name (codes "."))
        && (not (bytes_eq name (codes "..")) && not (any (λ c. (c == 47) || (c == 92)) name)))

unfoldable pub digest_of : List (Text × Text) → Text → Option Text
digest_of [] name = none
digest_of (d ∷ digests) name =
    let rest = digest_of digests name in if bytes_eq (d.0) name then some d.1 else rest

unfoldable pub has_digest : List (Text × Text) → Text → Bool
has_digest digests name = any (λ d. bytes_eq (d.0) name) digests

unfoldable pub add_name : Library → ℕ → Text → Text → Manifest → ManifestError ⊎ Manifest
add_name lib line sum name m =
    if not (is_plain lib name)
    then inl (no_file_name line)
    else if has_digest m.digests name
    then inl (appears_twice line)
    else inr (record m { digests = (name, sum) ∷ m.digests })

unfoldable pub add_digest : Library → ℕ → Option Text → Text → Manifest → ManifestError ⊎ Manifest
add_digest lib line none field m = inl (no_digest line)
add_digest lib line (some sum) field m =
    let added = add_name lib line sum (trim_star field) m in
    if length sum == digest_size then added else inl (no_digest line)

unfoldable pub read_fields : Library → ℕ → List Text → Manifest → ManifestError ⊎ Manifest
read_fields lib line [] m = inr m
read_fields lib line (sum ∷ name ∷ []) m = add_digest lib line (lib.unhex sum) name m
read_fields lib line _ m = inl (no_digest_and_name line)

-- One line of the loop.
unfoldable pub read_line : Library → ℕ → Text → Manifest → ManifestError ⊎ Manifest
read_line lib line text m =
    if is_prefix (codes "#") text
    then inr (record m { version = version_after lib text m.version })
    else read_fields lib line (lib.fields text) m

unfoldable pub read_all : Library → ℕ → List Text → Manifest → ManifestError ⊎ Manifest
read_all lib line [] m = inr m
read_all lib line (text ∷ texts) m = elim (read_line lib line text m) [
  | inl e ↦ inl e
  | inr next ↦ read_all lib (suc line) texts next
]

unfoldable pub whole : Bool → ManifestError ⊎ Manifest → ManifestError ⊎ Manifest
whole failed (inl e) = inl e
whole failed (inr m) =
    if failed then inl unread else if is_empty m.digests then inl no_artifacts else inr m

unfoldable pub parse_manifest : Library → Text → ManifestError ⊎ Manifest
parse_manifest lib data' =
    let (lines, failed) = lib.scan data' in
    whole failed (read_all lib 1 lines (record { version = []; digests = [] }))

-- `Open`: the signature is checked before a line is read.
unfoldable pub open_manifest : Library → Text → Text → ManifestError ⊎ Manifest
open_manifest lib manifest signature =
    if lib.verify manifest signature then parse_manifest lib manifest else inl not_signed

pub data CheckError : Type 0 where
  unknown_artifact digest_mismatch : CheckError

unfoldable pub check_digest : Library → Option Text → Text → Option CheckError
check_digest lib none content = some unknown_artifact
check_digest lib (some want) content =
    if bytes_eq (lib.sha256 content) want then none else some digest_mismatch

-- `Check`; none is success.
unfoldable pub check : Library → Manifest → Text → Text → Option CheckError
check lib m name content = check_digest lib (digest_of m.digests name) content
