-- ===== src/Update.antt =====
-- The update of a node to the newest release that its peers report. internal/update/update.go
pub mod Target
pub mod Staged
pub mod Contents
pub mod Safety
pub mod Replace
use agentic_stats.Prelude.{
  ℕ, suc, ◌+◌, ◌^◌, ◌≡◌, ◌⊎◌, Bool, true, false, not, ◌&&◌, ◌||◌, inl, inr, Option, none, some,
  List, [], ◌∷◌, ◌++◌, map, codes, ltb, ◌==◌, if◌then◌else◌, take, length, any, select, is_empty,
}
use agentic_stats.Bridge.Key.{bytes_eq}
use agentic_stats.Version.{Version, Order, newer, unreleased, parse, is_release, rank}
use agentic_stats.Release.{Text, Library, Manifest, ManifestError, CheckError, open_manifest, check}

unfoldable pub is_newer : Version → Version → Bool
is_newer v w = elim (rank v w) [ newer ↦ true | _ ↦ false ]

abbrev pub no_version : Version
no_version = record { raw = []; kind = unreleased; major = 0; minor = 0; patch = 0 }

-- The body of the loop: the best so far, as it was reported and as it was read.
unfoldable pub target_step : (Text → Text) → Version → Text → Text × Version → Text × Version
target_step trim_space current raw (best, best_v) =
    let v = parse trim_space raw in
    if not (is_release v)
    then (best, best_v)
    else if not (is_newer v current)
    then (best, best_v)
    else if is_empty best || is_newer v best_v
    then (raw, v)
    else (best, best_v)

unfoldable pub target_loop : (Text → Text) → Version → List Text → Text × Version → Text × Version
target_loop trim_space current [] best = best
target_loop trim_space current (raw ∷ reported) best =
    target_loop trim_space current reported (target_step trim_space current raw best)

-- `Target`: none where its second result is false.
unfoldable pub target : (Text → Text) → Version → List Text → Option Text
target trim_space current reported =
    let best = (target_loop trim_space current reported ([], no_version)).0 in
    if not (is_release current) then none else if is_empty best then none else some best

unfoldable pub artifact_names : Text → Text → List Text
artifact_names goos goarch =
    let base = codes "agentic-stats-" ++ (goos ++ b'-' ∷ goarch) in
    if not (bytes_eq goos (codes "windows"))
    then base ∷ []
    else (base ++ codes ".exe") ∷ (base ++ codes "w.exe") ∷ []

unfoldable pub release_url : Text → Text → Text → Text
release_url base target name = base ++ (codes "/releases/download/" ++ (target ++ b'/' ∷ name))

abbrev pub max_metadata_bytes : ℕ
max_metadata_bytes = 2 ^ 20

-- The answer to a request: what comes of it, and whether it breaks off with an error.
pub record Reply : Type 0 where
  pub content : Text
  pub broken : Bool

-- What an updater runs with. A request that fails gives none. The new temporary file of
-- os.CreateTemp is none where it cannot be made; `installed` is what the installer answers to
-- the files it is given, by artifact name.
pub record Updater : Type 0 where
  pub lib : Library
  pub current : Version
  pub base_url : Text
  pub goos : Text
  pub goarch : Text
  pub fetch : Text → Option Reply
  pub create_temp : List (Text × Text) → Option Text
  pub installed : List (Text × Text) → Bool

pub data UpdateError : Type 0 where
  no_peers not_fetched not_read no_temp not_downloaded not_reopened nothing_published
        not_installed :
      UpdateError
  not_opened : ManifestError → UpdateError
  other_release : Text → UpdateError
  not_verified : CheckError → UpdateError

-- io.ReadAll of an io.LimitReader: an error beyond the limit is not met.
unfoldable pub read_reply : Option Reply → UpdateError ⊎ Text
read_reply none = inl not_fetched
read_reply (some reply) =
    if reply.broken && ltb (length reply.content) max_metadata_bytes
    then inl not_read
    else inr (take max_metadata_bytes reply.content)

unfoldable pub get : Updater → Text → Text → UpdateError ⊎ Text
get u target name = read_reply (u.fetch (release_url u.base_url target name))

unfoldable pub of_release : Text → ManifestError ⊎ Manifest → UpdateError ⊎ Manifest
of_release target (inl e) = inl (not_opened e)
of_release target (inr m) =
    if bytes_eq m.version target then inr m else inl (other_release m.version)

unfoldable pub manifest : Updater → Text → UpdateError ⊎ Manifest
manifest u target = elim (get u target (codes "SHA256SUMS")) [
  | inl e ↦ inl e
  | inr body ↦ elim (get u target (codes "SHA256SUMS.sig")) [
    | inl e ↦ inl e
    | inr signature ↦ of_release target (open_manifest u.lib body signature)
  ]
]

abbrev pub Files : Type 0
Files = List (Text × Text)

unfoldable pub content_of : Files → Text → Option Text
content_of [] path = none
content_of (f ∷ files) path =
    let rest = content_of files path in if bytes_eq (f.0) path then some f.1 else rest

-- os.Remove
unfoldable pub remove : Text → Files → Files
remove path files = select (λ f. not (bytes_eq (f.0) path)) files

-- The temporary files, the staged ones by artifact name, and the error if there is one.
pub record Staging : Type 0 where
  pub files : Files
  pub staged : List (Text × Text)
  pub failed : Option UpdateError

-- The file of a download is made, written and, when the reply breaks off, left behind with an
-- error; the caller records its path either way.
unfoldable pub write_reply : Text → Reply → Option Text → Staging → Staging
write_reply name reply none s = record s { failed = some no_temp }
write_reply name reply (some path) s = record {
  files = (path, reply.content) ∷ s.files;
  staged = (name, path) ∷ s.staged;
  failed = if reply.broken then some not_downloaded else none;
}

unfoldable pub download_reply : Updater → Text → Option Reply → Staging → Staging
download_reply u name none s = record s { failed = some not_fetched }
download_reply u name (some reply) s = write_reply name reply (u.create_temp s.files) s

unfoldable pub download : Updater → Text → Text → Staging → Staging
download u target name s = download_reply u name (u.fetch (release_url u.base_url target name)) s

unfoldable pub check_result : Option CheckError → Option UpdateError
check_result none = none
check_result (some e) = some (not_verified e)

unfoldable pub check_file : Updater → Manifest → Text → Option Text → Option UpdateError
check_file u m name none = some not_reopened
check_file u m name (some content) = check_result (check u.lib m name content)

-- verifyFile on the staged file of a name.
unfoldable pub verify_file : Updater → Manifest → Text → Staging → Option UpdateError
verify_file u m name s = elim (content_of s.staged name) [
  | none ↦ some not_reopened
  | some path ↦ check_file u m name (content_of s.files path)
]

unfoldable pub stage_loop : Updater → Text → Manifest → List Text → Staging → Staging
stage_loop u target m [] s = s
stage_loop u target m (name ∷ names) s =
    let next = download u target name s in
    elim next.failed [
      | some e ↦ next
      | none ↦ elim (verify_file u m name next) [
        | some e ↦ record next { failed = some e }
        | none ↦ stage_loop u target m names next
      ]
    ]

unfoldable pub published : Staging → Staging
published s = elim s.failed [
  | some e ↦ s
  | none ↦ if is_empty s.staged then record s { failed = some nothing_published } else s
]

unfoldable pub stage : Updater → Text → Manifest → Files → Staging
stage u target m files = published (
    stage_loop u target m (artifact_names u.goos u.goarch)
      (record { files = files; staged = []; failed = none }))

pub data Outcome : Type 0 where
  up_to_date is_installed : Outcome

-- What a pass came to, the temporary files after it, and what the installer was given.
pub record Passed : Type 0 where
  pub outcome : Outcome
  pub failed : Option UpdateError
  pub files : Files
  pub given : Option (List (Text × Text))

-- What a reader of the staged files finds.
unfoldable pub staged_contents : Files → List (Text × Text) → List (Text × Text)
staged_contents files [] = []
staged_contents files (e ∷ staged) = elim (content_of files (e.1)) [
  | none ↦ staged_contents files staged
  | some content ↦ (e.0, content) ∷ staged_contents files staged
]

unfoldable pub remove_all : List (Text × Text) → Files → Files
remove_all [] files = files
remove_all (e ∷ staged) files = remove_all staged (remove (e.1) files)

unfoldable pub install_staged : Updater → Staging → Passed
install_staged u s = elim s.failed [
  | some e ↦ record {
    outcome = up_to_date;
    failed = some e;
    files = remove_all s.staged s.files;
    given = none;
  }
  | none ↦
      let given = staged_contents s.files s.staged in
      let ok = u.installed given in
      record {
        outcome = if ok then is_installed else up_to_date;
        failed = if ok then none else some not_installed;
        files = remove_all s.staged s.files;
        given = some given;
      }
]

unfoldable pub pass_to : Updater → Files → Text → UpdateError ⊎ Manifest → Passed
pass_to u files target (inl e) = record {
  outcome = up_to_date;
  failed = some e;
  files = files;
  given = none;
}
pass_to u files target (inr m) = install_staged u (stage u target m files)

unfoldable pub pass_target : Updater → Files → Option Text → Passed
pass_target u files none = record {
  outcome = up_to_date;
  failed = none;
  files = files;
  given = none;
}
pass_target u files (some best) = pass_to u files best (manifest u best)

-- `Pass`; the peers' versions are none where they cannot be read.
unfoldable pub pass : Updater → Option (List Text) → Files → Passed
pass u none files = record {
  outcome = up_to_date;
  failed = some no_peers;
  files = files;
  given = none;
}
pass u (some reported) files = pass_target u files (target u.lib.trim_space u.current reported)
