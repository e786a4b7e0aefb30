-- ===== src/Update/Replace.antt =====
-- Replacing a binary on Windows, where the running one can only be moved aside.
-- internal/update/install_windows.go, stageBeside of internal/update/install.go
pub mod Written
pub mod Usable
use agentic_stats.Prelude.{
  ℕ, zero, suc, Bool, true, false, Option, none, some, List, [], ◌∷◌, ◌++◌, codes, if◌then◌else◌,
}
use agentic_stats.Release.{Text}
use agentic_stats.Update.{Files, content_of, remove}

-- Whether the i-th call of the system fails, the temporary file that os.CreateTemp makes beside a
-- path, and what a copy that breaks off has written.
pub record Host : Type 0 where
  pub fails : ℕ → Bool
  pub temp : Files → Text → Option Text
  pub torn : Text → Text

-- The files, how many calls there were, and what the files were after each change, the last first.
pub record Disk : Type 0 where
  pub files : Files
  pub calls : ℕ
  pub past : List Files

pub data OsError : Type 0 where
  not_exist refused : OsError

pub data ReplaceError : Type 0 where
  not_staged not_moved not_replaced : ReplaceError
  by_hand : Text → ReplaceError

unfoldable pub tick : Disk → Disk
tick d = record d { calls = suc d.calls }

unfoldable pub changed : Files → Disk → Disk
changed files d = record { files = files; calls = suc d.calls; past = files ∷ d.past }

unfoldable pub put : Text → Text → Files → Files
put path content files = (path, content) ∷ remove path files

-- os.Remove, whose error is passed over everywhere.
unfoldable pub remove_file : Host → Text → Disk → Disk
remove_file h path d = if h.fails d.calls then tick d else changed (remove path d.files) d

unfoldable pub rename_file : Bool → Text → Text → Option Text → Disk → Option OsError × Disk
rename_file true from to content d = (some refused, tick d)
rename_file false from to none d = (some not_exist, tick d)
rename_file false from to (some content) d =
    (none, changed (put to content (remove from d.files)) d)

-- os.Rename, which replaces what is there.
unfoldable pub rename : Host → Text → Text → Disk → Option OsError × Disk
rename h from to d = rename_file (h.fails d.calls) from to (content_of d.files from) d

-- Sync, Close and Chmod, after each of which a failure removes the file.
unfoldable pub settle : ℕ → Host → Text → Disk → Option Text × Disk
settle zero h tmp d = (some tmp, d)
settle (suc k) h tmp d =
    let rest = settle k h tmp (tick d) in
    if h.fails d.calls then (none, remove_file h tmp (tick d)) else rest

unfoldable pub copy_to : Host → Text → Text → Disk → Option Text × Disk
copy_to h tmp content d =
    if h.fails d.calls
    then (none, remove_file h tmp (changed (put tmp (h.torn content) d.files) d))
    else settle 3 h tmp (changed (put tmp content d.files) d)

unfoldable pub create_beside : Host → Text → Option Text → Disk → Option Text × Disk
create_beside h content none d = (none, tick d)
create_beside h content (some tmp) d = copy_to h tmp content (changed (put tmp [] d.files) d)

unfoldable pub open_source : Host → Text → Bool → Option Text → Disk → Option Text × Disk
open_source h dst true content d = (none, d)
open_source h dst false none d = (none, d)
open_source h dst false (some content) d = create_beside h content (h.temp d.files dst) d

unfoldable pub stage_beside : Host → Text → Text → Disk → Option Text × Disk
stage_beside h dst src d = open_source h dst (h.fails d.calls) (content_of d.files src) (tick d)

unfoldable pub stale_path : Text → Text
stale_path dst = dst ++ codes ".old"

unfoldable pub restored : Host → Text → Text → Option OsError × Disk → Option ReplaceError × Disk
restored h tmp aside (some e, d) = (some (by_hand aside), d)
restored h tmp aside (none, d) = (some not_replaced, remove_file h tmp d)

unfoldable pub placed :
    Host → Text → Text → Text → Option OsError × Disk → Option ReplaceError × Disk
placed h dst tmp aside (some e, d) = restored h tmp aside (rename h aside dst d)
placed h dst tmp aside (none, d) = (none, remove_file h aside d)

unfoldable pub moved :
    Host → Text → Text → Text → Option OsError × Disk → Option ReplaceError × Disk
moved h dst tmp aside (some refused, d) = (some not_moved, remove_file h tmp d)
moved h dst tmp aside (some not_exist, d) = placed h dst tmp aside (rename h tmp dst d)
moved h dst tmp aside (none, d) = placed h dst tmp aside (rename h tmp dst d)

unfoldable pub replace_staged : Host → Text → Option Text × Disk → Option ReplaceError × Disk
replace_staged h dst (none, d) = (some not_staged, d)
replace_staged h dst (some tmp, d) =
    let aside = stale_path dst in moved h dst tmp aside (rename h dst aside (remove_file h aside d))

-- `replace`; none is success.
unfoldable pub replace : Host → Text → Text → Disk → Option ReplaceError × Disk
replace h dst src d = replace_staged h dst (stage_beside h dst src d)
