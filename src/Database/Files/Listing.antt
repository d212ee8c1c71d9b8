-- ===== src/Database/Files/Listing.antt =====
-- What database.cpp uses of directories: `fs::is_empty`, `fs::directory_iterator` and `rmdir`.
pub mod Laws
use proj_rc.Base.{
  ℕ, ◌-◌, Bool, true, false, not, ◌||◌, Option, none, some, List, [], ◌∷◌, if◌then◌else◌, length,
  drop, take, Bytes,
}
use proj_rc.Shared.Outcome.{Outcome, ok, raised, filesystem_error}
use proj_rc.Database.Files.{Entries, FileSystem, delete, is_dir}
use proj_rc.Database.Files.Paths.{FilePath, path_eq, parent, path_text}

abbrev stands_in : FilePath → Option FilePath → Bool
stands_in d none = false
stands_in d (some p) = path_eq p d

-- The entries of a directory, in the order in which the iterator meets them.
unfoldable pub children : FilePath → Entries → List FilePath
children d [] = []
children d ((p, n) ∷ e) =
    let rest = children d e in if stands_in d (parent p) then p ∷ rest else rest

-- The iterator and `is_empty` throw where there is no directory.
unfoldable pub iterate : FilePath → FileSystem → Outcome (List FilePath)
iterate d fs = if is_dir d fs then ok (children d fs.entries) else raised filesystem_error

abbrev is_nil : List FilePath → Bool
is_nil [] = true
is_nil (p ∷ ps) = false

-- `rmdir(path)`; the source does not look at its result.
unfoldable pub rmdir : FilePath → FileSystem → FileSystem
rmdir d fs =
    if not (is_dir d fs) || not (is_nil (children d fs.entries)) || not (fs.writable d)
    then fs
    else record fs { entries = delete d fs.entries }

-- `s.erase(s.begin(), s.end() - 3)`
unfoldable pub last_three : Bytes → Bytes
last_three s = drop (length s - 3) s

-- `s.erase(s.end() - 4, s.end())`
unfoldable pub without_suffix : Bytes → Bytes
without_suffix s = take (length s - 4) s

-- The id that the text of an auction's directory ends in.
unfoldable pub dir_id : FilePath → Bytes
unfolding last_three path_text
dir_id p = last_three (path_text p)

-- The id that the text of a file in HOSTED or BIDDED ends in, in front of `.txt`.
unfoldable pub file_id : FilePath → Bytes
unfolding last_three without_suffix path_text
file_id p = last_three (without_suffix (path_text p))
