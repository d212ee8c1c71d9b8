-- ===== src/Database/Files.antt =====
-- The files and directories that database.cpp names, and what it uses of the file system: `mkdir`,
-- `opendir`, `fopen`, `access`, `fgets` and `unlink`.
pub mod Paths
pub mod Laws
pub mod Listing
pub mod Names
use proj_rc.Base.{
  ℕ, zero, suc, ◌-◌, Bool, true, false, not, ◌||◌, Option, none, some, List, [], ◌∷◌, ◌==◌,
  if◌then◌else◌, Bytes,
}
use Paths.{FilePath, path_eq, parent}

pub data Node : Type 0 where
  directory : Node
  regular : Bytes → Node

abbrev pub Entries : Type 0
Entries = List (FilePath × Node)

-- `writable` says where the operating system lets the server create, write or remove an entry.
pub record FileSystem : Type 0 where
  pub entries : Entries
  pub writable : FilePath → Bool

unfoldable pub find : FilePath → Entries → Option Node
find p [] = none
find p ((q, n) ∷ rest) = if path_eq q p then some n else find p rest

unfoldable pub put : FilePath → Node → Entries → Entries
put p n [] = (p, n) ∷ []
put p n ((q, m) ∷ rest) = if path_eq q p then (p, n) ∷ rest else (q, m) ∷ put p n rest

unfoldable pub delete : FilePath → Entries → Entries
delete p [] = []
delete p ((q, m) ∷ rest) = if path_eq q p then delete p rest else (q, m) ∷ delete p rest

-- `access(path, F_OK) == 0`
abbrev pub exists : FilePath → FileSystem → Bool
exists p fs = elim (find p fs.entries) [ none ↦ false | some n ↦ true ]

-- `opendir(path) != NULL`
abbrev pub is_dir : FilePath → FileSystem → Bool
is_dir p fs = elim (find p fs.entries) [
  | none ↦ false
  | some n ↦ elim n [ directory ↦ true | regular b ↦ false ]
]

-- The directory that a new entry would stand in; ASDIR stands in the working directory.
abbrev pub parent_is_dir : FilePath → FileSystem → Bool
parent_is_dir p fs = elim (parent p) [ none ↦ true | some d ↦ is_dir d fs ]

-- `mkdir(path, 0700) == 0`, with the new tree.
unfoldable pub mkdir : FilePath → FileSystem → Bool × FileSystem
mkdir p fs =
    if exists p fs || not (parent_is_dir p fs) || not (fs.writable p)
    then (false, fs)
    else (true, record fs { entries = put p directory fs.entries })

-- `fopen(path, "w")`, `fprintf` and `fclose`: the file is created, or cut off and written anew.
unfoldable pub write_file : FilePath → Bytes → FileSystem → Bool × FileSystem
write_file p content fs =
    if is_dir p fs || not (parent_is_dir p fs) || not (fs.writable p)
    then (false, fs)
    else (true, record fs { entries = put p (regular content) fs.entries })

-- `fopen(path, "r")`: the content, or NULL.
abbrev pub read_file : FilePath → FileSystem → Option Bytes
read_file p fs = elim (find p fs.entries) [
  | none ↦ none
  | some n ↦ elim n [ directory ↦ none | regular b ↦ some b ]
]

-- `unlink(path)`; the source does not look at its result.
unfoldable pub unlink : FilePath → FileSystem → FileSystem
unlink p fs = if fs.writable p then record fs { entries = delete p fs.entries } else fs

first_line : ℕ → Bytes → Bytes
first_line zero s = []
first_line (suc n) [] = []
first_line (suc n) (c ∷ s) = if c == 10 then c ∷ [] else c ∷ first_line n s

-- `fgets(content, n, fp)` at the start of a file: at most n - 1 bytes of its first line, and NULL
-- for an empty file.
unfoldable pub fgets : ℕ → Bytes → Option Bytes
unfolding first_line
fgets n [] = none
fgets n (c ∷ s) = some (first_line (n - 1) (c ∷ s))
