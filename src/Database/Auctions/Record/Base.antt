-- ===== src/Database/Auctions/Record/Base.antt =====
-- The directories that `CreateBaseDir` makes.
use proj_rc.Base.{true, ◌≡◌, ◌∙◌, refl, arith, [], ◌∷◌, none}
use proj_rc.Database.Files.{FileSystem, is_dir, find, put, mkdir, parent_is_dir, directory}
use proj_rc.Database.Files.Laws.{find-put}
use proj_rc.Database.Files.Paths.{FilePath, as_dir, users_dir, auctions_dir}
use proj_rc.Database.Monad.{Db}
use proj_rc.Database.Users.State.{IsUsable}
use proj_rc.Database.Auctions.Record.{base_made, create_base_dir}

-- The tree with one directory more.
abbrev with_dir : FilePath → FileSystem → FileSystem
with_dir p fs = record fs { entries = put p directory fs.entries }

mkdir-made :
    (p : FilePath) (fs : FileSystem)
    → find p fs.entries ≡ none
    → parent_is_dir p fs ≡ true
    → fs.writable p ≡ true
    → mkdir p fs ≡ (true, with_dir p fs)
unfolding mkdir
mkdir-made p fs new below w = ground (arith, new, below, w)

base_made-made :
    (fs : FileSystem)
    → ((p : FilePath) → find p fs.entries ≡ none)
    → ((p : FilePath) → fs.writable p ≡ true)
    → base_made (as_dir ∷ users_dir ∷ auctions_dir ∷ []) fs
      ≡ (true, with_dir auctions_dir (with_dir users_dir (with_dir as_dir fs)))
unfolding base_made
base_made-made fs fresh w =
    let one = with_dir as_dir fs in
    let two = with_dir users_dir one in
    let at_as = find-put as_dir as_dir directory fs.entries in
    let at_users = find-put users_dir as_dir directory fs.entries ∙ fresh users_dir in
    let as_kept = find-put as_dir users_dir directory one.entries ∙ at_as in
    let at_auctions =
      find-put auctions_dir users_dir directory one.entries
      ∙ (find-put auctions_dir as_dir directory fs.entries ∙ fresh auctions_dir) in
    rw
      (
        mkdir-made as_dir fs (fresh as_dir) refl (w as_dir),
        mkdir-made users_dir one at_users (ground (arith, at_as)) (w users_dir),
        mkdir-made auctions_dir two at_auctions (ground (arith, as_kept)) (w auctions_dir),
      )
      refl

-- From a tree without entries in which everything is writable, `create_base_dir` succeeds, the
-- tree is usable (`IsUsable`), AUCTIONS is a directory and the semaphore is at 1.
pub create_base_dir-IsUsable :
    (db : Db)
    → ((p : FilePath) → find p db.fs.entries ≡ none)
    → ((p : FilePath) → db.fs.writable p ≡ true)
    → ((create_base_dir db).0 ≡ true)
      × IsUsable (create_base_dir db).1.fs
      × (is_dir auctions_dir (create_base_dir db).1.fs ≡ true)
      × ((create_base_dir db).1.sem ≡ 1)
unfolding create_base_dir
create_base_dir-IsUsable db fresh w =
    let two = with_dir users_dir (with_dir as_dir db.fs) in
    let users =
      find-put users_dir auctions_dir directory two.entries
      ∙ find-put users_dir users_dir directory (with_dir as_dir db.fs).entries in
    let auctions = find-put auctions_dir auctions_dir directory two.entries in
    rw (base_made-made db.fs fresh w)
      (refl, record { users = users; may_write = w }, ground (arith, auctions), refl)
