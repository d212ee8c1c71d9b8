-- ===== src/Database/Auctions/Open/Made.antt =====
-- The tree of files when `Open` has made an auction.
use proj_rc.Base.{
  [], refl, true, ◌≡◌, ◌∙◌, ap, arith, Option, some, none, if◌then◌else◌, Bytes, inl, inr,
  Bool-cases,
}
use proj_rc.Database.Clock.{Clock}
use proj_rc.Database.Files.{FileSystem, Node, directory, regular, find, mkdir, write_file, is_dir}
use proj_rc.Database.Files.Laws.{find-mkdir, find-write_file}
use proj_rc.Database.Files.Names.{asset_path}
use proj_rc.Database.Files.Names.Laws.{IsFileName, asset_path-IsFileName}
use proj_rc.Database.Files.Paths.{
  FilePath, path_eq, auction_dir, bids_dir, asset_dir, start_file, asset_file, hosted_file,
}
use proj_rc.Database.Users.{register_host}
use proj_rc.Database.Auctions.Words.{c_str}
use proj_rc.Database.Auctions.Words.Laws.{c_str-line}
use proj_rc.Database.Auctions.Files.{
  create_auction_dir, make_bids_dir, make_asset_dir, create_start_file, create_asset_file,
  start_text, write_at,
}
use proj_rc.Database.Auctions.Open.{Opening}

-- What stands at a path when the auction `a_id` has been opened, from what stood there before: the
-- three directories, the START file, the asset and the entry in HOSTED are new, and all else is as
-- it was.
abbrev pub with_auction : Clock → Opening → Bytes → FilePath → Option Node → Option Node
with_auction clock o a_id p before =
    if path_eq (hosted_file o.user_id a_id) p
    then some (regular [])
    else if path_eq (asset_file a_id o.asset_fname) p
    then some (regular o.content)
    else if path_eq (start_file a_id) p
    then some (
        regular
          (c_str (start_text clock o.user_id o.name o.asset_fname o.start_value o.timeactive)))
    else if path_eq (asset_dir a_id) p
    then some directory
    else if path_eq (bids_dir a_id) p
    then some directory
    else if path_eq (auction_dir a_id) p
    then some directory
    else before

dirs-steps :
    (a_id : Bytes) (fs fs' : FileSystem)
    → create_auction_dir a_id fs ≡ (true, fs')
    → (one : FileSystem) × (two : FileSystem) × (mkdir (auction_dir a_id) fs ≡ (true, one))
      × (mkdir (bids_dir a_id) one ≡ (true, two))
      × (mkdir (asset_dir a_id) two ≡ (true, fs'))
unfolding create_auction_dir make_bids_dir make_asset_dir
dirs-steps a_id fs fs' h =
    let one = (mkdir (auction_dir a_id) fs).1 in
    let two = (mkdir (bids_dir a_id) one).1 in
    (one, two, ground (arith, h), ground (arith, h), ground (arith, h))

find-create_auction_dir :
    (a_id : Bytes) (p : FilePath) (fs fs' : FileSystem)
    → create_auction_dir a_id fs ≡ (true, fs')
    → find p fs'.entries ≡ (
        if path_eq (asset_dir a_id) p
        then some directory
        else if path_eq (bids_dir a_id) p
        then some directory
        else if path_eq (auction_dir a_id) p
        then some directory
        else find p fs.entries)
find-create_auction_dir a_id p fs fs' h =
    let (one, two, h1, h2, h3) = dirs-steps a_id fs fs' h in
    rw (find-mkdir _ p two fs' h3, find-mkdir _ p one two h2, find-mkdir _ p fs one h1) refl

find-create_start_file :
    (clock : Clock) (a_id u n f v t : Bytes) (p : FilePath) (fs fs' : FileSystem)
    → create_start_file clock a_id u n f v t fs ≡ (true, fs')
    → find p fs'.entries ≡ (
        if path_eq (start_file a_id) p
        then some (regular (c_str (start_text clock u n f v t)))
        else find p fs.entries)
unfolding create_start_file
find-create_start_file clock a_id u n f v t p fs fs' h =
    let written : write_file (start_file a_id) (c_str (start_text clock u n f v t)) fs
        ≡ (true, fs') =
      ground (arith, h) in
    find-write_file _ p _ fs fs' written

-- The file that an asset's name stands for holds the asset.
pub find-asset_path :
    (a_id name content : Bytes) (q p : FilePath) (fs fs' : FileSystem)
    → asset_path a_id (c_str name) fs ≡ some q
    → create_asset_file a_id name content fs ≡ (true, fs')
    → find p fs'.entries ≡ (if path_eq q p then some (regular content) else find p fs.entries)
unfolding create_asset_file write_at
find-asset_path a_id name content q p fs fs' path h =
    let at : write_at (asset_path a_id (c_str name) fs) content fs ≡ (true, fs') =
      ground (arith, h) in
    let written : write_file q content fs ≡ (true, fs') = rw path at at in
    find-write_file q p content fs fs' written

find-create_asset_file :
    (a_id name content : Bytes) (p : FilePath) (fs fs' : FileSystem)
    → IsFileName name
    → create_asset_file a_id name content fs ≡ (true, fs')
    → find p fs'.entries
      ≡ (if path_eq (asset_file a_id name) p then some (regular content) else find p fs.entries)
find-create_asset_file a_id name content p fs fs' plain h =
    let path : asset_path a_id (c_str name) fs
        ≡ (if is_dir (asset_dir a_id) fs then some (asset_file a_id name) else none) =
      ap (λ n. asset_path a_id n fs) (c_str-line name plain.no_zero)
      ∙ asset_path-IsFileName a_id name fs plain in
    elim (Bool-cases (is_dir (asset_dir a_id) fs)) [
      | inl d ↦
          find-asset_path a_id name content (asset_file a_id name) p fs fs' (path ∙ rw d refl) h
      | inr d ↦ absurd (
          unfold create_asset_file write_at in
          let lost : asset_path a_id (c_str name) fs ≡ none = path ∙ rw d refl in
          ground (arith, h, lost))
    ]

pub find-register_host :
    (u a_id : Bytes) (p : FilePath) (fs fs' : FileSystem)
    → register_host u a_id fs ≡ (true, fs')
    → find p fs'.entries
      ≡ (if path_eq (hosted_file u a_id) p then some (regular []) else find p fs.entries)
unfolding register_host
find-register_host u a_id p fs fs' h =
    let written : write_file (hosted_file u a_id) [] fs ≡ (true, fs') = ground (arith, h) in
    find-write_file _ p _ fs fs' written

module _ (clock : Clock) (o : Opening) (a_id : Bytes) (fs one two three fs' : FileSystem)
    (dirs : create_auction_dir a_id fs ≡ (true, one))
    (start : create_start_file clock a_id o.user_id o.name o.asset_fname o.start_value o.timeactive
        one
      ≡ (true, two))
    (asset : create_asset_file a_id o.asset_fname o.content two ≡ (true, three))
    (host : register_host o.user_id a_id three ≡ (true, fs')) where
  -- The four steps together, where the asset has the name of a file.
  pub find-steps :
      IsFileName o.asset_fname
      → (p : FilePath) → find p fs'.entries ≡ with_auction clock o a_id p (find p fs.entries)
  find-steps plain p =
      rw
        (
          find-register_host o.user_id a_id p three fs' host,
          find-create_asset_file a_id o.asset_fname o.content p two three plain asset,
          find-create_start_file clock a_id o.user_id o.name o.asset_fname o.start_value
              o.timeactive p one two start,
          find-create_auction_dir a_id p fs one dirs,
        )
        refl
