-- ===== src/Database/Files/Paths.antt =====
-- The paths that database.cpp builds, by their shape, and the text of each.
use proj_rc.Base.{
  Bool, true, false, ◌&&◌, ◌≡◌, refl, ap, Option, none, some, ◌++◌, arith, Bytes, codes, bytes_eq,
  bytes_eq_refl, bytes_eq→eq,
}

pub data FilePath : Type 0 where
  as_dir users_dir auctions_dir : FilePath
  user_dir hosted_dir bidded_dir login_file pass_file : Bytes → FilePath
  hosted_file bidded_file : Bytes → Bytes → FilePath
  auction_dir bids_dir asset_dir start_file end_file : Bytes → FilePath
  -- `END` and the id with no underscore between, which only `CloseAuction` names.
  bare_end_file : Bytes → FilePath
  bid_file asset_file : Bytes → Bytes → FilePath
  -- An entry of a directory with a name that database.cpp gives to none.
  other_file : FilePath → Bytes → FilePath
  -- A path that leaves ASDIR, as it is written behind the directory of the asset.
  outside : Bytes → FilePath

abbrev pub path_eq : FilePath → FilePath → Bool
path_eq as_dir as_dir = true
path_eq users_dir users_dir = true
path_eq auctions_dir auctions_dir = true
path_eq (user_dir u) (user_dir v) = bytes_eq u v
path_eq (hosted_dir u) (hosted_dir v) = bytes_eq u v
path_eq (bidded_dir u) (bidded_dir v) = bytes_eq u v
path_eq (login_file u) (login_file v) = bytes_eq u v
path_eq (pass_file u) (pass_file v) = bytes_eq u v
path_eq (hosted_file u a) (hosted_file v b) = bytes_eq u v && bytes_eq a b
path_eq (bidded_file u a) (bidded_file v b) = bytes_eq u v && bytes_eq a b
path_eq (auction_dir u) (auction_dir v) = bytes_eq u v
path_eq (bids_dir u) (bids_dir v) = bytes_eq u v
path_eq (asset_dir u) (asset_dir v) = bytes_eq u v
path_eq (start_file u) (start_file v) = bytes_eq u v
path_eq (end_file u) (end_file v) = bytes_eq u v
path_eq (bare_end_file u) (bare_end_file v) = bytes_eq u v
path_eq (bid_file u a) (bid_file v b) = bytes_eq u v && bytes_eq a b
path_eq (asset_file u a) (asset_file v b) = bytes_eq u v && bytes_eq a b
path_eq (other_file d n) (other_file e m) = path_eq d e && bytes_eq n m
path_eq (outside n) (outside m) = bytes_eq n m
path_eq _ _ = false

pub path_eq_refl : (p : FilePath) → path_eq p p ≡ true
path_eq_refl as_dir = refl
path_eq_refl users_dir = refl
path_eq_refl auctions_dir = refl
path_eq_refl (user_dir u) = bytes_eq_refl u
path_eq_refl (hosted_dir u) = bytes_eq_refl u
path_eq_refl (bidded_dir u) = bytes_eq_refl u
path_eq_refl (login_file u) = bytes_eq_refl u
path_eq_refl (pass_file u) = bytes_eq_refl u
path_eq_refl (hosted_file u a) = rw (bytes_eq_refl u) (bytes_eq_refl a)
path_eq_refl (bidded_file u a) = rw (bytes_eq_refl u) (bytes_eq_refl a)
path_eq_refl (auction_dir u) = bytes_eq_refl u
path_eq_refl (bids_dir u) = bytes_eq_refl u
path_eq_refl (asset_dir u) = bytes_eq_refl u
path_eq_refl (start_file u) = bytes_eq_refl u
path_eq_refl (end_file u) = bytes_eq_refl u
path_eq_refl (bare_end_file u) = bytes_eq_refl u
path_eq_refl (bid_file u a) = rw (bytes_eq_refl u) (bytes_eq_refl a)
path_eq_refl (asset_file u a) = rw (bytes_eq_refl u) (bytes_eq_refl a)
path_eq_refl (other_file d n) = rw (path_eq_refl d) (bytes_eq_refl n)
path_eq_refl (outside n) = bytes_eq_refl n

pub path_eq→eq : (p q : FilePath) → path_eq p q ≡ true → p ≡ q
path_eq→eq as_dir as_dir h = refl
path_eq→eq users_dir users_dir h = refl
path_eq→eq auctions_dir auctions_dir h = refl
path_eq→eq (user_dir u) (user_dir v) h = ap user_dir (bytes_eq→eq u v h)
path_eq→eq (hosted_dir u) (hosted_dir v) h = ap hosted_dir (bytes_eq→eq u v h)
path_eq→eq (bidded_dir u) (bidded_dir v) h = ap bidded_dir (bytes_eq→eq u v h)
path_eq→eq (login_file u) (login_file v) h = ap login_file (bytes_eq→eq u v h)
path_eq→eq (pass_file u) (pass_file v) h = ap pass_file (bytes_eq→eq u v h)
path_eq→eq (hosted_file u a) (hosted_file v b) h = ground (arith, bytes_eq→eq u v, bytes_eq→eq a b)
path_eq→eq (bidded_file u a) (bidded_file v b) h = ground (arith, bytes_eq→eq u v, bytes_eq→eq a b)
path_eq→eq (auction_dir u) (auction_dir v) h = ap auction_dir (bytes_eq→eq u v h)
path_eq→eq (bids_dir u) (bids_dir v) h = ap bids_dir (bytes_eq→eq u v h)
path_eq→eq (asset_dir u) (asset_dir v) h = ap asset_dir (bytes_eq→eq u v h)
path_eq→eq (start_file u) (start_file v) h = ap start_file (bytes_eq→eq u v h)
path_eq→eq (end_file u) (end_file v) h = ap end_file (bytes_eq→eq u v h)
path_eq→eq (bare_end_file u) (bare_end_file v) h = ap bare_end_file (bytes_eq→eq u v h)
path_eq→eq (bid_file u a) (bid_file v b) h = ground (arith, bytes_eq→eq u v, bytes_eq→eq a b)
path_eq→eq (asset_file u a) (asset_file v b) h = ground (arith, bytes_eq→eq u v, bytes_eq→eq a b)
path_eq→eq (other_file d n) (other_file e m) h = ground (arith, path_eq→eq d e, bytes_eq→eq n m)
path_eq→eq (outside n) (outside m) h = ap outside (bytes_eq→eq n m h)
path_eq→eq _ _ h = cc

-- The directory that holds a path.
abbrev pub parent : FilePath → Option FilePath
parent as_dir = none
parent users_dir = some as_dir
parent auctions_dir = some as_dir
parent (user_dir u) = some users_dir
parent (hosted_dir u) = some (user_dir u)
parent (bidded_dir u) = some (user_dir u)
parent (login_file u) = some (user_dir u)
parent (pass_file u) = some (user_dir u)
parent (hosted_file u a) = some (hosted_dir u)
parent (bidded_file u a) = some (bidded_dir u)
parent (auction_dir a) = some auctions_dir
parent (bids_dir a) = some (auction_dir a)
parent (asset_dir a) = some (auction_dir a)
parent (start_file a) = some (auction_dir a)
parent (end_file a) = some (auction_dir a)
parent (bare_end_file a) = some (auction_dir a)
parent (bid_file a v) = some (bids_dir a)
parent (asset_file a f) = some (asset_dir a)
parent (other_file d n) = some d
parent (outside n) = none

-- The path as the source spells it.
unfoldable pub path_text : FilePath → Bytes
path_text as_dir = codes "ASDIR"
path_text users_dir = codes "ASDIR/USERS"
path_text auctions_dir = codes "ASDIR/AUCTIONS"
path_text (user_dir u) = codes "ASDIR/USERS/" ++ u
path_text (hosted_dir u) = codes "ASDIR/USERS/" ++ (u ++ codes "/HOSTED")
path_text (bidded_dir u) = codes "ASDIR/USERS/" ++ (u ++ codes "/BIDDED")
path_text (login_file u) = codes "ASDIR/USERS/" ++ (u ++ (codes "/" ++ (u ++ codes "_login.txt")))
path_text (pass_file u) = codes "ASDIR/USERS/" ++ (u ++ (codes "/" ++ (u ++ codes "_pass.txt")))
path_text (hosted_file u a) =
    codes "ASDIR/USERS/" ++ (u ++ (codes "/HOSTED/" ++ (a ++ codes ".txt")))
path_text (bidded_file u a) =
    codes "ASDIR/USERS/" ++ (u ++ (codes "/BIDDED/" ++ (a ++ codes ".txt")))
path_text (auction_dir a) = codes "ASDIR/AUCTIONS/" ++ a
path_text (bids_dir a) = codes "ASDIR/AUCTIONS/" ++ (a ++ codes "/BIDS")
path_text (asset_dir a) = codes "ASDIR/AUCTIONS/" ++ (a ++ codes "/ASSET")
path_text (start_file a) =
    codes "ASDIR/AUCTIONS/" ++ (a ++ (codes "/START_" ++ (a ++ codes ".txt")))
path_text (end_file a) = codes "ASDIR/AUCTIONS/" ++ (a ++ (codes "/END_" ++ (a ++ codes ".txt")))
path_text (bare_end_file a) =
    codes "ASDIR/AUCTIONS/" ++ (a ++ (codes "/END" ++ (a ++ codes ".txt")))
path_text (bid_file a v) = codes "ASDIR/AUCTIONS/" ++ (a ++ (codes "/BIDS/" ++ (v ++ codes ".txt")))
path_text (asset_file a f) = codes "ASDIR/AUCTIONS/" ++ (a ++ (codes "/ASSET/" ++ f))
path_text (other_file d n) = path_text d ++ (codes "/" ++ n)
path_text (outside n) = n
