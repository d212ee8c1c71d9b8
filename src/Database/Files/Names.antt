-- ===== src/Database/Files/Names.antt =====
-- The path that a name stands for when database.cpp appends it to the directory of an asset, as the
-- operating system resolves it: the name comes with a request, and may hold separators and dots.
pub mod Laws
use proj_rc.Base.{
  ℕ, ◌-◌, Bool, ◌||◌, Option, none, some, List, [], ◌∷◌, ◌++◌, ◌==◌, if◌then◌else◌, length, drop,
  take, Bytes, bytes_eq, codes,
}
use proj_rc.Database.Files.{FileSystem, is_dir}
use proj_rc.Database.Files.Paths.{
  FilePath, as_dir, users_dir, auctions_dir, user_dir, hosted_dir, bidded_dir, login_file,
  pass_file, hosted_file, bidded_file, auction_dir, bids_dir, asset_dir, start_file, end_file,
  bare_end_file, bid_file, asset_file, other_file, outside, parent,
}

abbrev lengthen : ℕ → List Bytes → List Bytes
lengthen c [] = (c ∷ []) ∷ []
lengthen c (w ∷ ws) = (c ∷ w) ∷ ws

-- The parts of a path between its separators.
unfoldable pub components : Bytes → List Bytes
components [] = [] ∷ []
components (c ∷ s) = let rest = components s in if c == b'/' then [] ∷ rest else lengthen c rest

abbrev is_text : Bytes → Bool
is_text n = bytes_eq (drop (length n - 4) n) (codes ".txt")

abbrev stem : Bytes → Bytes
stem n = take (length n - 4) n

-- The entry of a directory with a name.
unfoldable pub child : FilePath → Bytes → FilePath
child as_dir n =
    if bytes_eq n (codes "USERS")
    then users_dir
    else if bytes_eq n (codes "AUCTIONS")
    then auctions_dir
    else other_file as_dir n
child users_dir n = user_dir n
child auctions_dir n = auction_dir n
child (user_dir u) n =
    if bytes_eq n (codes "HOSTED")
    then hosted_dir u
    else if bytes_eq n (codes "BIDDED")
    then bidded_dir u
    else if bytes_eq n (u ++ codes "_login.txt")
    then login_file u
    else if bytes_eq n (u ++ codes "_pass.txt")
    then pass_file u
    else other_file (user_dir u) n
child (hosted_dir u) n = if is_text n then hosted_file u (stem n) else other_file (hosted_dir u) n
child (bidded_dir u) n = if is_text n then bidded_file u (stem n) else other_file (bidded_dir u) n
child (auction_dir a) n =
    if bytes_eq n (codes "BIDS")
    then bids_dir a
    else if bytes_eq n (codes "ASSET")
    then asset_dir a
    else if bytes_eq n (codes "START_" ++ (a ++ codes ".txt"))
    then start_file a
    else if bytes_eq n (codes "END_" ++ (a ++ codes ".txt"))
    then end_file a
    else if bytes_eq n (codes "END" ++ (a ++ codes ".txt"))
    then bare_end_file a
    else other_file (auction_dir a) n
child (bids_dir a) n = if is_text n then bid_file a (stem n) else other_file (bids_dir a) n
child (asset_dir a) n = asset_file a n
child p n = other_file p n

-- Where the parts of a path that have been followed lead to: a directory of the tree, the working
-- directory of the server, in which ASDIR stands, or a place that the tree does not show. From there
-- no path is taken to lead back: it would have to name the working directory.
pub data Place : Type 0 where
  stands : FilePath → Place
  working beyond : Place

abbrev stays : Bytes → Bool
stays n = bytes_eq n [] || bytes_eq n (codes ".")

abbrev goes_up : Bytes → Bool
goes_up n = bytes_eq n (codes "..")

abbrev above_dir : Option FilePath → Place
above_dir none = working
above_dir (some d) = stands d

abbrev enter : FileSystem → FilePath → Option Place
enter fs p = if is_dir p fs then some (stands p) else none

-- A part that a separator follows: it has to be a directory.
unfoldable pub follow : FileSystem → Place → Bytes → Option Place
unfolding child
follow fs (stands d) n =
    if stays n
    then some (stands d)
    else if goes_up n
    then some (above_dir (parent d))
    else enter fs (child d n)
follow fs working n =
    if stays n
    then some working
    else if goes_up n
    then some beyond
    else if bytes_eq n (codes "ASDIR")
    then enter fs as_dir
    else some beyond
follow fs beyond n = some beyond

-- The last part, of the path `name`: a file that can be opened for writing, which a directory that
-- is named by dots is not.
unfoldable pub finish : Bytes → Place → Bytes → Option FilePath
unfolding child
finish name (stands d) n = if stays n || goes_up n then none else some (child d n)
finish name working n =
    if stays n || goes_up n
    then none
    else if bytes_eq n (codes "ASDIR")
    then some as_dir
    else some (outside name)
finish name beyond n = some (outside name)

unfoldable pub resolve : FileSystem → Bytes → List Bytes → Option Place → Option FilePath
unfolding follow finish
resolve fs name parts none = none
resolve fs name [] (some p) = none
resolve fs name (n ∷ []) (some p) = finish name p n
resolve fs name (n ∷ m ∷ parts) (some p) = resolve fs name (m ∷ parts) (follow fs p n)

-- The path `ASDIR/AUCTIONS/<a_id>/ASSET/<name>`; `none`: it does not name a file.
unfoldable pub asset_path : Bytes → Bytes → FileSystem → Option FilePath
unfolding resolve components
asset_path a_id name fs = resolve fs name (components name) (enter fs (asset_dir a_id))
