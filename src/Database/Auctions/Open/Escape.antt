-- ===== src/Database/Auctions/Open/Escape.antt =====
-- The name of an asset can lead out of the directory of the asset.
use proj_rc.Base.{
  ℕ, ◌<◌, true, false, ◌≡◌, ◌∙◌, refl, sym, ap, arith, All, All-append, Bool-cases, inl, inr, some,
  none, [], ◌∷◌, ◌++◌, ◌==◌, Bytes, bytes_eq_refl, codes,
}
use proj_rc.Shared.Chars.{IsDigit}
use proj_rc.Shared.Convert.{convert_auction_id_to_str}
use proj_rc.Shared.Convert.Laws.{convert_auction_id_to_str-IsAuctionId}
use proj_rc.Database.Clock.{Clock}
use proj_rc.Database.Files.{FileSystem, regular, find, is_dir}
use proj_rc.Database.Files.Names.{asset_path, components, resolve, follow, finish, child}
use proj_rc.Database.Files.Names.Laws.{components-plain}
use proj_rc.Database.Files.Paths.{start_file, asset_dir, path_eq_refl}
use proj_rc.Database.Monad.{Db, done}
use proj_rc.Database.Auctions.Words.{c_str}
use proj_rc.Database.Auctions.Words.Laws.{All-map, c_str-line}
use proj_rc.Database.Auctions.Files.{create_asset_file, write_at}
use proj_rc.Database.Auctions.Open.{Opening, opened, open_auction}
use proj_rc.Database.Auctions.Open.Made.{find-asset_path, find-register_host}
use proj_rc.Database.Auctions.Open.Effects.{open_auction-steps}

-- The START file of the auction, as it is named from the directory of the asset.
abbrev pub start_name : Bytes → Bytes
start_name a_id = codes "../START_" ++ (a_id ++ codes ".txt")

components-start_name :
    (a_id : Bytes)
    → All (λ c. (c == b'/') ≡ false) a_id
    → components (start_name a_id) ≡ codes ".." ∷ (codes "START_" ++ (a_id ++ codes ".txt")) ∷ []
unfolding components
components-start_name a_id h =
    rw
      (components-plain (a_id ++ codes ".txt")
        (All-append _ a_id (codes ".txt") h (refl, (refl, (refl, (refl, tt))))))
      refl

asset_path-start_name :
    (a_id : Bytes) (fs : FileSystem)
    → All (λ c. (c == b'/') ≡ false) a_id
    → is_dir (asset_dir a_id) fs ≡ true
    → asset_path a_id (start_name a_id) fs ≡ some (start_file a_id)
unfolding asset_path resolve follow finish child
asset_path-start_name a_id fs h d =
    rw (components-start_name a_id h, d, bytes_eq_refl (a_id ++ codes ".txt")) refl

asset_path-no_dir :
    (a_id name : Bytes) (fs : FileSystem)
    → is_dir (asset_dir a_id) fs ≡ false
    → asset_path a_id name fs ≡ none
unfolding asset_path resolve
asset_path-no_dir a_id name fs d = rw d refl

create_asset_file-start_name :
    (a_id content : Bytes) (fs fs' : FileSystem)
    → All IsDigit a_id
    → create_asset_file a_id (start_name a_id) content fs ≡ (true, fs')
    → find (start_file a_id) fs'.entries ≡ some (regular content)
create_asset_file-start_name a_id content fs fs' digits h =
    let no_slash : All (λ c. (c == b'/') ≡ false) a_id =
      All-map (λ c k. ground (arith, k)) a_id digits in
    let no_zero : All (λ c. (c == 0) ≡ false) a_id =
      All-map (λ c k. ground (arith, k)) a_id digits in
    let whole : c_str (start_name a_id) ≡ start_name a_id = c_str-line (start_name a_id) (
      All-append _ (codes "../START_") (a_id ++ codes ".txt") (ground arith)
        (All-append _ a_id (codes ".txt") no_zero (ground arith))) in
    elim (Bool-cases (is_dir (asset_dir a_id) fs)) [
      | inl d ↦
          find-asset_path a_id (start_name a_id) content (start_file a_id) (start_file a_id) fs fs'
            (ap (λ n. asset_path a_id n fs) whole ∙ asset_path-start_name a_id fs no_slash d) h
          ∙ rw (path_eq_refl (start_file a_id)) refl
      | inr d ↦
          let lost = asset_path-no_dir a_id (c_str (start_name a_id)) fs d in
          absurd (unfold create_asset_file write_at in ground (arith, h, lost))
    ]

-- When `open_auction`, with the semaphore free, returns an id, and the name of the asset leads
-- to the START file of this id (`../START_`, the id and `.txt`), the START file holds the
-- bytes of the asset.
pub open_auction-start_name :
    (clock : Clock) (o : Opening) (aid : ℕ) (db db' : Db)
    → o.asset_fname ≡ start_name (convert_auction_id_to_str aid)
    → 0 < db.sem
    → open_auction clock o db ≡ (done (opened aid), db')
    → find (start_file (convert_auction_id_to_str aid)) db'.fs.entries ≡ some (regular o.content)
open_auction-start_name clock o aid db db' named free h =
    let (logged_in, known, numbered, small, made, sem) =
      open_auction-steps clock o aid db db' free h in
    let a_id = convert_auction_id_to_str aid in
    let asset : create_asset_file a_id (start_name a_id) o.content made.with_start
        ≡ (true, made.with_asset) =
      ap (λ n. create_asset_file a_id n o.content made.with_start) (sym named) ∙ made.asset in
    let valid = convert_auction_id_to_str-IsAuctionId aid small in
    find-register_host o.user_id a_id (start_file a_id) made.with_asset db'.fs made.host
    ∙ create_asset_file-start_name a_id o.content made.with_start made.with_asset valid.digits asset
