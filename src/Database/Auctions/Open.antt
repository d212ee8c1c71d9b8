-- ===== src/Database/Auctions/Open.antt =====
-- `Open` (database.cpp).
pub mod Fresh
pub mod Effects
pub mod Made
pub mod Escape
use proj_rc.Base.{
  ℕ, suc, ◌+◌, ◌%◌, ◌^◌, Bool, true, false, not, List, [], ◌∷◌, if◌then◌else◌, ltb, leb, Bytes,
}
use proj_rc.Shared.Outcome.{Outcome, user_not_logged_in}
use proj_rc.Shared.Outcome
use proj_rc.Shared.Decimal.{stoi, to_u32}
use proj_rc.Shared.Convert.{convert_auction_id_to_str}
use proj_rc.Database.Clock.{Clock}
use proj_rc.Database.Files.{FileSystem}
use proj_rc.Database.Files.Paths.{FilePath, auctions_dir, auction_dir}
use proj_rc.Database.Files.Listing.{iterate, dir_id, rmdir}
use proj_rc.Database.Monad.{
  Action, Db, done, asks, asks_ok, changes, ◌>>=◌, ◌>>◌, semaphore_wait, post_return, post_throw,
}
use proj_rc.Database.Users.{check_user_logged_in, correct_password, is_correct, register_host}
use proj_rc.Database.Auctions.Files.{create_auction_dir, create_start_file, create_asset_file}

-- DB_OPEN_CREATE_FAIL, or the id of the new auction. DB_OPEN_NOT_LOGGED_IN is behind a throw.
pub data OpenResult : Type 0 where
  create_fail : OpenResult
  opened : ℕ → OpenResult

-- The ids are 32-bit numbers.
abbrev pub above : ℕ → ℕ → ℕ
above aid n = if leb aid n then (n + 1) % 2 ^ 32 else aid

-- The loop over the directory of auctions: one more than the largest id that is met.
unfoldable pub next_id : ℕ → List FilePath → Outcome ℕ
next_id aid [] = Outcome.ok aid
next_id aid (p ∷ ps) = Outcome.◌>>=◌ (stoi (dir_id p)) λ z. next_id (above aid (to_u32 z)) ps

unfoldable pub first_id : List FilePath → Outcome ℕ
unfolding next_id
first_id [] = Outcome.ok 1
first_id (p ∷ ps) = next_id 0 (p ∷ ps)

unfoldable pub new_aid : FileSystem → Outcome ℕ
unfolding first_id
new_aid fs = Outcome.◌>>=◌ (iterate auctions_dir fs) first_id

-- `rmdir(a_dir_fname); semaphore_post(); return DB_OPEN_CREATE_FAIL;`
give_up : Bytes → Action OpenResult
unfolding post_return rmdir
give_up c_aid = do changes (λ fs. (tt, rmdir (auction_dir c_aid) fs)); post_return create_fail

-- A request to open an auction, as `Open` gets it.
pub record Opening : Type 0 where
  pub user_id : Bytes
  pub name : Bytes
  pub password : Bytes
  pub asset_fname : Bytes
  pub start_value : Bytes
  pub timeactive : Bytes
  pub content : Bytes

unfoldable pub create_auction : Clock → Opening → ℕ → Action OpenResult
unfolding give_up post_return
create_auction clock o aid =
    let c_aid = convert_auction_id_to_str aid in
    changes (create_auction_dir c_aid) >>= λ has_dir.
    if not has_dir then post_return create_fail else do
      has_start ←
          changes (
            create_start_file clock c_aid o.user_id o.name o.asset_fname o.start_value o.timeactive)
      if not has_start then give_up c_aid else do
        has_asset ← changes (create_asset_file c_aid o.asset_fname o.content)
        if not has_asset then give_up c_aid else do
          has_host ← changes (register_host o.user_id c_aid)
          if not has_host then give_up c_aid else post_return (opened aid)

unfoldable pub open_locked : Clock → Opening → Action OpenResult
unfolding post_return post_throw create_auction
open_locked clock o = do
  logged_in ← asks (check_user_logged_in o.user_id)
  if not logged_in then post_throw user_not_logged_in else do
    check ← asks (correct_password o.user_id o.password)
    if not (is_correct check) then post_return create_fail else do
      aid ← asks_ok new_aid
      if ltb 999 aid then post_return create_fail else create_auction clock o aid

unfoldable pub open_auction : Clock → Opening → Action OpenResult
open_auction clock o = semaphore_wait >> open_locked clock o
