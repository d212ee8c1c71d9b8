-- ===== src/Database/Auctions/Close.antt =====
-- `Close` and `CloseAuction` (database.cpp).
pub mod Effects
use proj_rc.Base.{ℕ, ◌^◌, Bool, true, false, not, Option, none, some, if◌then◌else◌, leb, Bytes}
use proj_rc.Shared.Outcome.{
  Outcome, user_not_logged_in, user_does_not_exist, incorrect_password, auction_not_found,
  auction_not_owned_by_user, auction_already_closed,
}
use proj_rc.Shared.Outcome
use proj_rc.Shared.Decimal.{stol_u32}
use proj_rc.Database.Clock.{Clock, sub32, u32}
use proj_rc.Database.Files.{exists}
use proj_rc.Database.Files.Paths.{bare_end_file}
use proj_rc.Database.Monad.{
  Action, Db, Reply, done, pure, throw, lift, asks, asks_ok, changes_ok, ◌>>=◌, ◌>>◌,
  semaphore_wait, post_return, post_throw,
}
use proj_rc.Database.Users.{check_user_existed, check_user_logged_in, correct_password, is_correct}
use proj_rc.Database.Auctions.Infos.{
  StartInfo, get_start, check_auction_belongs, check_auction_exists,
}
use proj_rc.Database.Auctions.Files.{EndCreation, create_end_file}

-- DB_CLOSE_NOK and DB_CLOSE_OK. DB_CLOSE_ENDED_ALREADY is always behind a throw.
pub data CloseResult : Type 0 where
  nok ok : CloseResult

unfoldable pub close_by_file : EndCreation → Action CloseResult
close_by_file EndCreation.failed = pure CloseResult.nok
close_by_file EndCreation.created = pure CloseResult.ok
close_by_file EndCreation.existed = throw auction_already_closed

unfoldable pub close : Clock → Bytes → Action CloseResult
unfolding close_by_file
close clock a_id = changes_ok (create_end_file clock a_id) >>= close_by_file

-- `time_passed >= timeactive`
unfoldable pub has_expired : Clock → StartInfo → Outcome Bool
has_expired clock start =
    Outcome.◌>>=◌ (stol_u32 start.timeactive)
      λ timeactive. Outcome.ok (leb timeactive (sub32 (u32 clock.now) start.current_time))

unfoldable pub close_expired : Clock → Bytes → Bool → Action CloseResult
unfolding close post_return post_throw
close_expired clock a_id true = close clock a_id >>= λ res. post_throw auction_already_closed
close_expired clock a_id false = close clock a_id >>= λ res. post_return res

unfoldable pub close_started : Clock → Bytes → Option StartInfo → Action CloseResult
unfolding close_expired post_throw
close_started clock a_id none = post_throw auction_not_found
close_started clock a_id (some start) = lift (has_expired clock start) >>= close_expired clock a_id

-- The file that is looked for is named without the underscore of CreateEndFile.
unfoldable pub close_owned : Clock → Bytes → Action CloseResult
unfolding close_started post_throw
close_owned clock a_id = do
  ended ← asks (exists (bare_end_file a_id))
  if ended
      then post_throw auction_already_closed
      else do start ← asks_ok (get_start a_id); close_started clock a_id start

unfoldable pub close_auction_locked : Clock → Bytes → Bytes → Bytes → Action CloseResult
unfolding close_owned post_throw
close_auction_locked clock a_id user_id password = do
  existed ← asks (check_user_existed user_id)
  if not existed then post_throw user_does_not_exist else do
    logged_in ← asks (check_user_logged_in user_id)
    if not logged_in then post_throw user_not_logged_in else do
      check ← asks (correct_password user_id password)
      if not (is_correct check) then post_throw incorrect_password else do
        is_there ← asks (check_auction_exists a_id)
        if not is_there then post_throw auction_not_found else do
          belongs ← asks_ok (check_auction_belongs a_id user_id)
          if not belongs then post_throw auction_not_owned_by_user else close_owned clock a_id

unfoldable pub close_auction : Clock → Bytes → Bytes → Bytes → Action CloseResult
close_auction clock a_id user_id password =
    semaphore_wait >> close_auction_locked clock a_id user_id password
