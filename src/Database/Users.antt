-- ===== src/Database/Users.antt =====
-- The files of a user (database.cpp): the checks, and the functions that create and remove them.
-- The codes 0, -1 and 2 that they return are the constructors of small types.
pub mod State
pub mod Checks
pub mod Laws
use proj_rc.Base.{Bool, true, false, not, Option, none, some, [], if◌then◌else◌, Bytes, bytes_eq}
use proj_rc.Shared.Verifications.{verify_user_id, verify_password, verify_auction_id}
use proj_rc.Database.Files.{FileSystem, is_dir, exists, mkdir, write_file, read_file, unlink, fgets}
use proj_rc.Database.Files.Paths.{
  FilePath, user_dir, hosted_dir, bidded_dir, login_file, pass_file, hosted_file, bidded_file,
}

unfoldable pub check_user_existed : Bytes → FileSystem → Bool
check_user_existed user_id fs = is_dir (user_dir user_id) fs

-- `fopen(path, "r") != NULL`, which holds of a directory, too.
abbrev can_open : FilePath → FileSystem → Bool
can_open p fs = exists p fs

unfoldable pub check_user_registered : Bytes → FileSystem → Bool
check_user_registered user_id fs =
    if not (verify_user_id user_id) then false else can_open (pass_file user_id) fs

unfoldable pub check_user_logged_in : Bytes → FileSystem → Bool
check_user_logged_in user_id fs =
    if not (verify_user_id user_id) then false else can_open (login_file user_id) fs

-- -1, 0 and 2 of `CreateUserDir`.
pub data Creation : Type 0 where
  failed created existed : Creation

make_bidded_dir : Bytes → FileSystem → Creation × FileSystem
make_bidded_dir user_id fs =
    let (bidded, fs') = mkdir (bidded_dir user_id) fs in
    if not bidded then (failed, fs') else (created, fs')

make_hosted_dir : Bytes → FileSystem → Creation × FileSystem
unfolding make_bidded_dir
make_hosted_dir user_id fs =
    let (hosted, fs') = mkdir (hosted_dir user_id) fs in
    if not hosted then (failed, fs') else make_bidded_dir user_id fs'

unfoldable pub create_user_dir : Bytes → FileSystem → Creation × FileSystem
unfolding make_hosted_dir check_user_existed
create_user_dir user_id fs =
    if not (verify_user_id user_id)
    then (failed, fs)
    else if check_user_existed user_id fs
    then (existed, fs)
    else (let (made, fs') = mkdir (user_dir user_id) fs in
        if not made then (failed, fs') else make_hosted_dir user_id fs')

unfoldable pub create_login : Bytes → FileSystem → Bool × FileSystem
create_login user_id fs =
    if not (verify_user_id user_id) then (false, fs) else write_file (login_file user_id) [] fs

unfoldable pub create_password : Bytes → Bytes → FileSystem → Bool × FileSystem
create_password user_id password fs =
    if not (verify_password password)
    then (false, fs)
    else write_file (pass_file user_id) password fs

unfoldable pub register_host : Bytes → Bytes → FileSystem → Bool × FileSystem
register_host user_id a_id fs =
    if not (verify_user_id user_id)
    then (false, fs)
    else if not (verify_auction_id a_id)
    then (false, fs)
    else write_file (hosted_file user_id a_id) [] fs

unfoldable pub register_bid : Bytes → Bytes → FileSystem → Bool × FileSystem
register_bid user_id a_id fs =
    if not (verify_user_id user_id)
    then (false, fs)
    else if not (verify_auction_id a_id)
    then (false, fs)
    else write_file (bidded_file user_id a_id) [] fs

-- -1, 0 and 2 of `EraseLogin`.
pub data LoginErasure : Type 0 where
  failed erased absent : LoginErasure

unfoldable pub erase_login : Bytes → FileSystem → LoginErasure × FileSystem
unfolding check_user_existed
erase_login user_id fs =
    if not (verify_user_id user_id)
    then (LoginErasure.failed, fs)
    else if not (check_user_existed user_id fs)
    then (LoginErasure.failed, fs)
    else if not (exists (login_file user_id) fs)
    then (LoginErasure.absent, fs)
    else (LoginErasure.erased, unlink (login_file user_id) fs)

-- -1, 0 and 2 of `ErasePassword`.
pub data PasswordErasure : Type 0 where
  failed erased unknown_user : PasswordErasure

unfoldable pub erase_password : Bytes → FileSystem → PasswordErasure × FileSystem
unfolding check_user_existed
erase_password user_id fs =
    if not (verify_user_id user_id)
    then (PasswordErasure.failed, fs)
    else if not (check_user_existed user_id fs)
    then (PasswordErasure.unknown_user, fs)
    else if not (exists (pass_file user_id) fs)
    then (PasswordErasure.failed, fs)
    else (PasswordErasure.erased, unlink (pass_file user_id) fs)

-- -1, 0 and 1 of `CorrectPassword`.
pub data PasswordCheck : Type 0 where
  unusable incorrect correct : PasswordCheck

compare_line : Bytes → Option Bytes → PasswordCheck
compare_line password none = unusable
compare_line password (some line) = if bytes_eq line password then correct else incorrect

compare_file : Bytes → Option Bytes → PasswordCheck
unfolding compare_line fgets
compare_file password none = unusable
compare_file password (some content) = compare_line password (fgets 9 content)

unfoldable pub correct_password : Bytes → Bytes → FileSystem → PasswordCheck
unfolding compare_file
correct_password user_id password fs =
    if not (verify_user_id user_id)
    then unusable
    else if not (verify_password password)
    then unusable
    else compare_file password (read_file (pass_file user_id) fs)

-- `CorrectPassword(user_id, password) == 1`
abbrev pub is_correct : PasswordCheck → Bool
is_correct unusable = false
is_correct incorrect = false
is_correct correct = true
