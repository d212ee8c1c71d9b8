-- ===== src/Shared/Verifications.antt =====
-- src/shared/verifications.cpp. The C functions return 0 for acceptance and -1 for refusal: here
-- `true` and `false`.
pub mod Laws
use proj_rc.Base.{
  ℕ, ◌^◌, Bool, true, false, not, ◌||◌, ◌&&◌, [], ◌∷◌, ltb, leb, ◌==◌, if◌then◌else◌, length, Bytes,
  bytes_eq, codes,
}
use proj_rc.Shared.Outcome.{Outcome, ok, ◌>>=◌}
use proj_rc.Shared.Chars.{isdigit, isalnum, isprint, all_bytes}
use proj_rc.Shared.Decimal.{ℤ, pos, negsuc, stoi}

abbrev pub max_filename_size : ℕ
max_filename_size = 24

unfoldable pub verify_user_id : Bytes → Bool
unfolding isdigit
verify_user_id s =
    if not (length s == 6)
    then false
    else if bytes_eq s (codes "000000")
    then false
    else all_bytes isdigit s

unfoldable pub verify_password : Bytes → Bool
unfolding isalnum
verify_password s = if not (length s == 8) then false else all_bytes isalnum s

unfoldable pub verify_name : Bytes → Bool
unfolding isprint
verify_name s = if ltb max_filename_size (length s) then false else all_bytes isprint s

unfoldable pub check_fname_not_forbidden : Bytes → Bool
check_fname_not_forbidden s =
    not (bytes_eq s (codes "..") || bytes_eq s (codes "/") || bytes_eq s (codes "."))

abbrev pub is_separator : ℕ → Bool
is_separator c = c == b'/' || c == 92

abbrev pub has_separator : Bytes → Bool
has_separator [] = false
has_separator (c ∷ s) = is_separator c || has_separator s

-- `path.substr(path.find_last_of("/\\") + 1)`
unfoldable pub file_name : Bytes → Bytes
file_name [] = []
file_name (c ∷ s) = if has_separator (c ∷ s) then file_name s else c ∷ s

-- `opens` says whether the file at a path can be opened for reading.
unfoldable pub verify_asset_fname : (Bytes → Bool) → Bytes → Bool
unfolding file_name check_fname_not_forbidden
verify_asset_fname opens path =
    if ltb max_filename_size (length (file_name path))
    then false
    else if not (check_fname_not_forbidden (file_name path))
    then false
    else opens path

unfoldable pub verify_start_value : Bytes → Bool
unfolding isdigit
verify_start_value s = if ltb 6 (length s) then false else all_bytes isdigit s

unfoldable pub verify_timeactive : Bytes → Bool
unfolding isdigit
verify_timeactive s =
    if ltb 5 (length s)
    then false
    else if bytes_eq s (codes "0")
    then false
    else all_bytes isdigit s

unfoldable pub verify_auction_id : Bytes → Bool
unfolding isdigit
verify_auction_id s = if not (length s == 3) then false else all_bytes isdigit s

-- A uint32_t is refused only when it is zero.
unfoldable pub verify_value : ℕ → Bool
verify_value n = if leb n 0 then false else true

in_port_range : ℤ → Bool
in_port_range (pos n) = if n == 0 || ltb 65535 n then false else true
in_port_range (negsuc n) = false

-- `std::stoi` throws on the empty string and on a number that is no `int`.
unfoldable pub verify_port_number : Bytes → Outcome Bool
unfolding isdigit in_port_range
verify_port_number s =
    if not (all_bytes isdigit s) then ok false else (stoi s >>= λ z. ok (in_port_range z))
