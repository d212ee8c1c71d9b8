-- ===== src/Shared/Outcome.antt =====
-- The exceptions that src/shared and src/server throw (protocol.hpp, utils.hpp, database.hpp), and
-- the result of code that returns a value or throws one of them.
use proj_rc.Base.{◌≡◌, refl, ◌⊎◌, inl, inr}

pub data Exception : Type 0 where
  unexpected_message err_code_message invalid_message message_building : Exception
  message_send message_receive connection_timeout file_exception : Exception
  sem_exception auction_not_found user_not_logged_in user_does_not_exist : Exception
  incorrect_password auction_not_owned_by_user auction_already_closed : Exception
  asset_does_not_exist larger_bid_already_exists bid_on_self : Exception
  -- Thrown by the standard library: `std::stol`, `std::stoi` and `std::filesystem`.
  invalid_argument out_of_range filesystem_error : Exception

pub data Outcome {ℓ} (A : Type ℓ) : Type ℓ where
  ok : A → Outcome A
  raised : Exception → Outcome A

-- The rest of a computation is skipped when it throws.
infixl 5 ◌>>=◌
abbrev pub ◌>>=◌ : {A B : Type 0} → Outcome A → (A → Outcome B) → Outcome B
◌>>=◌ (raised e) rest = raised e
◌>>=◌ (ok value) rest = rest value

pub ok-injective {ℓ} : {A : Type ℓ} {a b : A} → ok a ≡ ok b → a ≡ b
ok-injective h = cc

pub outcome-cases {ℓ} :
    {A : Type ℓ} (r : Outcome A) → ((x : A) × (r ≡ ok x)) ⊎ ((e : Exception) × (r ≡ raised e))
outcome-cases (ok x) = inl (x, refl)
outcome-cases (raised e) = inr (e, refl)
