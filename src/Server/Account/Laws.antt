-- ===== src/Server/Account/Laws.antt =====
-- Requests about accounts from the bytes of the request to the bytes of the answer and the files
-- that are left, over any lawful source.
use proj_rc.Base.{ℕ, ◌≤◌, ◌<◌, ◌≡◌, refl, sym, true, ◌∷◌, ◌++◌, arith, drop, Bytes, append_assoc}
use proj_rc.Shared.Decimal.{to_string}
use proj_rc.Shared.Verifications.{verify_user_id, verify_password}
use proj_rc.Shared.Verifications.Laws.{IsUserId-verify}
use proj_rc.Shared.Convert.Laws.{to_string-IsUserId, verify_user_id_short}
use proj_rc.Shared.Convert.{convert_user_id_to_str}
use proj_rc.Protocol.Adapter.{Adapter, IsLawful}
use proj_rc.Protocol.Reader.{read_space, read_user_id}
use proj_rc.Protocol.Reader.Yields.{Yields, Yields-bind, Yields-then, read_space-Yields}
use proj_rc.Protocol.Reader.Fields.{read_user_id_padded-Yields, read_password-Yields}
use proj_rc.Protocol.Reader.Phrases.{line_end-Yields}
use proj_rc.Protocol.Codes.{space}
use proj_rc.Protocol.Reader.Raises.{bind-raises, Yields-raises, read_user_id-short}
use proj_rc.Protocol.Account.{
  ClientLoginUser, build_client_login_user, read_client_login_user, ClientLogout,
  build_client_logout, ClientUnregister, build_client_unregister, LoginStatus,
  build_server_login_user,
}
use proj_rc.Protocol.Account.RoundTrip.{
  read-build_client_login_user, read-build_client_logout, read-build_client_unregister,
}
use proj_rc.Database.Monad.{Db}
use proj_rc.Database.Users.State.{Account, Represents, IsUsable}
use proj_rc.Database.Accounts.Spec.{login_spec, logout_spec, unregister_spec}
use proj_rc.Database.Accounts.Does.{Does, answer-Does}
use proj_rc.Database.Accounts.Login.{login_user-Does, login_user-invalid}
use proj_rc.Database.Accounts.Logout.{logout-Does}
use proj_rc.Database.Accounts.Unregister.{unregister-Does}
use proj_rc.Server.Handled.{answered}
use proj_rc.Server.Account.Spec.{
  login_answer, logout_answer, unregister_answer, answer_login-eq, answer_logout-eq,
  answer_unregister-eq,
}
use proj_rc.Server.Account.{
  answer_login, answer_logout, answer_unregister, handle_login, handle_logout, handle_unregister,
  login_status,
}

printed_id : (uid : ℕ) → 100_000 ≤ uid → uid < 1_000_000 → verify_user_id (to_string uid) ≡ true
printed_id uid l u = IsUserId-verify (to_string uid) (to_string-IsUserId uid l u)

module _ (a : Adapter) {pending : a.Source → Bytes} (w : IsLawful a pending) where
  open a use {Source}

  -- For a built login request with a user id from 100000 to 999999 and a password that
  -- `verify_password` accepts, read behind its code from any lawful source, on usable files
  -- (`IsUsable`), a free semaphore and the user in any of the four account states:
  -- `handle_login` answers byte for byte as `login_answer` says, leaves the account as
  -- `login_spec` says, and changes neither the other users' files nor the semaphore.
  pub handle_login-Does :
      (m : ClientLoginUser) (s : Source) (rest : Bytes) (db : Db) (account : Account)
      → 100_000 ≤ m.user_id
      → m.user_id < 1_000_000
      → verify_password m.password ≡ true
      → pending s ≡ drop 3 (build_client_login_user m) ++ rest
      → IsUsable db.fs
      → 0 < db.sem
      → Represents db.fs.entries (to_string m.user_id) account
      → Does
          (to_string m.user_id)
          db
          (handle_login a s db)
          (login_answer m.password account, (login_spec m.password account).1)
  unfolding handle_login
  handle_login-Does m s rest db account l u v h us free k =
      rw
        (
          (read-build_client_login_user a w m s rest l u v h).result,
          sym (answer_login-eq m.password account),
        )
        (answer-Does answer_login (
          login_user-Does (to_string m.user_id) m.password db (printed_id m.user_id l u) v us free
            account k))

  -- For a built logout request with a user id from 100000 to 999999 and a password that
  -- `verify_password` accepts, read behind its code from any lawful source, on usable files
  -- (`IsUsable`), a free semaphore and the user in any of the four account states:
  -- `handle_logout` answers byte for byte as `logout_answer` says, leaves the account as
  -- `logout_spec` says, and changes neither the other users' files nor the semaphore.
  pub handle_logout-Does :
      (m : ClientLogout) (s : Source) (rest : Bytes) (db : Db) (account : Account)
      → 100_000 ≤ m.user_id
      → m.user_id < 1_000_000
      → verify_password m.password ≡ true
      → pending s ≡ drop 3 (build_client_logout m) ++ rest
      → IsUsable db.fs
      → 0 < db.sem
      → Represents db.fs.entries (to_string m.user_id) account
      → Does
          (to_string m.user_id)
          db
          (handle_logout a s db)
          (logout_answer m.password account, (logout_spec m.password account).1)
  unfolding handle_logout
  handle_logout-Does m s rest db account l u v h us free k =
      rw
        (
          (read-build_client_logout a w m s rest l u v h).result,
          sym (answer_logout-eq m.password account),
        )
        (answer-Does answer_logout (
          logout-Does (to_string m.user_id) m.password db (printed_id m.user_id l u) v us free
            account k))

  -- For a built unregister request with a user id from 100000 to 999999 and a password that
  -- `verify_password` accepts, read behind its code from any lawful source, on usable files
  -- (`IsUsable`), a free semaphore and the user in any of the four account states:
  -- `handle_unregister` answers byte for byte as `unregister_answer` says, leaves the
  -- account as `unregister_spec` says, and changes neither the other users' files nor the
  -- semaphore.
  pub handle_unregister-Does :
      (m : ClientUnregister) (s : Source) (rest : Bytes) (db : Db) (account : Account)
      → 100_000 ≤ m.user_id
      → m.user_id < 1_000_000
      → verify_password m.password ≡ true
      → pending s ≡ drop 3 (build_client_unregister m) ++ rest
      → IsUsable db.fs
      → 0 < db.sem
      → Represents db.fs.entries (to_string m.user_id) account
      → Does
          (to_string m.user_id)
          db
          (handle_unregister a s db)
          (unregister_answer m.password account, (unregister_spec m.password account).1)
  unfolding handle_unregister
  handle_unregister-Does m s rest db account l u v h us free k =
      rw
        (
          (read-build_client_unregister a w m s rest l u v h).result,
          sym (answer_unregister-eq m.password account),
        )
        (answer-Does answer_unregister (
          unregister-Does (to_string m.user_id) m.password db (printed_id m.user_id l u) v us free
            account k))

  read_padded_login :
      (m : ClientLoginUser) (s : Source) (rest : Bytes)
      → 0 < m.user_id
      → m.user_id < 100_000
      → verify_password m.password ≡ true
      → pending s
        ≡ space ++ (convert_user_id_to_str m.user_id ++ (space ++ (m.password ++ (10 ∷ rest))))
      → Yields a w (read_client_login_user a) s m rest
  unfolding read_client_login_user
  read_padded_login m s rest p u v h = Yields-then a w _ _ s (read_space-Yields a w s _ h) λ s₁ h₁.
      Yields-bind a w _ _ s₁
        (read_user_id_padded-Yields a w m.user_id _ s₁ _ p (omega arith) refl h₁)
        λ s₂ h₂. Yields-then a w _ _ s₂ (read_space-Yields a w s₂ _ h₂) λ s₃ h₃.
          Yields-bind a w _ _ s₃ (read_password-Yields a w m.password 10 s₃ rest v refl h₃)
            λ t k. line_end-Yields a w m t rest k

  -- A login request that is built for a user id below 100000, on any database, is answered
  -- with ERR, and the database does not change: the id is sent without its leading zeros.
  pub handle_login-short_id :
      (m : ClientLoginUser) (s : Source) (rest : Bytes) (db : Db)
      → m.user_id < 100_000
      → pending s ≡ drop 3 (build_client_login_user m) ++ rest
      → handle_login a s db ≡ (answered (build_server_login_user LoginStatus.err), db)
  unfolding handle_login build_client_login_user read_client_login_user
  handle_login-short_id m s rest db u h = rw (
      Yields-raises a w (read_space a) _ s (read_space-Yields a w s _ (simp append_assoc at h))
        λ t k.
          bind-raises a w (read_user_id a) _ t (read_user_id-short a w m.user_id _ t _ u refl k))

  -- A login request whose text has a user id from 1 to 99999 padded to six digits, and a
  -- valid password, with the semaphore free, is answered with NOK, and the database does not
  -- change: the id goes to the database without its leading zeros.
  pub handle_login-padded_id :
      (m : ClientLoginUser) (s : Source) (rest : Bytes) (db : Db)
      → 0 < m.user_id
      → m.user_id < 100_000
      → verify_password m.password ≡ true
      → pending s
        ≡ space ++ (convert_user_id_to_str m.user_id ++ (space ++ (m.password ++ (10 ∷ rest))))
      → 0 < db.sem
      → handle_login a s db ≡ (answered (build_server_login_user LoginStatus.nok), db)
  unfolding handle_login answer_login login_status
  handle_login-padded_id m s rest db p u v h free = rw (
    (read_padded_login m s rest p u v h).result,
    login_user-invalid (to_string m.user_id) m.password db (verify_user_id_short m.user_id u) free,
  )
