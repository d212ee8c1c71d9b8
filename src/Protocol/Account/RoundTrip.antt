-- ===== src/Protocol/Account/RoundTrip.antt =====
-- The account messages that one side builds are the messages that the other side reads, over any
-- lawful source.
use proj_rc.Base.{◌≤◌, ◌<◌, ◌≡◌, refl, true, ◌++◌, arith, append_assoc, Bytes, drop}
use proj_rc.Shared.Verifications.{verify_password}
use proj_rc.Protocol.Adapter.{Adapter, IsLawful}
use proj_rc.Protocol.Reader.{pure, read_delimiter, ◌>>◌}
use proj_rc.Protocol.Reader.Yields.{Yields}
use proj_rc.Protocol.Reader.Fields.{IsText}
use proj_rc.Protocol.Reader.Phrases.{credentials-Yields, status-Yields, line_end-Yields}
use proj_rc.Protocol.Codes.{code_login_server, code_logout_server, code_unregister_server}
use proj_rc.Protocol.Account.{
  ClientLoginUser, build_client_login_user, read_client_login_user, ClientLogout,
  build_client_logout, read_client_logout, ClientUnregister, build_client_unregister,
  read_client_unregister, LoginStatus, login_status_text, parse_login_status,
  build_server_login_user, read_server_login_user, LogoutStatus, logout_status_text,
  parse_logout_status, build_server_logout, read_server_logout, UnregisterStatus,
  unregister_status_text, parse_unregister_status, build_server_unregister, read_server_unregister,
}

login-IsText : (status : LoginStatus) → IsText parse_login_status (login_status_text status) status
unfolding parse_login_status login_status_text
login-IsText LoginStatus.ok = (omega arith, (refl, (refl, tt)), refl)
login-IsText LoginStatus.nok = (omega arith, (refl, (refl, (refl, tt))), refl)
login-IsText LoginStatus.reg = (omega arith, (refl, (refl, (refl, tt))), refl)
login-IsText LoginStatus.err = (omega arith, (refl, (refl, (refl, tt))), refl)

logout-IsText :
    (status : LogoutStatus) → IsText parse_logout_status (logout_status_text status) status
unfolding parse_logout_status logout_status_text
logout-IsText LogoutStatus.ok = (omega arith, (refl, (refl, tt)), refl)
logout-IsText LogoutStatus.nok = (omega arith, (refl, (refl, (refl, tt))), refl)
logout-IsText LogoutStatus.unr = (omega arith, (refl, (refl, (refl, tt))), refl)
logout-IsText LogoutStatus.err = (omega arith, (refl, (refl, (refl, tt))), refl)

unregister-IsText :
    (status : UnregisterStatus)
    → IsText parse_unregister_status (unregister_status_text status) status
unfolding parse_unregister_status unregister_status_text
unregister-IsText UnregisterStatus.ok = (omega arith, (refl, (refl, tt)), refl)
unregister-IsText UnregisterStatus.nok = (omega arith, (refl, (refl, (refl, tt))), refl)
unregister-IsText UnregisterStatus.unr = (omega arith, (refl, (refl, (refl, tt))), refl)
unregister-IsText UnregisterStatus.err = (omega arith, (refl, (refl, (refl, tt))), refl)

module _ (a : Adapter) {pending : a.Source → Bytes} (w : IsLawful a pending) where
  open a use {Source}

  -- `read_client_login_user` on a lawful source where what `build_client_login_user` built
  -- stands behind its code, and any bytes after it, for a user id from 100000 to 999999 and
  -- a password that `verify_password` accepts, yields the message, and leaves the bytes
  -- after it.
  pub read-build_client_login_user :
      (m : ClientLoginUser) (s : Source) (rest : Bytes)
      → 100_000 ≤ m.user_id
      → m.user_id < 1_000_000
      → verify_password m.password ≡ true
      → pending s ≡ drop 3 (build_client_login_user m) ++ rest
      → Yields a w (read_client_login_user a) s m rest
  unfolding read_client_login_user build_client_login_user
  read-build_client_login_user m s rest l u v h =
      credentials-Yields a w
        (λ user_id password.
          read_delimiter a >> pure (record { user_id = user_id; password = password }))
        m.user_id m.password 10 rest s l u v refl (simp append_assoc at h)
        λ t k. line_end-Yields a w m t rest k

  -- `read_client_logout` on a lawful source where what `build_client_logout` built stands
  -- behind its code, and any bytes after it, for a user id from 100000 to 999999 and a
  -- password that `verify_password` accepts, yields the message, and leaves the bytes after
  -- it.
  pub read-build_client_logout :
      (m : ClientLogout) (s : Source) (rest : Bytes)
      → 100_000 ≤ m.user_id
      → m.user_id < 1_000_000
      → verify_password m.password ≡ true
      → pending s ≡ drop 3 (build_client_logout m) ++ rest
      → Yields a w (read_client_logout a) s m rest
  unfolding read_client_logout build_client_logout
  read-build_client_logout m s rest l u v h =
      credentials-Yields a w
        (λ user_id password.
          read_delimiter a >> pure (record { user_id = user_id; password = password }))
        m.user_id m.password 10 rest s l u v refl (simp append_assoc at h)
        λ t k. line_end-Yields a w m t rest k

  -- `read_client_unregister` on a lawful source where what `build_client_unregister` built
  -- stands behind its code, and any bytes after it, for a user id from 100000 to 999999 and
  -- a password that `verify_password` accepts, yields the message, and leaves the bytes
  -- after it.
  pub read-build_client_unregister :
      (m : ClientUnregister) (s : Source) (rest : Bytes)
      → 100_000 ≤ m.user_id
      → m.user_id < 1_000_000
      → verify_password m.password ≡ true
      → pending s ≡ drop 3 (build_client_unregister m) ++ rest
      → Yields a w (read_client_unregister a) s m rest
  unfolding read_client_unregister build_client_unregister
  read-build_client_unregister m s rest l u v h =
      credentials-Yields a w
        (λ user_id password.
          read_delimiter a >> pure (record { user_id = user_id; password = password }))
        m.user_id m.password 10 rest s l u v refl (simp append_assoc at h)
        λ t k. line_end-Yields a w m t rest k

  -- `read_server_login_user` on a lawful source where what `build_server_login_user` built
  -- stands, and any bytes after it, yields what it was built from, and leaves the bytes
  -- after it.
  pub read-build_server_login_user :
      (status : LoginStatus) (s : Source) (rest : Bytes)
      → pending s ≡ build_server_login_user status ++ rest
      → Yields a w (read_server_login_user a) s status rest
  unfolding read_server_login_user build_server_login_user
  read-build_server_login_user status s rest h =
      let (size, word, parses) = login-IsText status in
      status-Yields a w parse_login_status code_login_server (login_status_text status) status
        (λ st. read_delimiter a >> pure st) 10 rest s size word refl parses (simp append_assoc at h)
        λ t k. line_end-Yields a w status t rest k

  -- `read_server_logout` on a lawful source where what `build_server_logout` built stands,
  -- and any bytes after it, yields what it was built from, and leaves the bytes after it.
  pub read-build_server_logout :
      (status : LogoutStatus) (s : Source) (rest : Bytes)
      → pending s ≡ build_server_logout status ++ rest
      → Yields a w (read_server_logout a) s status rest
  unfolding read_server_logout build_server_logout
  read-build_server_logout status s rest h =
      let (size, word, parses) = logout-IsText status in
      status-Yields a w parse_logout_status code_logout_server (logout_status_text status) status
        (λ st. read_delimiter a >> pure st) 10 rest s size word refl parses (simp append_assoc at h)
        λ t k. line_end-Yields a w status t rest k

  -- `read_server_unregister` on a lawful source where what `build_server_unregister` built
  -- stands, and any bytes after it, yields what it was built from, and leaves the bytes
  -- after it.
  pub read-build_server_unregister :
      (status : UnregisterStatus) (s : Source) (rest : Bytes)
      → pending s ≡ build_server_unregister status ++ rest
      → Yields a w (read_server_unregister a) s status rest
  unfolding read_server_unregister build_server_unregister
  read-build_server_unregister status s rest h =
      let (size, word, parses) = unregister-IsText status in
      status-Yields a w parse_unregister_status code_unregister_server
        (unregister_status_text status) status (λ st. read_delimiter a >> pure st) 10 rest s size
        word refl parses (simp append_assoc at h) λ t k. line_end-Yields a w status t rest k
