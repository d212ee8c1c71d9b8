-- ===== src/Server/Handled.antt =====
-- What a request handler of handlers.cpp comes to.
use proj_rc.Base.{Bytes}
use proj_rc.Shared.Outcome.{Exception, invalid_message}

-- `answered`: the bytes handed to `send_udp_message` or `send_tcp_message`. `unanswered`: an
-- exception was caught by a clause that prints an error and returns, so the client hears nothing.
-- `escaped`: an exception leaves the handler. `waiting`: the call blocks on the semaphore.
pub data Handled : Type 0 where
  answered : Bytes → Handled
  unanswered waiting : Handled
  escaped : Exception → Handled

-- `catch (InvalidMessageException &e)` answers with the status ERR, and the last clause with
-- nothing.
abbrev pub on_exception : Bytes → Exception → Handled
on_exception err invalid_message = answered err
on_exception err _ = unanswered
