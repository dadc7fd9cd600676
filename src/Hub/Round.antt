-- ===== src/Hub/Round.antt =====
-- A round of EventLoop::loop: the poll, the handlers of the channels that it reports, and the queued
-- `connectDestroyed`.
pub mod Handlers
pub mod Keeps
mod Tests
use mu_muduo.Common.{
  ℕ, ◌≡◌, Bool, true, false, List, [], ◌∷◌, Option, none, some, lookup, nat_eq, Outcome, ok, ◌>>=◌,
}
use mu_muduo.Buffer.{Received, received, failed, Transfer}
use mu_muduo.Channel.{
  Channel, Handler, loop_read, accept_read, conn_read, conn_write, conn_close, conn_error,
  handle_event,
}
use mu_muduo.Reactor.{Epoll, State, load, poll, Waited}
use mu_muduo.Connection.{SocketError}
use mu_muduo.Connection.Events.{Event, arrives, hangs_up, read_fails, writable, closes, errs}
use mu_muduo.Hub.{Hub, conn_event, open_connection, tear_down}

-- What `readv` and `write` answer for each connection, and what each acceptor gets: the new object
-- and its descriptor, or nothing.
pub record Answers : Type 0 where
  pub reads : ℕ → Received
  pub writes : ℕ → List ℕ → Transfer
  pub accepted : ℕ → Option (ℕ × ℕ)

abbrev pub read_event : Received → Event
read_event (received []) = hangs_up
read_event (received (x ∷ xs)) = arrives x xs
read_event (failed errno) = read_fails errno

module _ {ep : Epoll} where
  -- `tie_.lock()` finds the object.
  unfoldable pub is_alive : Hub ep → ℕ → Bool
  is_alive h o = elim (lookup o h.conns) [ none ↦ false | some c ↦ true ]

module _ (ep : Epoll) (room : (k : ep.Kernel) (fd : ℕ) → ep.Room k fd) (err_of : SocketError)
    (answers : Answers) where
  -- The wakeup channel's handler only reads its descriptor.
  unfoldable pub serve : Handler → Hub ep → Outcome (Hub ep)
  serve (loop_read a) h = ok h
  serve (accept_read a) h = elim (answers.accepted a) [
    | none ↦ ok h
    | some (o, fd) ↦ open_connection ep room o fd h
  ]
  serve (conn_read o) h = conn_event ep room err_of o (read_event (answers.reads o)) h
  serve (conn_write o) h = conn_event ep room err_of o (writable (answers.writes o)) h
  serve (conn_close o) h = conn_event ep room err_of o closes h
  serve (conn_error o) h = conn_event ep room err_of o errs h

  unfoldable pub serve_all : List Handler → Hub ep → Outcome (Hub ep)
  unfolding serve
  serve_all [] h = ok h
  serve_all (hd ∷ hds) h = do h' ← serve hd h; serve_all hds h'

  unfoldable pub serve_channels : List ℕ → Hub ep → Outcome (Hub ep)
  unfolding serve_all is_alive
  serve_channels [] h = ok h
  serve_channels (a ∷ active) h = do
    c ← load a h.reactor
    h' ← serve_all (handle_event (is_alive h) c) h
    serve_channels active h'

  unfoldable pub round : Waited → Hub ep → Outcome (Hub ep)
  unfolding serve_channels
  round waited h = do
    (active, s) ← poll waited [] h.reactor
    h' ← serve_channels active (record h { reactor = s })
    tear_down ep room h'
