-- ===== src/Hub.antt =====
-- The connections of a server without loop threads, which live on its one loop: TcpServer.cc and
-- TcpConnection.cc from the construction of a connection to its end, and the handlers of
-- EventLoop::loop, on one reactor that the connections share. An object and its channel are named by
-- one number. The names in the server's map are in Server.
pub mod Queue
pub mod Apart
pub mod Views
pub mod Steps
pub mod Opens
pub mod Destroy
pub mod Free
pub mod TearDown
pub mod Refine
pub mod Marks
pub mod Round
pub mod Sample
mod Tests
use mu_muduo.Common.{
  replicate, ◌-◌, ℕ, ◌≡◌, Bool, true, false, List, [], ◌∷◌, ◌++◌, Option, none, some, Dict, lookup,
  insert, erase, nat_eq, Outcome, ok, err, dangling, ◌>>=◌, if◌then◌else◌,
}
use mu_muduo.Channel.{Channel, make_channel, conn_read, conn_write, conn_close, conn_error}
use mu_muduo.Reactor.{Epoll, State, put, free_channel}
use mu_muduo.Port.{Port}
use mu_muduo.Port.OnReactor.{reactor_port}
use mu_muduo.Connection.Calls.{close_calls}
use mu_muduo.Connection.{
  Effect, Connection, SocketError, make_connection, set_write_complete_callback,
  connect_established, connect_destroyed,
}
use mu_muduo.Connection.Events.{
  Event, sends, shuts, writable, arrives, hangs_up, read_fails, closes, errs, consumes, event_step,
}

-- A connection apart from the reactor, which it shares with others, and with it.
abbrev pub Stored : Type 0
Stored = Connection (Unit {0})

abbrev pub with_port : {S T : Type 0} → S → Connection T → Connection S
with_port s c = record {
  state = c.state;
  port = s;
  input = c.input;
  output = c.output;
  high_water_mark = c.high_water_mark;
  write_complete_set = c.write_complete_set;
  high_water_set = c.high_water_set;
  trace = c.trace;
}

-- The channel that the constructor of TcpConnection makes.
unfoldable pub conn_channel : ℕ → ℕ → Channel
conn_channel o fd = record (make_channel fd) {
  read_callback = some (conn_read o);
  write_callback = some (conn_write o);
  close_callback = some (conn_close o);
  error_callback = some (conn_error o);
}

-- Each call of the close callback is one of `TcpServer::removeConnection`, which queues
-- `connectDestroyed`; `before` and `after` are the connection's trace.
unfoldable pub remove_connections : ℕ → List Effect → List Effect → List ℕ
remove_connections o before after = replicate (close_calls after - close_calls before) o

-- `notifies`: the user has given the server a write-complete callback. `doomed` holds the objects
-- whose `connectDestroyed` is queued, in order.
pub record Hub (ep : Epoll) : Type 0 where
  pub reactor : State ep
  pub conns : Dict ℕ Stored
  pub notifies : Bool
  pub doomed : List ℕ

module _ (ep : Epoll) (room : (k : ep.Kernel) (fd : ℕ) → ep.Room k fd) where
  abbrev pub port_of : ℕ → State ep → Port (State ep)
  port_of o s = reactor_port ep room o o s

  unfoldable pub find : ℕ → Hub ep → Outcome Stored
  find o h = elim (lookup o h.conns) [ none ↦ err dangling | some c ↦ ok c ]

  abbrev pub settle : ℕ → Connection (State ep) → Hub ep → Hub ep
  settle o c h = record h { reactor = c.port; conns = insert o (with_port tt c) h.conns }

  -- `newConnection`: the object with its channel, the callback passed on, and `connectEstablished`.
  unfoldable pub open_connection : ℕ → ℕ → Hub ep → Outcome (Hub ep)
  unfolding conn_channel set_write_complete_callback
  open_connection o fd h = do
    let reactor = put o (conn_channel o fd) h.reactor
    c ← make_connection reactor
    c' ← connect_established (port_of o reactor) (set_write_complete_callback h.notifies c)
    ok (settle o c' h)

  -- An event of the connection's channel, or a call of the user.
  unfoldable pub conn_event : SocketError → ℕ → Event → Hub ep → Outcome (Hub ep)
  unfolding find remove_connections
  conn_event err_of o e h = do
    c ← find o h
    c' ← event_step (port_of o h.reactor) err_of e (with_port h.reactor c)
    let s = settle o c' h
    ok (record s { doomed = h.doomed ++ remove_connections o c.trace c'.trace })

  unfoldable pub destroy_each : List ℕ → Hub ep → Outcome (Hub ep)
  unfolding find
  destroy_each [] h = ok h
  destroy_each (o ∷ os) h = do
    c ← find o h
    c' ← connect_destroyed (port_of o h.reactor) (with_port h.reactor c)
    destroy_each os (settle o c' h)

  -- The objects and their channels end.
  unfoldable pub free_each : List ℕ → Hub ep → Hub ep
  free_each [] h = h
  free_each (o ∷ os) h =
      free_each os (record h { reactor = free_channel o h.reactor; conns = erase o h.conns })

  -- `dopendingFunctors` with the queued `connectDestroyed`: the functors hold the objects up to
  -- the end.
  unfoldable pub tear_down : Hub ep → Outcome (Hub ep)
  unfolding destroy_each free_each
  tear_down h = do h' ← destroy_each h.doomed (record h { doomed = [] }); ok (free_each h.doomed h')
