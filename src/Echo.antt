-- ===== src/Echo.antt =====
-- example/testserver.cc: the echo server, its two callbacks on the connections of the library.
pub mod Answer
mod Tests
use mu_muduo.Common.{
  ℕ, Bool, true, false, List, [], ◌∷◌, ◌++◌, if◌then◌else◌, Outcome, ok, ◌>>=◌, ℤ, pos,
}
use mu_muduo.Buffer.{Received, Transfer, retrieve_all_as_string}
use mu_muduo.Connection.{Connection, is_connected, send, shutdown, handle_read, SocketError}
use mu_muduo.Port.{Port}
use mu_muduo.Server.{Server, make_server, set_server_threads, start_server}

-- The constructor: a server with three threads, on port and address in text form.
pub make_echo_server : ℕ → List ℕ → List ℕ → Server
make_echo_server loop ip_port name = set_server_threads (pos 3) (make_server loop ip_port name)

pub start_echo : (ℕ → ℕ) → Server → Server
start_echo = start_server

-- The line that `onConnection` logs.
pub data Notice : Type 0 where
  connection_up connection_down : Notice

-- `connected()` is taken as the comparison that it means to return.
pub on_connection : {S : Type 0} → Connection S → Notice
on_connection c = if is_connected c.state then connection_up else connection_down

module _ {S : Type 0} (p : Port S) where
  -- Everything that is in the input buffer is sent back, and the connection is shut down.
  pub on_message : Bool → (List ℕ → Transfer) → Connection S → Outcome (Connection S)
  on_message in_loop write c = do
    (msg, input) ← retrieve_all_as_string c.input
    c' ← send p in_loop write msg (record c { input = input })
    shutdown p in_loop c'

  -- A read event that brings data, with the callback that it ends in.
  pub echo_read :
      SocketError → Received → (List ℕ → Transfer) → Connection S → Outcome (Connection S)
  unfolding on_message
  echo_read err_of r write c = do c' ← handle_read p err_of r c; on_message true write c'
