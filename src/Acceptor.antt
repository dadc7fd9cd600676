-- ===== src/Acceptor.antt =====
-- Acceptor.cc and .h: the listening socket with its channel, and what becomes of a descriptor that it
-- accepts. The channel is the interface Port; the callback and what it works on are a parameter.
pub mod Deliver
pub mod Serve
mod Tests
use mu_muduo.Common.{
  ℕ, Bool, true, false, List, [], ◌∷◌, ◌++◌, ◌==◌, if◌then◌else◌, Option, none, some, Outcome, ok,
  err, exited, ◌>>=◌,
}
use mu_muduo.InetAddress.{InetAddress}
use mu_muduo.Socket.{
  Socket, make_socket, bind_address, listen_socket, accept_peer, Accepted, accepted, accept_failed,
  set_resuse_addr, set_resuse_port, close_socket,
}
use mu_muduo.Port.{Port}

-- <errno.h>
abbrev pub e_mfile : ℕ
e_mfile = 24

pub data Effect : Type 0 where
  delivered : ℕ → InetAddress → Effect
  closed : ℕ → Effect
  logged_error : ℕ → Effect
  logged_limit : Effect

-- `::socket`: a descriptor, or a failure, which is LOG_FATAL.
pub create_nobolcking : Option ℕ → Outcome ℕ
create_nobolcking none = err exited
create_nobolcking (some fd) = ok fd

-- `port` is the channel with all that it is registered in; `target` is what the callback works on.
pub record Acceptor (S T : Type 0) : Type 0 where
  pub accept_socket : Socket
  pub port : S
  pub listenning : Bool
  pub target : T
  pub trace : List Effect

module _ {S T : Type 0} where
  -- The constructor. The channel is made for the new descriptor; `reuseport` is not looked at.
  pub make_acceptor : (ℕ → S) → Option ℕ → Bool → InetAddress → Bool → T → Outcome (Acceptor S T)
  unfolding create_nobolcking make_socket
  make_acceptor make_channel fd bind_failed listen_addr reuseport target = do
    sockfd ← create_nobolcking fd
    bound ←
        bind_address bind_failed listen_addr
          (set_resuse_port true (set_resuse_addr true (make_socket sockfd)))
    ok (record {
      accept_socket = bound;
      port = make_channel sockfd;
      listenning = false;
      target = target;
      trace = [];
    })

  unfoldable pub note : Effect → Acceptor S T → Acceptor S T
  note e a = record a { trace = a.trace ++ e ∷ [] }

  -- The callback is called with the descriptor, if it is set; else the descriptor is closed.
  pub deliver :
      Option (ℕ → InetAddress → T → Outcome T)
      → ℕ
      → InetAddress
      → Acceptor S T
      → Outcome (Acceptor S T)
  unfolding note
  deliver none connfd peer a = ok (note (closed connfd) a)
  deliver (some callback) connfd peer a = do
    target ← callback connfd peer a.target
    ok (note (delivered connfd peer) (record a { target = target }))

  -- `unset` is the address that `peerAddr` has before the call.
  pub handle_read :
      Option (ℕ → InetAddress → T → Outcome T)
      → InetAddress
      → Accepted
      → Acceptor S T
      → Outcome (Acceptor S T)
  unfolding deliver
  handle_read callback unset (accepted connfd peer) a =
      deliver callback connfd (accept_peer (accepted connfd peer) unset) a
  handle_read callback unset (accept_failed errno) a =
      let logged = note (logged_error errno) a in
      ok (if errno == e_mfile then note logged_limit logged else logged)

module _ {S T : Type 0} (p : Port S) where
  pub listen : Bool → Acceptor S T → Outcome (Acceptor S T)
  listen listen_failed a = do
    socket ← listen_socket listen_failed a.accept_socket
    s ← p.enable_reading a.port
    ok (record a { listenning = true; accept_socket = socket; port = s })

  -- The destructor, and that of the socket behind it.
  pub destroy_acceptor : Acceptor S T → Outcome (Acceptor S T)
  destroy_acceptor a = do
    s ← p.disable_all a.port
    s' ← p.remove s
    ok (record a { port = s'; accept_socket = close_socket a.accept_socket })
