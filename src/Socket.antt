-- ===== src/Socket.antt =====
-- Socket.cc and .h: a descriptor and the system calls on it. What a call returns is an argument, the
-- calls that were made are a trace.
mod Tests
use mu_muduo.Common.{
  ℕ, Bool, List, [], ◌∷◌, ◌++◌, ◌==◌, ltb, if◌then◌else◌, Outcome, ok, err, exited,
}
use mu_muduo.InetAddress.{InetAddress}

-- The options, with their value.
pub data Syscall : Type 0 where
  bind : InetAddress → Syscall
  listen : ℕ → Syscall
  shutdown close : Syscall
  tcp_no_delay reuse_addr reuse_port keep_alive : ℕ → Syscall
  logged_shutdown : Syscall

pub record Socket : Type 0 where
  pub sockfd : ℕ
  pub calls : List Syscall

unfoldable pub make_socket : ℕ → Socket
make_socket sockfd = record { sockfd = sockfd; calls = [] }

unfoldable pub call_on : Syscall → Socket → Socket
call_on c s = record s { calls = s.calls ++ c ∷ [] }

-- `failed` tells that the system call did not return 0: LOG_FATAL.
unfoldable pub bind_address : Bool → InetAddress → Socket → Outcome Socket
unfolding call_on
bind_address failed a s = if failed then err exited else ok (call_on (bind a) s)

unfoldable pub listen_socket : Bool → Socket → Outcome Socket
unfolding call_on
listen_socket failed s = if failed then err exited else ok (call_on (listen 1024) s)

-- What `accept4` returns: a descriptor with the address of the peer, or -1 with this `errno`.
pub data Accepted : Type 0 where
  accepted : ℕ → InetAddress → Accepted
  accept_failed : ℕ → Accepted

-- The peer's address is stored for a descriptor above 0 only.
unfoldable pub accept_peer : Accepted → InetAddress → InetAddress
accept_peer (accepted connfd a) peer = if ltb 0 connfd then a else peer
accept_peer (accept_failed errno) peer = peer

-- A failure is logged.
pub shutdown_write : Bool → Socket → Socket
unfolding call_on
shutdown_write failed s =
    if failed then call_on logged_shutdown (call_on shutdown s) else call_on shutdown s

abbrev pub option_value : Bool → ℕ
option_value on = if on then 1 else 0

unfoldable pub set_tcp_no_delay : Bool → Socket → Socket
unfolding call_on
set_tcp_no_delay on s = call_on (tcp_no_delay (option_value on)) s

unfoldable pub set_resuse_addr : Bool → Socket → Socket
unfolding call_on
set_resuse_addr on s = call_on (reuse_addr (option_value on)) s

unfoldable pub set_resuse_port : Bool → Socket → Socket
unfolding call_on
set_resuse_port on s = call_on (reuse_port (option_value on)) s

unfoldable pub set_keep_alive : Bool → Socket → Socket
unfolding call_on
set_keep_alive on s = call_on (keep_alive (option_value on)) s

-- The destructor.
unfoldable pub close_socket : Socket → Socket
unfolding call_on
close_socket s = call_on close s
