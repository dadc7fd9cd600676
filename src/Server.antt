-- ===== src/Server.antt =====
-- TcpServer.cc and .h: the connections of a server, by name, and the loops they are given to. What is
-- handed to a loop is an effect of a trace. Sockets and loops are numbers that are only passed on.
pub mod Names
pub mod Connections
pub mod Balance
pub mod Prints
mod Tests
use mu_muduo.Common.{
  ℕ, ◌+◌, ◌^◌, ◌≡◌, Bool, true, false, List, [], ◌∷◌, ◌++◌, map, if◌then◌else◌, ltb, ◌==◌, decimal,
  Dict, lookup, insert, erase, text_eq, Outcome, ok, err, overflow, exited, Option, none, some,
  ◌>>=◌, ℤ,
}
use mu_muduo.ThreadPool.{ThreadPool, make_pool, set_thread_num, get_next_loop}
use mu_muduo.ThreadPool as Pool

-- What the server keeps of a TcpConnection: its loop, its name and its socket.
pub record Conn : Type 0 where
  pub io_loop : ℕ
  pub name : List ℕ
  pub sockfd : ℕ

-- `ran` is a functor given to `runInLoop` of a loop, `queued` one given to `queueInLoop`.
pub data Task : Type 0 where
  establish destroy remove : Conn → Task
  listen : Task

pub data Effect : Type 0 where
  ran queued : ℕ → Task → Effect
  thread_init : List ℕ → Effect

-- `thread_init_set` tells whether the callback of `setThreadInitCallback` is set.
pub record Server : Type 0 where
  pub loop : ℕ
  pub ip_port : List ℕ
  pub name : List ℕ
  pub thread_pool : ThreadPool
  pub thread_init_set : Bool
  pub started : ℕ
  pub next_conn_id : ℕ
  pub connections : Dict (List ℕ) Conn
  pub trace : List Effect

unfoldable pub make_server : ℕ → List ℕ → List ℕ → Server
make_server loop ip_port name = record {
  loop = loop;
  ip_port = ip_port;
  name = name;
  thread_pool = make_pool loop name;
  thread_init_set = false;
  started = 0;
  next_conn_id = 1;
  connections = [];
  trace = [];
}

-- LOG_FATAL for a null pointer.
pub check_loop_is_null : Option ℕ → Outcome ℕ
check_loop_is_null none = err exited
check_loop_is_null (some loop) = ok loop

-- The constructor, on a pointer that may be null.
pub make_server_on : Option ℕ → List ℕ → List ℕ → Outcome Server
unfolding check_loop_is_null
make_server_on loop ip_port name = do
  checked ← check_loop_is_null loop
  ok (make_server checked ip_port name)

-- `name_`, and behind it what `snprintf` makes of "-%s#%d"; an address and an `int` are shorter than
-- its buffer.
unfoldable pub conn_name : Server → ℕ → List ℕ
conn_name s id = s.name ++ 45 ∷ (s.ip_port ++ 35 ∷ decimal id)

-- `++nextConnId_`
pub next_id : ℕ → Outcome ℕ
next_id id = if ltb (id + 1) (2 ^ 31) then ok (id + 1) else err overflow

unfoldable pub set_thread_init_callback : Server → Server
set_thread_init_callback s = record s { thread_init_set = true }

unfoldable pub set_server_threads : ℤ → Server → Server
set_server_threads n s = record s { thread_pool = set_thread_num n s.thread_pool }

-- `loop_of` gives the loops of the threads that start.
pub start_server : (ℕ → ℕ) → Server → Server
start_server loop_of s =
    if s.started == 0
    then (let started = Pool.start s.thread_init_set loop_of s.thread_pool in
        record s {
          started = s.started + 1;
          thread_pool = started.0;
          trace = s.trace ++ thread_init started.1 ∷ ran s.loop listen ∷ [];
        })
    else record s { started = s.started + 1 }

pub new_connection : ℕ → Server → Outcome Server
unfolding next_id
new_connection sockfd s = do
  (io_loop, pool) ← get_next_loop s.thread_pool
  id ← next_id s.next_conn_id
  let conn : Conn = record { io_loop = io_loop; name = conn_name s s.next_conn_id; sockfd = sockfd }
  ok (record s {
    thread_pool = pool;
    next_conn_id = id;
    connections = insert conn.name conn s.connections;
    trace = s.trace ++ ran io_loop (establish conn) ∷ [];
  })

pub remove_connection : Conn → Server → Server
remove_connection conn s = record s { trace = s.trace ++ ran s.loop (remove conn) ∷ [] }

pub remove_connection_in_loop : Conn → Server → Server
remove_connection_in_loop conn s = record s {
  connections = erase conn.name s.connections;
  trace = s.trace ++ queued conn.io_loop (destroy conn) ∷ [];
}

-- The destructor; the order of the map is that of its list.
pub destroy_server : Server → List Effect
destroy_server s = s.trace ++ map (λ e. ran e.1.io_loop (destroy e.1)) s.connections
