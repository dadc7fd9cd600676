-- ===== src/Server/Tests.antt =====
-- A server without worker threads, with one connection.
use mu_muduo.Common.{
  ◌++◌, take, length, ◌≤◌, pos, true, ◌+◌, ℕ, ◌≡◌, refl, ◌∷◌, [], List, some, none, lookup, text_eq,
  text_beq, ok, arith, inr, if◌then◌else◌, decimal, insert, ◌⊎◌, inl, ◌<◌, sym, ap, ◌∙◌,
}
use mu_muduo.ThreadPool.{make_pool}
use mu_muduo.Server.{
  Server, Conn, make_server, start_server, set_server_threads, new_connection, conn_name,
  remove_connection_in_loop, ran, queued, establish, destroy,
}
use mu_muduo.Server.Balance.{Gives, new_connections, new_connections-round, start_server-Gives}
use mu_muduo.InetAddress.{to_ip_port}
use mu_muduo.InetAddress.Home.{home, loopback, server}
use mu_muduo.InetAddress.Texts.{make_address_lem}
use mu_muduo.Server.Prints.{conn_name_lem, suffix}
use mu_muduo.Server.Connections.{
  Inv, inserted, make_server-Inv, new_connection_lem, remove_connection_lem,
}

abbrev empty : Server
empty = make_server 7 (49 ∷ []) (83 ∷ [])

new_connection_lem_example :
    (c : Conn) × (s : Server) × (new_connection 5 empty ≡ ok s)
    × Inv s
    × (c.name ≡ conn_name empty 1)
    × (c.sockfd ≡ 5)
    × (s.next_conn_id ≡ 2)
    × (lookup c.name empty.connections ≡ none)
    × ((k : List ℕ)
        → lookup k s.connections
          ≡ (if text_beq c.name k then some c else lookup k empty.connections))
    × (s.trace ≡ ran c.io_loop (establish c) ∷ [])
unfolding make_server
new_connection_lem_example =
    new_connection_lem 5 empty (make_server-Inv 7 (49 ∷ []) (83 ∷ [])) (omega arith)

abbrev first : Conn
first = record { io_loop = 7; name = conn_name empty 1; sockfd = 5 }

abbrev one_connection : Server
one_connection = record empty {
  next_conn_id = 2;
  connections = (conn_name empty 1, first) ∷ [];
  trace = ran 7 (establish first) ∷ [];
}

one_connection-Inv : Inv one_connection
unfolding make_server make_pool insert lookup conn_name
one_connection-Inv = record {
  named = λ k c h. named k c (inserted empty (conn_name empty 1) first k c h);
  usable = inr refl;
}
  where
    named :
        (k : List ℕ) (c : Conn)
        → ((conn_name empty 1 ≡ k) × (first ≡ c)) ⊎ (lookup k empty.connections ≡ some c)
        → (i : ℕ) × (i < 2) × (k ≡ conn_name one_connection i) × (c.name ≡ k)
    named k c (inl (a, b)) = (1, omega arith, sym a, ap (λ x. x.name) (sym b) ∙ a)
    named k c (inr h) = cc

remove_connection_lem_example :
    Inv (remove_connection_in_loop first one_connection)
    × ((k : List ℕ)
        → lookup k (remove_connection_in_loop first one_connection).connections
          ≡ (if text_beq first.name k then none else lookup k one_connection.connections))
    × ((remove_connection_in_loop first one_connection).trace
        ≡ ran 7 (establish first) ∷ queued 7 (destroy first) ∷ [])
remove_connection_lem_example = remove_connection_lem first one_connection one_connection-Inv

-- "S-1#1" for the server "S" at "1".
first_name : conn_name empty 1 ≡ 83 ∷ 45 ∷ 49 ∷ 35 ∷ 49 ∷ []
unfolding conn_name make_server decimal
first_name = refl

-- Two loops, of which the second comes next.
abbrev two_loops : Server
two_loops = record empty {
  thread_pool = record {
    base_loop = 7;
    name = [];
    started = true;
    num_threads = pos 2;
    next = 1;
    threads = [];
    loops = 20 ∷ 30 ∷ [];
  };
}

new_connections-round_example :
    Gives (30 ∷ 20 ∷ []) two_loops.thread_pool two_loops (new_connections (5 ∷ 6 ∷ []) two_loops)
unfolding make_server
new_connections-round_example =
    new_connections-round (5 ∷ 6 ∷ []) two_loops (omega arith) refl (omega arith)

abbrev started_server : Server
started_server =
    start_server (λ i. 100 + i) (set_server_threads (pos 2) (make_server 7 (49 ∷ []) (83 ∷ [])))

start_server-Gives_example :
    Gives
      (100 ∷ 101 ∷ [])
      started_server.thread_pool
      started_server
      (new_connections (5 ∷ 6 ∷ []) started_server)
start_server-Gives_example =
    start_server-Gives 2 (λ i. 100 + i) 7 (49 ∷ []) (83 ∷ []) (5 ∷ 6 ∷ []) (omega arith)
      (omega arith) refl

-- A server at 127.0.0.1:8000.
abbrev at_home : Server
at_home = make_server 7 (loopback ++ 58 ∷ decimal 8000) (83 ∷ [])

conn_name_lem_example :
    (conn_name at_home 1 ≡ 83 ∷ take 63 (suffix (loopback ++ 58 ∷ decimal 8000) 1))
    × (length (suffix (loopback ++ 58 ∷ decimal 8000) 1) ≤ 33)
unfolding make_server
conn_name_lem_example = conn_name_lem home server at_home 1 at_8000 (omega arith)
  where
    at_8000 : to_ip_port home server ≡ ok (loopback ++ 58 ∷ decimal 8000)
    at_8000 = (make_address_lem home 8000 loopback (omega arith) refl).2
