-- ===== src/Acceptor/Tests.antt =====
-- A listening socket on the reactor of `ListEpoll`, and a server behind it.
use mu_muduo.Common.{ℕ, ◌≡◌, refl, true, false, List, [], ◌∷◌, ok, arith, none, err, exited}
use mu_muduo.InetAddress.{InetAddress}
use mu_muduo.Socket.{
  Socket, make_socket, accepted, accept_failed, Accepted, close, bind, reuse_addr, reuse_port,
  bind_address, set_resuse_port, set_resuse_addr,
}
use mu_muduo.Socket as Sock
use mu_muduo.Channel.{make_channel}
use mu_muduo.Reactor.{State}
use mu_muduo.Reactor.ListEpoll.{
  list_epoll, one_channel, one_channel-Inv, one_channel-found, one_channel-idle,
}
use mu_muduo.Port.{Port}
use mu_muduo.Port.OnReactor.{Holds, reactor_port, shape_found}
use mu_muduo.Server.{Server, make_server}
use mu_muduo.Server.Connections.{make_server-Inv}
use mu_muduo.Acceptor as Acc
use mu_muduo.Acceptor.{
  Acceptor, make_acceptor, handle_read, destroy_acceptor, closed, logged_error, logged_limit,
}
use mu_muduo.Acceptor.Deliver.{run_reads}
use mu_muduo.Acceptor.Serve.{serve, Serves, run_reads-Serves, listen-destroy}

abbrev port : Port (State list_epoll)
port = reactor_port list_epoll (λ k fd. tt) 40 5 one_channel

abbrev somewhere : InetAddress
somewhere = record { sin_port = 16415; sin_addr = 16777343 }

abbrev listening : Acceptor (State list_epoll) Server
listening = record {
  accept_socket = record { sockfd = 7; calls = [] };
  port = one_channel;
  listenning = false;
  target = make_server 7 (49 ∷ []) (83 ∷ []);
  trace = [];
}

-- Two connections, and a failure between them.
abbrev events : List Accepted
events = accepted 12 somewhere ∷ accept_failed 24 ∷ accepted 13 somewhere ∷ []

run_reads-Serves_example :
    Serves (12 ∷ 13 ∷ []) listening (run_reads serve somewhere events listening)
unfolding make_server
run_reads-Serves_example =
    run_reads-Serves somewhere events listening (make_server-Inv 7 (49 ∷ []) (83 ∷ []))
      (omega arith)

listen-destroy_example :
    (b : Acceptor (State list_epoll) Server) × (c : Acceptor (State list_epoll) Server)
    × (Acc.listen port false listening ≡ ok b)
    × (b.listenning ≡ true)
    × Holds list_epoll (λ k fd. tt) 40 5 one_channel true false b.port
    × (destroy_acceptor port b ≡ ok c)
    × Holds list_epoll (λ k fd. tt) 40 5 one_channel false false c.port
    × (c.accept_socket.calls ≡ Sock.listen 1024 ∷ close ∷ [])
listen-destroy_example = listen-destroy port false false listening (record {
  channel = make_channel 7;
  found = one_channel-found;
  waits = one_channel-idle;
  inv = one_channel-Inv;
  own = λ d l. shape_found (make_channel 7) d one_channel-found l;
  others = λ b ne. refl;
})

-- Without a callback the descriptor is closed again; a full table of descriptors is logged.
closes :
    handle_read none somewhere (accepted 12 somewhere) (record listening { trace = [] })
    ≡ ok (record listening { trace = closed 12 ∷ [] })
unfolding handle_read
closes = refl

logs_limit :
    handle_read none somewhere (accept_failed 24) listening
    ≡ ok (record listening { trace = logged_error 24 ∷ logged_limit ∷ [] })
unfolding handle_read
logs_limit = refl

no_socket : make_acceptor {T = ℕ} (λ fd. fd) none false somewhere true 5 ≡ err exited
unfolding make_acceptor
no_socket = refl
