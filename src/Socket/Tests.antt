-- ===== src/Socket/Tests.antt =====
-- The calls on a socket.
use mu_muduo.Common.{◌≡◌, refl, true, false, ok, err, exited, [], ◌∷◌}
use mu_muduo.Socket.{
  make_socket, bind_address, listen_socket, listen, shutdown_write, shutdown, logged_shutdown,
  set_keep_alive, set_tcp_no_delay, keep_alive, tcp_no_delay, accept_peer, accepted,
}

listens : listen_socket false (make_socket 4) ≡ ok (record { sockfd = 4; calls = listen 1024 ∷ [] })
unfolding listen_socket make_socket
listens = refl

bind_fails : bind_address true (record { sin_port = 1; sin_addr = 1 }) (make_socket 4) ≡ err exited
unfolding bind_address
bind_fails = refl

half_closes : (shutdown_write true (make_socket 4)).calls ≡ shutdown ∷ logged_shutdown ∷ []
unfolding shutdown_write make_socket
half_closes = refl

options :
    (set_keep_alive true (set_tcp_no_delay false (make_socket 4))).calls
    ≡ tcp_no_delay 0 ∷ keep_alive 1 ∷ []
unfolding set_keep_alive set_tcp_no_delay make_socket
options = refl

-- With descriptor 0 the peer's address stays what it was.
peer_of_zero :
    accept_peer
      (accepted 0 (record { sin_port = 9; sin_addr = 9 }))
      (record { sin_port = 0; sin_addr = 1 })
    ≡ record { sin_port = 0; sin_addr = 1 }
unfolding accept_peer
peer_of_zero = refl
