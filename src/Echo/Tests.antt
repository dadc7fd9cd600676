-- ===== src/Echo/Tests.antt =====
-- The echo server on the connection of one descriptor.
use mu_muduo.Common.{◌≡◌, refl, false, [], ◌∷◌, replicate, inl, arith, pos}
use mu_muduo.Buffer.{Buffer, count, received, readable_bytes, writer_bytes}
use mu_muduo.Channel.{make_channel}
use mu_muduo.Reactor.{State}
use mu_muduo.Reactor.ListEpoll.{
  list_epoll, one_channel, one_channel-Inv, one_channel-found, one_channel-idle,
}
use mu_muduo.Port.{Port}
use mu_muduo.Port.OnReactor.{reactor_port, shape_found}
use mu_muduo.Connection.{Connection, connected, disconnected, so_error}
use mu_muduo.Connection.Sound.{Sound}
use mu_muduo.ThreadPool.{set_thread_num}
use mu_muduo.Server.{set_server_threads}
use mu_muduo.Echo.{echo_read, on_connection, connection_up, connection_down, make_echo_server}
use mu_muduo.Echo.Answer.{Answers, echo_read-Answers}

abbrev port : Port (State list_epoll)
port = reactor_port list_epoll (λ k fd. tt) 40 5 one_channel

abbrev empty_buffer : Buffer
empty_buffer = record { bytes = replicate 32 0; reader_index = 8; writer_index = 8 }

abbrev quiet : Connection (State list_epoll)
quiet = record {
  state = connected;
  port = one_channel;
  input = empty_buffer;
  output = empty_buffer;
  high_water_mark = 64;
  write_complete_set = false;
  high_water_set = false;
  trace = [];
}

quiet-Sound : Sound port false false quiet
unfolding readable_bytes
quiet-Sound = record {
  input_valid = omega arith;
  output_valid = omega arith;
  interest = record {
    channel = make_channel 7;
    found = one_channel-found;
    waits = one_channel-idle;
    inv = one_channel-Inv;
    own = λ d l. shape_found (make_channel 7) d one_channel-found l;
    others = λ b ne. refl;
  };
  armed = λ _. refl;
}

-- Three bytes arrive, and the socket takes two of them at once.
echo_read-Answers_example :
    Answers port false quiet
      (1 ∷ 2 ∷ 3 ∷ [])
      (echo_read port (so_error 0) (received (1 ∷ 2 ∷ 3 ∷ [])) (λ ys. count 2) quiet)
unfolding writer_bytes
echo_read-Answers_example =
    echo_read-Answers port false false (so_error 0) (λ ys. count 2) 1 (2 ∷ 3 ∷ []) quiet quiet-Sound
      refl (inl (omega arith)) (omega arith) (omega arith) refl (inl (omega arith))

up : on_connection quiet ≡ connection_up
unfolding on_connection
up = refl

down : on_connection (record quiet { state = disconnected }) ≡ connection_down
unfolding on_connection
down = refl

three_threads : (make_echo_server 9 [] []).thread_pool.num_threads ≡ pos 3
unfolding make_echo_server set_server_threads set_thread_num
three_threads = refl
