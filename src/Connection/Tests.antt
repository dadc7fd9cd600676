-- ===== src/Connection/Tests.antt =====
-- A connection on the reactor of `ListEpoll`, and the theorems at it.
use mu_muduo.Common.{
  List, if◌then◌else◌, ◌==◌, ◌≡◌, refl, inl, true, false, [], ◌∷◌, ◌++◌, replicate, arith, ok,
  lookup, nat_eq,
}
use mu_muduo.Buffer.{Buffer, readable_bytes, writer_bytes, count, received}
use mu_muduo.Buffer.Valid.{content}
use mu_muduo.Reactor.{State}
use mu_muduo.Reactor.ListEpoll.{
  list_epoll, one_channel, one_channel-Inv, one_channel-found, one_channel-idle, one_busy,
  one_busy-Inv, one_busy-found, busy_channel,
}
use mu_muduo.Channel.{make_channel, shape}
use mu_muduo.Port.{Port}
use mu_muduo.Port.OnReactor.{reactor_port, shape_found}
use mu_muduo.Connection.{
  called_message, Connection, connected, disconnecting, disconnected, send_in_loop, handle_write,
  shutdown, handle_read, so_error, shut_write,
}
use mu_muduo.Connection.Sound.{Sound}
use mu_muduo.Connection.Stream.{Streams, send_in_loop-Streams}
use mu_muduo.Connection.Drain.{run_writes, Drains, run_writes-Drains}
use mu_muduo.Connection.Events.{Event, sends, writable, shuts, hangs_up, Follows, next_state, block}
use mu_muduo.Connection.History.{run_events, run_events-Follows, final_state, accepted}
use mu_muduo.Connection.History.Order.{Orders, run_events-Orders}
use mu_muduo.Connection.Flush.{Preserves, handle_write-Preserves, shutdown_lem}
use mu_muduo.Connection.Close.{Closes, handle_read-received, handle_read-end}

abbrev port : Port (State list_epoll)
port = reactor_port list_epoll (λ k fd. tt) 40 5 one_channel

abbrev empty_buffer : Buffer
empty_buffer = record { bytes = replicate 16 0; reader_index = 8; writer_index = 8 }

abbrev full_buffer : Buffer
full_buffer = record {
  bytes = replicate 8 0 ++ (1 ∷ 2 ∷ replicate 6 0);
  reader_index = 8;
  writer_index = 10;
}

abbrev quiet : Connection (State list_epoll)
quiet = record {
  state = connected;
  port = one_channel;
  input = empty_buffer;
  output = empty_buffer;
  high_water_mark = 64;
  write_complete_set = true;
  high_water_set = true;
  trace = [];
}

-- Two bytes wait for the socket.
abbrev busy : Connection (State list_epoll)
busy = record quiet { port = one_busy; output = full_buffer }

quiet-Sound : Sound port false false quiet
unfolding readable_bytes
quiet-Sound = record {
  input_valid = omega arith;
  output_valid = omega arith;
  interest = record {
    channel = make_channel 7;
    found = one_channel-found;
    waits = one_channel-idle;
    inv = one_channel-Inv;
    own = λ d l. shape_found (make_channel 7) d one_channel-found l;
    others = λ b ne. refl;
  };
  armed = λ _. refl;
}

busy-Sound : Sound port false true busy
unfolding readable_bytes shape make_channel lookup
busy-Sound = record {
  input_valid = omega arith;
  output_valid = omega arith;
  interest = record {
    channel = busy_channel;
    found = one_busy-found;
    waits = refl;
    inv = one_busy-Inv;
    own = λ d l. shape_found (make_channel 7) d one_channel-found l;
    others = λ b ne. ground arith;
  };
  armed = λ _. refl;
}

-- The socket takes two bytes of three at once.
send_in_loop-Streams_example :
    Streams port false quiet
      (7 ∷ 8 ∷ 9 ∷ [])
      (send_in_loop port (λ ys. count 2) (7 ∷ 8 ∷ 9 ∷ []) quiet)
unfolding writer_bytes
send_in_loop-Streams_example =
    send_in_loop-Streams port false (λ ys. count 2) (7 ∷ 8 ∷ 9 ∷ []) false quiet quiet-Sound refl
      (omega arith) (omega arith) refl (inl (omega arith))

handle_write-Preserves_example : Preserves port false busy (handle_write port (λ ys. count 1) busy)
handle_write-Preserves_example =
    handle_write-Preserves port false (λ ys. count 1) true busy busy-Sound

shutdown_lem_example :
    (c' : Connection (State list_epoll)) × (shutdown port true busy ≡ ok c')
    × Sound port false true c'
    × (c'.state ≡ disconnecting)
    × (c'.output ≡ full_buffer)
    × (c'.trace ≡ (if readable_bytes full_buffer == 0 then shut_write ∷ [] else []))
shutdown_lem_example = shutdown_lem port false true busy busy-Sound refl

handle_read-received_example :
    (c' : Connection (State list_epoll)) × (handle_read port (so_error 0) (received (5 ∷ [])) quiet
      ≡ ok c')
    × Sound port false false c'
    × (content c'.input ≡ 5 ∷ [])
    × (c'.state ≡ connected)
    × (c'.output ≡ empty_buffer)
    × (c'.trace ≡ called_message ∷ [])
unfolding writer_bytes
handle_read-received_example =
    handle_read-received port false false (so_error 0) 5 [] quiet quiet-Sound (inl (omega arith))

handle_read-end_example : Closes port quiet (handle_read port (so_error 0) (received []) quiet)
handle_read-end_example = handle_read-end port false false (so_error 0) quiet quiet-Sound

-- The socket takes one byte at a time.
run_writes-Drains_example :
    Drains port false
      (1 ∷ 2 ∷ [])
      (run_writes port 2 (λ ys. count 1) (record busy { state = disconnecting }))
run_writes-Drains_example =
    run_writes-Drains port false 2 (λ ys. count 1) (record busy { state = disconnecting })
      (λ x xs. (1, refl, omega arith, omega arith))
      (record {
        input_valid = busy-Sound.input_valid;
        output_valid = busy-Sound.output_valid;
        interest = busy-Sound.interest;
        armed = λ _. busy-Sound.armed refl;
      })
      refl (omega arith)

-- Three bytes are sent, of which the socket takes two, then one; the user shuts down; the peer hangs
-- up.
abbrev short_life : List Event
short_life =
    sends (λ ys. count 2) (7 ∷ 8 ∷ 9 ∷ []) ∷ writable (λ ys. count 1) ∷ shuts ∷ hangs_up ∷ []

run_events-Follows_example :
    Follows port
      (so_error 0)
      disconnected
      (7 ∷ 8 ∷ 9 ∷ [])
      quiet
      (run_events port (so_error 0) short_life quiet)
unfolding final_state accepted next_state block writer_bytes readable_bytes
run_events-Follows_example =
    run_events-Follows port (so_error 0) short_life false false quiet quiet-Sound (
      (omega arith, omega arith, refl, inl (omega arith)),
      λ c e. (tt, λ c' e'. (tt, λ d f. (tt, λ d' f'. tt))),
    )

run_events-Orders_example : Orders port (so_error 0) (run_events port (so_error 0) short_life quiet)
unfolding writer_bytes readable_bytes
run_events-Orders_example =
    run_events-Orders port (so_error 0) short_life false false quiet quiet-Sound refl (
      (omega arith, omega arith, refl, inl (omega arith)),
      λ c e. (tt, λ c' e'. (tt, λ d f. (tt, λ d' f'. tt))),
    )
