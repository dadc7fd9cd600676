-- ===== src/Channel/Tests.antt =====
-- A bound channel, and its handlers.
use mu_muduo.Common.{◌≡◌, refl, true, false, [], ◌∷◌, some, bit_or}
use mu_muduo.Channel.{
  Channel, conn_read, conn_write, conn_close, conn_error, make_channel, handle_event, is_reading,
  is_writing, is_none_event, read_on, read_off, write_on, write_off, all_off, epoll_in, epoll_hup,
  epoll_out,
}
use mu_muduo.Channel.Events.{Waits, events_tests, events_changes}

-- The channel of connection 5, tied to it, after a hangup with data left to read and room to write.
abbrev hung_up : Channel
hung_up = record (make_channel 9) {
  events = 7;
  revents = bit_or epoll_hup (bit_or epoll_in epoll_out);
  tie = some 5;
  tied = true;
  read_callback = some (conn_read 5);
  write_callback = some (conn_write 5);
  close_callback = some (conn_close 5);
  error_callback = some (conn_error 5);
}

-- It reads and writes, and does not close yet.
handle_hung_up : handle_event (λ _. true) hung_up ≡ conn_read 5 ∷ conn_write 5 ∷ []
unfolding handle_event
handle_hung_up = refl

events_tests_example :
    (is_reading hung_up ≡ true) × (is_writing hung_up ≡ true) × (is_none_event hung_up ≡ false)
events_tests_example = events_tests true true hung_up refl

events_changes_example :
    Waits true true (read_on hung_up)
    × Waits false true (read_off hung_up)
    × Waits true true (write_on hung_up)
    × Waits true false (write_off hung_up)
    × Waits false false (all_off hung_up)
events_changes_example = events_changes true true hung_up refl
