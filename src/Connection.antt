-- ===== src/Connection.antt =====
-- TcpConnection.cc and .h: one connection, on the thread of its loop. The socket's answers are
-- arguments; what the connection does to the outside is a trace. A user's callback is a point of the
-- trace: what it calls in turn are further operations.
pub mod Sound
pub mod Send
pub mod Stream
pub mod Flush
pub mod Drain
pub mod Close
pub mod Fresh
pub mod Phase
pub mod HalfClose
pub mod Events
pub mod Calls
pub mod Ends
pub mod History
mod Tests
use mu_muduo.Common.{
  ℕ, ◌+◌, ◌-◌, ◌*◌, Bool, true, false, not, ◌&&◌, ◌||◌, List, [], ◌∷◌, ◌++◌, if◌then◌else◌, ltb,
  leb, ◌==◌, length, take, drop, sub_size, add_size, Outcome, ok, err, ◌>>=◌,
}
use mu_muduo.Buffer.{
  Buffer, make_buffer, initial_size, readable_bytes, append, retrieve, read_fd, write_fd, Received,
  Transfer, count, saved_errno,
}
use mu_muduo.Buffer.Valid.{content}
use mu_muduo.Port.{Port}

-- `StateE`
pub data ConnState : Type 0 where
  disconnected connecting connected disconnecting : ConnState

abbrev pub is_disconnected : ConnState → Bool
is_disconnected disconnected = true
is_disconnected connecting = false
is_disconnected connected = false
is_disconnected disconnecting = false

abbrev pub is_connected : ConnState → Bool
is_connected connected = true
is_connected disconnected = false
is_connected connecting = false
is_connected disconnecting = false

abbrev pub is_disconnecting : ConnState → Bool
is_disconnecting disconnecting = true
is_disconnecting disconnected = false
is_disconnecting connecting = false
is_disconnecting connected = false

-- <errno.h>
abbrev pub e_would_block : ℕ
e_would_block = 11

abbrev pub e_pipe : ℕ
e_pipe = 32

abbrev pub e_conn_reset : ℕ
e_conn_reset = 104

-- `wrote` holds the bytes that the socket took, `posted_…` what was handed to the loop's queue, and
-- `logged_error` the number in the line of `handleError`.
pub data Effect : Type 0 where
  wrote : List ℕ → Effect
  shut_write : Effect
  called_connection : Effect
  called_message : Effect
  called_close : Effect
  posted_write_complete : Effect
  posted_high_water : ℕ → Effect
  posted_send : List ℕ → Effect
  posted_shutdown : Effect
  logged_error : ℕ → Effect

-- `getsockopt` of SO_ERROR: the pending error, or -1 with this `errno`.
pub data SocketError : Type 0 where
  so_error : ℕ → SocketError
  query_failed : ℕ → SocketError

-- `port` is the channel with all that it is registered in; `trace` is the oldest effect first.
pub record Connection (S : Type 0) : Type 0 where
  pub state : ConnState
  pub port : S
  pub input : Buffer
  pub output : Buffer
  pub high_water_mark : ℕ
  pub write_complete_set : Bool
  pub high_water_set : Bool
  pub trace : List Effect

module _ {S : Type 0} where
  abbrev pub emit : Effect → Connection S → Connection S
  emit e c = record c { trace = c.trace ++ e ∷ [] }

  abbrev pub emit_if : Bool → Effect → Connection S → Connection S
  emit_if true e c = emit e c
  emit_if false e c = c

  -- The constructor: both buffers in their initial size, a mark of 64 MiB, and no callback of the
  -- user set yet.
  pub make_connection : S → Outcome (Connection S)
  make_connection s = do
    input ← make_buffer initial_size
    output ← make_buffer initial_size
    ok (record {
      state = connecting;
      port = s;
      input = input;
      output = output;
      high_water_mark = 64 * 1024 * 1024;
      write_complete_set = false;
      high_water_set = false;
      trace = [];
    })

  -- A callback is set, or emptied; the callback for the high-water mark comes with the mark.
  unfoldable pub set_write_complete_callback : Bool → Connection S → Connection S
  set_write_complete_callback given c = record c { write_complete_set = given }

  pub set_high_water_mark_callback : Bool → ℕ → Connection S → Connection S
  set_high_water_mark_callback given high_water_mark c = record c {
    high_water_set = given;
    high_water_mark = high_water_mark;
  }

  unfoldable pub set_state : ConnState → Connection S → Connection S
  set_state st c = record c { state = st }

-- What the first half of `sendInLoop` leaves to the second: `nwrote`, `remaining`, `faultError`.
pub record Attempt : Type 0 where
  pub nwrote : ℕ
  pub remaining : ℕ
  pub fault_error : Bool

-- The direct write: its result, and the effects that follow from it.
pub attempted : List ℕ → Transfer → Attempt
attempted xs (count n) = record {
  nwrote = n;
  remaining = sub_size (length xs) n;
  fault_error = false;
}
attempted xs (saved_errno e) = record {
  nwrote = 0;
  remaining = length xs;
  fault_error = not (e == e_would_block) && ((e == e_pipe) || (e == e_conn_reset));
}

module _ {S : Type 0} where
  pub after_write : List ℕ → Transfer → Connection S → Connection S
  after_write xs (count n) c =
      emit_if ((sub_size (length xs) n == 0) && c.write_complete_set) posted_write_complete
        (emit (wrote (take n xs)) c)
  after_write xs (saved_errno e) c = c

module _ {S : Type 0} where
  -- The callback for a buffer that passes its mark is handed to the loop when it does.
  pub note_high_water : ℕ → Connection S → Connection S
  note_high_water remaining c =
      let old_len = readable_bytes c.output in
      emit_if
        (leb c.high_water_mark (add_size old_len remaining)
          && (ltb old_len c.high_water_mark && c.high_water_set))
        (posted_high_water (add_size old_len remaining)) c

module _ {S : Type 0} (p : Port S) where
  -- The channel waits for writing, if it does not yet.
  pub arm : S → Outcome S
  arm s = do w ← p.is_writing s; if w then ok s else p.enable_writing s

  pub store_rest : ℕ → List ℕ → Connection S → Outcome (Connection S)
  store_rest remaining ys c = do
    out ← append ys c.output
    s ← arm c.port
    ok (record (note_high_water remaining c) { output = out; port = s })

  -- The second half of `sendInLoop`: what is left goes into the buffer, and the channel waits for the
  -- socket to take more.
  pub buffer_rest : List ℕ → Attempt → Connection S → Outcome (Connection S)
  buffer_rest xs t c =
      if not t.fault_error && ltb 0 t.remaining
      then store_rest t.remaining (take t.remaining (drop t.nwrote xs)) c
      else ok c

  -- `write` answers for the socket.
  pub send_in_loop : (List ℕ → Transfer) → List ℕ → Connection S → Outcome (Connection S)
  send_in_loop write xs c = if is_disconnected c.state then ok c else (do
    w ← p.is_writing c.port
    if not w || (readable_bytes c.output == 0)
        then buffer_rest xs (attempted xs (write xs)) (after_write xs (write xs) c)
        else buffer_rest xs (record { nwrote = 0; remaining = length xs; fault_error = false }) c)

  -- `in_loop` is what `isInLoopThread()` answers.
  pub send : Bool → (List ℕ → Transfer) → List ℕ → Connection S → Outcome (Connection S)
  send in_loop write xs c =
      if is_connected c.state
      then if in_loop then send_in_loop write xs c else ok (emit (posted_send xs) c)
      else ok c

  pub shutdown_in_loop : Connection S → Outcome (Connection S)
  shutdown_in_loop c = do w ← p.is_writing c.port; ok (if w then c else emit shut_write c)

  pub shutdown : Bool → Connection S → Outcome (Connection S)
  unfolding set_state
  shutdown in_loop c =
      if is_connected c.state
      then if in_loop
        then shutdown_in_loop (set_state disconnecting c)
        else ok (emit posted_shutdown (set_state disconnecting c))
      else ok c

  pub connect_established : Connection S → Outcome (Connection S)
  unfolding set_state
  connect_established c = do
    s ← p.tie c.port
    s' ← p.enable_reading s
    ok (emit called_connection (record (set_state connected c) { port = s' }))

  -- The branch of `connectDestroyed` for a connection that is still open.
  pub close_open : Connection S → Outcome (Connection S)
  unfolding set_state
  close_open c = do
    s ← p.disable_all c.port
    ok (emit called_connection (record (set_state disconnected c) { port = s }))

  pub connect_destroyed : Connection S → Outcome (Connection S)
  connect_destroyed c = do
    c' ← if is_connected c.state then close_open c else ok c
    s ← p.remove c'.port
    ok (record c' { port = s })

  pub handle_close : Connection S → Outcome (Connection S)
  unfolding set_state
  handle_close c = do
    s ← p.disable_all c.port
    ok (emit called_close (emit called_connection (record (set_state disconnected c) { port = s })))

  -- `handleError` asks the socket for its pending error and logs that, or why it could not ask.
  pub handle_error : SocketError → Connection S → Connection S
  handle_error (so_error e) c = emit (logged_error e) c
  handle_error (query_failed e) c = emit (logged_error e) c

  -- The three branches on what `readFd` returned.
  pub after_read : SocketError → Transfer → Connection S → Outcome (Connection S)
  after_read err_of (saved_errno e) c = ok (handle_error err_of c)
  after_read err_of (count n) c = if ltb 0 n then ok (emit called_message c) else handle_close c

  pub handle_read : SocketError → Received → Connection S → Outcome (Connection S)
  handle_read err_of r c = do
    (n, input) ← read_fd r c.input
    after_read err_of n (record c { input = input })

  -- The buffer has run empty.
  pub drained : Connection S → Outcome (Connection S)
  drained c = do
    s ← p.disable_writing c.port
    let c' = emit_if c.write_complete_set posted_write_complete (record c { port = s })
    if is_disconnecting c'.state then shutdown_in_loop c' else ok c'

  -- `n` bytes of the buffer are gone.
  pub after_flush : ℕ → Connection S → Outcome (Connection S)
  after_flush n c =
      let sent =
        emit (wrote (take n (content c.output))) (record c { output = retrieve n c.output }) in
      if readable_bytes sent.output == 0 then drained sent else ok sent

  pub flushed : Transfer → Connection S → Outcome (Connection S)
  flushed (saved_errno e) c = ok c
  flushed (count n) c = if ltb 0 n then after_flush n c else ok c

  pub handle_write : (List ℕ → Transfer) → Connection S → Outcome (Connection S)
  handle_write write c = do
    w ← p.is_writing c.port
    if w then (write_fd write c.output >>= λ n. flushed n c) else ok c
