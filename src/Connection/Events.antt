-- ===== src/Connection/Events.antt =====
-- One event of a connection's life on the thread of its loop, or one call of the user: what it leaves of
-- the state and of the stream.
use mu_muduo.Common.{
  ℕ, ◌-◌, ◌≤◌, ◌<◌, ◌^◌, ◌≡◌, refl, sym, ap, ap₂, subst, ◌∙◌, Bool, true, false, not, List, [], ◌∷◌,
  ◌++◌, length, ◌==◌, append-nil, Outcome, ok, if◌then◌else◌, Bool-cases, inl, inr, no_bool,
}
use mu_muduo.Buffer.{failed, retrieve, readable_bytes, received, Transfer}
use mu_muduo.Buffer.Valid.{content}
use mu_muduo.Buffer.Append.{Fits}
use mu_muduo.Buffer.Moves.{retrieve-IsValid}
use mu_muduo.Buffer.Socket.{read_fd_failed, ReadFits}
use mu_muduo.Connection.{
  handle_close, handle_error, after_read, so_error, query_failed, logged_error, emit, ConnState,
  connected, connecting, disconnecting, disconnected, is_connected, is_disconnected, Connection,
  SocketError, send, shutdown, handle_read, handle_write, called_connection, called_close,
  called_message, shut_write, Effect,
}
use mu_muduo.Connection.Sound.{Sound, stream, sent_by, sent_bytes, sent_bytes-snoc}
use mu_muduo.Connection.Stream.{taken, fatal, send_in_loop-Streams}
use mu_muduo.Connection.Flush.{emit-Sound, handle_write-Preserves, shutdown_lem}
use mu_muduo.Connection.Close.{Closes, handle_close-Closes, handle_read-received, handle_read-end}
use mu_muduo.Port.{Port}

-- The user sends a block, or shuts the connection down; the socket can be written to; it has bytes
-- to read, or the peer has hung up, or the read fails; the channel calls the handler for a close or
-- for an error; the user takes bytes out of the input buffer. `write` answers for the socket.
pub data Event : Type 0 where
  sends : (List ℕ → Transfer) → List ℕ → Event
  shuts : Event
  writable : (List ℕ → Transfer) → Event
  arrives : ℕ → List ℕ → Event
  hangs_up : Event
  read_fails : ℕ → Event
  closes errs : Event
  consumes : ℕ → Event

-- What the user has been promised: the state, and the bytes accepted for the peer. A block counts
-- while the connection is connected.
unfoldable pub next_state : Event → ConnState → ConnState
next_state (sends write xs) st = st
next_state shuts st = if is_connected st then disconnecting else st
next_state (writable write) st = st
next_state (arrives x xs) st = st
next_state hangs_up st = disconnected
next_state (read_fails errno) st = st
next_state closes st = disconnected
next_state errs st = st
next_state (consumes n) st = st

unfoldable pub block : Event → ConnState → List ℕ
block (sends write xs) st = if is_connected st then xs else []
block shuts st = []
block (writable write) st = []
block (arrives x xs) st = []
block hangs_up st = []
block (read_fails errno) st = []
block closes st = []
block errs st = []
block (consumes n) st = []

-- Whether the server is told that the connection is over.
abbrev pub ends : Event → Bool
ends (sends write xs) = false
ends shuts = false
ends (writable write) = false
ends (arrives x xs) = false
ends hangs_up = true
ends (read_fails errno) = false
ends closes = true
ends errs = false
ends (consumes n) = false

pub is_connected_lem : (st : ConnState) → is_connected st ≡ true → st ≡ connected
is_connected_lem connected e = refl
is_connected_lem disconnected e = no_bool e refl
is_connected_lem connecting e = no_bool e refl
is_connected_lem disconnecting e = no_bool e refl

silent :
    (es : List Effect) (e : Effect) → sent_by e ≡ [] → sent_bytes (es ++ e ∷ []) ≡ sent_bytes es
silent es e h = sent_bytes-snoc es e ∙ ap (λ ys. sent_bytes es ++ ys) h ∙ append-nil (sent_bytes es)

module _ {S : Type 0} (p : Port S) (err_of : SocketError) where
  unfoldable pub event_step : Event → Connection S → Outcome (Connection S)
  event_step (sends write xs) c = send p true write xs c
  event_step shuts c = shutdown p true c
  event_step (writable write) c = handle_write p write c
  event_step (arrives x xs) c = handle_read p err_of (received (x ∷ xs)) c
  event_step hangs_up c = handle_read p err_of (received []) c
  event_step (read_fails errno) c = handle_read p err_of (failed errno) c
  event_step closes c = handle_close p c
  event_step errs c = ok (handle_error p err_of c)
  event_step (consumes n) c = ok (record c { input = retrieve n c.input })

  -- What the buffers and the socket must see to: a block has room behind what waits, the socket
  -- takes no more than it is given and does not report the peer gone, and what arrives has room.
  abbrev pub Admits : Event → Connection S → Type 0
  Admits (sends write xs) c =
      let w = not (readable_bytes c.output == 0) in
      (length xs < 2 ^ 64)
      × (taken w (write xs) ≤ length xs)
      × (fatal w (write xs) ≡ false)
      × Fits (length xs - taken w (write xs)) c.output
  Admits shuts c = Unit {0}
  Admits (writable write) c = Unit {0}
  Admits (arrives x xs) c = ReadFits (length (x ∷ xs)) c.input
  Admits hangs_up c = Unit {0}
  Admits (read_fails errno) c = Unit {0}
  Admits closes c = Unit {0}
  Admits errs c = Unit {0}
  Admits (consumes n) c = Unit {0}

  -- The call returns a sound connection in state `st`, whose stream has grown by `ys`.
  abbrev pub Follows : ConnState → List ℕ → Connection S → Outcome (Connection S) → Type 0
  Follows st ys c out =
      (c' : Connection S) × (r' : Bool) × (w' : Bool) × (out ≡ ok c')
      × Sound p r' w' c'
      × (c'.state ≡ st)
      × (stream c' ≡ stream c ++ ys)

  module _ (r w : Bool) (c : Connection S) (so : Sound p r w c) where
    pub sends-Follows :
        (write : List ℕ → Transfer) (xs : List ℕ)
        → Admits (sends write xs) c
        → Follows c.state (block (sends write xs) c.state) c (send p true write xs c)
    unfolding block send
    sends-Follows write xs (small, le, alive, fits) = elim (Bool-cases (is_connected c.state)) [
      | inl open_ ↦
          let st = is_connected_lem c.state open_ in
          let live : is_disconnected c.state ≡ false = ap is_disconnected st in
          let same = sym (so.armed live) in
          let (c', w', e, so', st', grown) =
            send_in_loop-Streams p r write xs w c so live small
              (subst (λ b. taken b (write xs) ≤ length xs) same le)
              (subst (λ b. fatal b (write xs) ≡ false) same alive)
              (subst (λ b. Fits (length xs - taken b (write xs)) c.output) same fits) in
          rw open_ (c', r, w', e, so', st', grown)
      | inr shut_ ↦ rw shut_ (c, r, w, refl, so, refl, sym (append-nil (stream c)))
    ]

    shuts-Follows : Follows (next_state shuts c.state) [] c (shutdown p true c)
    unfolding next_state shutdown
    shuts-Follows = elim (Bool-cases (is_connected c.state)) [
      | inl open_ ↦
          let (c', e, so', st, out, tr) =
            shutdown_lem p r w c so (is_connected_lem c.state open_) in
          (
            c',
            r,
            w,
            e,
            so',
            st ∙ rw open_ refl,
            ap₂ (λ x y. x ++ y) (ap sent_bytes tr ∙ no_write (readable_bytes c.output == 0))
                  (ap content out)
                ∙ sym (append-nil (stream c)),
          )
      | inr shut_ ↦ rw shut_ (c, r, w, refl, so, refl, sym (append-nil (stream c)))
    ]
      where
        no_write :
            (b : Bool)
            → sent_bytes (if b then c.trace ++ shut_write ∷ [] else c.trace) ≡ sent_bytes c.trace
        no_write true = silent c.trace shut_write refl
        no_write false = refl

    ended : {out : Outcome (Connection S)} → Closes p c out → Follows disconnected [] c out
    ended (c', e, so', st, out, tr) = (
      c',
      false,
      false,
      e,
      so',
      st,
      ap₂ (λ x y. x ++ y)
            (ap sent_bytes tr
              ∙ silent (c.trace ++ called_connection ∷ []) called_close refl
              ∙ silent c.trace called_connection refl)
            (ap content out)
          ∙ sym (append-nil (stream c)),
    )

    logged-Follows : Follows c.state [] c (ok (handle_error p err_of c))
    unfolding handle_error
    logged-Follows = by_answer err_of
      where
        by_answer : (a : SocketError) → Follows c.state [] c (ok (handle_error p a c))
        by_answer (so_error e) =
            let (so', same) = emit-Sound p r true (logged_error e) w c refl so in
            (emit (logged_error e) c, r, w, refl, so', refl, same ∙ sym (append-nil (stream c)))
        by_answer (query_failed e) =
            let (so', same) = emit-Sound p r true (logged_error e) w c refl so in
            (emit (logged_error e) c, r, w, refl, so', refl, same ∙ sym (append-nil (stream c)))

    pub event_step-Follows :
        (e : Event)
        → Admits e c
        → Follows (next_state e c.state) (block e c.state) c (event_step e c)
    unfolding event_step next_state block
    event_step-Follows (sends write xs) a = sends-Follows write xs a
    event_step-Follows shuts a = shuts-Follows
    event_step-Follows (writable write) a =
        let (c', w', e, so', st, same) = handle_write-Preserves p r write w c so in
        (c', r, w', e, so', st, same ∙ sym (append-nil (stream c)))
    event_step-Follows (arrives x xs) a =
        let (c', e, so', same, st, out, tr) = handle_read-received p r w err_of x xs c so a in
        (
          c',
          r,
          w,
          e,
          so',
          st,
          ap₂ (λ x y. x ++ y) (ap sent_bytes tr ∙ silent c.trace called_message refl)
                (ap content out)
              ∙ sym (append-nil (stream c)),
        )
    event_step-Follows hangs_up a = ended (handle_read-end p r w err_of c so)
    event_step-Follows (read_fails errno) a =
        unfold handle_read in unfold after_read in rw (read_fd_failed errno c.input) logged-Follows
    event_step-Follows closes a = ended (handle_close-Closes p r w c so)
    event_step-Follows errs a = logged-Follows
    event_step-Follows (consumes n) a = (
      record c { input = retrieve n c.input },
      r,
      w,
      refl,
      record {
        input_valid = retrieve-IsValid n so.input_valid;
        output_valid = so.output_valid;
        interest = so.interest;
        armed = so.armed;
      },
      refl,
      sym (append-nil (stream c)),
    )
