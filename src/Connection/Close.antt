-- ===== src/Connection/Close.antt =====
-- The reading side and the end of a connection: which callbacks run, and in what state they leave it.
use mu_muduo.Common.{
  ℕ, ◌≡◌, refl, ap, inl, inr, Bool, true, false, List, [], ◌∷◌, ◌++◌, length, lt→ltb, arith,
  Outcome, ok, if◌then◌else◌, Bool-cases,
}
use mu_muduo.Buffer.{received}
use mu_muduo.Buffer.Valid.{content}
use mu_muduo.Buffer.Moves.{length-content}
use mu_muduo.Buffer.Socket.{ReadFits, read_fd_lem}
use mu_muduo.Connection.{
  Connection, connected, disconnected, is_connected, handle_close, handle_read, after_read,
  SocketError, connect_established, close_open, connect_destroyed, set_state, emit,
  called_connection, called_message, called_close,
}
use mu_muduo.Connection.Sound.{Sound}
use mu_muduo.Port.{Port}

module _ {S : Type 0} (p : Port S) where
  -- The connection is closed: nothing is waited for, the user is told, and then the server.
  abbrev pub Closes : Connection S → Outcome (Connection S) → Type 0
  Closes c out =
      (c' : Connection S) × (out ≡ ok c')
      × Sound p false false c'
      × (c'.state ≡ disconnected)
      × (c'.output ≡ c.output)
      × (c'.trace ≡ (c.trace ++ called_connection ∷ []) ++ called_close ∷ [])

  -- `handleClose` on a sound connection, whatever its state was, returns it disconnected, sound
  -- and waiting for no event; the user is told, and then the server.
  pub handle_close-Closes :
      (r w : Bool) (c : Connection S) → Sound p r w c → Closes c (handle_close p c)
  unfolding handle_close set_state
  handle_close-Closes r w c so =
      let (s, e, i) = p.stops r w c.port so.interest in
      (
        emit called_close (emit called_connection (record c { state = disconnected; port = s })),
        rw e,
        record {
          input_valid = so.input_valid;
          output_valid = so.output_valid;
          interest = i;
          armed = λ live. cc;
        },
        refl,
        refl,
        refl,
      )

  -- On a sound connection whose input buffer has room for what arrived, `handleRead` puts that
  -- behind the input and calls the user's message callback; the connection stays sound, and its
  -- state and output stay as they are.
  pub handle_read-received :
      (r w : Bool) (so_err : SocketError) (x : ℕ) (xs : List ℕ) (c : Connection S)
      → Sound p r w c
      → ReadFits (length (x ∷ xs)) c.input
      → (c' : Connection S) × (handle_read p so_err (received (x ∷ xs)) c ≡ ok c')
        × Sound p r w c'
        × (content c'.input ≡ content c.input ++ (x ∷ xs))
        × (c'.state ≡ c.state)
        × (c'.output ≡ c.output)
        × (c'.trace ≡ c.trace ++ called_message ∷ [])
  unfolding handle_read after_read
  handle_read-received r w so_err x xs c so f =
      let (b, e, v, same) = read_fd_lem (x ∷ xs) so.input_valid f in
      (
        emit called_message (record c { input = b }),
        rw (e, lt→ltb 0 (length (x ∷ xs)) (omega arith)),
        record {
          input_valid = v;
          output_valid = so.output_valid;
          interest = so.interest;
          armed = so.armed;
        },
        same,
        refl,
        refl,
        refl,
      )

  -- At the end of the stream `handleRead` closes a sound connection, as `handleClose` does.
  pub handle_read-end :
      (r w : Bool) (so_err : SocketError) (c : Connection S)
      → Sound p r w c
      → Closes c (handle_read p so_err (received []) c)
  unfolding handle_read after_read
  handle_read-end r w so_err c so =
      let (b, e, v, same) = read_fd_lem [] so.input_valid (inl (omega arith)) in
      rw e (
        handle_close-Closes r w (record c { input = b })
          (record {
            input_valid = v;
            output_valid = so.output_valid;
            interest = so.interest;
            armed = so.armed;
          }))

  -- `connectEstablished` on a sound connection that does not wait to write and has nothing to send
  -- returns it connected, sound and waiting to read, with its output as it was, and tells the user.
  pub connect_established_lem :
      (r : Bool) (c : Connection S)
      → Sound p r false c
      → content c.output ≡ []
      → (c' : Connection S) × (connect_established p c ≡ ok c')
        × Sound p true false c'
        × (c'.state ≡ connected)
        × (c'.output ≡ c.output)
        × (c'.trace ≡ c.trace ++ called_connection ∷ [])
  unfolding connect_established set_state
  connect_established_lem r c so empty =
      let (s, e, i) = p.ties r false c.port so.interest in
      let (s', e', i') = p.reads r false s i in
      (
        emit called_connection (record c { state = connected; port = s' }),
        rw (e, e'),
        record {
          input_valid = so.input_valid;
          output_valid = so.output_valid;
          interest = i';
          armed = λ _. ground (arith, length-content so.output_valid, ap length empty);
        },
        refl,
        refl,
        refl,
      )

  -- `removeChannel` comes last.
  pub connect_destroyed-Removes :
      (r w : Bool) (c : Connection S)
      → Sound p r w c
      → (c' : Connection S) × (r' : Bool) × (w' : Bool) × (s : S) × (connect_destroyed p c ≡ ok c')
        × Sound p r' w' c'
        × p.Interest r' w' s
        × (p.remove s ≡ ok c'.port)
        × (c'.state ≡ (if is_connected c.state then disconnected else c.state))
        × (c'.trace ≡ (if is_connected c.state then c.trace ++ called_connection ∷ [] else c.trace))
  unfolding connect_destroyed close_open set_state
  connect_destroyed-Removes r w c so = elim (Bool-cases (is_connected c.state)) [
    | inl open_ ↦
        let (s, e, i) = p.stops r w c.port so.interest in
        let (s', e', i') = p.removes false false s i in
        rw (open_, e, e')
          (
            emit called_connection (record c { state = disconnected; port = s' }),
            false,
            false,
            s,
            refl,
            record {
              input_valid = so.input_valid;
              output_valid = so.output_valid;
              interest = i';
              armed = λ live. cc;
            },
            i,
            e',
            refl,
            refl,
          )
    | inr shut_ ↦
        let (s', e', i') = p.removes r w c.port so.interest in
        rw (shut_, e')
          (
            record c { port = s' },
            r,
            w,
            c.port,
            refl,
            record {
              input_valid = so.input_valid;
              output_valid = so.output_valid;
              interest = i';
              armed = so.armed;
            },
            so.interest,
            e',
            refl,
            refl,
          )
  ]

  -- `connectDestroyed` on a sound connection returns; a connected one is disconnected afterwards
  -- and the user is told, any other keeps its state and its trace.
  pub connect_destroyed_lem :
      (r w : Bool) (c : Connection S)
      → Sound p r w c
      → (c' : Connection S) × (connect_destroyed p c ≡ ok c')
        × (c'.state ≡ (if is_connected c.state then disconnected else c.state))
        × (c'.trace ≡ (if is_connected c.state then c.trace ++ called_connection ∷ [] else c.trace))
  connect_destroyed_lem r w c so =
      let (c', r', w', s, e, so', i, e', st, tr) = connect_destroyed-Removes r w c so in
      (c', e, st, tr)
