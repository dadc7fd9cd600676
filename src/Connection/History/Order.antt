-- ===== src/Connection/History/Order.antt =====
-- The half-close in the life of a connection: it comes once, when all is sent, and ends the writing.
use mu_muduo.Common.{
  ℕ, ◌≡◌, refl, sym, ap, ◌∙◌, ◌⊎◌, inl, inr, Bool, true, false, not, List, [], ◌∷◌, ◌++◌, ◌==◌,
  Outcome, ok, if◌then◌else◌, Bool-cases, no_bool,
}
use mu_muduo.Buffer.Moves.{retrieve-IsValid}
use mu_muduo.Buffer.Socket.{read_fd_failed}
use mu_muduo.Buffer.{retrieve, readable_bytes, received, Transfer}
use mu_muduo.Connection.{
  handle_error, after_read, so_error, query_failed, logged_error, emit, ConnState, connected,
  connecting, disconnecting, disconnected, is_connected, is_disconnected, is_disconnecting,
  Connection, SocketError, send, shutdown, handle_read, handle_write, called_connection,
  called_close, called_message, shut_write,
}
use mu_muduo.Connection.Sound.{Sound}
use mu_muduo.Connection.Stream.{send-connected}
use mu_muduo.Connection.Flush.{emit-Sound, handle_write-Preserves, shutdown_lem}
use mu_muduo.Connection.Close.{Closes, handle_close-Closes, handle_read-received, handle_read-end}
use mu_muduo.Connection.Phase.{
  phase, phase_from, phase-snoc, other_phase, opened, half_closed, advance, closing,
}
use mu_muduo.Connection.HalfClose.{Ends, phase-send_in_loop, handle_write-Ends}
use mu_muduo.Connection.Events.{
  Event, sends, shuts, writable, arrives, hangs_up, read_fails, closes, errs, consumes, event_step,
  Admits, sends-Follows, is_connected_lem,
}
use mu_muduo.Connection.History.{run_events, AllAdmit}
use mu_muduo.Port.{Port}

module _ {S : Type 0} (p : Port S) (err_of : SocketError) where
  -- Once the socket is half-closed, nothing can be written any more.
  abbrev pub Closing : Bool → Connection S → Type 0
  Closing w c =
      (phase c ≡ opened) ⊎ ((phase c ≡ half_closed) × (is_connected c.state ≡ false) × (w ≡ false))

  -- The call returns a connection that is sound and in such a phase.
  abbrev pub Orders : Outcome (Connection S) → Type 0
  Orders out =
      (c' : Connection S) × (r' : Bool) × (w' : Bool) × (out ≡ ok c')
      × Sound p r' w' c'
      × Closing w' c'

  disconnecting_lem :
      (st : ConnState)
      → is_disconnecting st ≡ true
      → (is_connected st ≡ false) × (is_disconnected st ≡ false)
  disconnecting_lem disconnecting e = (refl, refl)
  disconnecting_lem disconnected e = no_bool e refl
  disconnecting_lem connecting e = no_bool e refl
  disconnecting_lem connected e = no_bool e refl

  Ends-Closing : (r w : Bool) (c : Connection S) → Sound p r w c → Ends p c → Closing w c
  Ends-Closing r w c so (inl o) = inl o
  Ends-Closing r w c so (inr (h, st, empty)) =
      let (a, b) = disconnecting_lem c.state st in inr (h, a, so.armed b ∙ ap not empty)

  module _ (r w : Bool) (c : Connection S) (so : Sound p r w c) where
    unchanged : Closing w c → Orders (ok c)
    unchanged q = (c, r, w, refl, so, q)

    sends-Orders :
        (write : List ℕ → Transfer) (xs : List ℕ)
        → Admits p err_of (sends write xs) c
        → Closing w c
        → Orders (send p true write xs c)
    sends-Orders write xs a (inr (h, shut_, e)) =
        unfold send in rw shut_ (unchanged (inr (h, shut_, e)))
    sends-Orders write xs a (inl o) = elim (Bool-cases (is_connected c.state)) [
      | inl open_ ↦
          let (c', r', w', e, so', st, same) = sends-Follows p err_of r w c so write xs a in
          let direct = send-connected p r write xs c (is_connected_lem c.state open_) in
          (c', r', w', e, so', inl (phase-send_in_loop p write xs c c' o (sym direct ∙ e)))
      | inr shut_ ↦ unfold send in rw shut_ (unchanged (inl o))
    ]

    shuts-Orders : Closing w c → Orders (shutdown p true c)
    shuts-Orders (inr (h, shut_, e)) = unfold shutdown in rw shut_ (unchanged (inr (h, shut_, e)))
    shuts-Orders (inl o) = elim (Bool-cases (is_connected c.state)) [
      | inl open_ ↦
          let (c', e, so', st, out, tr) =
            shutdown_lem p r w c so (is_connected_lem c.state open_) in
          (
            c',
            r,
            w,
            e,
            so',
            Ends-Closing r w c' so' (ends c' st out (readable_bytes c.output == 0) refl tr),
          )
      | inr shut_ ↦ unfold shutdown in rw shut_ (unchanged (inl o))
    ]
      where
        ends :
            (c' : Connection S)
            → c'.state ≡ disconnecting
            → c'.output ≡ c.output
            → (b : Bool) → (readable_bytes c.output == 0) ≡ b
            → c'.trace ≡ (if b then c.trace ++ shut_write ∷ [] else c.trace)
            → Ends p c'
        ends c' st out true empty tr = inr (
          ap (phase_from opened) tr
              ∙ phase-snoc opened c.trace shut_write
              ∙ ap (λ ph. advance ph closing) o,
          ap is_disconnecting st,
          ap (λ b. readable_bytes b == 0) out ∙ empty,
        )
        ends c' st out false more tr = inl (ap (phase_from opened) tr ∙ o)

    writable-Orders : (write : List ℕ → Transfer) → Closing w c → Orders (handle_write p write c)
    writable-Orders write (inl o) =
        let (c', w', e, so', st, same) = handle_write-Preserves p r write w c so in
        (c', r, w', e, so', Ends-Closing r w' c' so' (handle_write-Ends p write r c c' o e))
    writable-Orders write (inr (h, shut_, e)) =
        unfold handle_write in
        rw (p.is_writing_lem r w c.port so.interest, e) (unchanged (inr (h, shut_, e)))

    arrives-Orders :
        (x : ℕ) (xs : List ℕ)
        → Admits p err_of (arrives x xs) c
        → Closing w c
        → Orders (handle_read p err_of (received (x ∷ xs)) c)
    arrives-Orders x xs a q =
        let (c', e, so', same, st, out, tr) = handle_read-received p r w err_of x xs c so a in
        (
          c',
          r,
          w,
          e,
          so',
          moved c' st (ap (phase_from opened) tr ∙ other_phase c.trace called_message refl) q,
        )
      where
        moved :
            (c' : Connection S)
            → c'.state ≡ c.state
            → phase c' ≡ phase c
            → Closing w c
            → Closing w c'
        moved c' st ph (inl o) = inl (ph ∙ o)
        moved c' st ph (inr (h, shut_, e)) = inr (ph ∙ h, ap is_connected st ∙ shut_, e)

    ended : {out : Outcome (Connection S)} → Closes p c out → Closing w c → Orders out
    ended (c', e, so', st, out, tr) q =
        let ph =
          ap (phase_from opened) tr
          ∙ other_phase (c.trace ++ called_connection ∷ []) called_close refl
          ∙ other_phase c.trace called_connection refl in
        (c', false, false, e, so', over c' st ph q)
      where
        over :
            (c' : Connection S)
            → c'.state ≡ disconnected
            → phase c' ≡ phase c
            → Closing w c
            → Closing false c'
        over c' st ph (inl o) = inl (ph ∙ o)
        over c' st ph (inr (h, shut_, e)) = inr (ph ∙ h, ap is_connected st, refl)

    logged-Orders : Closing w c → Orders (ok (handle_error p err_of c))
    unfolding handle_error
    logged-Orders q = by_answer err_of q
      where
        logs : (e : ℕ) → Closing w c → Closing w (emit (logged_error e) c)
        logs e (inl o) = inl (other_phase c.trace (logged_error e) refl ∙ o)
        logs e (inr (h, shut_, idle)) =
            inr (other_phase c.trace (logged_error e) refl ∙ h, shut_, idle)

        by_answer : (a : SocketError) → Closing w c → Orders (ok (handle_error p a c))
        by_answer (so_error e) q = (
          emit (logged_error e) c,
          r,
          w,
          refl,
          (emit-Sound p r true (logged_error e) w c refl so).0,
          logs e q,
        )
        by_answer (query_failed e) q = (
          emit (logged_error e) c,
          r,
          w,
          refl,
          (emit-Sound p r true (logged_error e) w c refl so).0,
          logs e q,
        )

    event_step-Orders :
        (e : Event) → Admits p err_of e c → Closing w c → Orders (event_step p err_of e c)
    unfolding event_step
    event_step-Orders (sends write xs) a q = sends-Orders write xs a q
    event_step-Orders shuts a q = shuts-Orders q
    event_step-Orders (writable write) a q = writable-Orders write q
    event_step-Orders (arrives x xs) a q = arrives-Orders x xs a q
    event_step-Orders hangs_up a q = ended (handle_read-end p r w err_of c so) q
    event_step-Orders (read_fails errno) a q =
        unfold handle_read in
        unfold after_read in rw (read_fd_failed errno c.input) (logged-Orders q)
    event_step-Orders closes a q = ended (handle_close-Closes p r w c so) q
    event_step-Orders errs a q = logged-Orders q
    event_step-Orders (consumes n) a q = (
      record c { input = retrieve n c.input },
      r,
      w,
      refl,
      record {
        input_valid = retrieve-IsValid n so.input_valid;
        output_valid = so.output_valid;
        interest = so.interest;
        armed = so.armed;
      },
      q,
    )

  go_on-Orders :
      (es : List Event) (r w : Bool) (c : Connection S)
      → Sound p r w c
      → Closing w c
      → AllAdmit p err_of es c
      → Orders (run_events p err_of es c)
  unfolding run_events
  go_on-Orders [] r w c so q a = (c, r, w, refl, so, q)
  go_on-Orders (e ∷ es) r w c so q (a, all) =
      let (c', r', w', done, so', q') = event_step-Orders r w c so e a q in
      rw done (go_on-Orders es r' w' c' so' q' (all c' done))

  -- Any row of events of the channel and of calls of the user on the loop's thread, with no
  -- `sendInLoop` or `shutdownInLoop` that another thread has queued, each admitted where it happens,
  -- on a sound connection whose socket was not half-closed, returns a sound connection whose socket
  -- either is not half-closed, or was half-closed once, with no byte written behind that; and in the
  -- second case the connection is not connected any more, and the channel does not wait to write.
  pub run_events-Orders :
      (es : List Event) (r w : Bool) (c : Connection S)
      → Sound p r w c
      → phase c ≡ opened
      → AllAdmit p err_of es c
      → Orders (run_events p err_of es c)
  run_events-Orders es r w c so o a = go_on-Orders es r w c so (inl o) a
