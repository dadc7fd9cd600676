-- ===== src/Connection/Drain.antt =====
-- A connection that is shutting down, and a socket that takes something of what it is given: the
-- buffer runs empty, and then the socket is half-closed.
use mu_muduo.Common.{
  ℕ, zero, suc, ◌≤◌, ◌<◌, ◌≡◌, refl, sym, ap, ◌∙◌, subst, inl, inr, Bool, true, false, List, [],
  ◌∷◌, ◌++◌, length, ◌==◌, lt→ltb, append-nil, arith, Outcome, ok, ◌>>=◌, if◌then◌else◌, Bool-cases,
  append_nonempty_length, length-drop,
}
use mu_muduo.Buffer.{readable_bytes, retrieve, Transfer, count}
use mu_muduo.Buffer.Valid.{IsValid, content}
use mu_muduo.Buffer.Moves.{content-retrieve, retrieve-IsValid, write_fd_lem, length-content}
use mu_muduo.Connection.{
  Connection, Effect, disconnecting, is_disconnecting, is_disconnected, drained, after_flush,
  flushed, handle_write, shutdown_in_loop, emit, emit_if, shut_write, posted_write_complete,
}
use mu_muduo.Connection.Sound.{
  Sound, stream, sent_bytes, sent_bytes-snoc, sent_bytes-emit_if, emit_if_same,
}
use mu_muduo.Connection.Flush.{sent, sent-stream, sent-Sound}
use mu_muduo.Port.{Port}

module _ {S : Type 0} (p : Port S) where
  -- The write event, `k` times.
  pub run_writes : ℕ → (List ℕ → Transfer) → Connection S → Outcome (Connection S)
  run_writes zero write c = ok c
  run_writes (suc k) write c = do c' ← handle_write p write c; run_writes k write c'

  -- The socket takes at least one byte of what it is given.
  abbrev pub Takes : (List ℕ → Transfer) → Type 0
  Takes write =
      (x : ℕ) (xs : List ℕ) → (n : ℕ) × (write (x ∷ xs) ≡ count n) × (0 < n) × (n ≤ length (x ∷ xs))

  module _ (r : Bool) where
    -- The call returns with everything sent, nothing left to wait for, and the half-close as the last
    -- effect.
    abbrev pub Drains : List ℕ → Outcome (Connection S) → Type 0
    Drains ys out =
        (c' : Connection S) × (before : List Effect) × (out ≡ ok c')
        × (content c'.output ≡ [])
        × (sent_bytes c'.trace ≡ ys)
        × (c'.trace ≡ before ++ shut_write ∷ [])
        × p.Interest r false c'.port

    idle_run :
        (k : ℕ) (write : List ℕ → Transfer) (c : Connection S)
        → p.Interest r false c.port
        → run_writes k write c ≡ ok c
    unfolding run_writes handle_write
    idle_run zero write c i = refl
    idle_run (suc k) write c i = rw (p.is_writing_lem r false c.port i) (idle_run k write c i)

    shut : Connection S → S → Connection S
    shut c s =
        emit shut_write (emit_if c.write_complete_set posted_write_complete (record c { port = s }))

    drained_shuts :
        (c : Connection S)
        → p.Interest r true c.port
        → c.state ≡ disconnecting
        → (s : S) × (drained p c ≡ ok (shut c s)) × p.Interest r false s
    unfolding drained shutdown_in_loop shut
    drained_shuts c i st =
        let (s, done, i') = p.stops_writing r true c.port i in
        (s, rw done (rest c.write_complete_set s i'), i')
      where
        rest :
            (b : Bool) (s : S)
            → p.Interest r false s
            → (if is_disconnecting (emit_if b posted_write_complete (record c { port = s })).state
                then shutdown_in_loop p (emit_if b posted_write_complete (record c { port = s }))
                else ok (emit_if b posted_write_complete (record c { port = s })))
              ≡ ok (emit shut_write (emit_if b posted_write_complete (record c { port = s })))
        rest true s i = rw (st, p.is_writing_lem r false s i) refl
        rest false s i = rw (st, p.is_writing_lem r false s i) refl

    -- With the buffer empty, the half-close adds no byte.
    shut_Drains :
        (k : ℕ) (write : List ℕ → Transfer) (c : Connection S)
        → p.Interest r true c.port
        → c.state ≡ disconnecting
        → content c.output ≡ []
        → Drains (sent_bytes c.trace) (drained p c >>= λ d. run_writes k write d)
    unfolding shut
    shut_Drains k write c i st empty =
        let (s, e, i') = drained_shuts c i st in
        let b = c.write_complete_set in
        let c₁ : Connection S = record c { port = s } in
        let (same_state, same_port, same_in, same_out) = emit_if_same b posted_write_complete c₁ in
        let i'' : p.Interest r false (shut c s).port =
          subst (p.Interest r false) (sym same_port) i' in
        (
          shut c s,
          (emit_if b posted_write_complete c₁).trace,
          rw e (idle_run k write (shut c s) i''),
          ap content same_out ∙ empty,
          sent_bytes-snoc (emit_if b posted_write_complete c₁).trace shut_write
              ∙ append-nil (sent_bytes (emit_if b posted_write_complete c₁).trace)
              ∙ sent_bytes-emit_if b posted_write_complete c₁ refl,
          refl,
          i'',
        )

    empty_content :
        (n : ℕ) (c : Connection S)
        → IsValid c.output
        → (readable_bytes (retrieve n c.output) == 0) ≡ true
        → content (retrieve n c.output) ≡ []
    empty_content n c v e =
        append_nonempty_length (content (retrieve n c.output))
          (ground (arith, e, length-content (retrieve-IsValid n v)))

    sent_all :
        (n : ℕ) (c : Connection S)
        → IsValid c.output
        → content (sent p r n c).output ≡ []
        → sent_bytes (sent p r n c).trace ≡ stream c
    sent_all n c v empty =
        sym (append-nil (sent_bytes (sent p r n c).trace))
        ∙ ap (λ z. sent_bytes (sent p r n c).trace ++ z) (sym empty)
        ∙ sent-stream p r n c v

    answer :
        (write : List ℕ → Transfer) (ys : List ℕ)
        → Takes write
        → 0 < length ys
        → (n : ℕ) × (write ys ≡ count n) × (0 < n) × (n ≤ length ys)
    answer write [] takes h = absurd (omega arith)
    answer write (y ∷ ys) takes h = takes y ys

    waiting :
        (c : Connection S)
        → Sound p r true c
        → is_disconnected c.state ≡ false
        → 0 < length (content c.output)
    waiting c so live = ground (arith, so.armed live, length-content so.output_valid)

    -- One write event takes some bytes off the front.
    one_write :
        (write : List ℕ → Transfer) (c : Connection S)
        → Takes write
        → Sound p r true c
        → c.state ≡ disconnecting
        → (n : ℕ) × (handle_write p write c ≡ after_flush p n c)
          × (0 < n)
          × (n ≤ length (content c.output))
    unfolding handle_write flushed
    one_write write c takes so st =
        let (n, e, pos, le) =
          answer write (content c.output) takes (waiting c so (ap is_disconnected st)) in
        (
          n,
          rw
              (
                p.is_writing_lem r true c.port so.interest,
                write_fd_lem write so.output_valid,
                e,
                lt→ltb 0 n pos,
              )
              refl,
          pos,
          le,
        )

    -- On a sound connection that is shutting down and has something to send, as many write events as
    -- there are bytes, on a socket that takes at least one byte each time, return with everything
    -- sent, in order and once, and then the half-close as the last effect; the channel no longer
    -- waits to write.
    pub run_writes-Drains :
        (k : ℕ) (write : List ℕ → Transfer) (c : Connection S)
        → Takes write
        → Sound p r true c
        → c.state ≡ disconnecting
        → length (content c.output) ≤ k
        → Drains (stream c) (run_writes k write c)
    unfolding run_writes after_flush
    run_writes-Drains zero write c takes so st few =
        absurd (omega (arith, waiting c so (ap is_disconnected st)))
    run_writes-Drains (suc k) write c takes so st few =
        let (n, e, pos, le) = one_write write c takes so st in
        let v = so.output_valid in
        rw e (elim (Bool-cases (readable_bytes (retrieve n c.output) == 0)) [
          | inl empty ↦
              let none_left = empty_content n c v empty in
              rw empty (
                subst (λ ys. Drains ys (drained p (sent p r n c) >>= λ d. run_writes k write d))
                  (sent_all n c v none_left)
                  (shut_Drains k write (sent p r n c) so.interest st none_left))
          | inr more ↦ rw more (
              subst (λ ys. Drains ys (run_writes k write (sent p r n c))) (sent-stream p r n c v)
                (run_writes-Drains k write (sent p r n c) takes (sent-Sound p r n c so more) st (
                  omega
                    (arith, ap length (content-retrieve n v), length-drop n (content c.output)))))
        ])
