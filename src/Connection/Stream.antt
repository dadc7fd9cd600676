-- ===== src/Connection/Stream.antt =====
-- `sendInLoop` as a whole: no byte is lost, doubled or moved, whatever the socket takes at once.
use mu_muduo.Common.{
  ℕ, ◌-◌, ◌≤◌, ◌<◌, ◌≡◌, refl, sym, ap, ap₂, ◌∙◌, Bool, true, false, not, ◌&&◌, ◌||◌, List, [],
  ◌++◌, length, take, drop, ◌==◌, append_assoc, append-nil, arith, Outcome, ok, sub_size,
  take-append-drop, subst, append_nonempty_length, ◌^◌,
}
use mu_muduo.Buffer.{readable_bytes, Transfer, count, saved_errno}
use mu_muduo.Buffer.Valid.{IsValid, content}
use mu_muduo.Buffer.Moves.{length-content}
use mu_muduo.Buffer.Append.{Fits}
use mu_muduo.Connection.{
  Connection, is_disconnected, attempted, after_write, buffer_rest, send_in_loop, send, connected,
  emit, posted_write_complete, wrote, e_would_block, e_pipe, e_conn_reset,
}
use mu_muduo.Connection.Sound.{
  Sound, stream, sent_bytes, sent_bytes-snoc, sent_bytes-emit_if, emit_if_same,
}
use mu_muduo.Connection.Send.{Buffers, buffer_rest_lem}
use mu_muduo.Port.{Port}

-- How many bytes the direct write takes: none if it is not made, because the channel waits to write.
abbrev pub taken : Bool → Transfer → ℕ
taken true t = 0
taken false (count n) = n
taken false (saved_errno e) = 0

-- The peer is gone.
abbrev pub is_fatal : ℕ → Bool
is_fatal e = (e == e_pipe) || (e == e_conn_reset)

abbrev pub fatal : Bool → Transfer → Bool
fatal true t = false
fatal false (count n) = false
fatal false (saved_errno e) = is_fatal e

module _ {S : Type 0} (p : Port S) (r : Bool) where
  -- The call returns a sound connection in the same state, whose stream has grown by `ys`.
  abbrev pub Streams : Connection S → List ℕ → Outcome (Connection S) → Type 0
  Streams c ys out =
      (c' : Connection S) × (w' : Bool) × (out ≡ ok c')
      × Sound p r w' c'
      × (c'.state ≡ c.state)
      × (stream c' ≡ stream c ++ ys)

  idle_empty :
      (c : Connection S)
      → Sound p r false c
      → is_disconnected c.state ≡ false
      → content c.output ≡ []
  idle_empty c so live =
      append_nonempty_length (content c.output)
        (ground (arith, so.armed live, length-content so.output_valid))

  busy_test :
      (c : Connection S)
      → Sound p r true c
      → is_disconnected c.state ≡ false
      → (readable_bytes c.output == 0) ≡ false
  busy_test c so live = ground (arith, so.armed live)

  after_count :
      (xs : List ℕ) (n : ℕ) (c : Connection S)
      → Sound p r false c
      → Sound p r false (after_write xs (count n) c)
        × ((after_write xs (count n) c).state ≡ c.state)
        × ((after_write xs (count n) c).output ≡ c.output)
        × (sent_bytes (after_write xs (count n) c).trace ≡ sent_bytes c.trace ++ take n xs)
  unfolding after_write
  after_count xs n c so =
      let c₁ : Connection S = emit (wrote (take n xs)) c in
      let b = (sub_size (length xs) n == 0) && c.write_complete_set in
      let (st, po, inp, out) = emit_if_same b posted_write_complete c₁ in
      (
        record {
          input_valid = subst IsValid (sym inp) so.input_valid;
          output_valid = subst IsValid (sym out) so.output_valid;
          interest = subst (p.Interest r false) (sym po) so.interest;
          armed = λ live. rw out (so.armed (rw (← st) live));
        },
        st,
        out,
        sent_bytes-emit_if b posted_write_complete c₁ refl
            ∙ sent_bytes-snoc c.trace (wrote (take n xs)),
      )

  attempt_rest :
      (xs : List ℕ) (n : ℕ)
      → n ≤ length xs
      → length xs < 2 ^ 64
      → (attempted xs (count n)).remaining ≡ length xs - n
  unfolding attempted
  attempt_rest xs n h g = omega arith

  -- What was taken at once and what was buffered make up the block.
  finish_direct :
      (xs : List ℕ) (n : ℕ) (c₀ c : Connection S) (out : Outcome (Connection S))
      → c₀.state ≡ c.state
      → c₀.output ≡ c.output
      → sent_bytes c₀.trace ≡ sent_bytes c.trace ++ take n xs
      → content c.output ≡ []
      → Buffers p r c₀ (drop n xs) out
      → Streams c xs out
  finish_direct xs n c₀ c out st same sent empty (c', w', e, so, st', con, tr) = (
    c',
    w',
    e,
    so,
    st' ∙ st,
    ap₂ (λ a b. a ++ b) (tr ∙ sent) (con ∙ ap (λ z. z ++ drop n xs) (ap content same ∙ empty))
        ∙ append_assoc (sent_bytes c.trace) (take n xs) (drop n xs)
        ∙ ap (λ z. sent_bytes c.trace ++ z) (take-append-drop n xs)
        ∙ ap (λ z. z ++ xs)
            (sym (append-nil (sent_bytes c.trace)) ∙ ap (λ z. sent_bytes c.trace ++ z) (sym empty)),
  )

  finish_buffered :
      (xs : List ℕ) (c : Connection S) (out : Outcome (Connection S))
      → Buffers p r c xs out
      → Streams c xs out
  finish_buffered xs c out (c', w', e, so, st, con, tr) = (
    c',
    w',
    e,
    so,
    st,
    ap₂ (λ a b. a ++ b) tr con ∙ sym (append_assoc (sent_bytes c.trace) (content c.output) xs),
  )

  -- With nothing waiting, the direct write comes first and the rest is buffered.
  send_count :
      (xs : List ℕ) (n : ℕ) (c : Connection S)
      → Sound p r false c
      → is_disconnected c.state ≡ false
      → n ≤ length xs
      → length xs < 2 ^ 64
      → Fits (length xs - n) c.output
      → Streams c xs (buffer_rest p xs (attempted xs (count n)) (after_write xs (count n) c))
  unfolding attempted
  send_count xs n c so live h g f =
      let (so', st, out, sent) = after_count xs n c so in
      let rest = attempt_rest xs n h g in
      finish_direct xs n (after_write xs (count n) c) c _ st out sent (idle_empty c so live) (
        buffer_rest_lem p r xs (attempted xs (count n)) false (after_write xs (count n) c) so' refl
          (omega (arith, rest))
          (subst (λ o. Fits (attempted xs (count n)).remaining o) (sym out)
            (subst (λ k. Fits k c.output) (sym rest) f)))

  send_error :
      (xs : List ℕ) (e : ℕ) (c : Connection S)
      → Sound p r false c
      → is_fatal e ≡ false
      → Fits (length xs) c.output
      → Streams c xs (buffer_rest p xs (attempted xs (saved_errno e)) c)
  unfolding attempted
  send_error xs e c so h f = finish_buffered xs c _ (
      buffer_rest_lem p r xs (attempted xs (saved_errno e)) false c so (no_fault h) (omega arith) f)
    where
      no_fault : is_fatal e ≡ false → (not (e == e_would_block) && is_fatal e) ≡ false
      no_fault h = ground arith

  send_busy :
      (xs : List ℕ) (c : Connection S)
      → Sound p r true c
      → Fits (length xs) c.output
      → Streams c xs
          (buffer_rest p xs (record { nwrote = 0; remaining = length xs; fault_error = false }) c)
  send_busy xs c so f =
      finish_buffered xs c _ (buffer_rest_lem p r xs _ true c so refl (omega arith) f)

  Fits-whole :
      (xs : List ℕ) (c : Connection S) → Fits (length xs - 0) c.output → Fits (length xs) c.output
  Fits-whole xs c = subst (λ k. Fits k c.output) (omega arith)

  -- On a sound connection that is not closed, a `sendInLoop` for which the buffer has room returns a
  -- sound connection whose stream, the bytes taken by the socket followed by those in the buffer, is
  -- the old one followed by the block: however many bytes the socket takes at once, or with any
  -- error but EPIPE and ECONNRESET.
  pub send_in_loop-Streams :
      (write : List ℕ → Transfer) (xs : List ℕ) (w : Bool) (c : Connection S)
      → Sound p r w c
      → is_disconnected c.state ≡ false
      → length xs < 2 ^ 64
      → taken w (write xs) ≤ length xs
      → fatal w (write xs) ≡ false
      → Fits (length xs - taken w (write xs)) c.output
      → Streams c xs (send_in_loop p write xs c)
  unfolding send_in_loop
  send_in_loop-Streams write xs true c so live g h nf f =
      rw (live, p.is_writing_lem r true c.port so.interest, busy_test c so live)
        (send_busy xs c so (Fits-whole xs c f))
  send_in_loop-Streams write xs false c so live g h nf f =
      rw (live, p.is_writing_lem r false c.port so.interest) (direct (write xs) h nf f)
    where
      direct :
          (t : Transfer)
          → taken false t ≤ length xs
          → fatal false t ≡ false
          → Fits (length xs - taken false t) c.output
          → Streams c xs (buffer_rest p xs (attempted xs t) (after_write xs t c))
      direct (count n) h nf f = send_count xs n c so live h g f
      direct (saved_errno e) h nf f =
          unfold after_write in send_error xs e c so nf (Fits-whole xs c f)

  -- On the loop's thread a connected connection sends at once.
  pub send-connected :
      (write : List ℕ → Transfer) (xs : List ℕ) (c : Connection S)
      → c.state ≡ connected
      → send p true write xs c ≡ send_in_loop p write xs c
  unfolding send
  send-connected write xs c e = rw e refl
