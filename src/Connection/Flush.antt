-- ===== src/Connection/Flush.antt =====
-- `handleWrite` and `shutdown`: the buffer drains into the socket in order, and the half-close waits
-- for its end.
use mu_muduo.Common.{
  ℕ, ◌≡◌, refl, sym, ap, ap₂, ◌∙◌, inl, inr, Bool, true, false, not, List, [], ◌∷◌, ◌++◌, take,
  drop, ◌==◌, ltb, append_assoc, arith, Outcome, ok, if◌then◌else◌, Bool-cases, take-append-drop,
  subst,
}
use mu_muduo.Buffer.{readable_bytes, retrieve, Transfer, count, saved_errno}
use mu_muduo.Buffer.Valid.{IsValid, content}
use mu_muduo.Buffer.Moves.{content-retrieve, retrieve-IsValid, write_fd_lem}
use mu_muduo.Connection.{
  Connection, disconnecting, connected, is_disconnecting, drained, after_flush, flushed,
  handle_write, shutdown, shutdown_in_loop, set_state, emit, emit_if, wrote, shut_write,
  posted_write_complete,
}
use mu_muduo.Connection.Sound.{
  Sound, stream, sent_bytes, sent_bytes-snoc, sent_bytes-emit_if, emit_if_same, sent_by,
}
use mu_muduo.Port.{Port}

module _ {S : Type 0} (p : Port S) (r : Bool) where
  -- The call returns a sound connection in the same state, with the same stream.
  abbrev pub Preserves : Connection S → Outcome (Connection S) → Type 0
  Preserves c out =
      (c' : Connection S) × (w' : Bool) × (out ≡ ok c')
      × Sound p r w' c'
      × (c'.state ≡ c.state)
      × (stream c' ≡ stream c)

  preserved : (w : Bool) (c : Connection S) → Sound p r w c → Preserves c (ok c)
  preserved w c so = (c, w, refl, so, refl, refl)

  -- An effect that is no write.
  pub emit-Sound :
      (b : Bool) (e : _) (w : Bool) (c : Connection S)
      → sent_by e ≡ []
      → Sound p r w c
      → Sound p r w (emit_if b e c) × (stream (emit_if b e c) ≡ stream c)
  emit-Sound b e w c h so =
      let (st, po, inp, out) = emit_if_same b e c in
      (
        record {
          input_valid = subst IsValid (sym inp) so.input_valid;
          output_valid = subst IsValid (sym out) so.output_valid;
          interest = subst (p.Interest r w) (sym po) so.interest;
          armed = λ live. rw out (so.armed (rw (← st) live));
        },
        ap₂ (λ a b. a ++ b) (sent_bytes-emit_if b e c h) (ap content out),
      )

  shutdown_in_loop-Preserves :
      (w : Bool) (c : Connection S) → Sound p r w c → Preserves c (shutdown_in_loop p c)
  unfolding shutdown_in_loop
  shutdown_in_loop-Preserves true c so =
      rw (p.is_writing_lem r true c.port so.interest) (preserved true c so)
  shutdown_in_loop-Preserves false c so =
      let (so', same) = emit-Sound true shut_write false c refl so in
      rw (p.is_writing_lem r false c.port so.interest)
        (emit shut_write c, false, refl, so', refl, same)

  -- The buffer is empty and the channel still waits to write.
  drained-Preserves :
      (c : Connection S)
      → IsValid c.input
      → IsValid c.output
      → p.Interest r true c.port
      → (readable_bytes c.output == 0) ≡ true
      → Preserves c (drained p c)
  unfolding drained
  drained-Preserves c vi vo i e =
      let (s, done, i') = p.stops_writing r true c.port i in
      let b = c.write_complete_set in
      let c₁ : Connection S = record c { port = s } in
      let (so, same) =
        emit-Sound b posted_write_complete false c₁ refl
          (record { input_valid = vi; output_valid = vo; interest = i'; armed = λ _. rw e }) in
      rw done (
        then_shut (emit_if b posted_write_complete c₁) so
          ((emit_if_same b posted_write_complete c₁).0) same)
    where
      then_shut :
          (d : Connection S)
          → Sound p r false d
          → d.state ≡ c.state
          → stream d ≡ stream c
          → Preserves c (if is_disconnecting d.state then shutdown_in_loop p d else ok d)
      then_shut d so st same = elim (Bool-cases (is_disconnecting d.state)) [
        | inl yes_ ↦
            let (d', w', e', so', st', same') = shutdown_in_loop-Preserves false d so in
            rw yes_ (d', w', e', so', st' ∙ st, same' ∙ same)
        | inr no_ ↦ rw no_ (d, false, refl, so, st, same)
      ]

  -- The connection once the first `n` bytes are in the socket.
  abbrev pub sent : ℕ → Connection S → Connection S
  sent n c = emit (wrote (take n (content c.output))) (record c { output = retrieve n c.output })

  pub sent-stream : (n : ℕ) (c : Connection S) → IsValid c.output → stream (sent n c) ≡ stream c
  sent-stream n c v =
      ap₂ (λ a b. a ++ b) (sent_bytes-snoc c.trace (wrote (take n (content c.output))))
        (content-retrieve n v)
      ∙ append_assoc (sent_bytes c.trace) (take n (content c.output)) (drop n (content c.output))
      ∙ ap (λ z. sent_bytes c.trace ++ z) (take-append-drop n (content c.output))

  pub sent-Sound :
      (n : ℕ) (c : Connection S)
      → Sound p r true c
      → (readable_bytes (retrieve n c.output) == 0) ≡ false
      → Sound p r true (sent n c)
  sent-Sound n c so more = record {
    input_valid = so.input_valid;
    output_valid = retrieve-IsValid n so.output_valid;
    interest = so.interest;
    armed = λ _. rw more;
  }

  after_flush-Preserves :
      (n : ℕ) (c : Connection S) → Sound p r true c → Preserves c (after_flush p n c)
  unfolding after_flush
  after_flush-Preserves n c so = elim (Bool-cases (readable_bytes (retrieve n c.output) == 0)) [
    | inl empty ↦
        let (d, w, e, so', st, same) =
          drained-Preserves (sent n c) so.input_valid (retrieve-IsValid n so.output_valid)
            so.interest empty in
        rw empty (d, w, e, so', st, same ∙ sent-stream n c so.output_valid)
    | inr more ↦
        rw more
          (sent n c, true, refl, sent-Sound n c so more, refl, sent-stream n c so.output_valid)
  ]

  flushed-Preserves :
      (t : Transfer) (c : Connection S) → Sound p r true c → Preserves c (flushed p t c)
  unfolding flushed
  flushed-Preserves (saved_errno e) c so = preserved true c so
  flushed-Preserves (count n) c so = elim (Bool-cases (ltb 0 n)) [
    | inl some_ ↦ rw some_ (after_flush-Preserves n c so)
    | inr none_ ↦ rw none_ (preserved true c so)
  ]

  -- On a sound connection `handleWrite` returns a sound connection in the same state, and the stream
  -- stays as it is: what the socket took has moved from the buffer to the bytes sent, whatever the
  -- socket answers.
  pub handle_write-Preserves :
      (write : List ℕ → Transfer) (w : Bool) (c : Connection S)
      → Sound p r w c
      → Preserves c (handle_write p write c)
  unfolding handle_write
  handle_write-Preserves write true c so =
      rw (p.is_writing_lem r true c.port so.interest, write_fd_lem write so.output_valid)
        (flushed-Preserves (write (content c.output)) c so)
  handle_write-Preserves write false c so =
      rw (p.is_writing_lem r false c.port so.interest) (preserved false c so)

  -- `shutdown` on the loop's thread, on a sound connected connection: it is disconnecting afterwards
  -- sound, with its output as it was; the socket is half-closed at once exactly if nothing is left
  -- to send.
  pub shutdown_lem :
      (w : Bool) (c : Connection S)
      → Sound p r w c
      → c.state ≡ connected
      → (c' : Connection S) × (shutdown p true c ≡ ok c')
        × Sound p r w c'
        × (c'.state ≡ disconnecting)
        × (c'.output ≡ c.output)
        × (c'.trace
            ≡ (if readable_bytes c.output == 0 then c.trace ++ shut_write ∷ [] else c.trace))
  unfolding shutdown set_state shutdown_in_loop
  shutdown_lem true c so e =
      rw (e, p.is_writing_lem r true c.port so.interest)
        (
          record c { state = disconnecting },
          refl,
          record {
            input_valid = so.input_valid;
            output_valid = so.output_valid;
            interest = so.interest;
            armed = λ _. so.armed (rw e);
          },
          refl,
          refl,
          rw (busy (so.armed (rw e))) refl,
        )
    where
      busy : true ≡ not (readable_bytes c.output == 0) → (readable_bytes c.output == 0) ≡ false
      busy a = ground (arith, a)
  shutdown_lem false c so e =
      rw (e, p.is_writing_lem r false c.port so.interest)
        (
          emit shut_write (record c { state = disconnecting }),
          refl,
          record {
            input_valid = so.input_valid;
            output_valid = so.output_valid;
            interest = so.interest;
            armed = λ _. so.armed (rw e);
          },
          refl,
          refl,
          rw (idle (so.armed (rw e))) refl,
        )
    where
      idle : false ≡ not (readable_bytes c.output == 0) → (readable_bytes c.output == 0) ≡ true
      idle a = ground (arith, a)
