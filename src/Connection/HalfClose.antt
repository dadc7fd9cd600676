-- ===== src/Connection/HalfClose.antt =====
-- The order of what a connection does to its socket: the half-close is the last of it.
use mu_muduo.Common.{
  ℕ, ◌≡◌, refl, sym, ap, subst, ◌∙◌, ◌⊎◌, inl, inr, Bool, true, false, not, ◌&&◌, ◌||◌, List,
  length, take, ltb, ◌==◌, Outcome, ok, ◌>>=◌, >>=-eq-ok, if◌then◌else◌, drop,
}
use mu_muduo.Buffer.{
  Buffer, readable_bytes, retrieve, Transfer, count, saved_errno, append, write_fd,
}
use mu_muduo.Buffer.Valid.{content}
use mu_muduo.Connection.{
  Connection, wrote, shut_write, posted_write_complete, posted_high_water, is_disconnected,
  is_disconnecting, emit, emit_if, Attempt, attempted, after_write, note_high_water, arm,
  store_rest, buffer_rest, send_in_loop, shutdown_in_loop, drained, after_flush, flushed,
  handle_write,
}
use mu_muduo.Connection.Flush.{sent}
use mu_muduo.Port.{Port}
use mu_muduo.Connection.Phase.{
  writing, closing, opened, half_closed, advance, phase-snoc, other_phase, phase, phase-emit_if,
  phase-after_write, same_ok,
}

module _ {S : Type 0} (p : Port S) where
  phase-buffer_rest :
      (xs : List ℕ) (t : Attempt) (c c' : Connection S)
      → buffer_rest p xs t c ≡ ok c'
      → phase c' ≡ phase c
  unfolding buffer_rest store_rest note_high_water
  phase-buffer_rest xs t c c' h = by_test (not t.fault_error && ltb 0 t.remaining) h
    where
      by_test :
          (b : Bool)
          → (if b then store_rest p t.remaining (take t.remaining (drop t.nwrote xs)) c else ok c)
            ≡ ok c'
          → phase c' ≡ phase c
      by_test true h =
          let stored : Buffer → S → Outcome (Connection S) =
            λ out s. ok (record (note_high_water t.remaining c) { output = out; port = s }) in
          let (out, e, h₁) =
            >>=-eq-ok (λ out. arm p c.port >>= stored out)
              (append (take t.remaining (drop t.nwrote xs)) c.output) h in
          let (s, e', h₂) = >>=-eq-ok (stored out) (arm p c.port) h₁ in
          ap phase (sym (same_ok h₂)) ∙ phase-emit_if _ (posted_high_water _) c refl
      by_test false h = ap phase (sym (same_ok h))

  -- Sending half-closes nothing.
  pub phase-send_in_loop :
      (write : List ℕ → Transfer) (xs : List ℕ) (c c' : Connection S)
      → phase c ≡ opened
      → send_in_loop p write xs c ≡ ok c'
      → phase c' ≡ opened
  unfolding send_in_loop
  phase-send_in_loop write xs c c' o h = by_state (is_disconnected c.state) h
    where
      by_test :
          (b : Bool)
          → (if b
              then buffer_rest p xs (attempted xs (write xs)) (after_write xs (write xs) c)
              else buffer_rest p xs
                  (record { nwrote = 0; remaining = length xs; fault_error = false })
                  c)
            ≡ ok c'
          → phase c' ≡ opened
      by_test true h =
          phase-buffer_rest xs _ (after_write xs (write xs) c) c' h
          ∙ phase-after_write xs (write xs) c o
      by_test false h = phase-buffer_rest xs _ c c' h ∙ o

      by_state :
          (b : Bool)
          → (if b
              then ok c
              else p.is_writing c.port >>= λ w.
                  if not w || (readable_bytes c.output == 0)
                  then buffer_rest p xs (attempted xs (write xs)) (after_write xs (write xs) c)
                  else buffer_rest p xs
                      (record { nwrote = 0; remaining = length xs; fault_error = false })
                      c)
            ≡ ok c'
          → phase c' ≡ opened
      by_state true h = ap phase (sym (same_ok h)) ∙ o
      by_state false h =
          let (w, e, h₁) =
            >>=-eq-ok
              (λ w.
                if not w || (readable_bytes c.output == 0)
                then buffer_rest p xs (attempted xs (write xs)) (after_write xs (write xs) c)
                else buffer_rest p xs
                    (record { nwrote = 0; remaining = length xs; fault_error = false }) c)
              (p.is_writing c.port) h in
          by_test (not w || (readable_bytes c.output == 0)) h₁

  -- The socket is open, or it was half-closed in a connection that is shutting down with nothing
  -- left to send.
  abbrev pub Ends : Connection S → Type 0
  Ends c =
      (phase c ≡ opened)
      ⊎ ((phase c ≡ half_closed)
          × (is_disconnecting c.state ≡ true)
          × ((readable_bytes c.output == 0) ≡ true))

  drained-Ends :
      (c c' : Connection S)
      → phase c ≡ opened
      → (readable_bytes c.output == 0) ≡ true
      → drained p c ≡ ok c'
      → Ends c'
  unfolding drained shutdown_in_loop
  drained-Ends c c' o empty h =
      let (s, e, h₁) = >>=-eq-ok (next c.write_complete_set) (p.disable_writing c.port) h in
      by_state c.write_complete_set s h₁
    where
      by_port :
          (w : Bool) (d : Connection S)
          → phase d ≡ opened
          → is_disconnecting d.state ≡ true
          → (readable_bytes d.output == 0) ≡ true
          → ok (if w then d else emit shut_write d) ≡ ok c'
          → Ends c'
      by_port true d o st out h = subst Ends (same_ok h) (inl o)
      by_port false d o st out h =
          subst Ends (same_ok h)
            (inr (phase-snoc opened d.trace shut_write ∙ ap (λ ph. advance ph closing) o, st, out))

      then_shut :
          (b : Bool) (d : Connection S)
          → phase d ≡ opened
          → is_disconnecting d.state ≡ b
          → (readable_bytes d.output == 0) ≡ true
          → (if b then shutdown_in_loop p d else ok d) ≡ ok c'
          → Ends c'
      then_shut true d o st out h =
          let (w, e, h₁) =
            >>=-eq-ok (λ w. ok (if w then d else emit shut_write d)) (p.is_writing d.port) h in
          by_port w d o st out h₁
      then_shut false d o st out h = subst Ends (same_ok h) (inl o)

      next : Bool → S → Outcome (Connection S)
      next b s =
          let d = emit_if b posted_write_complete (record c { port = s }) in
          if is_disconnecting d.state then shutdown_in_loop p d else ok d

      by_state : (b : Bool) (s : S) → next b s ≡ ok c' → Ends c'
      by_state true s h =
          then_shut (is_disconnecting c.state) (emit posted_write_complete (record c { port = s }))
            (other_phase c.trace posted_write_complete refl ∙ o) refl empty h
      by_state false s h =
          then_shut (is_disconnecting c.state) (record c { port = s }) o refl empty h

  pub handle_write-Ends :
      (write : List ℕ → Transfer) (r : Bool) (c c' : Connection S)
      → phase c ≡ opened
      → handle_write p write c ≡ ok c'
      → Ends c'
  unfolding handle_write flushed after_flush
  handle_write-Ends write r c c' o h =
      let (v, e, h₁) =
        >>=-eq-ok (λ v. if v then (write_fd write c.output >>= λ n. flushed p n c) else ok c)
          (p.is_writing c.port) h in
      by_port v h₁
    where
      written : (n : ℕ) → phase (sent p r n c) ≡ opened
      written n =
          phase-snoc opened c.trace (wrote (take n (content c.output)))
          ∙ ap (λ ph. advance ph writing) o

      by_rest :
          (n : ℕ) (b : Bool)
          → (readable_bytes (retrieve n c.output) == 0) ≡ b
          → (if b then drained p (sent p r n c) else ok (sent p r n c)) ≡ ok c'
          → Ends c'
      by_rest n true e h = drained-Ends (sent p r n c) c' (written n) e h
      by_rest n false e h = subst Ends (same_ok h) (inl (written n))

      by_count : (n : ℕ) (b : Bool) → (if b then after_flush p n c else ok c) ≡ ok c' → Ends c'
      by_count n true h = by_rest n (readable_bytes (retrieve n c.output) == 0) refl h
      by_count n false h = subst Ends (same_ok h) (inl o)

      by_answer : (t : Transfer) → flushed p t c ≡ ok c' → Ends c'
      by_answer (count n) h = by_count n (ltb 0 n) h
      by_answer (saved_errno e) h = subst Ends (same_ok h) (inl o)

      by_port :
          (v : Bool)
          → (if v then (write_fd write c.output >>= λ n. flushed p n c) else ok c) ≡ ok c'
          → Ends c'
      by_port true h =
          let (t, e, h₁) = >>=-eq-ok (λ n. flushed p n c) (write_fd write c.output) h in
          by_answer t h₁
      by_port false h = subst Ends (same_ok h) (inl o)
