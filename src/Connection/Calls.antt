-- ===== src/Connection/Calls.antt =====
-- The calls of the close callback that a connection's handlers make.
use mu_muduo.Common.{
  ℕ, ◌+◌, ◌≡◌, refl, sym, ap, ◌∙◌, Bool, true, false, not, ◌&&◌, ◌||◌, List, [], ◌∷◌, ◌++◌, length,
  take, drop, ltb, ◌==◌, arith, Outcome, ok, ◌>>=◌, >>=-eq-ok, if◌then◌else◌,
}
use mu_muduo.Buffer.{
  Buffer, readable_bytes, retrieve, Transfer, count, saved_errno, append, write_fd,
}
use mu_muduo.Buffer.Valid.{content}
use mu_muduo.Connection.{
  Connection, Effect, wrote, shut_write, called_connection, called_message, called_close,
  posted_write_complete, posted_high_water, posted_send, posted_shutdown, logged_error,
  is_disconnected, is_disconnecting, emit, emit_if, Attempt, attempted, after_write,
  note_high_water, arm, store_rest, buffer_rest, send_in_loop, shutdown_in_loop, drained,
  after_flush, flushed, handle_write,
}
use mu_muduo.Connection.Phase.{same_ok}
use mu_muduo.Port.{Port}

abbrev pub close_call : Effect → ℕ
close_call (wrote xs) = 0
close_call shut_write = 0
close_call called_connection = 0
close_call called_message = 0
close_call called_close = 1
close_call posted_write_complete = 0
close_call (posted_high_water n) = 0
close_call (posted_send xs) = 0
close_call posted_shutdown = 0
close_call (logged_error n) = 0

abbrev pub close_calls : List Effect → ℕ
close_calls [] = 0
close_calls (e ∷ es) = close_call e + close_calls es

pub close_calls-snoc :
    (es : List Effect) (e : Effect) → close_calls (es ++ e ∷ []) ≡ close_calls es + close_call e
close_calls-snoc [] e = omega arith
close_calls-snoc (x ∷ es) e = omega (arith, close_calls-snoc es e)

-- An effect that is no such call.
pub other_call :
    (es : List Effect) (e : Effect) → close_call e ≡ 0 → close_calls (es ++ e ∷ []) ≡ close_calls es
other_call es e h = omega (arith, close_calls-snoc es e)

module _ {S : Type 0} where
  abbrev pub calls : Connection S → ℕ
  calls c = close_calls c.trace

  calls-emit_if :
      (b : Bool) (e : Effect) (c : Connection S)
      → close_call e ≡ 0
      → calls (emit_if b e c) ≡ calls c
  calls-emit_if true e c k = other_call c.trace e k
  calls-emit_if false e c k = refl

  calls-after_write :
      (xs : List ℕ) (t : Transfer) (c : Connection S) → calls (after_write xs t c) ≡ calls c
  unfolding after_write
  calls-after_write xs (count n) c =
      calls-emit_if _ posted_write_complete (emit (wrote (take n xs)) c) refl
      ∙ other_call c.trace (wrote (take n xs)) refl
  calls-after_write xs (saved_errno e) c = refl

module _ {S : Type 0} (p : Port S) where
  calls-buffer_rest :
      (xs : List ℕ) (t : Attempt) (c c' : Connection S)
      → buffer_rest p xs t c ≡ ok c'
      → calls c' ≡ calls c
  unfolding buffer_rest store_rest note_high_water
  calls-buffer_rest xs t c c' h = by_test (not t.fault_error && ltb 0 t.remaining) h
    where
      by_test :
          (b : Bool)
          → (if b then store_rest p t.remaining (take t.remaining (drop t.nwrote xs)) c else ok c)
            ≡ ok c'
          → calls c' ≡ calls c
      by_test true h =
          let stored : Buffer → S → Outcome (Connection S) =
            λ out s. ok (record (note_high_water t.remaining c) { output = out; port = s }) in
          let (out, e, h₁) =
            >>=-eq-ok (λ out. arm p c.port >>= stored out)
              (append (take t.remaining (drop t.nwrote xs)) c.output) h in
          let (s, e', h₂) = >>=-eq-ok (stored out) (arm p c.port) h₁ in
          ap calls (sym (same_ok h₂)) ∙ calls-emit_if _ (posted_high_water _) c refl
      by_test false h = ap calls (sym (same_ok h))

  pub calls-send_in_loop :
      (write : List ℕ → Transfer) (xs : List ℕ) (c c' : Connection S)
      → send_in_loop p write xs c ≡ ok c'
      → calls c' ≡ calls c
  unfolding send_in_loop
  calls-send_in_loop write xs c c' h = by_state (is_disconnected c.state) h
    where
      by_test : Bool → Outcome (Connection S)
      by_test b =
          if b
          then buffer_rest p xs (attempted xs (write xs)) (after_write xs (write xs) c)
          else buffer_rest p xs (record { nwrote = 0; remaining = length xs; fault_error = false })
              c

      tested : (b : Bool) → by_test b ≡ ok c' → calls c' ≡ calls c
      tested true h =
          calls-buffer_rest xs _ (after_write xs (write xs) c) c' h
          ∙ calls-after_write xs (write xs) c
      tested false h = calls-buffer_rest xs _ c c' h

      next : S → Bool → Outcome (Connection S)
      next s w = by_test (not w || (readable_bytes c.output == 0))

      by_state :
          (b : Bool)
          → (if b then ok c else p.is_writing c.port >>= next c.port) ≡ ok c'
          → calls c' ≡ calls c
      by_state true h = ap calls (sym (same_ok h))
      by_state false h =
          let (w, e, h₁) = >>=-eq-ok (next c.port) (p.is_writing c.port) h in
          tested (not w || (readable_bytes c.output == 0)) h₁

  calls-shutdown_in_loop : (c c' : Connection S) → shutdown_in_loop p c ≡ ok c' → calls c' ≡ calls c
  unfolding shutdown_in_loop
  calls-shutdown_in_loop c c' h =
      let (w, e, h₁) =
        >>=-eq-ok (λ w. ok (if w then c else emit shut_write c)) (p.is_writing c.port) h in
      by_port w h₁
    where
      by_port : (w : Bool) → ok (if w then c else emit shut_write c) ≡ ok c' → calls c' ≡ calls c
      by_port true h = ap calls (sym (same_ok h))
      by_port false h = ap calls (sym (same_ok h)) ∙ other_call c.trace shut_write refl

  calls-drained : (c c' : Connection S) → drained p c ≡ ok c' → calls c' ≡ calls c
  unfolding drained
  calls-drained c c' h =
      let (s, e, h₁) = >>=-eq-ok next (p.disable_writing c.port) h in
      by_state (is_disconnecting (told s).state) s h₁
      ∙ calls-emit_if c.write_complete_set posted_write_complete (record c { port = s }) refl
    where
      told : S → Connection S
      told s = emit_if c.write_complete_set posted_write_complete (record c { port = s })

      next : S → Outcome (Connection S)
      next s = if is_disconnecting (told s).state then shutdown_in_loop p (told s) else ok (told s)

      by_state :
          (b : Bool) (s : S)
          → (if b then shutdown_in_loop p (told s) else ok (told s)) ≡ ok c'
          → calls c' ≡ calls (told s)
      by_state true s h = calls-shutdown_in_loop (told s) c' h
      by_state false s h = ap calls (sym (same_ok h))

  calls-flushed : (t : Transfer) (c c' : Connection S) → flushed p t c ≡ ok c' → calls c' ≡ calls c
  unfolding flushed after_flush
  calls-flushed (saved_errno e) c c' h = ap calls (sym (same_ok h))
  calls-flushed (count n) c c' h = by_count (ltb 0 n) h
    where
      sent : Connection S
      sent = emit (wrote (take n (content c.output))) (record c { output = retrieve n c.output })

      by_rest : (b : Bool) → (if b then drained p sent else ok sent) ≡ ok c' → calls c' ≡ calls sent
      by_rest true h = calls-drained sent c' h
      by_rest false h = ap calls (sym (same_ok h))

      by_count : (b : Bool) → (if b then after_flush p n c else ok c) ≡ ok c' → calls c' ≡ calls c
      by_count true h =
          by_rest (readable_bytes sent.output == 0) h
          ∙ other_call c.trace (wrote (take n (content c.output))) refl
      by_count false h = ap calls (sym (same_ok h))

  pub calls-handle_write :
      (write : List ℕ → Transfer) (c c' : Connection S)
      → handle_write p write c ≡ ok c'
      → calls c' ≡ calls c
  unfolding handle_write
  calls-handle_write write c c' h =
      let (v, e, h₁) = >>=-eq-ok next (p.is_writing c.port) h in by_port v h₁
    where
      next : Bool → Outcome (Connection S)
      next v = if v then (write_fd write c.output >>= λ n. flushed p n c) else ok c

      by_port : (v : Bool) → next v ≡ ok c' → calls c' ≡ calls c
      by_port true h =
          let (t, e, h₁) = >>=-eq-ok (λ n. flushed p n c) (write_fd write c.output) h in
          calls-flushed t c c' h₁
      by_port false h = ap calls (sym (same_ok h))
