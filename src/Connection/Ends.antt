-- ===== src/Connection/Ends.antt =====
-- The events that end in `handleClose`, by the calls of the close callback.
use mu_muduo.Common.{
  ℕ, ◌+◌, ◌≡◌, refl, sym, ap, ◌∙◌, Bool, true, false, List, [], ◌∷◌, ◌++◌, arith, Outcome, ok,
  if◌then◌else◌, Bool-cases, inl, inr, ◌==◌,
}
use mu_muduo.Buffer.{Transfer, received, readable_bytes}
use mu_muduo.Buffer.Socket.{read_fd_failed}
use mu_muduo.Connection.{
  Connection, shut_write, called_connection, called_message, called_close, logged_error,
  is_connected, send, shutdown, handle_read, after_read, handle_error, SocketError, so_error,
  query_failed,
}
use mu_muduo.Connection.Phase.{same_ok}
use mu_muduo.Connection.Sound.{Sound}
use mu_muduo.Connection.Stream.{send-connected}
use mu_muduo.Connection.Flush.{shutdown_lem}
use mu_muduo.Connection.Close.{Closes, handle_close-Closes, handle_read-received, handle_read-end}
use mu_muduo.Connection.Calls.{
  close_calls, close_calls-snoc, calls, other_call, calls-send_in_loop, calls-handle_write,
}
use mu_muduo.Connection.Events.{
  Event, sends, shuts, writable, arrives, hangs_up, read_fails, closes, errs, consumes, ends,
  event_step, Admits, is_connected_lem,
}
use mu_muduo.Port.{Port}

module _ {S : Type 0} (p : Port S) (err_of : SocketError) (r w : Bool) (c : Connection S)
    (so : Sound p r w c) where
  -- The call returns, and has called the close callback `n` times.
  abbrev Calls : ℕ → Outcome (Connection S) → Type 0
  Calls n out = (c' : Connection S) → out ≡ ok c' → calls c' ≡ calls c + n

  none_more : (c' : Connection S) → calls c' ≡ calls c → calls c' ≡ calls c + 0
  none_more c' e = omega (arith, e)

  ended : {out : Outcome (Connection S)} → Closes p c out → Calls 1 out
  ended (d, e, so', st, out, tr) c' h =
      let same : d ≡ c' = same_ok (sym e ∙ h) in
      ap calls (sym same)
      ∙ ap close_calls tr
      ∙ close_calls-snoc (c.trace ++ called_connection ∷ []) called_close
      ∙ ap (λ n. n + 1) (other_call c.trace called_connection refl)

  sends-Calls : (write : List ℕ → Transfer) (xs : List ℕ) → Calls 0 (send p true write xs c)
  sends-Calls write xs c' h = elim (Bool-cases (is_connected c.state)) [
    | inl open_ ↦
        let direct = send-connected p r write xs c (is_connected_lem c.state open_) in
        none_more c' (calls-send_in_loop p write xs c c' (sym direct ∙ h))
    | inr shut_ ↦ none_more c' (ap calls (sym (same_ok (sym (idle shut_) ∙ h))))
  ]
    where
      idle : is_connected c.state ≡ false → send p true write xs c ≡ ok c
      idle shut_ = unfold send in rw shut_ refl

  shuts-Calls : Calls 0 (shutdown p true c)
  shuts-Calls c' h = elim (Bool-cases (is_connected c.state)) [
    | inl open_ ↦
        let (d, e, so', st, out, tr) = shutdown_lem p r w c so (is_connected_lem c.state open_) in
        none_more c' (
          ap calls (sym (same_ok (sym e ∙ h)))
          ∙ ap close_calls tr
          ∙ by_write (readable_bytes c.output == 0))
    | inr shut_ ↦ none_more c' (ap calls (sym (same_ok (sym (idle shut_) ∙ h))))
  ]
    where
      idle : is_connected c.state ≡ false → shutdown p true c ≡ ok c
      idle shut_ = unfold shutdown in rw shut_ refl

      by_write :
          (b : Bool)
          → close_calls (if b then c.trace ++ shut_write ∷ [] else c.trace) ≡ close_calls c.trace
      by_write true = other_call c.trace shut_write refl
      by_write false = refl

  logged-Calls : Calls 0 (ok (handle_error p err_of c))
  unfolding handle_error
  logged-Calls c' h = none_more c' (ap calls (sym (same_ok h)) ∙ by_answer err_of)
    where
      by_answer : (a : SocketError) → calls (handle_error p a c) ≡ calls c
      by_answer (so_error e) = other_call c.trace (logged_error e) refl
      by_answer (query_failed e) = other_call c.trace (logged_error e) refl

  arrives-Calls :
      (x : ℕ) (xs : List ℕ)
      → Admits p err_of (arrives x xs) c
      → Calls 0 (handle_read p err_of (received (x ∷ xs)) c)
  arrives-Calls x xs a c' h =
      let (d, e, so', same, st, out, tr) = handle_read-received p r w err_of x xs c so a in
      none_more c' (
        ap calls (sym (same_ok (sym e ∙ h)))
        ∙ ap close_calls tr
        ∙ other_call c.trace called_message refl)

  -- An event calls the close callback once if it ends the connection, and else not at all.
  pub event_step-Calls :
      (e : Event) → Admits p err_of e c → Calls (if ends e then 1 else 0) (event_step p err_of e c)
  unfolding event_step
  event_step-Calls (sends write xs) a = sends-Calls write xs
  event_step-Calls shuts a = shuts-Calls
  event_step-Calls (writable write) a = λ c' h. none_more c' (calls-handle_write p write c c' h)
  event_step-Calls (arrives x xs) a = arrives-Calls x xs a
  event_step-Calls hangs_up a = ended (handle_read-end p r w err_of c so)
  event_step-Calls (read_fails errno) a =
      unfold handle_read in unfold after_read in rw (read_fd_failed errno c.input) logged-Calls
  event_step-Calls closes a = ended (handle_close-Closes p r w c so)
  event_step-Calls errs a = logged-Calls
  event_step-Calls (consumes n) a = λ c' h. none_more c' (ap calls (sym (same_ok h)))
