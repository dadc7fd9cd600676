-- ===== src/Connection/Sound.antt =====
-- The invariant of a connection, and the stream of bytes that it has taken for its peer.
use mu_muduo.Common.{
  ℕ, ◌≡◌, refl, sym, ap, ◌∙◌, Bool, true, false, not, List, [], ◌∷◌, ◌++◌, ◌==◌, append_assoc,
  append-nil,
}
use mu_muduo.Buffer.{readable_bytes}
use mu_muduo.Buffer.Valid.{IsValid, content}
use mu_muduo.Connection.{
  Connection, is_disconnected, Effect, wrote, shut_write, called_connection, called_message,
  called_close, posted_write_complete, posted_high_water, posted_send, posted_shutdown,
  logged_error, emit_if,
}
use mu_muduo.Port.{Port}

-- The bytes of one effect that the socket took, and of a trace.
abbrev pub sent_by : Effect → List ℕ
sent_by (wrote xs) = xs
sent_by shut_write = []
sent_by called_connection = []
sent_by called_message = []
sent_by called_close = []
sent_by posted_write_complete = []
sent_by (posted_high_water n) = []
sent_by (posted_send xs) = []
sent_by posted_shutdown = []
sent_by (logged_error n) = []

abbrev pub sent_bytes : List Effect → List ℕ
sent_bytes [] = []
sent_bytes (e ∷ es) = sent_by e ++ sent_bytes es

pub sent_bytes-snoc :
    (es : List Effect) (e : Effect) → sent_bytes (es ++ e ∷ []) ≡ sent_bytes es ++ sent_by e
sent_bytes-snoc [] e = append-nil (sent_by e)
sent_bytes-snoc (x ∷ es) e =
    ap (λ ys. sent_by x ++ ys) (sent_bytes-snoc es e)
    ∙ sym (append_assoc (sent_by x) (sent_bytes es) (sent_by e))

-- What the socket took, and behind it what waits in the buffer.
abbrev pub stream : {S : Type 0} → Connection S → List ℕ
stream c = sent_bytes c.trace ++ content c.output

-- The channel waits for the socket to take more exactly while there is something to send; only a
-- closed connection may hold bytes that nobody waits to send.
pub record Sound {S : Type 0} (p : Port S) (r w : Bool) (c : Connection S) : Type 0 where
  pub input_valid : IsValid c.input
  pub output_valid : IsValid c.output
  pub interest : p.Interest r w c.port
  pub armed : is_disconnected c.state ≡ false → w ≡ not (readable_bytes c.output == 0)

-- An effect that is no write leaves the stream alone.
module _ {S : Type 0} where
  pub sent_bytes-emit_if :
      (b : Bool) (e : Effect) (c : Connection S)
      → sent_by e ≡ []
      → sent_bytes (emit_if b e c).trace ≡ sent_bytes c.trace
  sent_bytes-emit_if true e c h =
      sent_bytes-snoc c.trace e
      ∙ ap (λ ys. sent_bytes c.trace ++ ys) h
      ∙ append-nil (sent_bytes c.trace)
  sent_bytes-emit_if false e c h = refl

  -- What `emit_if` leaves as it is.
  pub emit_if_same :
      (b : Bool) (e : Effect) (c : Connection S)
      → ((emit_if b e c).state ≡ c.state)
        × ((emit_if b e c).port ≡ c.port)
        × ((emit_if b e c).input ≡ c.input)
        × ((emit_if b e c).output ≡ c.output)
  emit_if_same true e c = (refl, refl, refl, refl)
  emit_if_same false e c = (refl, refl, refl, refl)
