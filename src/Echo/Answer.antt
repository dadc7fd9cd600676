-- ===== src/Echo/Answer.antt =====
-- What arrives goes back.
use mu_muduo.Common.{
  ℕ, ◌-◌, ◌≤◌, ◌<◌, ◌^◌, ◌≡◌, refl, sym, ap, ap₂, ◌∙◌, subst, Bool, true, false, List, [], ◌∷◌,
  ◌++◌, length, Outcome, ok, ◌>>=◌, if◌then◌else◌, ◌==◌, append-nil,
}
use mu_muduo.Buffer.{Transfer, received, readable_bytes, retrieve}
use mu_muduo.Buffer.Valid.{content}
use mu_muduo.Buffer.Moves.{retrieve_all_as_string_lem, retrieve-IsValid}
use mu_muduo.Buffer.Append.{Fits}
use mu_muduo.Buffer.Socket.{ReadFits}
use mu_muduo.Connection.{
  Connection, connected, disconnecting, is_disconnected, send_in_loop, shutdown, SocketError,
  called_message, Effect, shut_write,
}
use mu_muduo.Connection.Sound.{Sound, stream, sent_bytes, sent_bytes-snoc}
use mu_muduo.Connection.Stream.{taken, fatal, Streams, send_in_loop-Streams, send-connected}
use mu_muduo.Connection.Flush.{shutdown_lem}
use mu_muduo.Connection.Close.{handle_read-received}
use mu_muduo.Port.{Port}
use mu_muduo.Echo.{on_message, echo_read}

module _ {S : Type 0} (p : Port S) (r : Bool) where
  -- The call returns a sound connection that is shutting down, and `ys` has joined its stream.
  abbrev pub Answers : Connection S → List ℕ → Outcome (Connection S) → Type 0
  Answers c ys out =
      (c' : Connection S) × (w' : Bool) × (out ≡ ok c')
      × Sound p r w' c'
      × (c'.state ≡ disconnecting)
      × (stream c' ≡ stream c ++ ys)

  no_byte :
      (b : Bool) (es : List Effect)
      → sent_bytes (if b then es ++ shut_write ∷ [] else es) ≡ sent_bytes es
  no_byte true es = sent_bytes-snoc es shut_write ∙ append-nil (sent_bytes es)
  no_byte false es = refl

  -- `shutdown` adds no byte to the stream.
  then_shut :
      (w : Bool) (c c₀ : Connection S) (ys : List ℕ)
      → Sound p r w c
      → c.state ≡ connected
      → stream c ≡ stream c₀ ++ ys
      → Answers c₀ ys (shutdown p true c)
  then_shut w c c₀ ys so st same =
      let (c', e, so', st', out, tr) = shutdown_lem p r w c so st in
      (
        c',
        w,
        e,
        so',
        st',
        ap₂ (λ a b. a ++ b) (ap sent_bytes tr ∙ no_byte (readable_bytes c.output == 0) c.trace)
              (ap content out)
            ∙ same,
      )

  sent_then_shut :
      (c c₀ : Connection S) (ys : List ℕ) (out : Outcome (Connection S))
      → c.state ≡ connected
      → stream c ≡ stream c₀
      → Streams p r c ys out
      → Answers c₀ ys (out >>= λ c'. shutdown p true c')
  sent_then_shut c c₀ ys out st same (c', w', e, so, st', grown) =
      rw e (then_shut w' c' c₀ ys so (st' ∙ st) (grown ∙ ap (λ z. z ++ ys) same))

  -- On a sound connected connection with room for what arrives and for the answer, and a socket that
  -- does not report the peer gone, a read event of the echo server sends all of the input back, what
  -- was there before and then what has arrived, behind everything that was sent before; and the
  -- connection is shutting down.
  pub echo_read-Answers :
      (w : Bool) (so_err : SocketError) (write : List ℕ → Transfer) (x : ℕ) (xs : List ℕ)
      (c : Connection S)
      → Sound p r w c
      → c.state ≡ connected
      → ReadFits (length (x ∷ xs)) c.input
      → length (content c.input ++ x ∷ xs) < 2 ^ 64
      → taken w (write (content c.input ++ x ∷ xs)) ≤ length (content c.input ++ x ∷ xs)
      → fatal w (write (content c.input ++ x ∷ xs)) ≡ false
      → Fits
          (length (content c.input ++ x ∷ xs) - taken w (write (content c.input ++ x ∷ xs)))
          c.output
      → Answers c (content c.input ++ x ∷ xs) (echo_read p so_err (received (x ∷ xs)) write c)
  unfolding echo_read on_message
  echo_read-Answers w so_err write x xs c so st room small le alive fits =
      let (c₁, e, so₁, same, st₁, out, tr) = handle_read-received p r w so_err x xs c so room in
      let ys = content c.input ++ x ∷ xs in
      let c₂ : Connection S = record c₁ { input = retrieve (readable_bytes c₁.input) c₁.input } in
      let so₂ : Sound p r w c₂ = record {
        input_valid = retrieve-IsValid (readable_bytes c₁.input) so₁.input_valid;
        output_valid = so₁.output_valid;
        interest = so₁.interest;
        armed = so₁.armed;
      } in
      let st₂ : c₂.state ≡ connected = st₁ ∙ st in
      rw (e, retrieve_all_as_string_lem so₁.input_valid, same, send-connected p r write ys c₂ st₂)
        (sent_then_shut c₂ c ys (send_in_loop p write ys c₂) st₂
          (ap₂ (λ a b. a ++ b)
            (ap sent_bytes tr
              ∙ sent_bytes-snoc c.trace called_message
              ∙ append-nil (sent_bytes c.trace))
            (ap content out))
          (send_in_loop-Streams p r write ys w c₂ so₂ (ap is_disconnected st₂) small le alive
            (subst (λ o. Fits (length ys - taken w (write ys)) o) (sym out) fits)))
