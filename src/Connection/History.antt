-- ===== src/Connection/History.antt =====
-- A whole life of a connection on the thread of its loop: what any row of events and of calls of the
-- user leaves of its state and of its stream.
pub mod Order
use mu_muduo.Common.{
  ℕ, ◌-◌, ◌≤◌, ◌<◌, ◌^◌, ◌≡◌, refl, sym, ap, ap₂, subst, ◌∙◌, Bool, true, false, not, List, [], ◌∷◌,
  ◌++◌, length, ◌==◌, append_assoc, append-nil, Outcome, ok, ◌>>=◌, if◌then◌else◌, Bool-cases, inl,
  inr, no_bool,
}
use mu_muduo.Buffer.{readable_bytes, received, Transfer}
use mu_muduo.Buffer.Valid.{content}
use mu_muduo.Buffer.Append.{Fits}
use mu_muduo.Buffer.Socket.{ReadFits}
use mu_muduo.Connection.{
  ConnState, connected, connecting, disconnecting, disconnected, is_connected, is_disconnected,
  Connection, SocketError, send, shutdown, handle_read, handle_write, called_connection,
  called_close, called_message, shut_write, Effect,
}
use mu_muduo.Connection.Sound.{Sound, stream, sent_by, sent_bytes, sent_bytes-snoc}
use mu_muduo.Connection.Stream.{taken, fatal, send_in_loop-Streams, send-connected}
use mu_muduo.Connection.Flush.{handle_write-Preserves, shutdown_lem}
use mu_muduo.Connection.Close.{handle_read-received, handle_read-end}
use mu_muduo.Port.{Port}
use mu_muduo.Connection.Events.{
  Event, next_state, block, event_step, Admits, Follows, event_step-Follows,
}

unfoldable pub final_state : List Event → ConnState → ConnState
unfolding next_state
final_state [] st = st
final_state (e ∷ es) st = final_state es (next_state e st)

unfoldable pub accepted : List Event → ConnState → List ℕ
unfolding next_state block
accepted [] st = []
accepted (e ∷ es) st = block e st ++ accepted es (next_state e st)

module _ {S : Type 0} (p : Port S) (err_of : SocketError) where
  pub run_events : List Event → Connection S → Outcome (Connection S)
  unfolding event_step
  run_events [] c = ok c
  run_events (e ∷ es) c = do c' ← event_step p err_of e c; run_events es c'

  abbrev pub AllAdmit : List Event → Connection S → Type 0
  AllAdmit [] c = Unit {0}
  AllAdmit (e ∷ es) c =
      Admits p err_of e c × ((c' : Connection S) → event_step p err_of e c ≡ ok c' → AllAdmit es c')

  -- Any row of such events and calls on a sound connection, each admitted where it happens, returns a
  -- sound connection; its state is the one that the row of events determines, and its stream, the bytes
  -- taken by the socket followed by those in the buffer, has grown by just the blocks that were
  -- sent while the connection was connected, in their order.
  pub run_events-Follows :
      (es : List Event) (r w : Bool) (c : Connection S)
      → Sound p r w c
      → AllAdmit es c
      → Follows p err_of (final_state es c.state) (accepted es c.state) c (run_events es c)
  unfolding run_events final_state accepted
  run_events-Follows [] r w c so a = (c, r, w, refl, so, refl, sym (append-nil (stream c)))
  run_events-Follows (e ∷ es) r w c so (a, all) =
      let (c', r', w', done, so', st, grown) = event_step-Follows p err_of r w c so e a in
      let (d, r'', w'', done', so'', st', grown') =
        run_events-Follows es r' w' c' so' (all c' done) in
      rw done (
        d,
        r'',
        w'',
        done',
        so'',
        st' ∙ ap (final_state es) st,
        grown'
            ∙ ap₂ (λ x y. x ++ y) grown (ap (accepted es) st)
            ∙ append_assoc (stream c) (block e c.state) (accepted es (next_state e c.state)),
      )
