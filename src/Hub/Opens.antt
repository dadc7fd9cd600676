-- ===== src/Hub/Opens.antt =====
-- A new connection as an action: TcpServer::newConnection and TcpConnection::connectEstablished.
use mu_muduo.Common.{
  ℕ, ◌≡◌, refl, sym, ap, ap₂, ◌∙◌, false, [], ◌∷◌, ◌++◌, none, some, lookup, insert, nat_eq,
  lookup-insert, ◌==◌, ==_iff, Bool-cases, inl, inr,
}
use mu_muduo.Channel.{Channel, make_channel, shape}
use mu_muduo.Reactor.{Epoll, State, put}
use mu_muduo.Reactor.Lifetime.{put-Inv}
use mu_muduo.Port.OnReactor.{Holds}
use mu_muduo.Buffer.Valid.{content}
use mu_muduo.Connection.{
  set_write_complete_callback, called_connection, Connection, connected, SocketError,
}
use mu_muduo.Connection.Sound.{stream, sent_bytes}
use mu_muduo.Connection.Fresh.{make_connection-Sound}
use mu_muduo.Connection.Close.{connect_established_lem}
use mu_muduo.Hub.{with_port, conn_channel, Hub, port_of, settle, open_connection}
use mu_muduo.Hub.Queue.{AllFound-insert, mem, mem_absent}
use mu_muduo.Hub.Apart.{HubInv, rebase, IsSound-apart, settle-AllSound}
use mu_muduo.Hub.Views.{opens, view, view_of, view_step}
use mu_muduo.Hub.Steps.{some_inj, Grows, ActionAdmits, still}

module _ (ep : Epoll) (room : (k : ep.Kernel) (fd : ℕ) → ep.Room k fd) (err_of : SocketError)
    (h : Hub ep) (i : HubInv ep room h) where
  pub open_connection-Grows :
      (o fd : ℕ)
      → ActionAdmits ep room err_of (opens o fd) h
      → Grows ep room err_of (opens o fd) h (open_connection ep room o fd h)
  unfolding open_connection view view_step conn_channel make_channel set_write_complete_callback
  open_connection-Grows o fd (absent, free) =
      let (c, e, so, at, empty, quiet, st) =
        make_connection-Sound (port_of ep room o reactor) reactor start in
      let (c', e', so', st', out, tr) =
        connect_established_lem (port_of ep room o reactor) false
          (set_write_complete_callback h.notifies c)
          (record {
            input_valid = so.input_valid;
            output_valid = so.output_valid;
            interest = so.interest;
            armed = so.armed;
          })
          empty in
      (
        settle ep room o c' h,
        rw (e, e'),
        record {
          inv = so'.interest.inv;
          sound =
              settle-AllSound ep room o (record h { reactor = reactor }) c' so' shaped
                (channel, here)
                (λ b d ne l.
                  IsSound-apart ep room o joined.inv joined.others b d ne (i.sound.0 b d l))
                (λ b d ne l. i.sound.1 b d (sym (joined.others b ne) ∙ l));
          waiting = AllFound-insert h.doomed o (with_port tt c') h.conns i.waiting;
        },
        λ b. seen b c' st' (
            ap₂ (λ x y. x ++ y) (ap sent_bytes (tr ∙ ap (λ es. es ++ called_connection ∷ []) quiet))
              (ap content out ∙ empty)),
        λ b lv.
            still ep room err_of reactor c'.port o so'.interest.channel so'.interest.found
              so'.interest.others b
              (still ep room err_of h.reactor reactor o channel here joined.others b lv),
      )
    where
      channel : Channel
      channel = conn_channel o fd

      reactor : State ep
      reactor = put o channel h.reactor

      here : lookup o reactor.heap ≡ some channel
      here = lookup-insert o o channel h.reactor.heap ∙ rw ((==_iff o o).1 refl) refl

      joined : Holds ep room o o h.reactor false false reactor
      joined = record {
        channel = channel;
        found = here;
        waits = refl;
        inv = put-Inv ep o channel h.reactor i.inv free refl;
        own = λ d l. absurd (none_some (sym free.address ∙ l));
        others = λ b ne. lookup-insert o b channel h.reactor.heap ∙ rw ne refl;
      }
        where
          none_some : {d : Channel} → none ≡ some d → ⊥
          none_some h = cc

      start : Holds ep room o o reactor false false reactor
      start = rebase ep room joined

      shaped :
          (d : Channel) → lookup o reactor.heap ≡ some d → shape d ≡ shape (conn_channel o d.fd)
      shaped d l = rw (some_inj (sym l ∙ here)) refl

      seen :
          (b : ℕ) (c' : Connection (State ep))
          → c'.state ≡ connected
          → stream c' ≡ []
          → view_of (lookup b (insert o (with_port tt c') h.conns)) (mem b h.doomed)
            ≡ view_step b (opens o fd) (view_of (lookup b h.conns) (mem b h.doomed))
      seen b c' st none_yet = elim (Bool-cases (o == b)) [
        | inl e ↦
            let gone = ap (λ n. lookup n h.conns) (sym ((==_iff o b).0 e)) ∙ absent in
            rw
              (
                lookup-insert o b (with_port tt c') h.conns,
                e,
                st,
                none_yet,
                mem_absent b h.doomed h.conns gone i.waiting,
              )
              refl
        | inr e ↦ rw (lookup-insert o b (with_port tt c') h.conns, e) refl
      ]
