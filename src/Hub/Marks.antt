-- ===== src/Hub/Marks.antt =====
-- What the marks of `poll` on the channels are to the connections.
use mu_muduo.Common.{ℕ, refl, sym, ap, ◌∙◌, ◌⊎◌, inl, inr, nat_eq}
use mu_muduo.Channel.{Channel, shape}
use mu_muduo.Reactor.{Epoll, State}
use mu_muduo.Reactor.Invariant.{Inv}
use mu_muduo.Reactor.Marks.{Alike, Marks}
use mu_muduo.Port.OnReactor.{shape_found}
use mu_muduo.Hub.{Stored, conn_channel, Hub}
use mu_muduo.Hub.Queue.{Found}
use mu_muduo.Hub.Apart.{no_conn, IsForeign, IsSound, HubInv}

pub IsForeign-Alike : (d d' : Channel) → Alike d d' → IsForeign d' → IsForeign d
unfolding shape
IsForeign-Alike d d' (e, same) (r, w, c, f) = (
  ap no_conn (ap (λ x. x.read_callback) (sym same)) ∙ r,
  ap no_conn (ap (λ x. x.write_callback) (sym same)) ∙ w,
  ap no_conn (ap (λ x. x.close_callback) (sym same)) ∙ c,
  ap no_conn (ap (λ x. x.error_callback) (sym same)) ∙ f,
)

pub Foreign-Alike : (d d' : Channel) → Alike d d' → IsForeign d → IsForeign d'
unfolding shape
Foreign-Alike d d' (e, same) f = IsForeign-Alike d' d (sym e, sym same) f

module _ (ep : Epoll) (room : (k : ep.Kernel) (fd : ℕ) → ep.Room k fd) where
  module _ {s s' : State ep} (m : Marks s s') (inv : Inv ep s') where
    marked-IsSound : (o : ℕ) (c : Stored) → IsSound ep room o s c → IsSound ep room o s' c
    unfolding shape conn_channel
    marked-IsSound o c so =
        let held = so.sound.interest in
        let (d', l', (e, f)) = m.forth o held.channel held.found in
        record {
          reads = so.reads;
          writes = so.writes;
          sound = record {
            input_valid = so.sound.input_valid;
            output_valid = so.sound.output_valid;
            interest = record {
              channel = d';
              found = l';
              waits = e ∙ held.waits;
              inv = inv;
              own = λ d l. shape_found d' d l' l;
              others = λ b ne. refl;
            };
            armed = so.sound.armed;
          };
          mine = λ x lx.
              let (x₀, l₀, (e₀, f₀)) = m.back o x lx in
              f₀ ∙ so.mine x₀ l₀ ∙ ap (λ n. shape (conn_channel o n)) (sym (ap (λ y. y.fd) f₀));
        }

  pub marked-HubInv :
      (h : Hub ep) (s' : State ep)
      → Marks h.reactor s'
      → Inv ep s'
      → HubInv ep room h
      → HubInv ep room (record h { reactor = s' })
  marked-HubInv h s' m inv i = record {
    inv = inv;
    sound = (
      λ o c l. marked-IsSound m inv o c (i.sound.0 o c l),
      λ a d' l. let (d, f, alike) = m.back a d' l in kept a d d' alike (i.sound.1 a d f),
    );
    waiting = i.waiting;
  }
    where
      kept :
          (a : ℕ) (d d' : Channel)
          → Alike d d'
          → Found a h.conns ⊎ IsForeign d
          → Found a h.conns ⊎ IsForeign d'
      kept a d d' alike (inl f) = inl f
      kept a d d' alike (inr f) = inr (Foreign-Alike d d' alike f)
