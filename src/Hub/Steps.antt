-- ===== src/Hub/Steps.antt =====
-- One action on the hub, and an event of a connection (the handlers of TcpConnection.cc) as one.
use mu_muduo.Common.{
  Bool, List, if◌then◌else◌, replicate, ◌+◌, ◌-◌, arith, ℕ, ◌≡◌, refl, sym, ap, ◌∙◌, true, false,
  ◌++◌, Option, none, some, lookup, insert, nat_eq, lookup-insert, ◌==◌, ==_iff, Bool-cases, inl,
  inr, Outcome, ok,
}
use mu_muduo.Channel.{Channel}
use mu_muduo.Reactor.{Epoll, State}
use mu_muduo.Reactor.Invariant.{Live}
use mu_muduo.Reactor.Lifetime.{IsFree}
use mu_muduo.Connection.{SocketError}
use mu_muduo.Connection.Sound.{stream}
use mu_muduo.Connection.Events.{ends, Event, next_state, block, Admits, event_step-Follows}
use mu_muduo.Connection.{Effect}
use mu_muduo.Connection.Calls.{close_calls}
use mu_muduo.Connection.Ends.{event_step-Calls}
use mu_muduo.Hub.{Stored, with_port, Hub, port_of, conn_event, remove_connections}
use mu_muduo.Hub.Queue.{
  AllFound-insert, mem, queued, AllFound-queued, mem-queued_here, mem-queued_there,
}
use mu_muduo.Hub.Apart.{HubInv, find_lem, settle-AllSound}
use mu_muduo.Hub.Views.{
  Action, acts, opens, tears_down, View, view, view_of, view_step, after_event,
}

pub some_inj {ℓ} : {A : Type ℓ} {x y : A} → some x ≡ some y → x ≡ y
some_inj h = cc

view_own :
    (o a : ℕ) (e : Event) (v : View)
    → (a == o) ≡ true
    → view_step o (acts a e) (some v) ≡ some (after_event e v)
unfolding view_step
view_own o a e v here = rw here refl

pub view_other :
    (o a : ℕ) (e : Event) (v : Option View) → (a == o) ≡ false → view_step o (acts a e) v ≡ v
unfolding view_step
view_other o a e none ne = refl
view_other o a e (some v) ne = rw ne refl

-- One call of the close callback, or none.
remove_connections_lem :
    (o : ℕ) (b : Bool) (before after : List Effect)
    → close_calls after ≡ close_calls before + (if b then 1 else 0)
    → remove_connections o before after ≡ queued b o
unfolding remove_connections
remove_connections_lem o b before after h = rw (h, differ (close_calls before) b) (by_call b)
  where
    differ : (n : ℕ) (b : Bool) → n + (if b then 1 else 0) - n ≡ (if b then 1 else 0)
    differ n true = omega arith
    differ n false = omega arith

    by_call : (b : Bool) → replicate (if b then 1 else 0) o ≡ queued b o
    by_call true = refl
    by_call false = refl

module _ (ep : Epoll) (room : (k : ep.Kernel) (fd : ℕ) → ep.Room k fd) (err_of : SocketError) where
  -- The call returns a sound hub, in which each object has made its step.
  abbrev pub Steps : Action → Hub ep → Outcome (Hub ep) → Type 0
  Steps act h out =
      (h' : Hub ep) × (out ≡ ok h')
      × HubInv ep room h'
      × ((o : ℕ) → view o h' ≡ view_step o act (view o h))

  -- The same, where every channel stays.
  abbrev pub Grows : Action → Hub ep → Outcome (Hub ep) → Type 0
  Grows act h out =
      (h' : Hub ep) × (out ≡ ok h')
      × HubInv ep room h'
      × ((o : ℕ) → view o h' ≡ view_step o act (view o h))
      × ((b : ℕ) → Live ep h.reactor b → Live ep h'.reactor b)

  -- `acts`: the object is there, and the event is one that its buffers and its socket admit;
  -- `opens`: the object's address and the descriptor are new.
  abbrev pub ActionAdmits : Action → Hub ep → Type 0
  ActionAdmits (acts o e) h =
      (c : Stored) × (lookup o h.conns ≡ some c)
      × Admits (port_of ep room o h.reactor) err_of e (with_port h.reactor c)
  ActionAdmits (opens o fd) h = (lookup o h.conns ≡ none) × IsFree ep o fd h.reactor
  ActionAdmits tears_down h = Unit {0}

  -- A channel that was there stays.
  pub still :
      (s s' : State ep) (a : ℕ) (d : Channel)
      → lookup a s'.heap ≡ some d
      → ((b : ℕ) → (a == b) ≡ false → lookup b s'.heap ≡ lookup b s.heap)
      → (b : ℕ) → Live ep s b
      → Live ep s' b
  still s s' a d found others b (c, l) = elim (Bool-cases (a == b)) [
    | inl e ↦ (d, ap (λ n. lookup n s'.heap) (sym ((==_iff a b).0 e)) ∙ found)
    | inr e ↦ (c, others b e ∙ l)
  ]

  module _ (h : Hub ep) (i : HubInv ep room h) where
    pub conn_event-Grows :
        (o : ℕ) (e : Event)
        → ActionAdmits (acts o e) h
        → Grows (acts o e) h (conn_event ep room err_of o e h)
    unfolding conn_event view
    conn_event-Grows o e (c, l, a) =
        let so = i.sound.0 o c l in
        let (c', r', w', done, so', st, grown) =
          event_step-Follows (port_of ep room o h.reactor) err_of so.reads so.writes
            (with_port h.reactor c) so.sound e a in
        let x = with_port tt c' in
        let there : (d : Channel) × (lookup o h.reactor.heap ≡ some d) =
          (so.sound.interest.channel, so.sound.interest.found) in
        (
          record {
            reactor = c'.port;
            conns = insert o x h.conns;
            notifies = h.notifies;
            doomed = h.doomed ++ queued (ends e) o;
          },
          rw
              (
                find_lem ep room o h l,
                done,
                remove_connections_lem o (ends e) c.trace c'.trace (
                    event_step-Calls (port_of ep room o h.reactor) err_of so.reads so.writes
                      (with_port h.reactor c) so.sound e a c' done),
              )
              refl,
          record {
            inv = so'.interest.inv;
            sound =
                settle-AllSound ep room o h c' so' so.mine there (λ b d ne lb. i.sound.0 b d lb)
                  (λ b d ne lb. i.sound.1 b d lb);
            waiting =
                AllFound-queued h.doomed o (ends e) (insert o x h.conns)
                  (AllFound-insert h.doomed o x h.conns i.waiting)
                  (x, lookup-insert o o x h.conns ∙ rw ((==_iff o o).1 refl) refl);
          },
          λ b. elim (Bool-cases (o == b)) [
            | inl here ↦ seen_here b x here st grown
            | inr away ↦ seen_there b x away
          ],
          still h.reactor c'.port o so'.interest.channel so'.interest.found so'.interest.others,
        )
      where
        seen : Stored → ℕ → View
        seen c b = record { state = c.state; stream = stream c; ending = mem b h.doomed }

        seen_here :
            (b : ℕ) (x : Stored)
            → (o == b) ≡ true
            → x.state ≡ next_state e c.state
            → stream x ≡ stream c ++ block e c.state
            → view_of (lookup b (insert o x h.conns)) (mem b (h.doomed ++ queued (ends e) o))
              ≡ view_step b (acts o e) (view_of (lookup b h.conns) (mem b h.doomed))
        seen_here b x here st grown =
            let at : lookup b h.conns ≡ some c =
              ap (λ n. lookup n h.conns) (sym ((==_iff o b).0 here)) ∙ l in
            rw
              (
                lookup-insert o b x h.conns,
                here,
                at,
                view_own b o e (seen c b) here,
                mem-queued_here b o (ends e) h.doomed here,
                st,
                grown,
              )
              refl

        seen_there :
            (b : ℕ) (x : Stored)
            → (o == b) ≡ false
            → view_of (lookup b (insert o x h.conns)) (mem b (h.doomed ++ queued (ends e) o))
              ≡ view_step b (acts o e) (view_of (lookup b h.conns) (mem b h.doomed))
        seen_there b x away =
            rw
              (
                view_other b o e (view_of (lookup b h.conns) (mem b h.doomed)) away,
                lookup-insert o b x h.conns,
                away,
                mem-queued_there b o (ends e) h.doomed away,
              )
              refl
