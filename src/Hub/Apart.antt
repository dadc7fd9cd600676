-- ===== src/Hub/Apart.antt =====
-- The invariant of the hub, and a change of one connection beside the others.
use mu_muduo.Common.{
  ℕ, ◌≡◌, refl, sym, ap, ◌⊎◌, Option, none, ◌∙◌, Bool, true, false, some, lookup, nat_eq,
  lookup-insert, ◌==◌, ==_iff, Bool-cases, ok, inl, inr,
}
use mu_muduo.Channel.{
  Channel, shape, Handler, loop_read, accept_read, conn_read, conn_write, conn_close, conn_error,
}
use mu_muduo.Reactor.{Epoll, State}
use mu_muduo.Reactor.Invariant.{Inv}
use mu_muduo.Port.OnReactor.{Holds, shape_found}
use mu_muduo.Connection.{Connection}
use mu_muduo.Connection.Sound.{Sound}
use mu_muduo.Hub.Queue.{Found, AllFound, Found-insert}
use mu_muduo.Hub.{Stored, with_port, conn_channel, Hub, port_of, find, settle}

-- Not a callback into a connection.
abbrev pub no_conn : Option Handler → Bool
no_conn none = true
no_conn (some (loop_read a)) = true
no_conn (some (accept_read a)) = true
no_conn (some (conn_read o)) = false
no_conn (some (conn_write o)) = false
no_conn (some (conn_close o)) = false
no_conn (some (conn_error o)) = false

-- The channel of the wakeup descriptor, or of an acceptor.
abbrev pub IsForeign : Channel → Type 0
IsForeign d =
    (no_conn d.read_callback ≡ true)
    × (no_conn d.write_callback ≡ true)
    × (no_conn d.close_callback ≡ true)
    × (no_conn d.error_callback ≡ true)

module _ (ep : Epoll) (room : (k : ep.Kernel) (fd : ℕ) → ep.Room k fd) where
  -- The connection is sound on this reactor, and its channel has the callbacks of its constructor.
  pub record IsSound (o : ℕ) (s : State ep) (c : Stored) : Type 0 where
    pub reads : Bool
    pub writes : Bool
    pub sound : Sound (port_of ep room o s) reads writes (with_port s c)
    pub mine : (d : Channel) → lookup o s.heap ≡ some d → shape d ≡ shape (conn_channel o d.fd)

  -- The connections are sound, and each channel belongs to one that is there, or calls into none.
  abbrev pub AllSound : Hub ep → Type 0
  AllSound h =
      ((o : ℕ) (c : Stored) → lookup o h.conns ≡ some c → IsSound o h.reactor c)
      × ((a : ℕ) (d : Channel) → lookup a h.reactor.heap ≡ some d → Found a h.conns ⊎ IsForeign d)

  -- The reactor is consistent, the connections are sound on it, each channel belongs to one of them or
  -- calls into none, and an object whose `connectDestroyed` is queued is there.
  pub record HubInv (h : Hub ep) : Type 0 where
    pub inv : Inv ep h.reactor
    pub sound : AllSound h
    pub waiting : AllFound h.doomed h.conns

  pub find_lem :
      (o : ℕ) (h : Hub ep) {c : Stored} → lookup o h.conns ≡ some c → find ep room o h ≡ ok c
  unfolding find
  find_lem o h l = rw (l, find) refl

  -- The channel as it is now, for the channel as it was at some time before.
  pub rebase :
      {o : ℕ} {r w : Bool} {s₀ s : State ep}
      → Holds ep room o o s₀ r w s
      → Holds ep room o o s r w s
  rebase {o} {r} {w} {s₀} {s} h = record {
    channel = h.channel;
    found = h.found;
    waits = h.waits;
    inv = h.inv;
    own = λ d l. shape_found h.channel d h.found l;
    others = λ b ne. refl;
  }

  module _ (a : ℕ) {s s' : State ep} (inv : Inv ep s')
      (others : (b : ℕ) → (a == b) ≡ false → lookup b s'.heap ≡ lookup b s.heap) where
    -- Another channel's port does not see the difference.
    carried :
        {b : ℕ} {x y : Bool}
        → (a == b) ≡ false
        → Holds ep room b b s x y s
        → Holds ep room b b s' x y s'
    carried {b} ne h = record {
      channel = h.channel;
      found = others b ne ∙ h.found;
      waits = h.waits;
      inv = inv;
      own = λ d l. shape_found h.channel d (others b ne ∙ h.found) l;
      others = λ b' ne'. refl;
    }

    pub IsSound-apart : (b : ℕ) (c : Stored) → (a == b) ≡ false → IsSound b s c → IsSound b s' c
    IsSound-apart b c ne so = record {
      reads = so.reads;
      writes = so.writes;
      sound = record {
        input_valid = so.sound.input_valid;
        output_valid = so.sound.output_valid;
        interest = carried ne so.sound.interest;
        armed = so.sound.armed;
      };
      mine = λ d l. so.mine d (sym (others b ne) ∙ l);
    }

  module _ (a : ℕ) (h : Hub ep) {r w : Bool} (c' : Connection (State ep))
      (so : Sound (port_of ep room a h.reactor) r w c')
      (shaped : (d : Channel)
        → lookup a h.reactor.heap ≡ some d
        → shape d ≡ shape (conn_channel a d.fd))
      (there : (c : Channel) × (lookup a h.reactor.heap ≡ some c)) where
    -- The connection that moved, on the reactor that it left.
    settled-IsSound : IsSound a c'.port (with_port tt c')
    unfolding shape conn_channel
    settled-IsSound =
        let (c, l) = there in
        record {
          reads = r;
          writes = w;
          sound = record {
            input_valid = so.input_valid;
            output_valid = so.output_valid;
            interest = rebase so.interest;
            armed = so.armed;
          };
          mine = λ d l'.
              let same : shape d ≡ shape c =
                shape_found d so.interest.channel l' so.interest.found ∙ so.interest.own c l in
              same ∙ shaped c l ∙ ap (λ n. shape (conn_channel a n)) (sym (ap (λ x. x.fd) same));
        }

    pub settle-AllSound :
        ((b : ℕ) (c : Stored)
          → (a == b) ≡ false
          → lookup b h.conns ≡ some c
          → IsSound b h.reactor c)
        → ((b : ℕ) (d : Channel)
            → (a == b) ≡ false
            → lookup b h.reactor.heap ≡ some d
            → Found b h.conns ⊎ IsForeign d)
        → AllSound (settle ep room a c' h)
    settle-AllSound rest bound = (
      λ b c l. elim (Bool-cases (a == b)) [
        | inl e ↦ moved b c l e
        | inr e ↦
            IsSound-apart a so.interest.inv so.interest.others b c e
              (rest b c e (sym (lookup-insert a b (with_port tt c') h.conns ∙ rw e refl) ∙ l))
      ],
      λ b d l. elim (Bool-cases (a == b)) [
        | inl e ↦ inl (with_port tt c', lookup-insert a b (with_port tt c') h.conns ∙ rw e refl)
        | inr e ↦ left b d e (bound b d e (sym (so.interest.others b e) ∙ l))
      ],
    )
      where
        one : {x y : Stored} → some x ≡ some y → x ≡ y
        one h = cc

        moved :
            (b : ℕ) (c : Stored)
            → lookup b (settle ep room a c' h).conns ≡ some c
            → (a == b) ≡ true
            → IsSound b c'.port c
        moved b c l e =
            let i = (==_iff a b).0 e in
            let now : lookup b (settle ep room a c' h).conns ≡ some (with_port tt c') =
              lookup-insert a b (with_port tt c') h.conns ∙ rw e refl in
            rw (← i, one (sym l ∙ now)) settled-IsSound

        left :
            (b : ℕ) (d : Channel)
            → (a == b) ≡ false
            → Found b h.conns ⊎ IsForeign d
            → Found b (settle ep room a c' h).conns ⊎ IsForeign d
        left b d e (inl f) = inl (Found-insert a b (with_port tt c') h.conns f)
        left b d e (inr f) = inr f
