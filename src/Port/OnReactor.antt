-- ===== src/Port/OnReactor.antt =====
-- The reactor as the port of a connection: the channel at one address, on a consistent reactor.
use mu_muduo.Common.{
  ℕ, ◌≡◌, refl, sym, ap, ◌∙◌, Bool, true, false, Option, some, lookup, nat_eq, lookup-insert,
  ==_iff, Outcome, ok, ◌>>=◌, value_known, ◌==◌,
}
use mu_muduo.Channel.{
  Channel, set_index, set_tie, read_on, write_on, write_off, all_off, is_writing, shape,
}
use mu_muduo.Channel.Events.{Waits, events_tests, events_changes}
use mu_muduo.Reactor.{
  Epoll, State, EpollEvent, load, put, change, k_new, remove_channel, enable_reading,
  enable_writing, disable_writing, disable_all,
}
use mu_muduo.Reactor.Registry.{Agrees, is_new, is_added, is_deleted, entry_of, known_as}
use mu_muduo.Reactor.Update.{Rewritten, Forgets, load_lem, remove_channel-Settles}
use mu_muduo.Reactor.Invariant.{Inv, Rewritten-Inv, Agrees-Tracked}
use mu_muduo.Reactor.Change.{change-Holds}
use mu_muduo.Port.{Port}

-- Two channels found at one place are one.
pub shape_found : {m : Option Channel} (c d : Channel) → m ≡ some c → m ≡ some d → shape c ≡ shape d
shape_found c d e f = let same : some c ≡ some d = sym e ∙ f in ap shape (some_inj same)
  where
    some_inj : some c ≡ some d → c ≡ d
    some_inj e = cc

module _ (ep : Epoll) (room : (k : ep.Kernel) (fd : ℕ) → ep.Room k fd) (a owner : ℕ)
    (s₀ : State ep) where
  -- The channel at `a` waits for just these, and the reactor is consistent; since `s₀` the channel
  -- has kept its shape, and every other channel is as it was.
  pub record Holds (r w : Bool) (s : State ep) : Type 0 where
    pub channel : Channel
    pub found : lookup a s.heap ≡ some channel
    pub waits : Waits r w channel
    pub inv : Inv ep s
    pub own : (d : Channel) → lookup a s₀.heap ≡ some d → shape channel ≡ shape d
    pub others : (b : ℕ) → (a == b) ≡ false → lookup b s.heap ≡ lookup b s₀.heap

  pub channel_is_writing : State ep → Outcome Bool
  channel_is_writing s = do c ← load a s; ok (is_writing c)

  -- `tie(shared_from_this())`
  pub tie_channel : State ep → Outcome (State ep)
  tie_channel s = do c ← load a s; ok (put a (set_tie owner c) s)

  pub channel_is_writing_lem :
      (r w : Bool) (s : State ep) → Holds r w s → channel_is_writing s ≡ ok w
  unfolding channel_is_writing
  channel_is_writing_lem r w s h =
      rw (load_lem ep a s h.found, (events_tests r w h.channel h.waits).1)

  change_lem :
      (f : Channel → Channel) (r w r' w' : Bool) (s : State ep) (h : Holds r w s)
      → (f h.channel).fd ≡ h.channel.fd
      → (f h.channel).index ≡ h.channel.index
      → Waits r' w' (f h.channel)
      → shape (f h.channel) ≡ shape h.channel
      → (s' : State ep) × (change ep f a s ≡ ok s') × Holds r' w' s'
  unfolding set_index shape
  change_lem f r w r' w' s h same_fd same_index m same =
      let (s', e, inv, here, rest) =
        change-Holds ep f a s h.inv h.found same_fd same_index (room s.kernel (f h.channel).fd) in
      (
        s',
        e,
        record {
          channel = _;
          found = here;
          waits = m;
          inv = inv;
          own = λ d l. same ∙ h.own d l;
          others = λ b ne. rest b ne ∙ h.others b ne;
        },
      )

  pub reads :
      (r w : Bool) (s : State ep)
      → Holds r w s
      → (s' : State ep) × (enable_reading ep a s ≡ ok s') × Holds true w s'
  unfolding enable_reading read_on shape
  reads r w s h =
      change_lem read_on r w true w s h refl refl (events_changes r w h.channel h.waits).0 refl

  pub writes :
      (r w : Bool) (s : State ep)
      → Holds r w s
      → (s' : State ep) × (enable_writing ep a s ≡ ok s') × Holds r true s'
  unfolding enable_writing write_on shape
  writes r w s h =
      change_lem write_on r w r true s h refl refl (events_changes r w h.channel h.waits).2 refl

  pub stops_writing :
      (r w : Bool) (s : State ep)
      → Holds r w s
      → (s' : State ep) × (disable_writing ep a s ≡ ok s') × Holds r false s'
  unfolding disable_writing write_off shape
  stops_writing r w s h =
      change_lem write_off r w r false s h refl refl (events_changes r w h.channel h.waits).3 refl

  pub stops :
      (r w : Bool) (s : State ep)
      → Holds r w s
      → (s' : State ep) × (disable_all ep a s ≡ ok s') × Holds false false s'
  unfolding disable_all all_off shape
  stops r w s h =
      change_lem all_off r w false false s h refl refl (events_changes r w h.channel h.waits).4 refl

  Agrees-tie :
      (c : Channel) {n : Option EpollEvent} {m : Option ℕ}
      → Agrees a c n m
      → Agrees a (set_tie owner c) n m
  unfolding set_tie
  Agrees-tie c (is_new i n m) = is_new i n m
  Agrees-tie c (is_added i n m) = is_added i n m
  Agrees-tie c (is_deleted i n m) = is_deleted i n m

  pub ties :
      (r w : Bool) (s : State ep)
      → Holds r w s
      → (s' : State ep) × (tie_channel s ≡ ok s') × Holds r w s'
  unfolding tie_channel set_tie shape
  ties r w s h = (
    put a (set_tie owner c) s,
    rw (load_lem ep a s h.found),
    record {
      channel = set_tie owner c;
      found = rw (lookup-insert a a (set_tie owner c) s.heap, (==_iff a a).1 refl);
      waits = h.waits;
      inv =
          Rewritten-Inv ep h.inv h.found refl rewritten
            (Agrees-tie c (h.inv.consistent a c h.found));
      own = h.own;
      others = λ b ne. lookup-insert a b (set_tie owner c) s.heap ∙ rw ne (h.others b ne);
    },
  )
    where
      c : Channel
      c = h.channel

      rewritten :
          Rewritten ep s a
            (set_tie owner c)
            (entry_of ep s c.fd)
            (known_as ep s c.fd)
            (put a (set_tie owner c) s)
      rewritten = record {
        heap_at = λ b. lookup-insert a b (set_tie owner c) s.heap;
        entry_at = λ g. value_known (entry_of ep s) c.fd g (entry_of ep s c.fd) refl;
        known_at = λ g. value_known (known_as ep s) c.fd g (known_as ep s c.fd) refl;
      }

  pub removes :
      (r w : Bool) (s : State ep)
      → Holds r w s
      → (s' : State ep) × (remove_channel ep a s ≡ ok s') × Holds r w s'
  unfolding set_index shape
  removes r w s h =
      go
        (remove_channel-Settles ep a c s h.found (Agrees-Tracked ep (h.inv.consistent a c h.found)))
    where
      c : Channel
      c = h.channel

      go :
          Forgets ep s a c (remove_channel ep a s)
          → (s' : State ep) × (remove_channel ep a s ≡ ok s') × Holds r w s'
      go (s', e, w') = (
        s',
        e,
        record {
          channel = set_index k_new c;
          found = w'.heap_at a ∙ rw ((==_iff a a).1 refl);
          waits = h.waits;
          inv = Rewritten-Inv ep h.inv h.found refl w' (is_new refl refl refl);
          own = h.own;
          others = λ b ne. w'.heap_at b ∙ rw ne (h.others b ne);
        },
      )

  -- A removed channel is a new one again.
  pub removes-index :
      (r w : Bool) (s s' : State ep)
      → Holds r w s
      → remove_channel ep a s ≡ ok s'
      → (d : Channel) → lookup a s'.heap ≡ some d
      → d.index ≡ k_new
  unfolding set_index
  removes-index r w s s' h e d l =
      let (s'', e', w') =
        remove_channel-Settles ep a h.channel s h.found
          (Agrees-Tracked ep (h.inv.consistent a h.channel h.found)) in
      let now : lookup a s'.heap ≡ some (set_index k_new h.channel) =
        ap (λ x. lookup a x.heap) (same_state (sym e ∙ e'))
        ∙ w'.heap_at a
        ∙ rw ((==_iff a a).1 refl) refl in
      ap (λ x. x.index) (one (sym now ∙ l))
    where
      one : {c d : Channel} → some c ≡ some d → d ≡ c
      one h = cc

      same_state : {x y : State ep} → Outcome.ok x ≡ ok y → x ≡ y
      same_state h = cc

  -- The reactor keeps what the port promises.
  abbrev pub reactor_port : Port (State ep)
  reactor_port = record {
    is_writing = channel_is_writing;
    enable_reading = enable_reading ep a;
    enable_writing = enable_writing ep a;
    disable_writing = disable_writing ep a;
    disable_all = disable_all ep a;
    tie = tie_channel;
    remove = remove_channel ep a;
    Interest = Holds;
    is_writing_lem = channel_is_writing_lem;
    reads = reads;
    writes = writes;
    stops_writing = stops_writing;
    stops = stops;
    ties = ties;
    removes = removes;
  }
