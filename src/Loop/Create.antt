-- ===== src/Loop/Create.antt =====
-- The constructor of EventLoop with its poller, the destructor, and DefaultPoller.cc: how the wakeup
-- descriptor gets into the poller and out of it. What the system calls return is an argument.
use mu_muduo.Common.{
  ℕ, ◌≡◌, refl, ◌∙◌, sym, ap, subst, Bool, true, false, Option, none, some, lookup, nat_eq, ==_iff,
  lookup-insert, Outcome, ok, err, exited, dangling, ◌>>=◌, if◌then◌else◌,
}
use mu_muduo.Channel.{Channel, make_channel, loop_read, read_on, all_off, set_index}
use mu_muduo.Channel.Events.{mask_of}
use mu_muduo.Reactor.{
  Epoll, State, put, free_channel, make_poller, enable_reading, disable_all, remove_channel,
}
use mu_muduo.Reactor.Registry.{entry_of}
use mu_muduo.Reactor.Invariant.{Inv}
use mu_muduo.Reactor.Change.{change-Holds}
use mu_muduo.Reactor.Interest.{enable-Watches}
use mu_muduo.Reactor.Lifetime.{IsFree, make_poller-Inv, put-Inv, remove_channel-IsFree}

pub create_eventfd : Option ℕ → Outcome ℕ
create_eventfd none = err exited
create_eventfd (some fd) = ok fd

module _ (ep : Epoll) where
  -- `poll_wanted` tells whether MUDUO_US_POLL is set: then the pointer is null.
  pub new_deafult_poller : Bool → Option ep.Kernel → Outcome (Option (State ep))
  new_deafult_poller true epollfd = ok none
  new_deafult_poller false epollfd = do s ← make_poller epollfd; ok (some s)

  -- `setReadCallBack` on the channel that was made.
  abbrev pub wakeup_channel : ℕ → ℕ → Channel
  wakeup_channel a fd = record (make_channel fd) { read_callback = some (loop_read a) }

  -- The end of the constructor: `updateChannel` goes through the pointer `poller_`.
  pub enable_wakeup : ℕ → ℕ → Option (State ep) → Outcome (State ep)
  enable_wakeup a fd none = err dangling
  enable_wakeup a fd (some s) = enable_reading ep a (put a (wakeup_channel a fd) s)

  -- A loop with its poller; `has_loop` is `t_loopInThisThread`, as far as it is not null, and
  -- `wakeup_open` tells that the eventfd is not closed.
  pub record Parts : Type 0 where
    pub poller : State ep
    pub has_loop : Bool
    pub wakeup_open : Bool

  -- `second` tells whether the thread has a loop already; `a` is the address of the wakeup channel.
  pub make_event_loop : Bool → Bool → Option ep.Kernel → Option ℕ → ℕ → Outcome Parts
  unfolding enable_wakeup create_eventfd
  make_event_loop poll_wanted second epollfd eventfd a = do
    poller ← new_deafult_poller poll_wanted epollfd
    fd ← create_eventfd eventfd
    s ← if second then err exited else enable_wakeup a fd poller
    ok (record { poller = s; has_loop = true; wakeup_open = true })

  -- The destructor; the channel object ends with it.
  pub destroy_event_loop : ℕ → Parts → Outcome Parts
  destroy_event_loop a p = do
    s ← disable_all ep a p.poller
    s' ← remove_channel ep a s
    ok (record { poller = free_channel a s'; has_loop = false; wakeup_open = false })

  -- The process ends without an epoll or an eventfd descriptor and in a thread that has a loop; with
  -- poll(2) wanted the constructor goes through a null pointer.
  constructor_fails :
      (e : Option ep.Kernel) (fd : Option ℕ) (n a : ℕ) (k : ep.Kernel) (second : Bool)
      → (make_event_loop false second none fd a ≡ err exited)
        × (make_event_loop false second (some k) none a ≡ err exited)
        × (make_event_loop false true (some k) (some n) a ≡ err exited)
        × (make_event_loop true false e (some n) a ≡ err dangling)
  unfolding make_event_loop new_deafult_poller enable_wakeup create_eventfd make_poller
  constructor_fails e fd n a k second = (refl, refl, refl, refl)

  -- The poller is sound, and its wakeup channel at `a` is live, for the descriptor.
  abbrev HasWakeup : ℕ → ℕ → State ep → Type 0
  HasWakeup a fd s = Inv ep s × (c : Channel) × (lookup a s.heap ≡ some c) × (c.fd ≡ fd)

  module _ (k : ep.Kernel) (fd a : ℕ) (empty : (g : ℕ) → ep.registered k g ≡ none) where
    -- What `make_poller` leaves takes the new channel.
    put-HasWakeup :
        (s : State ep) × (make_poller (some k) ≡ ok s)
        × Inv ep (put a (wakeup_channel a fd) s)
        × (lookup a (put a (wakeup_channel a fd) s).heap ≡ some (wakeup_channel a fd))
        × (s.kernel ≡ k)
    unfolding lookup make_channel
    put-HasWakeup =
        let (s, e, inv, h, m, same) = make_poller-Inv ep k empty in
        let free : IsFree ep a fd s = record {
          address = ap (λ x. lookup a x) h;
          descriptor = λ b d l same_fd. nothing (sym (ap (λ x. lookup b x) h) ∙ l);
          entry = ap (λ x. ep.registered x fd) same ∙ empty fd;
          unknown = ap (λ x. lookup fd x) m;
        } in
        (
          s,
          e,
          put-Inv ep a (wakeup_channel a fd) s inv free refl,
          lookup-insert a a (wakeup_channel a fd) s.heap ∙ rw ((==_iff a a).1 refl) refl,
          same,
        )
      where
        nothing : {d : Channel} → none ≡ some d → ⊥
        nothing l = cc

    -- With no wish for poll(2), no other loop in the thread, an epoll instance whose list is empty,
    -- and a descriptor that the kernel has room for, the constructor returns, the thread has a
    -- loop, and the kernel watches the wakeup descriptor for reading, for the wakeup channel.
    pub make_event_loop_lem :
        ep.Room k fd
        → (p : Parts) × (make_event_loop false false (some k) (some fd) a ≡ ok p)
          × (p.has_loop ≡ true)
          × (entry_of ep p.poller fd ≡ some (record { events = mask_of true false; ptr = a }))
    unfolding make_event_loop new_deafult_poller enable_wakeup create_eventfd make_channel
    make_event_loop_lem room =
        let (s, e, inv, l, same) = put-HasWakeup in
        let (s', done, watched) =
          (enable-Watches ep a (put a (wakeup_channel a fd) s) {c = wakeup_channel a fd} false false
            inv l refl (subst (λ x. ep.Room x fd) (sym same) room)).0 in
        (
          record { poller = s'; has_loop = true; wakeup_open = true },
          rw (e, done) refl,
          refl,
          watched,
        )

    make_event_loop-HasWakeup :
        ep.Room k fd
        → (p : Parts) × (make_event_loop false false (some k) (some fd) a ≡ ok p)
          × HasWakeup a fd p.poller
    unfolding make_event_loop new_deafult_poller enable_wakeup create_eventfd make_channel
        enable_reading read_on set_index
    make_event_loop-HasWakeup room =
        let (s, e, inv, l, same) = put-HasWakeup in
        let (s', done, inv', l', others) =
          change-Holds ep read_on a (put a (wakeup_channel a fd) s) inv l refl refl
            (subst (λ x. ep.Room x fd) (sym same) room) in
        (
          record { poller = s'; has_loop = true; wakeup_open = true },
          rw (e, done) refl,
          (inv', _, l', refl),
        )

  -- The destructor returns, and nothing is left of the wakeup channel.
  destroy_event_loop_lem :
      {a fd : ℕ} (p : Parts)
      → ((k : ep.Kernel) → ep.Room k fd)
      → HasWakeup a fd p.poller
      → (p' : Parts) × (destroy_event_loop a p ≡ ok p')
        × Inv ep p'.poller
        × IsFree ep a fd p'.poller
        × (p'.has_loop ≡ false)
  unfolding destroy_event_loop disable_all all_off set_index
  destroy_event_loop_lem {a} p room (inv, c, l, same) =
      let (s', e, inv', l', others) =
        change-Holds ep all_off a p.poller inv l refl refl (rw same (room p.poller.kernel)) in
      let (s'', e', inv'', free) = remove_channel-IsFree ep a s' inv' l' in
      (
        record { poller = free_channel a s''; has_loop = false; wakeup_open = false },
        rw (e, e') refl,
        inv'',
        rw (← same) free,
        refl,
      )

  -- With no wish for poll(2), no other loop in the thread, an epoll instance whose list is empty, and
  -- a descriptor that every kernel has room for, the constructor returns; the destructor run on
  -- what it returned returns too, and leaves a reactor that satisfies the invariant, in which
  -- the wakeup descriptor and the address of its channel are free for the poller and for the kernel;
  -- and the thread has no loop.
  pub make_event_loop-destroy :
      (k : ep.Kernel) (fd a : ℕ)
      → ((g : ℕ) → ep.registered k g ≡ none)
      → ((k' : ep.Kernel) → ep.Room k' fd)
      → (p : Parts) × (make_event_loop false false (some k) (some fd) a ≡ ok p)
        × (p' : Parts) × (destroy_event_loop a p ≡ ok p')
        × Inv ep p'.poller
        × IsFree ep a fd p'.poller
        × (p'.has_loop ≡ false)
  make_event_loop-destroy k fd a empty room =
      let (s, e, has) = make_event_loop-HasWakeup k fd a empty (room k) in
      let (s', e', inv, free, gone) = destroy_event_loop_lem s room has in
      (s, e, s', e', inv, free, gone)
