-- ===== src/Reactor/Update.antt =====
-- `updateChannel` and `removeChannel` one call at a time: they do not end the program, and what they
-- leave in the heap, the map and the kernel.
use mu_muduo.Common.{
  ℕ, ◌≡◌, refl, inl, inr, Option, none, some, lookup, insert, erase, nat_eq, lookup-insert,
  lookup-erase, value_known, ap, ◌∙◌, if◌then◌else◌, ◌==◌, ◌==ℤ◌, Outcome, ok, ◌>>=◌, ℤ, Bool-cases,
  ◌||◌,
}
use mu_muduo.Channel.{Channel, is_none_event, set_index}
use mu_muduo.Reactor.{
  Epoll, State, EpollEvent, ctl_add, ctl_mod, ctl_del, Sets, k_new, k_added, k_deleted, load, put,
  update, update_loaded, update_channel, remove_channel,
}
use mu_muduo.Reactor.Registry.{
  Agrees, is_added, is_deleted, Tracked, was_new, was_added, was_deleted, entry_of, known_as,
}

-- A channel with an empty mask is deleted, unless it was not added: then it is added all the same.
abbrev pub next_index : Channel → ℤ
next_index c =
    if (c.index ==ℤ k_new) || (c.index ==ℤ k_deleted)
    then k_added
    else if is_none_event c
    then k_deleted
    else k_added

module _ (ep : Epoll) where
  -- The state after a call that gives channel `a` the value `c'`, its descriptor the kernel entry
  -- `entry` and the map entry `known`, and leaves all other channels and descriptors alone.
  pub record Rewritten (s : State ep) (a : ℕ) (c' : Channel) (entry : Option EpollEvent)
      (known : Option ℕ) (s' : State ep) : Type 0 where
    pub heap_at : (b : ℕ) → lookup b s'.heap ≡ (if a == b then some c' else lookup b s.heap)
    pub entry_at : (g : ℕ) → entry_of ep s' g ≡ (if c'.fd == g then entry else entry_of ep s g)
    pub known_at : (g : ℕ) → known_as ep s' g ≡ (if c'.fd == g then known else known_as ep s g)

  -- The call returns, in such a state, with index `i` for the channel, which agrees with its
  -- surroundings.
  abbrev pub Settles : State ep → ℕ → Channel → ℤ → Outcome (State ep) → Type 0
  Settles s a c i r =
      (s' : State ep) × (entry : Option EpollEvent) × (known : Option ℕ) × (r ≡ ok s')
      × Rewritten s a (set_index i c) entry known s'
      × Agrees a (set_index i c) entry known

  pub load_lem : (a : ℕ) (s : State ep) {c : Channel} → lookup a s.heap ≡ some c → load a s ≡ ok c
  unfolding load
  load_lem a s e = rw (e, load)

  -- The three successful paths.
  settle_add :
      (a : ℕ) (c : Channel) (s known : State ep)
      → known.heap ≡ s.heap
      → known.kernel ≡ s.kernel
      → ((g : ℕ) → known_as ep known g ≡ (if c.fd == g then some a else known_as ep s g))
      → Sets ep.registered c.fd
          (some (record { events = c.events; ptr = a }))
          s.kernel
          (ep.ctl ctl_add c.fd (record { events = c.events; ptr = a }) s.kernel)
      → Settles s a c k_added (update ep ctl_add a c (put a (set_index k_added c) known))
  unfolding set_index
  settle_add a c s known h k m (k', e, at) = (
    record known { heap = insert a (record c { index = k_added }) known.heap; kernel = k' },
    some (record { events = c.events; ptr = a }),
    some a,
    rw (k, e),
    record {
      heap_at = λ b. rw (lookup-insert a b (record c { index = k_added }) known.heap, h);
      entry_at = at;
      known_at = m;
    },
    is_added refl refl refl,
  )

  settle_mod :
      (a : ℕ) (c : Channel) (s : State ep)
      → c.index ≡ k_added
      → known_as ep s c.fd ≡ some a
      → lookup a s.heap ≡ some c
      → Sets ep.registered c.fd
          (some (record { events = c.events; ptr = a }))
          s.kernel
          (ep.ctl ctl_mod c.fd (record { events = c.events; ptr = a }) s.kernel)
      → Settles s a c k_added (update ep ctl_mod a c s)
  unfolding set_index
  settle_mod a c s i m l (k', e, at) = (
    record s { kernel = k' },
    some (record { events = c.events; ptr = a }),
    some a,
    rw e,
    record {
      heap_at = λ b.
          value_known (λ b. lookup b s.heap) a b (some (record c { index = k_added }))
            (l ∙ ap (λ j. some (record c { index = j })) i);
      entry_at = at;
      known_at = λ g. value_known (known_as ep s) c.fd g (some a) m;
    },
    is_added refl refl refl,
  )

  settle_del :
      (a : ℕ) (c : Channel) (s : State ep)
      → known_as ep s c.fd ≡ some a
      → Sets ep.registered c.fd none s.kernel
          (ep.ctl ctl_del c.fd (record { events = c.events; ptr = a }) s.kernel)
      → Settles s a c k_deleted (update ep ctl_del a c (put a (set_index k_deleted c) s))
  unfolding set_index
  settle_del a c s m (k', e, at) = (
    record s { heap = insert a (record c { index = k_deleted }) s.heap; kernel = k' },
    none,
    some a,
    rw e,
    record {
      heap_at = λ b. lookup-insert a b (record c { index = k_deleted }) s.heap;
      entry_at = at;
      known_at = λ g. value_known (known_as ep s) c.fd g (some a) m;
    },
    is_deleted refl refl refl,
  )

  -- `updateChannel` on a channel that the poller tracks returns, whatever mask it has, and the
  -- channel agrees with its surroundings afterwards.
  pub update_channel-Settles :
      (a : ℕ) (c : Channel) (s : State ep)
      → lookup a s.heap ≡ some c
      → Tracked a c (entry_of ep s c.fd) (known_as ep s c.fd)
      → ep.Room s.kernel c.fd
      → Settles s a c (next_index c) (update_channel ep a s)
  unfolding update_channel update_loaded
  update_channel-Settles a c s l (was_new i n m) room =
      rw (load_lem a s l, i)
        (settle_add a c s (record s { channels = insert c.fd a s.channels }) refl refl
          (λ g. lookup-insert c.fd g a s.channels)
          (ep.adds s.kernel c.fd (record { events = c.events; ptr = a }) room n))
  update_channel-Settles a c s l (was_added old i n m) room = elim (Bool-cases (is_none_event c)) [
    | inl idle ↦
        rw (load_lem a s l, i, idle)
          (settle_del a c s m
            (ep.deletes s.kernel c.fd (record { events = c.events; ptr = a }) old n))
    | inr busy ↦
        rw (load_lem a s l, i, busy)
          (settle_mod a c s i m l
            (ep.modifies s.kernel c.fd (record { events = c.events; ptr = a }) old n))
  ]
  update_channel-Settles a c s l (was_deleted i n m) room =
      rw (load_lem a s l, i)
        (settle_add a c s s refl refl (λ g. value_known (known_as ep s) c.fd g (some a) m)
          (ep.adds s.kernel c.fd (record { events = c.events; ptr = a }) room n))

  abbrev pub Forgets : State ep → ℕ → Channel → Outcome (State ep) → Type 0
  Forgets s a c r = (s' : State ep) × (r ≡ ok s') × Rewritten s a (set_index k_new c) none none s'

  forget_unlisted :
      (a : ℕ) (c : Channel) (s : State ep)
      → entry_of ep s c.fd ≡ none
      → Forgets s a c
          (ok (put a (set_index k_new c) (record s { channels = erase c.fd s.channels })))
  unfolding set_index
  forget_unlisted a c s n = (
    _,
    refl,
    record {
      heap_at = λ b. lookup-insert a b (record c { index = k_new }) s.heap;
      entry_at = λ g. value_known (entry_of ep s) c.fd g none n;
      known_at = λ g. lookup-erase c.fd g s.channels;
    },
  )

  forget_listed :
      (a : ℕ) (c : Channel) (s : State ep)
      → Sets ep.registered c.fd none s.kernel
          (ep.ctl ctl_del c.fd (record { events = c.events; ptr = a }) s.kernel)
      → Forgets s a c (
          update ep ctl_del a c (record s { channels = erase c.fd s.channels }) >>= λ s'.
          ok (put a (set_index k_new c) s'))
  unfolding set_index
  forget_listed a c s (k', e, at) = (
    record s {
      heap = insert a (record c { index = k_new }) s.heap;
      channels = erase c.fd s.channels;
      kernel = k';
    },
    rw e,
    record {
      heap_at = λ b. lookup-insert a b (record c { index = k_new }) s.heap;
      entry_at = at;
      known_at = λ g. lookup-erase c.fd g s.channels;
    },
  )

  -- `removeChannel` on a channel that the poller tracks returns, and leaves the channel
  -- new, with no entry in the kernel and none in the map.
  pub remove_channel-Settles :
      (a : ℕ) (c : Channel) (s : State ep)
      → lookup a s.heap ≡ some c
      → Tracked a c (entry_of ep s c.fd) (known_as ep s c.fd)
      → Forgets s a c (remove_channel ep a s)
  unfolding remove_channel set_index
  remove_channel-Settles a c s l (was_new i n m) = rw (load_lem a s l, i) (forget_unlisted a c s n)
  remove_channel-Settles a c s l (was_added old i n m) =
      rw (load_lem a s l, i)
        (forget_listed a c s
          (ep.deletes s.kernel c.fd (record { events = c.events; ptr = a }) old n))
  remove_channel-Settles a c s l (was_deleted i n m) =
      rw (load_lem a s l, i) (forget_unlisted a c s n)
