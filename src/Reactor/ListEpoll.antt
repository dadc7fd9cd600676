-- ===== src/Reactor/ListEpoll.antt =====
-- An epoll that keeps its interest list in a dictionary, as an instance of the interface, and small
-- reactors on it for the tests.
use mu_muduo.Common.{
  ℕ, ◌≡◌, refl, sym, ap, ◌∙◌, ==_iff, false, [], ◌∷◌, Option, none, some, lookup, insert, erase,
  nat_eq, lookup-insert, lookup-erase, arith, Dict,
}
use mu_muduo.Channel.{Channel, make_channel}
use mu_muduo.Channel.Events.{Waits}
use mu_muduo.Reactor.{Epoll, State, EpollEvent, CtlOp, ctl_add, ctl_mod, ctl_del, Sets, k_added}
use mu_muduo.Reactor.Registry.{is_added}
use mu_muduo.Reactor.Invariant.{Inv}

abbrev pub Entries : Type 0
Entries = Dict ℕ EpollEvent

abbrev pub listed : Entries → ℕ → Option EpollEvent
listed k fd = lookup fd k

-- EEXIST and ENOENT are the failures.
abbrev pub list_ctl : CtlOp → ℕ → EpollEvent → Entries → Option Entries
list_ctl ctl_add fd e k = elim (lookup fd k) [ none ↦ some (insert fd e k) | some _ ↦ none ]
list_ctl ctl_mod fd e k = elim (lookup fd k) [ none ↦ none | some _ ↦ some (insert fd e k) ]
list_ctl ctl_del fd e k = elim (lookup fd k) [ none ↦ none | some _ ↦ some (erase fd k) ]

pub list_adds :
    (k : Entries) (fd : ℕ) (e : EpollEvent)
    → Unit {0}
    → listed k fd ≡ none
    → Sets listed fd (some e) k (list_ctl ctl_add fd e k)
list_adds k fd e u h = (insert fd e k, rw (h, list_ctl), λ g. lookup-insert fd g e k)

pub list_modifies :
    (k : Entries) (fd : ℕ) (e old : EpollEvent)
    → listed k fd ≡ some old
    → Sets listed fd (some e) k (list_ctl ctl_mod fd e k)
list_modifies k fd e old h = (insert fd e k, rw (h, list_ctl), λ g. lookup-insert fd g e k)

pub list_deletes :
    (k : Entries) (fd : ℕ) (e old : EpollEvent)
    → listed k fd ≡ some old
    → Sets listed fd none k (list_ctl ctl_del fd e k)
list_deletes k fd e old h = (erase fd k, rw (h, list_ctl), λ g. lookup-erase fd g k)

abbrev pub list_epoll : Epoll
list_epoll = record {
  Kernel = Entries;
  ctl = list_ctl;
  registered = listed;
  Room = λ k fd. Unit {0};
  adds = list_adds;
  modifies = list_modifies;
  deletes = list_deletes;
}

-- One new channel, at address 40, for descriptor 7.
abbrev pub one_channel : State list_epoll
one_channel = record {
  heap = (40, make_channel 7) ∷ [];
  channels = [];
  event_list_size = 16;
  kernel = [];
}

no_event : (n : EpollEvent) → none ≡ some n → ⊥
no_event n h = cc

no_address : (a : ℕ) → none ≡ some a → ⊥
no_address a h = cc

pub one_channel-Inv : Inv list_epoll one_channel
unfolding lookup make_channel
one_channel-Inv = record {
  consistent = λ a c h. ground arith;
  distinct = λ a b c d h h' e. ground arith;
  owned = λ fd n h. absurd (no_event n h);
  pointed = λ fd a h. absurd (no_address a h);
}

pub one_channel-found : lookup 40 one_channel.heap ≡ some (make_channel 7)
unfolding lookup
one_channel-found = refl

pub one_channel-idle : Waits false false (make_channel 7)
unfolding make_channel
one_channel-idle = refl

-- One channel alone, as the poller and the kernel know it once it is added.
abbrev pub one_added : ℕ → Channel → State list_epoll
one_added a c = record {
  heap = (a, c) ∷ [];
  channels = (c.fd, a) ∷ [];
  event_list_size = 16;
  kernel = (c.fd, record { events = c.events; ptr = a }) ∷ [];
}

pub only {ℓ} :
    {A : Type ℓ} (k a : ℕ) (x y : A) → lookup a ((k, x) ∷ []) ≡ some y → (y ≡ x) × (a ≡ k)
unfolding lookup
only k a x y h = ground arith

pub lookup_only {ℓ} : {A : Type ℓ} (k : ℕ) (x : A) → lookup k ((k, x) ∷ []) ≡ some x
unfolding lookup
lookup_only k x = rw ((==_iff k k).1 refl) refl

pub one_added-Inv : (k : ℕ) (x : Channel) → x.index ≡ k_added → Inv list_epoll (one_added k x)
one_added-Inv k x added = record {
  consistent = λ a c h.
      let (same, here) = only k a x c h in
      rw (same, here) (is_added added (lookup_only x.fd _) (lookup_only x.fd k));
  distinct = λ a b c d h h' e. (only k a x c h).1 ∙ sym (only k b x d h').1;
  owned = λ fd n h.
      let (same, here) = only x.fd fd (record { events = x.events; ptr = k }) n h in
      rw (ap (λ e. e.ptr) same, here) (x, lookup_only k x, refl);
  pointed =
      λ fd a h. let (same, here) = only x.fd fd k a h in rw (same, here) (x, lookup_only k x, refl);
}

-- The same channel, waiting to write.
abbrev pub busy_channel : Channel
busy_channel = record (make_channel 7) { events = 4; index = k_added }

abbrev pub one_busy : State list_epoll
one_busy = record {
  heap = (40, busy_channel) ∷ [];
  channels = (7, 40) ∷ [];
  event_list_size = 16;
  kernel = (7, record { events = 4; ptr = 40 }) ∷ [];
}

pub one_busy-Inv : Inv list_epoll one_busy
unfolding make_channel
one_busy-Inv = one_added-Inv 40 busy_channel refl

pub one_busy-found : lookup 40 one_busy.heap ≡ some busy_channel
unfolding lookup
one_busy-found = refl
