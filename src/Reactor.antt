-- ===== src/Reactor.antt =====
-- Poller.h, Poller.cc, EPollPoller.cc and the calls of Channel.h that go through the loop to the
-- poller. Channels live on a heap and are named by their addresses; epoll is an interface.
pub mod Registry
pub mod Update
pub mod Invariant
pub mod Change
pub mod Interest
pub mod Poll
pub mod Marks
pub mod History
pub mod Lifetime
pub mod ListEpoll
mod Tests
use mu_muduo.Common.{
  ℕ, ◌+◌, ◌*◌, ◌%◌, ◌^◌, ◌≡◌, Bool, true, false, ◌||◌, List, [], ◌∷◌, ◌++◌, Option, none, some, ℤ,
  pos, negsuc, ◌==ℤ◌, ◌==◌, if◌then◌else◌, Dict, lookup, insert, erase, nat_eq, Outcome, ok, err,
  Fault, dangling, exited, ◌>>=◌, length,
}
use mu_muduo.Channel.{
  Channel, set_index, set_revents, is_none_event, read_on, read_off, write_on, write_off, all_off,
}

abbrev pub k_new : ℤ
k_new = negsuc 0

abbrev pub k_added : ℤ
k_added = pos 1

abbrev pub k_deleted : ℤ
k_deleted = pos 2

-- KInitEventListSize
abbrev pub init_event_list_size : ℕ
init_event_list_size = 16

pub data CtlOp : Type 0 where
  ctl_add ctl_mod ctl_del : CtlOp

-- The fields of `epoll_event` that the program sets: `ptr` overwrites `fd` in the union.
pub record EpollEvent : Type 0 where
  pub events : ℕ
  pub ptr : ℕ

-- What `epoll_ctl` leaves behind when it changes the entry of `fd`.
abbrev pub Sets {ℓ} :
    {Kernel : Type ℓ}
    → (Kernel → ℕ → Option EpollEvent)
    → ℕ
    → Option EpollEvent
    → Kernel
    → Option Kernel
    → Type ℓ
Sets registered fd entry k r =
    (k' : _) × (r ≡ some k')
    × ((g : ℕ) → registered k' g ≡ (if fd == g then entry else registered k g))

-- The kernel's interest list, as epoll_ctl(2) documents it. `ctl` is `none` where the call returns
-- -1. `Room` says that the descriptor is open and that there is memory and a watch left for it.
pub record Epoll : Type 1 where
  pub Kernel : Type 0
  pub ctl : CtlOp → ℕ → EpollEvent → Kernel → Option Kernel
  pub registered : Kernel → ℕ → Option EpollEvent
  pub Room : Kernel → ℕ → Type 0
  pub adds :
      (k : Kernel) (fd : ℕ) (e : EpollEvent)
      → Room k fd
      → registered k fd ≡ none
      → Sets registered fd (some e) k (ctl ctl_add fd e k)
  pub modifies :
      (k : Kernel) (fd : ℕ) (e old : EpollEvent)
      → registered k fd ≡ some old
      → Sets registered fd (some e) k (ctl ctl_mod fd e k)
  pub deletes :
      (k : Kernel) (fd : ℕ) (e old : EpollEvent)
      → registered k fd ≡ some old
      → Sets registered fd none k (ctl ctl_del fd e k)

-- `channels` is `channels_`, from descriptor to address; `event_list_size` is `events_.size()`.
pub record Reactor (Kernel : Type 0) : Type 0 where
  pub heap : Dict ℕ Channel
  pub channels : Dict ℕ ℕ
  pub event_list_size : ℕ
  pub kernel : Kernel

module _ {Kernel : Type 0} where
  unfoldable pub load : ℕ → Reactor Kernel → Outcome Channel
  load a s = elim (lookup a s.heap) [ none ↦ err dangling | some c ↦ ok c ]

  abbrev pub put : ℕ → Channel → Reactor Kernel → Reactor Kernel
  put a c s = record s { heap = insert a c s.heap }

  -- A failed EPOLL_CTL_DEL is logged only, any other failure ends the program.
  abbrev pub ctl_result : CtlOp → Reactor Kernel → Option Kernel → Outcome (Reactor Kernel)
  ctl_result op s (some k) = ok (record s { kernel = k })
  ctl_result ctl_del s none = ok s
  ctl_result ctl_add s none = err exited
  ctl_result ctl_mod s none = err exited

  pub has_channel : ℕ → Reactor Kernel → Outcome Bool
  unfolding load
  has_channel a s = do
    c ← load a s
    ok (elim (lookup c.fd s.channels) [ none ↦ false | some p ↦ p == a ])

  -- A channel object comes into being at an address, and goes.
  abbrev pub free_channel : ℕ → Reactor Kernel → Reactor Kernel
  free_channel a s = record s { heap = erase a s.heap }

  -- The constructor of EPollPoller: `epoll_create1` gives an empty interest list or fails, which is
  -- LOG_FATAL; `events_` has room for KInitEventListSize events.
  unfoldable pub make_poller : Option Kernel → Outcome (Reactor Kernel)
  make_poller none = err exited
  make_poller (some k) =
      ok (record { heap = []; channels = []; event_list_size = init_event_list_size; kernel = k })

module _ (ep : Epoll) where
  abbrev pub State : Type 0
  State = Reactor ep.Kernel

  abbrev pub update : CtlOp → ℕ → Channel → State → Outcome State
  update op a c s =
      ctl_result op s (ep.ctl op c.fd (record { events = c.events; ptr = a }) s.kernel)

  -- `updateChannel` once the pointer is followed.
  update_loaded : ℕ → Channel → State → Outcome State
  unfolding set_index is_none_event
  update_loaded a c s =
      if (c.index ==ℤ k_new) || (c.index ==ℤ k_deleted)
      then (let known : State =
            if c.index ==ℤ k_new then record s { channels = insert c.fd a s.channels } else s in
          update ctl_add a c (put a (set_index k_added c) known))
      else if is_none_event c
      then update ctl_del a c (put a (set_index k_deleted c) s)
      else update ctl_mod a c s

  pub update_channel : ℕ → State → Outcome State
  unfolding load update_loaded
  update_channel a s = do c ← load a s; update_loaded a c s

  pub remove_channel : ℕ → State → Outcome State
  unfolding load set_index
  remove_channel a s = do
    c ← load a s
    let forgotten = record s { channels = erase c.fd s.channels }
    s' ← if c.index ==ℤ k_added then update ctl_del a c forgotten else ok forgotten
    ok (put a (set_index k_new c) s')

  -- The five functions of Channel.h: change `events_`, then `update()`.
  abbrev pub change : (Channel → Channel) → ℕ → State → Outcome State
  change f a s = do c ← load a s; update_channel a (put a (f c) s)

  unfoldable pub enable_reading : ℕ → State → Outcome State
  enable_reading = change read_on

  unfoldable pub disable_reading : ℕ → State → Outcome State
  disable_reading = change read_off

  unfoldable pub enable_writing : ℕ → State → Outcome State
  enable_writing = change write_on

  unfoldable pub disable_writing : ℕ → State → Outcome State
  disable_writing = change write_off

  unfoldable pub disable_all : ℕ → State → Outcome State
  disable_all = change all_off

-- What `epoll_wait` returns: the filled part of `events_`, or -1 with this `errno`.
pub data Waited : Type 0 where
  ready : List EpollEvent → Waited
  wait_failed : ℕ → Waited

module _ {Kernel : Type 0} where
  -- Each event is noted on its channel, and the channel joins the active ones.
  pub fill_active_channels :
      List EpollEvent → List ℕ → Reactor Kernel → Outcome (List ℕ × Reactor Kernel)
  unfolding load set_revents
  fill_active_channels [] active s = ok (active, s)
  fill_active_channels (e ∷ es) active s = do
    c ← load e.ptr s
    fill_active_channels es (active ++ e.ptr ∷ []) (put e.ptr (set_revents e.events c) s)

  -- A full list is doubled for the next round.
  pub enlarge : ℕ → Reactor Kernel → Reactor Kernel
  enlarge n s =
      if n == s.event_list_size
      then record s { event_list_size = 2 * s.event_list_size % 2 ^ 64 }
      else s

  -- A timeout and an error leave everything as it is.
  pub poll : Waited → List ℕ → Reactor Kernel → Outcome (List ℕ × Reactor Kernel)
  unfolding fill_active_channels enlarge
  poll (wait_failed errno) active s = ok (active, s)
  poll (ready []) active s = ok (active, s)
  poll (ready (e ∷ es)) active s = do
    (active', s') ← fill_active_channels (e ∷ es) active s
    ok (active', enlarge (length (e ∷ es)) s')
