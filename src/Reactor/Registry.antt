-- ===== src/Reactor/Registry.antt =====
-- What the three index values of a channel promise about the poller's map and the kernel.
use mu_muduo.Common.{ℕ, ◌≡◌, Option, none, some, lookup, nat_eq}
use mu_muduo.Channel.{Channel}
use mu_muduo.Reactor.{Epoll, State, EpollEvent, k_new, k_added, k_deleted}

-- `entry` is what the kernel holds for the descriptor, `known` what `channels_` maps it to. A new
-- channel is in neither, an added one in both with its current events, a deleted one in the map only.
pub data Agrees (a : ℕ) (c : Channel) (entry : Option EpollEvent) (known : Option ℕ) : Type 0 where
  is_new : c.index ≡ k_new → entry ≡ none → known ≡ none → Agrees a c entry known
  is_added :
      c.index ≡ k_added
      → entry ≡ some (record { events = c.events; ptr = a })
      → known ≡ some a
      → Agrees a c entry known
  is_deleted : c.index ≡ k_deleted → entry ≡ none → known ≡ some a → Agrees a c entry known

-- The same while `events_` has changed and the kernel has not been told.
pub data Tracked (a : ℕ) (c : Channel) (entry : Option EpollEvent) (known : Option ℕ) : Type 0 where
  was_new : c.index ≡ k_new → entry ≡ none → known ≡ none → Tracked a c entry known
  was_added :
      (e : EpollEvent)
      → c.index ≡ k_added
      → entry ≡ some e
      → known ≡ some a
      → Tracked a c entry known
  was_deleted : c.index ≡ k_deleted → entry ≡ none → known ≡ some a → Tracked a c entry known

module _ (ep : Epoll) where
  abbrev pub entry_of : State ep → ℕ → Option EpollEvent
  entry_of s fd = ep.registered s.kernel fd

  abbrev pub known_as : State ep → ℕ → Option ℕ
  known_as s fd = lookup fd s.channels

  -- Every channel on the heap agrees with the poller and the kernel.
  abbrev pub Consistent : State ep → Type 0
  Consistent s =
      (a : ℕ) (c : Channel)
      → lookup a s.heap ≡ some c
      → Agrees a c (entry_of s c.fd) (known_as s c.fd)

  -- No two channels on the heap share a descriptor.
  abbrev pub Distinct : State ep → Type 0
  Distinct s =
      (a b : ℕ) (c d : Channel)
      → lookup a s.heap ≡ some c
      → lookup b s.heap ≡ some d
      → c.fd ≡ d.fd
      → a ≡ b

  -- What the kernel watches belongs to a channel on the heap.
  abbrev pub Owned : State ep → Type 0
  Owned s =
      (fd : ℕ) (n : EpollEvent)
      → entry_of s fd ≡ some n
      → (c : Channel) × (lookup n.ptr s.heap ≡ some c) × (c.fd ≡ fd)

  -- What `channels_` maps a descriptor to is a channel on the heap, for that descriptor.
  abbrev pub Pointed : State ep → Type 0
  Pointed s =
      (fd a : ℕ) → known_as s fd ≡ some a → (c : Channel) × (lookup a s.heap ≡ some c) × (c.fd ≡ fd)
