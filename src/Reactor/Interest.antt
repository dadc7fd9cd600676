-- ===== src/Reactor/Interest.antt =====
-- What the kernel watches for after a change of a channel's mask.
use mu_muduo.Common.{
  ℕ, ◌≡◌, refl, ap, ◌∙◌, Bool, true, false, none, some, lookup, nat_eq, Outcome, ok, arith, not,
  ◌||◌, ◌⊎◌, inl, inr,
}
use mu_muduo.Channel.{Channel, read_on, write_on, all_off, is_none_event}
use mu_muduo.Channel.Events.{Waits, mask_of, events_tests, events_changes}
use mu_muduo.Reactor.{
  Epoll, State, k_new, k_added, k_deleted, enable_reading, enable_writing, disable_all, change,
}
use mu_muduo.Reactor.Registry.{entry_of}
use mu_muduo.Reactor.Update.{next_index}
use mu_muduo.Reactor.Invariant.{Inv}
use mu_muduo.Reactor.Change.{change-entry}

-- A mask that is not empty makes the channel added.
next_index_busy : (c : Channel) → is_none_event c ≡ false → next_index c ≡ k_added
next_index_busy c h = ground arith

-- The call returns, and the kernel watches `fd` for the channel at `a` with this mask.
abbrev pub Watches : (ep : Epoll) → ℕ → ℕ → Bool → Bool → Outcome (State ep) → Type 0
Watches ep a fd r w out =
    (s' : State ep) × (out ≡ ok s')
    × (entry_of ep s' fd ≡ some (record { events = mask_of r w; ptr = a }))

module _ (ep : Epoll) (a : ℕ) (s : State ep) {c : Channel} (r w : Bool) (inv : Inv ep s)
    (l : lookup a s.heap ≡ some c) (e : Waits r w c) (room : ep.Room s.kernel c.fd) where
  watch :
      (f : Channel → Channel) (r' w' : Bool)
      → (f c).fd ≡ c.fd
      → (f c).index ≡ c.index
      → Waits r' w' (f c)
      → (r' || w') ≡ true
      → Watches ep a c.fd r' w' (change ep f a s)
  watch f r' w' same_fd same_index m busy =
      let (s', done, adds, deletes) =
        change-entry ep f a s inv l same_fd same_index (rw same_fd room) in
      (
        s',
        done,
        rw (← same_fd, ← m)
            (adds (next_index_busy (f c) ((events_tests r' w' (f c) m).2 ∙ ap not busy))),
      )

  -- On a live channel of a reactor that satisfies the invariant, with room in the kernel,
  -- `enableReading` and `enableWriting` return, and the kernel then watches the descriptor for
  -- what is enabled, and for the other of reading and writing as before.
  pub enable-Watches :
      Watches ep a c.fd true w (enable_reading ep a s)
      × Watches ep a c.fd r true (enable_writing ep a s)
  unfolding enable_reading enable_writing read_on write_on
  enable-Watches = (
    watch read_on true w refl refl (events_changes r w c e).0 refl,
    watch write_on r true refl refl (events_changes r w c e).2 (or_true r),
  )
    where
      or_true : (b : Bool) → (b || true) ≡ true
      or_true true = refl
      or_true false = refl

module _ (ep : Epoll) (a : ℕ) (s : State ep) {c : Channel} (inv : Inv ep s)
    (l : lookup a s.heap ≡ some c) (room : ep.Room s.kernel c.fd) where
  -- On an added channel of a reactor that satisfies the invariant, `disableAll` returns, and the
  -- descriptor is out of the kernel's list.
  pub disable_all-added :
      c.index ≡ k_added
      → (s' : State ep) × (disable_all ep a s ≡ ok s') × (entry_of ep s' c.fd ≡ none)
  unfolding disable_all all_off is_none_event
  disable_all-added i =
      let (s', done, adds, deletes) = change-entry ep all_off a s inv l refl refl room in
      (s', done, deletes gone)
    where
      gone : next_index (all_off c) ≡ k_deleted
      gone = rw i

  -- On a channel that is new or was deleted, of a reactor that satisfies the invariant, with room
  -- in the kernel, `disableAll` returns, and the descriptor is in the kernel's list with an empty
  -- mask.
  pub disable_all-not_added :
      (c.index ≡ k_new) ⊎ (c.index ≡ k_deleted)
      → (s' : State ep) × (disable_all ep a s ≡ ok s')
        × (entry_of ep s' c.fd ≡ some (record { events = 0; ptr = a }))
  unfolding disable_all all_off is_none_event
  disable_all-not_added h =
      let (s', done, adds, deletes) = change-entry ep all_off a s inv l refl refl room in
      (s', done, adds (back h))
    where
      back : (c.index ≡ k_new) ⊎ (c.index ≡ k_deleted) → next_index (all_off c) ≡ k_added
      back (inl i) = rw i
      back (inr i) = rw i
