-- ===== src/Reactor/Change.antt =====
-- The five functions of Channel.h as one: a change of the mask, then `updateChannel`.
use mu_muduo.Common.{
  ℕ, ◌≡◌, refl, sym, subst, ◌∙◌, Option, none, some, lookup, nat_eq, lookup-insert, ==_iff, ok,
  arith, ◌==◌, false,
}
use mu_muduo.Channel.{Channel, set_index}
use mu_muduo.Reactor.{Epoll, State, EpollEvent, k_added, k_deleted, put, change}
use mu_muduo.Reactor.Registry.{Agrees, Tracked, is_new, is_added, is_deleted, entry_of, known_as}
use mu_muduo.Reactor.Update.{Rewritten, Settles, next_index, load_lem, update_channel-Settles}
use mu_muduo.Reactor.Invariant.{
  Inv, Keeps, Agrees-Tracked, Tracked-events, Rewritten-Inv, Rewritten-Live,
}

Agrees-added :
    {a : ℕ} {c : Channel} {n : Option EpollEvent} {m : Option ℕ}
    → Agrees a c n m
    → c.index ≡ k_added
    → n ≡ some (record { events = c.events; ptr = a })
Agrees-added (is_new i n m) e = ground arith
Agrees-added (is_added i n m) e = n
Agrees-added (is_deleted i n m) e = ground arith

Agrees-deleted :
    {a : ℕ} {c : Channel} {n : Option EpollEvent} {m : Option ℕ}
    → Agrees a c n m
    → c.index ≡ k_deleted
    → n ≡ none
Agrees-deleted (is_new i n m) e = n
Agrees-deleted (is_added i n m) e = ground arith
Agrees-deleted (is_deleted i n m) e = n

module _ (ep : Epoll) where
  module _ (f : Channel → Channel) (a : ℕ) (s : State ep) {c : Channel} (inv : Inv ep s)
      (l : lookup a s.heap ≡ some c) (same_fd : (f c).fd ≡ c.fd)
      (same_index : (f c).index ≡ c.index) (room : ep.Room s.kernel (f c).fd) where
    changed : State ep
    changed = put a (f c) s

    change-Settles : Settles ep changed a (f c) (next_index (f c)) (change ep f a s)
    unfolding changed
    change-Settles =
        rw (load_lem ep a s l) (update_channel-Settles ep a (f c) changed here tracked room)
      where
        here : lookup a changed.heap ≡ some (f c)
        here = rw (lookup-insert a a (f c) s.heap, (==_iff a a).1 refl)

        tracked : Tracked a (f c) (entry_of ep changed (f c).fd) (known_as ep changed (f c).fd)
        tracked =
            subst (λ g. Tracked a (f c) (entry_of ep s g) (known_as ep s g)) (sym same_fd)
              (Tracked-events ep c (f c) same_index (Agrees-Tracked ep (inv.consistent a c l)))

    -- The entry of the descriptor afterwards follows from the new index.
    pub change-entry :
        (s' : State ep) × (change ep f a s ≡ ok s')
        × (next_index (f c) ≡ k_added
            → entry_of ep s' (f c).fd ≡ some (record { events = (f c).events; ptr = a }))
        × (next_index (f c) ≡ k_deleted → entry_of ep s' (f c).fd ≡ none)
    unfolding set_index
    change-entry = go change-Settles
      where
        go :
            Settles ep changed a (f c) (next_index (f c)) (change ep f a s)
            → (s' : State ep) × (change ep f a s ≡ ok s')
              × (next_index (f c) ≡ k_added
                  → entry_of ep s' (f c).fd ≡ some (record { events = (f c).events; ptr = a }))
              × (next_index (f c) ≡ k_deleted → entry_of ep s' (f c).fd ≡ none)
        go (s', entry, known, e, w, agrees) = (
          s',
          e,
          λ i. rw (w.entry_at (f c).fd, (==_iff (f c).fd (f c).fd).1 refl) (Agrees-added agrees i),
          λ i.
              rw (w.entry_at (f c).fd, (==_iff (f c).fd (f c).fd).1 refl) (Agrees-deleted agrees i),
        )

    pub change-Keeps : Keeps ep s (change ep f a s)
    unfolding changed set_index
    change-Keeps = go change-Settles
      where
        go :
            Settles ep changed a (f c) (next_index (f c)) (change ep f a s)
            → Keeps ep s (change ep f a s)
        go (s', entry, known, e, w, agrees) =
            let w' : Rewritten ep s a (set_index (next_index (f c)) (f c)) entry known s' = record {
              heap_at = λ b. ground (arith, w.heap_at b, lookup-insert a b (f c) s.heap);
              entry_at = w.entry_at;
              known_at = w.known_at;
            } in
            (
              s',
              e,
              Rewritten-Inv ep inv l same_fd w' agrees,
              Rewritten-Live ep inv l same_fd w' agrees,
            )

    -- The channel itself afterwards, and the other channels.
    pub change-Holds :
        (s' : State ep) × (change ep f a s ≡ ok s')
        × Inv ep s'
        × (lookup a s'.heap ≡ some (set_index (next_index (f c)) (f c)))
        × ((b : ℕ) → (a == b) ≡ false → lookup b s'.heap ≡ lookup b s.heap)
    unfolding changed set_index
    change-Holds = go change-Settles
      where
        go :
            Settles ep changed a (f c) (next_index (f c)) (change ep f a s)
            → (s' : State ep) × (change ep f a s ≡ ok s')
              × Inv ep s'
              × (lookup a s'.heap ≡ some (set_index (next_index (f c)) (f c)))
              × ((b : ℕ) → (a == b) ≡ false → lookup b s'.heap ≡ lookup b s.heap)
        go (s', entry, known, e, w, agrees) =
            let w' : Rewritten ep s a (set_index (next_index (f c)) (f c)) entry known s' = record {
              heap_at = λ b. ground (arith, w.heap_at b, lookup-insert a b (f c) s.heap);
              entry_at = w.entry_at;
              known_at = w.known_at;
            } in
            (
              s',
              e,
              Rewritten-Inv ep inv l same_fd w' agrees,
              w.heap_at a ∙ rw ((==_iff a a).1 refl),
              λ b ne. w'.heap_at b ∙ rw ne refl,
            )
