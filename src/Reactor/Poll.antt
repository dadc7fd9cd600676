-- ===== src/Reactor/Poll.antt =====
-- `poll`: the channels that `epoll_wait` reports become the active list, in its order.
use mu_muduo.Common.{
  ℕ, ◌*◌, ◌^◌, ◌<◌, ◌≡◌, refl, sym, ap, ◌∙◌, inl, inr, List, [], ◌∷◌, ◌++◌, append_assoc,
  append-nil, map, Option, some, lookup, nat_eq, lookup-insert, value_known, if◌then◌else◌, ◌==◌,
  Outcome, ok, arith, Bool-cases, length,
}
use mu_muduo.Channel.{Channel, set_revents}
use mu_muduo.Reactor.{Epoll, State, EpollEvent, put, fill_active_channels, poll, enlarge, ready}
use mu_muduo.Reactor.Registry.{Agrees, is_new, is_added, is_deleted, entry_of, known_as}
use mu_muduo.Reactor.Update.{Rewritten, load_lem}
use mu_muduo.Reactor.Invariant.{Inv, Live, Rewritten-Inv, Rewritten-Live}

module _ (ep : Epoll) where
  abbrev pub AllReported : State ep → List EpollEvent → Type 0
  AllReported s [] = Unit
  AllReported s (e ∷ es) = Live ep s e.ptr × AllReported s es

  AllReported-mono :
      (s s' : State ep) (es : List EpollEvent)
      → ((b : ℕ) → Live ep s b → Live ep s' b)
      → AllReported s es
      → AllReported s' es
  AllReported-mono s s' [] f h = tt
  AllReported-mono s s' (e ∷ es) f (h, hs) = (f e.ptr h, AllReported-mono s s' es f hs)

  Agrees-revents :
      {a : ℕ} (r : ℕ) (c : Channel) {n : Option EpollEvent} {m : Option ℕ}
      → Agrees a c n m
      → Agrees a (set_revents r c) n m
  unfolding set_revents
  Agrees-revents r c (is_new i n m) = is_new i n m
  Agrees-revents r c (is_added i n m) = is_added i n m
  Agrees-revents r c (is_deleted i n m) = is_deleted i n m

  module _ (r a : ℕ) (s : State ep) {c : Channel} (inv : Inv ep s)
      (l : lookup a s.heap ≡ some c) where
    marked : State ep
    marked = put a (set_revents r c) s

    marked-Rewritten :
        Rewritten ep s a (set_revents r c) (entry_of ep s c.fd) (known_as ep s c.fd) marked
    unfolding marked set_revents
    marked-Rewritten = record {
      heap_at = λ b. lookup-insert a b (record c { revents = r }) s.heap;
      entry_at = λ g. value_known (entry_of ep s) c.fd g (entry_of ep s c.fd) refl;
      known_at = λ g. value_known (known_as ep s) c.fd g (known_as ep s c.fd) refl;
    }

    marked-Inv : Inv ep marked
    unfolding set_revents
    marked-Inv =
        Rewritten-Inv ep inv l refl marked-Rewritten (Agrees-revents r c (inv.consistent a c l))

    marked-Live : (b : ℕ) → Live ep s b → Live ep marked b
    unfolding set_revents
    marked-Live =
        Rewritten-Live ep inv l refl marked-Rewritten (Agrees-revents r c (inv.consistent a c l))

  abbrev pub Fills : List EpollEvent → List ℕ → State ep → Outcome (List ℕ × State ep) → Type 0
  Fills es active s r =
      (s' : State ep) × (r ≡ ok (active ++ map (λ e. e.ptr) es, s'))
      × Inv ep s'
      × ((b : ℕ) → Live ep s b → Live ep s' b)
      × (s'.event_list_size ≡ s.event_list_size)

  pub fill_active_channels-Fills :
      (es : List EpollEvent) (active : List ℕ) (s : State ep)
      → Inv ep s
      → AllReported s es
      → Fills es active s (fill_active_channels es active s)
  unfolding fill_active_channels marked
  fill_active_channels-Fills [] active s inv h =
      (s, ap (λ xs. ok (xs, s)) (sym (append-nil active)), inv, λ b l. l, refl)
  fill_active_channels-Fills (e ∷ es) active s inv ((c, l), hs) = rw (load_lem ep e.ptr s l) (
      go (
        fill_active_channels-Fills es (active ++ e.ptr ∷ []) (marked e.events e.ptr s inv l)
          (marked-Inv e.events e.ptr s inv l)
          (AllReported-mono s (marked e.events e.ptr s inv l) es
            (marked-Live e.events e.ptr s inv l) hs)))
    where
      go :
          Fills es
            (active ++ e.ptr ∷ [])
            (put e.ptr (set_revents e.events c) s)
            (fill_active_channels es (active ++ e.ptr ∷ []) (put e.ptr (set_revents e.events c) s))
          → Fills (e ∷ es) active s (
              fill_active_channels es (active ++ e.ptr ∷ []) (put e.ptr (set_revents e.events c) s))
      go (s', e', inv', live, size) = (
        s',
        e' ∙ ap (λ xs. ok (xs, s')) (append_assoc active (e.ptr ∷ []) (map (λ x. x.ptr) es)),
        inv',
        λ b lv. live b (marked-Live e.events e.ptr s inv l b lv),
        size,
      )

  enlarge-Inv : (n : ℕ) (s : State ep) → Inv ep s → Inv ep (enlarge n s)
  unfolding enlarge
  enlarge-Inv n s inv = elim (Bool-cases (n == s.event_list_size)) [
    | inl e ↦ rw e (record {
      consistent = inv.consistent;
      distinct = inv.distinct;
      owned = inv.owned;
      pointed = inv.pointed;
    })
    | inr e ↦ rw e inv
  ]

  enlarge-Live : (n : ℕ) (s : State ep) (b : ℕ) → Live ep s b → Live ep (enlarge n s) b
  unfolding enlarge
  enlarge-Live n s b (c, l) = (c, ground arith)

  enlarge-size :
      (n : ℕ) (s s₀ : State ep)
      → 2 * s₀.event_list_size < 2 ^ 64
      → s.event_list_size ≡ s₀.event_list_size
      → (enlarge n s).event_list_size
        ≡ (if n == s₀.event_list_size then 2 * s₀.event_list_size else s₀.event_list_size)
  unfolding enlarge
  enlarge-size n s s₀ small e = ground arith

  -- On a reactor that satisfies the invariant, when `epoll_wait` reports live channels and
  -- `events_` is not empty and can be doubled, `poll` returns just these channels in the order of
  -- the report; the invariant holds, every live channel stays live, and `events_` doubles exactly
  -- if it was full.
  pub poll_lem :
      (es : List EpollEvent) (s : State ep)
      → Inv ep s
      → AllReported s es
      → 0 < s.event_list_size
      → 2 * s.event_list_size < 2 ^ 64
      → (s' : State ep) × (poll (ready es) [] s ≡ ok (map (λ e. e.ptr) es, s'))
        × Inv ep s'
        × ((b : ℕ) → Live ep s b → Live ep s' b)
        × (s'.event_list_size
            ≡ (if length es == s.event_list_size then 2 * s.event_list_size else s.event_list_size))
  unfolding poll
  poll_lem [] s inv h pos small = (s, refl, inv, λ b l. l, ground arith)
  poll_lem (e ∷ es) s inv h pos small =
      let (s', e', inv', live, size) = fill_active_channels-Fills (e ∷ es) [] s inv h in
      (
        enlarge (length (e ∷ es)) s',
        rw e',
        enlarge-Inv _ s' inv',
        λ b l. enlarge-Live _ s' b (live b l),
        enlarge-size (length (e ∷ es)) s' s small size,
      )
