-- ===== src/Reactor/Lifetime.antt =====
-- Channel objects that come and go while the poller lives: a descriptor can be used again.
use mu_muduo.Common.{
  ℕ, ◌≡◌, ◌≢◌, refl, sym, ap, ◌∙◌, ◌⊎◌, inl, inr, true, false, none, some, lookup, nat_eq,
  lookup-insert, lookup-erase, ◌==◌, ==_iff, ok, arith, Bool-cases, [], no_bool,
}
use mu_muduo.Channel.{Channel, set_index}
use mu_muduo.Reactor.{
  Epoll, EpollEvent, State, k_new, put, free_channel, make_poller, remove_channel,
  init_event_list_size,
}
use mu_muduo.Reactor.Registry.{Agrees, is_new, entry_of, known_as}
use mu_muduo.Reactor.Update.{remove_channel-Settles, Forgets}
use mu_muduo.Reactor.Invariant.{Inv, Agrees-Tracked, Rewritten-Inv}

module _ (ep : Epoll) where
  -- The address and the descriptor are free.
  pub record IsFree (a fd : ℕ) (s : State ep) : Type 0 where
    pub address : lookup a s.heap ≡ none
    pub descriptor : (b : ℕ) (d : Channel) → lookup b s.heap ≡ some d → d.fd ≢ fd
    pub entry : entry_of ep s fd ≡ none
    pub unknown : known_as ep s fd ≡ none

  none_address : {a : ℕ} → none ≡ some a → ⊥
  none_address h = cc

  none_entry : {n : EpollEvent} → none ≡ some n → ⊥
  none_entry h = cc

  pub make_poller-Inv :
      (k : ep.Kernel)
      → ((fd : ℕ) → ep.registered k fd ≡ none)
      → (s : State ep) × (make_poller (some k) ≡ ok s)
        × Inv ep s
        × (s.heap ≡ [])
        × (s.channels ≡ [])
        × (s.kernel ≡ k)
  unfolding make_poller lookup
  make_poller-Inv k empty = (
    record { heap = []; channels = []; event_list_size = init_event_list_size; kernel = k },
    refl,
    record {
      consistent = λ a c h. absurd (none_some h);
      distinct = λ a b c d h h' e. absurd (none_some h);
      owned = λ fd n h. absurd (none_entry (sym (empty fd) ∙ h));
      pointed = λ fd a h. absurd (none_address h);
    },
    refl,
    refl,
    refl,
  )
    where
      none_some : {c : Channel} → none ≡ some c → ⊥
      none_some h = cc

  module _ (a : ℕ) (c : Channel) (s : State ep) (inv : Inv ep s) (free : IsFree a c.fd s)
      (new : c.index ≡ k_new) where
    born :
        (b : ℕ) (d : Channel)
        → lookup b (put a c s).heap ≡ some d
        → ((a ≡ b) × (d ≡ c)) ⊎ (lookup b s.heap ≡ some d)
    born b d h = elim (Bool-cases (a == b)) [
      | inl e ↦ inl ((==_iff a b).0 e, ground (arith, lookup-insert a b c s.heap))
      | inr e ↦ inr (ground (arith, lookup-insert a b c s.heap))
    ]

    -- A new channel object at a free address, for a free descriptor, keeps the invariant.
    pub put-Inv : Inv ep (put a c s)
    put-Inv = record {
      consistent = λ b d h. agree b d (born b d h);
      distinct = λ b b' d d' h h' e. apart b b' d d' e (born b d h) (born b' d' h');
      owned = λ fd n h. let (d, l, same) = inv.owned fd n h in (d, kept n.ptr d l, same);
      pointed = λ fd b h. let (d, l, same) = inv.pointed fd b h in (d, kept b d l, same);
    }
      where
        kept : (b : ℕ) (d : Channel) → lookup b s.heap ≡ some d → lookup b (put a c s).heap ≡ some d
        kept b d l = elim (Bool-cases (a == b)) [
          | inl e ↦
              absurd (nothing (sym free.address ∙ ap (λ x. lookup x s.heap) ((==_iff a b).0 e) ∙ l))
          | inr e ↦ lookup-insert a b c s.heap ∙ rw e l
        ]
          where
            nothing : none ≡ some d → ⊥
            nothing h = cc

        agree :
            (b : ℕ) (d : Channel)
            → ((a ≡ b) × (d ≡ c)) ⊎ (lookup b s.heap ≡ some d)
            → Agrees b d (entry_of ep s d.fd) (known_as ep s d.fd)
        agree b d (inl (same, e)) =
            is_new (ap (λ x. x.index) e ∙ new) (ap (λ x. entry_of ep s x.fd) e ∙ free.entry)
              (ap (λ x. known_as ep s x.fd) e ∙ free.unknown)
        agree b d (inr h) = inv.consistent b d h

        apart :
            (b b' : ℕ) (d d' : Channel)
            → d.fd ≡ d'.fd
            → ((a ≡ b) × (d ≡ c)) ⊎ (lookup b s.heap ≡ some d)
            → ((a ≡ b') × (d' ≡ c)) ⊎ (lookup b' s.heap ≡ some d')
            → b ≡ b'
        apart b b' d d' e (inl (i, u)) (inl (j, v)) = sym i ∙ j
        apart b b' d d' e (inl (i, u)) (inr h) =
            absurd (free.descriptor b' d' h (sym e ∙ ap (λ x. x.fd) u))
        apart b b' d d' e (inr h) (inl (j, v)) =
            absurd (free.descriptor b d h (e ∙ ap (λ x. x.fd) v))
        apart b b' d d' e (inr h) (inr h') = inv.distinct b b' d d' h h' e

  module _ (a : ℕ) (s : State ep) (inv : Inv ep s)
      (unlisted : (c : Channel) → lookup a s.heap ≡ some c → entry_of ep s c.fd ≡ none)
      (unknown : (c : Channel) → lookup a s.heap ≡ some c → known_as ep s c.fd ≡ none) where
    -- A channel of the heap that is left is another one.
    pub survivor :
        (b : ℕ) (d : Channel)
        → lookup b (free_channel a s).heap ≡ some d
        → ((a == b) ≡ false) × (lookup b s.heap ≡ some d)
    survivor b d h = elim (Bool-cases (a == b)) [
      | inl e ↦ absurd (none_some (sym (gone e) ∙ h))
      | inr e ↦ (e, sym (kept e) ∙ h)
    ]
      where
        none_some : none ≡ some d → ⊥
        none_some k = cc

        gone : (a == b) ≡ true → lookup b (free_channel a s).heap ≡ none
        gone e = lookup-erase a b s.heap ∙ rw e refl

        kept : (a == b) ≡ false → lookup b (free_channel a s).heap ≡ lookup b s.heap
        kept e = lookup-erase a b s.heap ∙ rw e refl

    -- What holds a descriptor that is not the channel's is another channel.
    elsewhere :
        (fd b : ℕ) (d : Channel)
        → lookup b s.heap ≡ some d
        → d.fd ≡ fd
        → ((c : Channel) → lookup a s.heap ≡ some c → c.fd ≢ fd)
        → (a == b) ≡ false
    elsewhere fd b d f same not_here = elim (Bool-cases (a == b)) [
      | inl e ↦ absurd (not_here d (ap (λ x. lookup x s.heap) ((==_iff a b).0 e) ∙ f) same)
      | inr e ↦ e
    ]

    entry_elsewhere :
        (fd : ℕ) (n : EpollEvent)
        → entry_of ep s fd ≡ some n
        → (c : Channel) → lookup a s.heap ≡ some c
        → c.fd ≢ fd
    entry_elsewhere fd n h c l e = none_entry (sym (unlisted c l) ∙ ap (entry_of ep s) e ∙ h)

    known_elsewhere :
        (fd b : ℕ)
        → known_as ep s fd ≡ some b
        → (c : Channel) → lookup a s.heap ≡ some c
        → c.fd ≢ fd
    known_elsewhere fd b h c l e = none_address (sym (unknown c l) ∙ ap (known_as ep s) e ∙ h)

    left :
        (fd b : ℕ) (d : Channel)
        → lookup b s.heap ≡ some d
        → (a == b) ≡ false
        → lookup b (free_channel a s).heap ≡ some d
    left fd b d f e = lookup-erase a b s.heap ∙ rw e f

    -- The end of a channel that the kernel does not watch.
    pub free_channel-Inv : Inv ep (free_channel a s)
    free_channel-Inv = record {
      consistent = λ b d h. inv.consistent b d (survivor b d h).1;
      distinct =
          λ b b' d d' h h' e. inv.distinct b b' d d' (survivor b d h).1 (survivor b' d' h').1 e;
      owned = λ fd n h.
          let (d, f, same) = inv.owned fd n h in
          (d, left fd n.ptr d f (elsewhere fd n.ptr d f same (entry_elsewhere fd n h)), same);
      pointed = λ fd b h.
          let (d, f, same) = inv.pointed fd b h in
          (d, left fd b d f (elsewhere fd b d f same (known_elsewhere fd b h)), same);
    }

    pub free_channel-IsFree :
        (c : Channel) → lookup a s.heap ≡ some c → IsFree a c.fd (free_channel a s)
    free_channel-IsFree c l = record {
      address = lookup-erase a a s.heap ∙ rw ((==_iff a a).1 refl) refl;
      descriptor = λ b d h e.
          let (i, f) = survivor b d h in
          no_bool ((==_iff a b).1 (inv.distinct a b c d l f (sym e))) i;
      entry = unlisted c l;
      unknown = unknown c l;
    }

  module _ (a : ℕ) (s : State ep) {c : Channel} (inv : Inv ep s)
      (l : lookup a s.heap ≡ some c) where
    -- On a reactor that satisfies the invariant, `remove` of a live channel and the end of the channel
    -- object leave a reactor that satisfies it, in which the address and the descriptor are free, for
    -- the poller and for the kernel.
    pub remove_channel-IsFree :
        (s' : State ep) × (remove_channel ep a s ≡ ok s')
        × Inv ep (free_channel a s')
        × IsFree a c.fd (free_channel a s')
    unfolding set_index
    remove_channel-IsFree =
        go (remove_channel-Settles ep a c s l (Agrees-Tracked ep (inv.consistent a c l)))
      where
        go :
            Forgets ep s a c (remove_channel ep a s)
            → (s' : State ep) × (remove_channel ep a s ≡ ok s')
              × Inv ep (free_channel a s')
              × IsFree a c.fd (free_channel a s')
        go (s', e, w) =
            let inv' = Rewritten-Inv ep inv l refl w (is_new refl refl refl) in
            let l' : lookup a s'.heap ≡ some (set_index k_new c) =
              w.heap_at a ∙ rw ((==_iff a a).1 refl) refl in
            let unlisted : entry_of ep s' c.fd ≡ none =
              w.entry_at c.fd ∙ rw ((==_iff c.fd c.fd).1 refl) refl in
            let unknown : known_as ep s' c.fd ≡ none =
              w.known_at c.fd ∙ rw ((==_iff c.fd c.fd).1 refl) refl in
            let here : (d : Channel) → lookup a s'.heap ≡ some d → entry_of ep s' d.fd ≡ none =
              λ d f. ap (λ x. entry_of ep s' x.fd) (one (sym f ∙ l')) ∙ unlisted in
            let here' : (d : Channel) → lookup a s'.heap ≡ some d → known_as ep s' d.fd ≡ none =
              λ d f. ap (λ x. known_as ep s' x.fd) (one (sym f ∙ l')) ∙ unknown in
            (
              s',
              e,
              free_channel-Inv a s' inv' here here',
              free_channel-IsFree a s' inv' here here' _ l',
            )
          where
            one : {c d : Channel} → some c ≡ some d → c ≡ d
            one h = cc
