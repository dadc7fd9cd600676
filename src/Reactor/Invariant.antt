-- ===== src/Reactor/Invariant.antt =====
-- One channel changes, and the poller and the kernel with it: the invariant over all channels holds.
use mu_muduo.Common.{
  ℕ, ◌≡◌, refl, sym, ap, ◌∙◌, ◌⊎◌, inl, inr, true, false, Option, none, some, lookup, no_bool,
  nat_eq, ◌==◌, ==_iff, Outcome, ok, arith, Bool-cases,
}
use mu_muduo.Channel.{Channel}
use mu_muduo.Reactor.{Epoll, State, EpollEvent}
use mu_muduo.Reactor.Registry.{
  Agrees, is_new, is_added, is_deleted, Tracked, was_new, was_added, was_deleted, entry_of,
  known_as, Consistent, Distinct, Owned, Pointed,
}
use mu_muduo.Reactor.Update.{Rewritten}

no_entry : {n : EpollEvent} → none ≡ some n → ⊥
no_entry h = cc

some_ptr : {n : EpollEvent} {e a : ℕ} → some n ≡ some (record { events = e; ptr = a }) → n.ptr ≡ a
some_ptr {n} {e} {a} h = ap (λ x. x.ptr) (some_event h)
  where
    some_event : {m : EpollEvent} → some n ≡ some m → n ≡ m
    some_event h = cc

some_same : {c d : Channel} → some c ≡ some d → c ≡ d
some_same h = cc

module _ (ep : Epoll) where
  pub record Inv (s : State ep) : Type 0 where
    pub consistent : Consistent ep s
    pub distinct : Distinct ep s
    pub owned : Owned ep s
    pub pointed : Pointed ep s

  abbrev pub Live : State ep → ℕ → Type 0
  Live s a = (c : Channel) × (lookup a s.heap ≡ some c)

  -- The call returns; the invariant holds again, and the same channels are live.
  abbrev pub Keeps : State ep → Outcome (State ep) → Type 0
  Keeps s r = (s' : State ep) × (r ≡ ok s') × Inv s' × ((b : ℕ) → Live s b → Live s' b)

  pub Agrees-Tracked :
      {a : ℕ} {c : Channel} {n : Option EpollEvent} {m : Option ℕ}
      → Agrees a c n m
      → Tracked a c n m
  Agrees-Tracked (is_new i n m) = was_new i n m
  Agrees-Tracked (is_added i n m) = was_added _ i n m
  Agrees-Tracked (is_deleted i n m) = was_deleted i n m

  pub Tracked-events :
      {a : ℕ} (c d : Channel) {n : Option EpollEvent} {m : Option ℕ}
      → d.index ≡ c.index
      → Tracked a c n m
      → Tracked a d n m
  Tracked-events c d e (was_new i n m) = was_new (e ∙ i) n m
  Tracked-events c d e (was_added o i n m) = was_added o (e ∙ i) n m
  Tracked-events c d e (was_deleted i n m) = was_deleted (e ∙ i) n m

  module _ {s s' : State ep} {a : ℕ} {c c' : Channel} {entry : Option EpollEvent} {known : Option ℕ}
      (inv : Inv s) (l : lookup a s.heap ≡ some c) (same : c'.fd ≡ c.fd)
      (w : Rewritten ep s a c' entry known s') (agrees : Agrees a c' entry known) where
    -- Where a channel of the new heap comes from.
    origin :
        (b : ℕ) (d : Channel)
        → lookup b s'.heap ≡ some d
        → ((a ≡ b) × (d ≡ c')) ⊎ (((a == b) ≡ false) × (lookup b s.heap ≡ some d))
    origin b d h = elim (Bool-cases (a == b)) [
      | inl e ↦ inl ((==_iff a b).0 e, ground (arith, w.heap_at b))
      | inr e ↦ inr (e, ground (arith, w.heap_at b))
    ]

    old_fd :
        (b : ℕ) (d : Channel)
        → lookup b s'.heap ≡ some d
        → (d₀ : Channel) × (lookup b s.heap ≡ some d₀) × (d₀.fd ≡ d.fd)
    old_fd b d h = go (origin b d h)
      where
        go :
            ((a ≡ b) × (d ≡ c')) ⊎ (((a == b) ≡ false) × (lookup b s.heap ≡ some d))
            → (d₀ : Channel) × (lookup b s.heap ≡ some d₀) × (d₀.fd ≡ d.fd)
        go (inl (e, f)) = (c, rw (← e) l, sym same ∙ ap (λ x. x.fd) (sym f))
        go (inr (e, f)) = (d, f, refl)

    apart :
        (b : ℕ) (d : Channel)
        → (a == b) ≡ false
        → lookup b s.heap ≡ some d
        → (c'.fd == d.fd) ≡ false
    apart b d e h = elim (Bool-cases (c'.fd == d.fd)) [
      | inl f ↦ ground (arith, inv.distinct a b c d l h)
      | inr f ↦ f
    ]

    Rewritten-Agrees :
        (b : ℕ) (d : Channel)
        → lookup b s'.heap ≡ some d
        → Agrees b d (entry_of ep s' d.fd) (known_as ep s' d.fd)
    Rewritten-Agrees b d h = go (origin b d h)
      where
        go :
            ((a ≡ b) × (d ≡ c')) ⊎ (((a == b) ≡ false) × (lookup b s.heap ≡ some d))
            → Agrees b d (entry_of ep s' d.fd) (known_as ep s' d.fd)
        go (inl (e, f)) =
            rw (← e, f, w.entry_at c'.fd, w.known_at c'.fd, (==_iff c'.fd c'.fd).1 refl) agrees
        go (inr (e, f)) =
            rw (w.entry_at d.fd, w.known_at d.fd, apart b d e f) (inv.consistent b d f)

    Agrees-ptr : (n : EpollEvent) → entry ≡ some n → n.ptr ≡ a
    Agrees-ptr n e = by_agrees agrees
      where
        by_agrees : {c : Channel} {m : Option ℕ} → Agrees a c entry m → n.ptr ≡ a
        by_agrees (is_new i none_ m) = absurd (no_entry (sym none_ ∙ e))
        by_agrees (is_added i listed m) = some_ptr (sym e ∙ listed)
        by_agrees (is_deleted i none_ m) = absurd (no_entry (sym none_ ∙ e))

    -- A channel for another descriptor is another channel.
    elsewhere :
        (fd b : ℕ) (d : Channel)
        → lookup b s.heap ≡ some d
        → d.fd ≡ fd
        → (c'.fd == fd) ≡ false
        → (a == b) ≡ false
    elsewhere fd b d f g other_fd = elim (Bool-cases (a == b)) [
      | inl h ↦ no_bool ((==_iff c'.fd fd).1 (same ∙ ap (λ x. x.fd) (one_channel h) ∙ g)) other_fd
      | inr h ↦ h
    ]
      where
        one_channel : (a == b) ≡ true → c ≡ d
        one_channel h = some_same (sym l ∙ ap (λ x. lookup x s.heap) ((==_iff a b).0 h) ∙ f)

    -- The channel at `b` for the descriptor `fd`, before and now.
    Held : State ep → ℕ → ℕ → Type 0
    Held s fd b = (d : Channel) × (lookup b s.heap ≡ some d) × (d.fd ≡ fd)

    now-Held : (fd b : ℕ) → (c'.fd == fd) ≡ true → b ≡ a → Held s' fd b
    unfolding Held
    now-Held fd b same_fd at = (
      c',
      ap (λ b. lookup b s'.heap) at ∙ w.heap_at a ∙ rw ((==_iff a a).1 refl) refl,
      (==_iff c'.fd fd).0 same_fd,
    )

    still-Held : (fd b : ℕ) → (c'.fd == fd) ≡ false → Held s fd b → Held s' fd b
    unfolding Held
    still-Held fd b other_fd (d, f, g) = (d, w.heap_at b ∙ rw (elsewhere fd b d f g other_fd) f, g)

    Rewritten-Owned : Owned ep s'
    unfolding Held
    Rewritten-Owned fd n e = elim (Bool-cases (c'.fd == fd)) [
      | inl same_fd ↦
          now-Held fd n.ptr same_fd (Agrees-ptr n (sym (w.entry_at fd ∙ rw same_fd refl) ∙ e))
      | inr other_fd ↦
          still-Held fd n.ptr other_fd (inv.owned fd n (sym (w.entry_at fd ∙ rw other_fd refl) ∙ e))
    ]

    Agrees-known : (b : ℕ) → known ≡ some b → b ≡ a
    Agrees-known b e = by_agrees agrees
      where
        missing : {X : Type 0} → none ≡ some b → X
        missing h = cc

        one : some b ≡ some a → b ≡ a
        one h = cc

        by_agrees : {c : Channel} {n : Option EpollEvent} → Agrees a c n known → b ≡ a
        by_agrees (is_new i n none_) = missing (sym none_ ∙ e)
        by_agrees (is_added i n m) = one (sym e ∙ m)
        by_agrees (is_deleted i n m) = one (sym e ∙ m)

    Rewritten-Pointed : Pointed ep s'
    unfolding Held
    Rewritten-Pointed fd b e = elim (Bool-cases (c'.fd == fd)) [
      | inl same_fd ↦
          now-Held fd b same_fd (Agrees-known b (sym (w.known_at fd ∙ rw same_fd refl) ∙ e))
      | inr other_fd ↦
          still-Held fd b other_fd (inv.pointed fd b (sym (w.known_at fd ∙ rw other_fd refl) ∙ e))
    ]

    pub Rewritten-Inv : Inv s'
    Rewritten-Inv = record {
      owned = Rewritten-Owned;
      pointed = Rewritten-Pointed;
      consistent = Rewritten-Agrees;
      distinct = λ b b' d d' h h' e.
          let o = old_fd b d h in
          let o' = old_fd b' d' h' in inv.distinct b b' o.0 o'.0 o.1 o'.1 (o.2 ∙ e ∙ sym o'.2);
    }

    pub Rewritten-Live : (b : ℕ) → Live s b → Live s' b
    Rewritten-Live b (d, h) = elim (Bool-cases (a == b)) [
      | inl e ↦ (c', ground (arith, w.heap_at b))
      | inr e ↦ (d, ground (arith, w.heap_at b))
    ]
