-- ===== src/Hub/Destroy.antt =====
-- The queued `connectDestroyed` calls: the channels leave the poller.
use mu_muduo.Common.{
  ℕ, ◌≡◌, refl, sym, ap, ◌∙◌, ◌⊎◌, inl, inr, Bool, true, false, ◌||◌, List, [], ◌∷◌, some, lookup,
  nat_eq, lookup-insert, ◌==◌, ==_iff, Bool-cases, Outcome, arith, ok,
}
use mu_muduo.Channel.{shape, Channel}
use mu_muduo.Reactor.{Reactor, Epoll, State, k_new}
use mu_muduo.Reactor.Invariant.{Inv}
use mu_muduo.Port.OnReactor.{shape_found, removes-index}
use mu_muduo.Connection.{Connection, connect_destroyed}
use mu_muduo.Connection.Close.{connect_destroyed-Removes}
use mu_muduo.Hub.{Stored, with_port, Hub, port_of, settle, destroy_each}
use mu_muduo.Hub.Queue.{AllFound, AllFound-insert, mem}
use mu_muduo.Hub.Apart.{AllSound, find_lem, settle-AllSound}

-- The channel, if there is one, is no longer known to the poller.
abbrev pub Removed : {Kernel : Type 0} → ℕ → Reactor Kernel → Type 0
Removed o s = (d : Channel) → lookup o s.heap ≡ some d → d.index ≡ k_new

-- Each channel now was one before, for the same descriptor.
abbrev pub Stems : {Kernel : Type 0} → Reactor Kernel → Reactor Kernel → Type 0
Stems s s' =
    (b : ℕ) (d' : Channel)
    → lookup b s'.heap ≡ some d'
    → (d : Channel) × (lookup b s.heap ≡ some d) × (d.fd ≡ d'.fd)

module _ (ep : Epoll) (room : (k : ep.Kernel) (fd : ℕ) → ep.Room k fd) where
  -- One `connectDestroyed`.
  abbrev Destroys : ℕ → Hub ep → Outcome (Connection (State ep)) → Type 0
  Destroys o h out =
      (c' : Connection (State ep)) × (out ≡ ok c')
      × Inv ep c'.port
      × AllSound ep room (settle ep room o c' h)
      × Removed o c'.port
      × ((b : ℕ) → (o == b) ≡ false → lookup b c'.port.heap ≡ lookup b h.reactor.heap)
      × Stems h.reactor c'.port

  destroy-Destroys :
      (o : ℕ) (h : Hub ep) (c : Stored)
      → AllSound ep room h
      → lookup o h.conns ≡ some c
      → Destroys o h (connect_destroyed (port_of ep room o h.reactor) (with_port h.reactor c))
  unfolding shape
  destroy-Destroys o h c all l =
      let so = all.0 o c l in
      let (c', r', w', s, e, so', i, e', st, tr) =
        connect_destroyed-Removes (port_of ep room o h.reactor) so.reads so.writes
          (with_port h.reactor c) so.sound in
      (
        c',
        e,
        so'.interest.inv,
        settle-AllSound ep room o h c' so' so.mine
            (so.sound.interest.channel, so.sound.interest.found) (λ b d ne lb. all.0 b d lb)
            (λ b d ne lb. all.1 b d lb),
        removes-index ep room o o h.reactor r' w' s c'.port i e',
        so'.interest.others,
        λ b d' f. elim (Bool-cases (o == b)) [
          | inl e ↦
              let at = (==_iff o b).0 e in
              let now =
                shape_found so'.interest.channel d' so'.interest.found
                  (ap (λ n. lookup n c'.port.heap) at ∙ f) in
              let then_ = so'.interest.own so.sound.interest.channel so.sound.interest.found in
              (
                so.sound.interest.channel,
                ap (λ n. lookup n h.reactor.heap) (sym at) ∙ so.sound.interest.found,
                ap (λ x. x.fd) (sym then_ ∙ now),
              )
          | inr e ↦ (d', sym (so'.interest.others b e) ∙ f, refl)
        ],
      )

  -- The channels of the listed objects leave the poller, the other connections stay as they are.
  abbrev pub AllDestroyed : List ℕ → Hub ep → Outcome (Hub ep) → Type 0
  AllDestroyed os h out =
      (h' : Hub ep) × (out ≡ ok h')
      × Inv ep h'.reactor
      × AllSound ep room h'
      × (h'.doomed ≡ h.doomed)
      × ((b : ℕ) → mem b os ≡ false → lookup b h'.conns ≡ lookup b h.conns)
      × ((b : ℕ) → (mem b os ≡ true) ⊎ Removed b h.reactor → Removed b h'.reactor)
      × Stems h.reactor h'.reactor

  pub destroy_each-AllDestroyed :
      (os : List ℕ) (h : Hub ep)
      → Inv ep h.reactor
      → AllSound ep room h
      → AllFound os h.conns
      → AllDestroyed os h (destroy_each ep room os h)
  unfolding destroy_each mem
  destroy_each-AllDestroyed [] h inv all found =
      (h, refl, inv, all, refl, λ b out. refl, λ b r. by_case b r, λ b d f. (d, f, refl))
    where
      by_case : (b : ℕ) → (false ≡ true) ⊎ Removed b h.reactor → Removed b h.reactor
      by_case b (inl e) = cc
      by_case b (inr r) = r
  destroy_each-AllDestroyed (o ∷ os) h inv all ((c, l), found) =
      let (c', e, inv', all', gone, others, stems) = destroy-Destroys o h c all l in
      let (h', e', inv'', all'', same, kept, removed, stems') =
        destroy_each-AllDestroyed os (settle ep room o c' h) inv' all'
          (AllFound-insert os o (with_port tt c') h.conns found) in
      (
        h',
        rw (find_lem ep room o h l, e) e',
        inv'',
        all'',
        same,
        λ b out. elim (Bool-cases (o == b)) [
          | inl here ↦ absurd (no_both (o == b) (mem b os) here out)
          | inr away ↦
              kept b (rest b away out) ∙ lookup-insert o b (with_port tt c') h.conns ∙ rw away refl
        ],
        λ b r. removed b (left b c' gone others r),
        λ b d f.
            let (d', f', e₁) = stems' b d f in
            let (d₀, f₀, e₀) = stems b d' f' in (d₀, f₀, e₀ ∙ e₁),
      )
    where
      no_both : (x y : Bool) → x ≡ true → (x || y) ≡ false → ⊥
      no_both x y e f = ground arith

      rest : (b : ℕ) → (o == b) ≡ false → ((o == b) || mem b os) ≡ false → mem b os ≡ false
      rest b away out = rw away at out

      left :
          (b : ℕ) (c' : Connection (State ep))
          → Removed o c'.port
          → ((b : ℕ) → (o == b) ≡ false → lookup b c'.port.heap ≡ lookup b h.reactor.heap)
          → (((o == b) || mem b os) ≡ true) ⊎ Removed b h.reactor
          → (mem b os ≡ true) ⊎ Removed b c'.port
      left b c' gone others r = elim (Bool-cases (o == b)) [
        | inl here ↦ inr (λ d f. gone d (ap (λ n. lookup n c'.port.heap) ((==_iff o b).0 here) ∙ f))
        | inr away ↦ by_away away r
      ]
        where
          by_away :
              (o == b) ≡ false
              → (((o == b) || mem b os) ≡ true) ⊎ Removed b h.reactor
              → (mem b os ≡ true) ⊎ Removed b c'.port
          by_away away (inl m) = inl (rw away at m)
          by_away away (inr r) = inr (λ d f. r d (sym (others b away) ∙ f))
