-- ===== src/Hub/Free.antt =====
-- The end of the objects and their channels.
use mu_muduo.Common.{
  ℕ, ◌≡◌, refl, sym, ◌∙◌, ◌⊎◌, inr, inl, Dict, inr, Bool, true, false, ◌||◌, List, [], ◌∷◌, Option,
  none, some, lookup, erase, nat_eq, lookup-erase, ◌==◌, ==_iff, Bool-cases, arith, if◌then◌else◌,
}
use mu_muduo.Channel.{Channel}
use mu_muduo.Reactor.{Epoll, EpollEvent, free_channel}
use mu_muduo.Reactor.Registry.{entry_of, known_as, is_new, is_added, is_deleted, Agrees}
use mu_muduo.Reactor.Invariant.{Inv}
use mu_muduo.Reactor.Lifetime.{survivor, free_channel-Inv}
use mu_muduo.Hub.{Stored, Hub, free_each}
use mu_muduo.Hub.Queue.{Found, mem}
use mu_muduo.Hub.Destroy.{Removed}
use mu_muduo.Hub.Apart.{IsForeign, IsSound, AllSound, IsSound-apart}

module _ (ep : Epoll) (room : (k : ep.Kernel) (fd : ℕ) → ep.Room k fd) where
  -- An object ends once the poller has forgotten its channel.
  free_one :
      (o : ℕ) (h : Hub ep)
      → Inv ep h.reactor
      → AllSound ep room h
      → Removed o h.reactor
      → Inv ep (free_channel o h.reactor)
        × AllSound ep room
            (record h { reactor = free_channel o h.reactor; conns = erase o h.conns })
  free_one o h inv all removed = (inv', (λ b c l. left b c l, λ b d l. bound b d l))
    where
      unlisted :
          (d : Channel) → lookup o h.reactor.heap ≡ some d → entry_of ep h.reactor d.fd ≡ none
      unlisted d l = by_agrees (inv.consistent o d l)
        where
          by_agrees : {n : Option EpollEvent} {m : Option ℕ} → Agrees o d n m → n ≡ none
          by_agrees (is_new i n m) = n
          by_agrees (is_added i n m) = ground (arith, removed d l)
          by_agrees (is_deleted i n m) = n

      unknown : (d : Channel) → lookup o h.reactor.heap ≡ some d → known_as ep h.reactor d.fd ≡ none
      unknown d l = by_agrees (inv.consistent o d l)
        where
          by_agrees : {n : Option EpollEvent} {m : Option ℕ} → Agrees o d n m → m ≡ none
          by_agrees (is_new i n m) = m
          by_agrees (is_added i n m) = ground (arith, removed d l)
          by_agrees (is_deleted i n m) = ground (arith, removed d l)

      inv' : Inv ep (free_channel o h.reactor)
      inv' = free_channel-Inv ep o h.reactor inv unlisted unknown

      left :
          (b : ℕ) (c : Stored)
          → lookup b (erase o h.conns) ≡ some c
          → IsSound ep room b (free_channel o h.reactor) c
      left b c l = elim (Bool-cases (o == b)) [
        | inl e ↦ absurd (none_some (sym (lookup-erase o b h.conns ∙ rw e refl) ∙ l))
        | inr e ↦
            IsSound-apart ep room o inv' (λ b' ne. lookup-erase o b' h.reactor.heap ∙ rw ne refl) b
              c e (all.0 b c (sym (lookup-erase o b h.conns ∙ rw e refl) ∙ l))
      ]
        where
          none_some : none ≡ some c → ⊥
          none_some h = cc

      bound :
          (b : ℕ) (d : Channel)
          → lookup b (erase o h.reactor.heap) ≡ some d
          → Found b (erase o h.conns) ⊎ IsForeign d
      bound b d l =
          let (e, f) = survivor ep o h.reactor inv unlisted unknown b d l in kept e (all.1 b d f)
        where
          kept :
              (o == b) ≡ false
              → Found b h.conns ⊎ IsForeign d
              → Found b (erase o h.conns) ⊎ IsForeign d
          kept e (inl (c, f)) = inl (c, lookup-erase o b h.conns ∙ rw e f)
          kept e (inr f) = inr f

  pub free_each-Inv :
      (os : List ℕ) (h : Hub ep)
      → Inv ep h.reactor
      → AllSound ep room h
      → ((b : ℕ) → mem b os ≡ true → Removed b h.reactor)
      → Inv ep (free_each ep room os h).reactor
        × AllSound ep room (free_each ep room os h)
        × ((free_each ep room os h).doomed ≡ h.doomed)
        × ((b : ℕ)
            → lookup b (free_each ep room os h).conns
              ≡ (if mem b os then none else lookup b h.conns))
        × ((b : ℕ)
            → lookup b (free_each ep room os h).reactor.heap
              ≡ (if mem b os then none else lookup b h.reactor.heap))
  unfolding free_each mem
  free_each-Inv [] h inv all removed = (inv, all, refl, λ b. refl, λ b. refl)
  free_each-Inv (o ∷ os) h inv all removed =
      let (inv', all') = free_one o h inv all (removed o (first (mem o os))) in
      let (inv'', all'', same, kept, held) =
        free_each-Inv os (record h { reactor = free_channel o h.reactor; conns = erase o h.conns })
          inv' all' (λ b m d l. removed b (later (o == b) m) d (still b d l)) in
      (inv'', all'', same, λ b. kept b ∙ now h.conns b, λ b. held b ∙ now h.reactor.heap b)
    where
      first : (m : Bool) → ((o == o) || m) ≡ true
      first m = rw ((==_iff o o).1 refl) refl

      later : (x : Bool) {y : Bool} → y ≡ true → (x || y) ≡ true
      later true e = refl
      later false e = e

      still :
          (b : ℕ) (d : Channel)
          → lookup b (erase o h.reactor.heap) ≡ some d
          → lookup b h.reactor.heap ≡ some d
      still b d l = elim (Bool-cases (o == b)) [
        | inl e ↦ absurd (none_some (sym (lookup-erase o b h.reactor.heap ∙ rw e refl) ∙ l))
        | inr e ↦ sym (lookup-erase o b h.reactor.heap ∙ rw e refl) ∙ l
      ]
        where
          none_some : none ≡ some d → ⊥
          none_some h = cc

      now :
          {V : Type 0} (m : Dict ℕ V) (b : ℕ)
          → (if mem b os then none else lookup b (erase o m))
            ≡ (if (o == b) || mem b os then none else lookup b m)
      now {V} m b = elim (Bool-cases (o == b)) [
        | inl e ↦ rw (lookup-erase o b m, e) (both (mem b os))
        | inr e ↦ rw (lookup-erase o b m, e) refl
      ]
        where
          gone : Option V
          gone = none

          both : (m : Bool) → (if m then gone else gone) ≡ gone
          both true = refl
          both false = refl
