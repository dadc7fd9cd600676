-- ===== src/Hub/TearDown.antt =====
-- A round of queued `connectDestroyed` and the end of the objects.
use mu_muduo.Common.{
  ℕ, ◌≡◌, refl, sym, ap, ◌∙◌, inr, inl, no_bool, ◌≢◌, inr, true, false, List, [], Option, none,
  some, lookup, nat_eq, Bool-cases, ok, if◌then◌else◌,
}
use mu_muduo.Channel.{Channel}
use mu_muduo.Reactor.{State, Epoll}
use mu_muduo.Reactor.Registry.{entry_of, known_as}
use mu_muduo.Reactor.Invariant.{Inv}
use mu_muduo.Reactor.Lifetime.{IsFree}
use mu_muduo.Hub.{Hub, free_each, tear_down}
use mu_muduo.Hub.Queue.{mem}
use mu_muduo.Hub.Destroy.{Stems, destroy_each-AllDestroyed}
use mu_muduo.Hub.Apart.{HubInv}
use mu_muduo.Hub.Free.{free_each-Inv}

module _ (ep : Epoll) (room : (k : ep.Kernel) (fd : ℕ) → ep.Room k fd) where
  none_if : {A : Type 0} (m : Option A) → ((n : A) → m ≡ some n → ⊥) → m ≡ none
  none_if none f = refl
  none_if (some n) f = absurd (f n refl)

  -- A channel that is gone leaves its address and its descriptor free.
  gone-IsFree :
      (os : List ℕ) (s t u : State ep)
      → Inv ep s
      → Stems s t
      → Inv ep u
      → ((b : ℕ) → lookup b u.heap ≡ (if mem b os then none else lookup b t.heap))
      → (a : ℕ) (c : Channel) → mem a os ≡ true
      → lookup a s.heap ≡ some c
      → IsFree ep a c.fd u
  gone-IsFree os s t u inv stems inv' left a c m l = record {
    address = left a ∙ rw m refl;
    descriptor = other;
    entry =
        none_if (entry_of ep u c.fd)
          (λ n e. let (d, f, at) = inv'.owned c.fd n e in other n.ptr d f at);
    unknown =
        none_if (known_as ep u c.fd)
          (λ b e. let (d, f, at) = inv'.pointed c.fd b e in other b d f at);
  }
    where
      missing : {d : Channel} → none ≡ some d → ⊥
      missing h = cc

      other : (b : ℕ) (d : Channel) → lookup b u.heap ≡ some d → d.fd ≢ c.fd
      other b d f e = elim (Bool-cases (mem b os)) [
        | inl here ↦ absurd (missing (sym (left b ∙ rw here refl) ∙ f))
        | inr away ↦
            let (d₀, f₀, e₀) = stems b d (sym (left b ∙ rw away refl) ∙ f) in
            let same = inv.distinct a b c d₀ l f₀ (sym (e₀ ∙ e)) in
            no_bool (ap (λ n. mem n os) (sym same) ∙ m) away
      ]

  -- While the kernel has room for every descriptor (`disableAll` may make an EPOLL_CTL_ADD), on a loop
  -- that satisfies HubInv the round of queued `connectDestroyed` returns, whether or not one is queued
  -- twice. Afterwards HubInv holds, nothing is queued, the queued objects are gone and the
  -- other connections are as they were, apart from the reactor; the address and the descriptor of
  -- each channel that has ended are free: no channel has them, the kernel watches for none there and
  -- `channels_` has no entry.
  pub tear_down_lem :
      (h : Hub ep)
      → HubInv ep room h
      → (h' : Hub ep) × (tear_down ep room h ≡ ok h')
        × HubInv ep room h'
        × (h'.doomed ≡ [])
        × ((b : ℕ) → lookup b h'.conns ≡ (if mem b h.doomed then none else lookup b h.conns))
        × ((b : ℕ) (c : Channel)
            → mem b h.doomed ≡ true
            → lookup b h.reactor.heap ≡ some c
            → IsFree ep b c.fd h'.reactor)
  unfolding tear_down
  tear_down_lem h i =
      let (d, e, inv, all, same, kept, removed, stems) =
        destroy_each-AllDestroyed ep room h.doomed (record h { doomed = [] }) i.inv i.sound
          i.waiting in
      let (inv', all', same', left, held) =
        free_each-Inv ep room h.doomed d inv all (λ b m. removed b (inl m)) in
      (
        free_each ep room h.doomed d,
        rw e refl,
        record { inv = inv'; sound = all'; waiting = rw (same', same) tt },
        same' ∙ same,
        λ b. left b ∙ now b d (kept b),
        λ b c m l.
            gone-IsFree h.doomed h.reactor d.reactor (free_each ep room h.doomed d).reactor i.inv
              stems inv' held b c m l,
      )
    where
      now :
          (b : ℕ) (d : Hub ep)
          → (mem b h.doomed ≡ false → lookup b d.conns ≡ lookup b h.conns)
          → (if mem b h.doomed then none else lookup b d.conns)
            ≡ (if mem b h.doomed then none else lookup b h.conns)
      now b d kept = elim (Bool-cases (mem b h.doomed)) [
        | inl e ↦ rw e refl
        | inr e ↦ rw (e, kept e) refl
      ]
