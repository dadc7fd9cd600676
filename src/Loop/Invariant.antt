-- ===== src/Loop/Invariant.antt =====
-- The invariant over the places of the loop's thread, whatever the other threads do.
use mu_muduo.Common.{
  ◌+◌, ◌<◌, ◌≡◌, refl, sym, ap, subst, ◌∙◌, ◌⊎◌, inl, inr, Bool, true, false, if◌then◌else◌, [],
  ◌∷◌, ◌++◌, append-nil, append_assoc, arith,
}
use mu_muduo.Loop.{
  Eventfd, Loop, Where, outside, testing, polling, handling, swapping, running, wakeup, headle_read,
  push, wake_for_functor, set_quit, wake_for_quit, queue_in_loop, quit_loop, enter, leave,
  begin_functors, swap_functors, take_functor, end_functors, make_loop,
}
use mu_muduo.Loop.Steps.{
  other_push, other_wake, other_quit, other_wake_quit, Step, enters, leaves, waits, returns,
  reads_wakeup, handler_queues, handler_quits, begins, swaps, takes, functor_queues, functor_quits,
  ends, other_pushes, other_quits, other_wakes, other_wakes_quit, Reach, here, next,
}

abbrev pub is_calling : Where → Bool
is_calling outside = false
is_calling testing = false
is_calling polling = false
is_calling handling = false
is_calling swapping = true
is_calling running = true

module _ {F : Type 0} (efd : Eventfd) where
  -- `poll` returns at once, or some thread is about to see to that.
  abbrev pub Awake : Loop F efd → Type 0
  Awake l = (efd.readable l.wakeup_fd ≡ true) ⊎ (0 < l.owing + l.owing_quit)

  abbrev pub Covered : Loop F efd → Type 0
  Covered l = (l.pending ≡ []) ⊎ Awake l

  -- Among the handlers and before the swap there is nothing to promise: the swap comes.
  abbrev pub Promise : Where → Loop F efd → Type 0
  Promise outside l = Covered l × (l.functors ≡ [])
  Promise testing l = Covered l × (l.functors ≡ [])
  Promise polling l = Covered l × (l.functors ≡ []) × ((l.quit ≡ false) ⊎ Awake l)
  Promise handling l = l.functors ≡ []
  Promise swapping l = l.functors ≡ []
  Promise running l = Covered l

  pub record Inv (l : Loop F efd) : Type 0 where
    pub calling : l.calling_pend_functors ≡ is_calling l.at
    pub promise : Promise l.at l
    pub order : l.queued ≡ l.called ++ (l.functors ++ l.pending)

  at_place : {w : Where} (l : Loop F efd) → l.at ≡ w → Inv l → Promise w l
  at_place l e inv = subst (λ w. Promise w l) e inv.promise

  -- A step that leaves the loop awake keeps every promise.
  Awake-keeps :
      (w : Where) (l l' : Loop F efd)
      → l'.functors ≡ l.functors
      → Awake l'
      → Promise w l
      → Promise w l'
  Awake-keeps outside l l' e a p = (inr a, e ∙ p.1)
  Awake-keeps testing l l' e a p = (inr a, e ∙ p.1)
  Awake-keeps polling l l' e a p = (inr a, e ∙ p.1, inr a)
  Awake-keeps handling l l' e a p = e ∙ p
  Awake-keeps swapping l l' e a p = e ∙ p
  Awake-keeps running l l' e a p = inr a

  pushed :
      (f : F) (l : Loop F efd)
      → Inv l
      → l.queued ++ f ∷ [] ≡ l.called ++ (l.functors ++ (l.pending ++ f ∷ []))
  pushed f l inv =
      ap (λ q. q ++ f ∷ []) inv.order
      ∙ append_assoc l.called (l.functors ++ l.pending) (f ∷ [])
      ∙ ap (λ q. l.called ++ q) (append_assoc l.functors l.pending (f ∷ []))

  -- On the loop's own thread only a functor wakes the loop.
  pub queue_in_loop_lem :
      (f : F) (l : Loop F efd) {b : Bool}
      → l.calling_pend_functors ≡ b
      → queue_in_loop efd true f l ≡ (if b then wakeup efd (push efd f l) else push efd f l)
  unfolding queue_in_loop wake_for_functor
  queue_in_loop_lem f l e = ap (λ b. if b then wakeup efd (push efd f l) else push efd f l) e

  -- Each step of each thread keeps the invariant.
  pub Step-Inv : {l l' : Loop F efd} → Step efd l l' → Inv l → Inv l'
  unfolding wakeup headle_read push queue_in_loop quit_loop enter leave begin_functors swap_functors
      take_functor end_functors wake_for_functor set_quit wake_for_quit other_push other_wake
      other_quit other_wake_quit
  Step-Inv (enters l e) inv = record {
    calling = inv.calling ∙ rw e refl;
    promise = at_place l e inv;
    order = inv.order;
  }
  Step-Inv (leaves l e q) inv = record {
    calling = inv.calling ∙ rw e refl;
    promise = at_place l e inv;
    order = inv.order;
  }
  Step-Inv (waits l e q) inv =
      let p = at_place l e inv in
      record { calling = inv.calling ∙ rw e refl; promise = (p.0, p.1, inl q); order = inv.order }
  Step-Inv (returns l e) inv = record {
    calling = inv.calling ∙ rw e refl;
    promise = (at_place l e inv).1;
    order = inv.order;
  }
  Step-Inv (reads_wakeup l e) inv = record {
    calling = inv.calling;
    promise = rw e (at_place l e inv);
    order = inv.order;
  }
  Step-Inv (handler_queues l f e) inv =
      subst Inv (sym (queue_in_loop_lem f l (inv.calling ∙ ap is_calling e))) (record {
        calling = inv.calling;
        promise = subst (λ w. Promise w (push efd f l)) (sym e) (at_place l e inv);
        order = pushed f l inv;
      })
  Step-Inv (handler_quits l e) inv = record {
    calling = inv.calling;
    promise = rw e (at_place l e inv);
    order = inv.order;
  }
  Step-Inv (begins l e) inv = record {
    calling = refl;
    promise = at_place l e inv;
    order = inv.order;
  }
  Step-Inv (swaps l e) inv = record {
    calling = inv.calling ∙ rw e refl;
    promise = inl refl;
    order =
        inv.order
        ∙ ap (λ q. l.called ++ q)
            (ap (λ q. q ++ l.pending) (at_place l e inv) ∙ sym (append-nil l.pending));
  }
  Step-Inv (takes l f fs e g) inv = record {
    calling = inv.calling;
    promise = rw e (at_place l e inv);
    order =
        inv.order
        ∙ ap (λ q. l.called ++ (q ++ l.pending)) g
        ∙ sym (append_assoc l.called (f ∷ []) (fs ++ l.pending));
  }
  Step-Inv (functor_queues l f e) inv =
      subst Inv (sym (queue_in_loop_lem f l (inv.calling ∙ ap is_calling e))) (record {
        calling = inv.calling;
        promise =
            Awake-keeps l.at l (wakeup efd (push efd f l)) refl
              (inl (efd.signal-readable l.wakeup_fd)) inv.promise;
        order = pushed f l inv;
      })
  Step-Inv (functor_quits l e) inv = record {
    calling = inv.calling;
    promise = rw e (at_place l e inv);
    order = inv.order;
  }
  Step-Inv (ends l e g) inv = record {
    calling = refl;
    promise = (at_place l e inv, g);
    order = inv.order;
  }
  Step-Inv (other_pushes l f) inv = record {
    calling = inv.calling;
    promise = Awake-keeps l.at l _ refl (inr (omega arith)) inv.promise;
    order = pushed f l inv;
  }
  Step-Inv (other_quits l) inv = record {
    calling = inv.calling;
    promise = Awake-keeps l.at l _ refl (inr (omega arith)) inv.promise;
    order = inv.order;
  }
  Step-Inv (other_wakes l h) inv = record {
    calling = inv.calling;
    promise = Awake-keeps l.at l _ refl (inl (efd.signal-readable l.wakeup_fd)) inv.promise;
    order = inv.order;
  }
  Step-Inv (other_wakes_quit l h) inv = record {
    calling = inv.calling;
    promise = Awake-keeps l.at l _ refl (inl (efd.signal-readable l.wakeup_fd)) inv.promise;
    order = inv.order;
  }

  -- From a loop that is made, every interleaving keeps the invariant.
  pub Reach-Inv : (c : efd.Counter) {l : Loop F efd} → Reach efd (make_loop efd c) l → Inv l
  unfolding make_loop
  Reach-Inv c here = record { calling = refl; promise = (inl refl, refl); order = refl }
  Reach-Inv c (next r s) = Step-Inv s (Reach-Inv c r)

  -- From a loop that was just made, in every interleaving of the loop's thread with threads that call
  -- `queueInLoop` or `quit`: while the loop's thread sits in `poll`, either nothing is queued and
  -- `quit_` is not set, or the descriptor is readable, or another thread is between the two halves
  -- of its call.
  pub poll-Awake :
      (c : efd.Counter) (l : Loop F efd)
      → Reach efd (make_loop efd c) l
      → l.at ≡ polling
      → ((l.pending ≡ []) × (l.quit ≡ false)) ⊎ Awake l
  poll-Awake c l r e = go (at_place l e (Reach-Inv c r))
    where
      go : Promise polling l → ((l.pending ≡ []) × (l.quit ≡ false)) ⊎ Awake l
      go (inr a, g, q) = inr a
      go (inl p, g, inr a) = inr a
      go (inl p, g, inl q) = inl (p, q)

  -- From a loop that was just made, in every interleaving, what was queued, in order, is what was
  -- called, then what is left of the vector being called, then what waits: each functor is called
  -- once, in the order of the queue.
  pub called_in_order :
      (c : efd.Counter) (l : Loop F efd)
      → Reach efd (make_loop efd c) l
      → l.queued ≡ l.called ++ (l.functors ++ l.pending)
  called_in_order c l r = (Reach-Inv c r).order
