-- ===== src/Loop/Progress.antt =====
-- `dopendingFunctors` as a whole.
use mu_muduo.Common.{
  ◌≡◌, refl, sym, ap, subst, ◌∙◌, true, List, [], ◌∷◌, ◌++◌, append-nil, append_assoc,
}
use mu_muduo.Loop.{
  Eventfd, Loop, handling, running, testing, wakeup, push, queue_in_loop, begin_functors,
  swap_functors, take_functor, end_functors, queue_all, call_functors, do_pending_functors,
}
use mu_muduo.Loop.Steps.{Step, Reach, here, next, begins, swaps, takes, functor_queues, ends}
use mu_muduo.Loop.Invariant.{queue_in_loop_lem}

-- What the functors of a list queue, in order.
abbrev pub gather {ℓ} : {F : Type ℓ} → (F → List F) → List F → List F
gather queues [] = []
gather queues (f ∷ fs) = queues f ++ gather queues fs

module _ {F : Type 0} (efd : Eventfd) where
  pub Reach-trans : {k l m : Loop F efd} → Reach efd k l → Reach efd l m → Reach efd k m
  Reach-trans r here = r
  Reach-trans r (next q s) = next (Reach-trans r q) s

  -- Among the functors, the thread gets from `l` to `l'`, and there `done` are called, `new` are
  -- queued, and `left` are left.
  record Among (l : Loop F efd) (done new left : List F) (l' : Loop F efd) : Type 0 where
    path : Reach efd l l'
    called : l'.called ≡ l.called ++ done
    pending : l'.pending ≡ l.pending ++ new
    functors : l'.functors ≡ left
    place : l'.at ≡ running
    calling : l'.calling_pend_functors ≡ true

  queue_one :
      (g : F) (l : Loop F efd)
      → l.at ≡ running
      → l.calling_pend_functors ≡ true
      → Among l [] (g ∷ []) l.functors (queue_in_loop efd true g l)
  unfolding wakeup push
  queue_one g l e c =
      subst (Among l [] (g ∷ []) l.functors) (sym (queue_in_loop_lem efd g l c)) (record {
        path = next here (subst (Step efd l) (queue_in_loop_lem efd g l c) (functor_queues l g e));
        called = sym (append-nil l.called);
        pending = refl;
        functors = refl;
        place = e;
        calling = c;
      })

  Among-trans :
      {l l' l'' : Loop F efd} {done done' new new' left left' : List F}
      → Among l done new left l'
      → Among l' done' new' left' l''
      → Among l (done ++ done') (new ++ new') left' l''
  Among-trans {l} {l'} {l''} {done} {done'} {new} {new'} a b = record {
    path = Reach-trans a.path b.path;
    called = b.called ∙ ap (λ q. q ++ done') a.called ∙ append_assoc l.called done done';
    pending = b.pending ∙ ap (λ q. q ++ new') a.pending ∙ append_assoc l.pending new new';
    functors = b.functors;
    place = b.place;
    calling = b.calling;
  }

  queue_all_lem :
      (gs : List F) (l : Loop F efd)
      → l.at ≡ running
      → l.calling_pend_functors ≡ true
      → Among l [] gs l.functors (queue_all efd gs l)
  unfolding queue_all
  queue_all_lem [] l e c = record {
    path = here;
    called = sym (append-nil l.called);
    pending = sym (append-nil l.pending);
    functors = refl;
    place = e;
    calling = c;
  }
  queue_all_lem (g ∷ gs) l e c =
      let a = queue_one g l e c in
      let b = queue_all_lem gs (queue_in_loop efd true g l) a.place a.calling in
      subst (λ fs. Among l [] (g ∷ gs) fs (queue_all efd gs (queue_in_loop efd true g l)))
        a.functors (Among-trans a b)

  call_functors_lem :
      (queues : F → List F) (fs : List F) (l : Loop F efd)
      → l.at ≡ running
      → l.calling_pend_functors ≡ true
      → l.functors ≡ fs
      → Among l fs (gather queues fs) [] (call_functors efd queues fs l)
  unfolding call_functors take_functor
  call_functors_lem queues [] l e c g = record {
    path = here;
    called = sym (append-nil l.called);
    pending = sym (append-nil l.pending);
    functors = g;
    place = e;
    calling = c;
  }
  call_functors_lem queues (f ∷ fs) l e c g =
      let a = taken e c g in
      let b = queue_all_lem (queues f) (take_functor efd f fs l) a.place a.calling in
      let d =
        call_functors_lem queues fs (queue_all efd (queues f) (take_functor efd f fs l)) b.place
          b.calling (b.functors ∙ a.functors) in
      Among-trans (Among-trans a b) d
    where
      taken :
          l.at ≡ running
          → l.calling_pend_functors ≡ true
          → l.functors ≡ f ∷ fs
          → Among l (f ∷ []) [] fs (take_functor efd f fs l)
      taken e c g = record {
        path = next here (takes l f fs e g);
        called = refl;
        pending = sym (append-nil l.pending);
        functors = refl;
        place = e;
        calling = c;
      }

  -- After the handlers, with no functors left of an earlier round, `dopendingFunctors` is a run of
  -- steps of the loop's thread: it calls just the functors that were queued when it swapped, in
  -- order, and those that they queue in turn wait, in order, for the next round.
  pub do_pending_functors_lem :
      (queues : F → List F) (l : Loop F efd)
      → l.at ≡ handling
      → l.functors ≡ []
      → Reach efd l (do_pending_functors efd queues l)
        × ((do_pending_functors efd queues l).called ≡ l.called ++ l.pending)
        × ((do_pending_functors efd queues l).pending ≡ gather queues l.pending)
        × ((do_pending_functors efd queues l).at ≡ testing)
  unfolding do_pending_functors begin_functors swap_functors end_functors
  do_pending_functors_lem queues l e g =
      let swapped = swap_functors efd (begin_functors efd l) in
      let a = call_functors_lem queues l.pending swapped refl refl refl in
      (
        next
            (Reach-trans (next (next here (begins l e)) (swaps (begin_functors efd l) refl)) a.path)
            (ends (call_functors efd queues l.pending swapped) a.place a.functors),
        a.called,
        a.pending,
        refl,
      )
