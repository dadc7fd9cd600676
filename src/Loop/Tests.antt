-- ===== src/Loop/Tests.antt =====
-- The theorems of the loop, at a counter that is a number.
use mu_muduo.Common.{
  ℕ, ◌+◌, ◌*◌, ◌≡◌, refl, ◌⊎◌, true, false, not, [], ◌∷◌, ◌++◌, ◌==◌, ltb, if◌then◌else◌, arith,
  some, ok, lookup, nat_eq,
}
use mu_muduo.Loop.{
  Eventfd, Loop, make_loop, testing, polling, handling, do_pending_functors, enter, push,
  queue_in_loop, wake_for_functor, set_quit, wake_for_quit, wakeup, run_in_loop, quit_loop,
}
use mu_muduo.Reactor.Registry.{entry_of}
use mu_muduo.Reactor.Invariant.{Inv}
use mu_muduo.Reactor.Lifetime.{IsFree}
use mu_muduo.Reactor.ListEpoll.{list_epoll}
use mu_muduo.Loop.Create.{
  Parts, make_event_loop, destroy_event_loop, make_event_loop_lem, make_event_loop-destroy,
}
use mu_muduo.Loop.Steps.{Reach, here, next, enters, waits, other_pushes, other_push}
use mu_muduo.Loop.Invariant.{Awake, poll-Awake, called_in_order}
use mu_muduo.Loop.Progress.{do_pending_functors_lem}

-- The largest value of an eventfd is 2 ^ 64 - 2.
count_up : ℕ → ℕ
count_up c = if ltb c 18446744073709551614 then c + 1 else c

count_up-readable : (c : ℕ) → not (count_up c == 0) ≡ true
unfolding count_up
count_up-readable c = ground arith

abbrev counter : Eventfd
counter = record {
  Counter = ℕ;
  signal = count_up;
  clear = λ c. 0;
  readable = λ c. not (c == 0);
  signal-readable = count_up-readable;
}

abbrev fresh : Loop ℕ counter
fresh = make_loop counter 0

-- The loop waits in `poll`, and another thread has queued the functor 5.
abbrev waiting : Loop ℕ counter
waiting = record (enter counter fresh) { at = polling }

abbrev queued : Loop ℕ counter
queued = other_push counter 5 waiting

queued-Reach : Reach counter fresh queued
unfolding make_loop enter
queued-Reach =
    next (next (next here (enters fresh refl)) (waits (enter counter fresh) refl refl))
      (other_pushes waiting 5)

poll-Awake_example : ((queued.pending ≡ []) × (queued.quit ≡ false)) ⊎ Awake counter queued
unfolding make_loop enter push other_push
poll-Awake_example = poll-Awake counter 0 queued queued-Reach refl

called_in_order_example : queued.queued ≡ queued.called ++ (queued.functors ++ queued.pending)
called_in_order_example = called_in_order counter 0 queued queued-Reach

abbrev busy : Loop ℕ counter
busy = record fresh { at = handling; pending = 1 ∷ 2 ∷ []; queued = 1 ∷ 2 ∷ [] }

-- The functor 1 queues 10, and 2 queues 20.
do_pending_functors_lem_example :
    Reach counter busy (do_pending_functors counter (λ f. 10 * f ∷ []) busy)
    × ((do_pending_functors counter (λ f. 10 * f ∷ []) busy).called ≡ 1 ∷ 2 ∷ [])
    × ((do_pending_functors counter (λ f. 10 * f ∷ []) busy).pending ≡ 10 ∷ 20 ∷ [])
    × ((do_pending_functors counter (λ f. 10 * f ∷ []) busy).at ≡ testing)
unfolding make_loop
do_pending_functors_lem_example = do_pending_functors_lem counter (λ f. 10 * f ∷ []) busy refl refl

-- A functor that queues another wakes the loop; a handler that does so does not.
woken_by_functor :
    (queue_in_loop counter true 7 (record fresh { calling_pend_functors = true })).wakeup_fd ≡ 1
unfolding queue_in_loop push wake_for_functor make_loop count_up wakeup
woken_by_functor = refl

not_woken_by_handler : (queue_in_loop counter true 7 fresh).wakeup_fd ≡ 0
unfolding queue_in_loop wake_for_functor make_loop push
not_woken_by_handler = refl

run_in_loop_now : (run_in_loop counter (λ f l. l) true 7 fresh).pending ≡ []
unfolding run_in_loop make_loop
run_in_loop_now = refl

quit_wakes : (quit_loop counter false fresh).wakeup_fd ≡ 1
unfolding quit_loop set_quit wake_for_quit make_loop count_up wakeup
quit_wakes = refl

make_event_loop_lem_example :
    (p : Parts list_epoll) × (make_event_loop list_epoll false false (some []) (some 5) 40 ≡ ok p)
    × (p.has_loop ≡ true)
    × (entry_of list_epoll p.poller 5 ≡ some (record { events = 3; ptr = 40 }))
unfolding lookup
make_event_loop_lem_example = make_event_loop_lem list_epoll [] 5 40 (λ g. refl) tt

make_event_loop-destroy_example :
    (p : Parts list_epoll) × (make_event_loop list_epoll false false (some []) (some 5) 40 ≡ ok p)
    × (p' : Parts list_epoll) × (destroy_event_loop list_epoll 40 p ≡ ok p')
    × Inv list_epoll p'.poller
    × IsFree list_epoll 40 5 p'.poller
    × (p'.has_loop ≡ false)
unfolding lookup
make_event_loop-destroy_example = make_event_loop-destroy list_epoll [] 5 40 (λ g. refl) (λ k. tt)
