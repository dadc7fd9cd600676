-- ===== src/Loop.antt =====
-- EventLoop.cc and .h: the loop with the functors that wait for it, and the descriptor that wakes it.
-- The eventfd is an interface. `at` tells where the loop's thread is, so that the operations can be
-- the steps of several threads.
pub mod Steps
pub mod Invariant
pub mod Progress
pub mod Create
mod Tests
use mu_muduo.Common.{ℕ, ◌+◌, ◌≡◌, Bool, true, false, not, ◌||◌, List, [], ◌∷◌, ◌++◌, if◌then◌else◌}

-- eventfd(2): a write makes the counter readable, also one that fails because the counter is full.
pub record Eventfd : Type 1 where
  pub Counter : Type 0
  pub signal : Counter → Counter
  pub clear : Counter → Counter
  pub readable : Counter → Bool
  pub signal-readable : (c : Counter) → readable (signal c) ≡ true

-- In `loop`: before it or after it, at the test of `quit_`, in `poll`, among the handlers; and in
-- `dopendingFunctors`: before the swap, among the functors.
pub data Where : Type 0 where
  outside testing polling handling swapping running : Where

-- `functors` is the local vector, from the next one to call on. `owing` and `owing_quit` count the
-- other threads that are between the two halves of `queueInLoop`, and of `quit`. `queued` and
-- `called` are the history: what was put into the queue, and what was taken from it and called.
pub record EventLoop (F Counter : Type 0) : Type 0 where
  pub looping : Bool
  pub quit : Bool
  pub calling_pend_functors : Bool
  pub pending : List F
  pub functors : List F
  pub wakeup_fd : Counter
  pub at : Where
  pub owing : ℕ
  pub owing_quit : ℕ
  pub queued : List F
  pub called : List F

abbrev pub Loop : Type 0 → Eventfd → Type 0
Loop F efd = EventLoop F efd.Counter

module _ {F : Type 0} (efd : Eventfd) where
  pub make_loop : efd.Counter → Loop F efd
  make_loop c = record {
    looping = false;
    quit = false;
    calling_pend_functors = false;
    pending = [];
    functors = [];
    wakeup_fd = c;
    at = outside;
    owing = 0;
    owing_quit = 0;
    queued = [];
    called = [];
  }

  unfoldable pub wakeup : Loop F efd → Loop F efd
  wakeup l = record l { wakeup_fd = efd.signal l.wakeup_fd }

  unfoldable pub headle_read : Loop F efd → Loop F efd
  headle_read l = record l { wakeup_fd = efd.clear l.wakeup_fd }

  -- The first block of `queueInLoop`, under the mutex.
  unfoldable pub push : F → Loop F efd → Loop F efd
  push f l = record l { pending = l.pending ++ f ∷ []; queued = l.queued ++ f ∷ [] }

  -- Its second half; `in_loop` is what `isInLoopThread()` answers.
  unfoldable pub wake_for_functor : Bool → Loop F efd → Loop F efd
  unfolding wakeup
  wake_for_functor in_loop l = if not in_loop || l.calling_pend_functors then wakeup l else l

  unfoldable pub queue_in_loop : Bool → F → Loop F efd → Loop F efd
  unfolding push wake_for_functor
  queue_in_loop in_loop f l = wake_for_functor in_loop (push f l)

  -- `call` is what calling the functor does.
  unfoldable pub run_in_loop : (F → Loop F efd → Loop F efd) → Bool → F → Loop F efd → Loop F efd
  unfolding queue_in_loop
  run_in_loop call in_loop f l = if in_loop then call f l else queue_in_loop in_loop f l

  -- The two halves of `quit`.
  unfoldable pub set_quit : Loop F efd → Loop F efd
  set_quit l = record l { quit = true }

  unfoldable pub wake_for_quit : Bool → Loop F efd → Loop F efd
  unfolding wakeup
  wake_for_quit in_loop l = if not in_loop then wakeup l else l

  unfoldable pub quit_loop : Bool → Loop F efd → Loop F efd
  unfolding set_quit wake_for_quit
  quit_loop in_loop l = wake_for_quit in_loop (set_quit l)

  -- `loop`, up to the first test.
  unfoldable pub enter : Loop F efd → Loop F efd
  enter l = record l { looping = true; quit = false; at = testing }

  unfoldable pub leave : Loop F efd → Loop F efd
  leave l = record l { looping = false; at = outside }

  -- `dopendingFunctors`: its flag, the swap under the mutex, one functor taken, and its end.
  unfoldable pub begin_functors : Loop F efd → Loop F efd
  begin_functors l = record l { calling_pend_functors = true; at = swapping }

  unfoldable pub swap_functors : Loop F efd → Loop F efd
  swap_functors l = record l { functors = l.pending; pending = []; at = running }

  unfoldable pub take_functor : F → List F → Loop F efd → Loop F efd
  take_functor f fs l = record l { functors = fs; called = l.called ++ f ∷ [] }

  unfoldable pub end_functors : Loop F efd → Loop F efd
  end_functors l = record l { calling_pend_functors = false; at = testing }

  -- `queues` tells what a functor puts into the queue when it is called.
  pub queue_all : List F → Loop F efd → Loop F efd
  unfolding queue_in_loop
  queue_all [] l = l
  queue_all (g ∷ gs) l = queue_all gs (queue_in_loop true g l)

  pub call_functors : (F → List F) → List F → Loop F efd → Loop F efd
  unfolding queue_all take_functor
  call_functors queues [] l = l
  call_functors queues (f ∷ fs) l =
      call_functors queues fs (queue_all (queues f) (take_functor f fs l))

  pub do_pending_functors : (F → List F) → Loop F efd → Loop F efd
  unfolding call_functors begin_functors swap_functors end_functors
  do_pending_functors queues l =
      let swapped = swap_functors (begin_functors l) in
      end_functors (call_functors queues swapped.functors swapped)
