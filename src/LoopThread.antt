-- ===== src/LoopThread.antt =====
-- EventLoopThread.cc and .h, with `Thread::start` and `Thread::join`: the thread that owns the object
-- and the thread that runs the loop, as steps that interleave. The pointer `loop_` is either null
-- or the loop of the second thread.
pub mod Safety
pub mod Join
mod Tests
use mu_muduo.Common.{ℕ, ◌+◌, ◌-◌, ◌<◌, ◌≡◌, Bool, true, false, not, ◌||◌, List, if◌then◌else◌}
use mu_muduo.Thread.{Thread, make_thread, begin_thread, store_tid, begin_join, destroy_thread}

-- The owner: before `startLoop`, at the semaphore, in the wait for `loop_`, after the return; in the
-- join of the destructor, and after the destructor.
pub data Owner : Type 0 where
  idle at_sem waiting returned joining gone : Owner

-- The other thread: not there; before its post; at the construction of its loop, at the callback,
-- at the lock; behind the lock, before `loop.loop()`; in it past its first lines, behind it, and at its
-- end.
pub data Worker : Type 0 where
  unborn spawned posted made told published looping left ended : Worker

-- The loop object is there, and `threadFunc` has handed out its address or may yet.
abbrev pub has_loop : Worker → Bool
has_loop unborn = false
has_loop spawned = false
has_loop posted = false
has_loop made = true
has_loop told = true
has_loop published = true
has_loop looping = true
has_loop left = true
has_loop ended = false

-- `callback` tells whether a callback was given, `called` whether it was called; `quit` is `quit_` of
-- the loop.
pub record LoopThread : Type 0 where
  pub loop_set : Bool
  pub exiting : Bool
  pub thread : Thread
  pub callback : Bool
  pub called : Bool
  pub quit : Bool
  pub sem : ℕ
  pub owner : Owner
  pub worker : Worker

pub make_loop_thread : Thread → Bool → LoopThread
make_loop_thread thread callback = record {
  loop_set = false;
  exiting = false;
  thread = thread;
  callback = callback;
  called = false;
  quit = false;
  sem = 0;
  owner = idle;
  worker = unborn;
}

-- `Thread::start` up to `sem_wait`.
unfoldable pub start_thread : LoopThread → LoopThread
unfolding begin_thread
start_thread t = record t {
  thread = begin_thread t.thread;
  sem = 0;
  owner = at_sem;
  worker = spawned;
}

-- The first lines of the new thread, in `Thread::start`.
unfoldable pub post_tid : ℕ → LoopThread → LoopThread
unfolding store_tid
post_tid number t = record t {
  thread = store_tid number t.thread;
  sem = t.sem + 1;
  worker = posted;
}

-- `threadFunc`: the callback, if there is one; the pointer under the lock; and its end.
unfoldable pub call_callback : LoopThread → LoopThread
call_callback t = record t { called = t.called || t.callback; worker = told }

unfoldable pub publish : LoopThread → LoopThread
publish t = record t { loop_set = true; worker = published }

-- The first lines of `loop.loop()`: they clear `quit_`.
unfoldable pub enter_loop : LoopThread → LoopThread
enter_loop t = record t { quit = false; worker = looping }

unfoldable pub clear_loop : LoopThread → LoopThread
clear_loop t = record t { loop_set = false; worker = ended }

-- The destructor up to the join, where `loop_` is set, and where it is not. Behind it the thread
-- object is destroyed.
unfoldable pub destroy_running : LoopThread → LoopThread
unfolding begin_join
destroy_running t = record t {
  exiting = true;
  loop_set = false;
  thread = begin_join t.thread;
  owner = joining;
}

unfoldable pub destroy_rest : LoopThread → LoopThread
unfolding destroy_thread
destroy_rest t = record t { exiting = true; thread = destroy_thread t.thread; owner = gone }

-- `number` is what the kernel calls the new thread. `asks_quit` is a call of `quit` on the loop, by
-- any thread. `loop()` returns only when `quit_` is set.
pub data Step (number : ℕ) : LoopThread → LoopThread → Type 0 where
  starts : (t : LoopThread) → t.owner ≡ idle → Step number t (start_thread t)
  passes_sem :
      (t : LoopThread)
      → t.owner ≡ at_sem
      → 0 < t.sem
      → Step number t (record t { sem = t.sem - 1; owner = waiting })
  gets_loop :
      (t : LoopThread)
      → t.owner ≡ waiting
      → t.loop_set ≡ true
      → Step number t (record t { owner = returned })
  posts : (t : LoopThread) → t.worker ≡ spawned → Step number t (post_tid number t)
  makes_loop : (t : LoopThread) → t.worker ≡ posted → Step number t (record t { worker = made })
  calls_back : (t : LoopThread) → t.worker ≡ made → Step number t (call_callback t)
  publishes : (t : LoopThread) → t.worker ≡ told → Step number t (publish t)
  enters_loop : (t : LoopThread) → t.worker ≡ published → Step number t (enter_loop t)
  asks_quit : (t : LoopThread) → has_loop t.worker ≡ true → Step number t (record t { quit = true })
  leaves_loop :
      (t : LoopThread)
      → t.worker ≡ looping
      → t.quit ≡ true
      → Step number t (record t { worker = left })
  clears : (t : LoopThread) → t.worker ≡ left → Step number t (clear_loop t)
  destroys_running :
      (t : LoopThread) → t.owner ≡ returned → t.loop_set ≡ true → Step number t (destroy_running t)
  destroys_stopped :
      (t : LoopThread) → t.owner ≡ returned → t.loop_set ≡ false → Step number t (destroy_rest t)
  destroys_unstarted :
      (t : LoopThread) → t.owner ≡ idle → t.loop_set ≡ false → Step number t (destroy_rest t)
  joins : (t : LoopThread) → t.owner ≡ joining → t.worker ≡ ended → Step number t (destroy_rest t)

pub data Reach (number : ℕ) (t : LoopThread) : LoopThread → Type 0 where
  here : Reach number t t
  next : {u v : LoopThread} → Reach number t u → Step number u v → Reach number t v
