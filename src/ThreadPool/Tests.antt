-- ===== src/ThreadPool/Tests.antt =====
-- Three loops dealt out from the second.
use mu_muduo.Common.{◌≡◌, refl, [], ◌∷◌, true, ok, arith, pos, decimal}
use mu_muduo.ThreadPool.{ThreadPool, make_pool, set_thread_num, start, next_loops}
use mu_muduo.ThreadPool.RoundRobin.{next_loops-round}
use mu_muduo.ThreadPool.Started.{start-loops}

abbrev three_loops : ThreadPool
three_loops = record {
  base_loop = 1;
  name = [];
  started = true;
  num_threads = pos 3;
  next = 1;
  threads = (48 ∷ []) ∷ (49 ∷ []) ∷ (50 ∷ []) ∷ [];
  loops = 10 ∷ 20 ∷ 30 ∷ [];
}

next_loops-round_example : next_loops 3 three_loops ≡ ok (20 ∷ 30 ∷ 10 ∷ [], three_loops)
next_loops-round_example = next_loops-round three_loops (omega arith)

start_names :
    (start true (λ i. i) (set_thread_num (pos 2) (make_pool 1 (112 ∷ [])))).0.threads
    ≡ (112 ∷ 48 ∷ []) ∷ (112 ∷ 49 ∷ []) ∷ []
unfolding start make_pool set_thread_num decimal
start_names = refl

start-loops_example :
    (start true (λ i. i) (record three_loops { loops = [] })).0.loops ≡ 0 ∷ 1 ∷ 2 ∷ []
start-loops_example = (start-loops true (λ i. i) (record three_loops { loops = [] })).0
