-- ===== src/ThreadPool.antt =====
-- EventLoopThreadPool.cc and .h. A loop is named by its address; the loop that a started thread hands
-- out is an argument. Threads are named by the text that `snprintf` builds.
pub mod RoundRobin
pub mod Started
mod Tests
use mu_muduo.Common.{
  ℕ, zero, suc, ◌+◌, ◌-◌, Bool, true, false, ◌&&◌, List, [], ◌∷◌, ◌++◌, Option, none, some,
  get_elem?, length, leb, ltb, ◌==◌, if◌then◌else◌, Outcome, ok, err, out_of_bounds, ◌>>=◌, ℤ, pos,
  negsuc, ◌==ℤ◌, decimal,
}

-- `num_threads` and `next` are `int`; `next` only counts up from 0.
pub record ThreadPool : Type 0 where
  pub base_loop : ℕ
  pub name : List ℕ
  pub started : Bool
  pub num_threads : ℤ
  pub next : ℕ
  pub threads : List (List ℕ)
  pub loops : List ℕ

unfoldable pub make_pool : ℕ → List ℕ → ThreadPool
make_pool base name = record {
  base_loop = base;
  name = name;
  started = false;
  num_threads = pos 0;
  next = 0;
  threads = [];
  loops = [];
}

unfoldable pub set_thread_num : ℤ → ThreadPool → ThreadPool
set_thread_num n p = record p { num_threads = n }

-- Rounds `i`, `i + 1`, … of the loop in `start`, as many as the first argument says.
start_threads : ℕ → ℕ → (ℕ → ℕ) → ThreadPool → ThreadPool
start_threads zero i loop_of p = p
start_threads (suc k) i loop_of p = start_threads k (i + 1) loop_of (record p {
  threads = p.threads ++ (p.name ++ decimal i) ∷ [];
  loops = p.loops ++ loop_of i ∷ [];
})

-- No round for a number that is not positive.
abbrev pub rounds : ℤ → ℕ
rounds (pos n) = n
rounds (negsuc n) = 0

-- `cb_set` tells whether a callback was given; the list is the loops on which `start` itself calls
-- it.
pub start : Bool → (ℕ → ℕ) → ThreadPool → ThreadPool × List ℕ
unfolding start_threads
start cb_set loop_of p = (
  start_threads (rounds p.num_threads) 0 loop_of (record p { started = true }),
  if (p.num_threads ==ℤ pos 0) && cb_set then p.base_loop ∷ [] else [],
)

-- `loops_[next_]` out of range is undefined.
pub get_next_loop : ThreadPool → Outcome (ℕ × ThreadPool)
get_next_loop p = elim p.loops [
  | [] ↦ ok (p.base_loop, p)
  | l ∷ ls ↦ elim (get_elem? p.loops p.next) [
    | none ↦ err out_of_bounds
    | some loop ↦
        ok (loop, record p { next = if leb (length p.loops) (p.next + 1) then 0 else p.next + 1 })
  ]
]

pub get_all_loops : ThreadPool → List ℕ
get_all_loops p = elim p.loops [ [] ↦ p.base_loop ∷ [] | l ∷ ls ↦ p.loops ]

-- `k` calls of `getNextLoop`, in order.
unfoldable pub next_loops : ℕ → ThreadPool → Outcome (List ℕ × ThreadPool)
unfolding get_next_loop
next_loops zero p = ok ([], p)
next_loops (suc k) p = do (l, p') ← get_next_loop p; (ls, p'') ← next_loops k p'; ok (l ∷ ls, p'')
