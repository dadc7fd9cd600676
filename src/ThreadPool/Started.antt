-- ===== src/ThreadPool/Started.antt =====
-- What `start` adds to the pool.
use mu_muduo.Common.{
  ℕ, zero, suc, ◌+◌, ◌≡◌, refl, ap, ◌∙◌, List, length, arith, [], ◌∷◌, ◌++◌, append_assoc,
  append-nil, Bool, true, decimal,
}
use mu_muduo.ThreadPool.{ThreadPool, start, start_threads, rounds}

-- The values of `f` at `i`, `i + 1`, …
abbrev pub from_on {ℓ} : {A : Type ℓ} → ℕ → ℕ → (ℕ → A) → List A
from_on zero i f = []
from_on (suc k) i f = f i ∷ from_on k (i + 1) f

start_threads_lem :
    (k i : ℕ) (loop_of : ℕ → ℕ) (p : ThreadPool)
    → start_threads k i loop_of p ≡ record p {
      threads = p.threads ++ from_on k i (λ j. p.name ++ decimal j);
      loops = p.loops ++ from_on k i loop_of;
    }
unfolding start_threads
start_threads_lem zero i loop_of p = rw (append-nil p.threads, append-nil p.loops)
start_threads_lem (suc k) i loop_of p =
    start_threads_lem k (i + 1) loop_of _ ∙ rw (append_assoc p.threads, append_assoc p.loops)

-- `start` adds, for each thread asked for, its loop and its name with the number behind it, in order.
pub start-loops :
    (cb_set : Bool) (loop_of : ℕ → ℕ) (p : ThreadPool)
    → ((start cb_set loop_of p).0.loops ≡ p.loops ++ from_on (rounds p.num_threads) 0 loop_of)
      × ((start cb_set loop_of p).0.threads
          ≡ p.threads ++ from_on (rounds p.num_threads) 0 (λ j. p.name ++ decimal j))
unfolding start
start-loops cb_set loop_of p = (
  ap (λ q. q.loops)
      (start_threads_lem (rounds p.num_threads) 0 loop_of (record p { started = true })),
  ap (λ q. q.threads)
      (start_threads_lem (rounds p.num_threads) 0 loop_of (record p { started = true })),
)

pub start-next :
    (cb_set : Bool) (loop_of : ℕ → ℕ) (p : ThreadPool) → (start cb_set loop_of p).0.next ≡ p.next
unfolding start
start-next cb_set loop_of p =
    ap (λ q. q.next)
      (start_threads_lem (rounds p.num_threads) 0 loop_of (record p { started = true }))

pub length-from_on {ℓ} : {A : Type ℓ} (k i : ℕ) (f : ℕ → A) → length (from_on k i f) ≡ k
length-from_on zero i f = refl
length-from_on (suc k) i f = omega (arith, length-from_on k (i + 1) f)
