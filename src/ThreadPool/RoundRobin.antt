-- ===== src/ThreadPool/RoundRobin.antt =====
-- `getNextLoop` deals the loops out in turn.
use mu_muduo.Common.{
  ◌⊎◌, inl, inr, ℕ, zero, suc, ◌+◌, ◌-◌, ◌≤◌, ◌<◌, ◌≡◌, refl, ap, ◌∙◌, List, [], ◌∷◌, ◌++◌, some,
  get_elem?, length, take, drop, Outcome, ok, ◌>>=◌, >>=-eq-ok, arith, ◌==◌, if◌then◌else◌,
  take_all, length-drop, false, ==_iff,
}
use mu_muduo.ThreadPool.{ThreadPool, get_next_loop, next_loops}

-- The position lies among the loops, of which there is at least one.
abbrev pub IsReady : ThreadPool → Type 0
IsReady p = p.next < length p.loops

get_elem?-of-lt : (xs : List ℕ) (i : ℕ) → i < length xs → (v : ℕ) × (get_elem? xs i ≡ some v)
get_elem?-of-lt [] i h = absurd (omega arith)
get_elem?-of-lt (x ∷ xs) zero h = (x, refl)
get_elem?-of-lt (x ∷ xs) (suc i) h = get_elem?-of-lt xs i (omega arith)

drop-get_elem? : (xs : List ℕ) (i v : ℕ) → get_elem? xs i ≡ some v → drop i xs ≡ v ∷ drop (i + 1) xs
drop-get_elem? [] i v h = cc
drop-get_elem? (x ∷ xs) zero v h = ground arith
drop-get_elem? (x ∷ xs) (suc i) v h =
    drop-get_elem? xs i v h ∙ ap (λ k. v ∷ drop k (x ∷ xs)) {x = suc (i + 1)} (omega arith)

-- The position after one more call.
abbrev pub advance : ℕ → ThreadPool → ThreadPool
advance n p = record p { next = if length p.loops == n then 0 else n }

get_next_loop_lem :
    (p : ThreadPool) (v : ℕ)
    → get_elem? p.loops p.next ≡ some v
    → p.next < length p.loops
    → get_next_loop p ≡ ok (v, advance (p.next + 1) p)
unfolding get_next_loop
get_next_loop_lem p v e h = ground arith

abbrev onto : ℕ → Outcome (List ℕ × ThreadPool) → Outcome (List ℕ × ThreadPool)
onto v m = m >>= λ r. ok (v ∷ r.0, r.1)

-- `k` calls that do not pass the end return the next `k` loops.
next_loops-run :
    (k : ℕ) (p : ThreadPool)
    → p.next < length p.loops
    → p.next + k ≤ length p.loops
    → next_loops k p ≡ ok (take k (drop p.next p.loops), advance (p.next + k) p)
unfolding next_loops
next_loops-run zero p h g = ground arith
next_loops-run (suc zero) p h g =
    let (v, e) = get_elem?-of-lt p.loops p.next h in
    rw (get_next_loop_lem p v e h, drop-get_elem? p.loops p.next v e)
next_loops-run (suc (suc k)) p h g =
    let (v, e) = get_elem?-of-lt p.loops p.next h in
    rw (get_next_loop_lem p v e h, drop-get_elem? p.loops p.next v e, not_last)
      (rest v (next_loops-run (suc k) (record p { next = p.next + 1 }) (omega arith) (omega arith)))
  where
    not_last : (length p.loops == p.next + 1) ≡ false
    not_last = ground arith

    rest :
        (v : ℕ)
        → next_loops (suc k) (record p { next = p.next + 1 })
          ≡ ok (take (suc k) (drop (p.next + 1) p.loops), advance (p.next + 1 + suc k) p)
        → onto v (next_loops (suc k) (record p { next = p.next + 1 }))
          ≡ ok (v ∷ take (suc k) (drop (p.next + 1) p.loops), advance (p.next + suc (suc k)) p)
    rest v e =
        ap (onto v) e
        ∙ ap (λ n. ok (v ∷ take (suc k) (drop (p.next + 1) p.loops), advance n p)) (omega arith)

abbrev dealt : List ℕ → ThreadPool → Outcome (List ℕ × ThreadPool)
dealt xs p = ok (xs, p)

same_front :
    (l : ℕ) (ls xs ys : List ℕ) (q' q r : ThreadPool)
    → dealt (l ∷ ls) q' ≡ dealt xs q
    → dealt (l ∷ (ls ++ ys)) r ≡ dealt (xs ++ ys) r
same_front l ls xs ys q' q r e = let h : l ∷ ls ≡ xs = cc in ap (λ zs. dealt (zs ++ ys) r) h

same_pool :
    (l : ℕ) (ls xs : List ℕ) (q' q : ThreadPool)
    → dealt (l ∷ ls) q' ≡ dealt xs q
    → dealt ls q' ≡ dealt ls q
same_pool l ls xs q' q e = cc

-- Two runs of calls after one another.
next_loops-add :
    (j k : ℕ) (p q r : ThreadPool) (xs ys : List ℕ)
    → next_loops j p ≡ ok (xs, q)
    → next_loops k q ≡ ok (ys, r)
    → next_loops (j + k) p ≡ ok (xs ++ ys, r)
unfolding next_loops
next_loops-add zero k p q r xs ys e f = ap (λ n. next_loops n p) {y = k} (omega arith) ∙ cc
next_loops-add (suc j) k p q r xs ys e f =
    let (lp, e₁, e₂) = >>=-eq-ok (λ x. onto x.0 (next_loops j x.1)) (get_next_loop p) e in
    let (lq, e₃, e₄) = >>=-eq-ok (λ x. ok (lp.0 ∷ x.0, x.1)) (next_loops j lp.1) e₂ in
    ap (λ n. next_loops n p) {y = suc (j + k)} (omega arith)
    ∙ rw e₁ (
        ap (onto lp.0)
          (next_loops-add j k lp.1 q r lq.0 ys (e₃ ∙ same_pool lp.0 lq.0 xs lq.1 q e₄) f)
        ∙ same_front lp.0 lq.0 xs ys lq.1 q r e₄)

-- On a pool with a position among its loops, as many calls of `getNextLoop` as there are loops
-- return every loop once, in order from that position and round the end, and leave the pool as it
-- was.
pub next_loops-round :
    (p : ThreadPool)
    → IsReady p
    → next_loops (length p.loops) p ≡ ok (drop p.next p.loops ++ take p.next p.loops, p)
next_loops-round p h =
    ap (λ k. next_loops k p) {y = length p.loops - p.next + p.next} (omega arith)
    ∙ next_loops-add (length p.loops - p.next) p.next p (record p { next = 0 }) p _ _ first second
  where
    first : next_loops (length p.loops - p.next) p ≡ ok (drop p.next p.loops, record p { next = 0 })
    first =
        next_loops-run (length p.loops - p.next) p h (omega arith)
        ∙ rw (
          take_all (length p.loops - p.next) (drop p.next p.loops)
              (omega (arith, length-drop p.next p.loops)),
          (==_iff (length p.loops) (p.next + (length p.loops - p.next))).1 (omega arith),
        )

    second : next_loops p.next (record p { next = 0 }) ≡ ok (take p.next p.loops, p)
    second =
        next_loops-run p.next (record p { next = 0 }) (omega arith) (omega arith) ∙ ground arith

-- With no worker loops every call returns the base loop and changes nothing.
pub get_next_loop-base : (p : ThreadPool) → p.loops ≡ [] → get_next_loop p ≡ ok (p.base_loop, p)
unfolding get_next_loop
get_next_loop-base p e = ground arith

-- Ready, or with no worker loops at all.
abbrev pub IsUsable : ThreadPool → Type 0
IsUsable p = IsReady p ⊎ (p.loops ≡ [])

-- On a usable pool `getNextLoop` returns, and the pool stays usable.
pub get_next_loop-IsUsable :
    (p : ThreadPool)
    → IsUsable p
    → (v : ℕ) × (p' : ThreadPool) × (get_next_loop p ≡ ok (v, p')) × IsUsable p'
get_next_loop-IsUsable p (inr e) = (p.base_loop, p, get_next_loop-base p e, inr e)
get_next_loop-IsUsable p (inl h) =
    let (v, e) = get_elem?-of-lt p.loops p.next h in
    (v, advance (p.next + 1) p, get_next_loop_lem p v e h, inl (ground arith))
