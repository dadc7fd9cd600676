-- ===== src/LoopThread/Join.antt =====
-- The join in the destructor.
use mu_muduo.Common.{ℕ, ◌≡◌, refl, ◌⊎◌, inl, inr, Bool, true, false, ◌||◌, no_bool}
use mu_muduo.LoopThread.{
  LoopThread, joining, gone, published, looping, left, ended, start_thread, post_tid, call_callback,
  publish, enter_loop, clear_loop, destroy_running, destroy_rest, Step, starts, passes_sem,
  gets_loop, posts, makes_loop, calls_back, publishes, enters_loop, asks_quit, leaves_loop, clears,
  destroys_running, destroys_stopped, destroys_unstarted, joins, Reach, here, next,
}

-- The owner waits in the join for a thread that is about to enter its loop, or is in it and not asked
-- to quit.
abbrev pub IsStuck : LoopThread → Type 0
IsStuck t =
    (t.owner ≡ joining) × ((t.worker ≡ published) ⊎ ((t.worker ≡ looping) × (t.quit ≡ false)))

module _ {number : ℕ} where
  -- The step is a call of `quit`, and a run has such a step.
  abbrev pub asks : {t u : LoopThread} → Step number t u → Bool
  asks (starts t e) = false
  asks (passes_sem t e h) = false
  asks (gets_loop t e h) = false
  asks (posts t e) = false
  asks (makes_loop t e) = false
  asks (calls_back t e) = false
  asks (publishes t e) = false
  asks (enters_loop t e) = false
  asks (asks_quit t e) = true
  asks (leaves_loop t e h) = false
  asks (clears t e) = false
  asks (destroys_running t e h) = false
  asks (destroys_stopped t e h) = false
  asks (destroys_unstarted t e h) = false
  asks (joins t e h) = false

  abbrev pub asked : {t u : LoopThread} → Reach number t u → Bool
  asked here = false
  asked (next r s) = asked r || asks s

module _ (number : ℕ) where
  Step-IsStuck : {t u : LoopThread} (s : Step number t u) → asks s ≡ false → IsStuck t → IsStuck u
  unfolding start_thread post_tid call_callback publish enter_loop clear_loop destroy_running
      destroy_rest
  Step-IsStuck (starts t e) q (o, inl w) = cc
  Step-IsStuck (starts t e) q (o, inr (w, k)) = cc
  Step-IsStuck (passes_sem t e h) q (o, inl w) = cc
  Step-IsStuck (passes_sem t e h) q (o, inr (w, k)) = cc
  Step-IsStuck (gets_loop t e h) q (o, inl w) = cc
  Step-IsStuck (gets_loop t e h) q (o, inr (w, k)) = cc
  Step-IsStuck (posts t e) q (o, inl w) = cc
  Step-IsStuck (posts t e) q (o, inr (w, k)) = cc
  Step-IsStuck (makes_loop t e) q (o, inl w) = cc
  Step-IsStuck (makes_loop t e) q (o, inr (w, k)) = cc
  Step-IsStuck (calls_back t e) q (o, inl w) = cc
  Step-IsStuck (calls_back t e) q (o, inr (w, k)) = cc
  Step-IsStuck (publishes t e) q (o, inl w) = cc
  Step-IsStuck (publishes t e) q (o, inr (w, k)) = cc
  Step-IsStuck (enters_loop t e) q (o, w) = (o, inr (refl, refl))
  Step-IsStuck (asks_quit t e) q (o, w) = no_bool refl q
  Step-IsStuck (leaves_loop t e h) q (o, inl w) = cc
  Step-IsStuck (leaves_loop t e h) q (o, inr (w, k)) = cc
  Step-IsStuck (clears t e) q (o, inl w) = cc
  Step-IsStuck (clears t e) q (o, inr (w, k)) = cc
  Step-IsStuck (destroys_running t e h) q (o, inl w) = cc
  Step-IsStuck (destroys_running t e h) q (o, inr (w, k)) = cc
  Step-IsStuck (destroys_stopped t e h) q (o, inl w) = cc
  Step-IsStuck (destroys_stopped t e h) q (o, inr (w, k)) = cc
  Step-IsStuck (destroys_unstarted t e h) q (o, inl w) = cc
  Step-IsStuck (destroys_unstarted t e h) q (o, inr (w, k)) = cc
  Step-IsStuck (joins t e h) q (o, inl w) = cc
  Step-IsStuck (joins t e h) q (o, inr (w, k)) = cc

  no_asks : (x y : Bool) → (x || y) ≡ false → (x ≡ false) × (y ≡ false)
  no_asks true y e = no_bool refl e
  no_asks false y e = (refl, e)

  Reach-IsStuck :
      {t u : LoopThread} (r : Reach number t u) → asked r ≡ false → IsStuck t → IsStuck u
  Reach-IsStuck here q s = s
  Reach-IsStuck (next r st) q s =
      let (q₁, q₂) = no_asks (asked r) (asks st) q in Step-IsStuck st q₂ (Reach-IsStuck r q₁ s)

  -- When the destructor meets a thread that is about to enter its loop, whether or not `quit_` is set,
  -- or is in its loop with `quit_` not set, then in every interleaving behind that without a call of
  -- `quit` on the loop the destructor stays in its join, and the thread before its loop or in it
  -- with `quit_` not set.
  pub destroy_running-IsStuck :
      (t u : LoopThread)
      → (t.worker ≡ published) ⊎ ((t.worker ≡ looping) × (t.quit ≡ false))
      → (r : Reach number (destroy_running t) u) → asked r ≡ false
      → IsStuck u
  unfolding destroy_running
  destroy_running-IsStuck t u w r q = Reach-IsStuck r q (refl, w)

  -- When somebody has asked the loop to quit, the destructor that meets it running can come to its
  -- end, by two steps of the loop's thread and the return of the join.
  pub destroy_running-ends :
      (t : LoopThread)
      → t.worker ≡ looping
      → t.quit ≡ true
      → (u : LoopThread) × Reach number (destroy_running t) u
        × (u.owner ≡ gone)
        × (u.worker ≡ ended)
  unfolding destroy_running clear_loop destroy_rest
  destroy_running-ends t e q =
      let t₁ = destroy_running t in
      let t₂ = record t₁ { worker = left } in
      let t₃ = clear_loop t₂ in
      (
        destroy_rest t₃,
        next (next (next here (leaves_loop t₁ e q)) (clears t₂ refl)) (joins t₃ refl refl),
        refl,
        refl,
      )
