-- ===== src/LoopThread/Tests.antt =====
-- A thread of its own for a loop, from `startLoop` to the destructor.
use mu_muduo.Common.{◌≡◌, refl, ◌⊎◌, inl, true, false, [], ◌∷◌, arith}
use mu_muduo.Thread.{Thread, begin_thread, store_tid}
use mu_muduo.LoopThread.{
  LoopThread, make_loop_thread, start_thread, post_tid, call_callback, publish, returned, published,
  enter_loop, enters_loop, looping, left, ended, made, waiting, gone, destroy_running, starts,
  passes_sem, gets_loop, posts, makes_loop, calls_back, publishes, Reach, here, next,
}
use mu_muduo.LoopThread.Safety.{start_loop_lem}
use mu_muduo.LoopThread.Join.{IsStuck, destroy_running-IsStuck, destroy_running-ends}

abbrev fresh_thread : Thread
fresh_thread = record { started = false; joined = false; tid = 0; name = 84 ∷ []; detached = false }

abbrev unstarted : LoopThread
unstarted = make_loop_thread fresh_thread true

abbrev running : LoopThread
running = record unstarted {
  loop_set = true;
  thread = record fresh_thread { started = true; tid = 12 };
  called = true;
  owner = returned;
  worker = published;
}

running-Reach : Reach 12 unstarted running
unfolding make_loop_thread start_thread begin_thread post_tid store_tid call_callback publish
running-Reach =
    let s₁ = start_thread unstarted in
    let s₂ = post_tid 12 s₁ in
    let s₃ = record s₂ { sem = 0; owner = waiting } in
    let s₄ = record s₃ { worker = made } in
    let s₅ = call_callback s₄ in
    next
      (next
        (next
          (next
            (next (next (next here (starts unstarted refl)) (posts s₁ refl))
              (passes_sem s₂ refl (omega arith)))
            (makes_loop s₃ refl))
          (calls_back s₄ refl))
        (publishes s₅ refl))
      (gets_loop (publish s₅) refl refl)

start_loop_lem_example :
    (running.called ≡ running.callback)
    × (running.thread.tid ≡ 12)
    × ((running.worker ≡ published)
        ⊎ (running.worker ≡ looping)
        ⊎ (running.worker ≡ left)
        ⊎ (running.worker ≡ ended))
start_loop_lem_example = start_loop_lem 12 fresh_thread true running running-Reach refl

-- The thread goes on into its loop.
destroy_running-IsStuck_example : IsStuck (enter_loop (destroy_running running))
unfolding enter_loop destroy_running
destroy_running-IsStuck_example =
    destroy_running-IsStuck 12 running (enter_loop (destroy_running running)) (inl refl)
      (next here (enters_loop (destroy_running running) refl)) refl

abbrev in_loop : LoopThread
in_loop = record running { worker = looping; quit = true }

destroy_running-ends_example :
    (u : LoopThread) × Reach 12 (destroy_running in_loop) u × (u.owner ≡ gone) × (u.worker ≡ ended)
destroy_running-ends_example = destroy_running-ends 12 in_loop refl refl
