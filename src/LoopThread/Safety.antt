-- ===== src/LoopThread/Safety.antt =====
-- What `startLoop` waits for: the loop is there, and all that comes before it in the new thread.
use mu_muduo.Common.{
  ◌⊎◌, inl, inr, ℕ, ◌≡◌, refl, sym, ap, subst, ◌||◌, Bool, true, false, arith, no_bool, not, ◌&&◌,
  if◌then◌else◌,
}
use mu_muduo.Thread.{Thread, begin_thread, store_tid, begin_join, destroy_thread}
use mu_muduo.LoopThread.{
  LoopThread, Owner, idle, at_sem, waiting, returned, joining, gone, Worker, unborn, spawned,
  posted, made, told, published, looping, left, ended, make_loop_thread, start_thread, post_tid,
  call_callback, publish, enter_loop, clear_loop, destroy_running, destroy_rest, Step, starts,
  passes_sem, gets_loop, posts, makes_loop, calls_back, publishes, enters_loop, asks_quit,
  leaves_loop, clears, destroys_running, destroys_stopped, destroys_unstarted, joins, Reach, here,
  next,
}

-- Where the new thread has not been started, and where its pointer has been set.
abbrev IsUnborn : Worker → Type 0
IsUnborn unborn = Unit {0}
IsUnborn spawned = ⊥
IsUnborn posted = ⊥
IsUnborn made = ⊥
IsUnborn told = ⊥
IsUnborn published = ⊥
IsUnborn looping = ⊥
IsUnborn left = ⊥
IsUnborn ended = ⊥

abbrev IsPast : Worker → Type 0
IsPast unborn = ⊥
IsPast spawned = ⊥
IsPast posted = ⊥
IsPast made = ⊥
IsPast told = ⊥
IsPast published = Unit {0}
IsPast looping = Unit {0}
IsPast left = Unit {0}
IsPast ended = Unit {0}

-- What the owner knows of the new thread, by the place where it is itself.
abbrev Known : Owner → Worker → Type 0
Known idle w = IsUnborn w
Known at_sem w = Unit {0}
Known waiting w = Unit {0}
Known returned w = IsPast w
Known joining w = Unit {0}
Known gone w = Unit {0}

Known-moved :
    (o : Owner) (w w' : Worker)
    → (IsUnborn w → IsUnborn w')
    → (IsPast w → IsPast w')
    → Known o w
    → Known o w'
Known-moved idle w w' f g k = f k
Known-moved at_sem w w' f g k = k
Known-moved waiting w w' f g k = k
Known-moved returned w w' f g k = g k
Known-moved joining w w' f g k = k
Known-moved gone w w' f g k = k

module _ (number : ℕ) where
  -- What the new thread has done, by the place where it is: `loop_`, the calls of the callback and
  -- the thread's number.
  abbrev Done : Worker → Bool → Bool → Bool → ℕ → Type 0
  Done unborn set called callback tid = (set ≡ false) × (called ≡ false)
  Done spawned set called callback tid = (set ≡ false) × (called ≡ false)
  Done posted set called callback tid = (set ≡ false) × (called ≡ false) × (tid ≡ number)
  Done made set called callback tid = (set ≡ false) × (called ≡ false) × (tid ≡ number)
  Done told set called callback tid = (set ≡ false) × (called ≡ callback) × (tid ≡ number)
  Done published set called callback tid = (called ≡ callback) × (tid ≡ number)
  Done looping set called callback tid = (called ≡ callback) × (tid ≡ number)
  Done left set called callback tid = (called ≡ callback) × (tid ≡ number)
  Done ended set called callback tid = (set ≡ false) × (called ≡ callback) × (tid ≡ number)

  abbrev DoneAt : Worker → LoopThread → Type 0
  DoneAt w t = Done w t.loop_set t.called t.callback t.thread.tid

  record Inv (t : LoopThread) : Type 0 where
    done : DoneAt t.worker t
    known : Known t.owner t.worker

  done_at : {w : Worker} (t : LoopThread) → t.worker ≡ w → Inv t → DoneAt w t
  done_at t e inv = subst (λ w. DoneAt w t) e inv.done

  owner-Known : {o : Owner} (t : LoopThread) → t.owner ≡ o → Inv t → Known o t.worker
  owner-Known t e inv = subst (λ o. Known o t.worker) e inv.known

  -- With the pointer set, the new thread is past the lock.
  set-IsPast :
      (w : Worker) (b called callback : Bool) (tid : ℕ)
      → b ≡ true
      → Done w b called callback tid
      → IsPast w
  set-IsPast unborn b c k n e d = no_bool e d.0
  set-IsPast spawned b c k n e d = no_bool e d.0
  set-IsPast posted b c k n e d = no_bool e d.0
  set-IsPast made b c k n e d = no_bool e d.0
  set-IsPast told b c k n e d = no_bool e d.0
  set-IsPast published b c k n e d = tt
  set-IsPast looping b c k n e d = tt
  set-IsPast left b c k n e d = tt
  set-IsPast ended b c k n e d = tt

  Done-cleared :
      (w : Worker) (b called callback : Bool) (tid : ℕ)
      → Done w b called callback tid
      → Done w false called callback tid
  Done-cleared unborn b c k n d = (refl, d.1)
  Done-cleared spawned b c k n d = (refl, d.1)
  Done-cleared posted b c k n d = (refl, d.1, d.2)
  Done-cleared made b c k n d = (refl, d.1, d.2)
  Done-cleared told b c k n d = (refl, d.1, d.2)
  Done-cleared published b c k n d = d
  Done-cleared looping b c k n d = d
  Done-cleared left b c k n d = d
  Done-cleared ended b c k n d = (refl, d.1, d.2)

  past-Done :
      (w : Worker) (b called callback : Bool) (tid : ℕ)
      → IsPast w
      → Done w b called callback tid
      → (called ≡ callback) × (tid ≡ number)
  past-Done unborn b c k n p d = absurd p
  past-Done spawned b c k n p d = absurd p
  past-Done posted b c k n p d = absurd p
  past-Done made b c k n p d = absurd p
  past-Done told b c k n p d = absurd p
  past-Done published b c k n p d = d
  past-Done looping b c k n p d = d
  past-Done left b c k n p d = d
  past-Done ended b c k n p d = (d.1, d.2)

  -- The places of the new thread before its loop stay clear of the owner's two facts.
  early :
      {w : Worker} (t : LoopThread) (w' : Worker)
      → t.worker ≡ w
      → (IsUnborn w → ⊥)
      → (IsPast w → IsPast w')
      → Inv t
      → Known t.owner w'
  early t w' e f g inv =
      Known-moved t.owner t.worker w' (λ u. absurd (f (subst IsUnborn e u)))
        (λ p. g (subst IsPast e p)) inv.known

  destroyed : (t : LoopThread) → Inv t → Inv (destroy_rest t)
  unfolding destroy_rest destroy_thread
  destroyed t inv = record {
    done = subst (λ n. Done t.worker t.loop_set t.called t.callback n) (sym same_tid) inv.done;
    known = tt;
  }
    where
      same_tid :
          (if t.thread.started && not t.thread.joined
            then record t.thread { detached = true }
            else t.thread).tid
          ≡ t.thread.tid
      same_tid = ground arith

  Step-Inv : {t u : LoopThread} → Step number t u → Inv t → Inv u
  unfolding start_thread begin_thread post_tid store_tid call_callback publish enter_loop clear_loop
      destroy_running begin_join
  Step-Inv (starts t e) inv = record {
    done = unborn_done t.worker (owner-Known t e inv) inv.done;
    known = tt;
  }
    where
      unborn_done :
          (w : Worker) → IsUnborn w → DoneAt w t → (t.loop_set ≡ false) × (t.called ≡ false)
      unborn_done unborn k d = d
      unborn_done spawned k d = d
      unborn_done posted k d = absurd k
      unborn_done made k d = absurd k
      unborn_done told k d = absurd k
      unborn_done published k d = absurd k
      unborn_done looping k d = absurd k
      unborn_done left k d = absurd k
      unborn_done ended k d = absurd k
  Step-Inv (passes_sem t e h) inv = record { done = inv.done; known = tt }
  Step-Inv (gets_loop t e h) inv = record {
    done = inv.done;
    known = set-IsPast t.worker t.loop_set t.called t.callback t.thread.tid h inv.done;
  }
  Step-Inv (posts t e) inv =
      let d = done_at t e inv in
      record { done = (d.0, d.1, refl); known = early t posted e (λ u. u) (λ p. p) inv }
  Step-Inv (makes_loop t e) inv = record {
    done = done_at t e inv;
    known = early t made e (λ u. u) (λ p. p) inv;
  }
  Step-Inv (calls_back t e) inv =
      let d = done_at t e inv in
      record {
        done = (d.0, ap (λ b. b || t.callback) d.1, d.2);
        known = early t told e (λ u. u) (λ p. p) inv;
      }
  Step-Inv (publishes t e) inv =
      let d = done_at t e inv in
      record { done = (d.1, d.2); known = early t published e (λ u. u) (λ p. tt) inv }
  Step-Inv (enters_loop t e) inv = record {
    done = done_at t e inv;
    known = early t looping e (λ u. u) (λ p. tt) inv;
  }
  Step-Inv (asks_quit t e) inv = record { done = inv.done; known = inv.known }
  Step-Inv (leaves_loop t e q) inv = record {
    done = done_at t e inv;
    known = early t left e (λ u. u) (λ p. tt) inv;
  }
  Step-Inv (clears t e) inv =
      let d = done_at t e inv in
      record { done = (refl, d.0, d.1); known = early t ended e (λ u. u) (λ p. tt) inv }
  Step-Inv (destroys_running t e h) inv = record {
    done = Done-cleared t.worker t.loop_set t.called t.callback t.thread.tid inv.done;
    known = tt;
  }
  Step-Inv (destroys_stopped t e h) inv = destroyed t inv
  Step-Inv (destroys_unstarted t e h) inv = destroyed t inv
  Step-Inv (joins t e h) inv = destroyed t inv

  Reach-Inv :
      (thread : Thread) (callback : Bool) {t : LoopThread}
      → Reach number (make_loop_thread thread callback) t
      → Inv t
  unfolding make_loop_thread
  Reach-Inv thread callback here = record { done = (refl, refl); known = tt }
  Reach-Inv thread callback (next r s) = Step-Inv s (Reach-Inv thread callback r)

  -- From a thread object that was just made, in every interleaving: once `startLoop` has returned,
  -- the new thread has stored its number, has called the callback exactly if there is one, and has
  -- set the pointer: it is about to enter its loop, is in it, or is behind it.
  pub start_loop_lem :
      (thread : Thread) (callback : Bool) (t : LoopThread)
      → Reach number (make_loop_thread thread callback) t
      → t.owner ≡ returned
      → (t.called ≡ t.callback)
        × (t.thread.tid ≡ number)
        × ((t.worker ≡ published) ⊎ (t.worker ≡ looping) ⊎ (t.worker ≡ left) ⊎ (t.worker ≡ ended))
  start_loop_lem thread callback t r e =
      let inv = Reach-Inv thread callback r in
      let (c, n) =
        past-Done t.worker t.loop_set t.called t.callback t.thread.tid (owner-Known t e inv)
          inv.done in
      (c, n, place t.worker (owner-Known t e inv))
    where
      place : (w : Worker) → IsPast w → (w ≡ published) ⊎ (w ≡ looping) ⊎ (w ≡ left) ⊎ (w ≡ ended)
      place unborn p = absurd p
      place spawned p = absurd p
      place posted p = absurd p
      place made p = absurd p
      place told p = absurd p
      place published p = inl refl
      place looping p = inr (inl refl)
      place left p = inr (inr (inl refl))
      place ended p = inr (inr (inr refl))
