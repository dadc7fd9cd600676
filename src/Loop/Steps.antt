-- ===== src/Loop/Steps.antt =====
-- The interleavings of the loop's thread with any number of others, which queue functors or quit.
-- The loop's own thread queues and quits only from handlers and functors.
use mu_muduo.Common.{◌+◌, ◌-◌, ◌<◌, ◌≡◌, true, false, List, [], ◌∷◌}
use mu_muduo.Loop.{
  Eventfd, Loop, outside, testing, polling, handling, swapping, running, set_quit, wake_for_quit,
  wake_for_functor, headle_read, push, queue_in_loop, quit_loop, enter, leave, begin_functors,
  swap_functors, take_functor, end_functors,
}

module _ {F : Type 0} (efd : Eventfd) where
  -- Another thread, for which `isInLoopThread()` is false: the two halves of its `queueInLoop`, and of
  -- its `quit`.
  unfoldable pub other_push : F → Loop F efd → Loop F efd
  unfolding push
  other_push f l = record (push efd f l) { owing = l.owing + 1 }

  unfoldable pub other_wake : Loop F efd → Loop F efd
  unfolding wake_for_functor
  other_wake l = record (wake_for_functor efd false l) { owing = l.owing - 1 }

  unfoldable pub other_quit : Loop F efd → Loop F efd
  unfolding set_quit
  other_quit l = record (set_quit efd l) { owing_quit = l.owing_quit + 1 }

  unfoldable pub other_wake_quit : Loop F efd → Loop F efd
  unfolding wake_for_quit
  other_wake_quit l = record (wake_for_quit efd false l) { owing_quit = l.owing_quit - 1 }

  pub data Step : Loop F efd → Loop F efd → Type 0 where
    enters : (l : Loop F efd) → l.at ≡ outside → Step l (enter efd l)
    leaves : (l : Loop F efd) → l.at ≡ testing → l.quit ≡ true → Step l (leave efd l)
    waits : (l : Loop F efd) → l.at ≡ testing → l.quit ≡ false → Step l (record l { at = polling })
    returns : (l : Loop F efd) → l.at ≡ polling → Step l (record l { at = handling })
    reads_wakeup : (l : Loop F efd) → l.at ≡ handling → Step l (headle_read efd l)
    handler_queues :
        (l : Loop F efd) (f : F) → l.at ≡ handling → Step l (queue_in_loop efd true f l)
    handler_quits : (l : Loop F efd) → l.at ≡ handling → Step l (quit_loop efd true l)
    begins : (l : Loop F efd) → l.at ≡ handling → Step l (begin_functors efd l)
    swaps : (l : Loop F efd) → l.at ≡ swapping → Step l (swap_functors efd l)
    takes :
        (l : Loop F efd) (f : F) (fs : List F)
        → l.at ≡ running
        → l.functors ≡ f ∷ fs
        → Step l (take_functor efd f fs l)
    functor_queues : (l : Loop F efd) (f : F) → l.at ≡ running → Step l (queue_in_loop efd true f l)
    functor_quits : (l : Loop F efd) → l.at ≡ running → Step l (quit_loop efd true l)
    ends : (l : Loop F efd) → l.at ≡ running → l.functors ≡ [] → Step l (end_functors efd l)
    other_pushes : (l : Loop F efd) (f : F) → Step l (other_push f l)
    other_wakes : (l : Loop F efd) → 0 < l.owing → Step l (other_wake l)
    other_quits : (l : Loop F efd) → Step l (other_quit l)
    other_wakes_quit : (l : Loop F efd) → 0 < l.owing_quit → Step l (other_wake_quit l)

  pub data Reach (l : Loop F efd) : Loop F efd → Type 0 where
    here : Reach l l
    next : {l' l'' : Loop F efd} → Reach l l' → Step l' l'' → Reach l l''
