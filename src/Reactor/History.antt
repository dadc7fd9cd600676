-- ===== src/Reactor/History.antt =====
-- Any history of changes and removals, on any number of channels: the poller's map and the kernel's
-- interest list follow the channels, and `epoll_ctl` never fails in a way that ends the program.
use mu_muduo.Common.{ℕ, ◌≡◌, refl, List, [], ◌∷◌, some, lookup, nat_eq, Outcome, ok, ◌>>=◌}
use mu_muduo.Channel.{Channel, set_index, read_on, read_off, write_on, write_off, all_off}
use mu_muduo.Reactor.{
  Epoll, State, remove_channel, enable_reading, disable_reading, enable_writing, disable_writing,
  disable_all,
}
use mu_muduo.Reactor.Registry.{is_new}
use mu_muduo.Reactor.Update.{Forgets, remove_channel-Settles}
use mu_muduo.Reactor.Change.{change-Keeps}
use mu_muduo.Reactor.Invariant.{Inv, Live, Keeps, Agrees-Tracked, Rewritten-Inv, Rewritten-Live}

-- The calls that reach the poller, each for the channel at an address.
pub data Request : Type 0 where
  reading_on reading_off writing_on writing_off all_events_off removal : ℕ → Request

abbrev pub target : Request → ℕ
target (reading_on a) = a
target (reading_off a) = a
target (writing_on a) = a
target (writing_off a) = a
target (all_events_off a) = a
target (removal a) = a

module _ (ep : Epoll) where
  pub step : Request → State ep → Outcome (State ep)
  step (reading_on a) s = enable_reading ep a s
  step (reading_off a) s = disable_reading ep a s
  step (writing_on a) s = enable_writing ep a s
  step (writing_off a) s = disable_writing ep a s
  step (all_events_off a) s = disable_all ep a s
  step (removal a) s = remove_channel ep a s

  pub run : List Request → State ep → Outcome (State ep)
  run [] s = ok s
  run (r ∷ rs) s = do s' ← step r s; run rs s'

  remove_channel-Keeps :
      (a : ℕ) (s : State ep) {c : Channel}
      → Inv ep s
      → lookup a s.heap ≡ some c
      → Keeps ep s (remove_channel ep a s)
  unfolding set_index
  remove_channel-Keeps a s {c} inv l =
      go (remove_channel-Settles ep a c s l (Agrees-Tracked ep (inv.consistent a c l)))
    where
      go : Forgets ep s a c (remove_channel ep a s) → Keeps ep s (remove_channel ep a s)
      go (s', e, w) = (
        s',
        e,
        Rewritten-Inv ep inv l refl w (is_new refl refl refl),
        Rewritten-Live ep inv l refl w (is_new refl refl refl),
      )

  module _ (room : (k : ep.Kernel) (fd : ℕ) → ep.Room k fd) where
    -- While the kernel has room for every descriptor, each call on a live channel returns, keeps the
    -- invariant, and leaves the same channels live.
    pub step-Keeps :
        (r : Request) (s : State ep) → Inv ep s → Live ep s (target r) → Keeps ep s (step r s)
    unfolding step enable_reading disable_reading enable_writing disable_writing disable_all read_on
        read_off write_on write_off all_off
    step-Keeps (reading_on a) s inv (c, l) = change-Keeps ep read_on a s inv l refl refl (room _ _)
    step-Keeps (reading_off a) s inv (c, l) =
        change-Keeps ep read_off a s inv l refl refl (room _ _)
    step-Keeps (writing_on a) s inv (c, l) = change-Keeps ep write_on a s inv l refl refl (room _ _)
    step-Keeps (writing_off a) s inv (c, l) =
        change-Keeps ep write_off a s inv l refl refl (room _ _)
    step-Keeps (all_events_off a) s inv (c, l) =
        change-Keeps ep all_off a s inv l refl refl (room _ _)
    step-Keeps (removal a) s inv (c, l) = remove_channel-Keeps a s inv l

    abbrev pub AllLive : State ep → List Request → Type 0
    AllLive s [] = Unit
    AllLive s (r ∷ rs) = Live ep s (target r) × AllLive s rs

    AllLive-mono :
        (s s' : State ep) (rs : List Request)
        → ((b : ℕ) → Live ep s b → Live ep s' b)
        → AllLive s rs
        → AllLive s' rs
    AllLive-mono s s' [] f h = tt
    AllLive-mono s s' (r ∷ rs) f (h, hs) = (f (target r) h, AllLive-mono s s' rs f hs)

    -- On a reactor that satisfies the invariant, and while the kernel has room for every
    -- descriptor, any history of changes and removals of channels that are live at its start runs
    -- to its end without a fault; the invariant holds afterwards, and every live channel stays
    -- live.
    pub run-Keeps :
        (rs : List Request) (s : State ep) → Inv ep s → AllLive s rs → Keeps ep s (run rs s)
    unfolding run
    run-Keeps [] s inv h = (s, refl, inv, λ b l. l)
    run-Keeps (r ∷ rs) s inv (h, hs) =
        go (step-Keeps r s inv h) (λ s' inv' live. run-Keeps rs s' inv' live)
      where
        go :
            Keeps ep s (step r s)
            → ((s' : State ep) → Inv ep s' → AllLive s' rs → Keeps ep s' (run rs s'))
            → Keeps ep s (step r s >>= λ s'. run rs s')
        go (s', e, inv', live) rest =
            let (t, e', inv'', live') = rest s' inv' (AllLive-mono s s' rs live hs) in
            (t, rw e e', inv'', λ b l. live' b (live b l))
