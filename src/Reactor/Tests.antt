-- ===== src/Reactor/Tests.antt =====
-- The theorems of the reactor run on the epoll of `ListEpoll`.
use mu_muduo.Common.{refl, inl, ℕ, ◌≡◌, true, false, List, [], ◌∷◌, some, nat_eq, ok, arith}
use mu_muduo.Channel.{make_channel}
use mu_muduo.Reactor.{
  State, EpollEvent, enable_reading, enable_writing, disable_all, poll, ready, remove_channel,
  free_channel,
}
use mu_muduo.Reactor.Registry.{entry_of}
use mu_muduo.Reactor.Invariant.{Inv, Live, Keeps}
use mu_muduo.Reactor.History.{
  Request, reading_on, writing_on, removal, all_events_off, run, run-Keeps,
}
use mu_muduo.Reactor.Poll.{poll_lem}
use mu_muduo.Reactor.Interest.{enable-Watches, Watches, disable_all-not_added}
use mu_muduo.Reactor.Lifetime.{IsFree, remove_channel-IsFree}
use mu_muduo.Reactor.ListEpoll.{
  one_busy, one_busy-Inv, one_busy-found, list_epoll, one_channel, one_channel-Inv,
  one_channel-found, one_channel-idle,
}

enable-Watches_example :
    Watches list_epoll 40 7 true false (enable_reading list_epoll 40 one_channel)
    × Watches list_epoll 40 7 false true (enable_writing list_epoll 40 one_channel)
unfolding make_channel
enable-Watches_example =
    enable-Watches list_epoll 40 one_channel false false one_channel-Inv one_channel-found
      one_channel-idle tt

disable_all-not_added_example :
    (s' : State list_epoll) × (disable_all list_epoll 40 one_channel ≡ ok s')
    × (entry_of list_epoll s' 7 ≡ some (record { events = 0; ptr = 40 }))
unfolding make_channel
disable_all-not_added_example =
    disable_all-not_added list_epoll 40 one_channel one_channel-Inv one_channel-found tt (inl refl)

abbrev requests : List Request
requests = reading_on 40 ∷ writing_on 40 ∷ all_events_off 40 ∷ removal 40 ∷ []

run-Keeps_example : Keeps list_epoll one_channel (run list_epoll requests one_channel)
run-Keeps_example =
    run-Keeps list_epoll (λ k fd. tt) requests one_channel one_channel-Inv
      (here, (here, (here, (here, tt))))
  where
    here : Live list_epoll one_channel 40
    here = (make_channel 7, one_channel-found)

abbrev one_event : List EpollEvent
one_event = record { events = 1; ptr = 40 } ∷ []

poll_lem_example :
    (s' : State list_epoll) × (poll (ready one_event) [] one_channel ≡ ok (40 ∷ [], s'))
    × Inv list_epoll s'
    × ((b : ℕ) → Live list_epoll one_channel b → Live list_epoll s' b)
    × (s'.event_list_size ≡ 16)
poll_lem_example =
    poll_lem list_epoll one_event one_channel one_channel-Inv
      ((make_channel 7, one_channel-found), tt) (omega arith) (omega arith)

remove_channel-IsFree_example :
    (s' : State list_epoll) × (remove_channel list_epoll 40 one_busy ≡ ok s')
    × Inv list_epoll (free_channel 40 s')
    × IsFree list_epoll 40 7 (free_channel 40 s')
unfolding make_channel
remove_channel-IsFree_example =
    remove_channel-IsFree list_epoll 40 one_busy one_busy-Inv one_busy-found
