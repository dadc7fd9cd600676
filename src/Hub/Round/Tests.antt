-- ===== src/Hub/Round/Tests.antt =====
-- A round of a loop with one connection, and the theorem at it.
use mu_muduo.Common.{ℕ, ◌≡◌, refl, false, List, [], ◌∷◌, none, nat_eq, ok, arith}
use mu_muduo.Buffer.{received, count}
use mu_muduo.Channel.{
  handle_event, Handler, loop_read, accept_read, conn_read, conn_write, conn_close, conn_error,
  make_channel,
}
use mu_muduo.Reactor.{EpollEvent, ready}
use mu_muduo.Reactor.ListEpoll.{list_epoll, lookup_only}
use mu_muduo.Connection.{so_error}
use mu_muduo.Hub.{Hub, conn_channel}
use mu_muduo.Hub.Queue.{mem, Found}
use mu_muduo.Hub.Apart.{HubInv}
use mu_muduo.Hub.Views.{view}
use mu_muduo.Hub.Round.{Answers, is_alive, round}
use mu_muduo.Hub.Round.Handlers.{ServeAdmits, HandlerAdmits}
use mu_muduo.Hub.Round.Keeps.{ChannelsAdmit, round-Keeps}
use mu_muduo.Hub.Sample.{one_open, one_open-HubInv}

-- The peer of the open connection has hung up.
abbrev hang_up : Answers
hang_up = record { reads = λ o. received []; writes = λ o ys. count 1; accepted = λ a. none }

abbrev one_ready : List EpollEvent
one_ready = record { events = 1; ptr = 41 } ∷ []

handlers_admitted :
    (hds : List Handler) (h : Hub list_epoll)
    → ServeAdmits list_epoll (λ k fd. tt) (so_error 0) hang_up hds h
handlers_admitted [] h = tt
handlers_admitted (hd ∷ hds) h = (one hd, λ h' e. handlers_admitted hds h')
  where
    one : (hd : Handler) → HandlerAdmits list_epoll (λ k fd. tt) (so_error 0) hang_up hd h
    one (loop_read a) = tt
    one (accept_read a) = tt
    one (conn_read o) = λ c l. tt
    one (conn_write o) = tt
    one (conn_close o) = tt
    one (conn_error o) = tt

channels_admitted :
    (active : List ℕ) (h : Hub list_epoll)
    → ChannelsAdmit list_epoll (λ k fd. tt) (so_error 0) hang_up active h
channels_admitted [] h = tt
channels_admitted (a ∷ active) h =
    λ d l. (handlers_admitted (handle_event (is_alive h) d) h, λ h' e. channels_admitted active h')

round-Keeps_example :
    (h' : Hub list_epoll) × (round list_epoll
        (λ k fd. tt)
        (so_error 0)
        hang_up
        (ready one_ready)
        one_open
      ≡ ok h')
    × HubInv list_epoll (λ k fd. tt) h'
    × (h'.doomed ≡ [])
    × ((b : ℕ)
        → mem b (41 ∷ []) ≡ false
        → Found b one_open.conns
        → false ≡ false
        → view b h' ≡ view b one_open)
unfolding mem conn_channel make_channel
round-Keeps_example =
    round-Keeps list_epoll (λ k fd. tt) (so_error 0) hang_up one_ready one_open one_open-HubInv
      ((8, record { events = 3; ptr = 41 }, lookup_only 8 _, refl), tt) (omega arith) (omega arith)
      (λ s e. channels_admitted (41 ∷ []) (record one_open { reactor = s }))
