-- ===== src/Hub/Views.antt =====
-- What can happen on the loop, and what a user may rely on: for each object, on its own, the state
-- of its connection, the bytes accepted for its peer, and whether its end is queued.
use mu_muduo.Common.{
  ◌≡◌, refl, sym, ◌∙◌, ℕ, Bool, false, ◌||◌, List, [], ◌∷◌, ◌++◌, Option, none, some, lookup,
  nat_eq, ◌==◌, Outcome, ok, ◌>>=◌, if◌then◌else◌,
}
use mu_muduo.Reactor.{Epoll}
use mu_muduo.Connection.{ConnState, connected, SocketError}
use mu_muduo.Connection.Sound.{stream}
use mu_muduo.Connection.Events.{ends, Event, next_state, block}
use mu_muduo.Hub.Queue.{Found, mem}
use mu_muduo.Hub.{Stored, Hub, open_connection, conn_event, tear_down}

-- An event of one connection, a new connection (its object and its descriptor), and the queued
-- `connectDestroyed`.
pub data Action : Type 0 where
  acts : ℕ → Event → Action
  opens : ℕ → ℕ → Action
  tears_down : Action

pub record View : Type 0 where
  pub state : ConnState
  pub stream : List ℕ
  pub ending : Bool

abbrev pub after_event : Event → View → View
after_event e v = record {
  state = next_state e v.state;
  stream = v.stream ++ block e v.state;
  ending = v.ending || ends e;
}

abbrev pub kept : View → Option View
kept v = if v.ending then none else some v

-- What one action means for the object `o`.
unfoldable pub view_step : ℕ → Action → Option View → Option View
view_step o (acts a e) none = none
view_step o (acts a e) (some v) = some (if a == o then after_event e v else v)
view_step o (opens a fd) v =
    if a == o then some (record { state = connected; stream = []; ending = false }) else v
view_step o tears_down none = none
view_step o tears_down (some v) = kept v

abbrev pub view_of : Option Stored → Bool → Option View
view_of none b = none
view_of (some c) b = some (record { state = c.state; stream = stream c; ending = b })

module _ {ep : Epoll} where
  unfoldable pub view : ℕ → Hub ep → Option View
  unfolding mem
  view o h = view_of (lookup o h.conns) (mem o h.doomed)

  pub view-Found : (o : ℕ) (h : Hub ep) {v : View} → view o h ≡ some v → Found o h.conns
  unfolding view
  view-Found o h {v} e = by_lookup (lookup o h.conns) refl
    where
      nothing_seen : {w : View} → none ≡ some w → ⊥
      nothing_seen h = cc

      by_lookup : (m : Option Stored) → lookup o h.conns ≡ m → Found o h.conns
      by_lookup none l = absurd (nothing_seen (sym (rw l refl) ∙ e))
      by_lookup (some c) l = (c, l)

module _ (ep : Epoll) (room : (k : ep.Kernel) (fd : ℕ) → ep.Room k fd) (err_of : SocketError) where
  unfoldable pub hub_step : Action → Hub ep → Outcome (Hub ep)
  hub_step (acts o e) = conn_event ep room err_of o e
  hub_step (opens o fd) = open_connection ep room o fd
  hub_step tears_down = tear_down ep room

  unfoldable pub run_actions : List Action → Hub ep → Outcome (Hub ep)
  unfolding hub_step
  run_actions [] h = ok h
  run_actions (a ∷ rest) h = do h' ← hub_step a h; run_actions rest h'
