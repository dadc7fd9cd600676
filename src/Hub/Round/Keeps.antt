-- ===== src/Hub/Round/Keeps.antt =====
-- A whole round of EventLoop::loop and the connections.
use mu_muduo.Common.{
  ℕ, ◌<◌, ◌*◌, ◌^◌, ◌≡◌, refl, sym, ap, ◌∙◌, Bool, true, false, ◌||◌, List, [], ◌∷◌, map, no_bool,
  Option, none, some, if◌then◌else◌, lookup, nat_eq, ◌==◌, Outcome, ok,
}
use mu_muduo.Channel.{Channel, handle_event}
use mu_muduo.Reactor.{Epoll, EpollEvent, State, poll, ready}
use mu_muduo.Reactor.Registry.{entry_of}
use mu_muduo.Reactor.Update.{load_lem}
use mu_muduo.Reactor.Invariant.{Inv, Live}
use mu_muduo.Reactor.Poll.{poll_lem, AllReported}
use mu_muduo.Reactor.Marks.{poll-Marks}
use mu_muduo.Connection.{SocketError}
use mu_muduo.Hub.{Stored, Hub}
use mu_muduo.Hub.Queue.{Found, mem}
use mu_muduo.Hub.Apart.{HubInv}
use mu_muduo.Hub.Views.{View, view, view_of}
use mu_muduo.Hub.TearDown.{tear_down_lem}
use mu_muduo.Hub.Marks.{marked-HubInv}
use mu_muduo.Hub.Round.{Answers, is_alive, serve_all, serve_channels, round}
use mu_muduo.Hub.Round.Handlers.{ServeAdmits, serve_all-Serves, handle_event-IsBound}

abbrev is_ending : Option View → Bool
is_ending none = false
is_ending (some v) = v.ending

module _ (ep : Epoll) where
  -- What epoll_wait(2) reports is in the interest list.
  abbrev pub AllListed : State ep → List EpollEvent → Type 0
  AllListed s [] = Unit {0}
  AllListed s (e ∷ es) =
      ((fd : ℕ) × (n : EpollEvent) × (entry_of ep s fd ≡ some n) × (n.ptr ≡ e.ptr)) × AllListed s es

  AllListed-Reported :
      (s : State ep) (es : List EpollEvent) → Inv ep s → AllListed s es → AllReported ep s es
  AllListed-Reported s [] inv all = tt
  AllListed-Reported s (e ∷ es) inv ((fd, n, entry, same), all) =
      let (c, l, at) = inv.owned fd n entry in
      ((c, ap (λ p. lookup p s.heap) (sym same) ∙ l), AllListed-Reported s es inv all)

  abbrev AllLive : State ep → List ℕ → Type 0
  AllLive s [] = Unit {0}
  AllLive s (a ∷ active) = Live ep s a × AllLive s active

  AllLive-mono :
      (s s' : State ep) (active : List ℕ)
      → ((b : ℕ) → Live ep s b → Live ep s' b)
      → AllLive s active
      → AllLive s' active
  AllLive-mono s s' [] f all = tt
  AllLive-mono s s' (a ∷ active) f (l, all) = (f a l, AllLive-mono s s' active f all)

  AllReported-Live :
      (s : State ep) (es : List EpollEvent) → AllReported ep s es → AllLive s (map (λ e. e.ptr) es)
  AllReported-Live s [] all = tt
  AllReported-Live s (e ∷ es) (l, all) = (l, AllReported-Live s es all)

module _ (ep : Epoll) (room : (k : ep.Kernel) (fd : ℕ) → ep.Room k fd) (err_of : SocketError)
    (answers : Answers) where
  -- Each channel's handlers are admitted when its turn comes.
  abbrev pub ChannelsAdmit : List ℕ → Hub ep → Type 0
  ChannelsAdmit [] h = Unit {0}
  ChannelsAdmit (a ∷ active) h =
      (d : Channel)
      → lookup a h.reactor.heap ≡ some d
      → ServeAdmits ep room err_of answers (handle_event (is_alive h) d) h
        × ((h' : Hub ep)
            → serve_all ep room err_of answers (handle_event (is_alive h) d) h ≡ ok h'
            → ChannelsAdmit active h')

  abbrev AllServed : List ℕ → Hub ep → Outcome (Hub ep) → Type 0
  AllServed active h out =
      (h' : Hub ep) × (out ≡ ok h')
      × HubInv ep room h'
      × ((b : ℕ) → mem b active ≡ false → Found b h.conns → view b h' ≡ view b h)
      × ((b : ℕ) → Found b h.conns → Found b h'.conns)

  serve_channels-AllServed :
      (active : List ℕ) (h : Hub ep)
      → HubInv ep room h
      → AllLive ep h.reactor active
      → ChannelsAdmit active h
      → AllServed active h (serve_channels ep room err_of answers active h)
  unfolding serve_channels mem
  serve_channels-AllServed [] h i live adm = (h, refl, i, λ b out f. refl, λ b f. f)
  serve_channels-AllServed (a ∷ active) h i ((d, l), lives) adm =
      let (now, later) = adm d l in
      let (h', done, i', live, found, same) =
        serve_all-Serves ep room err_of answers a (handle_event (is_alive h) d) h i
          (handle_event-IsBound ep room h (is_alive h) a d i.sound l) now in
      let (h'', done', i'', same', found') =
        serve_channels-AllServed active h' i'
          (AllLive-mono ep h.reactor h'.reactor active live lives) (later h' done) in
      (
        h'',
        rw (load_lem ep a h.reactor l, done) done',
        i'',
        λ b out f.
            same' b (second (a == b) (mem b active) out) (found b f)
            ∙ same b (first (a == b) (mem b active) out) f,
        λ b f. found' b (found b f),
      )
    where
      first : (x y : Bool) → (x || y) ≡ false → x ≡ false
      first true y e = e
      first false y e = refl

      second : (x y : Bool) → (x || y) ≡ false → y ≡ false
      second true y e = cc
      second false y e = e

  -- While the kernel has room for every descriptor, so that no EPOLL_CTL_ADD fails: a round on a loop
  -- that satisfies HubInv, when `epoll_wait` reports descriptors of its interest
  -- list, the list of events is not empty and can be doubled, what arrives has room in the input
  -- buffers and what is accepted is new, returns: every handler that runs finds its object.
  -- Afterwards HubInv holds and nothing is queued, and a connection whose channel was not reported
  -- and whose end was not queued has its state and its stream as before, and its end is not queued.
  pub round-Keeps :
      (es : List EpollEvent) (h : Hub ep)
      → HubInv ep room h
      → AllListed ep h.reactor es
      → 0 < h.reactor.event_list_size
      → 2 * h.reactor.event_list_size < 2 ^ 64
      → ((s : State ep)
          → poll (ready es) [] h.reactor ≡ ok (map (λ e. e.ptr) es, s)
          → ChannelsAdmit (map (λ e. e.ptr) es) (record h { reactor = s }))
      → (h' : Hub ep) × (round ep room err_of answers (ready es) h ≡ ok h')
        × HubInv ep room h'
        × (h'.doomed ≡ [])
        × ((b : ℕ)
            → mem b (map (λ e. e.ptr) es) ≡ false
            → Found b h.conns
            → mem b h.doomed ≡ false
            → view b h' ≡ view b h)
  unfolding round view
  round-Keeps es h i listed some_room small adm =
      let (s, polled, inv, live, size) = poll_lem ep es h.reactor i.inv reported some_room small in
      let marked =
        marked-HubInv ep room h s (poll-Marks es (map (λ e. e.ptr) es) h.reactor s polled) inv i in
      let (k, served, j, same, found) =
        serve_channels-AllServed (map (λ e. e.ptr) es) (record h { reactor = s }) marked
          (AllLive-mono ep h.reactor s (map (λ e. e.ptr) es) live
            (AllReported-Live ep h.reactor es reported))
          (adm s polled) in
      let (h', done, i', none_left, left, freed) = tear_down_lem ep room k j in
      (
        h',
        rw (polled, served) done,
        i',
        none_left,
        λ b out f stays.
            rw (left b, none_left)
              (staying (lookup b k.conns) (mem b k.doomed) f.0 (same b out f ∙ here b f stays))
            ∙ same b out f,
      )
    where
      reported : AllReported ep h.reactor es
      reported = AllListed-Reported ep h.reactor es i.inv listed

      here :
          (b : ℕ) (f : Found b h.conns)
          → mem b h.doomed ≡ false
          → view b h ≡ view_of (some f.0) false
      here b (c, l) stays = rw (l, stays) refl

      staying :
          (m : Option Stored) (x : Bool) (c : Stored)
          → view_of m x ≡ view_of (some c) false
          → view_of (if x then none else m) false ≡ view_of m x
      staying m false c e = refl
      staying none true c e = absurd (missing e)
        where
          missing : {v : View} → none ≡ some v → ⊥
          missing e = cc
      staying (some d) true c e = no_bool refl (ap is_ending e)
