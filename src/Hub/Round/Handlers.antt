-- ===== src/Hub/Round/Handlers.antt =====
-- The handlers of one channel in a round: their objects, and the other connections.
use mu_muduo.Common.{
  ℕ, ◌≡◌, refl, sym, ap, ◌∙◌, ◌⊎◌, inl, inr, Bool, true, false, List, [], ◌∷◌, Option, none, some,
  lookup, nat_eq, ◌==◌, ==_iff, Bool-cases, Outcome, ok,
}
use mu_muduo.Channel.{
  Channel, Handler, loop_read, accept_read, conn_read, conn_write, conn_close, conn_error,
  handle_event, shape,
}
use mu_muduo.Channel.Callbacks.{AllRun, IsCallback, handle_event-AllRun}
use mu_muduo.Reactor.{Epoll}
use mu_muduo.Reactor.Invariant.{Live}
use mu_muduo.Connection.{SocketError}
use mu_muduo.Connection.Events.{Event, Admits, writable, closes, errs}
use mu_muduo.Hub.{Stored, Hub, with_port, port_of, conn_channel, conn_event, open_connection}
use mu_muduo.Hub.Queue.{Found, mem}
use mu_muduo.Hub.Apart.{HubInv, IsForeign, no_conn, AllSound}
use mu_muduo.Hub.Views.{acts, opens, view, view_of, view_step, view-Found}
use mu_muduo.Hub.Opens.{open_connection-Grows}
use mu_muduo.Hub.Steps.{ActionAdmits, conn_event-Grows, view_other}
use mu_muduo.Hub.Round.{Answers, read_event, serve, serve_all}

-- A handler of the channel at `a`: of no connection, or of the one there.
abbrev pub IsBound : {ep : Epoll} → Hub ep → ℕ → Handler → Type 0
IsBound h a (loop_read x) = Unit {0}
IsBound h a (accept_read x) = Unit {0}
IsBound h a (conn_read o) = (o ≡ a) × Found o h.conns
IsBound h a (conn_write o) = (o ≡ a) × Found o h.conns
IsBound h a (conn_close o) = (o ≡ a) × Found o h.conns
IsBound h a (conn_error o) = (o ≡ a) × Found o h.conns

module _ {ep : Epoll} where
  IsBound-grows :
      (h h' : Hub ep) (a : ℕ)
      → ((b : ℕ) → Found b h.conns → Found b h'.conns)
      → (hds : List Handler) → AllRun (IsBound h a) hds
      → AllRun (IsBound h' a) hds
  IsBound-grows h h' a grows [] all = tt
  IsBound-grows h h' a grows (hd ∷ hds) (p, all) = (one hd p, IsBound-grows h h' a grows hds all)
    where
      one : (hd : Handler) → IsBound h a hd → IsBound h' a hd
      one (loop_read x) p = tt
      one (accept_read x) p = tt
      one (conn_read o) (e, f) = (e, grows o f)
      one (conn_write o) (e, f) = (e, grows o f)
      one (conn_close o) (e, f) = (e, grows o f)
      one (conn_error o) (e, f) = (e, grows o f)

  foreign :
      (h : Hub ep) (a : ℕ) (cb : Option Handler) → no_conn cb ≡ true → IsCallback (IsBound h a) cb
  foreign h a none e = tt
  foreign h a (some (loop_read x)) e = tt
  foreign h a (some (accept_read x)) e = tt
  foreign h a (some (conn_read o)) e = cc
  foreign h a (some (conn_write o)) e = cc
  foreign h a (some (conn_close o)) e = cc
  foreign h a (some (conn_error o)) e = cc

module _ (ep : Epoll) (room : (k : ep.Kernel) (fd : ℕ) → ep.Room k fd) where
  pub handle_event-IsBound :
      (h : Hub ep) (alive : ℕ → Bool) (a : ℕ) (d : Channel)
      → AllSound ep room h
      → lookup a h.reactor.heap ≡ some d
      → AllRun (IsBound h a) (handle_event alive d)
  unfolding shape conn_channel
  handle_event-IsBound h alive a d all l = by_owner (all.1 a d l)
    where
      bound :
          (cb : Option Handler) (hd : Handler)
          → cb ≡ some hd
          → IsBound h a hd
          → IsCallback (IsBound h a) cb
      bound cb hd e p = rw e p

      by_owner : Found a h.conns ⊎ IsForeign d → AllRun (IsBound h a) (handle_event alive d)
      by_owner (inl (c, f)) =
          let mine = (all.0 a c f).mine d l in
          handle_event-AllRun (IsBound h a) alive d
            (bound d.close_callback (conn_close a) (ap (λ x. x.close_callback) mine) (refl, (c, f)))
            (bound d.error_callback (conn_error a) (ap (λ x. x.error_callback) mine) (refl, (c, f)))
            (bound d.read_callback (conn_read a) (ap (λ x. x.read_callback) mine) (refl, (c, f)))
            (bound d.write_callback (conn_write a) (ap (λ x. x.write_callback) mine) (refl, (c, f)))
      by_owner (inr (r, w, k, e)) =
          handle_event-AllRun (IsBound h a) alive d (foreign h a d.close_callback k)
            (foreign h a d.error_callback e) (foreign h a d.read_callback r)
            (foreign h a d.write_callback w)

  -- The call returns a sound hub on which every channel and every connection stays, and all
  -- connections but that of `a` look the same.
  abbrev pub Serves : ℕ → Hub ep → Outcome (Hub ep) → Type 0
  Serves a h out =
      (h' : Hub ep) × (out ≡ ok h')
      × HubInv ep room h'
      × ((b : ℕ) → Live ep h.reactor b → Live ep h'.reactor b)
      × ((b : ℕ) → Found b h.conns → Found b h'.conns)
      × ((b : ℕ) → (a == b) ≡ false → Found b h.conns → view b h' ≡ view b h)

  module _ (err_of : SocketError) (answers : Answers) where
    -- What arrives has room in the input buffer, and what is accepted is new.
    abbrev pub HandlerAdmits : Handler → Hub ep → Type 0
    HandlerAdmits (loop_read a) h = Unit {0}
    HandlerAdmits (accept_read a) h = elim (answers.accepted a) [
      | none ↦ Unit {0}
      | some (o, fd) ↦ ActionAdmits ep room err_of (opens o fd) h
    ]
    HandlerAdmits (conn_read o) h =
        (c : Stored)
        → lookup o h.conns ≡ some c
        → Admits (port_of ep room o h.reactor) err_of (read_event (answers.reads o))
            (with_port h.reactor c)
    HandlerAdmits (conn_write o) h = Unit {0}
    HandlerAdmits (conn_close o) h = Unit {0}
    HandlerAdmits (conn_error o) h = Unit {0}

    abbrev pub ServeAdmits : List Handler → Hub ep → Type 0
    ServeAdmits [] h = Unit {0}
    ServeAdmits (hd ∷ hds) h =
        HandlerAdmits hd h
        × ((h' : Hub ep) → serve ep room err_of answers hd h ≡ ok h' → ServeAdmits hds h')

    event-Serves :
        (a o : ℕ) (e : Event) (h : Hub ep)
        → HubInv ep room h
        → o ≡ a
        → ActionAdmits ep room err_of (acts o e) h
        → Serves a h (conn_event ep room err_of o e h)
    unfolding view view_step
    event-Serves a o e h i same adm =
        let (h', done, i', seen, live) = conn_event-Grows ep room err_of h i o e adm in
        (
          h',
          done,
          i',
          live,
          λ b f. found h' seen b f,
          λ b ne f. seen b ∙ view_other b o e (view b h) (ap (λ n. n == b) same ∙ ne),
        )
      where
        found :
            (h' : Hub ep)
            → ((b : ℕ) → view b h' ≡ view_step b (acts o e) (view b h))
            → (b : ℕ) → Found b h.conns
            → Found b h'.conns
        found h' seen b (c, l) =
            view-Found b h'
              (seen b ∙ ap (λ m. view_step b (acts o e) (view_of m (mem b h.doomed))) l)

    open-Serves :
        (a o fd : ℕ) (h : Hub ep)
        → HubInv ep room h
        → ActionAdmits ep room err_of (opens o fd) h
        → Serves a h (open_connection ep room o fd h)
    unfolding view view_step
    open-Serves a o fd h i (absent, free) =
        let (h', done, i', seen, live) =
          open_connection-Grows ep room err_of h i o fd (absent, free) in
        (h', done, i', live, λ b f. found h' seen b f, λ b ne f. seen b ∙ kept b f)
      where
        nothing : {c : Stored} → none ≡ some c → ⊥
        nothing h = cc

        kept : (b : ℕ) → Found b h.conns → view_step b (opens o fd) (view b h) ≡ view b h
        kept b (c, l) = elim (Bool-cases (o == b)) [
          | inl e ↦
              absurd (nothing (sym absent ∙ ap (λ n. lookup n h.conns) ((==_iff o b).0 e) ∙ l))
          | inr e ↦ rw e refl
        ]

        found :
            (h' : Hub ep)
            → ((b : ℕ) → view b h' ≡ view_step b (opens o fd) (view b h))
            → (b : ℕ) → Found b h.conns
            → Found b h'.conns
        found h' seen b (c, l) =
            view-Found b h' (seen b ∙ kept b (c, l) ∙ ap (λ m. view_of m (mem b h.doomed)) l)

    serve-Serves :
        (a : ℕ) (hd : Handler) (h : Hub ep)
        → HubInv ep room h
        → IsBound h a hd
        → HandlerAdmits hd h
        → Serves a h (serve ep room err_of answers hd h)
    unfolding serve
    serve-Serves a (loop_read x) h i p adm = (h, refl, i, λ b l. l, λ b f. f, λ b ne f. refl)
    serve-Serves a (accept_read x) h i p adm = by_answer (answers.accepted x) adm
      where
        by_answer :
            (m : Option (ℕ × ℕ))
            → elim m as (λ x. Type 0) [
              | none ↦ Unit {0}
              | some (o, fd) ↦ ActionAdmits ep room err_of (opens o fd) h
            ]
            → Serves a h (elim m as (λ x. Outcome (Hub ep)) [
              | none ↦ ok h
              | some (o, fd) ↦ open_connection ep room o fd h
            ])
        by_answer none adm = (h, refl, i, λ b l. l, λ b f. f, λ b ne f. refl)
        by_answer (some (o, fd)) adm = open-Serves a o fd h i adm
    serve-Serves a (conn_read o) h i (same, (c, l)) adm =
        event-Serves a o (read_event (answers.reads o)) h i same (c, l, adm c l)
    serve-Serves a (conn_write o) h i (same, (c, l)) adm =
        event-Serves a o (writable (answers.writes o)) h i same (c, l, tt)
    serve-Serves a (conn_close o) h i (same, (c, l)) adm =
        event-Serves a o closes h i same (c, l, tt)
    serve-Serves a (conn_error o) h i (same, (c, l)) adm = event-Serves a o errs h i same (c, l, tt)

    -- The handlers of one channel, each bound and admitted where it runs.
    pub serve_all-Serves :
        (a : ℕ) (hds : List Handler) (h : Hub ep)
        → HubInv ep room h
        → AllRun (IsBound h a) hds
        → ServeAdmits hds h
        → Serves a h (serve_all ep room err_of answers hds h)
    unfolding serve_all
    serve_all-Serves a [] h i all adm = (h, refl, i, λ b l. l, λ b f. f, λ b ne f. refl)
    serve_all-Serves a (hd ∷ hds) h i (p, all) (adm, rest) =
        let (h', done, i', live, found, same) = serve-Serves a hd h i p adm in
        let (h'', done', i'', live', found', same') =
          serve_all-Serves a hds h' i' (IsBound-grows h h' a found hds all) (rest h' done) in
        (
          h'',
          rw done done',
          i'',
          λ b l. live' b (live b l),
          λ b f. found' b (found b f),
          λ b ne f. same' b ne (found b f) ∙ same b ne f,
        )
