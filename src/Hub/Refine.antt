-- ===== src/Hub/Refine.antt =====
-- Histories of the loop, beside what a user was promised about their own connection.
use mu_muduo.Common.{
  ℕ, ◌≡◌, refl, sym, ap, ap₂, ◌∙◌, Bool, true, false, List, [], ◌∷◌, Option, none, some, lookup,
  nat_eq, ◌==◌, Bool-cases, inl, inr, Outcome, ok, if◌then◌else◌,
}
use mu_muduo.Reactor.{Epoll}
use mu_muduo.Connection.{SocketError}
use mu_muduo.Hub.{Stored, Hub}
use mu_muduo.Hub.Queue.{mem}
use mu_muduo.Hub.Apart.{HubInv}
use mu_muduo.Hub.Views.{
  Action, acts, opens, tears_down, View, view, view_of, view_step, hub_step, run_actions,
}
use mu_muduo.Hub.Opens.{open_connection-Grows}
use mu_muduo.Hub.Steps.{Steps, ActionAdmits, conn_event-Grows}
use mu_muduo.Hub.TearDown.{tear_down_lem}

-- What a history means for one object.
unfoldable pub run_view : ℕ → List Action → Option View → Option View
unfolding view_step
run_view o [] v = v
run_view o (a ∷ rest) v = run_view o rest (view_step o a v)

-- An action of the object itself, or of the whole loop.
abbrev pub concerns : ℕ → Action → Bool
concerns o (acts a e) = a == o
concerns o (opens a fd) = a == o
concerns o tears_down = true

unfoldable pub own : ℕ → List Action → List Action
own o [] = []
own o (a ∷ rest) = if concerns o a then a ∷ own o rest else own o rest

view_step-foreign :
    (o : ℕ) (a : Action) (v : Option View) → concerns o a ≡ false → view_step o a v ≡ v
unfolding view_step
view_step-foreign o (acts a e) none f = refl
view_step-foreign o (acts a e) (some v) f = rw f refl
view_step-foreign o (opens a fd) v f = rw f refl
view_step-foreign o tears_down v f = cc

run_view-own :
    (o : ℕ) (as_ : List Action) (v : Option View) → run_view o as_ v ≡ run_view o (own o as_) v
unfolding run_view own
run_view-own o [] v = refl
run_view-own o (a ∷ rest) v = elim (Bool-cases (concerns o a)) [
  | inl e ↦ rw e (run_view-own o rest (view_step o a v))
  | inr e ↦ rw (e, view_step-foreign o a v e) (run_view-own o rest v)
]

module _ (ep : Epoll) (room : (k : ep.Kernel) (fd : ℕ) → ep.Room k fd) (err_of : SocketError) where
  pub tear_down-Steps :
      (h : Hub ep)
      → HubInv ep room h
      → Steps ep room err_of tears_down h (hub_step ep room err_of tears_down h)
  unfolding hub_step view mem view_step
  tear_down-Steps h i =
      let (h', e, i', none_left, left, freed) = tear_down_lem ep room h i in
      (h', e, i', λ o. rw (left o, none_left) (seen (lookup o h.conns) (mem o h.doomed)))
    where
      seen :
          (c : Option Stored) (b : Bool)
          → view_of (if b then none else c) false ≡ view_step 0 tears_down (view_of c b)
      seen none true = refl
      seen none false = refl
      seen (some c) true = refl
      seen (some c) false = refl

  pub hub_step-Steps :
      (a : Action) (h : Hub ep)
      → HubInv ep room h
      → ActionAdmits ep room err_of a h
      → Steps ep room err_of a h (hub_step ep room err_of a h)
  unfolding hub_step
  hub_step-Steps (acts o e) h i adm =
      let (h', done, i', seen, live) = conn_event-Grows ep room err_of h i o e adm in
      (h', done, i', seen)
  hub_step-Steps (opens o fd) h i adm =
      let (h', done, i', seen, live) = open_connection-Grows ep room err_of h i o fd adm in
      (h', done, i', seen)
  hub_step-Steps tears_down h i adm = tear_down-Steps h i

  abbrev pub AllAdmitted : List Action → Hub ep → Type 0
  AllAdmitted [] h = Unit {0}
  AllAdmitted (a ∷ rest) h =
      ActionAdmits ep room err_of a h
      × ((h' : Hub ep) → hub_step ep room err_of a h ≡ ok h' → AllAdmitted rest h')

  abbrev pub Refines : List Action → Hub ep → Outcome (Hub ep) → Type 0
  Refines history h out =
      (h' : Hub ep) × (out ≡ ok h')
      × HubInv ep room h'
      × ((o : ℕ) → view o h' ≡ run_view o history (view o h))

  -- While the kernel has room for every descriptor, so that no EPOLL_CTL_ADD fails: any history of new
  -- connections, events of connections, calls of their users on the loop's thread and rounds of queued
  -- `connectDestroyed` on a loop that satisfies HubInv, each action admitted where it happens, returns a
  -- loop that satisfies HubInv; and for each object, whether there is a connection, its state, its
  -- stream and whether its end is queued are what the history determines from the same of that
  -- object before: the end is queued by a hangup that is read and by a close event.
  pub run_actions-Refines :
      (history : List Action) (h : Hub ep)
      → HubInv ep room h
      → AllAdmitted history h
      → Refines history h (run_actions ep room err_of history h)
  unfolding run_actions run_view
  run_actions-Refines [] h i all = (h, refl, i, λ o. refl)
  run_actions-Refines (a ∷ rest) h i (adm, all) =
      let (h', e, i', seen) = hub_step-Steps a h i adm in
      let (h'', e', i'', seen') = run_actions-Refines rest h' i' (all h' e) in
      (h'', rw e e', i'', λ o. seen' o ∙ ap (run_view o rest) (seen o))

  -- While the kernel has room for every descriptor, so that no EPOLL_CTL_ADD fails: two histories, each
  -- admitted action by action on a loop that satisfies HubInv, that agree in the actions of one
  -- object and in the rounds of queued `connectDestroyed`, from loops that agree on this object,
  -- both return, and agree on it again, whatever the other connections have done: whether there is
  -- a connection, its state, its stream and whether its end is queued.
  pub run_actions-Apart :
      (o : ℕ) (history history' : List Action) (h k : Hub ep)
      → HubInv ep room h
      → HubInv ep room k
      → AllAdmitted history h
      → AllAdmitted history' k
      → own o history ≡ own o history'
      → view o h ≡ view o k
      → (h' : Hub ep) × (k' : Hub ep) × (run_actions ep room err_of history h ≡ ok h')
        × (run_actions ep room err_of history' k ≡ ok k')
        × (view o h' ≡ view o k')
  run_actions-Apart o history history' h k i j all all' same start =
      let (h', e, i', seen) = run_actions-Refines history h i all in
      let (k', e', j', seen') = run_actions-Refines history' k j all' in
      (
        h',
        k',
        e,
        e',
        seen o
            ∙ run_view-own o history (view o h)
            ∙ ap₂ (run_view o) same start
            ∙ sym (run_view-own o history' (view o k))
            ∙ sym (seen' o),
      )
