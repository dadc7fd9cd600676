-- ===== src/Hub/Tests.antt =====
-- Histories of two connections on one reactor, and the theorems at them.
use mu_muduo.Common.{
  true, some, ℕ, ◌≡◌, refl, sym, ap, subst, ◌∙◌, List, [], ◌∷◌, none, lookup, nat_eq, inl, Outcome,
  ok, arith, if◌then◌else◌,
}
use mu_muduo.Buffer.{count, readable_bytes, writer_bytes}
use mu_muduo.Channel.{Channel}
use mu_muduo.Reactor.Lifetime.{IsFree}
use mu_muduo.Reactor.ListEpoll.{list_epoll}
use mu_muduo.Connection.{so_error}
use mu_muduo.Connection.Events.{sends, hangs_up, shuts, next_state, block}
use mu_muduo.Hub.{tear_down, Hub}
use mu_muduo.Hub.Queue.{mem}
use mu_muduo.Hub.Apart.{HubInv}
use mu_muduo.Hub.Views.{
  view-Found, Action, acts, opens, tears_down, hub_step, run_actions, view, view_step,
}
use mu_muduo.Hub.TearDown.{tear_down_lem}
use mu_muduo.Hub.Steps.{ActionAdmits}
use mu_muduo.Hub.Refine.{
  hub_step-Steps, run_actions-Refines, run_actions-Apart, Refines, AllAdmitted, own,
}
use mu_muduo.Hub.Sample.{
  quiet, quiet-HubInv, quiet-IsFree, open_one, one_open, one_open-HubInv, one_open-IsFree,
}

-- A loop in the state after one action.
after :
    (a : Action) (h h' : Hub list_epoll)
    → HubInv list_epoll (λ k fd. tt) h
    → ActionAdmits list_epoll (λ k fd. tt) (so_error 0) a h
    → hub_step list_epoll (λ k fd. tt) (so_error 0) a h ≡ ok h'
    → HubInv list_epoll (λ k fd. tt) h' × ((o : ℕ) → view o h' ≡ view_step o a (view o h))
after a h h' i adm e =
    let (k, f, i', seen) = hub_step-Steps list_epoll (λ k fd. tt) (so_error 0) a h i adm in
    subst (λ x. HubInv list_epoll (λ k fd. tt) x × ((o : ℕ) → view o x ≡ view_step o a (view o h)))
      (same (sym f ∙ e)) (i', seen)
  where
    same : {x y : Hub list_epoll} → Outcome.ok x ≡ ok y → x ≡ y
    same h = cc

-- The connection sends three bytes, of which the socket takes two; the peer hangs up; the object ends.
abbrev life : List Action
life = acts 41 (sends (λ ys. count 2) (7 ∷ 8 ∷ 9 ∷ [])) ∷ acts 41 hangs_up ∷ tears_down ∷ []

life-AllAdmitted : AllAdmitted list_epoll (λ k fd. tt) (so_error 0) life one_open
unfolding lookup readable_bytes writer_bytes view view_step next_state block
life-AllAdmitted = (first, λ h e. (second h e, λ h' e'. (tt, λ h'' e''. tt)))
  where
    sending : Action
    sending = acts 41 (sends (λ ys. count 2) (7 ∷ 8 ∷ 9 ∷ []))

    first : ActionAdmits list_epoll (λ k fd. tt) (so_error 0) sending one_open
    first = (open_one, refl, (omega arith, omega arith, refl, inl (omega arith)))

    second :
        (h : Hub list_epoll)
        → hub_step list_epoll (λ k fd. tt) (so_error 0) sending one_open ≡ ok h
        → ActionAdmits list_epoll (λ k fd. tt) (so_error 0) (acts 41 hangs_up) h
    second h e =
        let (i, seen) = after sending one_open h one_open-HubInv first e in
        let (c, l) = view-Found 41 h (seen 41) in (c, l, tt)

run_actions-Refines_example :
    Refines list_epoll
      (λ k fd. tt)
      (so_error 0)
      life
      one_open
      (run_actions list_epoll (λ k fd. tt) (so_error 0) life one_open)
run_actions-Refines_example =
    run_actions-Refines list_epoll (λ k fd. tt) (so_error 0) life one_open one_open-HubInv
      life-AllAdmitted

-- The peer of a new connection hangs up, beside nothing, and beside another connection.
abbrev alone : List Action
alone = opens 40 7 ∷ acts 40 hangs_up ∷ tears_down ∷ []

abbrev beside : List Action
beside = opens 40 7 ∷ acts 41 shuts ∷ acts 40 hangs_up ∷ tears_down ∷ []

alone-AllAdmitted : AllAdmitted list_epoll (λ k fd. tt) (so_error 0) alone quiet
unfolding lookup view view_step mem
alone-AllAdmitted = (first, λ h e. (second h e, λ h' e'. (tt, λ h'' e''. tt)))
  where
    first : ActionAdmits list_epoll (λ k fd. tt) (so_error 0) (opens 40 7) quiet
    first = (refl, quiet-IsFree 40 7)

    second :
        (h : Hub list_epoll)
        → hub_step list_epoll (λ k fd. tt) (so_error 0) (opens 40 7) quiet ≡ ok h
        → ActionAdmits list_epoll (λ k fd. tt) (so_error 0) (acts 40 hangs_up) h
    second h e =
        let (i, seen) = after (opens 40 7) quiet h quiet-HubInv first e in
        let (c, l) = view-Found 40 h (seen 40) in (c, l, tt)

beside-AllAdmitted : AllAdmitted list_epoll (λ k fd. tt) (so_error 0) beside one_open
unfolding lookup view view_step mem next_state block
beside-AllAdmitted = (
  first,
  λ h e.
      let (i, seen) = after (opens 40 7) one_open h one_open-HubInv first e in
      let (c, l) = view-Found 41 h (seen 41) in
      (
        (c, l, tt),
        λ h' e'.
            let (i', seen') = after (acts 41 shuts) h h' i (c, l, tt) e' in
            let (c', l') =
              view-Found 40 h' (seen' 40 ∙ ap (view_step 40 (acts 41 shuts)) (seen 40)) in
            ((c', l', tt), λ h'' e''. (tt, λ l₁ e₁. tt)),
      ),
)
  where
    first : ActionAdmits list_epoll (λ k fd. tt) (so_error 0) (opens 40 7) one_open
    first = (refl, one_open-IsFree)

run_actions-Apart_example :
    (h' : Hub list_epoll) × (k' : Hub list_epoll) × (run_actions list_epoll
        (λ k fd. tt)
        (so_error 0)
        alone
        quiet
      ≡ ok h')
    × (run_actions list_epoll (λ k fd. tt) (so_error 0) beside one_open ≡ ok k')
    × (view 40 h' ≡ view 40 k')
unfolding own view mem lookup
run_actions-Apart_example =
    run_actions-Apart list_epoll (λ k fd. tt) (so_error 0) 40 alone beside quiet one_open
      quiet-HubInv one_open-HubInv alone-AllAdmitted beside-AllAdmitted refl refl

tear_down_lem_example :
    (h' : Hub list_epoll) × (tear_down list_epoll
        (λ k fd. tt)
        (record one_open { doomed = 41 ∷ [] })
      ≡ ok h')
    × HubInv list_epoll (λ k fd. tt) h'
    × (h'.doomed ≡ [])
    × ((b : ℕ) → lookup b h'.conns ≡ (if mem b (41 ∷ []) then none else lookup b one_open.conns))
    × ((b : ℕ) (c : Channel)
        → mem b (41 ∷ []) ≡ true
        → lookup b one_open.reactor.heap ≡ some c
        → IsFree list_epoll b c.fd h'.reactor)
unfolding lookup
tear_down_lem_example =
    tear_down_lem list_epoll (λ k fd. tt) (record one_open { doomed = 41 ∷ [] })
      (record {
        inv = one_open-HubInv.inv;
        sound = one_open-HubInv.sound;
        waiting = ((open_one, refl), tt);
      })
