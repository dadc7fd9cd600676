-- ===== src/Channel/Callbacks.antt =====
-- The handlers that handleEvent runs, as callbacks of the channel.
use mu_muduo.Common.{
  ℕ, Bool, true, false, List, [], ◌∷◌, ◌++◌, Option, none, some, if◌then◌else◌, not, ◌&&◌, bit_or,
}
use mu_muduo.Channel.{
  Channel, Handler, handle_event, handle_event_with_guard, call, has, epoll_hup, epoll_in,
  epoll_err, epoll_pri, epoll_out,
}

module _ (P : Handler → Type 0) where
  abbrev pub AllRun : List Handler → Type 0
  AllRun [] = Unit {0}
  AllRun (x ∷ xs) = P x × AllRun xs

  abbrev pub IsCallback : Option Handler → Type 0
  IsCallback none = Unit {0}
  IsCallback (some x) = P x

  AllRun-append : (xs ys : List Handler) → AllRun xs → AllRun ys → AllRun (xs ++ ys)
  AllRun-append [] ys p q = q
  AllRun-append (x ∷ xs) ys (p, ps) q = (p, AllRun-append xs ys ps q)

  if_called : (b : Bool) (cb : Option Handler) → IsCallback cb → AllRun (if b then call cb else [])
  unfolding call
  if_called true none p = tt
  if_called true (some x) p = (p, tt)
  if_called false none p = tt
  if_called false (some x) p = tt

  four_called :
      (b b₂ b₃ b₄ : Bool) (k e r w : Option Handler)
      → IsCallback k
      → IsCallback e
      → IsCallback r
      → IsCallback w
      → AllRun (
          (if b then call k else [])
          ++ ((if b₂ then call e else [])
              ++ ((if b₃ then call r else []) ++ (if b₄ then call w else []))))
  four_called b b₂ b₃ b₄ k e r w pk pe pr pw =
      let rs = if b₃ then call r else [] in
      let ws = if b₄ then call w else [] in
      let es = if b₂ then call e else [] in
      AllRun-append (if b then call k else []) (es ++ (rs ++ ws)) (if_called b k pk) (
        AllRun-append es (rs ++ ws) (if_called b₂ e pe)
          (AllRun-append rs ws (if_called b₃ r pr) (if_called b₄ w pw)))

  with_guard :
      (c : Channel)
      → IsCallback c.close_callback
      → IsCallback c.error_callback
      → IsCallback c.read_callback
      → IsCallback c.write_callback
      → AllRun (handle_event_with_guard c)
  unfolding handle_event_with_guard
  with_guard c =
      four_called (has c.revents epoll_hup && not (has c.revents epoll_in))
        (has c.revents epoll_err) (has c.revents (bit_or epoll_in epoll_pri))
        (has c.revents epoll_out) c.close_callback c.error_callback c.read_callback c.write_callback

  pub handle_event-AllRun :
      (alive : ℕ → Bool) (c : Channel)
      → IsCallback c.close_callback
      → IsCallback c.error_callback
      → IsCallback c.read_callback
      → IsCallback c.write_callback
      → AllRun (handle_event alive c)
  unfolding handle_event
  handle_event-AllRun alive c k e r w = by_tie c.tied c.tie
    where
      by_alive : (b : Bool) → AllRun (if b then handle_event_with_guard c else [])
      by_alive true = with_guard c k e r w
      by_alive false = tt

      by_tie :
          (tied : Bool) (tie : Option ℕ)
          → AllRun (
              if tied
              then elim tie [
                | none ↦ []
                | some obj ↦ if alive obj then handle_event_with_guard c else []
              ]
              else handle_event_with_guard c)
      by_tie true none = tt
      by_tie true (some obj) = by_alive (alive obj)
      by_tie false t = with_guard c k e r w
