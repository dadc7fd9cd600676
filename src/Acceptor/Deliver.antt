-- ===== src/Acceptor/Deliver.antt =====
-- What becomes of the descriptors that are accepted, over any number of events.
use mu_muduo.Common.{
  ℕ, ◌≡◌, refl, sym, ap, ◌∙◌, List, [], ◌∷◌, ◌++◌, Option, none, some, Outcome, ok, ◌>>=◌,
  append-nil, append_assoc, ◌==◌, if◌then◌else◌, Bool-cases, inl, inr,
}
use mu_muduo.InetAddress.{InetAddress}
use mu_muduo.Socket.{Accepted, accepted, accept_failed, accept_peer}
use mu_muduo.Acceptor.{
  Acceptor, Effect, delivered, closed, logged_error, logged_limit, note, deliver, handle_read,
  e_mfile,
}

-- The descriptors of the events, and those that the acceptor has dealt with.
abbrev pub accepted_fds : List Accepted → List ℕ
accepted_fds [] = []
accepted_fds (accepted fd peer ∷ rs) = fd ∷ accepted_fds rs
accepted_fds (accept_failed e ∷ rs) = accepted_fds rs

abbrev fds_of : Effect → List ℕ
fds_of (delivered fd peer) = fd ∷ []
fds_of (closed fd) = fd ∷ []
fds_of (logged_error e) = []
fds_of logged_limit = []

pub dealt : List Effect → List ℕ
dealt [] = []
dealt (e ∷ es) = fds_of e ++ dealt es

dealt-snoc : (es : List Effect) (e : Effect) → dealt (es ++ e ∷ []) ≡ dealt es ++ fds_of e
unfolding dealt
dealt-snoc [] e = append-nil (fds_of e)
dealt-snoc (x ∷ es) e =
    ap (λ ys. fds_of x ++ ys) (dealt-snoc es e)
    ∙ sym (append_assoc (fds_of x) (dealt es) (fds_of e))

-- What one event does: the callback works on the target for a descriptor, if it is set.
abbrev pub Works :
    {T : Type 0}
    → Option (ℕ → InetAddress → T → Outcome T)
    → InetAddress
    → Accepted
    → T
    → T
    → Type 0
Works none unset r t t' = t' ≡ t
Works (some f) unset (accepted fd peer) t t' = f fd (accept_peer (accepted fd peer) unset) t ≡ ok t'
Works (some f) unset (accept_failed e) t t' = t' ≡ t

module _ {S T : Type 0} where
  -- The events of the listening socket, one after the other.
  unfoldable pub run_reads :
      Option (ℕ → InetAddress → T → Outcome T)
      → InetAddress
      → List Accepted
      → Acceptor S T
      → Outcome (Acceptor S T)
  run_reads callback unset [] a = ok a
  run_reads callback unset (r ∷ rs) a = do
    a' ← handle_read callback unset r a
    run_reads callback unset rs a'

  -- One event leads to an acceptor with this target that has dealt with the event's descriptor.
  abbrev pub Handles : T → List ℕ → Acceptor S T → Outcome (Acceptor S T) → Type 0
  Handles t' fds a out =
      (a' : Acceptor S T) × (out ≡ ok a')
      × (a'.target ≡ t')
      × (dealt a'.trace ≡ dealt a.trace ++ fds)

  logged_fds :
      (e : ℕ) (a : Acceptor S T)
      → dealt
          (if e == e_mfile
            then note logged_limit (note (logged_error e) a)
            else note (logged_error e) a).trace
        ≡ dealt a.trace ++ []
  unfolding note
  logged_fds e a = elim (Bool-cases (e == e_mfile)) [
    | inl full ↦ rw full (
        dealt-snoc (a.trace ++ logged_error e ∷ []) logged_limit
        ∙ append-nil (dealt (a.trace ++ logged_error e ∷ []))
        ∙ dealt-snoc a.trace (logged_error e))
    | inr other ↦ rw other (dealt-snoc a.trace (logged_error e))
  ]

  logged_target :
      (e : ℕ) (a : Acceptor S T)
      → (if e == e_mfile
          then note logged_limit (note (logged_error e) a)
          else note (logged_error e) a).target
        ≡ a.target
  unfolding note
  logged_target e a = elim (Bool-cases (e == e_mfile)) [
    | inl full ↦ rw full refl
    | inr other ↦ rw other refl
  ]

  pub handle_read_lem :
      (callback : Option (ℕ → InetAddress → T → Outcome T)) (unset : InetAddress) (r : Accepted)
      (a : Acceptor S T) (t' : T)
      → Works callback unset r a.target t'
      → Handles t' (accepted_fds (r ∷ [])) a (handle_read callback unset r a)
  unfolding handle_read deliver note
  handle_read_lem none unset (accepted fd peer) a t' w =
      (note (closed fd) a, refl, sym w, dealt-snoc a.trace (closed fd))
  handle_read_lem (some f) unset (accepted fd peer) a t' w =
      let seen = accept_peer (accepted fd peer) unset in
      (
        note (delivered fd seen) (record a { target = t' }),
        rw w,
        refl,
        dealt-snoc a.trace (delivered fd seen),
      )
  handle_read_lem none unset (accept_failed e) a t' w =
      (_, refl, logged_target e a ∙ sym w, logged_fds e a)
  handle_read_lem (some f) unset (accept_failed e) a t' w =
      (_, refl, logged_target e a ∙ sym w, logged_fds e a)
