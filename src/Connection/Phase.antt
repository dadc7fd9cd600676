-- ===== src/Connection/Phase.antt =====
-- The trace of a connection read as the life of its socket: open, half-closed, or broken by a write
-- or a second half-close behind a half-close.
use mu_muduo.Common.{ℕ, ◌≡◌, refl, ap, ◌∙◌, Bool, true, false, List, [], ◌∷◌, ◌++◌, take, ok}
use mu_muduo.Buffer.{Transfer, count, saved_errno}
use mu_muduo.Connection.{
  Connection, Effect, wrote, shut_write, called_connection, called_message, called_close,
  posted_write_complete, posted_high_water, posted_send, posted_shutdown, logged_error, emit,
  emit_if, after_write,
}

pub data Kind : Type 0 where
  writing closing other : Kind

abbrev pub kind : Effect → Kind
kind (wrote xs) = writing
kind shut_write = closing
kind called_connection = other
kind called_message = other
kind called_close = other
kind posted_write_complete = other
kind (posted_high_water n) = other
kind (posted_send xs) = other
kind posted_shutdown = other
kind (logged_error n) = other

-- `broken`: there was a write or a second half-close behind a half-close.
pub data Phase : Type 0 where
  opened half_closed broken : Phase

abbrev pub advance : Phase → Kind → Phase
advance opened writing = opened
advance opened closing = half_closed
advance opened other = opened
advance half_closed writing = broken
advance half_closed closing = broken
advance half_closed other = half_closed
advance broken k = broken

abbrev pub phase_from : Phase → List Effect → Phase
phase_from ph [] = ph
phase_from ph (e ∷ es) = phase_from (advance ph (kind e)) es

pub phase-snoc :
    (ph : Phase) (es : List Effect) (e : Effect)
    → phase_from ph (es ++ e ∷ []) ≡ advance (phase_from ph es) (kind e)
phase-snoc ph [] e = refl
phase-snoc ph (x ∷ es) e = phase-snoc (advance ph (kind x)) es e

advance_other : (ph : Phase) → advance ph other ≡ ph
advance_other opened = refl
advance_other half_closed = refl
advance_other broken = refl

pub other_phase :
    (es : List Effect) (e : Effect)
    → kind e ≡ other
    → phase_from opened (es ++ e ∷ []) ≡ phase_from opened es
other_phase es e k =
    phase-snoc opened es e
    ∙ ap (advance (phase_from opened es)) k
    ∙ advance_other (phase_from opened es)

module _ {S : Type 0} where
  abbrev pub phase : Connection S → Phase
  phase c = phase_from opened c.trace

  pub phase-emit_if :
      (b : Bool) (e : Effect) (c : Connection S) → kind e ≡ other → phase (emit_if b e c) ≡ phase c
  phase-emit_if true e c k = other_phase c.trace e k
  phase-emit_if false e c k = refl

  pub same_ok : {c c' : Connection S} → ok c ≡ ok c' → c ≡ c'
  same_ok h = cc

  pub phase-after_write :
      (xs : List ℕ) (t : Transfer) (c : Connection S)
      → phase c ≡ opened
      → phase (after_write xs t c) ≡ opened
  unfolding after_write
  phase-after_write xs (count n) c h =
      phase-emit_if _ posted_write_complete (emit (wrote (take n xs)) c) refl
      ∙ phase-snoc opened c.trace (wrote (take n xs))
      ∙ ap (λ ph. advance ph writing) h
  phase-after_write xs (saved_errno e) c h = h
