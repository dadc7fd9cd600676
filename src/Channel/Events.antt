-- ===== src/Channel/Events.antt =====
-- The interest mask: only the read and the write bits occur in it, and each function moves its own.
use mu_muduo.Common.{ℕ, ◌≡◌, refl, Bool, true, false, not, ◌||◌, bit_and, bit_or, ◌==◌}
use mu_muduo.Channel.{
  Channel, read_on, read_off, write_on, write_off, all_off, is_none_event, is_reading, is_writing,
  k_read_event, k_write_event, complement, has,
}

-- The mask of a wish to read and a wish to write.
abbrev pub mask_of : Bool → Bool → ℕ
mask_of false false = 0
mask_of true false = 3
mask_of false true = 4
mask_of true true = 7

-- The channel waits for just these.
abbrev pub Waits : Bool → Bool → Channel → Type 0
Waits r w c = c.events ≡ mask_of r w

mask_reads : (r w : Bool) → has (mask_of r w) k_read_event ≡ r
mask_reads false false = refl
mask_reads false true = refl
mask_reads true false = refl
mask_reads true true = refl

mask_writes : (r w : Bool) → has (mask_of r w) k_write_event ≡ w
mask_writes false false = refl
mask_writes false true = refl
mask_writes true false = refl
mask_writes true true = refl

mask_none : (r w : Bool) → (mask_of r w == 0) ≡ not (r || w)
mask_none false false = refl
mask_none false true = refl
mask_none true false = refl
mask_none true true = refl

mask_read_on : (r w : Bool) → bit_or (mask_of r w) k_read_event ≡ mask_of true w
mask_read_on false false = refl
mask_read_on false true = refl
mask_read_on true false = refl
mask_read_on true true = refl

mask_read_off : (r w : Bool) → bit_and (mask_of r w) (complement k_read_event) ≡ mask_of false w
mask_read_off false false = refl
mask_read_off false true = refl
mask_read_off true false = refl
mask_read_off true true = refl

mask_write_on : (r w : Bool) → bit_or (mask_of r w) k_write_event ≡ mask_of r true
mask_write_on false false = refl
mask_write_on false true = refl
mask_write_on true false = refl
mask_write_on true true = refl

mask_write_off : (r w : Bool) → bit_and (mask_of r w) (complement k_write_event) ≡ mask_of r false
mask_write_off false false = refl
mask_write_off false true = refl
mask_write_off true false = refl
mask_write_off true true = refl

module _ (r w : Bool) (c : Channel) (e : Waits r w c) where
  -- On a channel that waits for `r` and `w`, the three tests tell `r`, `w`, and that there is
  -- neither.
  pub events_tests : (is_reading c ≡ r) × (is_writing c ≡ w) × (is_none_event c ≡ not (r || w))
  unfolding is_reading is_writing is_none_event
  events_tests = (rw e (mask_reads r w), rw e (mask_writes r w), rw e (mask_none r w))

  -- On a channel that waits for `r` and `w`, each of the five changes sets or clears its own wish
  -- and leaves the other; `disableAll` clears both.
  pub events_changes :
      Waits true w (read_on c)
      × Waits false w (read_off c)
      × Waits r true (write_on c)
      × Waits r false (write_off c)
      × Waits false false (all_off c)
  unfolding read_on read_off write_on write_off all_off
  events_changes = (
    rw e (mask_read_on r w),
    rw e (mask_read_off r w),
    rw e (mask_write_on r w),
    rw e (mask_write_off r w),
    refl,
  )
