-- ===== src/Connection/Send.antt =====
-- `sendInLoop`: no byte is lost, doubled or moved.
use mu_muduo.Common.{
  ℕ, ◌+◌, ◌<◌, ◌≡◌, refl, sym, ap, inl, inr, Bool, true, false, not, List, ◌++◌, length, take, drop,
  ◌==◌, ltb, append-nil, arith, tests, Outcome, ok, Bool-cases, take_all, drop_all, length-drop,
  length-append, ge→ltb, subst,
}
use mu_muduo.Buffer.{Buffer, readable_bytes}
use mu_muduo.Buffer.Valid.{IsValid, content}
use mu_muduo.Buffer.Moves.{length-content}
use mu_muduo.Buffer.Append.{Fits, append_lem}
use mu_muduo.Connection.{
  Connection, Attempt, buffer_rest, store_rest, arm, note_high_water, posted_high_water,
}
use mu_muduo.Connection.Sound.{Sound, sent_bytes, sent_bytes-emit_if, emit_if_same}
use mu_muduo.Port.{Port}

module _ {S : Type 0} (p : Port S) (r : Bool) where
  -- The call returns with `ys` added behind the output buffer, in a sound connection whose state and
  -- input are as before, and with nothing more written.
  abbrev pub Buffers : Connection S → List ℕ → Outcome (Connection S) → Type 0
  Buffers c ys out =
      (c' : Connection S) × (w' : Bool) × (out ≡ ok c')
      × Sound p r w' c'
      × (c'.state ≡ c.state)
      × (content c'.output ≡ content c.output ++ ys)
      × (sent_bytes c'.trace ≡ sent_bytes c.trace)

  arm_lem :
      (w : Bool) (s : S) → p.Interest r w s → (s' : S) × (arm p s ≡ ok s') × p.Interest r true s'
  unfolding arm
  arm_lem true s i = (s, rw (p.is_writing_lem r true s i), i)
  arm_lem false s i = rw (p.is_writing_lem r false s i) (p.writes r false s i)

  note_high_water_same :
      (n : ℕ) (c : Connection S)
      → ((note_high_water n c).state ≡ c.state)
        × ((note_high_water n c).input ≡ c.input)
        × (sent_bytes (note_high_water n c).trace ≡ sent_bytes c.trace)
  unfolding note_high_water
  note_high_water_same n c = (
    (emit_if_same _ _ c).0,
    (emit_if_same _ _ c).2,
    sent_bytes-emit_if _ (posted_high_water _) c refl,
  )

  store_rest_lem :
      (n : ℕ) (ys : List ℕ) (w : Bool) (c : Connection S)
      → Sound p r w c
      → 0 < length ys
      → Fits (length ys) c.output
      → Buffers c ys (store_rest p n ys c)
  unfolding store_rest
  store_rest_lem n ys w c so pos f =
      let (out, e, v, same) = append_lem ys so.output_valid f in
      let (s, e', i) = arm_lem w c.port so.interest in
      let (st, inp, sent) = note_high_water_same n c in
      (
        record (note_high_water n c) { output = out; port = s },
        true,
        rw (e, e'),
        record {
          input_valid = subst IsValid (sym inp) so.input_valid;
          output_valid = v;
          interest = i;
          armed = λ _. filled out v same;
        },
        st,
        same,
        sent,
      )
    where
      filled :
          (out : Buffer)
          → IsValid out
          → content out ≡ content c.output ++ ys
          → true ≡ not (readable_bytes out == 0)
      filled out v same =
          ground (arith, length-content v, ap length same, length-append (content c.output) ys)

  pub buffer_rest_none :
      (xs : List ℕ) (t : Attempt) (w : Bool) (c : Connection S)
      → Sound p r w c
      → t.remaining ≡ 0
      → buffer_rest p xs t c ≡ ok c
  unfolding buffer_rest
  buffer_rest_none xs t w c so e = elim (Bool-cases t.fault_error) [
    | inl f ↦ rw f
    | inr f ↦ rw (f, ge→ltb 0 t.remaining (omega arith))
  ]

  pub buffer_rest_lem :
      (xs : List ℕ) (t : Attempt) (w : Bool) (c : Connection S)
      → Sound p r w c
      → t.fault_error ≡ false
      → t.nwrote + t.remaining ≡ length xs
      → Fits t.remaining c.output
      → Buffers c (drop t.nwrote xs) (buffer_rest p xs t c)
  unfolding buffer_rest
  buffer_rest_lem xs t w c so nf e f = elim (Bool-cases (ltb 0 t.remaining)) [
    | inl some_left ↦
        rw (nf, some_left, whole)
          (store_rest_lem t.remaining (drop t.nwrote xs) w c so
            (omega (tests, some_left, rest_size)) (subst (λ n. Fits n c.output) (sym rest_size) f))
    | inr none_left ↦
        rw (nf, none_left)
          (
            c,
            w,
            refl,
            so,
            refl,
            rw (drop_all t.nwrote xs (omega (tests, none_left)))
                (sym (append-nil (content c.output))),
            refl,
          )
  ]
    where
      rest_size : length (drop t.nwrote xs) ≡ t.remaining
      rest_size = omega (arith, length-drop t.nwrote xs)

      whole : take t.remaining (drop t.nwrote xs) ≡ drop t.nwrote xs
      whole = take_all t.remaining (drop t.nwrote xs) (omega (arith, rest_size))
