-- ===== src/Buffer/Append.antt =====
-- `append` as a whole: the lengths for which it works, and those for which `makeSpace` leaves too
-- little room.
use mu_muduo.Common.{
  ℕ, ◌+◌, ◌-◌, ◌≤◌, ◌<◌, ◌≡◌, refl, ap, ◌∙◌, List, ◌++◌, length, arith, tests, Outcome, ok, err,
  out_of_bounds, length_error, max_size, add_size, ltb, ge→ltb, lt→ltb, inl, inr, ◌⊎◌,
  length-append, length-replicate, replicate, length-patch, Bool-cases, ◌^◌,
}
use mu_muduo.Buffer.{
  Buffer, cheap_prepend, writer_bytes, prependable_bytes, resize, grow, make_space,
  ensure_writeable_bytes, append,
}
use mu_muduo.Buffer.Valid.{IsValid, content}
use mu_muduo.Buffer.Moves.{readable_bytes_lem, writer_bytes_lem, length-content}
use mu_muduo.Buffer.Growth.{
  compacted, grown, stored, compact_lem, compacted-IsValid, content-compacted, grow_lem,
  grown-IsValid, content-grown, store_lem, store_outside, stored-IsValid, content-stored,
}

-- There is room behind the writer; or the block fits once the content has moved to the front; or the
-- vector grows, and may.
abbrev pub Fits : ℕ → Buffer → Type 0
Fits len b =
    (len ≤ writer_bytes b)
    ⊎ (len + cheap_prepend ≤ writer_bytes b + b.reader_index)
    ⊎ ((writer_bytes b + b.reader_index < len) × (b.writer_index + len ≤ max_size))

-- The lengths between the two tests: `makeSpace` moves the content, and the block does not fit.
abbrev pub Overruns : ℕ → Buffer → Type 0
Overruns len b =
    (writer_bytes b < len)
    × (len ≤ writer_bytes b + b.reader_index)
    × (writer_bytes b + b.reader_index < len + cheap_prepend)

module _ {b : Buffer} (v : IsValid b) (len : ℕ) where
  ensure_fits : len ≤ writer_bytes b → ensure_writeable_bytes len b ≡ ok b
  unfolding ensure_writeable_bytes
  ensure_fits h = rw (ge→ltb (writer_bytes b) len h)

  free_sum : add_size (writer_bytes b) (prependable_bytes b) ≡ writer_bytes b + b.reader_index
  unfolding prependable_bytes
  free_sum = omega (arith, writer_bytes_lem v)

  ensure_moves :
      writer_bytes b < len
      → len ≤ writer_bytes b + b.reader_index
      → ensure_writeable_bytes len b ≡ ok (compacted b)
  unfolding ensure_writeable_bytes make_space
  ensure_moves h g = rw (
    lt→ltb (writer_bytes b) len h,
    free_sum,
    ge→ltb (writer_bytes b + b.reader_index) len g,
    compact_lem v,
  )

  ensure_makes : writer_bytes b + b.reader_index < len → ensure_writeable_bytes len b ≡ grow len b
  unfolding ensure_writeable_bytes make_space
  ensure_makes h = rw (
    lt→ltb (writer_bytes b) len (omega arith),
    free_sum,
    lt→ltb (writer_bytes b + b.reader_index) len h,
  )

abbrev pub Appended : List ℕ → Buffer → Outcome Buffer → Type 0
Appended xs b r = (b' : Buffer) × (r ≡ ok b') × IsValid b' × (content b' ≡ content b ++ xs)

module _ {b : Buffer} (v : IsValid b) (xs : List ℕ) where
  length-compacted : length (compacted b).bytes ≡ length b.bytes
  length-compacted =
      length-patch cheap_prepend (content b) b.bytes
        (omega (arith, length-content v, readable_bytes_lem v))

  moved_room :
      length xs + cheap_prepend ≤ writer_bytes b + b.reader_index
      → (compacted b).writer_index + length xs ≤ length (compacted b).bytes
  moved_room h = omega (arith, length-compacted, writer_bytes_lem v)

  moved_short :
      writer_bytes b + b.reader_index < length xs + cheap_prepend
      → length (compacted b).bytes < (compacted b).writer_index + length xs
  moved_short h = omega (arith, length-compacted, writer_bytes_lem v)

  grown_room : (grown (length xs) b).writer_index + length xs ≤ length (grown (length xs) b).bytes
  grown_room = omega (
    arith,
    length-append b.bytes (replicate (b.writer_index + length xs - length b.bytes) 0),
    length-replicate {A = ℕ} (b.writer_index + length xs - length b.bytes) 0,
  )

module _ (xs : List ℕ) {b : Buffer} (v : IsValid b) where
  append_after :
      (c : Buffer)
      → ensure_writeable_bytes (length xs) b ≡ ok c
      → IsValid c
      → content c ≡ content b
      → c.writer_index + length xs ≤ length c.bytes
      → Appended xs b (append xs b)
  unfolding append
  append_after c e w same room = (
    stored xs c,
    rw (e, store_lem w xs room),
    stored-IsValid w xs room,
    content-stored w xs room ∙ ap (λ zs. zs ++ xs) same,
  )

  -- On a valid buffer, if the block fits, `append` returns a valid buffer whose content is the old
  -- one followed by the block.
  pub append_lem : Fits (length xs) b → Appended xs b (append xs b)
  append_lem (inl h) =
      append_after b (ensure_fits v (length xs) h) v refl (omega (arith, writer_bytes_lem v))
  append_lem (inr (inl h)) = elim (Bool-cases (ltb (writer_bytes b) (length xs))) [
    | inl short ↦
        append_after (compacted b) (ensure_moves v (length xs) (omega (tests, short)) (omega arith))
          (compacted-IsValid v) (content-compacted v) (moved_room v xs (omega arith))
    | inr long ↦
        append_after b (ensure_fits v (length xs) (omega (tests, long))) v refl
          (omega (tests, long, writer_bytes_lem v))
  ]
  append_lem (inr (inr (h, g))) =
      append_after (grown (length xs) b)
        (ensure_makes v (length xs) h
          ∙ grow_lem v (length xs) (omega (arith, writer_bytes_lem v)) (omega arith))
        (grown-IsValid v (length xs) g) (content-grown v (length xs)) (grown_room v xs)

  -- On a valid buffer, `append` of a block whose length lies in the gap (Overruns) writes past the
  -- end of the vector.
  pub append-Overruns : Overruns (length xs) b → append xs b ≡ err out_of_bounds
  unfolding append
  append-Overruns (h, g, k) =
      rw (
        ensure_moves v (length xs) h g,
        store_outside (compacted-IsValid v) xs (moved_short v xs k),
      )

  -- A vector that would grow beyond its limit throws.
  pub append_too_long :
      writer_bytes b + b.reader_index < length xs
      → max_size < b.writer_index + length xs
      → b.writer_index + length xs < 2 ^ 64
      → append xs b ≡ err length_error
  unfolding append grow resize
  append_too_long h g k =
      rw (ensure_makes v (length xs) h, no_wrap, lt→ltb max_size (b.writer_index + length xs) g)
    where
      no_wrap : add_size b.writer_index (length xs) ≡ b.writer_index + length xs
      no_wrap = omega arith
