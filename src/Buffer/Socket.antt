-- ===== src/Buffer/Socket.antt =====
-- `readFd`: what `readv` delivers ends up behind the content, through the second block as well.
use mu_muduo.Common.{
  ℕ, ◌+◌, ◌-◌, ◌≤◌, ◌<◌, ◌≡◌, refl, ap, ◌∙◌, List, ◌++◌, length, take, drop, arith, tests, Outcome,
  ok, err, out_of_bounds, max_size, add_size, leb, le→leb, gt→leb, inl, inr, ◌⊎◌, append_assoc,
  take-append-drop, take_all, ◌>>=◌, Bool-cases, length-take, length-drop, length-patch, patch,
}
use mu_muduo.Buffer.{
  Buffer, cheap_prepend, writer_bytes, append, received, failed, Transfer, count, saved_errno,
  read_fd, read_indices,
}
use mu_muduo.Buffer.Valid.{IsValid, content}
use mu_muduo.Buffer.Moves.{writer_bytes_lem, write_at_lem}
use mu_muduo.Buffer.Growth.{stored, stored-IsValid, content-stored}
use mu_muduo.Buffer.Append.{Fits, Appended, append_lem, append-Overruns}

-- The `n` bytes of a read fit the free space, or what is left over fits the prepend area or makes
-- the vector grow.
abbrev pub ReadFits : ℕ → Buffer → Type 0
ReadFits n b =
    (n ≤ writer_bytes b)
    ⊎ (n - writer_bytes b + cheap_prepend ≤ b.reader_index)
    ⊎ ((b.reader_index < n - writer_bytes b) × (length b.bytes + (n - writer_bytes b) ≤ max_size))

abbrev pub ReadOverruns : ℕ → Buffer → Type 0
ReadOverruns n b =
    (writer_bytes b < n)
    × (n - writer_bytes b ≤ b.reader_index)
    × (b.reader_index < n - writer_bytes b + cheap_prepend)

abbrev pub HasRead : List ℕ → Buffer → Outcome (Transfer × Buffer) → Type 0
HasRead xs b r =
    (b' : Buffer) × (r ≡ ok (count (length xs), b')) × IsValid b' × (content b' ≡ content b ++ xs)

module _ (xs : List ℕ) {b : Buffer} (v : IsValid b) where
  first : List ℕ
  first = take (writer_bytes b) xs

  rest : List ℕ
  rest = drop (writer_bytes b) xs

  read_fd_short :
      length xs ≤ writer_bytes b → read_fd (received xs) b ≡ ok (count (length xs), stored xs b)
  unfolding read_fd read_indices
  read_fd_short h = rw (
    take_all (writer_bytes b) xs h,
    write_at_lem b.writer_index xs b.bytes room,
    le→leb (length xs) (writer_bytes b) h,
    no_wrap,
  )
    where
      room : b.writer_index + length xs ≤ length b.bytes
      room = omega (arith, writer_bytes_lem v)

      no_wrap : add_size b.writer_index (length xs) ≡ b.writer_index + length xs
      no_wrap = omega (arith, writer_bytes_lem v)

  first_room : b.writer_index + length first ≤ length b.bytes
  unfolding first
  first_room = omega (arith, writer_bytes_lem v, length-take (writer_bytes b) xs)

  filled-IsValid : IsValid (stored first b)
  filled-IsValid = stored-IsValid v first first_room

  writer_bytes-filled : writer_bytes b < length xs → writer_bytes (stored first b) ≡ 0
  unfolding first
  writer_bytes-filled h = omega (
    arith,
    writer_bytes_lem v,
    writer_bytes_lem filled-IsValid,
    length-take (writer_bytes b) xs,
    length-patch b.writer_index first b.bytes first_room,
  )

  length-rest : length rest ≡ length xs - writer_bytes b
  unfolding rest
  length-rest = length-drop (writer_bytes b) xs

  -- The end of the vector is where the first block ended.
  read_fd_long :
      writer_bytes b < length xs
      → read_fd (received xs) b
        ≡ (append rest (stored first b) >>= λ b'. ok (count (length xs), b'))
  unfolding read_fd read_indices first rest
  read_fd_long h =
      rw
        (
          write_at_lem b.writer_index first b.bytes first_room,
          read_indices,
          gt→leb (length xs) (writer_bytes b) h,
        )
        (ap
          (λ w.
            append rest (record b { bytes = patch b.writer_index first b.bytes; writer_index = w })
            >>= λ b'. ok (count (length xs), b'))
          ends)
    where
      ends : length (patch b.writer_index first b.bytes) ≡ b.writer_index + length first
      ends = omega (
        arith,
        writer_bytes_lem v,
        length-take (writer_bytes b) xs,
        length-patch b.writer_index first b.bytes first_room,
      )

  rest-Fits :
      writer_bytes b < length xs
      → (length xs - writer_bytes b + cheap_prepend ≤ b.reader_index)
        ⊎ ((b.reader_index < length xs - writer_bytes b)
            × (length b.bytes + (length xs - writer_bytes b) ≤ max_size))
      → Fits (length rest) (stored first b)
  unfolding first
  rest-Fits h (inl f) = inr (inl (omega (arith, length-rest, writer_bytes-filled h)))
  rest-Fits h (inr f) = inr (
      inr (
        omega (arith, length-rest, writer_bytes-filled h),
        omega (arith, length-rest, writer_bytes_lem v, length-take (writer_bytes b) xs),
      ))

  read_long :
      writer_bytes b < length xs
      → Appended rest (stored first b) (append rest (stored first b))
      → HasRead xs b (read_fd (received xs) b)
  unfolding first rest
  read_long h (b', e, w, same) = (
    b',
    read_fd_long h ∙ rw e,
    w,
    same
        ∙ ap (λ zs. zs ++ rest) (content-stored v first first_room)
        ∙ append_assoc (content b) first rest
        ∙ ap (λ zs. content b ++ zs) (take-append-drop (writer_bytes b) xs),
  )

  -- On a valid buffer, if what `readv` stored fits, `readFd` returns its size, and the buffer is
  -- valid and holds the old content followed by exactly those bytes.
  pub read_fd_lem : ReadFits (length xs) b → HasRead xs b (read_fd (received xs) b)
  read_fd_lem f = elim (Bool-cases (leb (length xs) (writer_bytes b))) [
    | inl short ↦ read_short (omega (tests, short))
    | inr long ↦ read_long (omega (tests, long)) (
        append_lem rest filled-IsValid
          (rest-Fits (omega (tests, long)) (beyond f (omega (tests, long)))))
  ]
    where
      read_short : length xs ≤ writer_bytes b → HasRead xs b (read_fd (received xs) b)
      read_short h =
          let room : b.writer_index + length xs ≤ length b.bytes =
            omega (arith, writer_bytes_lem v) in
          (stored xs b, read_fd_short h, stored-IsValid v xs room, content-stored v xs room)

      beyond :
          ReadFits (length xs) b
          → writer_bytes b < length xs
          → (length xs - writer_bytes b + cheap_prepend ≤ b.reader_index)
            ⊎ ((b.reader_index < length xs - writer_bytes b)
                × (length b.bytes + (length xs - writer_bytes b) ≤ max_size))
      beyond (inl h) g = absurd (omega arith)
      beyond (inr h) g = h

  -- On a valid buffer, a read whose part beyond the free space lies in the gap (ReadOverruns)
  -- makes `readFd` write past the end of the vector.
  pub read_fd_overruns : ReadOverruns (length xs) b → read_fd (received xs) b ≡ err out_of_bounds
  read_fd_overruns (h, g, k) =
      read_fd_long h
      ∙ rw (
          append-Overruns rest filled-IsValid (
            omega (arith, length-rest, writer_bytes-filled h),
            omega (arith, length-rest, writer_bytes-filled h),
            omega (arith, length-rest, writer_bytes-filled h),
          ))

-- A failed read reports `errno` and changes nothing.
pub read_fd_failed : (errno : ℕ) (b : Buffer) → read_fd (failed errno) b ≡ ok (saved_errno errno, b)
unfolding read_fd
read_fd_failed errno b = refl
