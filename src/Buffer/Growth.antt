-- ===== src/Buffer/Growth.antt =====
-- `ensureWriteableBytes`, `makeSpace` and `append`: when there is room, and what becomes of the
-- content. `makeSpace` counts the eight bytes of the prepend area as free, and `append` then runs
-- past the vector for up to eight lengths.
use mu_muduo.Common.{
  ℕ, ◌+◌, ◌-◌, ◌≤◌, ◌<◌, ◌≡◌, ap, ◌∙◌, List, ◌++◌, take, drop, length, length-drop, length-append,
  length-patch, length-replicate, replicate, patch, take-drop-patch, take_all, drop-append_le,
  take-append_le, arith, ok, err, out_of_bounds, max_size, add_size, ge→ltb, gt→leb,
}
use mu_muduo.Buffer.{Buffer, cheap_prepend, resize, grow, compact, store, write_at}
use mu_muduo.Buffer.Valid.{IsValid, content}
use mu_muduo.Buffer.Moves.{readable_bytes_lem, length-content, read_at_lem, write_at_lem}

-- The three shapes that a buffer takes on the way.
abbrev pub compacted : Buffer → Buffer
compacted b = record {
  bytes = patch cheap_prepend (content b) b.bytes;
  reader_index = cheap_prepend;
  writer_index = cheap_prepend + (b.writer_index - b.reader_index);
}

abbrev pub grown : ℕ → Buffer → Buffer
grown len b = record b { bytes = b.bytes ++ replicate (b.writer_index + len - length b.bytes) 0 }

abbrev pub stored : List ℕ → Buffer → Buffer
stored xs b = record b {
  bytes = patch b.writer_index xs b.bytes;
  writer_index = b.writer_index + length xs;
}

module _ {b : Buffer} (v : IsValid b) where
  pub compact_lem : compact b ≡ ok (compacted b)
  unfolding compact
  compact_lem = rw (
    readable_bytes_lem v,
    read_at_lem b.reader_index n b.bytes inside,
    write_at_lem cheap_prepend (content b) b.bytes fits,
    no_wrap,
  )
    where
      n : ℕ
      n = b.writer_index - b.reader_index

      inside : b.reader_index + n ≤ length b.bytes
      inside = omega arith

      fits : cheap_prepend + length (content b) ≤ length b.bytes
      fits = omega (arith, length-content v, readable_bytes_lem v)

      no_wrap : add_size cheap_prepend n ≡ cheap_prepend + n
      no_wrap = omega arith

  pub compacted-IsValid : IsValid (compacted b)
  compacted-IsValid = omega (
    arith,
    length-content v,
    readable_bytes_lem v,
    length-patch cheap_prepend (content b) b.bytes,
  )

  pub content-compacted : content (compacted b) ≡ content b
  content-compacted =
      take-drop-patch cheap_prepend cheap_prepend _ (content b) b.bytes (omega arith) (omega arith)
        (omega (arith, length-content v, readable_bytes_lem v))

  pub grow_lem :
      (len : ℕ)
      → length b.bytes ≤ b.writer_index + len
      → b.writer_index + len ≤ max_size
      → grow len b ≡ ok (grown len b)
  unfolding grow resize
  grow_lem len long small = rw (
    no_wrap,
    ge→ltb max_size (b.writer_index + len) small,
    take_all (b.writer_index + len) b.bytes long,
  )
    where
      no_wrap : add_size b.writer_index len ≡ b.writer_index + len
      no_wrap = omega arith

  pub grown-IsValid : (len : ℕ) → b.writer_index + len ≤ max_size → IsValid (grown len b)
  grown-IsValid len h = omega (
    arith,
    length-append b.bytes (replicate (b.writer_index + len - length b.bytes) 0),
    length-replicate {A = ℕ} (b.writer_index + len - length b.bytes) 0,
  )

  pub content-grown : (len : ℕ) → content (grown len b) ≡ content b
  content-grown len =
      ap (take (b.writer_index - b.reader_index))
        (drop-append_le b.reader_index b.bytes _ (omega arith))
      ∙ take-append_le _ (drop b.reader_index b.bytes) _
          (omega (arith, length-drop b.reader_index b.bytes))

  pub store_lem :
      (xs : List ℕ) → b.writer_index + length xs ≤ length b.bytes → store xs b ≡ ok (stored xs b)
  unfolding store
  store_lem xs h = rw (write_at_lem b.writer_index xs b.bytes h, no_wrap)
    where
      no_wrap : add_size b.writer_index (length xs) ≡ b.writer_index + length xs
      no_wrap = omega arith

  pub store_outside :
      (xs : List ℕ) → length b.bytes < b.writer_index + length xs → store xs b ≡ err out_of_bounds
  unfolding store write_at
  store_outside xs h = rw (gt→leb (b.writer_index + length xs) (length b.bytes) h)

  pub stored-IsValid :
      (xs : List ℕ) → b.writer_index + length xs ≤ length b.bytes → IsValid (stored xs b)
  stored-IsValid xs h = omega (arith, length-patch b.writer_index xs b.bytes)

  pub content-stored :
      (xs : List ℕ)
      → b.writer_index + length xs ≤ length b.bytes
      → content (stored xs b) ≡ content b ++ xs
  content-stored xs h =
      take-drop-patch b.reader_index b.writer_index _ xs b.bytes (omega arith) (omega arith)
        (omega arith)
