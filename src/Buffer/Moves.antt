-- ===== src/Buffer/Moves.antt =====
-- The indices of a valid buffer, and `retrieve`: how the content shrinks.
use mu_muduo.Common.{
  ℕ, ◌+◌, ◌-◌, ◌≤◌, ◌≡◌, sym, ap, ◌∙◌, List, take, drop, length, length-take, length-drop,
  drop-drop, drop-take, drop_all, take_all, arith, ok, Bool-cases, ltb, inl, inr, le→leb, true,
  take-take, patch, tests, add_size,
}
use mu_muduo.Buffer.{
  Buffer, slice, readable_bytes, writer_bytes, retrieve, read_at, write_at, retrive_as_string,
  retrieve_all_as_string, write_fd, Transfer,
}
use mu_muduo.Buffer.Valid.{IsValid, content}

pub read_at_lem :
    (start n : ℕ) (bs : List ℕ) → start + n ≤ length bs → read_at start n bs ≡ ok (slice start n bs)
unfolding read_at
read_at_lem start n bs h = rw (le→leb (start + n) (length bs) h)

pub write_at_lem :
    (start : ℕ) (xs bs : List ℕ)
    → start + length xs ≤ length bs
    → write_at start xs bs ≡ ok (patch start xs bs)
unfolding write_at
write_at_lem start xs bs h = rw (le→leb (start + length xs) (length bs) h)

pub readable_bytes_lem :
    {b : Buffer} → IsValid b → readable_bytes b ≡ b.writer_index - b.reader_index
unfolding readable_bytes
readable_bytes_lem v = omega arith

pub writer_bytes_lem : {b : Buffer} → IsValid b → writer_bytes b ≡ length b.bytes - b.writer_index
unfolding writer_bytes
writer_bytes_lem v = omega arith

-- The content has as many bytes as `readableBytes()` says.
pub length-content : {b : Buffer} → IsValid b → length (content b) ≡ readable_bytes b
length-content {b} v = omega (
  arith,
  readable_bytes_lem v,
  length-take (b.writer_index - b.reader_index) (drop b.reader_index b.bytes),
  length-drop b.reader_index b.bytes,
)

pub retrieve-IsValid : (n : ℕ) {b : Buffer} → IsValid b → IsValid (retrieve n b)
unfolding retrieve
retrieve-IsValid n {b} v = ground (arith, readable_bytes_lem v)

slice_forward :
    (r w n : ℕ) (bs : List ℕ)
    → r + n ≤ w
    → take (w - (r + n)) (drop (r + n) bs) ≡ drop n (take (w - r) (drop r bs))
slice_forward r w n bs h =
    ap (take (w - (r + n))) (sym (drop-drop n r bs))
    ∙ ap (λ k. take k (drop n (drop r bs))) (omega arith)
    ∙ sym (drop-take n (w - r) (drop r bs))

-- `retrieve(n)` on a valid buffer drops the first `n` bytes of the content, all if it has fewer.
pub content-retrieve :
    (n : ℕ) {b : Buffer} → IsValid b → content (retrieve n b) ≡ drop n (content b)
unfolding retrieve
content-retrieve n {b} v = elim (Bool-cases (ltb n (readable_bytes b))) [
  | inl more ↦
      rw (more, no_wrap more)
        (slice_forward b.reader_index b.writer_index n b.bytes
          (omega (tests, more, readable_bytes_lem v)))
  | inr all ↦ rw all (sym (drop_all n (content b) (omega (tests, all, length-content v))))
]
  where
    no_wrap : ltb n (readable_bytes b) ≡ true → add_size b.reader_index n ≡ b.reader_index + n
    no_wrap more = omega (tests, more, readable_bytes_lem v)

-- `retriveAsString(n)` of at most the readable bytes returns the first `n` and drops them.
pub retrive_as_string_lem :
    (n : ℕ) {b : Buffer}
    → IsValid b
    → n ≤ readable_bytes b
    → retrive_as_string n b ≡ ok (take n (content b), retrieve n b)
unfolding retrive_as_string
retrive_as_string_lem n {b} v h =
    rw (read_at_lem b.reader_index n b.bytes (omega (arith, readable_bytes_lem v))) (
      ap (λ xs. ok (xs, retrieve n b))
        (sym (
          take-take n (b.writer_index - b.reader_index) (drop b.reader_index b.bytes)
            (omega (arith, readable_bytes_lem v)))))

pub retrieve_all_as_string_lem :
    {b : Buffer}
    → IsValid b
    → retrieve_all_as_string b ≡ ok (content b, retrieve (readable_bytes b) b)
unfolding retrieve_all_as_string
retrieve_all_as_string_lem {b} v = rw (retrive_as_string_lem (readable_bytes b) v (omega arith)) (
    ap (λ xs. ok (xs, retrieve (readable_bytes b) b))
      (take_all (readable_bytes b) (content b) (omega (arith, length-content v))))

pub readable-retrieve :
    (n : ℕ) {b : Buffer} → IsValid b → readable_bytes (retrieve n b) ≡ readable_bytes b - n
readable-retrieve n {b} v = omega (
  arith,
  length-content v,
  length-content (retrieve-IsValid n v),
  ap length (content-retrieve n v),
  length-drop n (content b),
)

-- `writeFd` offers exactly the content to `write`, and passes its result on.
pub write_fd_lem :
    (write : List ℕ → Transfer) {b : Buffer} → IsValid b → write_fd write b ≡ ok (write (content b))
unfolding write_fd
write_fd_lem write {b} v =
    rw
      (readable_bytes_lem v, read_at_lem b.reader_index (b.writer_index - b.reader_index) b.bytes h)
  where
    h : b.reader_index + (b.writer_index - b.reader_index) ≤ length b.bytes
    h = omega arith
