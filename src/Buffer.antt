-- ===== src/Buffer.antt =====
-- Buffer.h and Buffer.cc: the growing byte buffer under each connection. A byte is a number that is
-- only moved. What a read from a socket delivers is an argument of `read_fd`.
pub mod Valid
pub mod Moves
pub mod Growth
pub mod Fresh
pub mod Append
pub mod Socket
pub mod RoundTrip
pub mod Queue
mod Tests
use mu_muduo.Common.{
  ℕ, ◌+◌, ◌-◌, ◌<◌, ◌≡◌, List, [], ◌∷◌, ◌++◌, if◌then◌else◌, ltb, leb, length, take, drop,
  replicate, add_size, sub_size, max_size, Outcome, ok, err, Fault, out_of_bounds, length_error,
  ◌>>=◌,
}

abbrev pub cheap_prepend : ℕ
cheap_prepend = 8

abbrev pub initial_size : ℕ
initial_size = 1024

-- `sizeof extrabuf`
abbrev pub extra_size : ℕ
extra_size = 65536

pub record Buffer : Type 0 where
  pub bytes : List ℕ
  pub reader_index : ℕ
  pub writer_index : ℕ

-- `n` bytes from index `start` on.
abbrev pub slice : ℕ → ℕ → List ℕ → List ℕ
slice start n bs = take n (drop start bs)

-- A block read, and a block write, that must lie inside the vector.
pub read_at : ℕ → ℕ → List ℕ → Outcome (List ℕ)
read_at start n bs =
    if leb (start + n) (length bs) then ok (slice start n bs) else err out_of_bounds

pub write_at : ℕ → List ℕ → List ℕ → Outcome (List ℕ)
write_at start xs bs =
    if leb (start + length xs) (length bs)
    then ok (take start bs ++ (xs ++ drop (start + length xs) bs))
    else err out_of_bounds

-- `std::vector<char>::resize`: keeps a prefix and fills with zero bytes.
pub resize : ℕ → List ℕ → Outcome (List ℕ)
resize n bs =
    if ltb max_size n then err length_error else ok (take n bs ++ replicate (n - length bs) 0)

pub make_buffer : ℕ → Outcome Buffer
unfolding resize
make_buffer size = do
  bytes ← resize (add_size cheap_prepend size) []
  ok (record { bytes = bytes; reader_index = cheap_prepend; writer_index = cheap_prepend })

unfoldable pub readable_bytes : Buffer → ℕ
readable_bytes b = sub_size b.writer_index b.reader_index

unfoldable pub writer_bytes : Buffer → ℕ
writer_bytes b = sub_size (length b.bytes) b.writer_index

unfoldable pub prependable_bytes : Buffer → ℕ
prependable_bytes b = b.reader_index

pub retrieve_all : Buffer → Buffer
retrieve_all b = record b { reader_index = cheap_prepend; writer_index = cheap_prepend }

pub retrieve : ℕ → Buffer → Buffer
unfolding readable_bytes retrieve_all
retrieve len b =
    if ltb len (readable_bytes b)
    then record b { reader_index = add_size b.reader_index len }
    else retrieve_all b

-- The string is built from `[peek(), peek() + len)`, whatever is readable.
pub retrive_as_string : ℕ → Buffer → Outcome (List ℕ × Buffer)
unfolding read_at retrieve
retrive_as_string len b = do
  result ← read_at b.reader_index len b.bytes
  ok (result, retrieve len b)

pub retrieve_all_as_string : Buffer → Outcome (List ℕ × Buffer)
unfolding retrive_as_string readable_bytes
retrieve_all_as_string b = retrive_as_string (readable_bytes b) b

-- The readable bytes are moved to the front: both blocks of `std::copy` must lie in the vector.
pub compact : Buffer → Outcome Buffer
unfolding readable_bytes read_at write_at
compact b = do
  block ← read_at b.reader_index (readable_bytes b) b.bytes
  moved ← write_at cheap_prepend block b.bytes
  ok (record {
    bytes = moved;
    reader_index = cheap_prepend;
    writer_index = add_size cheap_prepend (readable_bytes b);
  })

pub grow : ℕ → Buffer → Outcome Buffer
unfolding resize
grow len b = do
  bytes ← resize (add_size b.writer_index len) b.bytes
  ok (record b { bytes = bytes })

pub make_space : ℕ → Buffer → Outcome Buffer
unfolding compact grow writer_bytes prependable_bytes
make_space len b =
    if ltb (add_size (writer_bytes b) (prependable_bytes b)) len then grow len b else compact b

pub ensure_writeable_bytes : ℕ → Buffer → Outcome Buffer
unfolding make_space writer_bytes
ensure_writeable_bytes len b = if ltb (writer_bytes b) len then make_space len b else ok b

-- `std::copy` to `beginWrite()`, and the step of the index.
pub store : List ℕ → Buffer → Outcome Buffer
unfolding write_at
store xs b = do
  bytes ← write_at b.writer_index xs b.bytes
  ok (record b { bytes = bytes; writer_index = add_size b.writer_index (length xs) })

pub append : List ℕ → Buffer → Outcome Buffer
unfolding ensure_writeable_bytes store
append xs b = do b' ← ensure_writeable_bytes (length xs) b; store xs b'

-- What `readv` returns: the bytes that it stored, in order, or -1 with this `errno`.
pub data Received : Type 0 where
  received : List ℕ → Received
  failed : ℕ → Received

-- The result of `readFd` and `writeFd`: a count, or -1 with `*saveErrno`.
pub data Transfer : Type 0 where
  count : ℕ → Transfer
  saved_errno : ℕ → Transfer

-- The bytes that the two blocks given to `readv` can hold: `extrabuf` is the second one only if
-- the first is smaller.
pub read_room : Buffer → ℕ
unfolding writer_bytes
read_room b =
    if ltb (writer_bytes b) extra_size then writer_bytes b + extra_size else writer_bytes b

-- The branches on `n`, with the blocks filled.
pub read_indices : List ℕ → ℕ → Buffer → Outcome Buffer
unfolding append
read_indices xs writable b =
    if leb (length xs) writable
    then ok (record b { writer_index = add_size b.writer_index (length xs) })
    else append (drop writable xs) (record b { writer_index = length b.bytes })

pub read_fd : Received → Buffer → Outcome (Transfer × Buffer)
unfolding writer_bytes write_at read_indices
read_fd (failed errno) b = ok (saved_errno errno, b)
read_fd (received xs) b = do
  let writable = writer_bytes b
  bytes ← write_at b.writer_index (take writable xs) b.bytes
  b' ← read_indices xs writable (record b { bytes = bytes })
  ok (count (length xs), b')

-- `write` is given the readable bytes; its result is passed on, and the buffer stays as it is.
pub write_fd : (List ℕ → Transfer) → Buffer → Outcome Transfer
unfolding read_at readable_bytes
write_fd write b = do block ← read_at b.reader_index (readable_bytes b) b.bytes; ok (write block)
