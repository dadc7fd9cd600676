-- ===== src/Buffer/Valid.antt =====
-- What every buffer of the program satisfies, and the bytes that it holds for its reader.
use mu_muduo.Common.{ℕ, ◌-◌, ◌≤◌, List, length, max_size}
use mu_muduo.Buffer.{Buffer, cheap_prepend, slice}

pub record IsValid (b : Buffer) : Type 0 where
  pub prepend : cheap_prepend ≤ b.reader_index
  pub ordered : b.reader_index ≤ b.writer_index
  pub inside : b.writer_index ≤ length b.bytes
  pub sized : length b.bytes ≤ max_size

abbrev pub content : Buffer → List ℕ
content b = slice b.reader_index (b.writer_index - b.reader_index) b.bytes
