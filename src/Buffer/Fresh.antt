-- ===== src/Buffer/Fresh.antt =====
-- The constructor of Buffer.h.
use mu_muduo.Common.{
  ℕ, ◌+◌, ◌-◌, ◌≤◌, ◌≡◌, refl, [], length, replicate, length-replicate, take_all, max_size,
  add_size, ge→ltb, arith, ok,
}
use mu_muduo.Buffer.{Buffer, make_buffer, resize, cheap_prepend}
use mu_muduo.Buffer.Valid.{IsValid}

abbrev pub empty_buffer : ℕ → Buffer
empty_buffer size = record {
  bytes = replicate (cheap_prepend + size) 0;
  reader_index = cheap_prepend;
  writer_index = cheap_prepend;
}

pub make_buffer_lem :
    (size : ℕ) → cheap_prepend + size ≤ max_size → make_buffer size ≡ ok (empty_buffer size)
unfolding make_buffer resize
make_buffer_lem size small =
    rw
      (
        no_wrap,
        ge→ltb max_size (cheap_prepend + size) small,
        take_all {A = ℕ} (cheap_prepend + size) [] (omega arith),
        all,
      )
      refl
  where
    no_wrap : add_size cheap_prepend size ≡ cheap_prepend + size
    no_wrap = omega arith

    all : cheap_prepend + size - length {A = ℕ} [] ≡ cheap_prepend + size
    all = omega arith

pub empty_buffer-IsValid :
    (size : ℕ) → cheap_prepend + size ≤ max_size → IsValid (empty_buffer size)
empty_buffer-IsValid size small = omega (arith, length-replicate {A = ℕ} (cheap_prepend + size) 0)
