-- ===== src/Common/Words.antt =====
-- `size_t` arithmetic of a 64-bit target, with its wrap-around.
use Prim.Native.Nat.{ℕ, ◌+◌, ◌-◌, ◌%◌, ◌^◌}

abbrev pub add_size : ℕ → ℕ → ℕ
add_size a b = (a + b) % 2 ^ 64

abbrev pub sub_size : ℕ → ℕ → ℕ
sub_size a b = (a + 2 ^ 64 - b) % 2 ^ 64

-- `max_size()` of a `std::vector<char>`.
abbrev pub max_size : ℕ
max_size = 2 ^ 63 - 1
