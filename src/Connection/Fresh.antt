-- ===== src/Connection/Fresh.antt =====
-- The constructor of TcpConnection.cc.
use mu_muduo.Common.{◌*◌, ◌≡◌, refl, false, [], ok, arith}
use mu_muduo.Buffer.{initial_size, readable_bytes}
use mu_muduo.Buffer.Valid.{content}
use mu_muduo.Buffer.Fresh.{empty_buffer, make_buffer_lem, empty_buffer-IsValid}
use mu_muduo.Connection.{Connection, connecting, make_connection}
use mu_muduo.Connection.Sound.{Sound}
use mu_muduo.Port.{Port}

module _ {S : Type 0} (p : Port S) where
  pub make_connection-Sound :
      (s : S)
      → p.Interest false false s
      → (c : Connection S) × (make_connection s ≡ ok c)
        × Sound p false false c
        × (c.port ≡ s)
        × (content c.output ≡ [])
        × (c.trace ≡ [])
        × (c.state ≡ connecting)
  unfolding make_connection readable_bytes
  make_connection-Sound s i = (
    record {
      state = connecting;
      port = s;
      input = empty_buffer initial_size;
      output = empty_buffer initial_size;
      high_water_mark = 64 * 1024 * 1024;
      write_complete_set = false;
      high_water_set = false;
      trace = [];
    },
    rw (make_buffer_lem initial_size (omega arith)),
    record {
      input_valid = empty_buffer-IsValid initial_size (omega arith);
      output_valid = empty_buffer-IsValid initial_size (omega arith);
      interest = i;
      armed = λ live. refl;
    },
    refl,
    refl,
    refl,
    refl,
  )
