-- ===== src/Buffer/Tests.antt =====
-- Runs of the buffer at small inputs, and the theorems at them.
use mu_muduo.Common.{
  ◌≡◌, refl, [], ◌∷◌, ◌++◌, replicate, inl, inr, arith, ok, err, out_of_bounds, ◌>>=◌,
}
use mu_muduo.Buffer.{
  Buffer, make_buffer, append, retrieve, read_fd, received, writer_bytes, retrieve_all_as_string,
}
use mu_muduo.Buffer.Valid.{IsValid, content}
use mu_muduo.Buffer.Moves.{content-retrieve}
use mu_muduo.Buffer.Append.{append_lem, append-Overruns, Appended}
use mu_muduo.Buffer.Socket.{read_fd_lem, read_fd_overruns, HasRead}
use mu_muduo.Buffer.Queue.{
  put, skip, pick_all, run_ops, run_queue, queue_step, Refines, run_ops-Refines,
}
use mu_muduo.Buffer.RoundTrip.{append-retrieve_all, IsDrained}

-- Sixteen bytes, of which 7 and 9 are to be read.
abbrev two_bytes : Buffer
two_bytes = record {
  bytes = replicate 10 0 ++ (7 ∷ 9 ∷ replicate 4 0);
  reader_index = 10;
  writer_index = 12;
}

two_bytes-IsValid : IsValid two_bytes
two_bytes-IsValid = omega arith

content-two_bytes : content two_bytes ≡ 7 ∷ 9 ∷ []
content-two_bytes = refl

-- A buffer of the size that a connection starts with holds 1024 bytes.
fresh_writer_bytes : (make_buffer 1024 >>= λ b. ok (writer_bytes b)) ≡ ok 1024
unfolding make_buffer writer_bytes
fresh_writer_bytes = refl

-- The block of six bytes makes the content move to the front.
append_moves : (append (1 ∷ 2 ∷ 3 ∷ 4 ∷ 5 ∷ 6 ∷ []) two_bytes >>= λ b. ok b.writer_index) ≡ ok 16
unfolding append
append_moves = refl

append_lem_example : Appended (1 ∷ 2 ∷ 3 ∷ []) two_bytes (append (1 ∷ 2 ∷ 3 ∷ []) two_bytes)
unfolding writer_bytes
append_lem_example = append_lem (1 ∷ 2 ∷ 3 ∷ []) two_bytes-IsValid (inl (omega arith))

append-Overruns_example : append (replicate 7 1) two_bytes ≡ err out_of_bounds
unfolding writer_bytes
append-Overruns_example =
    append-Overruns (replicate 7 1) two_bytes-IsValid (omega arith, omega arith, omega arith)

read_fd_lem_example :
    HasRead (replicate 20 1) two_bytes (read_fd (received (replicate 20 1)) two_bytes)
unfolding writer_bytes
read_fd_lem_example =
    read_fd_lem (replicate 20 1) two_bytes-IsValid (inr (inr (omega arith, omega arith)))

read_fd_overruns_example : read_fd (received (replicate 9 1)) two_bytes ≡ err out_of_bounds
unfolding writer_bytes
read_fd_overruns_example =
    read_fd_overruns (replicate 9 1) two_bytes-IsValid (omega arith, omega arith, omega arith)

content-retrieve_example : content (retrieve 1 two_bytes) ≡ 9 ∷ []
unfolding retrieve
content-retrieve_example = content-retrieve 1 two_bytes-IsValid

append-retrieve_all_example :
    (c : Buffer) × ((append (1 ∷ []) two_bytes >>= retrieve_all_as_string) ≡ ok (7 ∷ 9 ∷ 1 ∷ [], c))
    × IsDrained c
unfolding writer_bytes
append-retrieve_all_example = append-retrieve_all (1 ∷ []) two_bytes-IsValid (inl (omega arith))

-- Three bytes come in, one is skipped, the rest is taken out.
run_ops-Refines_example :
    Refines
      ([] ∷ [] ∷ (9 ∷ 1 ∷ 2 ∷ 3 ∷ []) ∷ [], [])
      (run_ops (put (1 ∷ 2 ∷ 3 ∷ []) ∷ skip 1 ∷ pick_all ∷ []) two_bytes)
unfolding run_queue queue_step writer_bytes
run_ops-Refines_example =
    run_ops-Refines (put (1 ∷ 2 ∷ 3 ∷ []) ∷ skip 1 ∷ pick_all ∷ []) two_bytes-IsValid
      (inl (omega arith), λ out b e. (tt, λ out b e. (tt, λ out b e. tt)))
