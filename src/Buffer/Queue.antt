-- ===== src/Buffer/Queue.antt =====
-- The buffer as a queue of bytes: what any row of operations returns, whatever the indices and the
-- vector do.
use mu_muduo.Common.{
  ℕ, ◌≤◌, ◌≡◌, refl, ◌∙◌, List, [], ◌∷◌, ◌++◌, length, take, drop, Outcome, ok, ◌>>=◌, drop_all,
  arith,
}
use mu_muduo.Buffer.{
  Buffer, readable_bytes, append, retrieve, retrive_as_string, retrieve_all_as_string, read_fd,
  received,
}
use mu_muduo.Buffer.Valid.{IsValid, content}
use mu_muduo.Buffer.Moves.{
  length-content, retrieve-IsValid, content-retrieve, retrive_as_string_lem,
  retrieve_all_as_string_lem,
}
use mu_muduo.Buffer.Append.{Fits, append_lem}
use mu_muduo.Buffer.Socket.{ReadFits, read_fd_lem}

-- `put` is `append`, `fill` a read from a socket that stored these bytes, `pick` is
-- `retriveAsString`, `skip` is `retrieve` and `pick_all` is `retrieveAllAsString`.
pub data Op : Type 0 where
  put fill : List ℕ → Op
  pick skip : ℕ → Op
  pick_all : Op

-- The bytes returned, and the buffer.
pub op_step : Op → Buffer → Outcome (List ℕ × Buffer)
op_step (put xs) b = do b' ← append xs b; ok ([], b')
op_step (fill xs) b = do (n, b') ← read_fd (received xs) b; ok ([], b')
op_step (pick n) b = retrive_as_string n b
op_step (skip n) b = ok ([], retrieve n b)
op_step pick_all b = retrieve_all_as_string b

pub run_ops : List Op → Buffer → Outcome (List (List ℕ) × Buffer)
unfolding op_step
run_ops [] b = ok ([], b)
run_ops (o ∷ os) b = do (out, b') ← op_step o b; (outs, b'') ← run_ops os b'; ok (out ∷ outs, b'')

-- The queue that the buffer promises to be: bytes join at the back and leave at the front.
unfoldable pub queue_step : Op → List ℕ → List ℕ × List ℕ
queue_step (put xs) q = ([], q ++ xs)
queue_step (fill xs) q = ([], q ++ xs)
queue_step (pick n) q = (take n q, drop n q)
queue_step (skip n) q = ([], drop n q)
queue_step pick_all q = (q, [])

unfoldable pub run_queue : List Op → List ℕ → List (List ℕ) × List ℕ
unfolding queue_step
run_queue [] q = ([], q)
run_queue (o ∷ os) q =
    let (out, q') = queue_step o q in let (outs, q'') = run_queue os q' in (out ∷ outs, q'')

-- What a caller must see to: a block fits, and no more is asked for than is there.
abbrev pub Admits : Op → Buffer → Type 0
Admits (put xs) b = Fits (length xs) b
Admits (fill xs) b = ReadFits (length xs) b
Admits (pick n) b = n ≤ readable_bytes b
Admits (skip n) b = Unit {0}
Admits pick_all b = Unit {0}

abbrev pub AllAdmit : List Op → Buffer → Type 0
AllAdmit [] b = Unit {0}
AllAdmit (o ∷ os) b =
    Admits o b × ((out : List ℕ) (b' : Buffer) → op_step o b ≡ ok (out, b') → AllAdmit os b')

-- The operation returns what the queue returns, and a valid buffer that holds the queue's rest.
abbrev pub Refines {ℓ} : {A : Type ℓ} → A × List ℕ → Outcome (A × Buffer) → Type ℓ
Refines (out, q) r = (b : Buffer) × (r ≡ ok (out, b)) × IsValid b × (content b ≡ q)

op_step-Refines :
    (o : Op) {b : Buffer}
    → IsValid b
    → Admits o b
    → Refines (queue_step o (content b)) (op_step o b)
unfolding op_step queue_step
op_step-Refines (put xs) v a =
    let (b', e, v', same) = append_lem xs v a in (b', rw e refl, v', same)
op_step-Refines (fill xs) v a =
    let (b', e, v', same) = read_fd_lem xs v a in (b', rw e refl, v', same)
op_step-Refines (pick n) {b} v a =
    (retrieve n b, retrive_as_string_lem n v a, retrieve-IsValid n v, content-retrieve n v)
op_step-Refines (skip n) {b} v a = (retrieve n b, refl, retrieve-IsValid n v, content-retrieve n v)
op_step-Refines pick_all {b} v a = (
  retrieve (readable_bytes b) b,
  retrieve_all_as_string_lem v,
  retrieve-IsValid (readable_bytes b) v,
  content-retrieve (readable_bytes b) v
      ∙ drop_all (readable_bytes b) (content b) (omega (arith, length-content v)),
)

-- Any row of operations on a valid buffer, in which every block fits and no more is asked for than is
-- there, returns exactly what a queue of bytes returns that starts with the buffer's content; and
-- the buffer is valid and holds what the queue holds at the end.
pub run_ops-Refines :
    (os : List Op) {b : Buffer}
    → IsValid b
    → AllAdmit os b
    → Refines (run_queue os (content b)) (run_ops os b)
unfolding run_ops run_queue
run_ops-Refines [] {b} v a = (b, refl, v, refl)
run_ops-Refines (o ∷ os) {b} v (a, all) =
    let (b', e, v', same) = op_step-Refines o v a in
    let (b'', e', v'', same') = run_ops-Refines os v' (all (queue_step o (content b)).0 b' e) in
    rw (e, ← same) (b'', rw e' refl, v'', same')
