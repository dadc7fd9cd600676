-- ===== src/Server/Balance.antt =====
-- How new connections spread over the loops of the pool.
use mu_muduo.Common.{
  false, ℕ, suc, ◌+◌, ◌<◌, ◌^◌, ◌≡◌, refl, sym, ap, ◌∙◌, List, [], ◌∷◌, ◌++◌, length, take, drop,
  Outcome, ok, ◌>>=◌, >>=-eq-ok, append-nil, append_assoc, lt→ltb, arith, insert, text_eq, subst,
  pos,
}
use mu_muduo.ThreadPool.{ThreadPool, get_next_loop, next_loops, make_pool, set_thread_num}
use mu_muduo.ThreadPool.Started.{from_on, start-loops, start-next, length-from_on}
use mu_muduo.ThreadPool.RoundRobin.{IsReady, next_loops-round}
use mu_muduo.Server.{
  Server, Conn, Effect, ran, queued, thread_init, Task, establish, destroy, remove, listen,
  new_connection, next_id, conn_name, make_server, set_server_threads, start_server,
}

-- The loop that a connection's establishment is handed to.
abbrev by_task : ℕ → Task → List ℕ
by_task l (establish c) = l ∷ []
by_task l (destroy c) = []
by_task l (remove c) = []
by_task l listen = []

abbrev by_effect : Effect → List ℕ
by_effect (ran l t) = by_task l t
by_effect (queued l t) = []
by_effect (thread_init ls) = []

-- The loops that connections were given to, in order.
pub loops_given : List Effect → List ℕ
loops_given [] = []
loops_given (e ∷ es) = by_effect e ++ loops_given es

loops_given-snoc :
    (es : List Effect) (e : Effect) → loops_given (es ++ e ∷ []) ≡ loops_given es ++ by_effect e
unfolding loops_given
loops_given-snoc [] e = append-nil (by_effect e)
loops_given-snoc (x ∷ es) e =
    ap (λ ys. by_effect x ++ ys) (loops_given-snoc es e)
    ∙ sym (append_assoc (by_effect x) (loops_given es) (by_effect e))

unfoldable pub new_connections : List ℕ → Server → Outcome Server
new_connections [] s = ok s
new_connections (fd ∷ fds) s = do s' ← new_connection fd s; new_connections fds s'

-- The call returns, the pool is `q` and connections were given to `ls`.
abbrev pub Gives : List ℕ → ThreadPool → Server → Outcome Server → Type 0
Gives ls q s out =
    (s' : Server) × (out ≡ ok s')
    × (s'.thread_pool ≡ q)
    × (s'.next_conn_id ≡ s.next_conn_id + length ls)
    × (loops_given s'.trace ≡ loops_given s.trace ++ ls)

one_Gives :
    (fd : ℕ) (s : Server) (v : ℕ) (q : ThreadPool)
    → get_next_loop s.thread_pool ≡ ok (v, q)
    → s.next_conn_id + 1 < 2 ^ 31
    → Gives (v ∷ []) q s (new_connection fd s)
unfolding new_connection next_id conn_name
one_Gives fd s v q e small = (
  (let conn : Conn = record { io_loop = v; name = conn_name s s.next_conn_id; sockfd = fd } in
      record s {
        thread_pool = q;
        next_conn_id = s.next_conn_id + 1;
        connections = insert conn.name conn s.connections;
        trace = s.trace ++ ran v (establish conn) ∷ [];
      }),
  rw (e, lt→ltb (s.next_conn_id + 1) (2 ^ 31) small) refl,
  refl,
  refl,
  loops_given-snoc s.trace
      (ran v (establish (record { io_loop = v; name = conn_name s s.next_conn_id; sockfd = fd }))),
)

abbrev dealt : List ℕ → ThreadPool → Outcome (List ℕ × ThreadPool)
dealt ls q = ok (ls, q)

same_dealt :
    (ls ls' : List ℕ) (q q' : ThreadPool) → dealt ls q ≡ dealt ls' q' → (ls ≡ ls') × (q ≡ q')
same_dealt ls ls' q q' e = (cc, cc)

-- The first of several calls of `getNextLoop`, and the others.
first_call :
    (k : ℕ) (p q : ThreadPool) (ls : List ℕ)
    → next_loops (suc k) p ≡ ok (ls, q)
    → (v : ℕ) × (p' : ThreadPool) × (rest : List ℕ) × (get_next_loop p ≡ ok (v, p'))
      × (next_loops k p' ≡ ok (rest, q))
      × (v ∷ rest ≡ ls)
unfolding next_loops
first_call k p q ls e =
    let ((v, p'), e₁, e₂) =
      >>=-eq-ok (λ x. next_loops k x.1 >>= λ r. ok (x.0 ∷ r.0, r.1)) (get_next_loop p) e in
    let ((rest, q'), e₃, e₄) = >>=-eq-ok (λ r. ok (v ∷ r.0, r.1)) (next_loops k p') e₂ in
    let (same, pool) = same_dealt (v ∷ rest) ls q' q e₄ in
    (v, p', rest, e₁, e₃ ∙ ap (λ x. ok (rest, x)) pool, same)

new_connections-Gives :
    (fds : List ℕ) (s : Server) (ls : List ℕ) (q : ThreadPool)
    → next_loops (length fds) s.thread_pool ≡ ok (ls, q)
    → s.next_conn_id + length fds < 2 ^ 31
    → Gives ls q s (new_connections fds s)
unfolding new_connections next_loops
new_connections-Gives [] s ls q e small =
    let (none_, pool) = same_dealt [] ls s.thread_pool q e in
    (
      s,
      refl,
      pool,
      omega (arith, ap length (sym none_)),
      sym (append-nil (loops_given s.trace)) ∙ ap (λ x. loops_given s.trace ++ x) none_,
    )
new_connections-Gives (fd ∷ fds) s ls q e small =
    let (v, p', rest, e₁, e₂, same) = first_call (length fds) s.thread_pool q ls e in
    let (s₁, d₁, pool, id, given) = one_Gives fd s v p' e₁ (omega arith) in
    let (s₂, d₂, pool', id', given') =
      new_connections-Gives fds s₁ rest q (ap (next_loops (length fds)) pool ∙ e₂)
        (omega (arith, id)) in
    (
      s₂,
      rw d₁ d₂,
      pool',
      omega (arith, id, id', ap length same),
      given'
          ∙ ap (λ x. x ++ rest) given
          ∙ append_assoc (loops_given s.trace) (v ∷ []) rest
          ∙ ap (λ x. loops_given s.trace ++ x) same,
    )

-- When as many connections arrive as the pool has loops, on a server whose pool is ready and whose
-- counter stays below its limit, each loop is given exactly one of them, in order from the pool's
-- position and round the end; and the pool is as it was.
pub new_connections-round :
    (fds : List ℕ) (s : Server)
    → IsReady s.thread_pool
    → length fds ≡ length s.thread_pool.loops
    → s.next_conn_id + length fds < 2 ^ 31
    → Gives
        (drop s.thread_pool.next s.thread_pool.loops ++ take s.thread_pool.next s.thread_pool.loops)
        s.thread_pool
        s
        (new_connections fds s)
new_connections-round fds s ready same small =
    new_connections-Gives fds s _ s.thread_pool
      (ap (λ k. next_loops k s.thread_pool) same ∙ next_loops-round s.thread_pool ready) small

-- A server that is made, set to `n` threads and started, and then gets `n` connections, gives one to
-- the loop of each thread, in the order of the threads, and its pool is as it was when they came;
-- for `n` of at least one, below the limit of the counter.
pub start_server-Gives :
    (n : ℕ) (loop_of : ℕ → ℕ) (loop : ℕ) (ip_port name fds : List ℕ)
    → 0 < n
    → n + 1 < 2 ^ 31
    → length fds ≡ n
    → Gives
        (from_on n 0 loop_of)
        (start_server loop_of
          (set_server_threads (pos n) (make_server loop ip_port name))).thread_pool
        (start_server loop_of (set_server_threads (pos n) (make_server loop ip_port name)))
        (new_connections fds
          (start_server loop_of (set_server_threads (pos n) (make_server loop ip_port name))))
unfolding start_server set_server_threads make_server make_pool set_thread_num
start_server-Gives n loop_of loop ip_port name fds some_ small same =
    let pool = set_thread_num (pos n) (make_pool loop name) in
    let s = start_server loop_of (set_server_threads (pos n) (make_server loop ip_port name)) in
    let loops : s.thread_pool.loops ≡ from_on n 0 loop_of = (start-loops false loop_of pool).0 in
    let at_front : s.thread_pool.next ≡ 0 = start-next false loop_of pool in
    let many : length s.thread_pool.loops ≡ n = ap length loops ∙ length-from_on n 0 loop_of in
    subst (λ ls. Gives ls s.thread_pool s (new_connections fds s))
      (ap (λ k. drop k s.thread_pool.loops ++ take k s.thread_pool.loops) at_front
        ∙ append-nil s.thread_pool.loops
        ∙ loops)
      (new_connections-round fds s (omega (arith, at_front, many)) (same ∙ sym many)
        (omega (arith, same)))
