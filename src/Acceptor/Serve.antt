-- ===== src/Acceptor/Serve.antt =====
-- The acceptor with the server behind it: `newConnecionCallback_` is `TcpServer::newConnection`. And
-- the acceptor's channel.
use mu_muduo.Common.{
  ℕ, ◌+◌, ◌<◌, ◌≤◌, ◌^◌, ◌≡◌, refl, sym, ap, subst, ◌∙◌, Bool, true, false, List, [], ◌∷◌, ◌++◌,
  length, Option, some, Outcome, ok, ◌>>=◌, append-nil, append_assoc, arith, length-append,
}
use mu_muduo.InetAddress.{InetAddress}
use mu_muduo.Socket.{
  Socket, Accepted, accepted, accept_failed, accept_peer, listen_socket, call_on, close_socket,
  close,
}
use mu_muduo.Socket as Sock
use mu_muduo.Port.{Port}
use mu_muduo.Server.{
  Server, new_connection, Effect, ran, queued, thread_init, Task, establish, destroy, remove,
  listen,
}
use mu_muduo.Server.Connections.{Inv, new_connection_lem}
use mu_muduo.Acceptor as Acc
use mu_muduo.Acceptor.{Acceptor, handle_read, destroy_acceptor}
use mu_muduo.Acceptor.Deliver.{accepted_fds, dealt, run_reads, handle_read_lem}

-- The sockets of the connections whose establishment was handed to a loop.
abbrev fd_of : Task → List ℕ
fd_of (establish c) = c.sockfd ∷ []
fd_of (destroy c) = []
fd_of (remove c) = []
fd_of listen = []

abbrev established_by : Effect → List ℕ
established_by (ran l t) = fd_of t
established_by (queued l t) = []
established_by (thread_init ls) = []

pub established : List Effect → List ℕ
established [] = []
established (e ∷ es) = established_by e ++ established es

established-snoc :
    (es : List Effect) (e : Effect)
    → established (es ++ e ∷ []) ≡ established es ++ established_by e
unfolding established
established-snoc [] e = append-nil (established_by e)
established-snoc (x ∷ es) e =
    ap (λ ys. established_by x ++ ys) (established-snoc es e)
    ∙ sym (append_assoc (established_by x) (established es) (established_by e))

abbrev pub serve : Option (ℕ → InetAddress → Server → Outcome Server)
serve = some (λ connfd peer s. new_connection connfd s)

first_fds :
    (r : Accepted) (rs : List Accepted)
    → accepted_fds (r ∷ rs) ≡ accepted_fds (r ∷ []) ++ accepted_fds rs
first_fds (accepted fd peer) rs = refl
first_fds (accept_failed e) rs = refl

few_fds : (rs : List Accepted) → length (accepted_fds rs) ≤ length rs
few_fds [] = omega arith
few_fds (accepted fd peer ∷ rs) = omega (arith, few_fds rs)
few_fds (accept_failed e ∷ rs) = omega (arith, few_fds rs)

joined :
    (a xs ys : List ℕ) {b c zs : List ℕ} → zs ≡ xs ++ ys → b ≡ a ++ xs → c ≡ b ++ ys → c ≡ a ++ zs
joined a xs ys e f g = g ∙ ap (λ x. x ++ ys) f ∙ append_assoc a xs ys ∙ ap (λ x. a ++ x) (sym e)

module _ {S : Type 0} where
  -- The call returns an acceptor that has dealt with `fds`, over a server whose invariant holds and
  -- that has had each of them established, in order.
  abbrev pub Serves : List ℕ → Acceptor S Server → Outcome (Acceptor S Server) → Type 0
  Serves fds a out =
      (a' : Acceptor S Server) × (out ≡ ok a')
      × Inv a'.target
      × (dealt a'.trace ≡ dealt a.trace ++ fds)
      × (established a'.target.trace ≡ established a.target.trace ++ fds)
      × (a'.target.next_conn_id ≡ a.target.next_conn_id + length fds)

  one_read :
      (unset : InetAddress) (r : Accepted) (a : Acceptor S Server)
      → Inv a.target
      → a.target.next_conn_id + 1 < 2 ^ 31
      → Serves (accepted_fds (r ∷ [])) a (handle_read serve unset r a)
  one_read unset (accepted fd peer) a inv small =
      let (c, s', e, inv', n, f, i, fresh, others, tr) = new_connection_lem fd a.target inv small in
      let (a', e', t, d) = handle_read_lem serve unset (accepted fd peer) a s' e in
      (
        a',
        e',
        subst Inv (sym t) inv',
        d,
        ap (λ x. established x.trace) t
            ∙ ap established tr
            ∙ established-snoc a.target.trace (ran c.io_loop (establish c))
            ∙ ap (λ x. established a.target.trace ++ x ∷ []) f,
        ap (λ x. x.next_conn_id) t ∙ i,
      )
  one_read unset (accept_failed errno) a inv small =
      let (a', e', t, d) = handle_read_lem serve unset (accept_failed errno) a a.target refl in
      (
        a',
        e',
        subst Inv (sym t) inv,
        d,
        ap (λ x. established x.trace) t ∙ sym (append-nil (established a.target.trace)),
        ap (λ x. x.next_conn_id) t ∙ omega arith,
      )

  -- The acceptor of a server that satisfies its invariant, below the limit of the connections'
  -- counter, handles any row of events of the listening socket, failures of accept included: it
  -- returns, every descriptor that was accepted is given to the server, and the establishment of a
  -- connection on each of them is handed to a loop, once and in order; the invariant holds.
  pub run_reads-Serves :
      (unset : InetAddress) (rs : List Accepted) (a : Acceptor S Server)
      → Inv a.target
      → a.target.next_conn_id + length rs < 2 ^ 31
      → Serves (accepted_fds rs) a (run_reads serve unset rs a)
  unfolding run_reads
  run_reads-Serves unset [] a inv small = (
    a,
    refl,
    inv,
    sym (append-nil (dealt a.trace)),
    sym (append-nil (established a.target.trace)),
    omega arith,
  )
  run_reads-Serves unset (r ∷ rs) a inv small =
      go (one_read unset r a inv (omega arith)) (λ b i h. run_reads-Serves unset rs b i h)
    where
      go :
          Serves (accepted_fds (r ∷ [])) a (handle_read serve unset r a)
          → ((b : Acceptor S Server)
              → Inv b.target
              → b.target.next_conn_id + length rs < 2 ^ 31
              → Serves (accepted_fds rs) b (run_reads serve unset rs b))
          → Serves
              (accepted_fds (r ∷ rs))
              a
              (handle_read serve unset r a >>= λ b. run_reads serve unset rs b)
      go (b, e, i, d, m, n) rest =
          let (c, e', i', d', m', n') = rest b i (omega (arith, n, few_fds (r ∷ []))) in
          let split = first_fds r rs in
          (
            c,
            rw e e',
            i',
            joined (dealt a.trace) (accepted_fds (r ∷ [])) (accepted_fds rs) split d d',
            joined (established a.target.trace) (accepted_fds (r ∷ [])) (accepted_fds rs) split m
                m',
            n'
                ∙ omega (
                  arith,
                  n,
                  ap length split,
                  length-append (accepted_fds (r ∷ [])) (accepted_fds rs),
                ),
          )

module _ {S T : Type 0} (p : Port S) where
  -- On an interest that the channel has, `listen` returns when the system's call succeeds, and the
  -- channel then waits for reading; the destructor returns, the channel waits for nothing, and the
  -- socket is closed.
  pub listen-destroy :
      (r w : Bool) (a : Acceptor S T)
      → p.Interest r w a.port
      → (b : Acceptor S T) × (c : Acceptor S T) × (Acc.listen p false a ≡ ok b)
        × (b.listenning ≡ true)
        × p.Interest true w b.port
        × (destroy_acceptor p b ≡ ok c)
        × p.Interest false false c.port
        × (c.accept_socket.calls ≡ (a.accept_socket.calls ++ Sock.listen 1024 ∷ []) ++ close ∷ [])
  unfolding Acc.listen destroy_acceptor listen_socket call_on close_socket
  listen-destroy r w a i =
      let (s, e, i₁) = p.reads r w a.port i in
      let (s₁, e₁, i₂) = p.stops true w s i₁ in
      let (s₂, e₂, i₃) = p.removes false false s₁ i₂ in
      let b : Acceptor S T = record a {
        listenning = true;
        accept_socket = call_on (Sock.listen 1024) a.accept_socket;
        port = s;
      } in
      (
        b,
        record b { port = s₂; accept_socket = close_socket b.accept_socket },
        rw e,
        refl,
        i₁,
        rw (e₁, e₂),
        i₃,
        refl,
      )
