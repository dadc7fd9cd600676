-- ===== src/Server/Connections.antt =====
-- What the server does to its map of connections.
use mu_muduo.Common.{
  Option-cases, ℕ, ◌+◌, ◌<◌, ◌^◌, ◌≡◌, refl, sym, ap, subst, ◌∙◌, Bool, true, false, List, [], ◌∷◌,
  ◌++◌, if◌then◌else◌, Option, none, some, lookup, insert, erase, lookup-insert, lookup-erase,
  text_eq, text_beq, text_beq_eq, ok, arith, Bool-cases, inl, inr, ◌⊎◌, lt→ltb,
}
use mu_muduo.ThreadPool.{make_pool}
use mu_muduo.ThreadPool.RoundRobin.{IsUsable, get_next_loop-IsUsable}
use mu_muduo.Server.{
  Server, Conn, ran, queued, establish, destroy, conn_name, next_id, new_connection,
  remove_connection_in_loop, make_server,
}
use mu_muduo.Server.Names.{conn_name_inj, IsNamed}

pub record Inv (s : Server) : Type 0 where
  pub named : IsNamed s
  pub usable : IsUsable s.thread_pool

pub make_server-Inv : (loop : ℕ) (ip_port name : List ℕ) → Inv (make_server loop ip_port name)
unfolding make_server make_pool lookup
make_server-Inv loop ip_port name = record {
  named = λ k c h. absurd (none_some h);
  usable = inr refl;
}
  where
    none_some : {c : Conn} → none ≡ some c → ⊥
    none_some h = cc

-- The next name is not taken.
fresh : (s : Server) → IsNamed s → lookup (conn_name s s.next_conn_id) s.connections ≡ none
fresh s named = elim (Option-cases (lookup (conn_name s s.next_conn_id) s.connections)) [
  | inl e ↦ e
  | inr (c, e) ↦
      let (i, h, g, same) = named (conn_name s s.next_conn_id) c e in
      absurd (omega (arith, h, conn_name_inj s s.next_conn_id i g))
]

-- A connection of the map after an insertion is the new one or an old one.
pub inserted :
    (s : Server) (name : List ℕ) (conn : Conn) (k : List ℕ) (c : Conn)
    → lookup k (insert name conn s.connections) ≡ some c
    → ((name ≡ k) × (conn ≡ c)) ⊎ (lookup k s.connections ≡ some c)
inserted s name conn k c e = elim (Bool-cases (text_beq name k)) [
  | inl same ↦ inl (text_beq_eq name k same, cc (here same))
  | inr other ↦ inr (there other)
]
  where
    found : (if text_beq name k then some conn else lookup k s.connections) ≡ some c
    found = sym (lookup-insert name k conn s.connections) ∙ e

    here : text_beq name k ≡ true → some conn ≡ some c
    here h = subst (λ b. (if b then some conn else lookup k s.connections) ≡ some c) h found

    there : text_beq name k ≡ false → lookup k s.connections ≡ some c
    there h = subst (λ b. (if b then some conn else lookup k s.connections) ≡ some c) h found

-- On a server that satisfies the invariant, below the limit of the counter, `newConnection`
-- returns: the connection has a name that was not in the map, stands there under this name beside
-- all the others, and its establishment is handed to its loop; and the invariant holds.
pub new_connection_lem :
    (fd : ℕ) (s : Server)
    → Inv s
    → s.next_conn_id + 1 < 2 ^ 31
    → (c : Conn) × (s' : Server) × (new_connection fd s ≡ ok s')
      × Inv s'
      × (c.name ≡ conn_name s s.next_conn_id)
      × (c.sockfd ≡ fd)
      × (s'.next_conn_id ≡ s.next_conn_id + 1)
      × (lookup c.name s.connections ≡ none)
      × ((k : List ℕ)
          → lookup k s'.connections
            ≡ (if text_beq c.name k then some c else lookup k s.connections))
      × (s'.trace ≡ s.trace ++ ran c.io_loop (establish c) ∷ [])
unfolding new_connection next_id conn_name
new_connection_lem fd s inv small =
    let (v, p, e, u) = get_next_loop-IsUsable s.thread_pool inv.usable in
    let c : Conn = record { io_loop = v; name = conn_name s s.next_conn_id; sockfd = fd } in
    let s' : Server = record s {
      thread_pool = p;
      next_conn_id = s.next_conn_id + 1;
      connections = insert c.name c s.connections;
      trace = s.trace ++ ran v (establish c) ∷ [];
    } in
    (
      c,
      s',
      rw (e, lt→ltb (s.next_conn_id + 1) (2 ^ 31) small) refl,
      record { named = λ k d f. keeps c refl k d (inserted s c.name c k d f); usable = u },
      refl,
      refl,
      refl,
      fresh s inv.named,
      λ k. lookup-insert c.name k c s.connections,
      refl,
    )
  where
    keeps :
        (c : Conn)
        → c.name ≡ conn_name s s.next_conn_id
        → (k : List ℕ) (d : Conn) → ((c.name ≡ k) × (c ≡ d)) ⊎ (lookup k s.connections ≡ some d)
        → (i : ℕ) × (i < s.next_conn_id + 1) × (k ≡ conn_name s i) × (d.name ≡ k)
    keeps c n k d (inl (a, b)) =
        (s.next_conn_id, omega arith, sym a ∙ n, ap (λ x. x.name) (sym b) ∙ a)
    keeps c n k d (inr f) = let (i, h, g, same) = inv.named k d f in (i, omega (arith, h), g, same)

-- On a server that satisfies the invariant, `removeConnectionInLoop` takes out what stands under
-- the name of the connection and leaves all the others, hands the destruction to the connection's
-- loop, and keeps the invariant.
pub remove_connection_lem :
    (c : Conn) (s : Server)
    → Inv s
    → Inv (remove_connection_in_loop c s)
      × ((k : List ℕ)
          → lookup k (remove_connection_in_loop c s).connections
            ≡ (if text_beq c.name k then none else lookup k s.connections))
      × ((remove_connection_in_loop c s).trace ≡ s.trace ++ queued c.io_loop (destroy c) ∷ [])
unfolding remove_connection_in_loop conn_name
remove_connection_lem c s inv = (
  record { named = λ k d f. inv.named k d (left k d f); usable = inv.usable },
  λ k. lookup-erase c.name k s.connections,
  refl,
)
  where
    left :
        (k : List ℕ) (d : Conn)
        → lookup k (erase c.name s.connections) ≡ some d
        → lookup k s.connections ≡ some d
    left k d f = kept (text_beq c.name k) (sym (lookup-erase c.name k s.connections) ∙ f)
      where
        kept : (b : Bool) {m : Option Conn} → (if b then none else m) ≡ some d → m ≡ some d
        kept true h = cc
        kept false h = h
