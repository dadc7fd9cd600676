-- ===== src/Server/Names.antt =====
-- The names of a server's connections.
use mu_muduo.Common.{ℕ, ◌<◌, ◌≡◌, List, [], ◌∷◌, some, lookup, text_eq, append_cancel, decimal_inj}
use mu_muduo.Server.{Server, Conn, conn_name}

-- Two numbers give two names.
pub conn_name_inj : (s : Server) (i j : ℕ) → conn_name s i ≡ conn_name s j → i ≡ j
unfolding conn_name
conn_name_inj s i j e = decimal_inj i j (
    append_cancel (35 ∷ [])
      (append_cancel s.ip_port (append_cancel (45 ∷ []) (append_cancel s.name e))))

-- Every connection of the map stands under its own name, which has a number given out already.
abbrev pub IsNamed : Server → Type 0
IsNamed s =
    (k : List ℕ) (c : Conn)
    → lookup k s.connections ≡ some c
    → (i : ℕ) × (i < s.next_conn_id) × (k ≡ conn_name s i) × (c.name ≡ k)
