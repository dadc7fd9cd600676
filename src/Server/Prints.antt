-- ===== src/Server/Prints.antt =====
-- The buffer of 64 bytes in `newConnection`.
use mu_muduo.Common.{
  ℕ, ◌^◌, ◌≤◌, ◌<◌, ◌≡◌, sym, ap, ◌∙◌, List, ◌∷◌, ◌++◌, length, take, take_all, decimal,
  length-decimal, length-append, Outcome, ok, arith,
}
use mu_muduo.InetAddress.{Inet, InetAddress, to_ip_port}
use mu_muduo.InetAddress.Texts.{to_ip_port_lem}
use mu_muduo.Server.{Server, conn_name}

-- What `snprintf` is asked for.
abbrev pub suffix : List ℕ → ℕ → List ℕ
suffix ip_port id = 45 ∷ (ip_port ++ 35 ∷ decimal id)

abbrev ok_text : List ℕ → Outcome (List ℕ)
ok_text xs = ok xs

same_text : (xs ys : List ℕ) → (ok_text xs ≡ ok_text ys) → xs ≡ ys
same_text xs ys e = cc

module _ (inet : Inet) where
  short_ip_port : (a : InetAddress) (text : List ℕ) → to_ip_port inet a ≡ ok text → length text ≤ 21
  short_ip_port a text e =
      let (printed, short) = to_ip_port_lem inet a in
      omega (arith, short, ap length (same_text _ text (sym printed ∙ e)))

  -- On a server whose text is that of an address, and for a number below 2 ^ 31, the name of a
  -- connection is the server's name with all of "-%s#%d" behind it: the 63 characters that
  -- `snprintf` keeps cut nothing off.
  pub conn_name_lem :
      (a : InetAddress) (s : Server) (id : ℕ)
      → to_ip_port inet a ≡ ok s.ip_port
      → id < 2 ^ 31
      → (conn_name s id ≡ s.name ++ take 63 (suffix s.ip_port id))
        × (length (suffix s.ip_port id) ≤ 33)
  unfolding conn_name
  conn_name_lem a s id e small =
      let short : length (suffix s.ip_port id) ≤ 33 = omega (
        arith,
        short_ip_port a s.ip_port e,
        length-append s.ip_port (35 ∷ decimal id),
        length-decimal 9 id (omega arith),
      ) in
      (
        ap (λ x. s.name ++ x) (sym (take_all 63 (suffix s.ip_port id) (omega (arith, short)))),
        short,
      )
