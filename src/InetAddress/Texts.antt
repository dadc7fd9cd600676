-- ===== src/InetAddress/Texts.antt =====
-- The text of an address.
use mu_muduo.Common.{
  ℕ, ◌+◌, ◌^◌, ◌≤◌, ◌<◌, ◌≡◌, refl, ◌∙◌, List, ◌∷◌, ◌++◌, length, decimal, length-decimal,
  length-append, ok, arith, le→leb,
}
use mu_muduo.InetAddress.{Inet, InetAddress, make_address, to_ip, to_port, to_ip_port, print_behind}

print_behind_lem :
    (size used : ℕ) (text : List ℕ)
    → used + (length text + 1) ≤ size
    → print_behind size used text ≡ ok text
unfolding print_behind
print_behind_lem size used text h = rw (le→leb (used + (length text + 1)) size h)

module _ (inet : Inet) where
  short_port : (a : InetAddress) → length (decimal (to_port inet a)) ≤ 5
  unfolding to_port
  short_port a =
      length-decimal 4 (inet.ntohs a.sin_port) (omega (arith, inet.ntohs_small a.sin_port))

  -- Whatever the address holds, `toIpPort` stays inside its buffer of 64 bytes, and returns at most
  -- 21 characters: the address, a colon and the port.
  pub to_ip_port_lem :
      (a : InetAddress)
      → (to_ip_port inet a ≡ ok (to_ip inet a ++ 58 ∷ decimal (to_port inet a)))
        × (length (to_ip inet a ++ 58 ∷ decimal (to_port inet a)) ≤ 21)
  unfolding to_ip_port to_ip to_port
  to_ip_port_lem a =
      let short = inet.length-inet_ntop a.sin_addr in
      let digits = short_port a in
      (
        rw (
            print_behind_lem 64 (length (inet.inet_ntop a.sin_addr))
              (58 ∷ decimal (inet.ntohs a.sin_port)) (omega arith)),
        omega (
          arith,
          length-append (inet.inet_ntop a.sin_addr) (58 ∷ decimal (inet.ntohs a.sin_port)),
        ),
      )

  -- An address made of a port of 16 bits and a dotted text gives both back, and prints as the text,
  -- a colon and the port.
  pub make_address_lem :
      (port : ℕ) (ip : List ℕ)
      → port < 2 ^ 16
      → inet.IsDotted ip
      → (to_port inet (make_address inet port ip) ≡ port)
        × (to_ip inet (make_address inet port ip) ≡ ip)
        × (to_ip_port inet (make_address inet port ip) ≡ ok (ip ++ 58 ∷ decimal port))
  unfolding make_address to_port to_ip
  make_address_lem port ip h d =
      let p = inet.ntohs-htons port h in
      let t = inet.inet_ntop-inet_addr ip d in
      (p, t, (to_ip_port_lem (make_address inet port ip)).0 ∙ rw (p, t) refl)
