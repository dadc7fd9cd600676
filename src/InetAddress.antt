-- ===== src/InetAddress.antt =====
-- InetAddress.cc and .h: an IPv4 address with a port. The functions of <arpa/inet.h> are an
-- interface. A text is written into a buffer of 64 bytes, and to write past it is a fault.
pub mod Texts
pub mod Home
mod Tests
use mu_muduo.Common.{
  ℕ, ◌+◌, ◌^◌, ◌≤◌, ◌<◌, ◌≡◌, List, [], ◌∷◌, ◌++◌, length, leb, if◌then◌else◌, decimal, Outcome, ok,
  err, out_of_bounds, ◌>>=◌,
}

-- inet(3) and byteorder(3): `IsDotted` says that a text is an address in dotted form without leading
-- zeros, as `inet_ntop` writes it, which is at most INET_ADDRSTRLEN - 1 characters.
pub record Inet : Type 1 where
  pub htons : ℕ → ℕ
  pub ntohs : ℕ → ℕ
  pub inet_addr : List ℕ → ℕ
  pub inet_ntop : ℕ → List ℕ
  pub IsDotted : List ℕ → Type 0
  pub ntohs-htons : (port : ℕ) → port < 2 ^ 16 → ntohs (htons port) ≡ port
  pub ntohs_small : (bits : ℕ) → ntohs bits < 2 ^ 16
  pub inet_ntop-inet_addr : (ip : List ℕ) → IsDotted ip → inet_ntop (inet_addr ip) ≡ ip
  pub length-inet_ntop : (bits : ℕ) → length (inet_ntop bits) ≤ 15

-- The fields of `sockaddr_in` that are set, in network byte order.
pub record InetAddress : Type 0 where
  pub sin_port : ℕ
  pub sin_addr : ℕ

-- `sprintf` behind the first `used` characters of a buffer.
pub print_behind : ℕ → ℕ → List ℕ → Outcome (List ℕ)
print_behind size used text =
    if leb (used + (length text + 1)) size then ok text else err out_of_bounds

module _ (inet : Inet) where
  unfoldable pub make_address : ℕ → List ℕ → InetAddress
  make_address port ip = record { sin_port = inet.htons port; sin_addr = inet.inet_addr ip }

  unfoldable pub to_ip : InetAddress → List ℕ
  to_ip a = inet.inet_ntop a.sin_addr

  unfoldable pub to_port : InetAddress → ℕ
  to_port a = inet.ntohs a.sin_port

  pub to_ip_port : InetAddress → Outcome (List ℕ)
  unfolding to_ip to_port
  to_ip_port a = do
    tail ← print_behind 64 (length (to_ip a)) (58 ∷ decimal (to_port a))
    ok (to_ip a ++ tail)
