-- ===== src/InetAddress/Home.antt =====
-- A network whose bytes are swapped and that knows the addresses 127.0.0.1 and 0.0.0.0, as an
-- instance of the interface, and an address in it.
use mu_muduo.Common.{
  ℕ, ◌+◌, ◌*◌, ◌/◌, ◌%◌, ◌^◌, ◌<◌, ◌≤◌, ◌≡◌, List, [], ◌∷◌, length, ◌==◌, if◌then◌else◌, arith,
}
use mu_muduo.InetAddress.{Inet, InetAddress, make_address}

unfoldable pub swap : ℕ → ℕ
swap x = x % 256 * 256 + x / 256 % 256

pub swap-swap : (x : ℕ) → x < 2 ^ 16 → swap (swap x) ≡ x
unfolding swap
swap-swap x h = omega arith

pub swap_small : (x : ℕ) → swap x < 2 ^ 16
unfolding swap
swap_small x = omega arith

abbrev pub loopback : List ℕ
loopback = 49 ∷ 50 ∷ 55 ∷ 46 ∷ 48 ∷ 46 ∷ 48 ∷ 46 ∷ 49 ∷ []

abbrev any_address : List ℕ
any_address = 48 ∷ 46 ∷ 48 ∷ 46 ∷ 48 ∷ 46 ∷ 48 ∷ []

abbrev pub ntop : ℕ → List ℕ
ntop bits = if bits == 16777343 then loopback else any_address

pub ntop_short : (bits : ℕ) → length (ntop bits) ≤ 15
ntop_short bits = ground arith

pub ntop-addr : (ip : List ℕ) → ip ≡ loopback → ntop 16777343 ≡ ip
ntop-addr ip e = cc

abbrev pub home : Inet
home = record {
  htons = swap;
  ntohs = swap;
  inet_addr = λ ip. 16777343;
  inet_ntop = ntop;
  IsDotted = λ ip. ip ≡ loopback;
  ntohs-htons = swap-swap;
  ntohs_small = swap_small;
  inet_ntop-inet_addr = ntop-addr;
  length-inet_ntop = ntop_short;
}

abbrev pub server : InetAddress
server = make_address home 8000 loopback
