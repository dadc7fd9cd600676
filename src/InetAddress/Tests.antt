-- ===== src/InetAddress/Tests.antt =====
-- The theorems at the address of `Home`.
use mu_muduo.Common.{◌≤◌, ◌≡◌, refl, [], ◌∷◌, ◌++◌, length, ok, arith, decimal}
use mu_muduo.InetAddress.{make_address, to_ip, to_port, to_ip_port, print_behind}
use mu_muduo.InetAddress.Home.{loopback, home, server, swap}
use mu_muduo.InetAddress.Texts.{to_ip_port_lem, make_address_lem}

to_ip_port_lem_example :
    (to_ip_port home server ≡ ok (to_ip home server ++ 58 ∷ decimal (to_port home server)))
    × (length (to_ip home server ++ 58 ∷ decimal (to_port home server)) ≤ 21)
to_ip_port_lem_example = to_ip_port_lem home server

make_address_lem_example :
    (to_port home server ≡ 8000)
    × (to_ip home server ≡ loopback)
    × (to_ip_port home server ≡ ok (loopback ++ 58 ∷ decimal 8000))
make_address_lem_example = make_address_lem home 8000 loopback (omega arith) refl

-- "127.0.0.1:8000"
printed : to_ip_port home server ≡ ok (loopback ++ 58 ∷ 56 ∷ 48 ∷ 48 ∷ 48 ∷ [])
unfolding to_ip_port make_address swap decimal print_behind
printed = refl
