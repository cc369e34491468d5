-- ===== src/Tests/Network.antt =====
-- Headers of UDP packets, tunnels with their services, and the sockets of their clients.
use playit_ios.Common.{
  ℕ, zero, suc, ◌⊎◌, inl, inr, ◌≡◌, refl, arith, List, [], ◌∷◌, ◌++◌, true, none, some,
}
use playit_ios.Common.Io.{ok}
use playit_ios.Proto.Wire.{v4}
use playit_ios.Proto.Ids.{both, tcp}
use playit_ios.Proxy.{ProxyProtocolHeader, af_inet, write_v2_udp, parse_v2_udp, header}
use playit_ios.Proxy.RoundTrip.{parse_v2_udp-write_v2_udp}
use playit_ios.Origin.{OriginResource, OriginLookup, port, update, lookup}
use playit_ios.Origin.Laws.{lookup-update}
use playit_ios.Lan.{mix, shuffle, udp_socket}
use playit_ios.Lan.Laws.{Binds, udp_socket-Binds}
use playit_ios.Tests.Crates.{test_crates, test_docs}

abbrev client : ProxyProtocolHeader
client =
    af_inet (record {
      client_ip = 0x7b2d0c22;
      proxy_ip = 0x05060708;
      client_port = 421;
      proxy_port = 662;
    })

parse_v2_udp-write_v2_udp_example :
    (bytes : List ℕ) × (write_v2_udp ⦃crates = test_crates⦄ client [] ≡ ok ([] ++ bytes))
    × (parse_v2_udp ⦃crates = test_crates⦄ (bytes ++ (1 ∷ 2 ∷ [])) ≡ header client)
parse_v2_udp-write_v2_udp_example =
    parse_v2_udp-write_v2_udp ⦃crates = test_crates⦄ ⦃docs = test_docs⦄ client [] (1 ∷ 2 ∷ [])
      (omega arith, omega arith, omega arith, omega arith)

abbrev game : OriginResource
game = record {
  tunnel_id = 3;
  proto = both;
  target = port (v4 0x7f000001) 25565;
  port_count = 2;
  proxy_protocol = none;
}

abbrev moved : OriginResource
moved = record game { proto = tcp; target = port (v4 0x7f000001) 80 }

abbrev no_tunnels : OriginLookup
no_tunnels = record { map = λ id t. none }

lookup-update_example : lookup (update no_tunnels (game ∷ moved ∷ [])) 3 true ≡ some moved
lookup-update_example = lookup-update no_tunnels (game ∷ moved ∷ []) 3 true

shuffle_run : shuffle 0x7b2d0c22 ≡ 1826254307
unfolding shuffle mix
shuffle_run = refl

-- Only sockets of any port are to be had, and each is the address that it has.
abbrev taken_ports : List (ℕ × ℕ) → ℕ → ℕ → ℕ ⊎ ℕ
taken_ports tried ip zero = inl ip
taken_ports tried ip (suc n) = inr 98

udp_socket-Binds_example :
    Binds taken_ports true
      (udp_socket taken_ports true (record { ip = v4 0x7b2d0c22; port = 421 }) 3)
udp_socket-Binds_example =
    udp_socket-Binds taken_ports true (record { ip = v4 0x7b2d0c22; port = 421 }) 3
