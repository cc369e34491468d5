-- ===== src/Tests/Flow.antt =====
-- Footers of packages/agent_proto/src/udp_proto.rs.
use playit_ios.Common.{ℕ, ◌≡◌, ◌≢◌, refl, arith, List, [], ◌∷◌, ◌++◌, drop, some, true}
use playit_ios.Udp.Flow.{UdpFlow, Endpoint, v4, write_to, footer_len}
use playit_ios.Udp.Flow.Write.{flow_bytes, write_to_whole}
use playit_ios.Udp.Flow.Tail.{from_tail, parsed, panicked}
use playit_ios.Udp.Flow.Tail.Whole.{from_tail-write_to}
use playit_ios.Udp.Flow.Tail.RoundTrip.{as_read}
use playit_ios.Udp.Flow.Tail.Total.{from_tail-safe}
use playit_ios.Tests.Crates.{test_crates, test_docs}
use playit_ios.Tests.Proto.{zeros}

abbrev pub here : Endpoint
here = record { ip = 0x7f000001; port = 443 }

abbrev pub there : Endpoint
there = record { ip = 0x0a000001; port = 25565 }

abbrev pub flow : UdpFlow
flow =
    v4 here there (some (record { packet_id = 9; frag_offset = 100; has_more = true }))
      (some (record { client_server_id = 3; tunnel_id = 4; port_offset = 5 }))

from_tail-write_to_example :
    (footer : List ℕ) × (write_to ⦃crates = test_crates⦄ flow (zeros 43) ≡ some (true, footer))
    × (from_tail ⦃crates = test_crates⦄ ((1 ∷ 2 ∷ []) ++ footer) ≡ parsed flow)
unfolding footer_len as_read
from_tail-write_to_example =
    from_tail-write_to ⦃crates = test_crates⦄ ⦃docs = test_docs⦄ (1 ∷ 2 ∷ []) (zeros 43) flow
      (
        (omega arith, omega arith),
        (omega arith, omega arith),
        (omega arith, omega arith, omega arith),
        (omega arith, omega arith, omega arith, omega arith, omega arith),
      )
      refl

write_to_whole_example :
    write_to ⦃crates = test_crates⦄ flow (zeros 50)
    ≡ some (true, flow_bytes ⦃crates = test_crates⦄ flow ++ drop (footer_len flow) (zeros 50))
unfolding footer_len
write_to_whole_example =
    write_to_whole ⦃crates = test_crates⦄ ⦃docs = test_docs⦄ flow (zeros 50) (omega arith)

from_tail-safe_example : from_tail ⦃crates = test_crates⦄ (zeros 20) ≢ panicked
from_tail-safe_example = from_tail-safe ⦃crates = test_crates⦄ (zeros 20)
