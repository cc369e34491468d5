-- ===== src/Tests/Channel.antt =====
-- The channel to the tunnel server and the pool of packets.
use playit_ios.Common.{ℕ, zero, suc, ◌≤◌, ◌≡◌, refl, arith, List, [], ◌∷◌, ◌++◌, length, some}
use playit_ios.Proto.Response.{UdpChannelDetails}
use playit_ios.Control.{same_addr, same_ip}
use playit_ios.Udp.Flow.{footer_len}
use playit_ios.Udp.Flow.Tail.RoundTrip.{as_read}
use playit_ios.Udp.Channel.{Task, Packet, sent, delivered, as_ref, send, receive}
use playit_ios.Udp.Channel.Received.{receive-Handled, Handled}
use playit_ios.Udp.Channel.Carried.{receive-send}
use playit_ios.Udp.Pool.{
  Packets, allocate, pop, new_packets, buffers, next_power_of_two, power_from, drop_packet,
}
use playit_ios.Udp.Pool.Conserved.{
  Pool, Reach, here, next, take_packet, fresh, reached-Conserved, Conserved,
}
use playit_ios.Tests.Crates.{test_crates, test_docs}
use playit_ios.Tests.Proto.{zeros, address}
use playit_ios.Tests.Flow.{flow}

length-zeros : (n : ℕ) → length (zeros n) ≡ n
length-zeros zero = refl
length-zeros (suc n) = omega (arith, length-zeros n)

abbrev details : UdpChannelDetails
details = record { tunnel_addr = address; token = 1 ∷ 2 ∷ [] }

abbrev task : Task
task = record { session = some details; establish_rx_epoch = 0; establish_tx_epoch = 0 }

abbrev message : Packet
message = record { buffer = zeros 2048; len = 100 }

receive-send_example :
    (bytes : List ℕ) × (p : Packet) × (send ⦃crates = test_crates⦄ task flow message
      ≡ sent bytes address)
    × (receive ⦃crates = test_crates⦄ task message bytes address 5
        ≡ (delivered (as_read flow) p, task))
    × (as_ref p ≡ as_ref message)
unfolding same_addr same_ip footer_len
receive-send_example =
    receive-send ⦃crates = test_crates⦄ ⦃docs = test_docs⦄ task task details details flow message
      message address 5 refl refl refl
      (
        (omega arith, omega arith),
        (omega arith, omega arith),
        (omega arith, omega arith, omega arith),
        (omega arith, omega arith, omega arith, omega arith, omega arith),
      )
      (length-zeros 2048, omega arith) (omega arith)

receive-Handled_example :
    Handled ⦃crates = test_crates⦄ task
      (zeros 30)
      address
      (receive ⦃crates = test_crates⦄ task message (zeros 30) address 5).0
receive-Handled_example =
    receive-Handled ⦃crates = test_crates⦄ ⦃docs = test_docs⦄ task message (zeros 30) address 5
      (omega (arith, length-zeros 30))

-- Two of four buffers are in use.
abbrev two_held : Pool
two_held = record {
  packets = record { packet_count = 4; free_packets = 2 ∷ 3 ∷ [] };
  held = 1 ∷ 0 ∷ [];
}

two_held-Reach : Reach (fresh 3) two_held
unfolding allocate pop new_packets buffers next_power_of_two power_from
two_held-Reach =
    next
      (next here
        (take_packet (fresh 3) 0 (record { packet_count = 4; free_packets = 1 ∷ 2 ∷ 3 ∷ [] }) refl))
      (take_packet
        (record {
          packets = record { packet_count = 4; free_packets = 1 ∷ 2 ∷ 3 ∷ [] };
          held = 0 ∷ [];
        })
        1 (record { packet_count = 4; free_packets = 2 ∷ 3 ∷ [] }) refl)

reached-Conserved_example :
    (3 ≤ next_power_of_two 3)
    × Conserved (next_power_of_two 3) two_held
    × ((before after : List ℕ) (buffer : ℕ)
        → two_held.held ≡ before ++ (buffer ∷ after)
        → (p : Packets) × (drop_packet two_held.packets buffer ≡ some p))
reached-Conserved_example = reached-Conserved 3 two_held-Reach
