-- ===== src/Udp/Pool.antt =====
-- packages/agent_core/src/network/udp/packets.rs: the buffers that packets share. A buffer is its
-- number in the memory of the pool; the queue of free buffers is listed from its front. The wakers
-- of tasks that wait for a buffer are left out.
pub mod Conserved
use playit_ios.Common.{
  ℕ, zero, suc, ◌+◌, ◌*◌, List, [], ◌∷◌, ◌++◌, length, leb, ltb, if◌then◌else◌, Option, none, some,
}

pub record Packets : Type 0 where
  pub packet_count : ℕ
  pub free_packets : List ℕ

-- `usize::next_power_of_two`: the first of the powers from `p` on that is not below `n`.
unfoldable pub power_from : ℕ → ℕ → ℕ → ℕ
power_from zero n p = p
power_from (suc fuel) n p = let next = power_from fuel n (2 * p) in if leb n p then p else next

unfoldable pub next_power_of_two : ℕ → ℕ
next_power_of_two n = power_from n n 1

-- The buffers from `i` on, `n` of them.
unfoldable pub buffers : ℕ → ℕ → List ℕ
buffers i zero = []
buffers i (suc n) = i ∷ buffers (suc i) n

unfoldable pub new_packets : ℕ → Packets
new_packets packet_count =
    let count = next_power_of_two packet_count in
    record { packet_count = count; free_packets = buffers 0 count }

-- `ArrayQueue::push` on a queue of `packet_count` places; `none` is a full queue.
unfoldable pub push : Packets → ℕ → Option Packets
push p buffer =
    if ltb (length p.free_packets) p.packet_count
    then some (record p { free_packets = p.free_packets ++ (buffer ∷ []) })
    else none

unfoldable pub pop : List ℕ → ℕ → Option (ℕ × Packets)
pop [] count = none
pop (buffer ∷ free) count = some (buffer, record { packet_count = count; free_packets = free })

-- `Packets::allocate`, and the step of `allocate_wait` that does not wait.
unfoldable pub allocate : Packets → Option (ℕ × Packets)
allocate p = pop p.free_packets p.packet_count

-- `Drop::drop`; `none` is the failed `expect`.
unfoldable pub drop_packet : Packets → ℕ → Option Packets
drop_packet p buffer = push p buffer
