-- ===== src/Udp/Channel.antt =====
-- packages/agent_core/src/network/udp/udp_channel.rs: the task that carries packets, with their
-- flows behind them, to and from a tunnel server, and `Packet` of packets.rs, a buffer of 2048
-- bytes and the length that is in use. Times are milliseconds; the counters of errors are left out.
pub mod Fits
pub mod Received
pub mod Carried
use playit_ios.Common.{
  ℕ, ◌+◌, ◌-◌, List, [], ◌∷◌, ◌++◌, length, take, drop, Bool, true, false, not, ◌&&◌, ◌==◌, leb,
  ltb, max, if◌then◌else◌, Option, none, some,
}
use playit_ios.Proto.Wire.{Crates, SocketAddr}
use playit_ios.Proto.Response.{UdpChannelDetails}
use playit_ios.Control.{same_addr}
use playit_ios.Udp.Flow.{UdpFlow, footer_len, write_to, udp_channel_establish_id}
use playit_ios.Udp.Flow.Tail.{from_tail, Parsed, parsed, refused, panicked}

abbrev pub packet_len : ℕ
packet_len = 2048

pub record Packet : Type 0 where
  pub buffer : List ℕ
  pub len : ℕ

-- `Packet::as_ref`
unfoldable pub as_ref : Packet → List ℕ
as_ref p = take p.len p.buffer

-- `none` is the error.
unfoldable pub set_len : Packet → ℕ → Option Packet
set_len p len = if ltb packet_len len then none else some (record p { len = len })

-- `Task`, with the two epochs of `Shared`.
pub record Task : Type 0 where
  pub session : Option UdpChannelDetails
  pub establish_rx_epoch : ℕ
  pub establish_tx_epoch : ℕ

-- What goes to the socket, and where.
pub data Sent : Type 0 where
  no_session tail_append_fail panic : Sent
  sent : List ℕ → SocketAddr → Sent

pub data Arrival : Type 0 where
  no_session source_no_match established too_small invalid_footer_id panic : Arrival
  delivered : UdpFlow → Packet → Arrival

-- `UdpChannel::time_since_established` and `time_since_establish_send`, of their epochs.
unfoldable pub time_since : ℕ → ℕ → Option ℕ
time_since ts now = if ts == 0 then none else some (max now ts - ts)

-- When an establish packet is due, from the last one that was sent.
unfoldable pub next_send : Task → ℕ → ℕ → ℕ → ℕ
next_send task instant now last_establish_send = elim task.session [
  | none ↦ instant + 5000
  | some session ↦
      (if leb 15000 (max now task.establish_rx_epoch - task.establish_rx_epoch)
        then last_establish_send + 3000
        else last_establish_send + 10000)
]

unfoldable pub same_bytes : List ℕ → List ℕ → Bool
same_bytes [] [] = true
same_bytes (x ∷ xs) (y ∷ ys) = (x == y) && same_bytes xs ys
same_bytes [] (y ∷ ys) = false
same_bytes (x ∷ xs) [] = false

unfoldable pub same_details : UdpChannelDetails → UdpChannelDetails → Bool
same_details a b = same_addr a.tunnel_addr b.tunnel_addr && same_bytes a.token b.token

unfoldable pub send_establish : Task → ℕ → Task × Sent
send_establish task now = elim task.session [
  | none ↦ (task, no_session)
  | some session ↦
      (record task { establish_tx_epoch = now }, sent session.token session.tunnel_addr)
]

unfoldable pub should_send : Task → UdpChannelDetails → ℕ → Option UdpChannelDetails → Bool
should_send task details now none = true
should_send task details now (some old) =
    if not (same_details old details) then true else ltb 5000 (now - task.establish_rx_epoch)

unfoldable pub handle_session : Task → UdpChannelDetails → ℕ → Task × Option Sent
handle_session task details now =
    let task' = record task { session = some details } in
    if should_send task details now task.session
    then (let r = send_establish task' now in (r.0, some r.1))
    else (task', none)

unfoldable pub send_to : SocketAddr → Option Packet → Sent
send_to addr none = panic
send_to addr (some p) = sent (as_ref p) addr

-- `rest` is the slice behind the packet after the flow was written to it.
unfoldable pub with_footer : UdpFlow → Packet → SocketAddr → Option (Bool × List ℕ) → Sent
with_footer flow p addr none = panic
with_footer flow p addr (some (false, rest)) = tail_append_fail
with_footer flow p addr (some (true, rest)) =
    send_to addr
      (set_len (record p { buffer = take p.len p.buffer ++ rest }) (p.len + footer_len flow))

module _ ⦃crates : Crates⦄ where
  -- `Task::send`; the slice behind the packet panics where the packet is longer than its buffer.
  unfoldable pub send_packet : UdpFlow → Packet → UdpChannelDetails → Sent
  send_packet flow p session =
      if ltb (length p.buffer) p.len
      then panic
      else with_footer flow p session.tunnel_addr (write_to flow (drop p.len p.buffer))

  unfoldable pub send_in : Option UdpChannelDetails → UdpFlow → Packet → Sent
  send_in none flow p = no_session
  send_in (some session) flow p = send_packet flow p session

  unfoldable pub send : Task → UdpFlow → Packet → Sent
  send task flow p = send_in task.session flow p

  -- A packet of `bytes` bytes is in `p`, by what its tail reads as.
  unfoldable pub on_tail : Task → Packet → ℕ → ℕ → Parsed → Arrival × Task
  on_tail task p bytes now panicked = (panic, task)
  on_tail task p bytes now (parsed flow) =
      if ltb bytes (footer_len flow)
      then (panic, task)
      else (elim (set_len p (bytes - footer_len flow)) [
        | none ↦ (panic, task)
        | some p' ↦ (delivered flow p', task)
      ])
  on_tail task p bytes now (refused none) = (too_small, task)
  on_tail task p bytes now (refused (some footer)) =
      if footer == udp_channel_establish_id
      then (established, record task { establish_rx_epoch = now })
      else (invalid_footer_id, task)

  unfoldable pub on_packet : Task → Option Packet → ℕ → ℕ → Arrival × Task
  on_packet task none bytes now = (panic, task)
  on_packet task (some p) bytes now = on_tail task p bytes now (from_tail (as_ref p))

  unfoldable pub receive_in :
      Option UdpChannelDetails → Task → Packet → List ℕ → SocketAddr → ℕ → Arrival × Task
  receive_in none task p bytes source now = (no_session, task)
  receive_in (some session) task p bytes source now =
      if not (same_addr session.tunnel_addr source)
      then (source_no_match, task)
      else (let filled = record p { buffer = bytes ++ drop (length bytes) p.buffer } in
          on_packet task (set_len filled (length bytes)) (length bytes) now)

  -- The round of the loop for a packet that the socket put into the buffer of `p`.
  unfoldable pub receive : Task → Packet → List ℕ → SocketAddr → ℕ → Arrival × Task
  receive task p bytes source now = receive_in task.session task p bytes source now
