-- ===== src/Udp/Channel/Carried.antt =====
-- A packet from one end of the channel to the other.
use playit_ios.Common.{
  ℕ, ◌+◌, ◌-◌, ◌≤◌, ◌≡◌, refl, sym, ap, ◌∙◌, arith, List, ◌++◌, append_assoc, length, length-append,
  length-take, length-drop, take, drop, take-append, take-append_le, true, ge→ltb, none, some,
}
use playit_ios.Proto.Wire.{Crates, SocketAddr}
use playit_ios.Proto.Wire.Laws.{Documented}
use playit_ios.Proto.Response.{UdpChannelDetails}
use playit_ios.Control.{same_addr}
use playit_ios.Udp.Flow.{UdpFlow, v4, v6, footer_len}
use playit_ios.Udp.Flow.Write.{flow_bytes, length-flow_bytes, write_to_whole}
use playit_ios.Udp.Flow.Tail.RoundTrip.{IsUdpFlow, as_read}
use playit_ios.Udp.Flow.Tail.Whole.{from_tail-flow_bytes}
use playit_ios.Udp.Channel.{
  Task, Packet, sent, delivered, packet_len, as_ref, with_footer, send_packet, send, send_in,
  send_to, on_tail, receive,
}
use playit_ios.Udp.Channel.Received.{on_tail-delivered, set_len_le, receive-same}

-- A packet with a buffer of full size.
abbrev pub IsPacket : Packet → Type 0
IsPacket p = (length p.buffer ≡ packet_len) × (p.len ≤ packet_len)

footer_len-as_read : (flow : UdpFlow) → footer_len (as_read flow) ≡ footer_len flow
unfolding footer_len as_read
footer_len-as_read (v4 src dst frag none) = refl
footer_len-as_read (v4 src dst none (some e)) = refl
footer_len-as_read (v4 src dst (some f) (some e)) = refl
footer_len-as_read (v6 src dst none) = refl
footer_len-as_read (v6 src dst (some e)) = refl

module _ ⦃crates : Crates⦄ ⦃docs : Documented⦄ where
  sent_bytes :
      (flow : UdpFlow) (p : Packet) (rest : List ℕ)
      → IsPacket p
      → take (p.len + footer_len flow) (take p.len p.buffer ++ (flow_bytes flow ++ rest))
        ≡ as_ref p ++ flow_bytes flow
  unfolding as_ref
  sent_bytes flow p rest h =
      ap (take (p.len + footer_len flow))
        (sym (append_assoc (take p.len p.buffer) (flow_bytes flow) rest))
      ∙ take-append (p.len + footer_len flow) (take p.len p.buffer ++ flow_bytes flow) rest (
          omega (
            arith,
            length-append (take p.len p.buffer) (flow_bytes flow),
            length-take p.len p.buffer,
            length-flow_bytes flow,
            h,
          ))

  packet-sent :
      (session : UdpChannelDetails) (flow : UdpFlow) (p : Packet)
      → IsPacket p
      → p.len + footer_len flow ≤ packet_len
      → send_in (some session) flow p ≡ sent (as_ref p ++ flow_bytes flow) session.tunnel_addr
  unfolding send_in send_packet with_footer send_to as_ref footer_len
  packet-sent session flow p h room =
      let rest = drop (footer_len flow) (drop p.len p.buffer) in
      rw
        (
          ge→ltb (length p.buffer) p.len (omega (arith, h)),
          write_to_whole flow (drop p.len p.buffer) (omega (arith, h, length-drop p.len p.buffer)),
          set_len_le (record p { buffer = take p.len p.buffer ++ (flow_bytes flow ++ rest) })
              (p.len + footer_len flow) room,
        )
        (ap (λ b. sent b session.tunnel_addr) (sent_bytes flow p rest h))

  -- A flow that still fits into the buffer goes out behind the packet.
  pub send-sent :
      (task : Task) (session : UdpChannelDetails) (flow : UdpFlow) (p : Packet)
      → task.session ≡ some session
      → IsPacket p
      → p.len + footer_len flow ≤ packet_len
      → send task flow p ≡ sent (as_ref p ++ flow_bytes flow) session.tunnel_addr
  unfolding send
  send-sent task session flow p here h room =
      ap (λ o. send_in o flow p) here ∙ packet-sent session flow p h room

  length-as_ref : (p : Packet) → IsPacket p → length (as_ref p) ≡ p.len
  unfolding as_ref
  length-as_ref p h = omega (arith, length-take p.len p.buffer, h)

  -- A packet and a flow in range whose footer still fits into the packet's buffer go out in one
  -- packet to the server of the session; when it arrives at a channel that has its source for a
  -- server, the channel delivers the same packet, and the flow without what a footer without
  -- extension does not carry of a fragment, and its task is as before.
  pub receive-send :
      (task far : Task) (session other : UdpChannelDetails) (flow : UdpFlow) (p q : Packet)
      (source : SocketAddr) (now : ℕ)
      → task.session ≡ some session
      → far.session ≡ some other
      → same_addr other.tunnel_addr source ≡ true
      → IsUdpFlow flow
      → IsPacket p
      → p.len + footer_len flow ≤ packet_len
      → (bytes : List ℕ) × (p' : Packet) × (send task flow p ≡ sent bytes session.tunnel_addr)
        × (receive far q bytes source now ≡ (delivered (as_read flow) p', far))
        × (as_ref p' ≡ as_ref p)
  unfolding as_ref
  receive-send task far session other flow p q source now here there same ok_flow ok_packet room =
      let bytes = as_ref p ++ flow_bytes flow in
      let size : length bytes ≡ p.len + footer_len flow = omega (
        arith,
        length-append (as_ref p) (flow_bytes flow),
        length-as_ref p ok_packet,
        length-flow_bytes flow,
      ) in
      let n = length bytes - footer_len (as_read flow) in
      let short : n ≤ length (as_ref p) =
        omega (arith, size, footer_len-as_read flow, length-as_ref p ok_packet) in
      (
        bytes,
        record { buffer = bytes ++ drop (length bytes) q.buffer; len = n },
        send-sent task session flow p here ok_packet room,
        receive-same far other q bytes source now there same (omega (arith, size))
            ∙ ap (on_tail far _ (length bytes) now) (from_tail-flow_bytes (as_ref p) flow ok_flow)
            ∙ on_tail-delivered far (as_read flow) _ (length bytes) now
                (omega (arith, size, footer_len-as_read flow)) (omega (arith, size)),
        take-append_le n bytes (drop (length bytes) q.buffer) (omega (arith, size, short))
            ∙ take-append n (as_ref p) (flow_bytes flow)
                (omega (arith, size, footer_len-as_read flow, length-as_ref p ok_packet)),
      )
