-- ===== src/Udp/Clients/Answered.antt =====
-- `dispatch_origin_packet` and `OriginResource::resolve_local`: what is sent to the address of an
-- offset is answered from it.
use playit_ios.Common.{
  ℕ, ◌+◌, ◌-◌, ◌%◌, ◌^◌, ◌≤◌, ◌<◌, ◌≡◌, ◌≢◌, ◌⊎◌, inl, inr, refl, sym, ap, ◌∙◌, arith, true, false,
  ==_iff, ltb, leb, none, some, Bool-cases,
}
use playit_ios.Proto.Wire.{IpAddr}
use playit_ios.Slab.{done}
use playit_ios.Control.{same_ip}
use playit_ios.Origin.{OriginResource, lookup, port, resolve_local}
use playit_ios.Origin.Laws.{resolved_in, resolved_from}
use playit_ios.Udp.Flow.{UdpFlow, UdpFlowExtension, extension}
use playit_ios.Udp.Clients.{
  UdpClients, UdpReceivedPacket, Client, Dispatched, client_at, set_client, dispatched,
  dispatch_port, dispatch_target, dispatch_tunnel, dispatch_client, dispatch_origin_packet, is_v4,
}
use playit_ios.Udp.Clients.Valid.{same_ip-eq}
use playit_ios.Control.Expiry.{same_ip_refl}
use playit_ios.Udp.Clients.Dispatch.{at_offset-done}

-- The client of the packet is noted to have been answered at `now`.
abbrev pub noted : UdpClients → ℕ → UdpReceivedPacket → Client → UdpClients
noted u now packet client = record u {
  virtual_clients =
      set_client (packet.rx_id % 2 ^ 32) (record client { from_origin_ts = now }) u.virtual_clients;
}

-- Either the packet comes from the address of an offset, and goes back with that offset, or it
-- comes from the address of none, and is dropped.
abbrev pub Answers :
    UdpClients → ℕ → UdpReceivedPacket → Client → OriginResource → Dispatched → Type 0
Answers u now packet client tunnel result =
    ((offset : ℕ) × (flow : UdpFlow) × (ext : UdpFlowExtension) × (resolve_local tunnel offset
        ≡ some packet.from)
      × (result ≡ done (some (flow, packet.packet), noted u now packet client))
      × (extension flow ≡ some ext)
      × (ext.port_offset ≡ offset))
    ⊎ (((offset : ℕ) → resolve_local tunnel offset ≢ some packet.from) × (result ≡ done (none, u)))

module _ (u : UdpClients) (now : ℕ) (packet : UdpReceivedPacket) (client : Client)
    (ext : UdpFlowExtension) (tunnel : OriginResource) (ip : IpAddr) (start : ℕ)
    (carries : extension client.flow ≡ some ext) (target : tunnel.target ≡ port ip start)
    (some_port : 0 < tunnel.port_count) (in_range : start + tunnel.port_count ≤ 2 ^ 16) where
  -- An offset that leads to the packet's address.
  leads :
      (offset : ℕ)
      → resolve_local tunnel offset ≡ some packet.from
      → (offset < tunnel.port_count) × (ip ≡ packet.from.ip) × (packet.from.port ≡ start + offset)
  unfolding resolve_local
  leads offset h =
      let (below, same, at) =
        resolved_from ip start tunnel.port_count offset packet.from some_port (rw (sym target) h) in
      (below, same, omega arith)

  from_port :
      ip ≡ packet.from.ip
      → start ≤ packet.from.port
      → packet.from.port - start < tunnel.port_count
      → resolve_local tunnel (packet.from.port - start) ≡ some packet.from
  unfolding resolve_local
  from_port same low below =
      let at : (start + (packet.from.port - start)) % 2 ^ 16 ≡ packet.from.port = omega arith in
      rw target (
        resolved_in ip start tunnel.port_count (packet.from.port - start) below
        ∙ (λ i. some (record { ip = same i; port = at i })))

  port-Answers :
      ip ≡ packet.from.ip
      → Answers u now packet client tunnel
          (dispatch_port u now packet (packet.rx_id % 2 ^ 32) client tunnel start)
  unfolding dispatch_port dispatched
  port-Answers same = elim (Bool-cases (ltb packet.from.port start)) [
    | inl low ↦ inr (
      λ offset h. (let (below, same', at) = leads offset h in ground arith),
      rw (low, dispatch_port) refl,
    )
    | inr low ↦ (elim (Bool-cases (leb tunnel.port_count (packet.from.port - start))) [
      | inl high ↦ inr (
        λ offset h. (let (below, same', at) = leads offset h in ground arith),
        rw (low, high, dispatch_port) refl,
      )
      | inr high ↦
          let (flow, e, moved, has, offset) =
            at_offset-done client.flow ext (packet.from.port - start) carries in
          inl (
            packet.from.port - start,
            flow,
            e,
            from_port same (ground arith) (ground arith),
            rw (low, high, moved, dispatch_port) refl,
            has,
            offset,
          )
    ])
  ]

  target-Answers :
      Answers u now packet client tunnel
        (dispatch_target u now packet (packet.rx_id % 2 ^ 32) client tunnel (port ip start))
  unfolding dispatch_target
  target-Answers = elim (Bool-cases (same_ip ip packet.from.ip)) [
    | inl e ↦ rw (e, dispatch_target) (port-Answers (same_ip-eq ip packet.from.ip e))
    | inr e ↦ inr (
      λ offset h.
          (let (below, same, at) = leads offset h in
            let f : same_ip ip packet.from.ip ≡ true = rw (same) (same_ip_refl packet.from.ip) in
            cc),
      rw (e, dispatch_target) refl,
    )
  ]

  -- For a client at the slot of the packet's receiver, of the same id, with a flow that has an
  -- extension, and its tunnel with a target port, a port count above 0 and ports within 16 bits, a
  -- packet from an IPv4 address is dispatched with an offset that `resolve_local` leads to its
  -- address by, and the time is noted with the client; or no offset leads to its address, and the
  -- packet is dropped and nothing changes.
  pub dispatch_origin_packet-Answers :
      client_at (packet.rx_id % 2 ^ 32) u.virtual_clients ≡ some client
      → client.id ≡ packet.rx_id
      → lookup u.lookup client.key.tunnel_id false ≡ some tunnel
      → is_v4 packet.from.ip ≡ true
      → Answers u now packet client tunnel (dispatch_origin_packet u now packet)
  unfolding dispatch_origin_packet dispatch_client dispatch_tunnel
  dispatch_origin_packet-Answers at same_id found four =
      rw (at, (==_iff client.id packet.rx_id).1 same_id, found, four)
        (rw (ap (dispatch_target u now packet (packet.rx_id % 2 ^ 32) client tunnel) target)
          target-Answers)
