-- ===== src/Udp/Clients/Dispatch.antt =====
-- `UdpClients::dispatch_origin_packet`: what goes back into the tunnel.
use playit_ios.Common.{
  ℕ, ◌-◌, ◌%◌, ◌^◌, ◌≤◌, ◌<◌, ◌≡◌, refl, ap, ◌∙◌, arith, false, not, ◌==◌, ==_iff, ltb, leb, Option,
  none, some, if◌then◌else◌, if-both,
}
use playit_ios.Slab.{done}
use playit_ios.Control.{same_ip}
use playit_ios.Control.Kept.{accepted}
use playit_ios.Origin.{OriginResource, OriginTarget, lookup, port, https}
use playit_ios.Udp.Flow.{UdpFlow, v4, v6, UdpFlowExtension, extension}
use playit_ios.Udp.Clients.{
  UdpClients, UdpReceivedPacket, Client, Dispatched, client_at, set_client, at_offset, dispatched,
  dispatch_port, dispatch_target, dispatch_tunnel, dispatch_client, dispatch_origin_packet, is_v4,
}
use playit_ios.Udp.Clients.Valid.{Valid, same_ip-eq}
use playit_ios.Udp.Clients.Changed.{set_client-Valid}

-- A tunnel serves a packet of its client if the packet comes from one of the tunnel's ports at the
-- local address.
abbrev pub Serves : UdpClients → UdpReceivedPacket → Client → ℕ → Type 0
Serves u packet client offset =
    (tunnel : OriginResource) × (start : ℕ) × (lookup u.lookup client.key.tunnel_id false
      ≡ some tunnel)
    × (tunnel.target ≡ port packet.from.ip start)
    × (start ≤ packet.from.port)
    × (offset ≡ packet.from.port - start)
    × (offset < tunnel.port_count)

-- What is dispatched is the packet, for the client that its receiver is of, with the offset of its
-- port; the map and the slab still agree, and nothing panics.
abbrev pub Dispatches : UdpClients → UdpReceivedPacket → Dispatched → Type 0
Dispatches u packet (done (none, u')) = u' ≡ u
Dispatches u packet (done (some (flow, bytes), u')) =
    ((client : Client) × (ext : UdpFlowExtension) × (client_at (packet.rx_id % 2 ^ 32)
          u.virtual_clients
        ≡ some client)
      × (client.id ≡ packet.rx_id)
      × (extension flow ≡ some ext)
      × Serves u packet client ext.port_offset)
    × (bytes ≡ packet.packet)
    × Valid u'.virtual_client_lookup u'.virtual_clients
Dispatches u packet _ = ⊥

pub at_offset-done :
    (flow : UdpFlow) (e : UdpFlowExtension) (offset : ℕ)
    → extension flow ≡ some e
    → (back : UdpFlow) × (ext : UdpFlowExtension) × (at_offset flow offset ≡ done back)
      × (extension back ≡ some ext)
      × (ext.port_offset ≡ offset)
unfolding extension at_offset
at_offset-done (v4 src dst frag none) e offset h = cc
at_offset-done (v4 src dst frag (some x)) e offset h = (_, _, refl, refl, refl)
at_offset-done (v6 src dst none) e offset h = cc
at_offset-done (v6 src dst (some x)) e offset h = (_, _, refl, refl, refl)

module _ (u : UdpClients) (now : ℕ) (packet : UdpReceivedPacket)
    (valid : Valid u.virtual_client_lookup u.virtual_clients) where
  module _ (client : Client)
      (at : client_at (packet.rx_id % 2 ^ 32) u.virtual_clients ≡ some client)
      (same_id : client.id ≡ packet.rx_id) where
    port-Dispatches :
        (tunnel : OriginResource) (start : ℕ)
        → lookup u.lookup client.key.tunnel_id false ≡ some tunnel
        → tunnel.target ≡ port packet.from.ip start
        → Dispatches u packet
            (dispatch_port u now packet (packet.rx_id % 2 ^ 32) client tunnel start)
    unfolding dispatch_port dispatched
    port-Dispatches tunnel start found target =
        if-both (Dispatches u packet) (ltb packet.from.port start) {x = done (none, u)}
          {y = if leb tunnel.port_count (packet.from.port - start) then done (none, u) else sent}
          (λ h. refl)
          (λ h.
            if-both (Dispatches u packet) (leb tunnel.port_count (packet.from.port - start))
              {x = done (none, u)} {y = sent} (λ g. refl) (λ g. goes h g))
      where
        sent : Dispatched
        sent =
            dispatched
              (record u {
                virtual_clients =
                    set_client (packet.rx_id % 2 ^ 32) (record client { from_origin_ts = now })
                      u.virtual_clients;
              })
              packet.packet (at_offset client.flow (packet.from.port - start))

        goes :
            ltb packet.from.port start ≡ false
            → leb tunnel.port_count (packet.from.port - start) ≡ false
            → Dispatches u packet sent
        goes h g =
            let (e, has) = valid.extended (packet.rx_id % 2 ^ 32) client at in
            let (back, ext, moved, carries, offset) =
              at_offset-done client.flow e (packet.from.port - start) has in
            rw (moved) (
              (
                client,
                ext,
                at,
                same_id,
                carries,
                (tunnel, start, found, target, ground arith, offset, ground (arith, offset)),
              ),
              refl,
              set_client-Valid (packet.rx_id % 2 ^ 32) (record client { from_origin_ts = now })
                  u.virtual_client_lookup u.virtual_clients client valid at refl (e, has),
            )

    target-Dispatches :
        (tunnel : OriginResource) (o : OriginTarget)
        → lookup u.lookup client.key.tunnel_id false ≡ some tunnel
        → tunnel.target ≡ o
        → Dispatches u packet (dispatch_target u now packet (packet.rx_id % 2 ^ 32) client tunnel o)
    unfolding dispatch_target
    target-Dispatches tunnel (https ip a b) found target = refl
    target-Dispatches tunnel (port ip start) found target =
        if-both (Dispatches u packet) (not (same_ip ip packet.from.ip)) {x = done (none, u)}
          {y = dispatch_port u now packet (packet.rx_id % 2 ^ 32) client tunnel start} (λ h. refl)
          (λ h.
            port-Dispatches tunnel start found
              (target ∙ ap (λ a. port a start) (same_ip-eq ip packet.from.ip (accepted h))))

    tunnel-Dispatches :
        (o : Option OriginResource)
        → lookup u.lookup client.key.tunnel_id false ≡ o
        → Dispatches u packet (dispatch_tunnel u now packet (packet.rx_id % 2 ^ 32) client o)
    unfolding dispatch_tunnel
    tunnel-Dispatches none found = refl
    tunnel-Dispatches (some tunnel) found =
        if-both (Dispatches u packet) (not (is_v4 packet.from.ip)) {x = done (none, u)}
          {y = dispatch_target u now packet (packet.rx_id % 2 ^ 32) client tunnel tunnel.target}
          (λ h. refl) (λ h. target-Dispatches tunnel tunnel.target found refl)

  client-Dispatches :
      (o : Option Client)
      → client_at (packet.rx_id % 2 ^ 32) u.virtual_clients ≡ o
      → Dispatches u packet (dispatch_client u now packet (packet.rx_id % 2 ^ 32) o)
  unfolding dispatch_client
  client-Dispatches none at = refl
  client-Dispatches (some client) at =
      if-both (Dispatches u packet) (not (client.id == packet.rx_id)) {x = done (none, u)}
        {y = dispatch_tunnel u now packet (packet.rx_id % 2 ^ 32) client
          (lookup u.lookup client.key.tunnel_id false)}
        (λ h. refl)
        (λ h. tunnel-Dispatches client at ((==_iff client.id packet.rx_id).0 (accepted h)) _ refl)

  -- For a table of clients whose map agrees with its slab, `dispatch_origin_packet` panics
  -- nowhere; without an answer it changes nothing; with one, the packet came from the local
  -- address and one of the ports of the tunnel of the client that its receiver is of, the flow
  -- carries the offset of that port, and the map still agrees with the slab.
  pub dispatch_origin_packet-Dispatches : Dispatches u packet (dispatch_origin_packet u now packet)
  unfolding dispatch_origin_packet
  dispatch_origin_packet-Dispatches =
      client-Dispatches (client_at (packet.rx_id % 2 ^ 32) u.virtual_clients) refl
