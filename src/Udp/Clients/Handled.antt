-- ===== src/Udp/Clients/Handled.antt =====
-- `UdpClients::handle_tunneled_packet` from start to end.
use playit_ios.Common.{
  ℕ, ◌-◌, ◌++◌, ◌≤◌, ◌≡◌, refl, arith, List, [], ◌∷◌, false, ◌==◌, leb, le→leb, Option, none, some,
  if◌then◌else◌, if-both,
}
use playit_ios.Proto.Wire.{Crates, SocketAddr, IpAddr}
use playit_ios.Proto.Wire
use playit_ios.Proto.Wire.Laws.{Documented}
use playit_ios.Slab.{Outcome, done, panicked}
use playit_ios.Origin.{
  OriginResource, OriginTarget, ProxyProtocol, lookup, port, https, proxy_protocol_v1,
  proxy_protocol_v2,
}
use playit_ios.Proxy.{from_udp_flow}
use playit_ios.Proxy.RoundTrip.{IsHeader, parse_v2_udp-write_v2_udp}
use playit_ios.Udp.Flow.{UdpFlow, v4, v6, Endpoint, UdpFlowExtension, extension, flip}
use playit_ios.Udp.Flow.Tail.RoundTrip.{IsUdpFlow}
use playit_ios.Udp.Clients.{UdpClients, UdpClientKey, Sends, client_at}
use playit_ios.Udp.Clients.Tunneled.{
  NewClientAnswers, Tunneled, first_port, with_src, client_flow, header_sends, announce,
  enter_client, with_flow, with_socket, new_client, known_client, at_slot, to_target, to_origin,
  with_extension, handle_tunneled_packet,
}
use playit_ios.Udp.Clients.Valid.{Valid}
use playit_ios.Udp.Clients.Changed.{set_client-Valid}
use playit_ios.Udp.Clients.Entered.{enter-Valid}

-- The offset of the packet's port does not exceed the port that it came to.
abbrev pub PortFits : UdpFlow → Type 0
PortFits (v4 src dst frag (some e)) = e.port_offset ≤ dst.port
PortFits (v6 src dst (some e)) = e.port_offset ≤ dst.port
PortFits _ = Unit

-- Nothing panicked, and the map agrees with the slab.
abbrev pub Agrees : Tunneled → Type 0
Agrees (done (u, sends)) = Valid u.virtual_client_lookup u.virtual_clients
Agrees _ = ⊥

first_port-done :
    (src : Endpoint) (offset : ℕ)
    → offset ≤ src.port
    → (e : Endpoint) × (first_port src offset ≡ done e)
unfolding first_port
first_port-done src offset h =
    if-both (λ (o : Outcome Endpoint). (e : Endpoint) × (o ≡ done e)) (offset == 0) {x = done src}
      {y = if leb offset src.port then done (record src { port = src.port - offset }) else panicked}
      (λ z. (src, refl))
      (λ z. rw (le→leb offset src.port h) (record src { port = src.port - offset }, refl))

client_flow-done :
    (flow : UdpFlow) (e : UdpFlowExtension)
    → extension flow ≡ some e
    → PortFits flow
    → (back : UdpFlow) × (client_flow (flip flow) ≡ done back)
      × ((x : UdpFlowExtension) × (extension back ≡ some x))
unfolding extension flip client_flow with_src
client_flow-done (v4 src dst frag none) e h fits = cc
client_flow-done (v4 src dst frag (some x)) e h fits =
    let (s, p) = first_port-done dst x.port_offset fits in
    (v4 s src frag (some (record x { port_offset = 0 })), rw (p) refl, (_, refl))
client_flow-done (v6 src dst none) e h fits = cc
client_flow-done (v6 src dst (some x)) e h fits =
    let (s, p) = first_port-done dst x.port_offset fits in
    (v6 s src (some (record x { port_offset = 0 })), rw (p) refl, (_, refl))

from_udp_flow-IsHeader : (flow : UdpFlow) → IsUdpFlow flow → IsHeader (from_udp_flow flow)
unfolding from_udp_flow
from_udp_flow-IsHeader (v4 src dst frag none) h =
    (omega arith, omega arith, omega arith, omega arith)
from_udp_flow-IsHeader (v4 src dst frag (some e)) h =
    (omega arith, omega arith, omega arith, omega arith)
from_udp_flow-IsHeader (v6 src dst none) h = (omega arith, omega arith, omega arith, omega arith)
from_udp_flow-IsHeader (v6 src dst (some e)) h =
    (omega arith, omega arith, omega arith, omega arith)

module _ ⦃crates : Crates⦄ ⦃docs : Documented⦄ where
  announce-done :
      (o : Option ProxyProtocol) (flow : UdpFlow) (socket : ℕ) (target : SocketAddr)
      → IsUdpFlow flow
      → (sends : Sends) × (announce o flow socket target ≡ done sends)
  unfolding announce header_sends
  announce-done none flow socket target h = ([], refl)
  announce-done (some proxy_protocol_v1) flow socket target h = ([], refl)
  announce-done (some proxy_protocol_v2) flow socket target h =
      let (bytes, written, parsed) =
        parse_v2_udp-write_v2_udp (from_udp_flow flow) [] [] (from_udp_flow-IsHeader flow h) in
      ((socket, [] ++ bytes, target) ∷ [], rw (written) refl)

  module _ (u : UdpClients) (now : ℕ) (flow : UdpFlow) (packet : List ℕ)
      (answers : NewClientAnswers) (valid : Valid u.virtual_client_lookup u.virtual_clients)
      (free : client_at answers.slot u.virtual_clients ≡ none) (range : IsUdpFlow flow)
      (fits : PortFits flow) where
    module _ (ext : UdpFlowExtension) (extended : extension flow ≡ some ext) (key : UdpClientKey)
        (origin : OriginResource) (target : SocketAddr) where
      socket-Agrees :
          (o : Option ℕ)
          → u.virtual_client_lookup key ≡ none
          → Agrees (with_socket u now flow key origin packet target answers.slot o)
      unfolding with_socket with_flow enter_client
      socket-Agrees none unknown = valid
      socket-Agrees (some socket) unknown =
          let (back, flowed, has) = client_flow-done flow ext extended fits in
          let (sends, announced) = announce-done origin.proxy_protocol flow socket target range in
          rw (flowed, announced)
            (enter-Valid answers.slot _ u.virtual_client_lookup u.virtual_clients valid free unknown
              has)

      slot-Agrees :
          (o : Option ℕ)
          → u.virtual_client_lookup key ≡ o
          → Agrees (at_slot u now flow key origin packet target answers o)
      unfolding at_slot new_client known_client
      slot-Agrees none unknown =
          if-both Agrees answers.admitted
            {x = with_socket u now flow key origin packet target answers.slot answers.socket}
            {y = done (u, [])} (λ h. socket-Agrees answers.socket unknown) (λ h. valid)
      slot-Agrees (some slot) known =
          let (c, at, same) = valid.back key slot known in
          rw (at) (
            set_client-Valid slot (record c { from_tunnel_ts = now }) u.virtual_client_lookup
              u.virtual_clients c valid at refl (valid.extended slot c at))

    target-Agrees :
        (ext : UdpFlowExtension) (origin : OriginResource) (o : OriginTarget)
        → extension flow ≡ some ext
        → Agrees (to_target u now flow ext origin packet answers o)
    unfolding to_target
    target-Agrees ext origin (port (Wire.v4 ip) start) e = slot-Agrees ext e _ origin _ _ refl
    target-Agrees ext origin (port (Wire.v6 ip) start) e = valid
    target-Agrees ext origin (https ip a b) e = valid

    origin-Agrees :
        (ext : UdpFlowExtension) (o : Option OriginResource)
        → extension flow ≡ some ext
        → Agrees (to_origin u now flow ext packet answers o)
    unfolding to_origin
    origin-Agrees ext none e = valid
    origin-Agrees ext (some origin) e = target-Agrees ext origin origin.target e

    extension-Agrees :
        (o : Option UdpFlowExtension)
        → extension flow ≡ o
        → Agrees (with_extension u now flow packet answers o)
    unfolding with_extension
    extension-Agrees none e = valid
    extension-Agrees (some ext) e = origin-Agrees ext (lookup u.lookup ext.tunnel_id false) e

    -- For a table of clients whose map agrees with its slab, a free slot for a new client, and a
    -- flow in range whose port offset does not exceed the port that the packet came to,
    -- `handle_tunneled_packet` panics nowhere, and the map agrees with the slab afterwards,
    -- whether the client is known, new, or not admitted.
    pub handle_tunneled_packet-Agrees : Agrees (handle_tunneled_packet u now flow packet answers)
    unfolding handle_tunneled_packet
    handle_tunneled_packet-Agrees = extension-Agrees (extension flow) refl
