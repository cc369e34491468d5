-- ===== src/Udp/Clients/Tunneled.antt =====
-- `UdpClients::handle_tunneled_packet`: a packet from the tunnel goes to its client's socket, which
-- is made where the client is new.
use playit_ios.Common.{
  ℕ, ◌+◌, ◌-◌, ◌%◌, ◌^◌, List, [], ◌∷◌, ◌++◌, Bool, false, ◌==◌, leb, if◌then◌else◌, Option, none,
  some,
}
use playit_ios.Common.Io.{Result, ok, err}
use playit_ios.Proto.Wire.{Crates, SocketAddr, IpAddr}
use playit_ios.Proto.Wire
use playit_ios.Slab.{Outcome, done, panicked, undefined}
use playit_ios.Keys.{with_key}
use playit_ios.Origin.{
  OriginResource, OriginTarget, ProxyProtocol, lookup, port, proxy_protocol_v1, proxy_protocol_v2,
}
use playit_ios.Proxy.{from_udp_flow, write_v2_udp}
use playit_ios.Udp.Flow.{UdpFlow, v4, v6, Endpoint, UdpFlowExtension, extension, flip}
use playit_ios.Udp.Clients.{
  UdpClients, UdpClientKey, Client, Sends, flow_src, same_key, client_at, set_client,
}

-- What the surroundings of a new client answer: whether the rate limiter lets it in, its socket,
-- and the slot that the slab gives out.
pub record NewClientAnswers : Type 0 where
  pub admitted : Bool
  pub socket : Option ℕ
  pub slot : ℕ

abbrev pub Tunneled : Type 0
Tunneled = Outcome (UdpClients × Sends)

-- The first port of the tunnel, from the one that the packet came to; `assert!` on the ports.
unfoldable pub first_port : Endpoint → ℕ → Outcome Endpoint
first_port src offset =
    if offset == 0
    then done src
    else (if leb offset src.port then done (record src { port = src.port - offset }) else panicked)

unfoldable pub with_src : (Endpoint → UdpFlow) → Outcome Endpoint → Outcome UdpFlow
with_src f (done src) = done (f src)
with_src f panicked = panicked
with_src f undefined = undefined

unfoldable pub client_flow : UdpFlow → Outcome UdpFlow
client_flow (v4 src dst frag (some ext)) =
    with_src (λ s. v4 s dst frag (some (record ext { port_offset = 0 })))
      (first_port src ext.port_offset)
client_flow (v6 src dst (some ext)) =
    with_src (λ s. v6 s dst (some (record ext { port_offset = 0 })))
      (first_port src ext.port_offset)
client_flow _ = panicked

module _ ⦃crates : Crates⦄ where
  unfoldable pub header_sends : ℕ → SocketAddr → Result (List ℕ) → Outcome Sends
  header_sends socket target (ok bytes) = done ((socket, bytes, target) ∷ [])
  header_sends socket target (err e) = panicked

  unfoldable pub announce : Option ProxyProtocol → UdpFlow → ℕ → SocketAddr → Outcome Sends
  announce none flow socket target = done []
  announce (some proxy_protocol_v1) flow socket target = done []
  announce (some proxy_protocol_v2) flow socket target =
      header_sends socket target (write_v2_udp (from_udp_flow flow) [])

  -- `insert` into the map and the slab.
  unfoldable pub enter_client :
      UdpClients → Client → ℕ → List ℕ → SocketAddr → Outcome Sends → Tunneled
  enter_client u client slot packet target (done sends) = done (
    record u {
      virtual_client_lookup = with_key same_key u.virtual_client_lookup client.key (some slot);
      virtual_clients = u.virtual_clients ++ ((slot, client) ∷ []);
    },
    sends ++ ((client.socket, packet, target) ∷ []),
  )
  enter_client u client slot packet target panicked = panicked
  enter_client u client slot packet target undefined = undefined

  unfoldable pub with_flow :
      UdpClients
      → ℕ
      → UdpFlow
      → UdpClientKey
      → OriginResource
      → List ℕ
      → SocketAddr
      → ℕ
      → ℕ
      → Outcome UdpFlow
      → Tunneled
  with_flow u now_ms flow key origin packet target slot socket (done back) =
      enter_client u
        (record {
          id = slot;
          key = key;
          socket = socket;
          flow = back;
          from_tunnel_ts = now_ms;
          from_origin_ts = now_ms;
        })
        slot packet target (announce origin.proxy_protocol flow socket target)
  with_flow u now_ms flow key origin packet target slot socket panicked = panicked
  with_flow u now_ms flow key origin packet target slot socket undefined = undefined

  unfoldable pub with_socket :
      UdpClients
      → ℕ
      → UdpFlow
      → UdpClientKey
      → OriginResource
      → List ℕ
      → SocketAddr
      → ℕ
      → Option ℕ
      → Tunneled
  with_socket u now_ms flow key origin packet target slot none = done (u, [])
  with_socket u now_ms flow key origin packet target slot (some socket) =
      with_flow u now_ms flow key origin packet target slot socket (client_flow (flip flow))

  unfoldable pub new_client :
      UdpClients
      → ℕ
      → UdpFlow
      → UdpClientKey
      → OriginResource
      → List ℕ
      → SocketAddr
      → NewClientAnswers
      → Tunneled
  new_client u now_ms flow key origin packet target answers =
      if answers.admitted
      then with_socket u now_ms flow key origin packet target answers.slot answers.socket
      else done (u, [])

unfoldable pub known_client : UdpClients → ℕ → ℕ → List ℕ → SocketAddr → Option Client → Tunneled
known_client u now_ms slot packet target none = panicked
known_client u now_ms slot packet target (some client) = done (
  record u {
    virtual_clients = set_client slot (record client { from_tunnel_ts = now_ms }) u.virtual_clients;
  },
  (client.socket, packet, target) ∷ [],
)

module _ ⦃crates : Crates⦄ where
  unfoldable pub at_slot :
      UdpClients
      → ℕ
      → UdpFlow
      → UdpClientKey
      → OriginResource
      → List ℕ
      → SocketAddr
      → NewClientAnswers
      → Option ℕ
      → Tunneled
  at_slot u now_ms flow key origin packet target answers (some slot) =
      known_client u now_ms slot packet target (client_at slot u.virtual_clients)
  at_slot u now_ms flow key origin packet target answers none =
      new_client u now_ms flow key origin packet target answers

  unfoldable pub to_target :
      UdpClients
      → ℕ
      → UdpFlow
      → UdpFlowExtension
      → OriginResource
      → List ℕ
      → NewClientAnswers
      → OriginTarget
      → Tunneled
  to_target u now_ms flow ext origin packet answers (port (Wire.v4 ip) port_start) =
      let key : UdpClientKey = record { source_addr = flow_src flow; tunnel_id = ext.tunnel_id } in
      let target : SocketAddr = record {
        ip = Wire.v4 ip;
        port = (port_start + ext.port_offset) % 2 ^ 16;
      } in
      at_slot u now_ms flow key origin packet target answers (u.virtual_client_lookup key)
  to_target u now_ms flow ext origin packet answers _ = done (u, [])

  unfoldable pub to_origin :
      UdpClients
      → ℕ
      → UdpFlow
      → UdpFlowExtension
      → List ℕ
      → NewClientAnswers
      → Option OriginResource
      → Tunneled
  to_origin u now_ms flow ext packet answers none = done (u, [])
  to_origin u now_ms flow ext packet answers (some origin) =
      to_target u now_ms flow ext origin packet answers origin.target

  unfoldable pub with_extension :
      UdpClients → ℕ → UdpFlow → List ℕ → NewClientAnswers → Option UdpFlowExtension → Tunneled
  with_extension u now_ms flow packet answers none = done (u, [])
  with_extension u now_ms flow packet answers (some ext) =
      to_origin u now_ms flow ext packet answers (lookup u.lookup ext.tunnel_id false)

  unfoldable pub handle_tunneled_packet :
      UdpClients → ℕ → UdpFlow → List ℕ → NewClientAnswers → Tunneled
  handle_tunneled_packet u now_ms flow packet answers =
      with_extension u now_ms flow packet answers (extension flow)
