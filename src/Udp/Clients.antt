-- ===== src/Udp/Clients.antt =====
-- packages/agent_core/src/network/udp/udp_clients.rs: the clients of UDP tunnels. The slab of the
-- crate slab is the list of its occupied slots, and which free slot it gives out is a parameter;
-- the hash map is a function of its key. A socket is a number; what `create_socket` and the rate
-- limiter answer are arguments, and the counts of stats.rs are left out.
pub mod Tunneled
pub mod Valid
pub mod Live
pub mod Cleared
pub mod Changed
pub mod Entered
pub mod Handled
pub mod Dispatch
pub mod Answered
use playit_ios.Common.{
  ℕ, ◌+◌, ◌-◌, ◌%◌, ◌^◌, List, [], ◌∷◌, Bool, true, false, not, ◌&&◌, ◌||◌, ◌==◌, ltb, leb,
  if◌then◌else◌, Option, none, some,
}
use playit_ios.Common.Io.{Result, ok, err}
use playit_ios.Proto.Wire.{Crates, SocketAddr, IpAddr}
use playit_ios.Proto.Wire
use playit_ios.Control.{same_addr, same_ip}
use playit_ios.Slab.{Outcome, done, panicked, undefined}
use playit_ios.Keys.{with_key}
use playit_ios.Origin.{
  OriginLookup, OriginResource, OriginTarget, ProxyProtocol, lookup, port, https, proxy_protocol_v1,
  proxy_protocol_v2,
}
use playit_ios.Proxy.{from_udp_flow, write_v2_udp}
use playit_ios.Udp.Flow.{UdpFlow, v4, v6, Endpoint, UdpFlowExtension, extension, flip}

-- `UdpFlow::src`
unfoldable pub flow_src : UdpFlow → SocketAddr
flow_src (v4 src dst frag ext) = record { ip = Wire.v4 src.ip; port = src.port }
flow_src (v6 src dst ext) = record { ip = Wire.v6 src.ip; port = src.port }

pub record UdpClientKey : Type 0 where
  pub source_addr : SocketAddr
  pub tunnel_id : ℕ

unfoldable pub same_key : UdpClientKey → UdpClientKey → Bool
same_key a b = same_addr a.source_addr b.source_addr && (a.tunnel_id == b.tunnel_id)

pub record Client : Type 0 where
  pub id : ℕ
  pub key : UdpClientKey
  pub socket : ℕ
  pub flow : UdpFlow
  pub from_tunnel_ts : ℕ
  pub from_origin_ts : ℕ

abbrev pub Clients : Type 0
Clients = List (ℕ × Client)

abbrev pub Slots : Type 0
Slots = UdpClientKey → Option ℕ

pub record UdpClients : Type 0 where
  pub lookup : OriginLookup
  pub virtual_client_lookup : Slots
  pub virtual_clients : Clients

-- What is sent: the socket, the bytes and the target.
abbrev pub Sends : Type 0
Sends = List (ℕ × List ℕ × SocketAddr)

-- A packet that a client's socket received.
pub record UdpReceivedPacket : Type 0 where
  pub rx_id : ℕ
  pub packet : List ℕ
  pub from : SocketAddr

unfoldable pub client_at : ℕ → Clients → Option Client
client_at slot [] = none
client_at slot ((s, c) ∷ rest) = if slot == s then some c else client_at slot rest

unfoldable pub set_client : ℕ → Client → Clients → Clients
set_client slot client [] = []
set_client slot client ((s, c) ∷ rest) =
    if slot == s then (s, client) ∷ rest else (s, c) ∷ set_client slot client rest

unfoldable pub stale : ℕ → Client → Bool
stale now_ms c =
    let since_origin = now_ms - c.from_origin_ts in
    let since_tunnel = now_ms - c.from_tunnel_ts in
    (ltb 60000 since_tunnel && ltb 60000 since_origin)
    || (ltb 90000 since_tunnel || ltb 90000 since_origin)

-- `unwrap` and `assert_eq!` on the slot that the map had.
unfoldable pub check_removed : Option ℕ → ℕ → Outcome (Clients × Slots) → Outcome (Clients × Slots)
check_removed none slot rest = panicked
check_removed (some removed) slot rest = if removed == slot then rest else panicked

unfoldable pub keep : ℕ × Client → Outcome (Clients × Slots) → Outcome (Clients × Slots)
keep entry (done (clients, slots)) = done (entry ∷ clients, slots)
keep entry panicked = panicked
keep entry undefined = undefined

-- `Slab::retain` with the closure of `clear_old`.
unfoldable pub retain : ℕ → Clients → Slots → Outcome (Clients × Slots)
retain now_ms [] slots = done ([], slots)
retain now_ms ((slot, c) ∷ rest) slots =
    let removed = retain now_ms rest (with_key same_key slots c.key none) in
    let kept = retain now_ms rest slots in
    if stale now_ms c then check_removed (slots c.key) slot removed else keep (slot, c) kept

unfoldable pub with_clients : UdpClients → Outcome (Clients × Slots) → Outcome UdpClients
with_clients u (done (clients, slots)) =
    done (record u { virtual_clients = clients; virtual_client_lookup = slots })
with_clients u panicked = panicked
with_clients u undefined = undefined

unfoldable pub clear_old : UdpClients → ℕ → Outcome UdpClients
clear_old u now_ms = with_clients u (retain now_ms u.virtual_clients u.virtual_client_lookup)

-- The flow back to the client from the `port_offset`-th port; sums of `u16`s wrap around.
unfoldable pub at_offset : UdpFlow → ℕ → Outcome UdpFlow
at_offset (v4 src dst frag (some ext)) offset = done (
    v4 (record src { port = (src.port + offset) % 2 ^ 16 }) dst frag
      (some (record ext { port_offset = offset })))
at_offset (v6 src dst (some ext)) offset = done (
    v6 (record src { port = (src.port + offset) % 2 ^ 16 }) dst
      (some (record ext { port_offset = offset })))
at_offset _ offset = panicked

abbrev pub Dispatched : Type 0
Dispatched = Outcome (Option (UdpFlow × List ℕ) × UdpClients)

unfoldable pub dispatched : UdpClients → List ℕ → Outcome UdpFlow → Dispatched
dispatched u packet (done flow) = done (some (flow, packet), u)
dispatched u packet panicked = panicked
dispatched u packet undefined = undefined

unfoldable pub dispatch_port :
    UdpClients → ℕ → UdpReceivedPacket → ℕ → Client → OriginResource → ℕ → Dispatched
dispatch_port u now_ms packet slot client tunnel port_start =
    if ltb packet.from.port port_start
    then done (none, u)
    else (if leb tunnel.port_count (packet.from.port - port_start)
        then done (none, u)
        else dispatched
            (record u {
              virtual_clients =
                  set_client slot (record client { from_origin_ts = now_ms }) u.virtual_clients;
            })
            packet.packet (at_offset client.flow (packet.from.port - port_start)))

unfoldable pub is_v4 : IpAddr → Bool
is_v4 (Wire.v4 n) = true
is_v4 (Wire.v6 n) = false

unfoldable pub dispatch_target :
    UdpClients → ℕ → UdpReceivedPacket → ℕ → Client → OriginResource → OriginTarget → Dispatched
dispatch_target u now_ms packet slot client tunnel (https ip http_port https_port) = done (none, u)
dispatch_target u now_ms packet slot client tunnel (port local_ip port_start) =
    if not (same_ip local_ip packet.from.ip)
    then done (none, u)
    else dispatch_port u now_ms packet slot client tunnel port_start

unfoldable pub dispatch_tunnel :
    UdpClients → ℕ → UdpReceivedPacket → ℕ → Client → Option OriginResource → Dispatched
dispatch_tunnel u now_ms packet slot client none = done (none, u)
dispatch_tunnel u now_ms packet slot client (some tunnel) =
    if not (is_v4 packet.from.ip)
    then done (none, u)
    else dispatch_target u now_ms packet slot client tunnel tunnel.target

unfoldable pub dispatch_client : UdpClients → ℕ → UdpReceivedPacket → ℕ → Option Client → Dispatched
dispatch_client u now_ms packet slot none = done (none, u)
dispatch_client u now_ms packet slot (some client) =
    if not (client.id == packet.rx_id)
    then done (none, u)
    else dispatch_tunnel u now_ms packet slot client (lookup u.lookup client.key.tunnel_id false)

-- `rx_id as u32 as usize`
unfoldable pub dispatch_origin_packet : UdpClients → ℕ → UdpReceivedPacket → Dispatched
dispatch_origin_packet u now_ms packet =
    let slot = packet.rx_id % 2 ^ 32 in
    dispatch_client u now_ms packet slot (client_at slot u.virtual_clients)
