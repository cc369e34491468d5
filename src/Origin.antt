-- ===== src/Origin.antt =====
-- packages/agent_core/src/network/origin_lookup.rs: the local service of each tunnel. The hash map
-- is a function of its key's fields.
pub mod Laws
use playit_ios.Common.{
  ℕ, ◌+◌, ◌%◌, ◌^◌, List, [], ◌∷◌, Bool, true, false, ◌&&◌, ◌==◌, leb, if◌then◌else◌, Option, none,
  some, not,
}
use playit_ios.Proto.Wire.{IpAddr, SocketAddr}
use playit_ios.Proto.Ids.{PortProto, tcp, udp, both}

pub data ProxyProtocol : Type 0 where
  proxy_protocol_v1 proxy_protocol_v2 : ProxyProtocol

pub data OriginTarget : Type 0 where
  https : IpAddr → ℕ → ℕ → OriginTarget
  port : IpAddr → ℕ → OriginTarget

pub record OriginResource : Type 0 where
  pub tunnel_id : ℕ
  pub proto : PortProto
  pub target : OriginTarget
  pub port_count : ℕ
  pub proxy_protocol : Option ProxyProtocol

-- By tunnel id and `is_tcp`.
pub record OriginLookup : Type 0 where
  pub map : ℕ → Bool → Option OriginResource

unfoldable pub same_bool : Bool → Bool → Bool
same_bool true b = b
same_bool false b = not b

-- `HashMap::insert` under a `Key`.
unfoldable pub insert : OriginLookup → ℕ → Bool → OriginResource → OriginLookup
insert l tunnel_id is_tcp res = record {
  map = λ id t. if (id == tunnel_id) && same_bool t is_tcp then some res else l.map id t;
}

unfoldable pub insert_proto : PortProto → OriginLookup → OriginResource → OriginLookup
insert_proto tcp l res = insert l res.tunnel_id true res
insert_proto udp l res = insert l res.tunnel_id false res
insert_proto both l res = insert (insert l res.tunnel_id true res) res.tunnel_id false res

unfoldable pub insert_all : OriginLookup → List OriginResource → OriginLookup
insert_all l [] = l
insert_all l (res ∷ rest) = insert_all (insert_proto res.proto l res) rest

-- `clear`, and the loop over the resources.
unfoldable pub update : OriginLookup → List OriginResource → OriginLookup
update l resources = insert_all (record { map = λ id t. none }) resources

unfoldable pub lookup : OriginLookup → ℕ → Bool → Option OriginResource
lookup l tunnel_id is_tcp = l.map tunnel_id is_tcp

-- The sum of two `u16`s wraps around.
unfoldable pub resolve_target : OriginTarget → ℕ → ℕ → Option SocketAddr
resolve_target (https ip http_port https_port) port_count port_offset =
    if port_offset == 0
    then some (record { ip = ip; port = http_port })
    else (if port_offset == 1 then some (record { ip = ip; port = https_port }) else none)
resolve_target (port ip n) port_count port_offset =
    if port_count == 0
    then some (record { ip = ip; port = n })
    else (if leb port_count port_offset
        then none
        else some (record { ip = ip; port = (n + port_offset) % 2 ^ 16 }))

unfoldable pub resolve_local : OriginResource → ℕ → Option SocketAddr
resolve_local res port_offset = resolve_target res.target res.port_count port_offset
