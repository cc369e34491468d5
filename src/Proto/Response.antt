-- ===== src/Proto/Response.antt =====
-- packages/agent_proto/src/control_messages.rs: the responses of a tunnel server.
pub mod RoundTrip
pub mod Truncated
use playit_ios.Common.{ℕ, Option, List, ◌==◌, if◌then◌else◌}
use playit_ios.Common.Io.{other}
use playit_ios.Proto.Wire.{
  Crates, MessageEncoding, Reader, Writing, ◌>>=◌, ◌>>◌, pure, fail, finish, add, encoding,
  read_uint, SocketAddr,
}
use playit_ios.Proto.Ids.{AgentSessionId, PortRange, agent_session_id, port_range}

pub data AgentPortMappingFound : Type 0 where
  to_agent : AgentSessionId → AgentPortMappingFound

pub record AgentPortMapping : Type 0 where
  pub range : PortRange
  pub found : Option AgentPortMappingFound

pub record UdpChannelDetails : Type 0 where
  pub tunnel_addr : SocketAddr
  pub token : List ℕ

pub record Pong : Type 0 where
  pub request_now : ℕ
  pub server_now : ℕ
  pub server_id : ℕ
  pub data_center_id : ℕ
  pub client_addr : SocketAddr
  pub tunnel_addr : SocketAddr
  pub session_expire_at : Option ℕ

pub record AgentRegistered : Type 0 where
  pub id : AgentSessionId
  pub expires_at : ℕ

pub data ControlResponse : Type 0 where
  pong : Pong → ControlResponse
  invalid_signature unauthorized request_queued try_again_later : ControlResponse
  agent_registered : AgentRegistered → ControlResponse
  agent_port_mapping : AgentPortMapping → ControlResponse
  udp_channel_details : UdpChannelDetails → ControlResponse

module _ ⦃crates : Crates⦄ where
  open crates use {u32, u64, vec_u8, socket_addr, option}

  write_found : AgentPortMappingFound → Writing
  write_found (to_agent id) = do add u32 1; add agent_session_id id; finish

  found_of_num : ℕ → Reader AgentPortMappingFound
  found_of_num n =
      if n == 1 then (agent_session_id.read_from >>= λ id. pure (to_agent id)) else fail other

  read_found : Reader AgentPortMappingFound
  read_found = do n ← read_uint 4; found_of_num n

  unfoldable pub found_encoding : MessageEncoding AgentPortMappingFound
  unfolding write_found read_found found_of_num
  found_encoding = encoding write_found read_found

  write_mapping : AgentPortMapping → Writing
  write_mapping m = do add port_range m.range; add (option found_encoding) m.found; finish

  read_mapping : Reader AgentPortMapping
  read_mapping = do
    r ← port_range.read_from
    f ← (option found_encoding).read_from
    pure (record { range = r; found = f })

  unfoldable pub mapping_encoding : MessageEncoding AgentPortMapping
  unfolding write_mapping read_mapping
  mapping_encoding = encoding write_mapping read_mapping

  write_details : UdpChannelDetails → Writing
  write_details d = do add socket_addr d.tunnel_addr; add vec_u8 d.token; finish

  read_details : Reader UdpChannelDetails
  read_details = do
    a ← socket_addr.read_from
    t ← vec_u8.read_from
    pure (record { tunnel_addr = a; token = t })

  unfoldable pub details_encoding : MessageEncoding UdpChannelDetails
  unfolding write_details read_details
  details_encoding = encoding write_details read_details

  write_pong : Pong → Writing
  write_pong p = do
    add u64 p.request_now
    add u64 p.server_now
    add u64 p.server_id
    add u32 p.data_center_id
    add socket_addr p.client_addr
    add socket_addr p.tunnel_addr
    add (option u64) p.session_expire_at
    finish

  read_pong : Reader Pong
  read_pong = do
    r ← read_uint 8
    s ← read_uint 8
    i ← read_uint 8
    d ← read_uint 4
    c ← socket_addr.read_from
    t ← socket_addr.read_from
    e ← (option u64).read_from
    pure (record {
      request_now = r;
      server_now = s;
      server_id = i;
      data_center_id = d;
      client_addr = c;
      tunnel_addr = t;
      session_expire_at = e;
    })

  unfoldable pub pong_encoding : MessageEncoding Pong
  unfolding write_pong read_pong
  pong_encoding = encoding write_pong read_pong

  write_registered : AgentRegistered → Writing
  write_registered r = do add agent_session_id r.id; add u64 r.expires_at; finish

  read_registered : Reader AgentRegistered
  read_registered = do
    i ← agent_session_id.read_from
    e ← read_uint 8
    pure (record { id = i; expires_at = e })

  unfoldable pub registered_encoding : MessageEncoding AgentRegistered
  unfolding write_registered read_registered
  registered_encoding = encoding write_registered read_registered

  write_control_response : ControlResponse → Writing
  write_control_response (pong p) = do add u32 1; add pong_encoding p; finish
  write_control_response invalid_signature = do add u32 2; finish
  write_control_response unauthorized = do add u32 3; finish
  write_control_response request_queued = do add u32 4; finish
  write_control_response try_again_later = do add u32 5; finish
  write_control_response (agent_registered r) = do add u32 6; add registered_encoding r; finish
  write_control_response (agent_port_mapping m) = do add u32 7; add mapping_encoding m; finish
  write_control_response (udp_channel_details d) = do add u32 8; add details_encoding d; finish

  response_of_num : ℕ → Reader ControlResponse
  response_of_num n =
      if n == 1
      then (pong_encoding.read_from >>= λ p. pure (pong p))
      else (if n == 2
          then pure invalid_signature
          else (if n == 3
              then pure unauthorized
              else (if n == 4
                  then pure request_queued
                  else (if n == 5
                      then pure try_again_later
                      else (if n == 6
                          then (registered_encoding.read_from >>= λ r. pure (agent_registered r))
                          else (if n == 7
                              then (mapping_encoding.read_from >>= λ m. pure (agent_port_mapping m))
                              else (if n == 8
                                  then (details_encoding.read_from >>= λ d.
                                      pure (udp_channel_details d))
                                  else fail other)))))))

  read_control_response : Reader ControlResponse
  read_control_response = do n ← read_uint 4; response_of_num n

  unfoldable pub control_response_encoding : MessageEncoding ControlResponse
  unfolding write_control_response read_control_response response_of_num
  control_response_encoding = encoding write_control_response read_control_response
