-- ===== src/Proto/Response/RoundTrip.antt =====
-- Responses are read back as they were written.
use playit_ios.Common.{arith, length}
use playit_ios.Proto.Wire.{Crates, IsU32, IsU64, IsSocketAddr}
use playit_ios.Proto.Wire.Laws.{
  Documented, RoundTrips, ReadsBack-of_Codes, Codes, Codes-bind, Codes-finish, Codes-add, Codes-u32,
  Codes-u64, u64-RoundTrips, Every, option-RoundTrips,
}
use playit_ios.Proto.Ids.{IsAgentSessionId, IsPortRange, agent_session_id, port_range}
use playit_ios.Proto.Ids.RoundTrip.{agent_session_id-RoundTrips, port_range-RoundTrips}
use playit_ios.Proto.Response.{
  AgentPortMappingFound, to_agent, AgentPortMapping, UdpChannelDetails, Pong, AgentRegistered,
  ControlResponse, pong, invalid_signature, unauthorized, request_queued, try_again_later,
  agent_registered, agent_port_mapping, udp_channel_details, found_encoding, mapping_encoding,
  details_encoding, pong_encoding, registered_encoding, control_response_encoding,
  write_control_response, read_control_response, write_found, write_mapping, write_details,
  write_pong, write_registered, response_of_num, read_found, read_mapping, read_details, read_pong,
  read_registered,
}

-- The ranges of the fields' types.
abbrev pub IsFound : AgentPortMappingFound → Type 0
IsFound (to_agent id) = IsAgentSessionId id

abbrev pub IsControlResponse : ControlResponse → Type 0
IsControlResponse (pong p) =
    IsU64 p.request_now
    × IsU64 p.server_now
    × IsU64 p.server_id
    × IsU32 p.data_center_id
    × IsSocketAddr p.client_addr
    × IsSocketAddr p.tunnel_addr
    × Every IsU64 p.session_expire_at
IsControlResponse (agent_registered r) = IsAgentSessionId r.id × IsU64 r.expires_at
IsControlResponse (agent_port_mapping m) = IsPortRange m.range × Every IsFound m.found
IsControlResponse (udp_channel_details d) = IsSocketAddr d.tunnel_addr × IsU64 (length d.token)
IsControlResponse _ = Unit {0}

module _ ⦃crates : Crates⦄ ⦃docs : Documented⦄ where
  open crates use {u64, vec_u8, socket_addr, option}

  found-RoundTrips : (f : AgentPortMappingFound) → IsFound f → RoundTrips found_encoding f
  unfolding found_encoding
  found-RoundTrips (to_agent id) h = ReadsBack-of_Codes write_found read_found (to_agent id) (
      Codes-bind _ _ _ _ (Codes-u32 1 (omega arith)) (
        Codes-bind _ _ _ _ (Codes-add agent_session_id id (agent_session_id-RoundTrips id h))
          (Codes-finish _)))

  mapping-RoundTrips :
      (m : AgentPortMapping)
      → IsControlResponse (agent_port_mapping m)
      → RoundTrips mapping_encoding m
  unfolding mapping_encoding
  mapping-RoundTrips m h = ReadsBack-of_Codes write_mapping read_mapping m (
      Codes-bind _ _ _ _ (Codes-add port_range _ (port_range-RoundTrips m.range h.0)) (
        Codes-bind _ _ _ _
          (Codes-add (option found_encoding) _
            (option-RoundTrips found_encoding IsFound found-RoundTrips m.found h.1))
          (Codes-finish _)))

  details-RoundTrips :
      (d : UdpChannelDetails)
      → IsControlResponse (udp_channel_details d)
      → RoundTrips details_encoding d
  unfolding details_encoding
  details-RoundTrips d h = ReadsBack-of_Codes write_details read_details d (
      Codes-bind _ _ _ _ (Codes-add socket_addr _ (docs.socket_addr-RoundTrips d.tunnel_addr h.0)) (
        Codes-bind _ _ _ _ (Codes-add vec_u8 _ (docs.vec_u8-RoundTrips d.token h.1))
          (Codes-finish _)))

  pong-RoundTrips : (p : Pong) → IsControlResponse (pong p) → RoundTrips pong_encoding p
  unfolding pong_encoding
  pong-RoundTrips p h = ReadsBack-of_Codes write_pong read_pong p (
      Codes-bind _ _ _ _ (Codes-u64 _ h.0) (
        Codes-bind _ _ _ _ (Codes-u64 _ h.1) (
          Codes-bind _ _ _ _ (Codes-u64 _ h.2) (
            Codes-bind _ _ _ _ (Codes-u32 _ h.3) (
              Codes-bind _ _ _ _ (Codes-add socket_addr _ (docs.socket_addr-RoundTrips _ h.4)) (
                Codes-bind _ _ _ _ (Codes-add socket_addr _ (docs.socket_addr-RoundTrips _ h.5)) (
                  Codes-bind _ _ _ _
                    (Codes-add (option u64) _
                      (option-RoundTrips u64 IsU64 u64-RoundTrips p.session_expire_at h.6))
                    (Codes-finish _))))))))

  registered-RoundTrips :
      (r : AgentRegistered)
      → IsControlResponse (agent_registered r)
      → RoundTrips registered_encoding r
  unfolding registered_encoding
  registered-RoundTrips r h = ReadsBack-of_Codes write_registered read_registered r (
      Codes-bind _ _ _ _ (Codes-add agent_session_id _ (agent_session_id-RoundTrips r.id h.0))
        (Codes-bind _ _ _ _ (Codes-u64 _ h.1) (Codes-finish _)))

  Codes-response :
      (q : ControlResponse)
      → IsControlResponse q
      → Codes (write_control_response q) read_control_response q
  unfolding write_control_response read_control_response response_of_num
  Codes-response (pong p) h =
      Codes-bind _ _ _ _ (Codes-u32 1 (omega arith))
        (Codes-bind _ _ _ _ (Codes-add pong_encoding p (pong-RoundTrips p h)) (Codes-finish _))
  Codes-response invalid_signature h =
      Codes-bind _ _ _ _ (Codes-u32 2 (omega arith)) (Codes-finish _)
  Codes-response unauthorized h = Codes-bind _ _ _ _ (Codes-u32 3 (omega arith)) (Codes-finish _)
  Codes-response request_queued h = Codes-bind _ _ _ _ (Codes-u32 4 (omega arith)) (Codes-finish _)
  Codes-response try_again_later h = Codes-bind _ _ _ _ (Codes-u32 5 (omega arith)) (Codes-finish _)
  Codes-response (agent_registered r) h = Codes-bind _ _ _ _ (Codes-u32 6 (omega arith)) (
      Codes-bind _ _ _ _ (Codes-add registered_encoding r (registered-RoundTrips r h))
        (Codes-finish _))
  Codes-response (agent_port_mapping m) h =
      Codes-bind _ _ _ _ (Codes-u32 7 (omega arith)) (
        Codes-bind _ _ _ _ (Codes-add mapping_encoding m (mapping-RoundTrips m h)) (Codes-finish _))
  Codes-response (udp_channel_details d) h =
      Codes-bind _ _ _ _ (Codes-u32 8 (omega arith)) (
        Codes-bind _ _ _ _ (Codes-add details_encoding d (details-RoundTrips d h)) (Codes-finish _))

  -- Every response whose fields are in range is written, its count is that of the bytes, and it is
  -- read back as it was.
  pub control_response-RoundTrips :
      (q : ControlResponse) → IsControlResponse q → RoundTrips control_response_encoding q
  unfolding control_response_encoding
  control_response-RoundTrips q h =
      ReadsBack-of_Codes write_control_response read_control_response q (Codes-response q h)
