-- ===== src/Proto/Request/Truncated.antt =====
-- A request's reader takes the request and no more, so a request that is cut short is refused.
use playit_ios.Proto.Request.RoundTrip.{IsControlRequest, CanSend, control_request-ReadsBack}
use playit_ios.Proto.Wire.Cut.{CutShort, CutShort-of_Takes}
use playit_ios.Common.{Option, none, some, ℕ}
use playit_ios.Proto.Wire.{Crates}
use playit_ios.Proto.Wire.Readers.{Takes, Takes-bind, Takes-pure, Takes-fail}
use playit_ios.Proto.Wire.Laws.{Documented, u64-Takes, u32-Takes}
use playit_ios.Proto.Ids.{agent_session_id}
use playit_ios.Proto.Ids.RoundTrip.{agent_session_id-Takes, port_range-Takes}
use playit_ios.Proto.Register.RoundTrip.{agent_register_encoding-Takes}
use playit_ios.Proto.Register.Legacy.{agent_register_v1_encoding-Takes}
use playit_ios.Proto.Request.{
  ControlRequest, ControlRequestId, ping_v1, agent_register_v1, agent_keep_alive_v1,
  setup_udp_channel_v1, agent_check_port_mapping_v1, ping_v2, agent_register_v2, end, request_id,
  from_num, ping_encoding, agent_check_port_mapping_encoding, control_request_encoding, read_by_id,
  known_id,
}

module _ ⦃crates : Crates⦄ ⦃docs : Documented⦄ where
  open crates use {u32, option}

  Takes-id : (o : Option ControlRequestId) → Takes (known_id o)
  unfolding known_id
  Takes-id none = Takes-fail _
  Takes-id (some id) = Takes-pure id

  request_id-Takes : Takes request_id.read_from
  unfolding request_id
  request_id-Takes = Takes-bind _ _ u32-Takes (λ v. Takes-id (from_num v))

  ping-Takes : Takes ping_encoding.read_from
  unfolding ping_encoding
  ping-Takes = Takes-bind _ _ u64-Takes (λ n. Takes-bind _ _ (docs.option-Takes u32 u32-Takes) (λ c.
      Takes-bind _ _ (docs.option-Takes agent_session_id agent_session_id-Takes)
        (λ s. Takes-pure _)))

  check-Takes : Takes agent_check_port_mapping_encoding.read_from
  unfolding agent_check_port_mapping_encoding
  check-Takes =
      Takes-bind _ _ agent_session_id-Takes
        (λ i. Takes-bind _ _ port_range-Takes (λ r. Takes-pure _))

  read_by_id-Takes : (id : ControlRequestId) → Takes (read_by_id id)
  unfolding read_by_id
  read_by_id-Takes ping_v1 = Takes-bind _ _ u64-Takes (λ n. Takes-pure _)
  read_by_id-Takes agent_register_v1 =
      Takes-bind _ _ agent_register_v1_encoding-Takes (λ v. Takes-pure _)
  read_by_id-Takes agent_keep_alive_v1 = Takes-bind _ _ agent_session_id-Takes (λ i. Takes-pure _)
  read_by_id-Takes setup_udp_channel_v1 = Takes-bind _ _ agent_session_id-Takes (λ i. Takes-pure _)
  read_by_id-Takes agent_check_port_mapping_v1 = Takes-bind _ _ check-Takes (λ c. Takes-pure _)
  read_by_id-Takes ping_v2 = Takes-bind _ _ ping-Takes (λ p. Takes-pure _)
  read_by_id-Takes agent_register_v2 =
      Takes-bind _ _ agent_register_encoding-Takes (λ r. Takes-pure _)
  read_by_id-Takes end = Takes-fail _

  pub control_request-Takes : Takes control_request_encoding.read_from
  unfolding control_request_encoding
  control_request-Takes = Takes-bind _ _ request_id-Takes read_by_id-Takes

  -- A request in range that can be sent is written, and no proper prefix of what is written is
  -- read as a request.
  pub control_request_truncated :
      (q : ControlRequest) (k : ℕ)
      → IsControlRequest q
      → CanSend q
      → CutShort control_request_encoding q k
  control_request_truncated q k h s =
      CutShort-of_Takes control_request_encoding q k control_request-Takes
        (control_request-ReadsBack q h s)
