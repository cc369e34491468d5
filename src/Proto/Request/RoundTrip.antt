-- ===== src/Proto/Request/RoundTrip.antt =====
-- Requests are read back as they were written; a registration as its encoding carries it.
use playit_ios.Common.{ℕ, ◌≤◌, ◌≡◌, refl, arith, some, le→leb, gt→leb, inl, inr, ◌≢◌}
use playit_ios.Proto.Wire.{Crates, ◌>>=◌, pure, add, IsU32, IsU64}
use playit_ios.Proto.Wire.Laws.{
  Documented, RoundTrips, ReadsBack, ReadsBack-of_Codes, Codes, Codes-bind, Codes-finish, Codes-add,
  u64-RoundTrips, u32-RoundTrips, Every, option-RoundTrips,
}
use playit_ios.Proto.Ids.{IsAgentSessionId, IsPortRange, agent_session_id, port_range}
use playit_ios.Proto.Ids.RoundTrip.{agent_session_id-RoundTrips, port_range-RoundTrips}
use playit_ios.Proto.Register.{AgentRegister, IsAgentRegister, agent_register_encoding, upgrade}
use playit_ios.Proto.Register.RoundTrip.{Sendable, as_read, agent_register_encoding-ReadsBack}
use playit_ios.Proto.Register.Legacy.{Codes-downgrade, downgrade}
use playit_ios.Proto.Request.{
  Ping, AgentCheckPortMapping, ControlRequest, ping, agent_register, agent_keep_alive,
  setup_udp_channel, agent_check_port_mapping, ControlRequestId, ping_v1, agent_register_v1,
  agent_keep_alive_v1, setup_udp_channel_v1, agent_check_port_mapping_v1, ping_v2,
  agent_register_v2, end, request_num, from_num, request_id, ping_encoding,
  agent_check_port_mapping_encoding, control_request_encoding, write_ping, write_check, read_ping,
  read_check, write_control_request, read_control_request, read_by_id,
}

-- The ranges of the fields' types.
abbrev pub IsControlRequest : ControlRequest → Type 0
IsControlRequest (ping p) =
    IsU64 p.now × Every IsU32 p.current_ping × Every IsAgentSessionId p.session_id
IsControlRequest (agent_register r) = IsAgentRegister r
IsControlRequest (agent_keep_alive i) = IsAgentSessionId i
IsControlRequest (setup_udp_channel i) = IsAgentSessionId i
IsControlRequest (agent_check_port_mapping c) =
    IsAgentSessionId c.agent_session_id × IsPortRange c.port_range

-- The requests that `write_to` accepts, and how a registration reads at the other end.
abbrev pub CanSend : ControlRequest → Type 0
CanSend (agent_register r) = Sendable r
CanSend _ = Unit {0}

abbrev pub received : ControlRequest → ControlRequest
received (agent_register r) = agent_register (as_read r)
received q = q

-- Ids are numbered from 1 on, without gaps, and no other number is one.
pub from_num-request_num : (id : ControlRequestId) → id ≢ end → from_num (request_num id) ≡ some id
unfolding from_num
from_num-request_num ping_v1 h = refl
from_num-request_num agent_register_v1 h = refl
from_num-request_num agent_keep_alive_v1 h = refl
from_num-request_num setup_udp_channel_v1 h = refl
from_num-request_num agent_check_port_mapping_v1 h = refl
from_num-request_num ping_v2 h = refl
from_num-request_num agent_register_v2 h = refl
from_num-request_num end h = absurd (h refl)

request_num-IsU32 : (id : ControlRequestId) → IsU32 (request_num id)
unfolding request_num
request_num-IsU32 ping_v1 = omega arith
request_num-IsU32 _ = omega arith

pub from_num-some :
    (n : ℕ) (id : ControlRequestId)
    → from_num n ≡ some id
    → (request_num id ≡ n) × (1 ≤ n) × (n ≤ 7)
unfolding from_num
from_num-some n id e = ground arith

module _ ⦃crates : Crates⦄ ⦃docs : Documented⦄ where
  open crates use {u32, u64, option}

  pub request_id-RoundTrips : (id : ControlRequestId) → id ≢ end → RoundTrips request_id id
  unfolding request_id ◌>>=◌ pure
  request_id-RoundTrips id h =
      let n = u32-RoundTrips (request_num id) (request_num-IsU32 id) in
      record {
        bytes = n.bytes;
        writes = n.writes;
        reads = λ rest. rw (n.reads rest, ◌>>=◌, from_num-request_num id h);
      }

  Codes-id : (id : ControlRequestId) → id ≢ end → Codes (add request_id id) request_id.read_from id
  Codes-id id h = Codes-add request_id id (request_id-RoundTrips id h)

  pub ping-RoundTrips : (p : Ping) → IsControlRequest (ping p) → RoundTrips ping_encoding p
  unfolding ping_encoding
  ping-RoundTrips p h = ReadsBack-of_Codes write_ping read_ping p (
      Codes-bind _ _ _ _ (Codes-add u64 _ (u64-RoundTrips _ h.0)) (
        Codes-bind _ _ _ _
          (Codes-add (option u32) _ (option-RoundTrips u32 IsU32 u32-RoundTrips _ h.1))
          (Codes-bind _ _ _ _
            (Codes-add (option agent_session_id) _ (
              option-RoundTrips agent_session_id IsAgentSessionId agent_session_id-RoundTrips _
                h.2))
            (Codes-finish _))))

  pub check-RoundTrips :
      (c : AgentCheckPortMapping)
      → IsControlRequest (agent_check_port_mapping c)
      → RoundTrips agent_check_port_mapping_encoding c
  unfolding agent_check_port_mapping_encoding
  check-RoundTrips c h = ReadsBack-of_Codes write_check read_check c (
      Codes-bind _ _ _ _ (Codes-add agent_session_id _ (agent_session_id-RoundTrips _ h.0)) (
        Codes-bind _ _ _ _ (Codes-add port_range _ (port_range-RoundTrips _ h.1)) (Codes-finish _)))

  first : (r : AgentRegister) → r.proto_version ≤ 1 → as_read r ≡ upgrade (downgrade r)
  unfolding upgrade
  first r h = ground arith

  Codes-request :
      (q : ControlRequest)
      → IsControlRequest q
      → CanSend q
      → Codes (write_control_request q) read_control_request (received q)
  unfolding write_control_request read_control_request read_by_id
  Codes-request (ping p) h s =
      Codes-bind _ _ _ _ (Codes-id ping_v2 (λ e. cc))
        (Codes-bind _ _ _ _ (Codes-add ping_encoding p (ping-RoundTrips p h)) (Codes-finish _))
  Codes-request (agent_register r) h (inl (old, small)) = rw (le→leb r.proto_version 1 old) (
      Codes-bind _ _ _ _ (Codes-id agent_register_v1 (λ e. cc))
        (Codes-bind _ _ _ _ (Codes-downgrade r h old small) (rw (first r old) (Codes-finish _))))
  Codes-request (agent_register r) h (inr (new, small)) = rw (gt→leb r.proto_version 1 new) (
      Codes-bind _ _ _ _ (Codes-id agent_register_v2 (λ e. cc)) (
        Codes-bind _ _ _ _
          (Codes-add agent_register_encoding r
            (agent_register_encoding-ReadsBack r h (inr (new, small))))
          (Codes-finish _)))
  Codes-request (agent_keep_alive i) h s =
      Codes-bind _ _ _ _ (Codes-id agent_keep_alive_v1 (λ e. cc)) (
        Codes-bind _ _ _ _ (Codes-add agent_session_id i (agent_session_id-RoundTrips i h))
          (Codes-finish _))
  Codes-request (setup_udp_channel i) h s =
      Codes-bind _ _ _ _ (Codes-id setup_udp_channel_v1 (λ e. cc)) (
        Codes-bind _ _ _ _ (Codes-add agent_session_id i (agent_session_id-RoundTrips i h))
          (Codes-finish _))
  Codes-request (agent_check_port_mapping c) h s =
      Codes-bind _ _ _ _ (Codes-id agent_check_port_mapping_v1 (λ e. cc)) (
        Codes-bind _ _ _ _ (Codes-add agent_check_port_mapping_encoding c (check-RoundTrips c h))
          (Codes-finish _))

  -- Every request whose fields are in range, and whose registration (if it is one) has its account
  -- id below 2^63 at version 0 or 1 and its version below 2^63 otherwise, is written, its count is
  -- that of the bytes, and it is read back as it was, but for a registration of version 0, which
  -- is read back at version 1.
  pub control_request-ReadsBack :
      (q : ControlRequest)
      → IsControlRequest q
      → CanSend q
      → ReadsBack control_request_encoding q (received q)
  unfolding control_request_encoding
  control_request-ReadsBack q h s =
      ReadsBack-of_Codes write_control_request read_control_request q (Codes-request q h s)
