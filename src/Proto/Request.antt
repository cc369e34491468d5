-- ===== src/Proto/Request.antt =====
-- packages/agent_proto/src/control_messages.rs: the requests that an agent sends.
pub mod RoundTrip
pub mod Truncated
use playit_ios.Common.{ℕ, Option, none, some, leb, ltb, ◌==◌, ◌||◌, if◌then◌else◌}
use playit_ios.Common.Io.{other, invalid_data}
use playit_ios.Proto.Wire.{
  Crates, MessageEncoding, Reader, Writing, ◌>>=◌, ◌>>◌, pure, fail, finish, add, encoding,
}
use playit_ios.Proto.Ids.{AgentSessionId, PortRange, agent_session_id, port_range}
use playit_ios.Proto.Register.{
  AgentRegister, agent_register_encoding, agent_register_v1_encoding, upgrade,
}

pub record Ping : Type 0 where
  pub now : ℕ
  pub current_ping : Option ℕ
  pub session_id : Option AgentSessionId

pub record AgentCheckPortMapping : Type 0 where
  pub agent_session_id : AgentSessionId
  pub port_range : PortRange

pub data ControlRequest : Type 0 where
  ping : Ping → ControlRequest
  agent_register : AgentRegister → ControlRequest
  agent_keep_alive : AgentSessionId → ControlRequest
  setup_udp_channel : AgentSessionId → ControlRequest
  agent_check_port_mapping : AgentCheckPortMapping → ControlRequest

pub data ControlRequestId : Type 0 where
  ping_v1 agent_register_v1 agent_keep_alive_v1 setup_udp_channel_v1 agent_check_port_mapping_v1
        ping_v2 agent_register_v2 end :
      ControlRequestId

-- `self as u32`
unfoldable pub request_num : ControlRequestId → ℕ
request_num ping_v1 = 1
request_num agent_register_v1 = 2
request_num agent_keep_alive_v1 = 3
request_num setup_udp_channel_v1 = 4
request_num agent_check_port_mapping_v1 = 5
request_num ping_v2 = 6
request_num agent_register_v2 = 7
request_num end = 8

-- `transmute::<u32, ControlRequestId>`, for a number that is one of the enum's.
transmute : ℕ → ControlRequestId
transmute n =
    if n == 1
    then ping_v1
    else (if n == 2
        then agent_register_v1
        else (if n == 3
            then agent_keep_alive_v1
            else (if n == 4
                then setup_udp_channel_v1
                else (if n == 5
                    then agent_check_port_mapping_v1
                    else (if n == 6
                        then ping_v2
                        else (if n == 7 then agent_register_v2 else end))))))

unfoldable pub from_num : ℕ → Option ControlRequestId
unfolding transmute request_num
from_num n = if leb (request_num end) n || n == 0 then none else some (transmute n)

-- `ok_or_else(..)`
known_id : Option ControlRequestId → Reader ControlRequestId
known_id none = fail invalid_data
known_id (some id) = pure id

module _ ⦃crates : Crates⦄ where
  open crates use {u32, u64, option}

  unfoldable pub request_id : MessageEncoding ControlRequestId
  unfolding known_id
  request_id = record {
    write_to = λ id out. u32.write_to (request_num id) out;
    read_from = u32.read_from >>= λ v. known_id (from_num v);
  }

  write_check : AgentCheckPortMapping → Writing
  write_check c = do add agent_session_id c.agent_session_id; add port_range c.port_range; finish

  read_check : Reader AgentCheckPortMapping
  read_check = do
    i ← agent_session_id.read_from
    r ← port_range.read_from
    pure (record { agent_session_id = i; port_range = r })

  unfoldable pub agent_check_port_mapping_encoding : MessageEncoding AgentCheckPortMapping
  unfolding write_check read_check
  agent_check_port_mapping_encoding = encoding write_check read_check

  write_ping : Ping → Writing
  write_ping p = do
    add u64 p.now
    add (option u32) p.current_ping
    add (option agent_session_id) p.session_id
    finish

  read_ping : Reader Ping
  read_ping = do
    n ← u64.read_from
    c ← (option u32).read_from
    s ← (option agent_session_id).read_from
    pure (record { now = n; current_ping = c; session_id = s })

  unfoldable pub ping_encoding : MessageEncoding Ping
  unfolding write_ping read_ping
  ping_encoding = encoding write_ping read_ping

  write_control_request : ControlRequest → Writing
  write_control_request (ping p) = do add request_id ping_v2; add ping_encoding p; finish
  write_control_request (agent_register r) = do
    add request_id (if leb r.proto_version 1 then agent_register_v1 else agent_register_v2)
    add agent_register_encoding r
    finish
  write_control_request (agent_keep_alive i) = do
    add request_id agent_keep_alive_v1
    add agent_session_id i
    finish
  write_control_request (setup_udp_channel i) = do
    add request_id setup_udp_channel_v1
    add agent_session_id i
    finish
  write_control_request (agent_check_port_mapping c) = do
    add request_id agent_check_port_mapping_v1
    add agent_check_port_mapping_encoding c
    finish

  read_by_id : ControlRequestId → Reader ControlRequest
  read_by_id ping_v2 = ping_encoding.read_from >>= λ p. pure (ping p)
  read_by_id agent_register_v1 =
      agent_register_v1_encoding.read_from >>= λ v. pure (agent_register (upgrade v))
  read_by_id agent_register_v2 = agent_register_encoding.read_from >>= λ r. pure (agent_register r)
  read_by_id agent_keep_alive_v1 = agent_session_id.read_from >>= λ i. pure (agent_keep_alive i)
  read_by_id setup_udp_channel_v1 = agent_session_id.read_from >>= λ i. pure (setup_udp_channel i)
  read_by_id agent_check_port_mapping_v1 =
      agent_check_port_mapping_encoding.read_from >>= λ c. pure (agent_check_port_mapping c)
  read_by_id ping_v1 = u64.read_from >>= λ now.
      pure (ping (record { now = now; session_id = none; current_ping = none }))
  read_by_id end = fail other

  read_control_request : Reader ControlRequest
  read_control_request = do id ← request_id.read_from; read_by_id id

  unfoldable pub control_request_encoding : MessageEncoding ControlRequest
  unfolding write_control_request read_control_request read_by_id
  control_request_encoding = encoding write_control_request read_control_request
