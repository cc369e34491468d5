-- ===== src/Proto/Ids.antt =====
-- packages/agent_proto/src/lib.rs: session ids and port ranges, and packages/agent_proto/src/rpc.rs:
-- a message with its request id.
pub mod RoundTrip
use playit_ios.Common.{ℕ, if◌then◌else◌, ◌==◌}
use playit_ios.Common.Io.{other}
use playit_ios.Proto.Wire.{
  Crates, MessageEncoding, Reader, Writing, ◌>>=◌, ◌>>◌, pure, fail, finish, add, encoding,
  read_uint, write_uint, IpAddr, IsIpAddr, IsU16, IsU64,
}

pub record AgentSessionId : Type 0 where
  pub session_id : ℕ
  pub account_id : ℕ
  pub agent_id : ℕ

pub data PortProto : Type 0 where
  both tcp udp : PortProto

pub record PortRange : Type 0 where
  pub ip : IpAddr
  pub port_start : ℕ
  pub port_end : ℕ
  pub port_proto : PortProto

pub record ControlRpcMessage (T : Type 0) : Type 0 where
  pub request_id : ℕ
  pub content : T

abbrev pub IsAgentSessionId : AgentSessionId → Type 0
IsAgentSessionId id = IsU64 id.session_id × IsU64 id.account_id × IsU64 id.agent_id

abbrev pub IsPortRange : PortRange → Type 0
IsPortRange r = IsIpAddr r.ip × IsU16 r.port_start × IsU16 r.port_end

port_proto_num : PortProto → ℕ
port_proto_num tcp = 1
port_proto_num udp = 2
port_proto_num both = 3

module _ ⦃crates : Crates⦄ where
  open crates use {u64, ip_addr}

  write_agent_session_id : AgentSessionId → Writing
  write_agent_session_id id = do
    add u64 id.session_id
    add u64 id.account_id
    add u64 id.agent_id
    finish

  read_agent_session_id : Reader AgentSessionId
  read_agent_session_id = do
    s ← read_uint 8
    a ← read_uint 8
    g ← read_uint 8
    pure (record { session_id = s; account_id = a; agent_id = g })

  unfoldable pub agent_session_id : MessageEncoding AgentSessionId
  unfolding write_agent_session_id read_agent_session_id
  agent_session_id = encoding write_agent_session_id read_agent_session_id

  -- `out.write_u8(..)?; Ok(1)`
  write_port_proto : PortProto → Writing
  unfolding port_proto_num
  write_port_proto p (sum, out) = (write_uint 1 (port_proto_num p) >> finish) (1, out)

  port_proto_of_num : ℕ → Reader PortProto
  port_proto_of_num n =
      if n == 1
      then pure tcp
      else (if n == 2 then pure udp else (if n == 3 then pure both else fail other))

  read_port_proto : Reader PortProto
  unfolding port_proto_of_num
  read_port_proto = do n ← read_uint 1; port_proto_of_num n

  unfoldable pub port_proto : MessageEncoding PortProto
  unfolding write_port_proto read_port_proto
  port_proto = encoding write_port_proto read_port_proto

  write_port_range : PortRange → Writing
  write_port_range r = do
    add ip_addr r.ip
    write_uint 2 r.port_start
    write_uint 2 r.port_end
    add port_proto r.port_proto
    finish

  read_port_range : Reader PortRange
  read_port_range = do
    a ← ip_addr.read_from
    s ← read_uint 2
    e ← read_uint 2
    p ← port_proto.read_from
    pure (record { ip = a; port_start = s; port_end = e; port_proto = p })

  -- `len` starts at 4, for the two ports.
  unfoldable pub port_range : MessageEncoding PortRange
  unfolding write_port_range read_port_range
  port_range = record {
    write_to = λ r out. write_port_range r (4, out);
    read_from = read_port_range;
  }

  module _ {T : Type 0} (content : MessageEncoding T) where
    write_rpc_message : ControlRpcMessage T → Writing
    write_rpc_message m = do add u64 m.request_id; add content m.content; finish

    read_rpc_message : Reader (ControlRpcMessage T)
    read_rpc_message = do
      i ← read_uint 8
      c ← content.read_from
      pure (record { request_id = i; content = c })

    unfoldable pub rpc_message : MessageEncoding (ControlRpcMessage T)
    unfolding write_rpc_message read_rpc_message
    rpc_message = encoding write_rpc_message read_rpc_message
