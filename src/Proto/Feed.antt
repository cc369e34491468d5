-- ===== src/Proto/Feed.antt =====
-- packages/agent_proto/src/control_feed.rs: what a tunnel server sends to an agent.
pub mod RoundTrip
use playit_ios.Common.{ℕ, List, ◌==◌, if◌then◌else◌}
use playit_ios.Common.Io.{other}
use playit_ios.Proto.Wire.{
  Crates, MessageEncoding, Reader, Writing, ◌>>=◌, ◌>>◌, pure, fail, finish, add, encoding,
  read_uint, SocketAddr,
}
use playit_ios.Proto.Ids.{ControlRpcMessage, rpc_message}
use playit_ios.Proto.Response.{ControlResponse, control_response_encoding}

pub record ClaimInstructions : Type 0 where
  pub address : SocketAddr
  pub token : List ℕ

pub record NewClient : Type 0 where
  pub connect_addr : SocketAddr
  pub peer_addr : SocketAddr
  pub data_center_id : ℕ
  pub tunnel_id : ℕ
  pub port_offset : ℕ
  pub claim_instructions : ClaimInstructions

pub record NewClientOld : Type 0 where
  pub connect_addr : SocketAddr
  pub peer_addr : SocketAddr
  pub claim_instructions : ClaimInstructions
  pub tunnel_server_id : ℕ
  pub data_center_id : ℕ

pub data ControlFeed : Type 0 where
  response : ControlRpcMessage ControlResponse → ControlFeed
  new_client : NewClient → ControlFeed
  new_client_old : NewClientOld → ControlFeed

-- `From<NewClientOld> for NewClient`
unfoldable pub from_old : NewClientOld → NewClient
from_old c = record {
  connect_addr = c.connect_addr;
  peer_addr = c.peer_addr;
  data_center_id = c.data_center_id;
  tunnel_id = 0;
  port_offset = 0;
  claim_instructions = c.claim_instructions;
}

module _ ⦃crates : Crates⦄ where
  open crates use {u16, u32, u64, vec_u8, socket_addr}

  write_claim : ClaimInstructions → Writing
  write_claim c = do add socket_addr c.address; add vec_u8 c.token; finish

  read_claim : Reader ClaimInstructions
  read_claim = do
    a ← socket_addr.read_from
    t ← vec_u8.read_from
    pure (record { address = a; token = t })

  unfoldable pub claim_encoding : MessageEncoding ClaimInstructions
  unfolding write_claim read_claim
  claim_encoding = encoding write_claim read_claim

  write_new_client : NewClient → Writing
  write_new_client c = do
    add socket_addr c.connect_addr
    add socket_addr c.peer_addr
    add u32 c.data_center_id
    add u64 c.tunnel_id
    add u16 c.port_offset
    add claim_encoding c.claim_instructions
    finish

  read_new_client : Reader NewClient
  read_new_client = do
    a ← socket_addr.read_from
    p ← socket_addr.read_from
    d ← u32.read_from
    t ← u64.read_from
    o ← u16.read_from
    c ← claim_encoding.read_from
    pure (record {
      connect_addr = a;
      peer_addr = p;
      data_center_id = d;
      tunnel_id = t;
      port_offset = o;
      claim_instructions = c;
    })

  unfoldable pub new_client_encoding : MessageEncoding NewClient
  unfolding write_new_client read_new_client
  new_client_encoding = encoding write_new_client read_new_client

  write_new_client_old : NewClientOld → Writing
  write_new_client_old c = do
    add socket_addr c.connect_addr
    add socket_addr c.peer_addr
    add claim_encoding c.claim_instructions
    add u64 c.tunnel_server_id
    add u32 c.data_center_id
    finish

  read_new_client_old : Reader NewClientOld
  read_new_client_old = do
    a ← socket_addr.read_from
    p ← socket_addr.read_from
    c ← claim_encoding.read_from
    t ← read_uint 8
    d ← read_uint 4
    pure (record {
      connect_addr = a;
      peer_addr = p;
      claim_instructions = c;
      tunnel_server_id = t;
      data_center_id = d;
    })

  unfoldable pub new_client_old_encoding : MessageEncoding NewClientOld
  unfolding write_new_client_old read_new_client_old
  new_client_old_encoding = encoding write_new_client_old read_new_client_old

  write_control_feed : ControlFeed → Writing
  write_control_feed (response r) = do
    add u32 1
    add (rpc_message control_response_encoding) r
    finish
  write_control_feed (new_client_old c) = do add u32 2; add new_client_old_encoding c; finish
  write_control_feed (new_client c) = do add u32 3; add new_client_encoding c; finish

  feed_of_num : ℕ → Reader ControlFeed
  feed_of_num n =
      if n == 1
      then ((rpc_message control_response_encoding).read_from >>= λ r. pure (response r))
      else (if n == 2
          then (new_client_old_encoding.read_from >>= λ c. pure (new_client (from_old c)))
          else (if n == 3
              then (new_client_encoding.read_from >>= λ c. pure (new_client c))
              else fail other))

  read_control_feed : Reader ControlFeed
  read_control_feed = do n ← read_uint 4; feed_of_num n

  unfoldable pub control_feed_encoding : MessageEncoding ControlFeed
  unfolding write_control_feed read_control_feed feed_of_num
  control_feed_encoding = encoding write_control_feed read_control_feed
