-- ===== src/Tests/Proto.antt =====
-- Messages of packages/agent_proto through the theorems on their encodings.
use playit_ios.Proto.Wire.Cut.{CutShort}
use playit_ios.Proto.Feed.RoundTrip.{control_feed-ReadsBack, control_feed_truncated, IsNewClientOld}
use playit_ios.Proto.Feed.{
  control_feed_encoding, NewClientOld, new_client_old, new_client, from_old,
}
use playit_ios.Proto.Response.Truncated.{control_response_truncated}
use playit_ios.Proto.Response.RoundTrip.{control_response-RoundTrips}
use playit_ios.Proto.Response.{control_response_encoding, Pong, pong}
use playit_ios.Proto.Request.Truncated.{control_request_truncated}
use playit_ios.Proto.Request.RoundTrip.{control_request-ReadsBack}
use playit_ios.Proto.Request.{control_request_encoding, agent_register}
use playit_ios.Proto.Register.RoundTrip.{agent_register_encoding-ReadsBack}
use playit_ios.Proto.Register.{IsAgentRegister}
use playit_ios.Common.{ℕ, zero, suc, refl, arith, List, [], ◌∷◌, some, inl, inr, ◌^◌, ◌-◌, ◌+◌, suc}
use playit_ios.Proto.Wire.{IsU64, SocketAddr, v4, v6}
use playit_ios.Proto.Wire.Laws.{ReadsBack, RoundTrips}
use playit_ios.Proto.Ids.{AgentSessionId, PortRange, udp}
use playit_ios.Proto.Register.{AgentRegister, agent_register_encoding}
use playit_ios.Tests.Crates.{test_crates, test_docs}

abbrev pub session : AgentSessionId
session = record { session_id = 1; account_id = 2; agent_id = 2 ^ 64 - 1 }

abbrev pub address : SocketAddr
address = record { ip = v4 0x7f000001; port = 5523 }

abbrev pub address6 : SocketAddr
address6 = record { ip = v6 1; port = 0 }

abbrev pub zeros : ℕ → List ℕ
zeros zero = []
zeros (suc n) = 0 ∷ zeros n

abbrev pub register : AgentRegister
register = record {
  proto_version = 2;
  account_id = 2 ^ 63 + 5;
  agent_id = 7;
  agent_version = 8;
  timestamp = 9;
  client_addr = address;
  tunnel_addr = address6;
  signature = zeros 32;
}

abbrev old_register : AgentRegister
old_register = record register { proto_version = 0; account_id = 6 }

abbrev pub marked_register : AgentRegister
marked_register = record register { proto_version = 1 }

-- The register with another version and account.
with_ids-IsAgentRegister :
    (version account : ℕ)
    → IsU64 version
    → IsU64 account
    → IsAgentRegister (record register { proto_version = version; account_id = account })
with_ids-IsAgentRegister version account h g = record {
  proto_version = h;
  account_id = g;
  agent_id = omega arith;
  agent_version = omega arith;
  timestamp = omega arith;
  client_addr = (omega arith, omega arith);
  tunnel_addr = (omega arith, omega arith);
  signature = refl;
}

pub register-IsAgentRegister : IsAgentRegister register
register-IsAgentRegister = with_ids-IsAgentRegister 2 (2 ^ 63 + 5) (omega arith) (omega arith)

old_register-IsAgentRegister : IsAgentRegister old_register
old_register-IsAgentRegister = with_ids-IsAgentRegister 0 6 (omega arith) (omega arith)

pub marked_register-IsAgentRegister : IsAgentRegister marked_register
marked_register-IsAgentRegister =
    with_ids-IsAgentRegister 1 (2 ^ 63 + 5) (omega arith) (omega arith)

abbrev ports : PortRange
ports = record { ip = v4 1; port_start = 80; port_end = 81; port_proto = udp }

agent_register_encoding-ReadsBack_example :
    ReadsBack (agent_register_encoding ⦃crates = test_crates⦄) register register
agent_register_encoding-ReadsBack_example =
    agent_register_encoding-ReadsBack ⦃crates = test_crates⦄ ⦃docs = test_docs⦄ register
      register-IsAgentRegister (inr (omega arith, omega arith))

control_request-ReadsBack_example :
    ReadsBack
      (control_request_encoding ⦃crates = test_crates⦄)
      (agent_register old_register)
      (agent_register (record old_register { proto_version = 1 }))
control_request-ReadsBack_example =
    control_request-ReadsBack ⦃crates = test_crates⦄ ⦃docs = test_docs⦄
      (agent_register old_register) old_register-IsAgentRegister (inl (omega arith, omega arith))

control_request_truncated_example :
    CutShort (control_request_encoding ⦃crates = test_crates⦄) (agent_register register) 40
control_request_truncated_example =
    control_request_truncated ⦃crates = test_crates⦄ ⦃docs = test_docs⦄ (agent_register register) 40
      register-IsAgentRegister (inr (omega arith, omega arith))

abbrev pub pong_value : Pong
pong_value = record {
  request_now = 1;
  server_now = 2;
  server_id = 3;
  data_center_id = 4;
  client_addr = address;
  tunnel_addr = address6;
  session_expire_at = some 5;
}

control_response-RoundTrips_example :
    RoundTrips (control_response_encoding ⦃crates = test_crates⦄) (pong pong_value)
control_response-RoundTrips_example =
    control_response-RoundTrips ⦃crates = test_crates⦄ ⦃docs = test_docs⦄ (pong pong_value) (
      omega arith,
      omega arith,
      omega arith,
      omega arith,
      (omega arith, omega arith),
      (omega arith, omega arith),
      omega arith,
    )

control_response_truncated_example :
    CutShort (control_response_encoding ⦃crates = test_crates⦄) (pong pong_value) 20
control_response_truncated_example =
    control_response_truncated ⦃crates = test_crates⦄ ⦃docs = test_docs⦄ (pong pong_value) 20 (
      omega arith,
      omega arith,
      omega arith,
      omega arith,
      (omega arith, omega arith),
      (omega arith, omega arith),
      omega arith,
    )

abbrev old_client : NewClientOld
old_client = record {
  connect_addr = address;
  peer_addr = address6;
  claim_instructions = record { address = address; token = 1 ∷ 2 ∷ [] };
  tunnel_server_id = 3;
  data_center_id = 4;
}

old_client-IsNewClientOld : IsNewClientOld old_client
old_client-IsNewClientOld = (
  (omega arith, omega arith),
  (omega arith, omega arith),
  omega arith,
  omega arith,
  ((omega arith, omega arith), omega arith),
)

control_feed-ReadsBack_example :
    ReadsBack
      (control_feed_encoding ⦃crates = test_crates⦄)
      (new_client_old old_client)
      (new_client (from_old old_client))
control_feed-ReadsBack_example =
    control_feed-ReadsBack ⦃crates = test_crates⦄ ⦃docs = test_docs⦄ (new_client_old old_client)
      old_client-IsNewClientOld

control_feed_truncated_example :
    CutShort (control_feed_encoding ⦃crates = test_crates⦄) (new_client_old old_client) 5
control_feed_truncated_example =
    control_feed_truncated ⦃crates = test_crates⦄ ⦃docs = test_docs⦄ (new_client_old old_client) 5
      old_client-IsNewClientOld
