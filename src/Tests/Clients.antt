-- ===== src/Tests/Clients.antt =====
-- A client of a UDP tunnel: it enters, answers, and goes.
use playit_ios.Common.{ℕ, ◌≡◌, ◌↔◌, refl, arith, [], ◌∷◌, true, false, some, none}
use playit_ios.Proto.Wire.{v4}
use playit_ios.Proto.Ids.{udp}
use playit_ios.Slab.{done}
use playit_ios.Origin.{OriginResource, lookup, port, proxy_protocol_v2}
use playit_ios.Udp.Flow
use playit_ios.Udp.Flow.{UdpFlow, extension}
use playit_ios.Udp.Clients.{
  UdpClients, same_key, UdpReceivedPacket, Client, client_at, stale, clear_old,
  dispatch_origin_packet, is_v4,
}
use playit_ios.Udp.Clients.Tunneled.{NewClientAnswers, handle_tunneled_packet}
use playit_ios.Udp.Clients.Valid.{Valid}
use playit_ios.Keys.{with_key}
use playit_ios.Udp.Clients.Entered.{enter-Valid}
use playit_ios.Udp.Clients.Cleared.{clear_old-Valid}
use playit_ios.Udp.Clients.Handled.{handle_tunneled_packet-Agrees, Agrees}
use playit_ios.Udp.Clients.Dispatch.{dispatch_origin_packet-Dispatches, Dispatches}
use playit_ios.Udp.Clients.Answered.{Answers, dispatch_origin_packet-Answers}
use playit_ios.Tests.Crates.{test_crates, test_docs}
use playit_ios.Tests.Flow.{here, there}

abbrev service : OriginResource
service = record {
  tunnel_id = 4;
  proto = udp;
  target = port (v4 0x7f000001) 9000;
  port_count = 3;
  proxy_protocol = some proxy_protocol_v2;
}

abbrev no_clients : UdpClients
no_clients = record {
  lookup = record { map = λ id t. some service };
  virtual_client_lookup = λ key. none;
  virtual_clients = [];
}

no_clients-Valid : Valid no_clients.virtual_client_lookup no_clients.virtual_clients
unfolding client_at
no_clients-Valid = record {
  apart = tt;
  found = λ slot c e. cc;
  back = λ key slot e. cc;
  extended = λ slot c e. cc;
}

abbrev tunnel_flow : UdpFlow
tunnel_flow =
    Flow.v4 here there none (some (record { client_server_id = 3; tunnel_id = 4; port_offset = 2 }))

abbrev answers : NewClientAnswers
answers = record { admitted = true; socket = some 7; slot = 0 }

handle_tunneled_packet-Agrees_example :
    Agrees
      (handle_tunneled_packet ⦃crates = test_crates⦄ no_clients 10 tunnel_flow (1 ∷ 2 ∷ []) answers)
unfolding client_at
handle_tunneled_packet-Agrees_example =
    handle_tunneled_packet-Agrees ⦃crates = test_crates⦄ ⦃docs = test_docs⦄ no_clients 10
      tunnel_flow (1 ∷ 2 ∷ []) answers no_clients-Valid refl
      (
        (omega arith, omega arith),
        (omega arith, omega arith),
        tt,
        (omega arith, omega arith, omega arith, omega arith, omega arith),
      )
      (omega arith)

abbrev client : Client
client = record {
  id = 0;
  key = record { source_addr = record { ip = v4 5; port = 6 }; tunnel_id = 4 };
  socket = 7;
  flow = tunnel_flow;
  from_tunnel_ts = 10;
  from_origin_ts = 70;
}

abbrev one_client : UdpClients
one_client = record no_clients {
  virtual_client_lookup = with_key same_key (λ key. none) client.key (some 0);
  virtual_clients = (0, client) ∷ [];
}

one_client-Valid : Valid one_client.virtual_client_lookup one_client.virtual_clients
unfolding client_at extension
one_client-Valid =
    enter-Valid 0 client (λ key. none) [] no_clients-Valid refl refl
      (record { client_server_id = 3; tunnel_id = 4; port_offset = 2 }, refl)

clear_old-Valid_example :
    (u : UdpClients) × (clear_old one_client 60080 ≡ done u)
    × Valid u.virtual_client_lookup u.virtual_clients
    × ((slot : ℕ) (c : Client)
        → (client_at slot u.virtual_clients ≡ some c)
          ↔ ((client_at slot one_client.virtual_clients ≡ some c) × (stale 60080 c ≡ false)))
clear_old-Valid_example = clear_old-Valid 60080 one_client one_client-Valid

abbrev reply : UdpReceivedPacket
reply = record { rx_id = 0; packet = 1 ∷ 2 ∷ []; from = record { ip = v4 0x7f000001; port = 9001 } }

dispatch_origin_packet-Dispatches_example :
    Dispatches one_client reply (dispatch_origin_packet one_client 80 reply)
dispatch_origin_packet-Dispatches_example =
    dispatch_origin_packet-Dispatches one_client 80 reply one_client-Valid

dispatch_origin_packet-Answers_example :
    Answers one_client 80 reply client service (dispatch_origin_packet one_client 80 reply)
unfolding extension client_at lookup is_v4
dispatch_origin_packet-Answers_example =
    dispatch_origin_packet-Answers one_client 80 reply client
      (record { client_server_id = 3; tunnel_id = 4; port_offset = 2 }) service (v4 0x7f000001) 9000
      refl refl (omega arith) (omega arith) refl refl refl refl
