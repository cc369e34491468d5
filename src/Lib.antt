-- ===== src/Lib.antt =====
-- The playit agent: the messages that it exchanges with the tunnel servers, its connection to one of
-- them, the UDP packets that it relays, and the tables that it keeps values in.
--
-- packages/agent_proto defines what goes over the wire. A `MessageEncoding` writes a value, answers
-- the number of bytes, and reads a value back. The agent sends a `ControlRequest` in a
-- `ControlRpcMessage` and receives `ControlFeed` messages: a `ControlResponse` to a request, or a
-- `NewClient` to connect to. A registration is signed with a keyed hash. A UDP packet ends in a
-- footer, a `UdpFlow`, that names its two ends and, in version 2, its tunnel.
-- packages/agent_core keeps values under ids in an `IdSlab`, which `KeyToId` finds by a key, and
-- counts instances in an `InstanceCount`. An `AddressSelector` finds a server, a
-- `ConnectedControl` registers with it, an `EstablishedControl` is the session, and a
-- `MaintainedControl` keeps it alive. A `UdpChannel` carries packets with their flows to and from the
-- server, and `UdpClients` gives each peer of a UDP tunnel a socket to the local service. A tunnel's
-- id leads to a local service by an `OriginLookup`, to which a `ProxyProtocolHeader` may announce the
-- client.
--
-- Files:
-- Common/       the libraries' names, Boolean tests, lists and bit masks over the native numbers,
--               and `std::io::Result` (Io).
-- Proto/Wire    `MessageEncoding`: `Reader` for `read_from`, `Writing` for the statements of a
--               `write_to`; Wire/Readers, Wire/Laws and Wire/Cut hold the rules for them.
-- Proto/Ids     packages/agent_proto/src/lib.rs and rpc.rs.
-- Proto/Register, Proto/Request, Proto/Response
--               packages/agent_proto/src/control_messages.rs: `agent_register_encoding` is the
--               implementation for `AgentRegister`, `control_request_encoding` that for
--               `ControlRequest`, and so on. Proto/Register/Signature is about `update_signature`
--               and `verify_signature`, and hmac.rs is `HmacSha256`, over the crate's hash `Mac`.
-- Proto/Feed, Proto/Raw
--               packages/agent_proto/src/control_feed.rs and raw_slice.rs.
-- Udp/Flow      packages/agent_proto/src/udp_proto.rs: `write_to` and `footer_len`; Udp/Flow/Tail
--               has `from_tail`, whose outcome `panicked` is a failed `unwrap`.
-- Control       packages/agent_core/src/agent_control: `World` is what happens around the code, by the
--               count of the calls so far (`Calls`).
-- Control/Connected, Control/Select, Control/Established, Control/Maintained
--               connected_control.rs, address_selector.rs, established_control.rs and
--               maintained_control.rs. `await_response` and `register` are the loops of
--               `ConnectedControl::authenticate`; `reauthenticate` is that of `EstablishedControl`.
-- Udp/Channel   packages/agent_core/src/network/udp/udp_channel.rs, with `Packet` of packets.rs:
--               `receive` is the round of the loop of `Task::start` for a packet.
-- Udp/Pool      packages/agent_core/src/network/udp/packets.rs: `Packets`.
-- Udp/Clients   packages/agent_core/src/network/udp/udp_clients.rs; Udp/Clients/Tunneled has
--               `handle_tunneled_packet`.
-- Slab          packages/agent_core/src/utils/id_slab.rs: entries and free slots as lists, the
--               latter from the top of the stack; the outcomes `panicked` and `undefined` are a
--               failed assertion or index, and a read of memory that nothing was written to.
-- Keys          packages/agent_core/src/utils/key_to_id.rs over Slab: the hash map is a function.
-- Count         packages/agent_core/src/utils/instance_count.rs: likewise.
-- Proxy         packages/agent_core/src/network/proxy_protocol.rs: the header of UDP packets, whose
--               outcome `panicked` is a failed `unwrap`.
-- Origin        packages/agent_core/src/network/origin_lookup.rs: the map of resources as a function;
--               `resolve_local` adds 16-bit ports with wrap-around.
-- Lan           packages/agent_core/src/network/lan_address.rs (`udp_socket`) with
--               packages/agent_core/src/utils/shuffle.rs (`shuffle`).
-- Tests/        the crates as concrete functions, and runs of the theorems.
--
-- Numbers are natural numbers with their ranges as hypotheses (`IsU64` and so on); masks are those of
-- the machine's widths, and the sum of a slab's id is taken modulo 2^64. A writer is a `Vec<u8>` and
-- a reader a `&[u8]`: a write takes all bytes, and only the end of the input makes a read fail. An IP
-- address is the number that its bytes spell, and a socket address is that with its port: the flow
-- information and the scope of an IPv6 socket address, which are 0 where one is read from a message,
-- are left out of it, and of comparisons. A field of a `NonZero` type is a number with the
-- hypothesis that it is not zero.
--
-- The control connection waits, sends, sleeps, reads the clock and asks for a key through `World`,
-- which answers each by the number of such calls before it; one of the answers is that a caller's
-- timeout drops the computation. Its loops are bounded in the code, and recurse on their bounds. The
-- sums and differences of its `u64` times wrap around, as in a release build. The crates slab and
-- governor and the sockets of `UdpClients` are arguments: the slot that is given out, whether a client
-- is admitted, and the socket that it gets.
--
-- The crates byteorder and message_encoding are the record `Crates`, and what the code relies on in
-- them is the record `Documented`: numbers are written big-endian at their width, the other
-- implementations read back what they write, and their readers look no further than a value. The
-- crate hmac is the record `Mac` with `IsMac`. Tests/Crates shows that `Documented` can hold. No
-- definition but `power_from` uses fuel, whose n steps reach a power of two that is not below n: all
-- other recursion is on the input or on a bound of the code.
--
-- Not modelled: the sockets of packages/agent_core and its TCP clients, which copy bytes between
-- sockets, and its loop, which waits on all of this at once; packages/agent_cli, packages/agent_ffi
-- and packages/ping_monitor, which are interfaces and I/O; packages/api_client, which is generated;
-- statistics; the formatting and serialising of messages.
pub mod Common
pub mod Proto
pub mod Udp
pub mod Slab
pub mod Control
pub mod Keys
pub mod Count
pub mod Proxy
pub mod Origin
pub mod Lan
pub mod Tests
