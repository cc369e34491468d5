-- ===== src/Proto/Ids/RoundTrip.antt =====
-- Ids, port ranges and framed messages are read back as they were written.
use playit_ios.Common.{
  ℕ, ◌≡◌, refl, List, ◌++◌, arith, length, length-append, [], append-nil, append_assoc, ◌+◌,
}
use playit_ios.Common.Io.{ok, ok_pair}
use playit_ios.Proto.Wire.{Crates, MessageEncoding, ◌>>◌, finish, add, write_uint, IsU64}
use playit_ios.Proto.Wire.Readers.{
  Takes, Takes-bind, Takes-pure, takes, Reads, Reads-bind, Reads-pure, Takes-read_uint,
}
use playit_ios.Proto.Wire.Laws.{
  Documented, RoundTrips, Codes-bind, Codes-finish, Codes-add, Codes-u64, ReadsBack-of_Codes,
  Reads-read_uint,
}
use playit_ios.Proto.Ids.{
  AgentSessionId, PortProto, PortRange, ControlRpcMessage, IsAgentSessionId, IsPortRange, tcp, udp,
  both, write_agent_session_id, read_agent_session_id, agent_session_id, port_proto, port_range,
  rpc_message, port_proto_num, read_port_proto, write_rpc_message, read_rpc_message,
  write_port_range,
}

module _ ⦃crates : Crates⦄ ⦃docs : Documented⦄ where
  pub agent_session_id-RoundTrips :
      (id : AgentSessionId) → IsAgentSessionId id → RoundTrips agent_session_id id
  unfolding agent_session_id
  agent_session_id-RoundTrips id h =
      ReadsBack-of_Codes write_agent_session_id read_agent_session_id id (
        Codes-bind _ _ _ _ (Codes-u64 _ h.0) (
          Codes-bind _ _ _ _ (Codes-u64 _ h.1)
            (Codes-bind _ _ _ _ (Codes-u64 _ h.2) (Codes-finish _))))

  pub agent_session_id-Takes : Takes agent_session_id.read_from
  unfolding agent_session_id
  agent_session_id-Takes = search takes depth 9

  Reads-port_proto :
      (p : PortProto) → Reads read_port_proto (crates.to_bytes 1 (port_proto_num p) ++ []) p
  unfolding read_port_proto port_proto_num
  Reads-port_proto tcp = Reads-bind _ _ _ _ (Reads-read_uint 1 1 (omega arith)) (Reads-pure _)
  Reads-port_proto udp = Reads-bind _ _ _ _ (Reads-read_uint 1 2 (omega arith)) (Reads-pure _)
  Reads-port_proto both = Reads-bind _ _ _ _ (Reads-read_uint 1 3 (omega arith)) (Reads-pure _)

  pub port_proto-RoundTrips : (p : PortProto) → RoundTrips port_proto p
  unfolding port_proto write_uint ◌>>◌ finish
  port_proto-RoundTrips p = record {
    bytes = crates.to_bytes 1 (port_proto_num p) ++ [];
    writes = λ out. rw (append-nil, docs.length-to_bytes 1 (port_proto_num p));
    reads = Reads-port_proto p;
  }

  pub port_proto-Takes : Takes port_proto.read_from
  unfolding port_proto
  port_proto-Takes = search takes depth 9

  port_range_writes :
      (r : PortRange) (a : RoundTrips crates.ip_addr r.ip) (p : RoundTrips port_proto r.port_proto)
      (s e out : List ℕ)
      → s ≡ crates.to_bytes 2 r.port_start
      → e ≡ crates.to_bytes 2 r.port_end
      → write_port_range r (4, out)
        ≡ ok (
          length (a.bytes ++ (s ++ (e ++ (p.bytes ++ [])))),
          out ++ (a.bytes ++ (s ++ (e ++ (p.bytes ++ [])))),
        )
  unfolding write_port_range add write_uint finish ◌>>◌
  port_range_writes r a p s e out hs he =
      rw
        (
          a.writes out,
          ◌>>◌,
          p.writes (
              ((out ++ a.bytes) ++ crates.to_bytes 2 r.port_start) ++ crates.to_bytes 2 r.port_end),
        )
        (ok_pair (simp (hs, he, length-append, append-nil, docs.length-to_bytes) (omega arith))
          (simp (hs, he, append-nil, append_assoc)))

  -- A port range in range is written and read back as it was, and its count is that of the bytes.
  pub port_range-RoundTrips : (r : PortRange) → IsPortRange r → RoundTrips port_range r
  unfolding port_range
  port_range-RoundTrips r h =
      let a = docs.ip_addr-RoundTrips r.ip h.0 in
      let p = port_proto-RoundTrips r.port_proto in
      record {
        bytes =
            a.bytes
            ++ (crates.to_bytes 2 r.port_start
                ++ (crates.to_bytes 2 r.port_end ++ (p.bytes ++ [])));
        writes = λ out. port_range_writes r a p _ _ out refl refl;
        reads = Reads-bind _ _ _ _ a.reads (
            Reads-bind _ _ _ _ (Reads-read_uint 2 r.port_start h.1) (
              Reads-bind _ _ _ _ (Reads-read_uint 2 r.port_end h.2)
                (Reads-bind _ _ _ _ p.reads (Reads-pure r))));
      }

  pub port_range-Takes : Takes port_range.read_from
  unfolding port_range
  port_range-Takes = Takes-bind _ _ docs.ip_addr-Takes (λ a.
      Takes-bind _ _ (Takes-read_uint 2) (λ s.
        Takes-bind _ _ (Takes-read_uint 2)
          (λ e. Takes-bind _ _ port_proto-Takes (λ p. Takes-pure _))))

  module _ {T : Type 0} (content : MessageEncoding T) where
    -- A framed message survives the trip if its content does.
    pub rpc_message-RoundTrips :
        (m : ControlRpcMessage T)
        → IsU64 m.request_id
        → RoundTrips content m.content
        → RoundTrips (rpc_message content) m
    unfolding rpc_message
    rpc_message-RoundTrips m h g =
        ReadsBack-of_Codes (write_rpc_message content) (read_rpc_message content) m (
          Codes-bind _ _ _ _ (Codes-u64 _ h)
            (Codes-bind _ _ _ _ (Codes-add content _ g) (Codes-finish _)))

    -- What is written is the id and then the content.
    pub rpc_message-written :
        (m : ControlRpcMessage T) {n : ℕ} {out : List ℕ}
        → IsU64 m.request_id
        → content.write_to m.content (crates.to_bytes 8 m.request_id) ≡ ok (n, out)
        → (rpc_message content).write_to m [] ≡ ok (8 + n, out)
    unfolding rpc_message write_rpc_message ◌>>◌ add finish
    rpc_message-written m h e = rw (docs.u64_writes m.request_id [] h, e, add, ◌>>◌, finish) refl

    pub rpc_message-Takes : Takes content.read_from → Takes (rpc_message content).read_from
    unfolding rpc_message
    rpc_message-Takes h = search takes depth 9
