-- ===== src/Proxy.antt =====
-- packages/agent_core/src/network/proxy_protocol.rs: the header of a UDP packet in version 2 of the
-- proxy protocol. An address is the number that its bytes spell.
pub mod RoundTrip
use playit_ios.Common.{
  ℕ, ◌+◌, List, [], ◌∷◌, Bool, true, false, ◌&&◌, ◌==◌, if◌then◌else◌, Option, none, some,
}
use playit_ios.Common.Io.{Result, ok, err}
use playit_ios.Proto.Wire.{
  Crates, Reader, Writing, ◌>>=◌, ◌>>◌, pure, add_raw, read_uint, read_exact,
}
use playit_ios.Udp.Flow.{UdpFlow, v4, v6}

pub record Ends : Type 0 where
  pub client_ip : ℕ
  pub proxy_ip : ℕ
  pub client_port : ℕ
  pub proxy_port : ℕ

pub data ProxyProtocolHeader : Type 0 where
  af_inet af_inet6 : Ends → ProxyProtocolHeader

unfoldable pub from_udp_flow : UdpFlow → ProxyProtocolHeader
from_udp_flow (v4 src dst frag ext) = af_inet (record {
  client_ip = src.ip;
  proxy_ip = dst.ip;
  client_port = src.port;
  proxy_port = dst.port;
})
from_udp_flow (v6 src dst ext) = af_inet6 (record {
  client_ip = src.ip;
  proxy_ip = dst.ip;
  client_port = src.port;
  proxy_port = dst.port;
})

-- `PROXY_PROTOCOL_V2_HEADER`
abbrev pub v2_header : List ℕ
v2_header =
    0x0d ∷ 0x0a ∷ 0x0d ∷ 0x0a ∷ 0x00 ∷ 0x0d ∷ 0x0a ∷ 0x51 ∷ 0x55 ∷ 0x49 ∷ 0x54 ∷ 0x0a ∷ 0x21 ∷ []

unfoldable pub same_bytes : List ℕ → List ℕ → Bool
same_bytes [] [] = true
same_bytes [] (y ∷ ys) = false
same_bytes (x ∷ xs) [] = false
same_bytes (x ∷ xs) (y ∷ ys) = (x == y) && same_bytes xs ys

-- `Some(header)`, `None`, and a panic of `unwrap`.
pub data HeaderParsed : Type 0 where
  header : ProxyProtocolHeader → HeaderParsed
  refused panicked : HeaderParsed

unfoldable pub unwrapped : Result (Option ProxyProtocolHeader × List ℕ) → HeaderParsed
unwrapped (ok (some h, rest)) = header h
unwrapped (ok (none, rest)) = refused
unwrapped (err e) = panicked

module _ ⦃crates : Crates⦄ where
  open crates use {to_bytes}

  -- The length, and the ends with addresses of `w` bytes.
  unfoldable pub write_ends : ℕ → ℕ → ℕ → Ends → Writing
  write_ends family size w e = do
    add_raw (to_bytes 1 family)
    add_raw (to_bytes 2 size)
    add_raw (to_bytes w e.client_ip)
    add_raw (to_bytes w e.proxy_ip)
    add_raw (to_bytes 2 e.client_port)
    add_raw (to_bytes 2 e.proxy_port)

  unfoldable pub write_header : ProxyProtocolHeader → Writing
  write_header (af_inet e) = do add_raw v2_header; write_ends 0x12 12 4 e
  write_header (af_inet6 e) = do add_raw v2_header; write_ends 0x22 36 16 e

  -- The sum is not part of the answer.
  unfoldable pub write_v2_udp : ProxyProtocolHeader → List ℕ → Result (List ℕ)
  write_v2_udp h out = elim (write_header h (0, out)) [ ok p ↦ ok p.1 | err e ↦ err e ]

  unfoldable pub read_ends : ℕ → Reader Ends
  read_ends w = do
    client_ip ← read_uint w
    proxy_ip ← read_uint w
    client_port ← read_uint 2
    proxy_port ← read_uint 2
    pure (record {
      client_ip = client_ip;
      proxy_ip = proxy_ip;
      client_port = client_port;
      proxy_port = proxy_port;
    })

  -- The reads from `slab`.
  unfoldable pub read_slab :
      ℕ → ℕ → (Ends → ProxyProtocolHeader) → Reader (Option ProxyProtocolHeader)
  read_slab size w make = read_uint 2 >>= λ n.
      if n == size then (read_ends w >>= λ e. pure (some (make e))) else pure none

  unfoldable pub parse_slab : ℕ → Reader (Option ProxyProtocolHeader) → List ℕ → HeaderParsed
  parse_slab n r src = elim (read_exact n src) [
    | ok (slab, rest) ↦ unwrapped (r slab)
    | err e ↦ refused
  ]

  unfoldable pub parse_proto : ℕ → List ℕ → HeaderParsed
  parse_proto proto_type src =
      if proto_type == 0x12
      then parse_slab 14 (read_slab 12 4 af_inet) src
      else (if proto_type == 0x22 then parse_slab 38 (read_slab 36 16 af_inet6) src else refused)

  unfoldable pub parse_type : List ℕ → HeaderParsed
  parse_type src = elim (read_uint 1 src) [
    | ok (proto_type, rest) ↦ parse_proto proto_type rest
    | err e ↦ refused
  ]

  unfoldable pub parse_v2_udp : List ℕ → HeaderParsed
  parse_v2_udp src = elim (read_exact 13 src) [
    | ok (front, rest) ↦ if same_bytes front v2_header then parse_type rest else refused
    | err e ↦ refused
  ]
