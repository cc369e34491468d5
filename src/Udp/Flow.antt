-- ===== src/Udp/Flow.antt =====
-- packages/agent_proto/src/udp_proto.rs: the flow of a packet, written behind its payload. An
-- address is the number that its bytes spell. Where an `unwrap` would panic the model says so.
pub mod Write
pub mod Tail
use playit_ios.Common.{
  ℕ, ◌+◌, ◌-◌, List, ◌++◌, Bool, true, false, Option, none, some, length, take, drop, ltb, leb,
  ◌==◌, if◌then◌else◌, max, [],
}
use playit_ios.Common.Io.{Result, ok, err}
use playit_ios.Proto.Wire.{Crates, Reader, ◌>>=◌, pure, read_uint}

abbrev pub flow_4_footer_v1 : ℕ
flow_4_footer_v1 = 0x5cb867cf788173b2

abbrev pub flow_6_footer_v1 : ℕ
flow_6_footer_v1 = 0x6668676f68616366

abbrev pub flow_4_footer_v2 : ℕ
flow_4_footer_v2 = 0x5cb867cf78817399

abbrev pub flow_6_footer_v2 : ℕ
flow_6_footer_v2 = 0x6cb667cf78817369

abbrev pub udp_channel_establish_id : ℕ
udp_channel_establish_id = 0xd01fe6830ddce781

abbrev pub ext_len : ℕ
ext_len = 18

abbrev pub ip4_len_v1 : ℕ
ip4_len_v1 = 20

abbrev pub ip4_len_v2_without_frag : ℕ
ip4_len_v2_without_frag = 20 + ext_len + 2

abbrev pub ip4_len_v2_with_frag : ℕ
ip4_len_v2_with_frag = ip4_len_v2_without_frag + 3

abbrev pub ip6_len_v1 : ℕ
ip6_len_v1 = 48

abbrev pub ip6_len_v2 : ℕ
ip6_len_v2 = ip6_len_v1 - 4 + ext_len

-- `SocketAddrV4`, and the pair `(Ipv6Addr, u16)`.
pub record Endpoint : Type 0 where
  pub ip : ℕ
  pub port : ℕ

pub record UdpFlowExtension : Type 0 where
  pub client_server_id : ℕ
  pub tunnel_id : ℕ
  pub port_offset : ℕ

pub record FragmentInfo : Type 0 where
  pub packet_id : ℕ
  pub frag_offset : ℕ
  pub has_more : Bool

pub data UdpFlow : Type 0 where
  v4 : Endpoint → Endpoint → Option FragmentInfo → Option UdpFlowExtension → UdpFlow
  v6 : Endpoint → Endpoint → Option UdpFlowExtension → UdpFlow

unfoldable pub extension : UdpFlow → Option UdpFlowExtension
extension (v4 src dst frag ext) = ext
extension (v6 src dst ext) = ext

unfoldable pub flip : UdpFlow → UdpFlow
flip (v4 src dst frag ext) = v4 dst src frag ext
flip (v6 src dst ext) = v6 dst src ext

unfoldable pub footer_len : UdpFlow → ℕ
footer_len (v4 src dst frag none) = ip4_len_v1
footer_len (v4 src dst (some f) (some e)) = ip4_len_v2_with_frag
footer_len (v4 src dst none (some e)) = ip4_len_v2_without_frag
footer_len (v6 src dst none) = ip6_len_v1
footer_len (v6 src dst (some e)) = ip6_len_v2

-- `MAX_IP4_LEN`, `MAX_IP6_LEN` and `MX_LEN`
abbrev pub mx_len : ℕ
mx_len =
    max (max ip4_len_v1 (max ip4_len_v2_with_frag ip4_len_v2_without_frag))
      (max ip6_len_v1 ip6_len_v2)

-- What is written of the slice, and what is left of it; `none` is a panic of `unwrap`.
abbrev pub Cursor : Type 0
Cursor = List ℕ × List ℕ

abbrev pub Put : Type 0
Put = Cursor → Option Cursor

infixl 5 ◌>>◌
unfoldable pub ◌>>◌ : Put → Put → Put
◌>>◌ p q c = elim (p c) [ some d ↦ q d | none ↦ none ]

module _ ⦃crates : Crates⦄ where
  -- `slice.write_u8`, `slice.write_u16::<BigEndian>` and so on, with `unwrap`.
  unfoldable pub put : ℕ → ℕ → Put
  put w n (front, room) =
      if leb w (length room) then some (front ++ crates.to_bytes w n, drop w room) else none

  pub put_extension : UdpFlowExtension → Put
  put_extension e = do put 8 e.client_server_id; put 8 e.tunnel_id; put 2 e.port_offset

  pub put_frag : Option FragmentInfo → Put
  put_frag none = put 2 0
  put_frag (some f) = do put 1 (if f.has_more then 1 else 0); put 2 f.frag_offset; put 2 f.packet_id

  pub put_endpoints : ℕ → Endpoint → Endpoint → Put
  put_endpoints w src dst = do put w src.ip; put w dst.ip; put 2 src.port; put 2 dst.port

  pub put_flow : UdpFlow → Put
  put_flow (v4 src dst frag (some e)) = do
    put_endpoints 4 src dst
    put_extension e
    put_frag frag
    put 8 flow_4_footer_v2
  put_flow (v4 src dst frag none) = do put_endpoints 4 src dst; put 8 flow_4_footer_v1
  put_flow (v6 src dst (some e)) = do
    put_endpoints 16 src dst
    put_extension e
    put 8 flow_6_footer_v2
  put_flow (v6 src dst none) = do put_endpoints 16 src dst; put 4 0; put 8 flow_6_footer_v1

  -- The answer and the slice afterwards.
  unfoldable pub write_to : UdpFlow → List ℕ → Option (Bool × List ℕ)
  write_to flow slice =
      if ltb (length slice) (footer_len flow)
      then some (false, slice)
      else (elim (put_flow flow ([], slice)) [ some c ↦ some (true, c.0 ++ c.1) | none ↦ none ])
