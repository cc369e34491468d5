-- ===== src/Udp/Flow/Tail.antt =====
-- Reading a flow from the end of a packet (`UdpFlow::from_tail`).
pub mod RoundTrip
pub mod Whole
pub mod Total
use playit_ios.Common.{
  ℕ, ◌+◌, ◌-◌, List, Bool, true, false, Option, none, some, length, take, drop, ltb, ◌==◌,
  if◌then◌else◌, not,
}
use playit_ios.Common.Io.{Result, ok, err}
use playit_ios.Proto.Wire.{Crates, Reader, ◌>>=◌, pure, read_uint}
use playit_ios.Udp.Flow.{
  UdpFlow, v4, v6, Endpoint, FragmentInfo, UdpFlowExtension, flow_4_footer_v1, flow_4_footer_v2,
  flow_6_footer_v1, flow_6_footer_v2, ip4_len_v1, ip4_len_v2_without_frag, ip4_len_v2_with_frag,
  ip6_len_v1, ip6_len_v2,
}

-- `Ok(flow)`, `Err(id)`, and a panic of `unwrap`.
pub data Parsed : Type 0 where
  parsed : UdpFlow → Parsed
  refused : Option ℕ → Parsed
  panicked : Parsed

-- The last `n` bytes.
abbrev pub last : ℕ → List ℕ → List ℕ
last n src = drop (length src - n) src

-- The reads are unwrapped, so that running out of bytes is a panic; `none` is an early `Err(None)`.
unfoldable pub unwrapped : Result (Option UdpFlow × List ℕ) → Parsed
unwrapped (ok (some flow, rest)) = parsed flow
unwrapped (ok (none, rest)) = refused none
unwrapped (err e) = panicked

-- `NonZeroU16::new`
unfoldable pub non_zero : ℕ → Option ℕ
non_zero n = if n == 0 then none else some n

module _ ⦃crates : Crates⦄ where
  unfoldable pub read_endpoints : ℕ → Reader (Endpoint × Endpoint)
  read_endpoints w = do
    src_ip ← read_uint w
    dst_ip ← read_uint w
    src_port ← read_uint 2
    dst_port ← read_uint 2
    pure (record { ip = src_ip; port = src_port }, record { ip = dst_ip; port = dst_port })

  -- `NonZeroU64::new(..).ok_or(None)?`, twice, and the offset.
  unfoldable pub after_tunnel_id : ℕ → ℕ → Reader (Option UdpFlowExtension)
  after_tunnel_id client_server_id tunnel_id =
      if tunnel_id == 0
      then pure none
      else (read_uint 2 >>= λ o. pure (
          some (record {
            client_server_id = client_server_id;
            tunnel_id = tunnel_id;
            port_offset = o;
          })))

  unfoldable pub after_client_id : ℕ → Reader (Option UdpFlowExtension)
  after_client_id client_server_id =
      if client_server_id == 0
      then pure none
      else (read_uint 8 >>= after_tunnel_id client_server_id)

  unfoldable pub read_extension : Reader (Option UdpFlowExtension)
  read_extension = read_uint 8 >>= after_client_id

  unfoldable pub read_frag : Option ℕ → Reader (Option FragmentInfo)
  read_frag none = pure none
  read_frag (some packet_id) = do
    more ← read_uint 1
    offset ← read_uint 2
    pure (some (record { packet_id = packet_id; frag_offset = offset; has_more = not (more == 0) }))

  unfoldable pub read_4_v1 : Reader (Option UdpFlow)
  read_4_v1 = do p ← read_endpoints 4; pure (some (v4 p.0 p.1 none none))

  -- An early return of the extension returns from the whole function.
  unfoldable pub read_4_rest :
      ℕ → Endpoint × Endpoint → Option UdpFlowExtension → Reader (Option UdpFlow)
  read_4_rest packet_id p none = pure none
  read_4_rest packet_id p (some e) = do
    frag ← read_frag (non_zero packet_id)
    pure (some (v4 p.0 p.1 frag (some e)))

  unfoldable pub read_4_v2 : ℕ → Reader (Option UdpFlow)
  read_4_v2 packet_id = do p ← read_endpoints 4; e ← read_extension; read_4_rest packet_id p e

  unfoldable pub read_6_v1 : Reader (Option UdpFlow)
  read_6_v1 = do p ← read_endpoints 16; flow_label ← read_uint 4; pure (some (v6 p.0 p.1 none))

  unfoldable pub read_6_rest :
      Endpoint × Endpoint → Option UdpFlowExtension → Reader (Option UdpFlow)
  read_6_rest p none = pure none
  read_6_rest p (some e) = pure (some (v6 p.0 p.1 (some e)))

  unfoldable pub read_6_v2 : Reader (Option UdpFlow)
  read_6_v2 = do p ← read_endpoints 16; e ← read_extension; read_6_rest p e

  -- The length check, and the reads from the tail of that length.
  unfoldable pub from_last : ℕ → Reader (Option UdpFlow) → List ℕ → Parsed
  unfolding unwrapped
  from_last n r src = if ltb (length src) n then refused none else unwrapped (r (last n src))

  unfoldable pub from_4_v2 : List ℕ → Parsed
  from_4_v2 src =
      if ltb (length src) 10
      then refused none
      else (let packet_id = crates.of_bytes (take 2 (last 10 src)) in
          from_last (if packet_id == 0 then ip4_len_v2_without_frag else ip4_len_v2_with_frag)
            (read_4_v2 packet_id) src)

  unfoldable pub from_footer : ℕ → List ℕ → Parsed
  from_footer id src =
      if id == flow_4_footer_v1
      then from_last ip4_len_v1 read_4_v1 src
      else (if id == flow_4_footer_v2
          then from_4_v2 src
          else (if id == flow_6_footer_v1
              then from_last ip6_len_v1 read_6_v1 src
              else (if id == flow_6_footer_v2
                  then from_last ip6_len_v2 read_6_v2 src
                  else refused (some id))))

  unfoldable pub from_tail : List ℕ → Parsed
  from_tail src =
      if ltb (length src) 8 then refused none else from_footer (crates.of_bytes (last 8 src)) src
