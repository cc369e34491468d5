-- ===== src/Udp/Flow/Write.antt =====
-- A footer is written whole or not at all, and fills exactly the length that is announced for it.
use playit_ios.Common.{
  ℕ, ◌+◌, ◌≤◌, ◌<◌, ◌≡◌, ◌∙◌, ap, arith, List, [], ◌++◌, append_assoc, Option, none, some, true,
  false, length, length-append, take, drop, drop-append, take-append-drop, length-take, le→leb,
  lt→ltb, ge→ltb, if◌then◌else◌, sym, length-drop,
}
use playit_ios.Proto.Wire.{Crates}
use playit_ios.Proto.Wire.Laws.{Documented}
use playit_ios.Udp.Flow.{
  UdpFlow, v4, v6, Endpoint, FragmentInfo, UdpFlowExtension, Put, ◌>>◌, put, put_endpoints,
  put_extension, put_frag, put_flow, write_to, footer_len, mx_len, flow_4_footer_v1,
  flow_4_footer_v2, flow_6_footer_v1, flow_6_footer_v2,
}

-- `p` puts `bytes` in the place of as many bytes of the slice.
abbrev pub Puts : Put → List ℕ → Type 0
Puts p bytes =
    (front room rest : List ℕ)
    → length room ≡ length bytes
    → p (front, room ++ rest) ≡ some (front ++ bytes, rest)

module _ ⦃crates : Crates⦄ where
  open crates use {to_bytes}

  -- The footer as one list of bytes.
  unfoldable pub endpoints_bytes : ℕ → Endpoint → Endpoint → List ℕ
  endpoints_bytes w src dst =
      to_bytes w src.ip ++ (to_bytes w dst.ip ++ (to_bytes 2 src.port ++ to_bytes 2 dst.port))

  unfoldable pub extension_bytes : UdpFlowExtension → List ℕ
  extension_bytes e =
      to_bytes 8 e.client_server_id ++ (to_bytes 8 e.tunnel_id ++ to_bytes 2 e.port_offset)

  unfoldable pub frag_bytes : Option FragmentInfo → List ℕ
  frag_bytes none = to_bytes 2 0
  frag_bytes (some f) =
      to_bytes 1 (if f.has_more then 1 else 0)
      ++ (to_bytes 2 f.frag_offset ++ to_bytes 2 f.packet_id)

  unfoldable pub flow_bytes : UdpFlow → List ℕ
  flow_bytes (v4 src dst frag (some e)) =
      endpoints_bytes 4 src dst
      ++ (extension_bytes e ++ (frag_bytes frag ++ to_bytes 8 flow_4_footer_v2))
  flow_bytes (v4 src dst frag none) = endpoints_bytes 4 src dst ++ to_bytes 8 flow_4_footer_v1
  flow_bytes (v6 src dst (some e)) =
      endpoints_bytes 16 src dst ++ (extension_bytes e ++ to_bytes 8 flow_6_footer_v2)
  flow_bytes (v6 src dst none) =
      endpoints_bytes 16 src dst ++ (to_bytes 4 0 ++ to_bytes 8 flow_6_footer_v1)

module _ ⦃crates : Crates⦄ ⦃docs : Documented⦄ where
  open crates use {to_bytes}

  Puts-put : (w n : ℕ) → Puts (put w n) (to_bytes w n)
  unfolding put
  Puts-put w n front room rest h =
      let e : length room ≡ w = h ∙ docs.length-to_bytes w n in
      rw (
        le→leb w (length (room ++ rest)) (omega (arith, length-append room rest)),
        drop-append w room rest e,
      )

  split_at : (n : ℕ) (room rest : List ℕ) → room ++ rest ≡ take n room ++ (drop n room ++ rest)
  split_at n room rest =
      ap (λ t. t ++ rest) (sym (take-append-drop n room))
      ∙ append_assoc (take n room) (drop n room) rest

  Puts->> : (p q : Put) (b c : List ℕ) → Puts p b → Puts q c → Puts (p >> q) (b ++ c)
  unfolding ◌>>◌
  Puts->> p q b c hp hq front room rest h =
      let n : ℕ = length b in
      let sizes : n + length c ≡ length room = omega (arith, length-append b c) in
      rw
        (
          split_at n room rest,
          hp front (take n room) (drop n room ++ rest) (omega (arith, length-take n room)),
          ◌>>◌,
        )
        (hq (front ++ b) (drop n room) rest (omega (arith, length-drop n room))
          ∙ ap (λ t. some (t, rest)) (append_assoc front b c))

  length-endpoints_bytes :
      (w : ℕ) (src dst : Endpoint) → length (endpoints_bytes w src dst) ≡ w + w + 4
  unfolding endpoints_bytes
  length-endpoints_bytes w src dst = simp (length-append, docs.length-to_bytes) (omega arith)

  length-extension_bytes : (e : UdpFlowExtension) → length (extension_bytes e) ≡ 18
  unfolding extension_bytes
  length-extension_bytes e = simp (length-append, docs.length-to_bytes) (omega arith)

  -- The length that is announced is the footer's.
  pub length-flow_bytes : (flow : UdpFlow) → length (flow_bytes flow) ≡ footer_len flow
  unfolding flow_bytes footer_len frag_bytes
  length-flow_bytes (v4 src dst (some f) (some e)) =
      simp (length-append, docs.length-to_bytes, length-endpoints_bytes, length-extension_bytes)
        (omega arith)
  length-flow_bytes (v4 src dst none (some e)) =
      simp (length-append, docs.length-to_bytes, length-endpoints_bytes, length-extension_bytes)
        (omega arith)
  length-flow_bytes (v4 src dst frag none) =
      simp (length-append, docs.length-to_bytes, length-endpoints_bytes) (omega arith)
  length-flow_bytes (v6 src dst (some e)) =
      simp (length-append, docs.length-to_bytes, length-endpoints_bytes, length-extension_bytes)
        (omega arith)
  length-flow_bytes (v6 src dst none) =
      simp (length-append, docs.length-to_bytes, length-endpoints_bytes) (omega arith)

  Puts-endpoints :
      (w : ℕ) (src dst : Endpoint) → Puts (put_endpoints w src dst) (endpoints_bytes w src dst)
  unfolding put_endpoints endpoints_bytes
  Puts-endpoints w src dst = Puts->> _ _ _ _ (Puts-put w src.ip) (
      Puts->> _ _ _ _ (Puts-put w dst.ip)
        (Puts->> _ _ _ _ (Puts-put 2 src.port) (Puts-put 2 dst.port)))

  Puts-extension : (e : UdpFlowExtension) → Puts (put_extension e) (extension_bytes e)
  unfolding put_extension extension_bytes
  Puts-extension e =
      Puts->> _ _ _ _ (Puts-put 8 e.client_server_id)
        (Puts->> _ _ _ _ (Puts-put 8 e.tunnel_id) (Puts-put 2 e.port_offset))

  Puts-frag : (frag : Option FragmentInfo) → Puts (put_frag frag) (frag_bytes frag)
  unfolding put_frag frag_bytes
  Puts-frag none = Puts-put 2 0
  Puts-frag (some f) =
      Puts->> _ _ _ _ (Puts-put 1 _)
        (Puts->> _ _ _ _ (Puts-put 2 f.frag_offset) (Puts-put 2 f.packet_id))

  Puts-flow : (flow : UdpFlow) → Puts (put_flow flow) (flow_bytes flow)
  unfolding put_flow flow_bytes
  Puts-flow (v4 src dst frag (some e)) = Puts->> _ _ _ _ (Puts-endpoints 4 src dst) (
      Puts->> _ _ _ _ (Puts-extension e)
        (Puts->> _ _ _ _ (Puts-frag frag) (Puts-put 8 flow_4_footer_v2)))
  Puts-flow (v4 src dst frag none) =
      Puts->> _ _ _ _ (Puts-endpoints 4 src dst) (Puts-put 8 flow_4_footer_v1)
  Puts-flow (v6 src dst (some e)) =
      Puts->> _ _ _ _ (Puts-endpoints 16 src dst)
        (Puts->> _ _ _ _ (Puts-extension e) (Puts-put 8 flow_6_footer_v2))
  Puts-flow (v6 src dst none) =
      Puts->> _ _ _ _ (Puts-endpoints 16 src dst)
        (Puts->> _ _ _ _ (Puts-put 4 0) (Puts-put 8 flow_6_footer_v1))

  -- In a slice with room for it the footer is written whole at the front, without a panic, and the
  -- rest of the slice is kept.
  pub write_to_whole :
      (flow : UdpFlow) (slice : List ℕ)
      → footer_len flow ≤ length slice
      → write_to flow slice ≡ some (true, flow_bytes flow ++ drop (footer_len flow) slice)
  unfolding write_to
  write_to_whole flow slice h =
      let n : ℕ = footer_len flow in
      let whole : put_flow flow ([], slice) ≡ some (flow_bytes flow, drop n slice) =
        ap (λ s. put_flow flow ([], s)) (sym (take-append-drop n slice))
        ∙ Puts-flow flow [] (take n slice) (drop n slice)
            (omega (arith, length-take n slice, length-flow_bytes flow)) in
      rw (ge→ltb (length slice) (footer_len flow) h, whole)

  write_to_short :
      (flow : UdpFlow) (slice : List ℕ)
      → length slice < footer_len flow
      → write_to flow slice ≡ some (false, slice)
  unfolding write_to
  write_to_short flow slice h = rw (lt→ltb _ _ h)

footer_len-le-mx_len : (flow : UdpFlow) → footer_len flow ≤ mx_len
unfolding footer_len
footer_len-le-mx_len flow = ground arith
