-- ===== src/Udp/Flow/Tail/RoundTrip.antt =====
-- A flow is read back from the end of a packet, whatever its payload.
use playit_ios.Common.{
  ℕ, ◌*◌, ◌^◌, ◌<◌, ◌≡◌, refl, ◌∙◌, ap, arith, List, ◌++◌, append_assoc, Option, none, some, true,
  false, length, length-append, drop, drop-append, ge→ltb, if◌then◌else◌, ◌==◌, ne→==, not, Bool,
}
use playit_ios.Common.Io.{ok}
use playit_ios.Proto.Wire.{Crates, Reader, ◌>>=◌, pure, IsU16, IsU64}
use playit_ios.Proto.Wire.Readers.{Reads, Reads-bind, Reads-map}
use playit_ios.Proto.Wire.Laws.{Documented, Reads-read_uint}
use playit_ios.Udp.Flow.{UdpFlow, v4, v6, Endpoint, FragmentInfo, UdpFlowExtension}
use playit_ios.Udp.Flow.Write.{endpoints_bytes, extension_bytes, frag_bytes, flow_bytes}
use playit_ios.Udp.Flow.Tail.{
  parsed, last, unwrapped, non_zero, read_endpoints, after_tunnel_id, after_client_id,
  read_extension, read_frag, read_4_v1, read_4_rest, read_4_v2, read_6_v1, read_6_rest, read_6_v2,
  from_last, from_footer, from_tail,
}

-- The ranges of the fields' types: addresses of `w` bytes, ports, and ids that are not zero.
abbrev pub IsEndpoint : ℕ → Endpoint → Type 0
IsEndpoint w a = (a.ip < 2 ^ (8 * w)) × IsU16 a.port

abbrev pub IsExtension : UdpFlowExtension → Type 0
IsExtension e =
    IsU64 e.client_server_id
    × (0 < e.client_server_id)
    × IsU64 e.tunnel_id
    × (0 < e.tunnel_id)
    × IsU16 e.port_offset

abbrev pub IsFragment : Option FragmentInfo → Type 0
IsFragment none = Unit {0}
IsFragment (some f) = IsU16 f.packet_id × (0 < f.packet_id) × IsU16 f.frag_offset

abbrev pub IsUdpFlow : UdpFlow → Type 0
IsUdpFlow (v4 src dst frag none) = IsEndpoint 4 src × IsEndpoint 4 dst
IsUdpFlow (v4 src dst frag (some e)) =
    IsEndpoint 4 src × IsEndpoint 4 dst × IsFragment frag × IsExtension e
IsUdpFlow (v6 src dst none) = IsEndpoint 16 src × IsEndpoint 16 dst
IsUdpFlow (v6 src dst (some e)) = IsEndpoint 16 src × IsEndpoint 16 dst × IsExtension e

-- What is read back: only an extended footer carries a fragment.
unfoldable pub as_read : UdpFlow → UdpFlow
as_read (v4 src dst frag none) = v4 src dst none none
as_read flow = flow

module _ ⦃crates : Crates⦄ ⦃docs : Documented⦄ where
  open crates use {to_bytes, of_bytes}

  pure_lem : {A : Type 0} (a : A) (rest : List ℕ) → pure a rest ≡ ok (a, rest)
  unfolding pure
  pure_lem a rest = refl

  Reads-endpoints :
      (w : ℕ) (src dst : Endpoint)
      → IsEndpoint w src
      → IsEndpoint w dst
      → Reads (read_endpoints w) (endpoints_bytes w src dst) (src, dst)
  unfolding read_endpoints endpoints_bytes
  Reads-endpoints w src dst hs hd = Reads-bind _ _ _ _ (Reads-read_uint w src.ip hs.0) (
      Reads-bind _ _ _ _ (Reads-read_uint w dst.ip hd.0) (
        Reads-bind _ _ _ _ (Reads-read_uint 2 src.port hs.1)
          (Reads-map _ _ _ (Reads-read_uint 2 dst.port hd.1) (pure_lem _))))

  Reads-extension :
      (e : UdpFlowExtension) → IsExtension e → Reads read_extension (extension_bytes e) (some e)
  unfolding read_extension after_client_id after_tunnel_id extension_bytes
  Reads-extension e h = Reads-bind _ _ _ _ (Reads-read_uint 8 e.client_server_id h.0) (
      rw (ne→== e.client_server_id 0 (omega arith)) (
        Reads-bind _ _ _ _ (Reads-read_uint 8 e.tunnel_id h.2) (
          rw (ne→== e.tunnel_id 0 (omega arith))
            (Reads-map _ _ _ (Reads-read_uint 2 e.port_offset h.4) (pure_lem _)))))

  -- The number that stands before the footer id: 0, or that of the fragment's packet.
  unfoldable pub packet_id_of : Option FragmentInfo → ℕ
  packet_id_of none = 0
  packet_id_of (some f) = f.packet_id

  -- `r` finds `a` at the front of `bytes`, whatever it leaves.
  abbrev pub Starts : {A : Type 0} → Reader A → List ℕ → A → Type 0
  Starts r bytes a = (rest : List ℕ) × (r bytes ≡ ok (a, rest))

  Starts-bind :
      {A B : Type 0} (r : Reader A) (k : A → Reader B) (bs cs : List ℕ) {a : A} {b : B}
      → Reads r bs a
      → Starts (k a) cs b
      → Starts (r >>= k) (bs ++ cs) b
  unfolding ◌>>=◌
  Starts-bind r k bs cs h g = (g.0, rw (h cs, ◌>>=◌) g.1)

  Starts-map :
      {A B : Type 0} (r : Reader A) (k : A → Reader B) (bs : List ℕ) {a : A} {b : B}
      → Starts r bs a
      → ((rest : List ℕ) → k a rest ≡ ok (b, rest))
      → Starts (r >>= k) bs b
  unfolding ◌>>=◌
  Starts-map r k bs h e = (h.0, rw (h.1, ◌>>=◌) (e h.0))

  more_lem : (b : Bool) → not ((if b then 1 else 0) == 0) ≡ b
  more_lem true = refl
  more_lem false = refl

  more-lt : (b : Bool) → (if b then 1 else 0) < 2 ^ 8
  more-lt b = ground arith

  Starts-frag :
      (frag : Option FragmentInfo) (rest : List ℕ)
      → IsFragment frag
      → Starts (read_frag (non_zero (packet_id_of frag))) (frag_bytes frag ++ rest) frag
  unfolding read_frag non_zero packet_id_of frag_bytes pure
  Starts-frag none rest h = (to_bytes 2 0 ++ rest, refl)
  Starts-frag (some f) rest h =
      let more : ℕ = if f.has_more then 1 else 0 in
      rw
        (
          ne→== f.packet_id 0 (omega arith),
          append_assoc (to_bytes 1 more) (to_bytes 2 f.frag_offset ++ to_bytes 2 f.packet_id) rest,
          append_assoc (to_bytes 2 f.frag_offset) (to_bytes 2 f.packet_id) rest,
        )
        (Starts-bind _ _ _ _ (Reads-read_uint 1 more (more-lt f.has_more)) (
          Starts-bind _ _ _ _ (Reads-read_uint 2 f.frag_offset h.2)
            (to_bytes 2 f.packet_id ++ rest, rw (more_lem f.has_more) refl)))

  -- The last statement of a reader, with what is behind it.
  Starts-pure : {A : Type 0} (a : A) (bs : List ℕ) → Starts (pure a) bs a
  unfolding pure
  Starts-pure a bs = (bs, refl)

  -- The footer, read from its own bytes with what the caller has found out about the fragment.
  pub Starts-4_v1 :
      (src dst : Endpoint)
      → IsEndpoint 4 src
      → IsEndpoint 4 dst
      → Starts read_4_v1 (flow_bytes (v4 src dst none none)) (some (v4 src dst none none))
  unfolding read_4_v1 flow_bytes
  Starts-4_v1 src dst hs hd =
      Starts-bind _ _ _ _ (Reads-endpoints 4 src dst hs hd) (Starts-pure _ _)

  pub Starts-4_v2 :
      (src dst : Endpoint) (frag : Option FragmentInfo) (e : UdpFlowExtension)
      → IsEndpoint 4 src
      → IsEndpoint 4 dst
      → IsFragment frag
      → IsExtension e
      → Starts
          (read_4_v2 (packet_id_of frag))
          (flow_bytes (v4 src dst frag (some e)))
          (some (v4 src dst frag (some e)))
  unfolding read_4_v2 read_4_rest flow_bytes
  Starts-4_v2 src dst frag e hs hd hf he = Starts-bind _ _ _ _ (Reads-endpoints 4 src dst hs hd) (
      Starts-bind _ _ _ _ (Reads-extension e he)
        (Starts-map _ _ _ (Starts-frag frag _ hf) (pure_lem _)))

  pub Starts-6_v1 :
      (src dst : Endpoint)
      → IsEndpoint 16 src
      → IsEndpoint 16 dst
      → Starts read_6_v1 (flow_bytes (v6 src dst none)) (some (v6 src dst none))
  unfolding read_6_v1 flow_bytes
  Starts-6_v1 src dst hs hd =
      Starts-bind _ _ _ _ (Reads-endpoints 16 src dst hs hd)
        (Starts-bind _ _ _ _ (Reads-read_uint 4 0 (omega arith)) (Starts-pure _ _))

  pub Starts-6_v2 :
      (src dst : Endpoint) (e : UdpFlowExtension)
      → IsEndpoint 16 src
      → IsEndpoint 16 dst
      → IsExtension e
      → Starts read_6_v2 (flow_bytes (v6 src dst (some e))) (some (v6 src dst (some e)))
  unfolding read_6_v2 read_6_rest flow_bytes
  Starts-6_v2 src dst e hs hd he =
      Starts-bind _ _ _ _ (Reads-endpoints 16 src dst hs hd)
        (Starts-bind _ _ _ _ (Reads-extension e he) (Starts-pure _ _))

  pub last_lem : (n : ℕ) (front bs : List ℕ) → length bs ≡ n → last n (front ++ bs) ≡ bs
  last_lem n front bs h =
      ap (λ k. drop k (front ++ bs)) (omega (arith, length-append front bs))
      ∙ drop-append (length front) front bs refl

  pub from_last_lem :
      (n : ℕ) (r : Reader (Option UdpFlow)) (front bs : List ℕ) (flow : UdpFlow)
      → length bs ≡ n
      → Starts r bs (some flow)
      → from_last n r (front ++ bs) ≡ parsed flow
  unfolding from_last unwrapped
  from_last_lem n r front bs flow h s =
      rw
        (
          ge→ltb (length (front ++ bs)) n (omega (arith, length-append front bs)),
          last_lem n front bs h,
          s.1,
        )
        refl

  -- The last eight bytes choose the reader.
  pub from_tail-footer :
      (front : List ℕ) (id : ℕ)
      → IsU64 id
      → from_tail (front ++ to_bytes 8 id) ≡ from_footer id (front ++ to_bytes 8 id)
  unfolding from_tail
  from_tail-footer front id h =
      rw
        (
          ge→ltb (length (front ++ to_bytes 8 id)) 8
              (omega (arith, length-append front (to_bytes 8 id), docs.length-to_bytes 8 id)),
          last_lem 8 front (to_bytes 8 id) (docs.length-to_bytes 8 id),
          docs.of_bytes-to_bytes 8 id h,
        )
        refl
