-- ===== src/Udp/Flow/Tail/Whole.antt =====
-- The whole of `from_tail` on a packet that ends in a footer.
use playit_ios.Common.{
  ℕ, ◌^◌, ◌<◌, ◌≡◌, refl, ◌∙◌, ap, sym, arith, List, [], ◌++◌, append_assoc, Option, none, some,
  length, length-append, take-append, ge→ltb, if◌then◌else◌, ne→==, ◌==◌, true,
}
use playit_ios.Common.{◌∷◌, drop, length-drop, append-nil, true}
use playit_ios.Udp.Flow.{write_to}
use playit_ios.Udp.Flow.Write.{write_to_whole}
use playit_ios.Proto.Wire.{Crates, IsU64, IsU16}
use playit_ios.Proto.Wire.Laws.{Documented}
use playit_ios.Udp.Flow.{
  UdpFlow, v4, v6, FragmentInfo, Endpoint, UdpFlowExtension, footer_len, flow_4_footer_v1,
  flow_4_footer_v2, flow_6_footer_v1, flow_6_footer_v2, ip4_len_v2_without_frag,
  ip4_len_v2_with_frag, ip4_len_v1, ip6_len_v1, ip6_len_v2,
}
use playit_ios.Udp.Flow.Write.{
  endpoints_bytes, extension_bytes, frag_bytes, flow_bytes, length-flow_bytes,
}
use playit_ios.Udp.Flow.Tail.{
  parsed, read_4_v2, read_4_v1, read_6_v1, read_6_v2, from_last, from_4_v2, from_footer, from_tail,
}
use playit_ios.Udp.Flow.Tail.RoundTrip.{
  IsUdpFlow, IsFragment, as_read, packet_id_of, Starts-4_v1, Starts-4_v2, Starts-6_v1, Starts-6_v2,
  last_lem, from_last_lem, from_tail-footer,
}

length-zero : (bs : List ℕ) → length bs ≡ 0 → bs ≡ []
length-zero [] h = refl
length-zero (x ∷ bs) h = absurd (omega arith)

module _ ⦃crates : Crates⦄ ⦃docs : Documented⦄ where
  open crates use {to_bytes, of_bytes}

  -- What of a fragment's bytes stands before the packet's number.
  frag_front : Option FragmentInfo → List ℕ
  frag_front none = []
  frag_front (some f) = to_bytes 1 (if f.has_more then 1 else 0) ++ to_bytes 2 f.frag_offset

  frag_bytes_split :
      (frag : Option FragmentInfo)
      → frag_bytes frag ≡ frag_front frag ++ to_bytes 2 (packet_id_of frag)
  unfolding frag_bytes frag_front packet_id_of
  frag_bytes_split none = refl
  frag_bytes_split (some f) =
      sym (append_assoc (to_bytes 1 _) (to_bytes 2 f.frag_offset) (to_bytes 2 f.packet_id))

  from_tail-ends :
      (front body : List ℕ) (id : ℕ)
      → IsU64 id
      → from_tail (front ++ (body ++ to_bytes 8 id))
        ≡ from_footer id (front ++ (body ++ to_bytes 8 id))
  from_tail-ends front body id h =
      let e : (front ++ body) ++ to_bytes 8 id ≡ front ++ (body ++ to_bytes 8 id) =
        append_assoc front body (to_bytes 8 id) in
      rw (sym e) (from_tail-footer (front ++ body) id h)

  -- However the footer is composed, its reader is chosen by the id at its end.
  chosen_by :
      (front bs body : List ℕ) (id : ℕ)
      → IsU64 id
      → bs ≡ body ++ to_bytes 8 id
      → from_tail (front ++ bs) ≡ from_footer id (front ++ bs)
  chosen_by front bs body id h e = rw e (from_tail-ends front body id h)

  packet_id-lt : (frag : Option FragmentInfo) → IsFragment frag → packet_id_of frag < 2 ^ 16
  unfolding packet_id_of
  packet_id-lt none h = omega arith
  packet_id-lt (some f) h = h.0

  -- An extended footer of IPv4 ends in the packet's number and the footer id.
  ends_in : (src dst : Endpoint) (frag : Option FragmentInfo) (e : UdpFlowExtension) → List ℕ
  ends_in src dst frag e = endpoints_bytes 4 src dst ++ (extension_bytes e ++ frag_front frag)

  v2_split :
      (src dst : Endpoint) (frag : Option FragmentInfo) (e : UdpFlowExtension)
      → flow_bytes (v4 src dst frag (some e))
        ≡ ends_in src dst frag e ++ (to_bytes 2 (packet_id_of frag) ++ to_bytes 8 flow_4_footer_v2)
  unfolding flow_bytes ends_in
  v2_split src dst frag e = rw (frag_bytes_split frag) (simp append_assoc refl)

  -- The length to read agrees with the fragment that is there.
  v2_len :
      (src dst : Endpoint) (frag : Option FragmentInfo) (e : UdpFlowExtension)
      → IsFragment frag
      → (if packet_id_of frag == 0 then ip4_len_v2_without_frag else ip4_len_v2_with_frag)
        ≡ footer_len (v4 src dst frag (some e))
  unfolding packet_id_of footer_len
  v2_len src dst none e h = refl
  v2_len src dst (some f) e h = rw (ne→== f.packet_id 0 (omega arith)) refl

  from_4_v2_lem :
      (front bs body : List ℕ) (packet_id id : ℕ)
      → IsU16 packet_id
      → bs ≡ body ++ (to_bytes 2 packet_id ++ to_bytes 8 id)
      → from_4_v2 (front ++ bs)
        ≡ from_last
            (if packet_id == 0 then ip4_len_v2_without_frag else ip4_len_v2_with_frag)
            (read_4_v2 packet_id)
            (front ++ bs)
  unfolding from_4_v2
  from_4_v2_lem front bs body packet_id id h e =
      let tail : List ℕ = to_bytes 2 packet_id ++ to_bytes 8 id in
      let size : length tail ≡ 10 = simp (length-append, docs.length-to_bytes) refl in
      rw
        (
          e,
          sym (append_assoc front body tail),
          ge→ltb (length ((front ++ body) ++ tail)) 10
              (omega (arith, length-append (front ++ body) tail)),
          last_lem 10 (front ++ body) tail size,
          take-append 2 (to_bytes 2 packet_id) (to_bytes 8 id) (docs.length-to_bytes 2 packet_id),
          docs.of_bytes-to_bytes 2 packet_id h,
        )
        refl

  eq→== : (a b : ℕ) → a ≡ b → (a == b) ≡ true
  eq→== a b h = ground arith

  -- Each id chooses its reader.
  from_footer-4_v1 :
      (id : ℕ) (src : List ℕ)
      → id ≡ flow_4_footer_v1
      → from_footer id src ≡ from_last ip4_len_v1 read_4_v1 src
  unfolding from_footer
  from_footer-4_v1 id src h = rw (eq→== id flow_4_footer_v1 h) refl

  from_footer-4_v2 :
      (id : ℕ) (src : List ℕ) → id ≡ flow_4_footer_v2 → from_footer id src ≡ from_4_v2 src
  unfolding from_footer
  from_footer-4_v2 id src h =
      rw (ne→== id flow_4_footer_v1 (omega arith), eq→== id flow_4_footer_v2 h) refl

  from_footer-6_v1 :
      (id : ℕ) (src : List ℕ)
      → id ≡ flow_6_footer_v1
      → from_footer id src ≡ from_last ip6_len_v1 read_6_v1 src
  unfolding from_footer
  from_footer-6_v1 id src h =
      rw
        (
          ne→== id flow_4_footer_v1 (omega arith),
          ne→== id flow_4_footer_v2 (omega arith),
          eq→== id flow_6_footer_v1 h,
        )
        refl

  from_footer-6_v2 :
      (id : ℕ) (src : List ℕ)
      → id ≡ flow_6_footer_v2
      → from_footer id src ≡ from_last ip6_len_v2 read_6_v2 src
  unfolding from_footer
  from_footer-6_v2 id src h =
      rw
        (
          ne→== id flow_4_footer_v1 (omega arith),
          ne→== id flow_4_footer_v2 (omega arith),
          ne→== id flow_6_footer_v1 (omega arith),
          eq→== id flow_6_footer_v2 h,
        )
        refl

  -- What stands before the footer has no part in it.
  pub from_tail-flow_bytes :
      (front : List ℕ) (flow : UdpFlow)
      → IsUdpFlow flow
      → from_tail (front ++ flow_bytes flow) ≡ parsed (as_read flow)
  unfolding as_read flow_bytes footer_len
  from_tail-flow_bytes front (v4 src dst frag none) h =
      let bs : List ℕ = flow_bytes (v4 src dst none none) in
      chosen_by front bs (endpoints_bytes 4 src dst) flow_4_footer_v1 (omega arith) refl
      ∙ from_footer-4_v1 _ _ refl
      ∙ from_last_lem _ _ front bs _ (length-flow_bytes (v4 src dst none none))
          (Starts-4_v1 src dst h.0 h.1)
  from_tail-flow_bytes front (v4 src dst frag (some e)) (hs, hd, hf, he) =
      let bs : List ℕ = flow_bytes (v4 src dst frag (some e)) in
      let id : ℕ = packet_id_of frag in
      chosen_by front bs (ends_in src dst frag e ++ to_bytes 2 id) flow_4_footer_v2 (omega arith)
        (v2_split src dst frag e ∙ sym (append_assoc (ends_in src dst frag e) (to_bytes 2 id) _))
      ∙ from_footer-4_v2 _ _ refl
      ∙ from_4_v2_lem front bs (ends_in src dst frag e) id flow_4_footer_v2 (packet_id-lt frag hf)
          (v2_split src dst frag e)
      ∙ from_last_lem _ _ front bs _
          (length-flow_bytes (v4 src dst frag (some e)) ∙ sym (v2_len src dst frag e hf))
          (Starts-4_v2 src dst frag e hs hd hf he)
  from_tail-flow_bytes front (v6 src dst none) h =
      let bs : List ℕ = flow_bytes (v6 src dst none) in
      chosen_by front bs (endpoints_bytes 16 src dst ++ to_bytes 4 0) flow_6_footer_v1 (omega arith)
        (sym (append_assoc (endpoints_bytes 16 src dst) (to_bytes 4 0) _))
      ∙ from_footer-6_v1 _ _ refl
      ∙ from_last_lem _ _ front bs _ (length-flow_bytes (v6 src dst none))
          (Starts-6_v1 src dst h.0 h.1)
  from_tail-flow_bytes front (v6 src dst (some e)) (hs, hd, he) =
      let bs : List ℕ = flow_bytes (v6 src dst (some e)) in
      chosen_by front bs (endpoints_bytes 16 src dst ++ extension_bytes e) flow_6_footer_v2
        (omega arith) (sym (append_assoc (endpoints_bytes 16 src dst) (extension_bytes e) _))
      ∙ from_footer-6_v2 _ _ refl
      ∙ from_last_lem _ _ front bs _ (length-flow_bytes (v6 src dst (some e)))
          (Starts-6_v2 src dst e hs hd he)

  -- A flow whose fields are in range, the ids of its extension and the number of its fragment not
  -- zero, written into a slice of exactly its footer's length, is read back from the end of any
  -- packet that ends in that slice, without what a footer without extension does not carry of a
  -- fragment.
  pub from_tail-write_to :
      (front slice : List ℕ) (flow : UdpFlow)
      → IsUdpFlow flow
      → length slice ≡ footer_len flow
      → (footer : List ℕ) × (write_to flow slice ≡ some (true, footer))
        × (from_tail (front ++ footer) ≡ parsed (as_read flow))
  from_tail-write_to front slice flow h size =
      let rest : List ℕ = drop (footer_len flow) slice in
      let empty : rest ≡ [] =
        length-zero rest (omega (arith, length-drop (footer_len flow) slice)) in
      (
        flow_bytes flow,
        write_to_whole flow slice (omega arith)
            ∙ ap (λ t. some (true, flow_bytes flow ++ t)) empty
            ∙ ap (λ t. some (true, t)) (append-nil (flow_bytes flow)),
        from_tail-flow_bytes front flow h,
      )
