-- ===== src/Proxy/RoundTrip.antt =====
-- A header is read back from the front of a packet.
use playit_ios.Common.{
  ==_refl, ℕ, ◌+◌, ◌*◌, ◌^◌, ◌<◌, ◌≡◌, refl, sym, ap, ◌∙◌, arith, List, [], ◌++◌, append_assoc,
  append-nil, length, length-append, some,
}
use playit_ios.Common.Io.{ok, err}
use playit_ios.Proto.Wire.{Crates, ◌>>◌, pure, add_raw, read_uint, read_exact, IsU16}
use playit_ios.Proto.Wire.Readers.{Reads, Reads-bind, Reads-map, Reads-read_exact}
use playit_ios.Proto.Wire.Laws.{Documented, Reads-read_uint}
use playit_ios.Proxy.{
  Ends, ProxyProtocolHeader, af_inet, af_inet6, v2_header, same_bytes, header, unwrapped,
  write_ends, write_header, write_v2_udp, read_ends, read_slab, parse_slab, parse_proto, parse_type,
  parse_v2_udp,
}

-- The ranges of the fields' types, with addresses of `w` bytes.
abbrev pub IsEnds : ℕ → Ends → Type 0
IsEnds w e =
    (e.client_ip < 2 ^ (8 * w))
    × (e.proxy_ip < 2 ^ (8 * w))
    × IsU16 e.client_port
    × IsU16 e.proxy_port

abbrev pub IsHeader : ProxyProtocolHeader → Type 0
IsHeader (af_inet e) = IsEnds 4 e
IsHeader (af_inet6 e) = IsEnds 16 e

module _ ⦃crates : Crates⦄ ⦃docs : Documented⦄ where
  open crates use {to_bytes}

  ends_bytes : ℕ → Ends → List ℕ
  ends_bytes w e =
      to_bytes w e.client_ip
      ++ (to_bytes w e.proxy_ip ++ (to_bytes 2 e.client_port ++ to_bytes 2 e.proxy_port))

  slab_bytes : ℕ → ℕ → Ends → List ℕ
  slab_bytes size w e = to_bytes 2 size ++ ends_bytes w e

  bytes_of : ℕ → ℕ → ℕ → Ends → List ℕ
  bytes_of family size w e = v2_header ++ (to_bytes 1 family ++ slab_bytes size w e)

  header_bytes : ProxyProtocolHeader → List ℕ
  header_bytes (af_inet e) = bytes_of 0x12 12 4 e
  header_bytes (af_inet6 e) = bytes_of 0x22 36 16 e

  writes_ends :
      (family size w : ℕ) (e : Ends) (out : List ℕ)
      → (elim ((add_raw v2_header >> write_ends family size w e) (0, out)) [
        | ok p ↦ ok p.1
        | err x ↦ err x
      ])
        ≡ ok (out ++ bytes_of family size w e)
  unfolding write_ends ◌>>◌ add_raw bytes_of slab_bytes ends_bytes
  writes_ends family size w e out = ap ok (simp append_assoc refl)

  written :
      (h : ProxyProtocolHeader) (out : List ℕ) → write_v2_udp h out ≡ ok (out ++ header_bytes h)
  unfolding write_v2_udp write_header header_bytes
  written (af_inet e) out = writes_ends 0x12 12 4 e out
  written (af_inet6 e) out = writes_ends 0x22 36 16 e out

  pure_lem : {A : Type 0} (a : A) (rest : List ℕ) → pure a rest ≡ ok (a, rest)
  unfolding pure
  pure_lem a rest = refl

  Reads-ends : (w : ℕ) (e : Ends) → IsEnds w e → Reads (read_ends w) (ends_bytes w e) e
  unfolding read_ends ends_bytes
  Reads-ends w e h = Reads-bind _ _ _ _ (Reads-read_uint w e.client_ip h.0) (
      Reads-bind _ _ _ _ (Reads-read_uint w e.proxy_ip h.1) (
        Reads-bind _ _ _ _ (Reads-read_uint 2 e.client_port h.2)
          (Reads-map _ _ _ (Reads-read_uint 2 e.proxy_port h.3) (pure_lem _))))

  Reads-slab :
      (size w : ℕ) (make : Ends → ProxyProtocolHeader) (e : Ends)
      → IsU16 size
      → IsEnds w e
      → Reads (read_slab size w make) (slab_bytes size w e) (some (make e))
  unfolding read_slab slab_bytes
  Reads-slab size w make e hs h =
      Reads-bind _ _ _ _ (Reads-read_uint 2 size hs)
        (rw (==_refl size) (Reads-map _ _ _ (Reads-ends w e h) (pure_lem _)))

  length-slab : (size w : ℕ) (e : Ends) → length (slab_bytes size w e) ≡ 2 + (w + (w + 4))
  unfolding slab_bytes ends_bytes
  length-slab size w e = simp (length-append, docs.length-to_bytes) (omega arith)

  parsed_slab :
      (n size w : ℕ) (make : Ends → ProxyProtocolHeader) (e : Ends) (rest : List ℕ)
      → IsU16 size
      → IsEnds w e
      → n ≡ 2 + (w + (w + 4))
      → parse_slab n (read_slab size w make) (slab_bytes size w e ++ rest) ≡ header (make e)
  unfolding parse_slab unwrapped
  parsed_slab n size w make e rest hs h k =
      let bs : List ℕ = slab_bytes size w e in
      let whole : read_slab size w make bs ≡ ok (some (make e), []) =
        ap (read_slab size w make) (sym (append-nil bs)) ∙ Reads-slab size w make e hs h [] in
      rw (Reads-read_exact n bs (length-slab size w e ∙ sym k) rest, parse_slab, whole) refl

  typed :
      (family size w : ℕ) (e : Ends) (rest : List ℕ)
      → family < 2 ^ 8
      → parse_v2_udp (bytes_of family size w e ++ rest)
        ≡ parse_proto family (slab_bytes size w e ++ rest)
  unfolding parse_v2_udp parse_type bytes_of same_bytes
  typed family size w e rest h =
      let tail : List ℕ = (to_bytes 1 family ++ slab_bytes size w e) ++ rest in
      let front : read_exact 13 (v2_header ++ tail) ≡ ok (v2_header, tail) =
        Reads-read_exact 13 v2_header refl tail in
      let kind : read_uint 1 tail ≡ ok (family, slab_bytes size w e ++ rest) =
        ap (read_uint 1) (append_assoc (to_bytes 1 family) (slab_bytes size w e) rest)
        ∙ Reads-read_uint 1 family h (slab_bytes size w e ++ rest) in
      rw (front, parse_v2_udp, kind, parse_type) refl

  -- A header whose fields are in range is written behind what is there, and read back from the
  -- front of any packet that starts with what was written.
  pub parse_v2_udp-write_v2_udp :
      (h : ProxyProtocolHeader) (out rest : List ℕ)
      → IsHeader h
      → (bytes : List ℕ) × (write_v2_udp h out ≡ ok (out ++ bytes))
        × (parse_v2_udp (bytes ++ rest) ≡ header h)
  unfolding header_bytes parse_proto
  parse_v2_udp-write_v2_udp (af_inet e) out rest h = (
    header_bytes (af_inet e),
    written (af_inet e) out,
    typed 0x12 12 4 e rest (omega arith) ∙ parsed_slab 14 12 4 af_inet e rest (omega arith) h refl,
  )
  parse_v2_udp-write_v2_udp (af_inet6 e) out rest h = (
    header_bytes (af_inet6 e),
    written (af_inet6 e) out,
    typed 0x22 36 16 e rest (omega arith)
        ∙ parsed_slab 38 36 16 af_inet6 e rest (omega arith) h refl,
  )
