-- ===== src/Udp/Flow/Tail/Total.antt =====
-- No packet makes `from_tail` panic.
use playit_ios.Common.{
  ℕ, ◌+◌, ◌-◌, ◌≤◌, ◌≡◌, ◌≢◌, refl, arith, List, Bool, true, false, Option, none, some, length,
  drop, ltb, if◌then◌else◌, ◌==◌, inl, inr, Bool-cases, length-drop, le→leb, take,
}
use playit_ios.Common.Io.{ok}
use playit_ios.Proto.Wire.{Crates, Reader, ◌>>=◌, pure, read_uint, read_exact}
use playit_ios.Udp.Flow.{UdpFlow, UdpFlowExtension, Endpoint}
use playit_ios.Udp.Flow.Tail.{
  Parsed, panicked, refused, unwrapped, read_endpoints, after_tunnel_id, after_client_id,
  read_extension, read_frag, read_4_v1, read_4_rest, read_4_v2, read_6_v1, read_6_rest, read_6_v2,
  from_last, from_4_v2, from_footer, from_tail, non_zero, last,
}

ltb-false : (n m : ℕ) → ltb m n ≡ false → n ≤ m
ltb-false n m h = ground arith

-- On `n` bytes the reader succeeds, and takes no more of them.
abbrev Within : {A : Type 0} → Reader A → ℕ → Type 0
Within {A} r n =
    (src : List ℕ)
    → n ≤ length src
    → (a : A) × (rest : List ℕ) × (r src ≡ ok (a, rest)) × (length src ≤ n + length rest)

Within-bind :
    {A B : Type 0} (r : Reader A) (k : A → Reader B) (n m : ℕ)
    → Within r n
    → ((a : A) → Within (k a) m)
    → Within (r >>= k) (n + m)
unfolding ◌>>=◌
Within-bind r k n m hr hk src h =
    let (a, rest, e, l) = hr src (omega arith) in
    let (b, rest', e', l') = hk a rest (omega arith) in (b, rest', rw (e, ◌>>=◌) e', omega arith)

Within-pure : {A : Type 0} (a : A) (n : ℕ) → Within (pure a) n
unfolding pure
Within-pure a n src h = (a, src, refl, omega arith)

Within-le : {A : Type 0} (r : Reader A) (n m : ℕ) → n ≤ m → Within r n → Within r m
Within-le r n m l h src e = let (a, rest, p, q) = h src (omega arith) in (a, rest, p, omega arith)

Within-if :
    {A : Type 0} (b : Bool) (r s : Reader A) (n : ℕ)
    → Within r n
    → Within s n
    → Within (if b then r else s) n
Within-if true r s n hr hs = hr
Within-if false r s n hr hs = hs

-- What was read is a flow or an early return, never a panic.
unwrapped-safe : (o : Option UdpFlow) (rest : List ℕ) → unwrapped (ok (o, rest)) ≢ panicked
unfolding unwrapped
unwrapped-safe none rest h = cc
unwrapped-safe (some flow) rest h = cc

Within-read_exact : (w : ℕ) → Within (read_exact w) w
unfolding read_exact
Within-read_exact w src h =
    (take w src, drop w src, rw (le→leb w (length src) h) refl, omega (arith, length-drop w src))

refused-safe : (id : Option ℕ) → refused id ≢ panicked
refused-safe id p = cc

module _ ⦃crates : Crates⦄ where
  Within-read_uint : (w : ℕ) → Within (read_uint w) w
  unfolding read_uint
  Within-read_uint w =
      Within-le _ (w + 0) w (omega arith)
        (Within-bind _ _ w 0 (Within-read_exact w) λ bytes. Within-pure _ 0)

  Within-endpoints : (w : ℕ) → Within (read_endpoints w) (w + (w + 4))
  unfolding read_endpoints
  Within-endpoints w = Within-bind _ _ w _ (Within-read_uint w) λ a.
      Within-bind _ _ w 4 (Within-read_uint w) λ b.
        Within-bind _ _ 2 2 (Within-read_uint 2)
          λ c. Within-bind _ _ 2 0 (Within-read_uint 2) λ d. Within-pure _ 0

  Within-extension : Within read_extension 18
  unfolding read_extension after_client_id after_tunnel_id
  Within-extension = Within-bind _ _ 8 10 (Within-read_uint 8) λ c.
      Within-if _ _ _ 10 (Within-pure _ 10) (
        Within-bind _ _ 8 2 (Within-read_uint 8) λ t.
          Within-if _ _ _ 2 (Within-pure _ 2)
            (Within-bind _ _ 2 0 (Within-read_uint 2) λ o. Within-pure _ 0))

  -- The length is checked before the reads.
  from_last-safe :
      (n : ℕ) (r : Reader (Option UdpFlow)) (src : List ℕ)
      → Within r n
      → from_last n r src ≢ panicked
  unfolding from_last
  from_last-safe n r src h = elim (Bool-cases (ltb (length src) n)) [
    | inl e ↦ rw (e) (λ p. cc)
    | inr e ↦
        let long : n ≤ length src = ltb-false n (length src) e in
        let enough : n ≤ length (last n src) = omega (arith, length-drop (length src - n) src) in
        let (o, rest, p, q) = h (last n src) enough in rw (e, p) (unwrapped-safe o rest)
  ]

  Within-frag : (id : Option ℕ) → Within (read_frag id) 3
  unfolding read_frag
  Within-frag none = Within-pure none 3
  Within-frag (some id) =
      Within-bind _ _ 1 2 (Within-read_uint 1)
        λ m. Within-bind _ _ 2 0 (Within-read_uint 2) λ o. Within-pure _ 0

  Within-4_v1 : Within read_4_v1 20
  unfolding read_4_v1
  Within-4_v1 = Within-bind _ _ 12 8 (Within-endpoints 4) λ p. Within-pure _ 8

  -- Without a packet's number nothing of a fragment is read.
  Within-4_rest :
      (id : ℕ) (p : Endpoint × Endpoint) (e : Option UdpFlowExtension)
      → Within (read_4_rest id p e) (if id == 0 then 10 else 13)
  unfolding read_4_rest non_zero read_frag pure
  Within-4_rest id p none = Within-pure _ _
  Within-4_rest id p (some e) = elim (Bool-cases (id == 0)) [
    | inl z ↦ rw (z) (Within-bind _ _ 0 10 (Within-pure none 0) λ f. Within-pure _ 10)
    | inr z ↦ rw (z) (Within-bind _ _ 3 10 (Within-frag (some id)) λ f. Within-pure _ 10)
  ]

  Within-6_v1 : Within read_6_v1 48
  unfolding read_6_v1
  Within-6_v1 =
      Within-bind _ _ 36 12 (Within-endpoints 16)
        λ p. Within-bind _ _ 4 8 (Within-read_uint 4) λ l. Within-pure _ 8

  Within-6_rest :
      (p : Endpoint × Endpoint) (e : Option UdpFlowExtension) → Within (read_6_rest p e) 8
  unfolding read_6_rest
  Within-6_rest p none = Within-pure _ 8
  Within-6_rest p (some e) = Within-pure _ 8

  Within-6_v2 : Within read_6_v2 62
  unfolding read_6_v2
  Within-6_v2 =
      Within-bind _ _ 36 26 (Within-endpoints 16)
        λ p. Within-bind _ _ 18 8 Within-extension λ e. Within-6_rest p e

  Within-4_v2 : (id : ℕ) → Within (read_4_v2 id) (if id == 0 then 40 else 43)
  unfolding read_4_v2
  Within-4_v2 id = Within-le _ (12 + (18 + (if id == 0 then 10 else 13))) _ (ground arith) (
      Within-bind _ _ 12 _ (Within-endpoints 4)
        λ p. Within-bind _ _ 18 _ Within-extension λ e. Within-4_rest id p e)

  from_4_v2-safe : (src : List ℕ) → from_4_v2 src ≢ panicked
  unfolding from_4_v2
  from_4_v2-safe src = elim (Bool-cases (ltb (length src) 10)) [
    | inl e ↦ rw (e) (λ p. cc)
    | inr e ↦ rw (e) (from_last-safe _ _ src (Within-4_v2 _))
  ]

  if-safe :
      (b : Bool) (p q : Parsed) → p ≢ panicked → q ≢ panicked → (if b then p else q) ≢ panicked
  if-safe true p q hp hq = hp
  if-safe false p q hp hq = hq

  from_footer-safe : (id : ℕ) (src : List ℕ) → from_footer id src ≢ panicked
  unfolding from_footer
  from_footer-safe id src = if-safe _ _ _ (from_last-safe 20 _ src Within-4_v1) (
      if-safe _ _ _ (from_4_v2-safe src) (
        if-safe _ _ _ (from_last-safe 48 _ src Within-6_v1)
          (if-safe _ _ _ (from_last-safe 62 _ src Within-6_v2) (refused-safe _))))

  -- On no packet, of whatever length and content, does one of the reads that `from_tail` unwraps
  -- run out of bytes.
  pub from_tail-safe : (src : List ℕ) → from_tail src ≢ panicked
  unfolding from_tail
  from_tail-safe src = if-safe _ _ _ (refused-safe _) (from_footer-safe _ src)
