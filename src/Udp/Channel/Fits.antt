-- ===== src/Udp/Channel/Fits.antt =====
-- A flow that is read from a packet has a footer that the packet is long enough for.
use playit_ios.Common.{
  ℕ, ◌≤◌, arith, List, length, Bool, true, false, if◌then◌else◌, if-both, ltb, ◌==◌, Option, none,
  some, take,
}
use playit_ios.Common.Io.{Result, ok, err}
use playit_ios.Proto.Wire.{Crates, Reader, ◌>>=◌, pure}
use playit_ios.Udp.Flow.{
  UdpFlow, v4, v6, Endpoint, FragmentInfo, UdpFlowExtension, footer_len, ip4_len_v2_without_frag,
  ip4_len_v2_with_frag,
}
use playit_ios.Udp.Flow.Tail.{
  Parsed, parsed, refused, unwrapped, last, from_last, from_4_v2, from_footer, from_tail, read_4_v1,
  read_4_v2, read_4_rest, read_6_v1, read_6_v2, read_6_rest, read_frag, non_zero,
}

-- A result that has the property, if it is one.
abbrev HoldsOf : {A : Type 0} → (A → Type 0) → Result (A × List ℕ) → Type 0
HoldsOf P (ok (a, rest)) = P a
HoldsOf P (err e) = Unit

abbrev Yields : {A : Type 0} → Reader A → (A → Type 0) → Type 0
Yields r P = (src : List ℕ) → HoldsOf P (r src)

Yields-pure : {A : Type 0} (P : A → Type 0) (a : A) → P a → Yields (pure a) P
unfolding pure
Yields-pure P a h src = h

Yields-bind :
    {A B : Type 0} (m : Reader A) (f : A → Reader B) (P : B → Type 0)
    → ((a : A) → Yields (f a) P)
    → Yields (m >>= f) P
unfolding ◌>>=◌
Yields-bind {A = A} m f P h src = after (m src)
  where
    after : (x : Result (A × List ℕ)) → HoldsOf P (elim x [ ok p ↦ f p.0 p.1 | err e ↦ err e ])
    after (ok (a, rest)) = h a rest
    after (err e) = tt

-- A flow whose footer is at most `n` bytes long.
abbrev Small : ℕ → Option UdpFlow → Type 0
Small n none = Unit
Small n (some flow) = footer_len flow ≤ n

-- A flow whose footer the packet is long enough for.
unfoldable pub Fits : ℕ → Parsed → Type 0
Fits n (parsed flow) = footer_len flow ≤ n
Fits n _ = Unit

unwrapped-Fits :
    {m n : ℕ} (r : Result (Option UdpFlow × List ℕ))
    → m ≤ n
    → HoldsOf (Small m) r
    → Fits n (unwrapped r)
unfolding unwrapped Fits
unwrapped-Fits (ok (some flow, rest)) le h = omega arith
unwrapped-Fits (ok (none, rest)) le h = tt
unwrapped-Fits (err e) le h = tt

module _ ⦃crates : Crates⦄ where
  from_last-Fits :
      (n : ℕ) (r : Reader (Option UdpFlow)) (src : List ℕ)
      → Yields r (Small n)
      → Fits (length src) (from_last n r src)
  unfolding from_last Fits
  from_last-Fits n r src h =
      if-both (Fits (length src)) (ltb (length src) n) {x = refused none}
        {y = unwrapped (r (last n src))} (λ e. tt)
        (λ e. unwrapped-Fits (r (last n src)) (ground arith) (h (last n src)))

  Yields-4_v1 : Yields read_4_v1 (Small 20)
  unfolding read_4_v1 footer_len
  Yields-4_v1 =
      Yields-bind _ _ (Small 20)
        (λ p. Yields-pure (Small 20) (some (v4 p.0 p.1 none none)) (omega arith))

  Yields-6_v1 : Yields read_6_v1 (Small 48)
  unfolding read_6_v1 footer_len
  Yields-6_v1 = Yields-bind _ _ (Small 48) (λ p.
      Yields-bind _ _ (Small 48)
        (λ l. Yields-pure (Small 48) (some (v6 p.0 p.1 none)) (omega arith)))

  Yields-6_rest :
      (p : Endpoint × Endpoint) (e : Option UdpFlowExtension) → Yields (read_6_rest p e) (Small 62)
  unfolding read_6_rest footer_len
  Yields-6_rest p none = Yields-pure (Small 62) none tt
  Yields-6_rest p (some e) = Yields-pure (Small 62) (some (v6 p.0 p.1 (some e))) (omega arith)

  Yields-6_v2 : Yields read_6_v2 (Small 62)
  unfolding read_6_v2
  Yields-6_v2 =
      Yields-bind _ _ (Small 62) (λ p. Yields-bind _ _ (Small 62) (λ e. Yields-6_rest p e))

  -- The length that `from_4_v2` checks for.
  abbrev v2_length : ℕ → ℕ
  v2_length id = if id == 0 then ip4_len_v2_without_frag else ip4_len_v2_with_frag

  frag-Small :
      (n : ℕ) (p : Endpoint × Endpoint) (e : UdpFlowExtension) (frag : Option FragmentInfo)
      → ip4_len_v2_with_frag ≤ n
      → Small n (some (v4 p.0 p.1 frag (some e)))
  unfolding footer_len
  frag-Small n p e none h = omega arith
  frag-Small n p e (some f) h = omega arith

  -- Without a packet's number nothing of a fragment is read.
  Yields-frag :
      (id : ℕ) (p : Endpoint × Endpoint) (e : UdpFlowExtension) (b : Bool)
      → Yields
          (read_frag (if b then none else some id) >>= λ frag.
            pure (some (v4 p.0 p.1 frag (some e))))
          (Small (if b then ip4_len_v2_without_frag else ip4_len_v2_with_frag))
  unfolding read_frag pure ◌>>=◌ footer_len
  Yields-frag id p e true = λ src. omega arith
  Yields-frag id p e false =
      Yields-bind (read_frag (some id)) (λ frag. pure (some (v4 p.0 p.1 frag (some e))))
        (Small ip4_len_v2_with_frag)
        (λ frag.
          Yields-pure (Small ip4_len_v2_with_frag) (some (v4 p.0 p.1 frag (some e)))
            (frag-Small ip4_len_v2_with_frag p e frag (omega arith)))

  Yields-4_rest :
      (id : ℕ) (p : Endpoint × Endpoint) (e : Option UdpFlowExtension)
      → Yields (read_4_rest id p e) (Small (v2_length id))
  unfolding read_4_rest non_zero
  Yields-4_rest id p none = Yields-pure (Small (v2_length id)) none tt
  Yields-4_rest id p (some e) = Yields-frag id p e (id == 0)

  Yields-4_v2 : (id : ℕ) → Yields (read_4_v2 id) (Small (v2_length id))
  unfolding read_4_v2
  Yields-4_v2 id =
      Yields-bind _ _ (Small (v2_length id))
        (λ p. Yields-bind _ _ (Small (v2_length id)) (λ e. Yields-4_rest id p e))

  from_4_v2-Fits : (src : List ℕ) → Fits (length src) (from_4_v2 src)
  unfolding from_4_v2 Fits
  from_4_v2-Fits src =
      let id = crates.of_bytes (take 2 (last 10 src)) in
      if-both (Fits (length src)) (ltb (length src) 10) {x = refused none}
        {y = from_last (v2_length id) (read_4_v2 id) src} (λ h. tt)
        (λ h. from_last-Fits (v2_length id) (read_4_v2 id) src (Yields-4_v2 id))

  refused-Fits : (n : ℕ) (id : Option ℕ) → Fits n (refused id)
  unfolding Fits
  refused-Fits n id = tt

  if-Fits : (n : ℕ) (b : Bool) (p q : Parsed) → Fits n p → Fits n q → Fits n (if b then p else q)
  if-Fits n true p q hp hq = hp
  if-Fits n false p q hp hq = hq

  from_footer-Fits : (id : ℕ) (src : List ℕ) → Fits (length src) (from_footer id src)
  unfolding from_footer
  from_footer-Fits id src =
      if-Fits (length src) _ _ _ (from_last-Fits 20 read_4_v1 src Yields-4_v1) (
        if-Fits (length src) _ _ _ (from_4_v2-Fits src) (
          if-Fits (length src) _ _ _ (from_last-Fits 48 read_6_v1 src Yields-6_v1) (
            if-Fits (length src) _ _ _ (from_last-Fits 62 read_6_v2 src Yields-6_v2)
              (refused-Fits _ _))))

  pub from_tail-Fits : (src : List ℕ) → Fits (length src) (from_tail src)
  unfolding from_tail
  from_tail-Fits src = if-Fits (length src) _ _ _ (refused-Fits _ _) (from_footer-Fits _ src)
