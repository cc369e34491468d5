-- ===== src/Proto/Wire/Readers.antt =====
-- Readers that take bytes off the front of their input and look no further.
use playit_ios.Common.{
  ℕ, ◌≡◌, ◌≢◌, ap, sym, ◌∙◌, List, [], ◌∷◌, ◌++◌, append_assoc, append-nil, length, length-append,
  take-append, drop-append, take-append-drop, le→leb, length-take, if◌then◌else◌, arith, Bool, true,
  false, inl, inr, ◌==◌, min, Bool-cases, leb, take, drop, refl,
}
use playit_ios.Common.Io.{ok, err, ErrorKind, Result-cases, unexpected_eof}
use playit_ios.Proto.Wire.{Reader, ◌>>=◌, pure, fail, read_exact, read_some, Crates, read_uint}

-- The reader takes exactly `bytes` off the front and returns `a`.
abbrev pub Reads : {A : Type 0} → Reader A → List ℕ → A → Type 0
Reads r bytes a = (rest : List ℕ) → r (bytes ++ rest) ≡ ok (a, rest)

-- Whatever the reader accepts, it accepts by a prefix of its input alone.
pub record Takes {A : Type 0} (r : Reader A) : Type 0 where
  pub prefix :
      (src rest : List ℕ) (a : A)
      → r src ≡ ok (a, rest)
      → (bytes : List ℕ) × (src ≡ bytes ++ rest) × Reads r bytes a

module _ {A B : Type 0} where
  pub Reads-bind :
      (r : Reader A) (k : A → Reader B) (front back : List ℕ) {a : A} {b : B}
      → Reads r front a
      → Reads (k a) back b
      → Reads (r >>= k) (front ++ back) b
  unfolding ◌>>=◌
  Reads-bind r k front back h g rest =
      rw (append_assoc front back rest, h (back ++ rest), ◌>>=◌) (g rest)

  -- What follows without reading changes the value alone.
  pub Reads-map :
      (r : Reader A) (k : A → Reader B) (bytes : List ℕ) {a : A} {b : B}
      → Reads r bytes a
      → ((rest : List ℕ) → k a rest ≡ ok (b, rest))
      → Reads (r >>= k) bytes b
  unfolding ◌>>=◌
  Reads-map r k bytes h e rest = rw (h rest, ◌>>=◌) (e rest)

  bind_ok :
      (r : Reader A) (k : A → Reader B) (src : List ℕ) {p : B × List ℕ}
      → (r >>= k) src ≡ ok p
      → (a : A) × (mid : List ℕ) × (r src ≡ ok (a, mid)) × (k a mid ≡ ok p)
  unfolding ◌>>=◌
  bind_ok r k src {p} h = elim (Result-cases (r src)) [
    | inl (q, e) ↦ (q.0, q.1, e, rw (e, ◌>>=◌) at h)
    | inr (x, e) ↦ cc (let f : err x ≡ ok p = rw (e, ◌>>=◌) at h in f)
  ]

  pub Takes-bind :
      (r : Reader A) (k : A → Reader B) → Takes r → ((a : A) → Takes (k a)) → Takes (r >>= k)
  Takes-bind r k h g = record {
    prefix = λ src rest b e.
        let (a, mid, first, second) = bind_ok r k src e in
        let (front, split, reads) = h.prefix src mid a first in
        let (back, split', reads') = (g a).prefix mid rest b second in
        (
          front ++ back,
          split ∙ ap (λ t. front ++ t) split' ∙ sym (append_assoc front back rest),
          Reads-bind r k front back reads reads',
        );
  }

module _ {A : Type 0} where
  pub Reads-pure : (a : A) → Reads (pure a) [] a
  unfolding pure
  Reads-pure a rest = refl

  pub Takes-pure : (a : A) → Takes (pure a)
  unfolding pure
  Takes-pure a = record { prefix = λ src rest b e. ([], cc, λ more. cc) }

  pub Takes-fail : (e : ErrorKind) → Takes (fail {A = A} e)
  unfolding fail
  Takes-fail e = record { prefix = λ src rest b h. absurd (cc) }

  pub Takes-if : (t : Bool) (r s : Reader A) → Takes r → Takes s → Takes (if t then r else s)
  Takes-if true r s h g = h
  Takes-if false r s h g = g

  -- Readers that agree everywhere are alike.
  pub Takes-eq : (r s : Reader A) → ((src : List ℕ) → r src ≡ s src) → Takes s → Takes r
  Takes-eq r s same h = record {
    prefix = λ src rest a e.
        let (bytes, split, reads) = h.prefix src rest a (sym (same src) ∙ e) in
        (bytes, split, λ more. same _ ∙ reads more);
  }

  -- Where a value's bytes end early, the reader accepts nothing.
  pub Takes-truncated :
      (r : Reader A) {a : A} (front back : List ℕ) (x : ℕ)
      → Takes r
      → Reads r (front ++ (x ∷ back)) a
      → (b : A) (rest : List ℕ) → r front ≢ ok (b, rest)
  Takes-truncated r front back x h whole b rest e =
      let (bytes, split, reads) = h.prefix front rest b e in
      let long : r (front ++ (x ∷ back)) ≡ ok (b, rest ++ (x ∷ back)) =
        rw (split, append_assoc) (reads (rest ++ (x ∷ back))) in
      let short : r (front ++ (x ∷ back)) ≡ ok (_, []) = rw append-nil at (whole []) in
      omega (
        arith,
        length-append rest (x ∷ back),
        ap length (let same : rest ++ (x ∷ back) ≡ [] = cc in same),
      )

pub Reads-read_exact : (n : ℕ) (bs : List ℕ) → length bs ≡ n → Reads (read_exact n) bs bs
unfolding read_exact
Reads-read_exact n bs h rest = rw (
  le→leb n (length (bs ++ rest)) (omega (arith, length-append bs rest)),
  take-append n bs rest h,
  drop-append n bs rest h,
)

read_exact_parts :
    (n : ℕ) (src rest : List ℕ) (a : List ℕ)
    → read_exact n src ≡ ok (a, rest)
    → (length a ≡ n) × (src ≡ a ++ rest)
unfolding read_exact
read_exact_parts n src rest a e = ground (arith, take-append-drop n src, length-take n src)

pub Takes-read_exact : (n : ℕ) → Takes (read_exact n)
Takes-read_exact n = record {
  prefix = λ src rest a e.
      let (size, split) = read_exact_parts n src rest a e in (a, split, Reads-read_exact n a size);
}

read_exact_fits :
    (n : ℕ) (src : List ℕ)
    → leb n (length src) ≡ true
    → read_exact n src ≡ ok (take n src, drop n src)
unfolding read_exact
read_exact_fits n src h = rw h

read_exact_short :
    (n : ℕ) (src : List ℕ) → leb n (length src) ≡ false → read_exact n src ≡ err unexpected_eof
unfolding read_exact
read_exact_short n src h = rw h

full_iff : (n m : ℕ) → (min n m == n) ≡ leb n m
full_iff n m = ground arith

-- `read` into a buffer of `n` bytes, refused unless it was filled, is `read_exact`.
pub read_some_full :
    {B : Type 0} (n : ℕ) (k : List ℕ → Reader B) (src : List ℕ)
    → (read_some n >>= λ p. if p.0 == n then k p.1 else fail unexpected_eof) src
      ≡ (read_exact n >>= k) src
unfolding read_some ◌>>=◌ fail
read_some_full n k src = elim (Bool-cases (leb n (length src))) [
  | inl fits ↦ rw (read_exact_fits n src fits, full_iff n (length src) ∙ fits, ◌>>=◌)
  | inr short ↦ rw (read_exact_short n src short, full_iff n (length src) ∙ short, ◌>>=◌)
]

module _ ⦃crates : Crates⦄ where
  pub Takes-read_uint : (w : ℕ) → Takes (read_uint w)
  unfolding read_uint
  Takes-read_uint w =
      Takes-bind (read_exact w) (λ bytes. pure (crates.of_bytes bytes)) (Takes-read_exact w)
        (λ bytes. Takes-pure _)

-- A reader's prefix follows its statements.
pub ruleset takes =
    (Takes-bind, Takes-pure, Takes-fail, Takes-if, Takes-read_uint, Takes-read_exact)
