-- ===== src/Proto/Wire/Laws.antt =====
-- The round trip of a writer and a reader, by rules that follow the statements of their code.
use mathlib.Core.Path.{fun_ext}
use playit_ios.Common.{
  ℕ, ◌+◌, ◌*◌, ◌^◌, ◌<◌, ◌≡◌, refl, ap, ◌∙◌, List, [], ◌++◌, append_assoc, append-nil, none, some,
  length, length-append, arith, inl, inr, Option,
}
use playit_ios.Common.Io.{ok, Result-cases}
use native.Mathlib.Nat.{add_assoc}
use playit_ios.Proto.Wire.Readers.{
  Reads, Takes, Takes-eq, Takes-read_uint, Reads-bind, Reads-read_exact,
}
use playit_ios.Proto.Wire.{
  Reader, Writing, ◌>>=◌, ◌>>◌, pure, finish, MessageEncoding, add, add_raw, read_exact, Crates,
  read_uint, IpAddr, SocketAddr, IsU16, IsU32, IsU64, IsIpAddr, IsSocketAddr, encoding,
}

-- The statement appends `bytes` and adds `count` to the sum.
abbrev pub Writes : Writing → ℕ → List ℕ → Type 0
Writes w count bytes = (sum : ℕ) (out : List ℕ) → w (sum, out) ≡ ok (sum + count, out ++ bytes)

-- What `w` writes, `r` reads back as `a`; the sum counts the bytes.
pub record Codes {A : Type 0} (w : Writing) (r : Reader A) (a : A) : Type 0 where
  pub bytes : List ℕ
  pub writes : Writes w (length bytes) bytes
  pub reads : Reads r bytes a

-- What `write_to` makes of `a`, `read_from` reads back as `b`; the count is that of the bytes.
pub record ReadsBack {A : Type 0} (m : MessageEncoding A) (a b : A) : Type 0 where
  pub bytes : List ℕ
  pub writes : (out : List ℕ) → m.write_to a out ≡ ok (length bytes, out ++ bytes)
  pub reads : Reads m.read_from bytes b

-- The value survives the trip.
abbrev pub RoundTrips : {A : Type 0} → MessageEncoding A → A → Type 0
RoundTrips m a = ReadsBack m a a

module _ {A B : Type 0} where
  pub Codes-bind :
      (v w : Writing) (r : Reader A) (k : A → Reader B) {a : A} {b : B}
      → Codes v r a
      → Codes w (k a) b
      → Codes (v >> w) (r >>= k) b
  unfolding ◌>>◌
  Codes-bind v w r k {a} {b} h g = record {
    bytes = h.bytes ++ g.bytes;
    writes = λ sum out.
        rw (h.writes sum out, ◌>>◌)
          (g.writes (sum + length h.bytes) (out ++ h.bytes)
            ∙ rw (
              length-append h.bytes g.bytes,
              append_assoc out h.bytes g.bytes,
              add_assoc sum (length h.bytes) (length g.bytes),
            ));
    reads = Reads-bind r k h.bytes g.bytes h.reads g.reads;
  }

-- What follows a reader without reading changes the value alone.
pub Codes-map :
    {A B : Type 0} (v : Writing) (r : Reader A) (k : A → Reader B) {a : A} {b : B}
    → Codes v r a
    → ((rest : List ℕ) → k a rest ≡ ok (b, rest))
    → Codes v (r >>= k) b
unfolding ◌>>=◌
Codes-map v r k h e = record {
  bytes = h.bytes;
  writes = h.writes;
  reads = λ rest. rw (h.reads rest, ◌>>=◌) (e rest);
}

-- Statements and readers that agree everywhere are alike.
pub Codes-eq :
    {A : Type 0} (v w : Writing) (r s : Reader A) {a : A}
    → v ≡ w
    → r ≡ s
    → Codes w s a
    → Codes v r a
Codes-eq v w r s p q h = rw (p, q) h

pub Codes-finish : {A : Type 0} (a : A) → Codes finish (pure a) a
unfolding finish pure
Codes-finish a = record {
  bytes = [];
  writes = λ sum out. rw (append-nil out) (ap (λ (n : ℕ). ok (n, out)) (omega arith));
  reads = λ rest. refl;
}

pub >>-ok : (v w : Writing) {s t : ℕ × List ℕ} → v s ≡ ok t → (v >> w) s ≡ w t
unfolding ◌>>◌
>>-ok v w h = rw (h, ◌>>◌)

pub >>-assoc : (u v w : Writing) → ((u >> v) >> w) ≡ (u >> (v >> w))
unfolding ◌>>◌
>>-assoc u v w =
    fun_ext λ s. elim (Result-cases (u s)) [ inl (t, e) ↦ rw (e, ◌>>◌) | inr (x, e) ↦ rw (e, ◌>>◌) ]

-- The round trip of a whole value is one statement, and its statements make one.
pub from_zero :
    {A : Type 0} (w : Writing) (r : Reader A) {a : A} (h : Codes w r a) (out : List ℕ)
    → w (0, out) ≡ ok (length h.bytes, out ++ h.bytes)
from_zero w r h out = h.writes 0 out ∙ ap (λ (n : ℕ). ok (n, out ++ h.bytes)) (omega arith)

-- A property of what an option holds.
abbrev pub Every {ℓ} : {A : Type ℓ} → (A → Type 0) → Option A → Type 0
Every P none = Unit {0}
Every P (some a) = P a

-- A whole value's statement, from the statements that its implementation makes.
pub Codes-write :
    {A B : Type 0} (m : MessageEncoding A) (a : A) (w : Writing) (r : Reader B) {b : B}
    → ((out : List ℕ) → m.write_to a out ≡ w (0, out))
    → Codes w r b
    → Codes (add m a) r b
unfolding add
Codes-write m a w r e h = record {
  bytes = h.bytes;
  writes = λ sum out. rw (e out ∙ from_zero w r h out, add);
  reads = h.reads;
}

pub Codes-add :
    {A : Type 0} (m : MessageEncoding A) (a : A) {b : A}
    → ReadsBack m a b
    → Codes (add m a) m.read_from b
unfolding add
Codes-add m a h = record {
  bytes = h.bytes;
  writes = λ sum out. rw (h.writes out, add);
  reads = h.reads;
}

pub ReadsBack-of_Codes :
    {A : Type 0} (w : A → Writing) (r : Reader A) (a : A) {b : A}
    → Codes (w a) r b
    → ReadsBack (encoding w r) a b
ReadsBack-of_Codes w r a h = record {
  bytes = h.bytes;
  writes = from_zero (w a) r h;
  reads = h.reads;
}

pub Codes-add_raw : (n : ℕ) (bs : List ℕ) → length bs ≡ n → Codes (add_raw bs) (read_exact n) bs
unfolding add_raw
Codes-add_raw n bs h = record {
  bytes = bs;
  writes = λ sum out. refl;
  reads = Reads-read_exact n bs h;
}

module _ ⦃crates : Crates⦄ where
  open crates use {to_bytes, of_bytes, u16, u32, u64, vec_u8, ip_addr, socket_addr, option}

  -- What the code relies on in byteorder and message_encoding.
  pub record Documented : Type 1 where
    pub length-to_bytes : (w n : ℕ) → length (to_bytes w n) ≡ w
    pub of_bytes-to_bytes : (w n : ℕ) → n < 2 ^ (8 * w) → of_bytes (to_bytes w n) ≡ n
    -- Numbers are written big-endian, at their width.
    pub u16_writes :
        (n : ℕ) (out : List ℕ) → IsU16 n → u16.write_to n out ≡ ok (2, out ++ to_bytes 2 n)
    pub u32_writes :
        (n : ℕ) (out : List ℕ) → IsU32 n → u32.write_to n out ≡ ok (4, out ++ to_bytes 4 n)
    pub u64_writes :
        (n : ℕ) (out : List ℕ) → IsU64 n → u64.write_to n out ≡ ok (8, out ++ to_bytes 8 n)
    pub u16_reads : (src : List ℕ) → u16.read_from src ≡ read_uint 2 src
    pub u32_reads : (src : List ℕ) → u32.read_from src ≡ read_uint 4 src
    pub u64_reads : (src : List ℕ) → u64.read_from src ≡ read_uint 8 src
    -- The other implementations read back what they write.
    pub vec_u8-RoundTrips : (bs : List ℕ) → IsU64 (length bs) → RoundTrips vec_u8 bs
    pub ip_addr-RoundTrips : (a : IpAddr) → IsIpAddr a → RoundTrips ip_addr a
    pub socket_addr-RoundTrips : (a : SocketAddr) → IsSocketAddr a → RoundTrips socket_addr a
    -- Their readers look no further than the value.
    pub vec_u8-Takes : Takes vec_u8.read_from
    pub ip_addr-Takes : Takes ip_addr.read_from
    pub socket_addr-Takes : Takes socket_addr.read_from
    pub option-Takes :
        {A : Type 0} (m : MessageEncoding A) → Takes m.read_from → Takes (option m).read_from
    pub option-none : {A : Type 0} (m : MessageEncoding A) → RoundTrips (option m) none
    pub option-some :
        {A : Type 0} (m : MessageEncoding A) (a : A)
        → RoundTrips m a
        → RoundTrips (option m) (some a)

module _ ⦃crates : Crates⦄ ⦃docs : Documented⦄ where
  pub Reads-read_uint : (w n : ℕ) → n < 2 ^ (8 * w) → Reads (read_uint w) (crates.to_bytes w n) n
  unfolding read_uint
  Reads-read_uint w n h rest =
      rw (Reads-read_exact w (crates.to_bytes w n) (docs.length-to_bytes w n) rest, ◌>>=◌)
        (rw (docs.of_bytes-to_bytes w n h))

  -- The three widths that message_encoding writes, read by byteorder or by message_encoding.
  pub Codes-u16 : (n : ℕ) → IsU16 n → Codes (add crates.u16 n) (read_uint 2) n
  unfolding add
  Codes-u16 n h = record {
    bytes = crates.to_bytes 2 n;
    writes = λ sum out. rw (docs.u16_writes n out h, add, docs.length-to_bytes 2 n);
    reads = Reads-read_uint 2 n h;
  }

  pub Codes-u32 : (n : ℕ) → IsU32 n → Codes (add crates.u32 n) (read_uint 4) n
  unfolding add
  Codes-u32 n h = record {
    bytes = crates.to_bytes 4 n;
    writes = λ sum out. rw (docs.u32_writes n out h, add, docs.length-to_bytes 4 n);
    reads = Reads-read_uint 4 n h;
  }

  pub Codes-u64 : (n : ℕ) → IsU64 n → Codes (add crates.u64 n) (read_uint 8) n
  unfolding add
  Codes-u64 n h = record {
    bytes = crates.to_bytes 8 n;
    writes = λ sum out. rw (docs.u64_writes n out h, add, docs.length-to_bytes 8 n);
    reads = Reads-read_uint 8 n h;
  }

  pub u16-RoundTrips : (n : ℕ) → IsU16 n → RoundTrips crates.u16 n
  u16-RoundTrips n h = record {
    bytes = crates.to_bytes 2 n;
    writes = λ out. rw (docs.u16_writes n out h, docs.length-to_bytes 2 n);
    reads = λ rest. docs.u16_reads _ ∙ Reads-read_uint 2 n h rest;
  }

  pub u32-RoundTrips : (n : ℕ) → IsU32 n → RoundTrips crates.u32 n
  u32-RoundTrips n h = record {
    bytes = crates.to_bytes 4 n;
    writes = λ out. rw (docs.u32_writes n out h, docs.length-to_bytes 4 n);
    reads = λ rest. docs.u32_reads _ ∙ Reads-read_uint 4 n h rest;
  }

  pub u64-RoundTrips : (n : ℕ) → IsU64 n → RoundTrips crates.u64 n
  u64-RoundTrips n h = record {
    bytes = crates.to_bytes 8 n;
    writes = λ out. rw (docs.u64_writes n out h, docs.length-to_bytes 8 n);
    reads = λ rest. docs.u64_reads _ ∙ Reads-read_uint 8 n h rest;
  }

  pub u16-Takes : Takes crates.u16.read_from
  u16-Takes = Takes-eq _ (read_uint 2) docs.u16_reads (Takes-read_uint 2)

  pub u32-Takes : Takes crates.u32.read_from
  u32-Takes = Takes-eq _ (read_uint 4) docs.u32_reads (Takes-read_uint 4)

  pub u64-Takes : Takes crates.u64.read_from
  u64-Takes = Takes-eq _ (read_uint 8) docs.u64_reads (Takes-read_uint 8)

  pub option-RoundTrips :
      {A : Type 0} (m : MessageEncoding A) (P : A → Type 0)
      → ((a : A) → P a → RoundTrips m a)
      → (o : Option A) → Every P o
      → RoundTrips (crates.option m) o
  option-RoundTrips m P h none e = docs.option-none m
  option-RoundTrips m P h (some a) e = docs.option-some m a (h a e)
