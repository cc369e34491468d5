-- ===== src/Proto/Wire.antt =====
-- Reading and writing messages: the trait `MessageEncoding`, the readers and writers that its
-- implementations in packages/agent_proto/src are made of, and the crates that they call.
-- A writer is a `Vec<u8>`, which takes every byte; a reader is a `&[u8]`.
pub mod Laws
pub mod Readers
pub mod Cut
use playit_ios.Common.{
  ℕ, ◌+◌, ◌*◌, ◌^◌, ◌<◌, ◌≡◌, List, ◌++◌, Option, length, take, drop, leb, if◌then◌else◌, min, ◌==◌,
}
use playit_ios.Common.Io.{Result, ok, err, ErrorKind, unexpected_eof}

-- What is read so far is dropped from the front of the input.
abbrev pub Reader : Type 0 → Type 0
Reader A = List ℕ → Result (A × List ℕ)

-- One statement of a `write_to`: it takes the running sum and the output, and returns both.
abbrev pub Writing : Type 0
Writing = ℕ × List ℕ → Result (ℕ × List ℕ)

infixl 5 ◌>>=◌ ◌>>◌
unfoldable pub ◌>>=◌ : {A B : Type 0} → Reader A → (A → Reader B) → Reader B
◌>>=◌ m f src = elim (m src) [ ok p ↦ f p.0 p.1 | err e ↦ err e ]

unfoldable pub ◌>>◌ : Writing → Writing → Writing
◌>>◌ v w s = elim (v s) [ ok t ↦ w t | err e ↦ err e ]

unfoldable pub pure : {A : Type 0} → A → Reader A
pure a src = ok (a, src)

unfoldable pub fail : {A : Type 0} → ErrorKind → Reader A
fail e src = err e

-- `Ok(sum)`
unfoldable pub finish : Writing
finish s = ok s

-- `return Err(..)` in a `write_to`.
unfoldable pub refuse : ErrorKind → Writing
refuse e s = err e

pub record MessageEncoding (A : Type 0) : Type 0 where
  pub write_to : A → List ℕ → Result (ℕ × List ℕ)
  pub read_from : Reader A

-- An implementation by the statements of its `write_to`, which start from an empty sum.
abbrev pub encoding : {A : Type 0} → (A → Writing) → Reader A → MessageEncoding A
encoding w r = record { write_to = λ a out. w a (0, out); read_from = r }

-- `sum += a.write_to(out)?`
unfoldable pub add : {A : Type 0} → MessageEncoding A → A → Writing
add m a (sum, out) = elim (m.write_to a out) [ ok p ↦ ok (sum + p.0, p.1) | err e ↦ err e ]

-- `out.write_all(bytes)?; sum += bytes.len()`
unfoldable pub add_raw : List ℕ → Writing
add_raw bytes (sum, out) = ok (sum + length bytes, out ++ bytes)

-- `Read::read_exact` into a buffer of `n` bytes.
unfoldable pub read_exact : ℕ → Reader (List ℕ)
read_exact n src = if leb n (length src) then ok (take n src, drop n src) else err unexpected_eof

-- `Read::read` into a buffer of `n` bytes: the count, and the bytes that were there.
unfoldable pub read_some : ℕ → Reader (ℕ × List ℕ)
read_some n src = ok ((min n (length src), take n src), drop n src)

-- `std::net`: an address is the number that its bytes spell, a port a number.
pub data IpAddr : Type 0 where
  v4 v6 : ℕ → IpAddr

-- The flow information and the scope of an IPv6 address, 0 where it is read, are left out.
pub record SocketAddr : Type 0 where
  pub ip : IpAddr
  pub port : ℕ

abbrev pub IsU8 : ℕ → Type 0
IsU8 n = n < 2 ^ 8

abbrev pub IsU16 : ℕ → Type 0
IsU16 n = n < 2 ^ 16

abbrev pub IsU32 : ℕ → Type 0
IsU32 n = n < 2 ^ 32

abbrev pub IsU64 : ℕ → Type 0
IsU64 n = n < 2 ^ 64

abbrev pub IsIpAddr : IpAddr → Type 0
IsIpAddr (v4 n) = n < 2 ^ 32
IsIpAddr (v6 n) = n < 2 ^ 128

abbrev pub IsSocketAddr : SocketAddr → Type 0
IsSocketAddr a = IsIpAddr a.ip × IsU16 a.port

-- The crates byteorder and message_encoding, as the code calls them.
pub record Crates : Type 1 where
  -- `BigEndian`: the bytes of a number at a width, and back.
  pub to_bytes : ℕ → ℕ → List ℕ
  pub of_bytes : List ℕ → ℕ
  -- The implementations of `MessageEncoding` for numbers, containers and addresses.
  pub u16 : MessageEncoding ℕ
  pub u32 : MessageEncoding ℕ
  pub u64 : MessageEncoding ℕ
  pub vec_u8 : MessageEncoding (List ℕ)
  pub ip_addr : MessageEncoding IpAddr
  pub socket_addr : MessageEncoding SocketAddr
  pub option : {A : Type 0} → MessageEncoding A → MessageEncoding (Option A)

module _ ⦃crates : Crates⦄ where
  -- `read_u8`, `read_u16::<BigEndian>` and so on, at 1, 2, 4, 8 and 16 bytes.
  unfoldable pub read_uint : ℕ → Reader ℕ
  unfolding read_exact ◌>>=◌ pure
  read_uint w = do bytes ← read_exact w; pure (crates.of_bytes bytes)

  -- `write_u8`, `write_u16::<BigEndian>` and so on, which no sum counts.
  unfoldable pub write_uint : ℕ → ℕ → Writing
  write_uint w n (sum, out) = ok (sum, out ++ crates.to_bytes w n)
