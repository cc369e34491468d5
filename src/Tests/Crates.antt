-- ===== src/Tests/Crates.antt =====
-- The crates as concrete functions that meet the hypotheses on them: numbers big-endian, a tag
-- before what a container holds, a length before a vector.
use playit_ios.Common.{
  ℕ, ◌*◌, ◌^◌, ◌<◌, refl, ap, arith, List, ◌++◌, length, Option, none, some, if◌then◌else◌, ◌==◌,
}
use playit_ios.Common.Io.{ok, invalid_data}
use playit_ios.Proto.Wire.{
  Crates, MessageEncoding, Reader, Writing, ◌>>=◌, ◌>>◌, pure, fail, finish, add, add_raw, encoding,
  read_exact, IpAddr, SocketAddr, v4, v6, IsIpAddr, IsSocketAddr, IsU64, read_uint,
}
use playit_ios.Proto.Wire.Readers.{
  Takes, Takes-bind, Takes-pure, Takes-fail, Takes-if, Takes-read_exact, Reads-map,
  Reads-read_exact,
}
use playit_ios.Proto.Wire.Laws.{
  Codes, Codes-bind, Codes-add, Codes-add_raw, Codes-finish, Documented, RoundTrips,
  ReadsBack-of_Codes,
}
use playit_ios.Tests.Bytes.{to_be, of_be, length-to_be, of_be-to_be}

unfoldable pub read_be : ℕ → Reader ℕ
read_be w = do bytes ← read_exact w; pure (of_be bytes)

put : ℕ → ℕ → Writing
put w n = add_raw (to_be w n)

Codes-put : (w n : ℕ) → n < 2 ^ (8 * w) → Codes (put w n) (read_be w) n
unfolding put add_raw read_be pure
Codes-put w n h = record {
  bytes = to_be w n;
  writes = λ sum out. refl;
  reads =
      Reads-map _ _ _ (Reads-read_exact w _ (length-to_be w n))
        (λ rest. ap (λ m. ok (m, rest)) (of_be-to_be w n h));
}

Takes-read_be : (w : ℕ) → Takes (read_be w)
unfolding read_be
Takes-read_be w = Takes-bind _ _ (Takes-read_exact w) (λ bytes. Takes-pure _)

pub be : ℕ → MessageEncoding ℕ
be w = record { write_to = λ n out. ok (w, out ++ to_be w n); read_from = read_be w }

pub write_vec : List ℕ → Writing
write_vec bs = put 8 (length bs) >> add_raw bs

pub read_vec : Reader (List ℕ)
read_vec = read_be 8 >>= read_exact

Codes-vec : (bs : List ℕ) → IsU64 (length bs) → Codes (write_vec bs) read_vec bs
unfolding write_vec read_vec
Codes-vec bs h = Codes-bind _ _ _ _ (Codes-put 8 (length bs) h) (Codes-add_raw _ bs refl)

pub write_ip : IpAddr → Writing
write_ip (v4 n) = put 1 4 >> (put 4 n >> finish)
write_ip (v6 n) = put 1 6 >> (put 16 n >> finish)

ip_of_tag : ℕ → Reader IpAddr
ip_of_tag t =
    if t == 4
    then (read_be 4 >>= λ n. pure (v4 n))
    else (if t == 6 then (read_be 16 >>= λ n. pure (v6 n)) else fail invalid_data)

pub read_ip : Reader IpAddr
read_ip = read_be 1 >>= ip_of_tag

Codes-ip : (a : IpAddr) → IsIpAddr a → Codes (write_ip a) read_ip a
unfolding write_ip read_ip ip_of_tag
Codes-ip (v4 n) h =
    Codes-bind _ _ _ _ (Codes-put 1 4 (omega arith))
      (Codes-bind _ _ _ _ (Codes-put 4 n h) (Codes-finish _))
Codes-ip (v6 n) h =
    Codes-bind _ _ _ _ (Codes-put 1 6 (omega arith))
      (Codes-bind _ _ _ _ (Codes-put 16 n h) (Codes-finish _))

Takes-ip : Takes read_ip
unfolding read_ip ip_of_tag
Takes-ip = Takes-bind _ _ (Takes-read_be 1) λ t.
    Takes-if (t == 4) _ _ (Takes-bind _ _ (Takes-read_be 4) λ n. Takes-pure _) (
      Takes-if (t == 6) _ _ (Takes-bind _ _ (Takes-read_be 16) λ n. Takes-pure _)
        (Takes-fail invalid_data))

pub write_socket : SocketAddr → Writing
write_socket a = write_ip a.ip >> (put 2 a.port >> finish)

pub read_socket : Reader SocketAddr
read_socket = do a ← read_ip; p ← read_be 2; pure (record { ip = a; port = p })

Codes-socket : (a : SocketAddr) → IsSocketAddr a → Codes (write_socket a) read_socket a
unfolding write_socket read_socket
Codes-socket a h =
    Codes-bind _ _ _ _ (Codes-ip a.ip h.0)
      (Codes-bind _ _ _ _ (Codes-put 2 a.port h.1) (Codes-finish _))

Takes-socket : Takes read_socket
unfolding read_socket
Takes-socket = Takes-bind _ _ Takes-ip λ a. Takes-bind _ _ (Takes-read_be 2) λ p. Takes-pure _

module _ {A : Type 0} (m : MessageEncoding A) where
  pub write_option : Option A → Writing
  write_option none = put 1 0 >> finish
  write_option (some a) = put 1 1 >> (add m a >> finish)

  option_of_tag : ℕ → Reader (Option A)
  option_of_tag t =
      if t == 0
      then pure none
      else (if t == 1 then (m.read_from >>= λ a. pure (some a)) else fail invalid_data)

  pub read_option : Reader (Option A)
  read_option = read_be 1 >>= option_of_tag

  Codes-none : Codes (write_option none) read_option none
  unfolding write_option read_option option_of_tag
  Codes-none = Codes-bind _ _ _ _ (Codes-put 1 0 (omega arith)) (Codes-finish _)

  Codes-some : (a : A) → RoundTrips m a → Codes (write_option (some a)) read_option (some a)
  unfolding write_option read_option option_of_tag
  Codes-some a h =
      Codes-bind _ _ _ _ (Codes-put 1 1 (omega arith))
        (Codes-bind _ _ _ _ (Codes-add m a h) (Codes-finish _))

  Takes-option : Takes m.read_from → Takes read_option
  unfolding read_option option_of_tag
  Takes-option h = Takes-bind _ _ (Takes-read_be 1) λ t.
      Takes-if (t == 0) _ _ (Takes-pure none)
        (Takes-if (t == 1) _ _ (Takes-bind _ _ h λ a. Takes-pure _) (Takes-fail invalid_data))

abbrev pub test_crates : Crates
test_crates = record {
  to_bytes = to_be;
  of_bytes = of_be;
  u16 = be 2;
  u32 = be 4;
  u64 = be 8;
  vec_u8 = encoding write_vec read_vec;
  ip_addr = encoding write_ip read_ip;
  socket_addr = encoding write_socket read_socket;
  option = λ {A} m. encoding (write_option m) (read_option m);
}

pub test_docs : Documented ⦃crates = test_crates⦄
unfolding be read_be read_uint
test_docs = record {
  length-to_bytes = length-to_be;
  of_bytes-to_bytes = of_be-to_be;
  u16_writes = λ n out h. refl;
  u32_writes = λ n out h. refl;
  u64_writes = λ n out h. refl;
  u16_reads = λ src. refl;
  u32_reads = λ src. refl;
  u64_reads = λ src. refl;
  vec_u8-RoundTrips = λ bs h. ReadsBack-of_Codes write_vec read_vec bs (Codes-vec bs h);
  ip_addr-RoundTrips = λ a h. ReadsBack-of_Codes write_ip read_ip a (Codes-ip a h);
  socket_addr-RoundTrips = λ a h. ReadsBack-of_Codes write_socket read_socket a (Codes-socket a h);
  vec_u8-Takes = unfold read_vec in Takes-bind _ _ (Takes-read_be 8) Takes-read_exact;
  ip_addr-Takes = Takes-ip;
  socket_addr-Takes = Takes-socket;
  option-Takes = λ m h. Takes-option m h;
  option-none = λ m. ReadsBack-of_Codes (write_option m) (read_option m) none (Codes-none m);
  option-some =
      λ m a h. ReadsBack-of_Codes (write_option m) (read_option m) (some a) (Codes-some m a h);
}
