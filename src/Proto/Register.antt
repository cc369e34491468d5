-- ===== src/Proto/Register.antt =====
-- packages/agent_proto/src/control_messages.rs: the registration of an agent, in its two encodings,
-- and its signature. The keyed hash of packages/agent_proto/src/hmac.rs is that of a crate.
pub mod RoundTrip
pub mod Legacy
pub mod Signature
use mathlib.Core.Option
use playit_ios.Common.{
  true, ◌↔◌, ℕ, ◌+◌, ◌-◌, ◌^◌, ◌<◌, ◌≤◌, ◌≡◌, List, Bool, Option, none, some, [], length, take, leb,
  ◌==◌, if◌then◌else◌, bit_and, bit_or,
}
use playit_ios.Common.Io.{ok, err, invalid_input, write_zero, unexpected_eof}
use playit_ios.Proto.Wire.{
  Crates, MessageEncoding, Reader, Writing, ◌>>=◌, ◌>>◌, pure, fail, finish, refuse, add, add_raw,
  encoding, read_uint, write_uint, read_exact, read_some, SocketAddr, IsSocketAddr, IsU64,
}

pub record AgentRegister : Type 0 where
  pub proto_version : ℕ
  pub account_id : ℕ
  pub agent_id : ℕ
  pub agent_version : ℕ
  pub timestamp : ℕ
  pub client_addr : SocketAddr
  pub tunnel_addr : SocketAddr
  pub signature : List ℕ

pub record AgentRegisterV1 : Type 0 where
  pub account_id : ℕ
  pub agent_id : ℕ
  pub agent_version : ℕ
  pub timestamp : ℕ
  pub client_addr : SocketAddr
  pub tunnel_addr : SocketAddr
  pub signature : List ℕ

-- The ranges of the fields' types.
pub record IsAgentRegister (r : AgentRegister) : Type 0 where
  pub proto_version : IsU64 r.proto_version
  pub account_id : IsU64 r.account_id
  pub agent_id : IsU64 r.agent_id
  pub agent_version : IsU64 r.agent_version
  pub timestamp : IsU64 r.timestamp
  pub client_addr : IsSocketAddr r.client_addr
  pub tunnel_addr : IsSocketAddr r.tunnel_addr
  pub signature : length r.signature ≡ 32

unfoldable pub upgrade : AgentRegisterV1 → AgentRegister
upgrade v = record {
  proto_version = 1;
  account_id = v.account_id;
  agent_id = v.agent_id;
  agent_version = v.agent_version;
  timestamp = v.timestamp;
  client_addr = v.client_addr;
  tunnel_addr = v.tunnel_addr;
  signature = v.signature;
}

-- `ENCODING_INCLUDES_VERSION_BIT`, and its complement in a `u64`.
abbrev pub version_bit : ℕ
version_bit = 2 ^ 63

abbrev pub not_version_bit : ℕ
not_version_bit = 2 ^ 63 - 1

unfoldable pub has_version_bit : ℕ → Bool
has_version_bit n = bit_and n version_bit == version_bit

module _ ⦃crates : Crates⦄ where
  open crates use {u64, socket_addr}

  -- The version, if it is not the first, and the account id.
  pub write_version : AgentRegister → Writing
  write_version r =
      if leb r.proto_version 1
      then (if has_version_bit r.account_id then refuse invalid_input else add u64 r.account_id)
      else (if has_version_bit r.proto_version
          then refuse invalid_input
          else (add u64 (bit_or r.proto_version version_bit) >> add u64 r.account_id))

  write_agent_register : AgentRegister → Writing
  write_agent_register r = do
    write_version r
    add u64 r.agent_id
    add u64 r.agent_version
    add u64 r.timestamp
    add socket_addr r.client_addr
    add socket_addr r.tunnel_addr
    add_raw r.signature
    finish

  -- The version and the account id that a first word announces.
  pub read_version : ℕ → Reader (ℕ × ℕ)
  read_version first_word =
      if has_version_bit first_word
      then (u64.read_from >>= λ account_id. pure (bit_and first_word not_version_bit, account_id))
      else pure (1, first_word)

  read_agent_register : Reader AgentRegister
  read_agent_register = do
    version ← u64.read_from >>= read_version
    agent_id ← u64.read_from
    agent_version ← u64.read_from
    timestamp ← u64.read_from
    client_addr ← socket_addr.read_from
    tunnel_addr ← socket_addr.read_from
    signature ← read_exact 32
    pure (record {
      proto_version = version.0;
      account_id = version.1;
      agent_id = agent_id;
      agent_version = agent_version;
      timestamp = timestamp;
      client_addr = client_addr;
      tunnel_addr = tunnel_addr;
      signature = signature;
    })

  unfoldable pub agent_register_encoding : MessageEncoding AgentRegister
  unfolding write_agent_register read_agent_register
  agent_register_encoding = encoding write_agent_register read_agent_register

  -- `out.write(&signature)? != 32`, on a vector.
  write_signature : List ℕ → Writing
  write_signature signature (sum, out) =
      if length signature == 32 then add_raw signature (sum, out) else err write_zero

  -- The four numbers are written by byteorder, so the sum starts at their 32 bytes.
  write_agent_register_v1 : AgentRegisterV1 → Writing
  write_agent_register_v1 v = do
    write_uint 8 v.account_id
    write_uint 8 v.agent_id
    write_uint 8 v.agent_version
    write_uint 8 v.timestamp
    add socket_addr v.client_addr
    add socket_addr v.tunnel_addr
    write_signature v.signature
    finish

  read_agent_register_v1 : Reader AgentRegisterV1
  read_agent_register_v1 = do
    account_id ← read_uint 8
    agent_id ← read_uint 8
    agent_version ← read_uint 8
    timestamp ← read_uint 8
    client_addr ← socket_addr.read_from
    tunnel_addr ← socket_addr.read_from
    signature ← read_some 32 >>= λ p. if p.0 == 32 then pure p.1 else fail unexpected_eof
    pure (record {
      account_id = account_id;
      agent_id = agent_id;
      agent_version = agent_version;
      timestamp = timestamp;
      client_addr = client_addr;
      tunnel_addr = tunnel_addr;
      signature = signature;
    })

  unfoldable pub agent_register_v1_encoding : MessageEncoding AgentRegisterV1
  unfolding write_agent_register_v1 read_agent_register_v1 write_signature
  agent_register_v1_encoding = record {
    write_to = λ v out. write_agent_register_v1 v (32, out);
    read_from = read_agent_register_v1;
  }

-- What the crate hmac answers of a hash under a key, after it was updated with bytes.
pub record Mac : Type 0 where
  pub finalize : List ℕ → List ℕ
  pub verify_slice : List ℕ → List ℕ → Bool

-- What the code relies on: a hash has 32 bytes, and `verify_slice` compares with it.
pub record IsMac (mac : Mac) : Type 0 where
  pub length-finalize : (bytes : List ℕ) → length (mac.finalize bytes) ≡ 32
  pub verify_slice_iff :
      (bytes sig : List ℕ) → (mac.verify_slice bytes sig ≡ true) ↔ (sig ≡ mac.finalize bytes)

-- It wraps a hash that has its key and no bytes yet, which `verify` and `sign` clone.
pub record HmacSha256 : Type 0 where
  pub keyed : Mac

unfoldable pub verify : HmacSha256 → List ℕ → List ℕ → Bool
verify hmac bytes sig = hmac.keyed.verify_slice bytes sig

unfoldable pub sign : HmacSha256 → List ℕ → List ℕ
sign hmac bytes = hmac.keyed.finalize bytes

module _ ⦃crates : Crates⦄ where
  -- The buffer without the signature at its end, or `none` for the panic of `unwrap` or `assert!`.
  unfoldable pub write_plain : AgentRegister → Option (List ℕ)
  write_plain r = elim (agent_register_encoding.write_to r []) [
    | ok p ↦
        if leb (length r.signature) (length p.1)
        then some (take (length p.1 - length r.signature) p.1)
        else none
    | err e ↦ none
  ]

  module _ (hmac : HmacSha256) where
    unfoldable pub update_signature : AgentRegister → Option AgentRegister
    update_signature r =
        Option.map (λ buffer. record r { signature = sign hmac buffer }) (write_plain r)

    unfoldable pub verify_signature : AgentRegister → Option Bool
    verify_signature r = Option.map (λ buffer. verify hmac buffer r.signature) (write_plain r)
