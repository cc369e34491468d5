-- ===== src/Proto/Register/Legacy.antt =====
-- The first encoding of a registration: `AgentRegisterV1` writes the bytes that `AgentRegister`
-- writes at version 1, and reads them back.
use playit_ios.Proto.Register.RoundTrip.{write_version_old}
use mathlib.Core.Path.{fun_ext, ap}
use playit_ios.Common.{
  ℕ, ◌+◌, ◌^◌, ◌<◌, ◌≤◌, ◌≡◌, refl, sym, ◌∙◌, arith, ◌==◌, if◌then◌else◌, length, List, ◌++◌, inl,
  inr,
}
use playit_ios.Common.Io.{ok, unexpected_eof, Result-cases}
use playit_ios.Proto.Wire.{
  Crates, ◌>>=◌, ◌>>◌, pure, fail, add, add_raw, write_uint, read_some, read_exact, IsU64,
}
use playit_ios.Proto.Wire.Readers.{
  Takes, Takes-bind, Takes-pure, Takes-read_uint, Takes-read_exact, Takes-eq, read_some_full,
}
use playit_ios.Proto.Wire.Laws.{
  Documented, RoundTrips, Codes, Codes-bind, Codes-finish, Codes-add, Codes-eq, Codes-u64,
  Codes-add_raw, >>-ok, from_zero, Codes-write,
}
use playit_ios.Proto.Register.{
  AgentRegister, AgentRegisterV1, IsAgentRegister, upgrade, agent_register_v1_encoding,
  agent_register_encoding, write_agent_register, read_agent_register_v1, write_signature, Reader,
  write_version, Writing,
}

module _ ⦃crates : Crates⦄ ⦃docs : Documented⦄ where
  open crates use {u64}

  counted :
      (n sum : ℕ) (out : List ℕ)
      → IsU64 n
      → add u64 n (sum, out) ≡ ok (sum + 8, out ++ crates.to_bytes 8 n)
  unfolding add
  counted n sum out h = rw (docs.u64_writes n out h, add)

  version_counted :
      (v : AgentRegisterV1) (out : List ℕ)
      → IsAgentRegister (upgrade v)
      → v.account_id < 2 ^ 63
      → write_version (upgrade v) (0, out) ≡ ok (8, out ++ crates.to_bytes 8 v.account_id)
  unfolding upgrade
  version_counted v out h g =
      rw (write_version_old (upgrade v) (omega arith) g) (counted v.account_id 0 out h.account_id)

  full_signature :
      (signature : List ℕ) → length signature ≡ 32 → write_signature signature ≡ add_raw signature
  unfolding write_signature
  full_signature signature h = λ i s.
      (let e : write_signature signature s ≡ add_raw signature s = rw (h, write_signature) in e i)

  -- An `AgentRegisterV1` in range whose account id is below 2^63 is written as its upgrade is,
  -- byte for byte and with the same count.
  agent_register_v1_same :
      (v : AgentRegisterV1) (out : List ℕ)
      → IsAgentRegister (upgrade v)
      → v.account_id < 2 ^ 63
      → agent_register_v1_encoding.write_to v out ≡ agent_register_encoding.write_to (upgrade v) out
  unfolding upgrade agent_register_v1_encoding agent_register_encoding write_uint
  agent_register_v1_same v out h g = sym (
      >>-ok _ _ (version_counted v out h g)
      ∙ >>-ok _ _ (counted v.agent_id 8 _ h.agent_id)
      ∙ >>-ok _ _ (counted v.agent_version 16 _ h.agent_version)
      ∙ >>-ok _ _ (counted v.timestamp 24 _ h.timestamp)
      ∙ sym (rw (full_signature v.signature h.signature) (unfold ◌>>◌ in refl)))

  bind-pure : {A : Type 0} (r : Reader A) (src : List ℕ) → (r >>= pure) src ≡ r src
  unfolding ◌>>=◌ pure
  bind-pure r src = elim (Result-cases (r src)) [
    | inl (p, e) ↦ rw (e, ◌>>=◌)
    | inr (x, e) ↦ rw (e, ◌>>=◌)
  ]

  read_signature_v1 :
      (n : ℕ) (src : List ℕ)
      → (read_some n >>= λ p. if p.0 == n then pure p.1 else fail unexpected_eof) src
        ≡ read_exact n src
  read_signature_v1 n src = read_some_full n pure src ∙ bind-pure (read_exact n) src

  Codes-signature_v1 :
      (signature : List ℕ)
      → length signature ≡ 32
      → Codes
          (add_raw signature)
          (read_some 32 >>= λ p. if p.0 == 32 then pure p.1 else fail unexpected_eof)
          signature
  Codes-signature_v1 signature h =
      Codes-eq _ _ _ (read_exact 32) refl (fun_ext (read_signature_v1 32))
        (Codes-add_raw 32 signature h)

  Codes-agent_register_v1_encoding :
      (v : AgentRegisterV1)
      → IsAgentRegister (upgrade v)
      → v.account_id < 2 ^ 63
      → Codes (write_agent_register (upgrade v)) read_agent_register_v1 v
  unfolding upgrade write_agent_register read_agent_register_v1
  Codes-agent_register_v1_encoding v h g =
      Codes-bind _ _ _ _
        (Codes-eq _ _ _ _ (write_version_old (upgrade v) (omega arith) g) refl
          (Codes-u64 _ h.account_id))
        (Codes-bind _ _ _ _ (Codes-u64 _ h.agent_id) (
          Codes-bind _ _ _ _ (Codes-u64 _ h.agent_version) (
            Codes-bind _ _ _ _ (Codes-u64 _ h.timestamp) (
              Codes-bind _ _ _ _
                (Codes-add crates.socket_addr _ (docs.socket_addr-RoundTrips _ h.client_addr))
                (Codes-bind _ _ _ _
                  (Codes-add crates.socket_addr _ (docs.socket_addr-RoundTrips _ h.tunnel_addr))
                  (Codes-bind _ _ _ _ (Codes-signature_v1 _ h.signature) (Codes-finish _)))))))

  -- An `AgentRegisterV1` in range whose account id is below 2^63 is written and read back as it
  -- was.
  agent_register_v1_encoding-RoundTrips :
      (v : AgentRegisterV1)
      → IsAgentRegister (upgrade v)
      → v.account_id < 2 ^ 63
      → RoundTrips agent_register_v1_encoding v
  unfolding agent_register_v1_encoding agent_register_encoding
  agent_register_v1_encoding-RoundTrips v h g =
      let c = Codes-agent_register_v1_encoding v h g in
      record {
        bytes = c.bytes;
        writes = λ out. agent_register_v1_same v out h g ∙ from_zero _ _ c out;
        reads = c.reads;
      }

  pub agent_register_v1_encoding-Takes : Takes agent_register_v1_encoding.read_from
  unfolding agent_register_v1_encoding
  agent_register_v1_encoding-Takes = Takes-bind _ _ (Takes-read_uint 8) (λ a.
      Takes-bind _ _ (Takes-read_uint 8) (λ b. Takes-bind _ _ (Takes-read_uint 8) (λ e.
        Takes-bind _ _ (Takes-read_uint 8) (λ t. Takes-bind _ _ docs.socket_addr-Takes (λ c.
          Takes-bind _ _ docs.socket_addr-Takes (λ d.
            Takes-bind _ _ (Takes-eq _ _ (read_signature_v1 32) (Takes-read_exact 32))
              (λ s. Takes-pure _)))))))

  -- The first encoding of a registration, as `AgentRegisterV1` reads it.
  abbrev pub downgrade : AgentRegister → AgentRegisterV1
  downgrade r = record {
    account_id = r.account_id;
    agent_id = r.agent_id;
    agent_version = r.agent_version;
    timestamp = r.timestamp;
    client_addr = r.client_addr;
    tunnel_addr = r.tunnel_addr;
    signature = r.signature;
  }

  written_as_first :
      (r : AgentRegister)
      → r.proto_version ≤ 1
      → r.account_id < 2 ^ 63
      → write_agent_register r ≡ write_agent_register (upgrade (downgrade r))
  unfolding write_agent_register upgrade
  written_as_first r h g =
      rw (write_version_old r h g, write_version_old (upgrade (downgrade r)) (omega arith) g)

  downgrade-IsAgentRegister :
      (r : AgentRegister) → IsAgentRegister r → IsAgentRegister (upgrade (downgrade r))
  unfolding upgrade
  downgrade-IsAgentRegister r v = record {
    proto_version = omega arith;
    account_id = v.account_id;
    agent_id = v.agent_id;
    agent_version = v.agent_version;
    timestamp = v.timestamp;
    client_addr = v.client_addr;
    tunnel_addr = v.tunnel_addr;
    signature = v.signature;
  }

  pub Codes-downgrade :
      (r : AgentRegister)
      → IsAgentRegister r
      → r.proto_version ≤ 1
      → r.account_id < 2 ^ 63
      → Codes (add agent_register_encoding r) agent_register_v1_encoding.read_from (downgrade r)
  unfolding agent_register_encoding agent_register_v1_encoding upgrade
  Codes-downgrade r v h g =
      Codes-write agent_register_encoding r _ _
        (λ out. ap (λ (w : Writing). w (0, out)) (written_as_first r h g))
        (Codes-agent_register_v1_encoding (downgrade r) (downgrade-IsAgentRegister r v) g)
