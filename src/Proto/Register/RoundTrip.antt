-- ===== src/Proto/Register/RoundTrip.antt =====
-- A registration is read back with the version that its encoding carries.
use playit_ios.Common.{
  ℕ, ◌+◌, ◌^◌, ◌<◌, ◌≤◌, ◌≡◌, refl, arith, max, true, false, bit_and, bit_or, ◌⊎◌, inl, inr, List,
  le→leb, gt→leb,
}
use playit_ios.Common.Bits.{top_bit_lem, clear_top_lem, set_top_lem}
use playit_ios.Common.Io.{ok, err, invalid_input}
use playit_ios.Proto.Wire.{Crates, ◌>>=◌, ◌>>◌, pure, add, IsU64, refuse}
use playit_ios.Proto.Wire.Readers.{Takes, Takes-bind, Takes-pure, Takes-if, Takes-read_exact}
use playit_ios.Proto.Wire.Laws.{
  Documented, ReadsBack-of_Codes, Codes, Codes-bind, Codes-finish, Codes-add, Codes-map, Codes-eq,
  Codes-add_raw, u64-RoundTrips, u64-Takes, ReadsBack,
}
use playit_ios.Proto.Register.{
  AgentRegister, IsAgentRegister, write_version, read_version, has_version_bit, version_bit,
  not_version_bit, agent_register_encoding, write_agent_register, read_agent_register, refuse,
}

-- The registrations that `write_to` accepts: bit 63 of the first word tells the encodings apart.
abbrev pub Sendable : AgentRegister → Type 0
Sendable r =
    ((r.proto_version ≤ 1) × (r.account_id < 2 ^ 63))
    ⊎ ((1 < r.proto_version) × (r.proto_version < 2 ^ 63))

-- What is read back: version 0 is written as version 1 is.
abbrev pub as_read : AgentRegister → AgentRegister
as_read r = record r { proto_version = max 1 r.proto_version }

pub has_version_bit_below : (n : ℕ) → n < 2 ^ 63 → has_version_bit n ≡ false
unfolding has_version_bit
has_version_bit_below n h = ground (arith, top_bit_lem n)

pub has_version_bit_above : (n : ℕ) → 2 ^ 63 ≤ n → IsU64 n → has_version_bit n ≡ true
unfolding has_version_bit
has_version_bit_above n h g = ground (arith, top_bit_lem n)

marked : (n : ℕ) → n < 2 ^ 63 → bit_or n version_bit ≡ n + 2 ^ 63
marked n h = omega (arith, set_top_lem n (omega arith))

unmarked : (n : ℕ) → n < 2 ^ 63 → bit_and (bit_or n version_bit) not_version_bit ≡ n
unmarked n h = omega (arith, marked n h, clear_top_lem (bit_or n version_bit))

pure_version :
    (n m a : ℕ) (rest : List ℕ) → n ≡ m → pure {A = ℕ × ℕ} (n, a) rest ≡ ok ((m, a), rest)
unfolding pure
pure_version n m a rest p = λ i. ok ((p i, a), rest)

module _ ⦃crates : Crates⦄ ⦃docs : Documented⦄ where
  open crates use {u64}

  pub write_version_old :
      (r : AgentRegister)
      → r.proto_version ≤ 1
      → r.account_id < 2 ^ 63
      → write_version r ≡ add u64 r.account_id
  unfolding write_version
  write_version_old r h g = rw (le→leb r.proto_version 1 h, has_version_bit_below r.account_id g)

  write_version_new :
      (r : AgentRegister)
      → 1 < r.proto_version
      → r.proto_version < 2 ^ 63
      → write_version r ≡ (add u64 (bit_or r.proto_version version_bit) >> add u64 r.account_id)
  unfolding write_version
  write_version_new r h g = rw (gt→leb r.proto_version 1 h, has_version_bit_below r.proto_version g)

  read_version_old : (n : ℕ) → n < 2 ^ 63 → read_version n ≡ pure (1, n)
  unfolding read_version
  read_version_old n h = rw (has_version_bit_below n h)

  read_version_new :
      (n : ℕ)
      → n < 2 ^ 63
      → read_version (bit_or n version_bit) ≡ (u64.read_from >>= λ account_id. pure (n, account_id))
  unfolding read_version
  read_version_new n h = rw (
    has_version_bit_above (bit_or n version_bit) (omega (arith, marked n h))
        (omega (arith, marked n h)),
    unmarked n h,
  )

  pub Codes-version :
      (r : AgentRegister)
      → IsAgentRegister r
      → Sendable r
      → Codes
          (write_version r)
          (u64.read_from >>= read_version)
          (max 1 r.proto_version, r.account_id)
  Codes-version r v (inl (h, g)) = Codes-eq _ _ _ _ (write_version_old r h g) refl (
      Codes-map _ _ _ (Codes-add u64 _ (u64-RoundTrips r.account_id v.account_id)) (λ rest.
        rw (read_version_old r.account_id g) (pure_version 1 _ r.account_id rest (omega arith))))
  Codes-version r v (inr (h, g)) = Codes-eq _ _ _ _ (write_version_new r h g) refl (
      Codes-bind _ _ _ _
        (Codes-add u64 _ (
          u64-RoundTrips (bit_or r.proto_version version_bit)
            (omega (arith, marked r.proto_version g))))
        (Codes-eq _ _ _ _ refl (read_version_new r.proto_version g) (
          Codes-map _ _ _ (Codes-add u64 _ (u64-RoundTrips r.account_id v.account_id))
            (λ rest. pure_version r.proto_version _ r.account_id rest (omega arith)))))

  -- A registration in range, its account id below 2^63 at version 0 or 1 and its version below
  -- 2^63 otherwise, is written and read back as it was, but for version 0, which is read back as
  -- 1.
  pub agent_register_encoding-ReadsBack :
      (r : AgentRegister)
      → IsAgentRegister r
      → Sendable r
      → ReadsBack agent_register_encoding r (as_read r)
  unfolding agent_register_encoding
  agent_register_encoding-ReadsBack r v s =
      ReadsBack-of_Codes write_agent_register read_agent_register r (
        Codes-bind _ _ _ _ (Codes-version r v s) (
          Codes-bind _ _ _ _ (Codes-add u64 _ (u64-RoundTrips _ v.agent_id)) (
            Codes-bind _ _ _ _ (Codes-add u64 _ (u64-RoundTrips _ v.agent_version)) (
              Codes-bind _ _ _ _ (Codes-add u64 _ (u64-RoundTrips _ v.timestamp)) (
                Codes-bind _ _ _ _
                  (Codes-add crates.socket_addr _ (docs.socket_addr-RoundTrips _ v.client_addr))
                  (Codes-bind _ _ _ _
                    (Codes-add crates.socket_addr _ (docs.socket_addr-RoundTrips _ v.tunnel_addr))
                    (Codes-bind _ _ _ _ (Codes-add_raw 32 _ v.signature) (Codes-finish _))))))))

  read_version-Takes : (n : ℕ) → Takes (read_version n)
  unfolding read_version
  read_version-Takes n =
      Takes-if _ _ _ (Takes-bind _ _ u64-Takes (λ a. Takes-pure _)) (Takes-pure _)

  pub agent_register_encoding-Takes : Takes agent_register_encoding.read_from
  unfolding agent_register_encoding
  agent_register_encoding-Takes = Takes-bind _ _ (Takes-bind _ _ u64-Takes read_version-Takes) (λ v.
      Takes-bind _ _ u64-Takes (λ a. Takes-bind _ _ u64-Takes (λ b. Takes-bind _ _ u64-Takes (λ t.
        Takes-bind _ _ docs.socket_addr-Takes (λ c.
          Takes-bind _ _ docs.socket_addr-Takes
            (λ d. Takes-bind _ _ (Takes-read_exact 32) (λ s. Takes-pure _)))))))

  -- A registration in range is refused as invalid input, if its version is 0 or 1 and bit 63 of
  -- its account id is set, or if bit 63 of its version is.
  pub agent_register_encoding-refused :
      (r : AgentRegister) (out : List ℕ)
      → IsAgentRegister r
      → ((r.proto_version ≤ 1) × (2 ^ 63 ≤ r.account_id)) ⊎ (2 ^ 63 ≤ r.proto_version)
      → agent_register_encoding.write_to r out ≡ err invalid_input
  unfolding agent_register_encoding write_version ◌>>◌ refuse
  agent_register_encoding-refused r out v (inl (h, g)) =
      rw (le→leb r.proto_version 1 h, has_version_bit_above r.account_id g v.account_id)
  agent_register_encoding-refused r out v (inr g) = rw (
    gt→leb r.proto_version 1 (omega arith),
    has_version_bit_above r.proto_version g v.proto_version,
  )
