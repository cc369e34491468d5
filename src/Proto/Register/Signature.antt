-- ===== src/Proto/Register/Signature.antt =====
-- What a signature covers, when it is accepted, and the registrations on which signing and checking
-- panic.
use native.Mathlib.Nat.{add_assoc}
use playit_ios.Common.{
  ℕ, ◌+◌, ◌-◌, ◌^◌, ◌≤◌, ◌≡◌, refl, ◌∙◌, arith, List, [], ◌++◌, ◌⊎◌, none, some, true, length,
  length-append, take, take-append, leb, le→leb, if◌then◌else◌, ◌↔◌, append_assoc,
}
use playit_ios.Common.Io.{ok, ok_pair}
use playit_ios.Proto.Wire.{Crates, Writing, ◌>>◌, finish, add, add_raw}
use playit_ios.Proto.Wire.Laws.{
  Documented, Writes, Codes, Codes-add, u64-RoundTrips, >>-ok, >>-assoc,
}
use playit_ios.Proto.Register.{
  AgentRegister, IsAgentRegister, agent_register_encoding, write_agent_register, write_version,
  write_plain, HmacSha256, IsMac, sign, verify, update_signature, verify_signature, Reader,
}
use playit_ios.Proto.Register.RoundTrip.{Sendable, Codes-version, agent_register_encoding-refused}

Written : Writing → Type 0
Written w = (bytes : List ℕ) × Writes w (length bytes) bytes

Written-bind : (v w : Writing) → Written v → Written w → Written (v >> w)
unfolding Written
Written-bind v w (b, h) (c, g) = (
  b ++ c,
  λ sum out.
      >>-ok v w (h sum out)
      ∙ g _ _
      ∙ ok_pair (simp (length-append, add_assoc)) (append_assoc out b c),
)

module _ ⦃crates : Crates⦄ ⦃docs : Documented⦄ where
  open crates use {u64, socket_addr}

  -- Everything before the signature.
  write_unsigned : AgentRegister → Writing
  write_unsigned r = do
    write_version r
    add u64 r.agent_id
    add u64 r.agent_version
    add u64 r.timestamp
    add socket_addr r.client_addr
    add socket_addr r.tunnel_addr

  write_unsigned_lem :
      (r : AgentRegister) (signature : List ℕ)
      → write_agent_register (record r { signature = signature })
        ≡ (write_unsigned r >> (add_raw signature >> finish))
  unfolding write_agent_register write_unsigned ◌>>◌ write_version
  write_unsigned_lem r signature = simp >>-assoc

  written : {A : Type 0} {w : Writing} {k : Reader A} {a : A} → Codes w k a → Written w
  unfolding Written
  written h = (h.bytes, h.writes)

  Written-unsigned :
      (r : AgentRegister) → IsAgentRegister r → Sendable r → Written (write_unsigned r)
  unfolding write_unsigned Written
  Written-unsigned r v s = Written-bind _ _ (written (Codes-version r v s)) (
      Written-bind _ _ (written (Codes-add u64 _ (u64-RoundTrips _ v.agent_id))) (
        Written-bind _ _ (written (Codes-add u64 _ (u64-RoundTrips _ v.agent_version))) (
          Written-bind _ _ (written (Codes-add u64 _ (u64-RoundTrips _ v.timestamp))) (
            Written-bind _ _
              (written (Codes-add socket_addr _ (docs.socket_addr-RoundTrips _ v.client_addr)))
              (written (Codes-add socket_addr _ (docs.socket_addr-RoundTrips _ v.tunnel_addr)))))))

  whole_written :
      (r : AgentRegister) (b signature : List ℕ)
      → Writes (write_unsigned r) (length b) b
      → write_agent_register (record r { signature = signature }) (0, [])
        ≡ ok (length b + length signature, b ++ signature)
  unfolding ◌>>◌ add_raw finish
  whole_written r b signature writes = rw (write_unsigned_lem r signature) (
      >>-ok (write_unsigned r) (add_raw signature >> finish) {s = (0, [])} (writes 0 [])
      ∙ ok_pair {a = 0 + length b + length signature} (omega arith) refl)

  cut_plain :
      (b signature : List ℕ)
      → (if leb (length signature) (length (b ++ signature))
          then some (take (length (b ++ signature) - length signature) (b ++ signature))
          else none)
        ≡ some b
  cut_plain b signature = rw (
    le→leb (length signature) (length (b ++ signature)) (omega (arith, length-append b signature)),
    take-append (length (b ++ signature) - length signature) b signature
        (omega (arith, length-append b signature)),
  )

  -- The plain bytes are the encoding without its signature, whichever that is.
  write_plain-some :
      (r : AgentRegister)
      → IsAgentRegister r
      → Sendable r
      → (bytes : List ℕ) × ((signature : List ℕ)
          → length signature ≡ 32
          → write_plain (record r { signature = signature }) ≡ some bytes)
  unfolding Written write_plain agent_register_encoding
  write_plain-some r v s =
      let (b, writes) = Written-unsigned r v s in
      (
        b,
        λ signature h. rw (whole_written r b signature writes, write_plain) (cut_plain b signature),
      )

  -- For a keyed hash with signatures of 32 bytes that accepts a signature exactly if it is the one
  -- it makes, and a registration in range that can be encoded, `update_signature` changes the
  -- signature alone, and `verify_signature` accepts the result.
  pub verify-update_signature :
      (hmac : HmacSha256) (r : AgentRegister)
      → IsMac hmac.keyed
      → IsAgentRegister r
      → Sendable r
      → (signature : List ℕ) × (update_signature hmac r ≡ some (record r { signature = signature }))
        × (verify_signature hmac (record r { signature = signature }) ≡ some true)
  unfolding update_signature verify_signature sign verify
  verify-update_signature hmac r law v s =
      let (b, plain) = write_plain-some r v s in
      (
        sign hmac b,
        rw (plain r.signature v.signature),
        rw (
          plain (sign hmac b) (law.length-finalize b),
          (law.verify_slice_iff b (sign hmac b)).1 refl,
        ),
      )

  -- For a keyed hash with signatures of 32 bytes that accepts a signature exactly if it is the one
  -- it makes, and a registration in range that can be encoded, `verify_signature` accepts a
  -- signature of 32 bytes in it exactly if it is the one that `update_signature` puts there.
  pub verify_signature_unique :
      (hmac : HmacSha256) (r : AgentRegister) (signature : List ℕ)
      → IsMac hmac.keyed
      → IsAgentRegister r
      → Sendable r
      → length signature ≡ 32
      → (verify_signature hmac (record r { signature = signature }) ≡ some true)
        ↔ (update_signature hmac r ≡ some (record r { signature = signature }))
  unfolding update_signature verify_signature sign verify
  verify_signature_unique hmac r signature law v s h =
      let (b, plain) = write_plain-some r v s in
      rw (plain r.signature v.signature, plain signature h)
        (ground (arith, law.verify_slice_iff b signature))

  -- On a registration in range of version 0 or 1 with bit 63 of its account id set, or with bit 63
  -- of its version set, both `update_signature` and `verify_signature` panic.
  pub signature_panics :
      (hmac : HmacSha256) (r : AgentRegister)
      → IsAgentRegister r
      → ((r.proto_version ≤ 1) × (2 ^ 63 ≤ r.account_id)) ⊎ (2 ^ 63 ≤ r.proto_version)
      → (update_signature hmac r ≡ none) × (verify_signature hmac r ≡ none)
  unfolding update_signature verify_signature write_plain
  signature_panics hmac r v h =
      let refused = agent_register_encoding-refused r [] v h in
      (rw (refused, write_plain), rw (refused, write_plain))
