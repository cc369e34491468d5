-- ===== src/Tests/Signature.antt =====
-- Signing, with a keyed hash that counts.
use playit_ios.Common.{
  ℕ, ◌≡◌, ◌↔◌, refl, arith, List, [], ◌∷◌, Bool, true, false, none, some, inl, inr, length, ◌==◌,
  ◌&&◌, ==_refl,
}
use playit_ios.Proto.Register.{HmacSha256, IsMac, update_signature, verify_signature}
use playit_ios.Proto.Register.Signature.{
  verify-update_signature, verify_signature_unique, signature_panics,
}
use playit_ios.Tests.Crates.{test_crates, test_docs}
use playit_ios.Tests.Proto.{
  register, register-IsAgentRegister, marked_register, marked_register-IsAgentRegister, zeros,
}

same_bytes : List ℕ → List ℕ → Bool
same_bytes [] [] = true
same_bytes [] (y ∷ ys) = false
same_bytes (x ∷ xs) [] = false
same_bytes (x ∷ xs) (y ∷ ys) = (x == y) && same_bytes xs ys

same_bytes→eq : (xs ys : List ℕ) → same_bytes xs ys ≡ true → xs ≡ ys
unfolding same_bytes
same_bytes→eq [] [] h = refl
same_bytes→eq [] (y ∷ ys) h = cc
same_bytes→eq (x ∷ xs) [] h = cc
same_bytes→eq (x ∷ xs) (y ∷ ys) h = ground (arith, same_bytes→eq xs ys)

same_bytes_refl : (xs : List ℕ) → same_bytes xs xs ≡ true
unfolding same_bytes
same_bytes_refl [] = refl
same_bytes_refl (x ∷ xs) = rw (==_refl x) (same_bytes_refl xs)

abbrev hash : List ℕ → List ℕ
hash bytes = length bytes ∷ zeros 31

abbrev test_hmac : HmacSha256
test_hmac = record {
  keyed = record { finalize = hash; verify_slice = λ bytes sig. same_bytes sig (hash bytes) };
}

test_hmac-IsMac : IsMac test_hmac.keyed
test_hmac-IsMac = record {
  length-finalize = λ bytes. refl;
  verify_slice_iff =
      λ bytes sig. (same_bytes→eq sig (hash bytes), λ e. rw (e) (same_bytes_refl (hash bytes)));
}

verify-update_signature_example :
    (signature : List ℕ) × (update_signature ⦃crates = test_crates⦄ test_hmac register
      ≡ some (record register { signature = signature }))
    × (verify_signature ⦃crates = test_crates⦄ test_hmac (record register { signature = signature })
        ≡ some true)
verify-update_signature_example =
    verify-update_signature ⦃crates = test_crates⦄ ⦃docs = test_docs⦄ test_hmac register
      test_hmac-IsMac register-IsAgentRegister (inr (omega arith, omega arith))

verify_signature_unique_example :
    (verify_signature ⦃crates = test_crates⦄ test_hmac (record register { signature = zeros 32 })
      ≡ some true)
    ↔ (update_signature ⦃crates = test_crates⦄ test_hmac register
        ≡ some (record register { signature = zeros 32 }))
verify_signature_unique_example =
    verify_signature_unique ⦃crates = test_crates⦄ ⦃docs = test_docs⦄ test_hmac register (zeros 32)
      test_hmac-IsMac register-IsAgentRegister (inr (omega arith, omega arith)) refl

signature_panics_example :
    (update_signature ⦃crates = test_crates⦄ test_hmac marked_register ≡ none)
    × (verify_signature ⦃crates = test_crates⦄ test_hmac marked_register ≡ none)
signature_panics_example =
    signature_panics ⦃crates = test_crates⦄ ⦃docs = test_docs⦄ test_hmac marked_register
      marked_register-IsAgentRegister (inl (omega arith, omega arith))
