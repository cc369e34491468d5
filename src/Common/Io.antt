-- ===== src/Common/Io.antt =====
-- `std::io::Result`: a value or an error.
use mathlib.Core.Path.{◌≡◌, refl}
use mathlib.Core.Logic.{◌⊎◌, inl, inr}

-- The `std::io::ErrorKind`s that the code raises, and that `read_exact` raises.
pub data ErrorKind : Type 0 where
  other invalid_data invalid_input write_zero unexpected_eof unsupported : ErrorKind

pub data Result {ℓ} (A : Type ℓ) : Type ℓ where
  ok : A → Result A
  err : ErrorKind → Result A

pub Result-cases {ℓ} :
    {A : Type ℓ} (r : Result A) → ((a : A) × (r ≡ ok a)) ⊎ ((e : ErrorKind) × (r ≡ err e))
Result-cases (ok a) = inl (a, refl)
Result-cases (err e) = inr (e, refl)

pub ok_pair {ℓ κ} :
    {A : Type ℓ} {B : Type κ} {a a' : A} {b b' : B}
    → a ≡ a'
    → b ≡ b'
    → ◌≡◌ {A = Result (A × B)} (ok (a, b)) (ok (a', b'))
ok_pair p q = λ i. ok (p i, q i)
