-- ===== src/Common/Bits.antt =====
-- Masks of one bit, and of all bits below one, as arithmetic at every width; then the masks of
-- bit 63 and of the low 32 bits on a `u64`, which the packages use.
use Prim.Native.Nat.{
  ℕ, zero, suc, ◌+◌, ◌-◌, ◌*◌, ◌/◌, ◌%◌, ◌^◌, ◌≤◌, ◌<◌, min, max, bit_and, bit_or, digits,
  bit_and-bitwise, bit_or-bitwise,
}
use mathlib.Core.Path.{◌≡◌, refl, ap}
use native.Mathlib.Nat.{pow-suc, one-le-pow}
use native.Mathlib.Omega.{arith}
use playit_ios.Common.Tests.{◌==◌, leb}

-- The recursion on binary digits that the native operations stand for does not depend on its fuel.
module _ (z : ℕ → ℕ) (f : ℕ → ℕ → ℕ) where
  enough_fuel : (n m a b : ℕ) → a ≤ n → a ≤ m → digits z f n a b ≡ digits z f m a b
  enough_fuel zero zero zero b p q = refl
  enough_fuel zero (suc m) zero b p q = refl
  enough_fuel (suc n) zero zero b p q = refl
  enough_fuel (suc n) (suc m) zero b p q = refl
  enough_fuel zero m (suc a) b p q = absurd (omega arith)
  enough_fuel (suc n) zero (suc a) b p q = absurd (omega arith)
  enough_fuel (suc n) (suc m) (suc a) b p q =
      omega (arith, enough_fuel n m (suc a / 2) (b / 2) (omega arith) (omega arith))

bit_and-digit : (a b : ℕ) → bit_and a b ≡ bit_and (a / 2) (b / 2) * 2 + min (a % 2) (b % 2)
bit_and-digit zero b = omega (arith, bit_and-bitwise 0 b, bit_and-bitwise 0 (b / 2))
bit_and-digit (suc a) b =
    let half : ℕ = suc a / 2 in
    omega (
      arith,
      bit_and-bitwise (suc a) b,
      bit_and-bitwise half (b / 2),
      enough_fuel (λ y. 0) min a half half (b / 2) (omega arith) (omega arith),
    )

bit_or-digit : (a b : ℕ) → bit_or a b ≡ bit_or (a / 2) (b / 2) * 2 + max (a % 2) (b % 2)
bit_or-digit zero b = omega (arith, bit_or-bitwise 0 b, bit_or-bitwise 0 (b / 2))
bit_or-digit (suc a) b =
    let half : ℕ = suc a / 2 in
    omega (
      arith,
      bit_or-bitwise (suc a) b,
      bit_or-bitwise half (b / 2),
      enough_fuel (λ y. y) max a half half (b / 2) (omega arith) (omega arith),
    )

comm_fuel_and : (n a b : ℕ) → a ≤ n → b ≤ n → bit_and a b ≡ bit_and b a
comm_fuel_and zero zero zero p q = refl
comm_fuel_and zero (suc a) b p q = absurd (omega arith)
comm_fuel_and zero zero (suc b) p q = absurd (omega arith)
comm_fuel_and (suc n) a b p q = omega (
  arith,
  bit_and-digit a b,
  bit_and-digit b a,
  comm_fuel_and n (a / 2) (b / 2) (omega arith) (omega arith),
)

pub bit_and_comm : (a b : ℕ) → bit_and a b ≡ bit_and b a
bit_and_comm a b = comm_fuel_and (a + b) a b (omega arith) (omega arith)

comm_fuel_or : (n a b : ℕ) → a ≤ n → b ≤ n → bit_or a b ≡ bit_or b a
comm_fuel_or zero zero zero p q = refl
comm_fuel_or zero (suc a) b p q = absurd (omega arith)
comm_fuel_or zero zero (suc b) p q = absurd (omega arith)
comm_fuel_or (suc n) a b p q = omega (
  arith,
  bit_or-digit a b,
  bit_or-digit b a,
  comm_fuel_or n (a / 2) (b / 2) (omega arith) (omega arith),
)

pub bit_or_comm : (a b : ℕ) → bit_or a b ≡ bit_or b a
bit_or_comm a b = comm_fuel_or (a + b) a b (omega arith) (omega arith)

bit_and-zero : (a : ℕ) → bit_and a 0 ≡ 0
bit_and-zero a = omega (arith, bit_and_comm a 0, bit_and-bitwise 0 a)

bit_or-zero : (a : ℕ) → bit_or a 0 ≡ a
bit_or-zero a = omega (arith, bit_or_comm a 0, bit_or-bitwise 0 a)

double : (q k : ℕ) → q * 2 ^ suc k ≡ 2 * (q * 2 ^ k)
double q k = omega (arith, ap (λ (t : ℕ). q * t) (pow-suc 2 k))

-- A mask of one bit, of the bits below it, and that bit set.
bit_and_bit : (k b r : ℕ) → b < 2 → r < 2 ^ k → bit_and (b * 2 ^ k + r) (2 ^ k) ≡ b * 2 ^ k
bit_and_bit zero b r hb hr = ground (arith, bit_and-digit b 1, bit_and-zero (b / 2))
bit_and_bit (suc k) b r hb hr = ground (
  arith,
  bit_and-digit (b * 2 ^ suc k + r) (2 ^ suc k),
  double b k,
  pow-suc 2 k,
  bit_and_bit k b (r / 2) hb (omega (arith, pow-suc 2 k)),
)

bit_and_low : (k q r : ℕ) → r < 2 ^ k → bit_and (q * 2 ^ k + r) (2 ^ k - 1) ≡ r
bit_and_low zero q r h = ground (arith, bit_and-zero q)
bit_and_low (suc k) q r h = ground (
  arith,
  bit_and-digit (q * 2 ^ suc k + r) (2 ^ suc k - 1),
  double q k,
  pow-suc 2 k,
  one-le-pow k 2,
  bit_and_low k q (r / 2) (omega (arith, pow-suc 2 k)),
)

bit_or_bit : (k b r : ℕ) → b < 2 → r < 2 ^ k → bit_or (b * 2 ^ k + r) (2 ^ k) ≡ 2 ^ k + r
bit_or_bit zero b r hb hr = ground (arith, bit_or-digit b 1, bit_or-zero (b / 2))
bit_or_bit (suc k) b r hb hr = ground (
  arith,
  bit_or-digit (b * 2 ^ suc k + r) (2 ^ suc k),
  double b k,
  pow-suc 2 k,
  bit_or_bit k b (r / 2) hb (omega (arith, pow-suc 2 k)),
)

-- On a `u64`: the test of bit 63, that bit cleared and set, and the low half.
pub top_bit_lem : (v : ℕ) → v < 2 ^ 64 → (bit_and v (2 ^ 63) == 2 ^ 63) ≡ leb (2 ^ 63) v
top_bit_lem v h =
    ground (arith, bit_and_bit 63 (v / 2 ^ 63) (v % 2 ^ 63) (omega arith) (omega arith))

pub clear_top_lem : (v : ℕ) → bit_and v (2 ^ 63 - 1) ≡ v % 2 ^ 63
clear_top_lem v = ground (arith, bit_and_low 63 (v / 2 ^ 63) (v % 2 ^ 63) (omega arith))

pub set_top_lem : (v : ℕ) → v < 2 ^ 64 → bit_or v (2 ^ 63) ≡ v % 2 ^ 63 + 2 ^ 63
set_top_lem v h =
    ground (arith, bit_or_bit 63 (v / 2 ^ 63) (v % 2 ^ 63) (omega arith) (omega arith))

pub low_half_lem : (v : ℕ) → bit_and v (2 ^ 32 - 1) ≡ v % 2 ^ 32
low_half_lem v = ground (arith, bit_and_low 32 (v / 2 ^ 32) (v % 2 ^ 32) (omega arith))

-- The bits above the low `k` set at once.
bit_or_above : (k a b : ℕ) → b < 2 ^ k → bit_or b (a * 2 ^ k) ≡ a * 2 ^ k + b
bit_or_above zero a b h = ground (arith, bit_or_comm b a, bit_or-zero a)
bit_or_above (suc k) a b h = ground (
  arith,
  bit_or-digit b (a * 2 ^ suc k),
  double a k,
  pow-suc 2 k,
  bit_or_above k a (b / 2) (omega (arith, pow-suc 2 k)),
)

-- The masks of an address of 127.0.0.0/8.
pub low_24_lem : (v : ℕ) → bit_and v 0x00FFFFFF ≡ v % 2 ^ 24
low_24_lem v = ground (arith, bit_and_low 24 (v / 2 ^ 24) (v % 2 ^ 24) (omega arith))

pub set_loopback_lem : (v : ℕ) → v < 2 ^ 24 → bit_or v 0x7F000000 ≡ 0x7F000000 + v
set_loopback_lem v h = bit_or_above 24 127 v h
