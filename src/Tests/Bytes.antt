-- ===== src/Tests/Bytes.antt =====
-- Big-endian bytes, as byteorder documents them, for the runs of the code.
use native.Mathlib.Nat.{two-pow-succ}
use playit_ios.Common.{
  ℕ, zero, suc, ◌+◌, ◌*◌, ◌/◌, ◌%◌, ◌^◌, ◌<◌, ◌≡◌, refl, ◌∙◌, arith, List, [], ◌∷◌, ◌++◌, length,
  length-append, ap,
}

unfoldable pub to_be : ℕ → ℕ → List ℕ
to_be zero n = []
to_be (suc w) n = to_be w (n / 256) ++ ((n % 256) ∷ [])

unfoldable pub of_be_from : ℕ → List ℕ → ℕ
of_be_from acc [] = acc
of_be_from acc (b ∷ bs) = of_be_from (acc * 256 + b) bs

pub of_be : List ℕ → ℕ
of_be bs = of_be_from 0 bs

pub length-to_be : (w n : ℕ) → length (to_be w n) ≡ w
unfolding to_be
length-to_be zero n = refl
length-to_be (suc w) n =
    length-append (to_be w (n / 256)) ((n % 256) ∷ []) ∙ omega (arith, length-to_be w (n / 256))

of_be_from-append :
    (acc b : ℕ) (bs : List ℕ) → of_be_from acc (bs ++ (b ∷ [])) ≡ of_be_from acc bs * 256 + b
unfolding of_be_from
of_be_from-append acc b [] = refl
of_be_from-append acc b (x ∷ bs) = of_be_from-append (acc * 256 + x) b bs

pow_eight : (k : ℕ) → 2 ^ suc (suc (suc (suc (suc (suc (suc (suc k))))))) ≡ 2 ^ k * 256
pow_eight k = omega (
  arith,
  two-pow-succ k,
  two-pow-succ (suc k),
  two-pow-succ (suc (suc k)),
  two-pow-succ (suc (suc (suc k))),
  two-pow-succ (suc (suc (suc (suc k)))),
  two-pow-succ (suc (suc (suc (suc (suc k))))),
  two-pow-succ (suc (suc (suc (suc (suc (suc k)))))),
  two-pow-succ (suc (suc (suc (suc (suc (suc (suc k))))))),
)

pow_byte : (w : ℕ) → 2 ^ (8 * suc w) ≡ 2 ^ (8 * w) * 256
pow_byte w = ap (λ k. 2 ^ k) (omega arith) ∙ pow_eight (8 * w)

pub of_be-to_be : (w n : ℕ) → n < 2 ^ (8 * w) → of_be (to_be w n) ≡ n
unfolding of_be of_be_from to_be
of_be-to_be zero n h = omega arith
of_be-to_be (suc w) n h =
    of_be_from-append 0 (n % 256) (to_be w (n / 256))
    ∙ omega (arith, of_be-to_be w (n / 256) (omega (arith, pow_byte w)))
