-- ===== src/Base/Bits.antt =====
-- Laws of `bit_xor` at variables: digit by digit, cancelling, and under shifts.
use Prim.Native.Nat.{
  ℕ, zero, suc, ◌+◌, ◌*◌, ◌/◌, ◌%◌, ◌^◌, ◌≤◌, ◌<◌, bit_xor, digits, bit_xor-bitwise, differ,
}
use mathlib.Core.Path.{◌≡◌, refl, ap, sym, ◌∙◌}
use native.Mathlib.Omega.{arith}
use native.Mathlib.Nat.{div-div-eq-div-mul}

-- The loop that the native operation stands for.
abbrev xor_digits : ℕ → ℕ → ℕ → ℕ
xor_digits n a b = digits (λ b. b) differ n a b

xor_digits_fuel : (n m a b : ℕ) → a ≤ n → a ≤ m → xor_digits n a b ≡ xor_digits m a b
xor_digits_fuel zero zero a b p q = refl
xor_digits_fuel zero (suc m) zero b p q = refl
xor_digits_fuel zero (suc m) (suc a) b p q = absurd (omega arith)
xor_digits_fuel (suc n) zero zero b p q = refl
xor_digits_fuel (suc n) zero (suc a) b p q = absurd (omega arith)
xor_digits_fuel (suc n) (suc m) zero b p q = refl
xor_digits_fuel (suc n) (suc m) (suc a) b p q =
    omega (arith, xor_digits_fuel n m (suc a / 2) (b / 2) (omega arith) (omega arith))

zero-bit_xor : (b : ℕ) → bit_xor 0 b ≡ b
zero-bit_xor b = bit_xor-bitwise 0 b

pub differ-zero : (a : ℕ) → differ a 0 ≡ a
differ-zero zero = refl
differ-zero (suc a) = refl

-- The lowest bit.
pub bit_xor_step : (a b : ℕ) → bit_xor a b ≡ bit_xor (a / 2) (b / 2) * 2 + differ (a % 2) (b % 2)
bit_xor_step zero b = omega (arith, zero-bit_xor b, zero-bit_xor (b / 2))
bit_xor_step (suc a) b = omega (
  arith,
  bit_xor-bitwise (suc a) b,
  bit_xor-bitwise (suc a / 2) (b / 2),
  xor_digits_fuel a (suc a / 2) (suc a / 2) (b / 2) (omega arith) (omega arith),
)

differ_bits : (p q : ℕ) → p < 2 → q < 2 → (differ p q < 2) × (differ (differ p q) q ≡ p)
differ_bits zero zero hp hq = (omega arith, refl)
differ_bits zero (suc zero) hp hq = (omega arith, refl)
differ_bits (suc zero) zero hp hq = (omega arith, refl)
differ_bits (suc zero) (suc zero) hp hq = (omega arith, refl)
differ_bits (suc (suc p)) q hp hq = absurd (omega arith)
differ_bits p (suc (suc q)) hp hq = absurd (omega arith)

xor-bit : (a b : ℕ) → differ (a % 2) (b % 2) < 2
xor-bit a b = (differ_bits (a % 2) (b % 2) (omega arith) (omega arith)).0

-- A digit of an exclusive or.
pub bit_xor-half : (a b : ℕ) → bit_xor a b / 2 ≡ bit_xor (a / 2) (b / 2)
bit_xor-half a b = omega (arith, bit_xor_step a b, xor-bit a b)

bit_xor-odd : (a b : ℕ) → bit_xor a b % 2 ≡ differ (a % 2) (b % 2)
bit_xor-odd a b = omega (arith, bit_xor_step a b, xor-bit a b)

pub bit_xor-zero : (n a : ℕ) → a ≤ n → bit_xor a 0 ≡ a
bit_xor-zero n zero h = zero-bit_xor 0
bit_xor-zero zero (suc a) h = absurd (omega arith)
bit_xor-zero (suc n) (suc a) h = omega (
  arith,
  bit_xor_step (suc a) 0,
  bit_xor-zero n (suc a / 2) (omega arith),
  differ-zero (suc a % 2),
)

cancel_fuel : (n a b : ℕ) → a ≤ n → b ≤ n → bit_xor (bit_xor a b) b ≡ a
cancel_fuel zero zero zero ha hb = refl
cancel_fuel zero zero (suc b) ha hb = absurd (omega arith)
cancel_fuel zero (suc a) b ha hb = absurd (omega arith)
cancel_fuel (suc n) a b ha hb = omega (
  arith,
  bit_xor_step (bit_xor a b) b,
  ap (λ x. bit_xor x (b / 2)) (bit_xor-half a b),
  ap (λ x. differ x (b % 2)) (bit_xor-odd a b),
  (differ_bits (a % 2) (b % 2) (omega arith) (omega arith)).1,
  cancel_fuel n (a / 2) (b / 2) (omega arith) (omega arith),
)

-- The same word twice cancels.
pub bit_xor-cancel : (a b : ℕ) → bit_xor (bit_xor a b) b ≡ a
bit_xor-cancel a b = cancel_fuel (a + b) a b (omega arith) (omega arith)

pow_suc : (k : ℕ) → 2 ^ suc k ≡ 2 * 2 ^ k
pow_suc k = omega arith

half_pow : (x k : ℕ) → x / 2 ^ suc k ≡ x / 2 / 2 ^ k
half_pow x k = ap (λ m. x / m) (pow_suc k) ∙ sym (div-div-eq-div-mul x 2 (2 ^ k))

div_one : (a : ℕ) → a / 1 ≡ a
div_one a = omega arith

-- A right shift moves through an exclusive or.
pub bit_xor-shr : (k a b : ℕ) → bit_xor a b / 2 ^ k ≡ bit_xor (a / 2 ^ k) (b / 2 ^ k)
bit_xor-shr zero a b = rw (div_one (bit_xor a b), div_one a, div_one b)
bit_xor-shr (suc k) a b =
    rw (half_pow (bit_xor a b) k, half_pow a k, half_pow b k, bit_xor-half a b)
      (bit_xor-shr k (a / 2) (b / 2))
