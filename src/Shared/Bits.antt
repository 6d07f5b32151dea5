-- ===== src/Shared/Bits.antt =====
-- Masks, shifts and exclusive or as arithmetic: the digit equations of the native operations,
-- fields that do not overlap, and tables over a byte.
use Prim.Native.Nat.{
  ℕ, zero, suc, ◌+◌, ◌*◌, ◌/◌, ◌%◌, ◌^◌, ◌≤◌, ◌<◌, min, max, digits, bit_and, bit_or, bit_xor,
  bit_and-bitwise, bit_or-bitwise, bit_xor-bitwise, differ,
}
use mathlib.Core.Path.{◌≡◌, refl, ap}
use mathlib.Core.Bool.{Bool, true, ◌&&◌}
use native.Mathlib.Omega.{arith}
use native.Mathlib.Nat.{pow-suc}
use yawc.Shared.Tests.{◌==◌}

abbrev pub IsByte : ℕ → Type 0
IsByte b = b < 256

-- Agreement of two functions below a bound, decided by evaluation.
module _ (f g : ℕ → ℕ) where
  agree_below : ℕ → Bool
  agree_below zero = true
  agree_below (suc n) = (f n == g n) && agree_below n

  agree_below-eq : (n : ℕ) → agree_below n ≡ true → (i : ℕ) → i < n → f i ≡ g i
  unfolding agree_below
  agree_below-eq zero e i h = absurd (omega arith)
  agree_below-eq (suc n) e i h = ground (arith, agree_below-eq n (ground arith) i)

-- The masks that the frame header applies to a byte.
pub bit_and_0x7f : (b : ℕ) → b < 256 → bit_and b 0x7f ≡ b % 128
unfolding agree_below
bit_and_0x7f = agree_below-eq _ _ 256 refl

pub bit_and_0x80 : (b : ℕ) → b < 256 → bit_and b 0x80 ≡ b / 128 * 128
unfolding agree_below
bit_and_0x80 = agree_below-eq _ _ 256 refl

pub bit_or_0x80 : (b : ℕ) → b < 128 → bit_or b 0x80 ≡ b + 128
unfolding agree_below
bit_or_0x80 = agree_below-eq _ _ 128 refl

pub bit_or_zero : (b : ℕ) → b < 128 → bit_or b 0 ≡ b
unfolding agree_below
bit_or_zero = agree_below-eq _ _ 128 refl

-- The fuel of `digits` does not matter once it reaches the first number.
digits_enough :
    (z : ℕ → ℕ) (f : ℕ → ℕ → ℕ) (n m a b : ℕ) → a ≤ n → a ≤ m → digits z f n a b ≡ digits z f m a b
digits_enough z f zero zero a b p q = refl
digits_enough z f zero (suc m) zero b p q = refl
digits_enough z f zero (suc m) (suc a) b p q = absurd (omega arith)
digits_enough z f (suc n) zero zero b p q = refl
digits_enough z f (suc n) zero (suc a) b p q = absurd (omega arith)
digits_enough z f (suc n) (suc m) zero b p q = refl
digits_enough z f (suc n) (suc m) (suc a) b p q =
    let halves = digits_enough z f n m (suc a / 2) (b / 2) (omega arith) (omega arith) in
    ap (λ (t : ℕ). t * 2 + f (suc a % 2) (b % 2)) halves

differ-mod : (x y : ℕ) → x < 2 → y < 2 → differ x y ≡ (x + y) % 2
differ-mod zero y p q = omega arith
differ-mod (suc zero) zero p q = refl
differ-mod (suc zero) (suc zero) p q = refl
differ-mod (suc zero) (suc (suc y)) p q = absurd (omega arith)
differ-mod (suc (suc x)) y p q = absurd (omega arith)

-- Exclusive or by its lowest digit.
pub bit_xor_step : (a b : ℕ) → bit_xor a b ≡ bit_xor (a / 2) (b / 2) * 2 + (a % 2 + b % 2) % 2
bit_xor_step zero b = omega (arith, bit_xor-bitwise 0 b, bit_xor-bitwise 0 (b / 2))
bit_xor_step (suc a) b = omega (
  arith,
  bit_xor-bitwise (suc a) b,
  bit_xor-bitwise (suc a / 2) (b / 2),
  digits_enough (λ c. c) differ a (suc a / 2) (suc a / 2) (b / 2) (omega arith) (omega arith),
  differ-mod (suc a % 2) (b % 2) (omega arith) (omega arith),
)

bit_or_step : (a b : ℕ) → bit_or a b ≡ bit_or (a / 2) (b / 2) * 2 + max (a % 2) (b % 2)
bit_or_step zero b = omega (arith, bit_or-bitwise 0 b, bit_or-bitwise 0 (b / 2))
bit_or_step (suc a) b = omega (
  arith,
  bit_or-bitwise (suc a) b,
  bit_or-bitwise (suc a / 2) (b / 2),
  digits_enough (λ c. c) max a (suc a / 2) (suc a / 2) (b / 2) (omega arith) (omega arith),
)

times_pow : (q k : ℕ) → q * 2 ^ suc k ≡ 2 * (q * 2 ^ k)
times_pow q k = omega (arith, ap (λ (t : ℕ). q * t) (pow-suc 2 k))

-- Exclusive or works on the two parts of a word on their own.
pub bit_xor_parts :
    (k p q r s : ℕ)
    → r < 2 ^ k
    → s < 2 ^ k
    → bit_xor (p * 2 ^ k + r) (q * 2 ^ k + s) ≡ bit_xor p q * 2 ^ k + bit_xor r s
bit_xor_parts zero p q r s hr hs = ground arith
bit_xor_parts (suc k) p q r s hr hs = ground (
  arith,
  bit_xor_step (p * 2 ^ suc k + r) (q * 2 ^ suc k + s),
  bit_xor_step r s,
  times_pow p k,
  times_pow q k,
  times_pow (bit_xor p q) k,
  pow-suc 2 k,
  bit_xor_parts k p q (r / 2) (s / 2),
)

pub bit_xor-lt : (k a b : ℕ) → a < 2 ^ k → b < 2 ^ k → bit_xor a b < 2 ^ k
bit_xor-lt zero a b p q = ground arith
bit_xor-lt (suc k) a b p q = omega (
  arith,
  bit_xor_step a b,
  pow-suc 2 k,
  bit_xor-lt k (a / 2) (b / 2) (omega (arith, pow-suc 2 k)) (omega (arith, pow-suc 2 k)),
)

-- Exclusive or with the same word twice gives the word back.
pub bit_xor_twice : (k a b : ℕ) → a < 2 ^ k → b < 2 ^ k → bit_xor (bit_xor a b) b ≡ a
bit_xor_twice zero a b p q = ground arith
bit_xor_twice (suc k) a b p q = ground (
  arith,
  bit_xor_step a b,
  bit_xor_step (bit_xor a b) b,
  pow-suc 2 k,
  bit_xor_twice k (a / 2) (b / 2),
)

bit_and_step : (a b : ℕ) → bit_and a b ≡ bit_and (a / 2) (b / 2) * 2 + min (a % 2) (b % 2)
bit_and_step zero b = omega (arith, bit_and-bitwise 0 b, bit_and-bitwise 0 (b / 2))
bit_and_step (suc a) b = omega (
  arith,
  bit_and-bitwise (suc a) b,
  bit_and-bitwise (suc a / 2) (b / 2),
  digits_enough (λ c. 0) min a (suc a / 2) (suc a / 2) (b / 2) (omega arith) (omega arith),
)

bit_and_none : (n a : ℕ) → a ≤ n → bit_and a 0 ≡ 0
bit_and_none zero a h = ground arith
bit_and_none (suc n) a h = ground (arith, bit_and_step a 0, bit_and_none n (a / 2))

-- The index of a key byte.
pub bit_and_mask3 : (a : ℕ) → bit_and a 3 ≡ a % 4
bit_and_mask3 a = omega (
  arith,
  bit_and_step a 3,
  bit_and_step (a / 2) 1,
  bit_and_none (a / 2 / 2) (a / 2 / 2) (omega arith),
)

bit_or_none : (n a : ℕ) → a ≤ n → bit_or a 0 ≡ a
bit_or_none zero a h = ground arith
bit_or_none (suc n) a h = ground (arith, bit_or_step a 0, bit_or_none n (a / 2))

-- Two copies of a word, one above the other, do not overlap.
pub bit_or_parts : (k q r : ℕ) → r < 2 ^ k → bit_or (q * 2 ^ k) r ≡ q * 2 ^ k + r
bit_or_parts zero q r h = ground (arith, bit_or_none q q)
bit_or_parts (suc k) q r h =
    ground
      (arith, bit_or_step (q * 2 ^ suc k) r, times_pow q k, pow-suc 2 k, bit_or_parts k q (r / 2))
