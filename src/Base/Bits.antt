-- ===== src/Base/Bits.antt =====
-- Event masks: the laws of `&` and `|` at variables, from the value of each binary digit.
use Prim.Native.Nat.{
  ℕ, zero, suc, ◌+◌, ◌*◌, ◌/◌, ◌%◌, ◌≤◌, min, max, bit_and, bit_or, digits, bit_and-bitwise,
  bit_or-bitwise,
}
use mathlib.Core.Path.{◌≡◌, refl, ap, ◌∙◌}
use mathlib.Core.Bool.{Bool, true, false, not, ◌&&◌, ◌||◌}
use native.Mathlib.Omega.{arith}
use epoll_server.Base.Tests.{◌==◌}

-- A digitwise operation `f` that sends the digits of `b` to those of `z b` against zeros.
module _ (z : ℕ → ℕ) (f : ℕ → ℕ → ℕ) (z-step : (b : ℕ) → z b ≡ z (b / 2) * 2 + f 0 (b % 2)) where
  digits_enough : (n m a b : ℕ) → a ≤ n → a ≤ m → digits z f n a b ≡ digits z f m a b
  digits_enough zero zero a b p q = refl
  digits_enough zero (suc m) zero b p q = refl
  digits_enough zero (suc m) (suc a) b p q = absurd (omega arith)
  digits_enough (suc n) zero zero b p q = refl
  digits_enough (suc n) zero (suc a) b p q = absurd (omega arith)
  digits_enough (suc n) (suc m) zero b p q = refl
  digits_enough (suc n) (suc m) (suc a) b p q =
      ap (λ t. t * 2 + f (suc a % 2) (b % 2))
        (digits_enough n m (suc a / 2) (b / 2) (omega arith) (omega arith))

  digits_halve :
      (a b : ℕ) → digits z f a a b ≡ digits z f (a / 2) (a / 2) (b / 2) * 2 + f (a % 2) (b % 2)
  digits_halve zero b = z-step b
  digits_halve (suc a) b =
      ap (λ t. t * 2 + f (suc a % 2) (b % 2))
        (digits_enough a (suc a / 2) (suc a / 2) (b / 2) (omega arith) (omega arith))

bit_and_halve : (a b : ℕ) → bit_and a b ≡ bit_and (a / 2) (b / 2) * 2 + min (a % 2) (b % 2)
bit_and_halve a b = omega (
  arith,
  bit_and-bitwise a b,
  bit_and-bitwise (a / 2) (b / 2),
  digits_halve (λ b. zero) min (λ b. omega arith) a b,
)

bit_or_halve : (a b : ℕ) → bit_or a b ≡ bit_or (a / 2) (b / 2) * 2 + max (a % 2) (b % 2)
bit_or_halve a b = omega (
  arith,
  bit_or-bitwise a b,
  bit_or-bitwise (a / 2) (b / 2),
  digits_halve (λ b. b) max (λ b. omega arith) a b,
)

-- Digit `k` of `x`.
pub test_bit : ℕ → ℕ → ℕ
test_bit zero x = x % 2
test_bit (suc k) x = test_bit k (x / 2)

test_bit-bit_and : (k a b : ℕ) → test_bit k (bit_and a b) ≡ min (test_bit k a) (test_bit k b)
unfolding test_bit
test_bit-bit_and zero a b = omega (arith, bit_and_halve a b)
test_bit-bit_and (suc k) a b =
    ap (λ x. test_bit k x) (omega (arith, bit_and_halve a b)) ∙ test_bit-bit_and k (a / 2) (b / 2)

test_bit-bit_or : (k a b : ℕ) → test_bit k (bit_or a b) ≡ max (test_bit k a) (test_bit k b)
unfolding test_bit
test_bit-bit_or zero a b = omega (arith, bit_or_halve a b)
test_bit-bit_or (suc k) a b =
    ap (λ x. test_bit k x) (omega (arith, bit_or_halve a b)) ∙ test_bit-bit_or k (a / 2) (b / 2)

bits_ext_below : (n a b : ℕ) → a ≤ n → b ≤ n → ((k : ℕ) → test_bit k a ≡ test_bit k b) → a ≡ b
unfolding test_bit
bits_ext_below zero a b p q h = omega arith
bits_ext_below (suc n) a b p q h =
    let low : a % 2 ≡ b % 2 = h 0 in
    let high : a / 2 ≡ b / 2 =
      bits_ext_below n (a / 2) (b / 2) (omega arith) (omega arith) (λ k. h (suc k)) in
    omega arith

-- Numbers with the same digits are equal.
pub bits_ext : (a b : ℕ) → ((k : ℕ) → test_bit k a ≡ test_bit k b) → a ≡ b
bits_ext a b = bits_ext_below (max a b) a b (omega arith) (omega arith)

pub bit_and-bit_or : (x a b : ℕ) → bit_and x (bit_or a b) ≡ bit_or (bit_and x a) (bit_and x b)
bit_and-bit_or x a b = bits_ext _ _ λ k. omega (
  arith,
  test_bit-bit_and k x (bit_or a b),
  test_bit-bit_or k a b,
  test_bit-bit_or k (bit_and x a) (bit_and x b),
  test_bit-bit_and k x a,
  test_bit-bit_and k x b,
)

pub bit_or-bit_and : (a b x : ℕ) → bit_and (bit_or a b) x ≡ bit_or (bit_and a x) (bit_and b x)
bit_or-bit_and a b x = bits_ext _ _ λ k. omega (
  arith,
  test_bit-bit_and k (bit_or a b) x,
  test_bit-bit_or k a b,
  test_bit-bit_or k (bit_and a x) (bit_and b x),
  test_bit-bit_and k a x,
  test_bit-bit_and k b x,
)

le-bit_or_below : (n a b : ℕ) → a ≤ n → b ≤ n → (a ≤ bit_or a b) × (b ≤ bit_or a b)
le-bit_or_below zero a b p q = omega arith
le-bit_or_below (suc n) a b p q =
    omega (arith, bit_or_halve a b, le-bit_or_below n (a / 2) (b / 2) (omega arith) (omega arith))

bit_or-zero : bit_or 0 0 ≡ 0
bit_or-zero = refl

-- A condition `if (mask & flags)`.
abbrev pub has : ℕ → ℕ → Bool
has mask flags = not (bit_and mask flags == 0)

bit_or-eq-zero : (a b : ℕ) → (bit_or a b == 0) ≡ ((a == 0) && (b == 0))
bit_or-eq-zero zero zero = refl
bit_or-eq-zero zero (suc b) = ground (arith, le-bit_or_below (suc b) 0 (suc b))
bit_or-eq-zero (suc a) b = ground (arith, le-bit_or_below (suc a + b) (suc a) b)

not-and : (p q : Bool) → not (p && q) ≡ (not p || not q)
not-and true q = refl
not-and false q = refl

-- A mask meets a union of flags if it meets one of them.
pub has-bit_or_right : (mask a b : ℕ) → has mask (bit_or a b) ≡ (has mask a || has mask b)
has-bit_or_right mask a b =
    ap (λ n. not (n == 0)) (bit_and-bit_or mask a b)
    ∙ ap not (bit_or-eq-zero (bit_and mask a) (bit_and mask b))
    ∙ not-and (bit_and mask a == 0) (bit_and mask b == 0)

-- A union of masks meets the flags that either meets.
pub has-bit_or_left : (a b flags : ℕ) → has (bit_or a b) flags ≡ (has a flags || has b flags)
has-bit_or_left a b flags =
    ap (λ n. not (n == 0)) (bit_or-bit_and a b flags)
    ∙ ap not (bit_or-eq-zero (bit_and a flags) (bit_and b flags))
    ∙ not-and (bit_and a flags == 0) (bit_and b flags == 0)
