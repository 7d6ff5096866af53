-- ===== src/Base/Bits.antt =====
-- `&`, `|` and `^` of C on numbers, digit by digit, and what the common masks compute.
use Prim.Native.Nat.{
  ℕ, zero, suc, ◌+◌, ◌-◌, ◌*◌, ◌/◌, ◌%◌, ◌^◌, ◌≤◌, ◌<◌, min, max, bit_and, bit_or, bit_xor, digits,
  bitwise, differ, bit_and-bitwise, bit_or-bitwise, bit_xor-bitwise,
}
use mathlib.Core.Path.{◌≡◌, refl, sym, ap, ◌∙◌}
use native.Mathlib.Nat.{
  pow-suc, one-le-pow, div-div-eq-div-mul, div-add-mod, mul_comm, add-zero, mod-eq_of_lt,
}
use native.Mathlib.Omega.{arith}

-- The native operations are a recursion on digits with `a` for fuel; any fuel from `a` up will do.
module _ (z : ℕ → ℕ) (f : ℕ → ℕ → ℕ) where
  more_fuel : (n m a b : ℕ) → a ≤ n → a ≤ m → digits z f n a b ≡ digits z f m a b
  more_fuel zero zero a b p q = refl
  more_fuel zero (suc m) zero b p q = refl
  more_fuel zero (suc m) (suc a) b p q = absurd (omega arith)
  more_fuel (suc n) zero zero b p q = refl
  more_fuel (suc n) zero (suc a) b p q = absurd (omega arith)
  more_fuel (suc n) (suc m) zero b p q = refl
  more_fuel (suc n) (suc m) (suc a) b p q =
      ap (λ (t : ℕ). t * 2 + f (suc a % 2) (b % 2))
        (more_fuel n m (suc a / 2) (b / 2) (omega arith) (omega arith))

  bitwise_low :
      (a b : ℕ)
      → bitwise z f (suc a) b ≡ bitwise z f (suc a / 2) (b / 2) * 2 + f (suc a % 2) (b % 2)
  bitwise_low a b =
      omega (arith, more_fuel a (suc a / 2) (suc a / 2) (b / 2) (omega arith) (omega arith))

pub bit_and_low : (a b : ℕ) → bit_and a b ≡ bit_and (a / 2) (b / 2) * 2 + min (a % 2) (b % 2)
bit_and_low zero b = simp bit_and-bitwise (omega arith)
bit_and_low (suc a) b = simp bit_and-bitwise (bitwise_low (λ y. 0) min a b)

pub bit_or_low : (a b : ℕ) → bit_or a b ≡ bit_or (a / 2) (b / 2) * 2 + max (a % 2) (b % 2)
bit_or_low zero b = simp bit_or-bitwise (omega arith)
bit_or_low (suc a) b = simp bit_or-bitwise (bitwise_low (λ y. y) max a b)

pub bit_xor_low : (a b : ℕ) → bit_xor a b ≡ bit_xor (a / 2) (b / 2) * 2 + differ (a % 2) (b % 2)
bit_xor_low zero b = simp bit_xor-bitwise (omega arith)
bit_xor_low (suc a) b = simp bit_xor-bitwise (bitwise_low (λ y. y) differ a b)

-- Bit `k` of a number.
abbrev pub bit : ℕ → ℕ → ℕ
bit x k = x / 2 ^ k % 2

pub bit-suc : (x k : ℕ) → bit x (suc k) ≡ bit (x / 2) k
bit-suc x k = omega (
  arith,
  ap (λ (t : ℕ). x / t) (pow-suc 2 k ∙ mul_comm (2 ^ k) 2),
  div-div-eq-div-mul x 2 (2 ^ k),
)

bit-zero : (x : ℕ) → bit x 0 ≡ x % 2
bit-zero x = omega arith

pub bit-bit_and : (a b k : ℕ) → bit (bit_and a b) k ≡ min (bit a k) (bit b k)
bit-bit_and a b zero = omega (arith, bit_and_low a b)
bit-bit_and a b (suc k) =
    simp bit-suc
      (ap (λ (t : ℕ). bit t k) (omega (arith, bit_and_low a b)) ∙ bit-bit_and (a / 2) (b / 2) k)

pub bit-bit_or : (a b k : ℕ) → bit (bit_or a b) k ≡ max (bit a k) (bit b k)
bit-bit_or a b zero = omega (arith, bit_or_low a b)
bit-bit_or a b (suc k) =
    simp bit-suc
      (ap (λ (t : ℕ). bit t k) (omega (arith, bit_or_low a b)) ∙ bit-bit_or (a / 2) (b / 2) k)

differ_digits : (x y : ℕ) → x < 2 → y < 2 → differ x y ≡ (x + y) % 2
differ_digits zero y p q = omega arith
differ_digits (suc zero) zero p q = refl
differ_digits (suc zero) (suc zero) p q = refl
differ_digits (suc zero) (suc (suc y)) p q = absurd (omega arith)
differ_digits (suc (suc x)) y p q = absurd (omega arith)

pub differ-mod : (a b : ℕ) → differ (a % 2) (b % 2) ≡ (a % 2 + b % 2) % 2
differ-mod a b = differ_digits (a % 2) (b % 2) (omega arith) (omega arith)

pub bit-bit_xor : (a b k : ℕ) → bit (bit_xor a b) k ≡ (bit a k + bit b k) % 2
bit-bit_xor a b zero = omega (arith, bit_xor_low a b, differ-mod a b)
bit-bit_xor a b (suc k) = simp bit-suc (
    ap (λ (t : ℕ). bit t k) (omega (arith, bit_xor_low a b, differ-mod a b))
    ∙ bit-bit_xor (a / 2) (b / 2) k)

zero-bit_and : (b : ℕ) → bit_and 0 b ≡ 0
zero-bit_and b = simp bit_and-bitwise (omega arith)

and-zero_below : (n a : ℕ) → a ≤ n → bit_and a 0 ≡ 0
and-zero_below n zero h = refl
and-zero_below zero (suc a) h = absurd (omega arith)
and-zero_below (suc n) (suc a) h =
    omega (arith, bit_and_low (suc a) 0, and-zero_below n (suc a / 2) (omega arith))

pub bit_and-zero : (a : ℕ) → bit_and a 0 ≡ 0
bit_and-zero a = and-zero_below a a (omega arith)

or-zero_below : (n a : ℕ) → a ≤ n → bit_or a 0 ≡ a
or-zero_below n zero h = refl
or-zero_below zero (suc a) h = absurd (omega arith)
or-zero_below (suc n) (suc a) h =
    omega (arith, bit_or_low (suc a) 0, or-zero_below n (suc a / 2) (omega arith))

pub bit_or-zero : (a : ℕ) → bit_or a 0 ≡ a
bit_or-zero a = or-zero_below a a (omega arith)

half_pow : (k : ℕ) → 2 ^ suc k / 2 ≡ 2 ^ k
half_pow k = omega (arith, pow-suc 2 k)

half_mask : (k : ℕ) → (2 ^ suc k - 1) / 2 ≡ 2 ^ k - 1
half_mask k = omega (arith, pow-suc 2 k, one-le-pow k 2)

mod_halves : (x m : ℕ) → x % (m * 2) ≡ x / 2 % m * 2 + x % 2
mod_halves x zero = omega arith
mod_halves x (suc m) =
    let e = ap (λ (t : ℕ). x / t) (mul_comm (suc m) 2) ∙ sym (div-div-eq-div-mul x 2 (suc m)) in
    omega (
      arith,
      div-add-mod x (suc m * 2),
      div-add-mod (x / 2) (suc m),
      ap (λ (t : ℕ). suc m * 2 * t) e,
    )

pub pow_mono : (k n : ℕ) → k ≤ n → 2 ^ k ≤ 2 ^ n
pow_mono zero n h = one-le-pow n 2 (omega arith)
pow_mono (suc k) zero h = absurd (omega arith)
pow_mono (suc k) (suc n) h = omega (arith, pow_mono k n (omega arith), pow-suc 2 k, pow-suc 2 n)

half_high : (k n c : ℕ) → suc k ≤ suc n → (2 ^ suc n - 2 ^ suc k + c) / 2 ≡ 2 ^ n - 2 ^ k + c / 2
half_high k n c h = omega (arith, pow-suc 2 k, pow-suc 2 n, pow_mono k n (omega arith))

-- `x & (1 << k)` is bit `k`, in its place.
pub bit_and_flag : (k x : ℕ) → bit_and x (2 ^ k) ≡ bit x k * 2 ^ k
bit_and_flag zero x = omega (arith, bit_and_low x 1, bit_and-zero (x / 2))
bit_and_flag (suc k) x = rw bit-suc (
    omega (
      arith,
      bit_and_low x (2 ^ suc k),
      ap (λ (t : ℕ). bit_and (x / 2) t) (half_pow k),
      bit_and_flag k (x / 2),
      pow-suc 2 k,
      ap (λ (t : ℕ). bit (x / 2) k * t) (pow-suc 2 k),
    ))

-- `x & ((1 << k) - 1)` is the remainder by `1 << k`.
pub bit_and_mask : (k x : ℕ) → bit_and x (2 ^ k - 1) ≡ x % 2 ^ k
bit_and_mask zero x = omega (arith, bit_and-zero x)
bit_and_mask (suc k) x = omega (
  arith,
  bit_and_low x (2 ^ suc k - 1),
  ap (λ (t : ℕ). bit_and (x / 2) t) (half_mask k),
  bit_and_mask k (x / 2),
  pow-suc 2 k,
  one-le-pow k 2,
  mod_halves x (2 ^ k),
  ap (λ (t : ℕ). x % t) (pow-suc 2 k),
)

-- `x | (1 << k)` adds bit `k`, unless it is set.
pub bit_or_flag : (k x : ℕ) → bit_or x (2 ^ k) ≡ x + (1 - bit x k) * 2 ^ k
bit_or_flag zero x = omega (arith, bit_or_low x 1, bit_or-zero (x / 2))
bit_or_flag (suc k) x = rw bit-suc (
    omega (
      arith,
      bit_or_low x (2 ^ suc k),
      ap (λ (t : ℕ). bit_or (x / 2) t) (half_pow k),
      bit_or_flag k (x / 2),
      pow-suc 2 k,
      ap (λ (t : ℕ). (1 - bit (x / 2) k) * t) (pow-suc 2 k),
    ))

-- `x & mask` for a mask of ones from bit `k` up to bit `n` and any bits `c` below: the high part
-- of `x` is kept and the low part is masked by `c`.
pub bit_and_high :
    (k n x c : ℕ)
    → k ≤ n
    → x < 2 ^ n
    → c < 2 ^ k
    → bit_and x (2 ^ n - 2 ^ k + c) ≡ x - x % 2 ^ k + bit_and x c
bit_and_high zero n x c h p q =
    let e : c ≡ 0 = omega arith in
    rw e (
      omega (
        arith,
        ap (λ (t : ℕ). bit_and x t) (add-zero (2 ^ n - 1)),
        bit_and_mask n x,
        bit_and-zero x,
        mod-eq_of_lt p,
      ))
bit_and_high (suc k) zero x c h p q = absurd (omega arith)
bit_and_high (suc k) (suc n) x c h p q = omega (
  arith,
  bit_and_low x (2 ^ suc n - 2 ^ suc k + c),
  ap (λ (t : ℕ). bit_and (x / 2) t) (half_high k n c h),
  bit_and_high k n (x / 2) (c / 2) (omega arith) (omega (arith, pow-suc 2 n))
      (omega (arith, pow-suc 2 k)),
  bit_and_low x c,
  pow-suc 2 k,
  pow-suc 2 n,
  pow_mono k n (omega arith),
  mod_halves x (2 ^ k),
  ap (λ (t : ℕ). x % t) (pow-suc 2 k),
)
