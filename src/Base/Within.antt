-- ===== src/Base/Within.antt =====
-- Numbers whose bits lie within a mask.
use Prim.Native.Nat.{
  bit_or-bitwise, ℕ, zero, suc, ◌-◌, ◌/◌, ◌%◌, ◌^◌, ◌≤◌, ◌<◌, min, bit_and, bit_or, bit_xor,
}
use mathlib.Core.Path.{◌≡◌, refl, sym, ap, ◌∙◌, subst}
use native.Mathlib.Nat.{pow-suc, one-le-pow, zero-div}
use native.Mathlib.Omega.{arith}
use fist_ame.Base.Bits.{bit_or_low, bit-bit_xor, bit, bit-bit_and, bit-bit_or, bit_and-zero}
use fist_ame.Base.Digits.{
  bit_ext, bit_and_lt, bit_or_lt, bit_xor_lt, bit_not, bit_and_lt_left, bit_and-mod, bit_and_le,
}

-- One bit of such a number, and of a product of masks that is 0.
pub within_bit : (x m k : ℕ) → bit_and x m ≡ x → min (bit x k) (bit m k) ≡ bit x k
within_bit x m k h = sym (bit-bit_and x m k) ∙ ap (λ (t : ℕ). bit t k) h

zero_bit : (x m k : ℕ) → bit_and x m ≡ 0 → min (bit x k) (bit m k) ≡ 0
zero_bit x m k h =
    sym (bit-bit_and x m k) ∙ ap (λ (t : ℕ). bit t k) h ∙ ap (λ (t : ℕ). t % 2) (zero-div (2 ^ k))

-- A mask that has no bit in common with another one takes none.
pub within_none : (n x m k : ℕ) → x < 2 ^ n → bit_and x m ≡ x → bit_and m k ≡ 0 → bit_and x k ≡ 0
within_none n x m k p h z =
    bit_ext n (bit_and x k) 0 (bit_and_lt_left n x k p) (one-le-pow n 2 (omega arith)) (λ j l.
      bit-bit_and x k j ∙ omega (arith, within_bit x m j h, zero_bit m k j z, zero-div (2 ^ j)))

-- A mask that covers another one takes all.
pub within_all :
    (n x m k : ℕ)
    → x < 2 ^ n
    → k < 2 ^ n
    → bit_and x m ≡ x
    → bit_and m (2 ^ n - 1 - k) ≡ 0
    → bit_and x k ≡ x
within_all n x m k p q h z = bit_ext n (bit_and x k) x (bit_and_lt n x k q) p (λ j l.
    bit-bit_and x k j
    ∙ omega (arith, within_bit x m j h, zero_bit m (2 ^ n - 1 - k) j z, bit_not n j k l q))

pub within_zero : (x m : ℕ) → bit_and x m ≡ x → m ≡ 0 → x ≡ 0
within_zero x m h z = sym h ∙ ap (bit_and x) z ∙ bit_and-zero x

pub within_le : (n x m : ℕ) → m < 2 ^ n → bit_and x m ≡ x → x ≤ m
within_le n x m p h = subst (λ (t : ℕ). t ≤ m) h (bit_and_le n x m p)

pub within_low : (n x m : ℕ) → bit_and x m ≡ x → m % 2 ^ n ≡ 0 → x % 2 ^ n ≡ 0
within_low n x m h z =
    ap (λ (t : ℕ). t % 2 ^ n) (sym h)
    ∙ bit_and-mod n x m
    ∙ ap (bit_and (x % 2 ^ n)) z
    ∙ bit_and-zero (x % 2 ^ n)

pub bit_or_zero : (n a b : ℕ) → a < 2 ^ n → bit_or a b ≡ 0 → (a ≡ 0) × (b ≡ 0)
bit_or_zero zero a b p z =
    let a0 : a ≡ 0 = omega arith in
    let b0 : bit_or 0 b ≡ b = simp bit_or-bitwise refl in
    (a0, sym b0 ∙ subst (λ (t : ℕ). bit_or t b ≡ 0) a0 z)
bit_or_zero (suc n) a b p z =
    let low = bit_or_low a b in
    let half : bit_or (a / 2) (b / 2) ≡ 0 = omega (arith, low, z) in
    let r = bit_or_zero n (a / 2) (b / 2) (omega (arith, pow-suc 2 n)) half in
    (omega (arith, low, z, r.0, r.1), omega (arith, low, z, r.0, r.1))

pub bit_and_not : (n x : ℕ) → x < 2 ^ n → bit_and x (2 ^ n - 1 - x) ≡ 0
bit_and_not n x p =
    bit_ext n _ 0 (bit_and_lt_left n x _ p) (one-le-pow n 2 (omega arith))
      (λ k l. bit-bit_and x _ k ∙ omega (arith, bit_not n k x l p, zero-div (2 ^ k)))

pub bit_and_self : (n x : ℕ) → x < 2 ^ n → bit_and x x ≡ x
bit_and_self n x p = bit_ext n _ x (bit_and_lt n x x p) p (λ k l. bit-bit_and x x k ∙ omega arith)

pub bit_or_self : (n x : ℕ) → x < 2 ^ n → bit_or x x ≡ x
bit_or_self n x p = bit_ext n _ x (bit_or_lt n x x p p) p (λ k l. bit-bit_or x x k ∙ omega arith)

pub bit_xor_self : (n x : ℕ) → x < 2 ^ n → bit_xor x x ≡ 0
bit_xor_self n x p =
    bit_ext n _ 0 (bit_xor_lt n x x p p) (one-le-pow n 2 (omega arith))
      (λ k l. bit-bit_xor x x k ∙ omega (arith, zero-div (2 ^ k)))

pub bit_xor-zero : (n x : ℕ) → x < 2 ^ n → bit_xor x 0 ≡ x
bit_xor-zero n x p =
    bit_ext n _ x (bit_xor_lt n x 0 p (one-le-pow n 2 (omega arith))) p
      (λ k l. bit-bit_xor x 0 k ∙ omega (arith, zero-div (2 ^ k)))
