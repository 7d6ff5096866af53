-- ===== src/Base/Digits.antt =====
-- Bitwise operations against `% 2 ^ n`, complements and shifts, and numbers that agree bit for bit.
use Prim.Native.Nat.{
  ℕ, zero, suc, ◌+◌, ◌-◌, ◌*◌, ◌/◌, ◌%◌, ◌^◌, ◌≤◌, ◌<◌, min, max, bit_and, bit_or, bit_xor, differ,
  bit_and-bitwise,
}
use mathlib.Core.Path.{◌≡◌, refl, sym, ap, ◌∙◌, subst}
use native.Mathlib.Nat.{
  pow-suc, one-le-pow, add-zero, mul_comm, mul_right_comm, mul_assoc, div-add-mod, mod-one,
  div-eq_of_lt, lt_of_lt_of_le, mod-add-div, add-mul, add-mul-mod_self_left, mul-one, add-suc,
  lt_of_le_of_lt, mod-eq_of_lt, mod-lt, div-lt_iff_lt-mul,
}
use fist_ame.Base.Shift.{div_pow_suc, pow-add}
use native.Mathlib.Omega.{arith}
use fist_ame.Base.Bits.{
  bit, bit-suc, bit_and_low, bit_or_low, bit_xor_low, bit-bit_and, bit-bit_or, bit-bit_xor,
  bit_and-zero, bit_or-zero, differ-mod, pow_mono,
}

-- The lowest bit apart.
pub mod-pow_suc : (x n : ℕ) → x % 2 ^ suc n ≡ x / 2 % 2 ^ n * 2 + x % 2
mod-pow_suc x n =
    let q = x / 2 / 2 ^ n in
    let e : x / 2 ^ suc n ≡ q = div_pow_suc x n in
    let m : 2 ^ suc n * q ≡ 2 ^ n * q * 2 =
      ap (λ (t : ℕ). t * q) (pow-suc 2 n) ∙ mul_right_comm (2 ^ n) 2 q in
    let d : 2 ^ suc n * q + x % 2 ^ suc n ≡ x =
      ap (λ (t : ℕ). 2 ^ suc n * t + x % 2 ^ suc n) (sym e) ∙ div-add-mod x (2 ^ suc n) in
    omega (arith, d, m, div-add-mod (x / 2) (2 ^ n))

pub bit_ext : (n x y : ℕ) → x < 2 ^ n → y < 2 ^ n → ((k : ℕ) → k < n → bit x k ≡ bit y k) → x ≡ y
bit_ext zero x y p q h = omega arith
bit_ext (suc n) x y p q h =
    let low : bit x 0 ≡ bit y 0 = h 0 (omega arith) in
    let high : x / 2 ≡ y / 2 =
      bit_ext n (x / 2) (y / 2) (omega (arith, pow-suc 2 n)) (omega (arith, pow-suc 2 n))
        (λ k l. sym (bit-suc x k) ∙ h (suc k) (omega arith) ∙ bit-suc y k) in
    omega arith

-- An operation that works digit by digit works on the low digits alone.
module _ (op f : ℕ → ℕ → ℕ) (low : (a b : ℕ) → op a b ≡ op (a / 2) (b / 2) * 2 + f (a % 2) (b % 2))
    (digit : (a b : ℕ) → f (a % 2) (b % 2) < 2) (zeros : op 0 0 ≡ 0) where
  op-mod : (n x y : ℕ) → op x y % 2 ^ n ≡ op (x % 2 ^ n) (y % 2 ^ n)
  op-mod zero x y = simp mod-one (sym zeros)
  op-mod (suc n) x y =
      let half : op x y / 2 ≡ op (x / 2) (y / 2) = omega (arith, low x y, digit x y) in
      let last : op x y % 2 ≡ f (x % 2) (y % 2) = omega (arith, low x y, digit x y) in
      let ex = mod-pow_suc x n in
      let ey = mod-pow_suc y n in
      let hx : x % 2 ^ suc n / 2 ≡ x / 2 % 2 ^ n = omega (arith, ex) in
      let hy : y % 2 ^ suc n / 2 ≡ y / 2 % 2 ^ n = omega (arith, ey) in
      let lx : x % 2 ^ suc n % 2 ≡ x % 2 = omega (arith, ex) in
      let ly : y % 2 ^ suc n % 2 ≡ y % 2 = omega (arith, ey) in
      rw
        (
          mod-pow_suc (op x y) n,
          low (x % 2 ^ suc n) (y % 2 ^ suc n),
          hx,
          hy,
          lx,
          ly,
          half,
          last,
          op-mod n (x / 2) (y / 2),
        )
        refl

pub bit_and-mod : (n x y : ℕ) → bit_and x y % 2 ^ n ≡ bit_and (x % 2 ^ n) (y % 2 ^ n)
bit_and-mod = op-mod bit_and min bit_and_low (λ a b. omega arith) refl

pub bit_or-mod : (n x y : ℕ) → bit_or x y % 2 ^ n ≡ bit_or (x % 2 ^ n) (y % 2 ^ n)
bit_or-mod = op-mod bit_or max bit_or_low (λ a b. omega arith) refl

pub bit_xor-mod : (n x y : ℕ) → bit_xor x y % 2 ^ n ≡ bit_xor (x % 2 ^ n) (y % 2 ^ n)
bit_xor-mod = op-mod bit_xor differ bit_xor_low (λ a b. omega (arith, differ-mod a b)) refl

pub bit_mod : (n k x : ℕ) → k < n → bit (x % 2 ^ n) k ≡ bit x k
bit_mod zero k x h = absurd (omega arith)
bit_mod (suc n) zero x h = omega (arith, mod-pow_suc x n)
bit_mod (suc n) (suc k) x h =
    let hx : x % 2 ^ suc n / 2 ≡ x / 2 % 2 ^ n = omega (arith, mod-pow_suc x n) in
    bit-suc (x % 2 ^ suc n) k
    ∙ ap (λ (t : ℕ). bit t k) hx
    ∙ bit_mod n k (x / 2) (omega arith)
    ∙ sym (bit-suc x k)

-- The bits of a complement.
pub bit_not : (n k x : ℕ) → k < n → x < 2 ^ n → bit (2 ^ n - 1 - x) k ≡ 1 - bit x k
bit_not zero k x h p = absurd (omega arith)
bit_not (suc n) zero x h p = omega (arith, pow-suc 2 n)
bit_not (suc n) (suc k) x h p =
    let half : (2 ^ suc n - 1 - x) / 2 ≡ 2 ^ n - 1 - x / 2 = omega (arith, pow-suc 2 n) in
    bit-suc (2 ^ suc n - 1 - x) k
    ∙ ap (λ (t : ℕ). bit t k) half
    ∙ bit_not n k (x / 2) (omega arith) (omega (arith, pow-suc 2 n))
    ∙ ap (λ (t : ℕ). 1 - t) (sym (bit-suc x k))

pub bit_high : (n k x : ℕ) → x < 2 ^ n → n ≤ k → bit x k ≡ 0
bit_high n k x p h = rw (div-eq_of_lt (lt_of_lt_of_le p (pow_mono n k h))) refl

pub bit_or_disjoint : (n a b : ℕ) → b < 2 ^ n → bit_or (a * 2 ^ n) b ≡ a * 2 ^ n + b
bit_or_disjoint zero a b h =
    let e : b ≡ 0 = omega arith in rw (e, bit_or-zero (a * 1)) (omega arith)
bit_or_disjoint (suc n) a b h =
    let m : a * 2 ^ suc n ≡ a * 2 ^ n * 2 =
      omega (arith, ap (λ (t : ℕ). a * t) (pow-suc 2 n), mul_assoc a (2 ^ n) 2) in
    let half : a * 2 ^ suc n / 2 ≡ a * 2 ^ n = omega (arith, m) in
    let i = bit_or_disjoint n a (b / 2) (omega (arith, pow-suc 2 n)) in
    omega (arith, bit_or_low (a * 2 ^ suc n) b, ap (λ (t : ℕ). bit_or t (b / 2)) half, i, m)

pub bit_and_le : (n e a : ℕ) → a < 2 ^ n → bit_and e a ≤ a
bit_and_le zero e a p = let pa : a ≡ 0 = omega arith in rw (pa, bit_and-zero e) (omega arith)
bit_and_le (suc n) e a p =
    omega (arith, bit_and_low e a, bit_and_le n (e / 2) (a / 2) (omega (arith, pow-suc 2 n)))

-- Products and shifts below a power of two.
mul-mod_left_lem : (x y m : ℕ) → x * y % m ≡ x % m * y % m
mul-mod_left_lem x y m =
    ap (λ (t : ℕ). t * y % m) (sym (mod-add-div x m))
    ∙ ap (λ (t : ℕ). t % m) (add-mul (x % m) (m * (x / m)) y)
    ∙ ap (λ (t : ℕ). (x % m * y + t) % m) (mul_assoc m (x / m) y)
    ∙ add-mul-mod_self_left (x % m * y) m (x / m * y)

pub mul_mod : (x y m : ℕ) → x * y % m ≡ x % m * (y % m) % m
mul_mod x y m =
    mul-mod_left_lem x y m
    ∙ ap (λ (t : ℕ). t % m) (mul_comm (x % m) y)
    ∙ mul-mod_left_lem y (x % m) m
    ∙ ap (λ (t : ℕ). t % m) (mul_comm (y % m) (x % m))

pub scale_mod : (j k x : ℕ) → x * 2 ^ k % 2 ^ (j + k) ≡ x % 2 ^ j * 2 ^ k
scale_mod j zero x = rw (add-zero j, mul-one x) (omega arith)
scale_mod j (suc k) x =
    let m : x * 2 ^ suc k ≡ x * 2 ^ k * 2 =
      omega (arith, ap (λ (t : ℕ). x * t) (pow-suc 2 k), mul_assoc x (2 ^ k) 2) in
    let half : x * 2 ^ suc k / 2 ≡ x * 2 ^ k = omega (arith, m) in
    let m' : x % 2 ^ j * 2 ^ suc k ≡ x % 2 ^ j * 2 ^ k * 2 =
      omega (arith, ap (λ (t : ℕ). x % 2 ^ j * t) (pow-suc 2 k), mul_assoc (x % 2 ^ j) (2 ^ k) 2) in
    rw (add-suc j k) (
      omega (
        arith,
        mod-pow_suc (x * 2 ^ suc k) (j + k),
        ap (λ (t : ℕ). t % 2 ^ (j + k)) half,
        scale_mod j k x,
        m,
        m',
      ))

pub bit_and_lt : (n a b : ℕ) → b < 2 ^ n → bit_and a b < 2 ^ n
bit_and_lt n a b p = lt_of_le_of_lt (bit_and_le n a b p) p

pub bit_or_lt : (n a b : ℕ) → a < 2 ^ n → b < 2 ^ n → bit_or a b < 2 ^ n
bit_or_lt n a b p q =
    let e : bit_or a b % 2 ^ n ≡ bit_or a b =
      rw (bit_or-mod n a b, mod-eq_of_lt p, mod-eq_of_lt q) refl in
    subst (λ (t : ℕ). t < 2 ^ n) e (mod-lt (bit_or a b) (one-le-pow n 2 (omega arith)))

pub bit_xor_lt : (n a b : ℕ) → a < 2 ^ n → b < 2 ^ n → bit_xor a b < 2 ^ n
bit_xor_lt n a b p q =
    let e : bit_xor a b % 2 ^ n ≡ bit_xor a b =
      rw (bit_xor-mod n a b, mod-eq_of_lt p, mod-eq_of_lt q) refl in
    subst (λ (t : ℕ). t < 2 ^ n) e (mod-lt (bit_xor a b) (one-le-pow n 2 (omega arith)))

-- A rotation: the two shifts have no bit in common.
pub rotate_lem :
    (j k x : ℕ)
    → x < 2 ^ (j + k)
    → bit_or (x * 2 ^ k % 2 ^ (j + k)) (x / 2 ^ j) ≡ x * 2 ^ k % 2 ^ (j + k) + x / 2 ^ j
rotate_lem j k x p =
    let b : x / 2 ^ j < 2 ^ k =
      (div-lt_iff_lt-mul (one-le-pow j 2 (omega arith))).1
        (subst (λ (t : ℕ). x < t) (pow-add j k ∙ mul_comm (2 ^ j) (2 ^ k)) p) in
    rw (scale_mod j k x) (bit_or_disjoint k (x % 2 ^ j) (x / 2 ^ j) b)

pub bit_and-zero_left : (x : ℕ) → bit_and 0 x ≡ 0
bit_and-zero_left x = simp bit_and-bitwise (refl)

pub bit_and-mod_self : (n x : ℕ) → bit_and (x % 2 ^ n) x ≡ x % 2 ^ n
bit_and-mod_self zero x = rw (mod-one x, bit_and-zero_left x) refl
bit_and-mod_self (suc n) x =
    let e = mod-pow_suc x n in
    let half : x % 2 ^ suc n / 2 ≡ x / 2 % 2 ^ n = omega (arith, e) in
    let last : x % 2 ^ suc n % 2 ≡ x % 2 = omega (arith, e) in
    omega (
      arith,
      bit_and_low (x % 2 ^ suc n) x,
      ap (λ (t : ℕ). bit_and t (x / 2)) half,
      bit_and-mod_self n (x / 2),
      e,
      last,
    )

pub bit_and_comm : (n a b : ℕ) → a < 2 ^ n → b < 2 ^ n → bit_and a b ≡ bit_and b a
bit_and_comm n a b p q =
    bit_ext n _ _ (bit_and_lt n a b q) (bit_and_lt n b a p) (λ k l. simp bit-bit_and (omega arith))

pub bit_or_comm : (n a b : ℕ) → a < 2 ^ n → b < 2 ^ n → bit_or a b ≡ bit_or b a
bit_or_comm n a b p q =
    bit_ext n _ _ (bit_or_lt n a b p q) (bit_or_lt n b a q p) (λ k l. simp bit-bit_or (omega arith))

pub bit_xor_comm : (n a b : ℕ) → a < 2 ^ n → b < 2 ^ n → bit_xor a b ≡ bit_xor b a
bit_xor_comm n a b p q =
    bit_ext n _ _ (bit_xor_lt n a b p q) (bit_xor_lt n b a q p)
      (λ k l. simp bit-bit_xor (omega arith))

-- The low digits of a number within a mask are within it.
pub bit_and-mod_within : (n x m : ℕ) → bit_and x m ≡ x → bit_and (x % 2 ^ n) m ≡ x % 2 ^ n
bit_and-mod_within zero x m h = rw (mod-one x, bit_and-zero_left m) refl
bit_and-mod_within (suc n) x m h =
    let e = mod-pow_suc x n in
    let half : x % 2 ^ suc n / 2 ≡ x / 2 % 2 ^ n = omega (arith, e) in
    let last : x % 2 ^ suc n % 2 ≡ x % 2 = omega (arith, e) in
    let i = bit_and-mod_within n (x / 2) (m / 2) (omega (arith, bit_and_low x m)) in
    omega (
      arith,
      bit_and_low (x % 2 ^ suc n) m,
      bit_and_low x m,
      ap (λ (t : ℕ). bit_and t (m / 2)) half,
      i,
      e,
      last,
    )

pub bit_and_le_left : (n a e : ℕ) → a < 2 ^ n → bit_and a e ≤ a
bit_and_le_left zero a e p =
    let pa : a ≡ 0 = omega arith in rw (pa, bit_and-zero_left e) (omega arith)
bit_and_le_left (suc n) a e p =
    omega (arith, bit_and_low a e, bit_and_le_left n (a / 2) (e / 2) (omega (arith, pow-suc 2 n)))

pub bit_and_lt_left : (n a e : ℕ) → a < 2 ^ n → bit_and a e < 2 ^ n
bit_and_lt_left n a e p = lt_of_le_of_lt (bit_and_le_left n a e p) p
