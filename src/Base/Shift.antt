-- ===== src/Base/Shift.antt =====
-- `^` against shifts, and high masks against one another.
use Prim.Native.Nat.{ℕ, zero, suc, ◌+◌, ◌-◌, ◌*◌, ◌/◌, ◌%◌, ◌^◌, ◌≤◌, ◌<◌, max, bit_and, bit_xor}
use mathlib.Core.Path.{◌≡◌, refl, sym, ap, ◌∙◌}
use native.Mathlib.Nat.{
  pow-suc, one-le-pow, div-div-eq-div-mul, mul_comm, add-zero, mul-mod_left, dvd_of_mod-eq-zero,
  mod-mod_of_dvd, mod-eq-zero_of_dvd, dvd-sub, zero-mod, mod-add-mod, div-one, zero-add,
  mod-eq_of_lt, div-add-mod, mul-div_cancel_left,
}
use native.Mathlib.Decide.{dec_le}
use native.Mathlib.Omega.{arith}
use fist_ame.Base.Bits.{bit_xor_low, differ-mod, bit_and_high, bit_and-zero, pow_mono}

pub div_pow_suc : (x k : ℕ) → x / 2 ^ suc k ≡ x / 2 / 2 ^ k
div_pow_suc x k =
    ap (λ (t : ℕ). x / t) (pow-suc 2 k ∙ mul_comm (2 ^ k) 2) ∙ sym (div-div-eq-div-mul x 2 (2 ^ k))

pub xor-shift : (k a b : ℕ) → bit_xor a b / 2 ^ k ≡ bit_xor (a / 2 ^ k) (b / 2 ^ k)
xor-shift zero a b = simp div-one
xor-shift (suc k) a b = simp div_pow_suc (
    ap (λ (t : ℕ). t / 2 ^ k) (omega (arith, bit_xor_low a b, differ-mod a b))
    ∙ xor-shift k (a / 2) (b / 2))

eq_of_xor_below : (n a b : ℕ) → a ≤ n → b ≤ n → bit_xor a b ≡ 0 → a ≡ b
eq_of_xor_below zero a b p q h = omega arith
eq_of_xor_below (suc n) a b p q h = omega (
  arith,
  bit_xor_low a b,
  differ-mod a b,
  eq_of_xor_below n (a / 2) (b / 2) (omega arith) (omega arith) (omega (arith, bit_xor_low a b)),
)

pub eq_of_xor : (a b : ℕ) → bit_xor a b ≡ 0 → a ≡ b
eq_of_xor a b h = eq_of_xor_below (a + b) a b (omega arith) (omega arith) h

pub pow-add : (a b : ℕ) → 2 ^ (a + b) ≡ 2 ^ a * 2 ^ b
pow-add zero b = omega (arith, ap (λ (t : ℕ). 2 ^ t) (zero-add b))
pow-add (suc a) b =
    let e : suc a + b ≡ suc (a + b) = omega arith in
    rw e (omega (arith, pow-suc 2 (a + b), pow-add a b, ap (λ (t : ℕ). t * 2 ^ b) (pow-suc 2 a)))

pub pow-mod : (a b : ℕ) → b ≤ a → 2 ^ a % 2 ^ b ≡ 0
pow-mod a b h =
    let e : a ≡ a - b + b = omega arith in
    let e' : 2 ^ a ≡ 2 ^ (a - b) * 2 ^ b = ap (λ (t : ℕ). 2 ^ t) e ∙ pow-add (a - b) b in
    ap (λ (t : ℕ). t % 2 ^ b) e' ∙ mul-mod_left (2 ^ (a - b)) (2 ^ b)

-- `2 ^ 64 - 2 ^ k`: the mask of a region of `2 ^ k` bytes.
abbrev pub high_mask : ℕ → ℕ
high_mask k = 0x1_0000_0000_0000_0000 - 2 ^ k

-- Masking by it rounds down to the region.
pub high_mask_lem :
    (k x : ℕ) → k ≤ 64 → x < 0x1_0000_0000_0000_0000 → bit_and x (high_mask k) ≡ x - x % 2 ^ k
high_mask_lem k x h p = omega (
  arith,
  ap (λ (t : ℕ). bit_and x t) (add-zero (high_mask k)),
  bit_and_high k 64 x 0 h p (one-le-pow k 2 (omega arith)),
  bit_and-zero x,
)

-- A number is divisible by `2 ^ j` if it is by `2 ^ k` and `j ≤ k`.
pub mod-pow_le : (j k x : ℕ) → j ≤ k → x % 2 ^ k ≡ 0 → x % 2 ^ j ≡ 0
mod-pow_le j k x h e =
    let d = dvd_of_mod-eq-zero (2 ^ j) (pow-mod k j h) in
    sym (mod-mod_of_dvd (2 ^ j) x d) ∙ (ap (λ (t : ℕ). t % 2 ^ j) e ∙ zero-mod (2 ^ j))

pub high_mask-mod : (j k : ℕ) → k ≤ j → j ≤ 64 → high_mask j % 2 ^ k ≡ 0
high_mask-mod j k h p = mod-eq-zero_of_dvd (2 ^ k) (
    dvd-sub (2 ^ k) (dvd_of_mod-eq-zero (2 ^ k) (pow-mod 64 k (omega arith)))
      (dvd_of_mod-eq-zero (2 ^ k) (pow-mod j k h)))

pub high_mask_lt : (k : ℕ) → high_mask k < 0x1_0000_0000_0000_0000
high_mask_lt k = omega (arith, one-le-pow k 2 (omega arith))

high_mask_low : (j k : ℕ) → j < k → k ≤ 64 → high_mask j % 2 ^ k ≡ 2 ^ k - 2 ^ j
high_mask_low j k h p =
    let split : high_mask j ≡ high_mask k + (2 ^ k - 2 ^ j) =
      omega (arith, pow_mono j k (omega arith), pow_mono k 64 p) in
    ap (λ (t : ℕ). t % 2 ^ k) split
    ∙ sym (mod-add-mod (high_mask k) (2 ^ k) (2 ^ k - 2 ^ j))
    ∙ ap (λ (t : ℕ). (t + (2 ^ k - 2 ^ j)) % 2 ^ k) (high_mask-mod k k (omega arith) p)
    ∙ ap (λ (t : ℕ). t % 2 ^ k) (zero-add (2 ^ k - 2 ^ j))
    ∙ mod-eq_of_lt (omega (arith, one-le-pow j 2 (omega arith), pow_mono j k (omega arith)))

max_left : (j k : ℕ) → k ≤ j → max j k ≡ j
max_left j k h = omega arith

max_right : (j k : ℕ) → j ≤ k → max j k ≡ k
max_right j k h = omega arith

-- The masks of two regions meet in that of the larger.
pub and-high_masks :
    (j k : ℕ) → j ≤ 64 → k ≤ 64 → bit_and (high_mask j) (high_mask k) ≡ high_mask (max j k)
and-high_masks j k p q = elim (dec_le k j) [
  | yes h ↦ omega (
    arith,
    high_mask_lem k (high_mask j) q (high_mask_lt j),
    high_mask-mod j k h p,
    ap (λ (t : ℕ). high_mask t) (max_left j k h),
  )
  | no h ↦ omega (
    arith,
    high_mask_lem k (high_mask j) q (high_mask_lt j),
    high_mask_low j k (omega arith) q,
    pow_mono k 64 q,
    pow_mono j k (omega arith),
    ap (λ (t : ℕ). high_mask t) (max_right j k (omega arith)),
  )
]

-- Numbers that agree above bit `k` agree above bit `n`, and round down alike.
pub div-pow_le : (k n a b : ℕ) → k ≤ n → a / 2 ^ k ≡ b / 2 ^ k → a / 2 ^ n ≡ b / 2 ^ n
div-pow_le k n a b h e = split a ∙ ap (λ (t : ℕ). t / 2 ^ (n - k)) e ∙ sym (split b)
  where
    sum : n ≡ k + (n - k)
    sum = omega arith

    split : (x : ℕ) → x / 2 ^ n ≡ x / 2 ^ k / 2 ^ (n - k)
    split x =
        ap (λ (t : ℕ). x / 2 ^ t) sum
        ∙ ap (λ (t : ℕ). x / t) (pow-add k (n - k))
        ∙ sym (div-div-eq-div-mul x (2 ^ k) (2 ^ (n - k)))

pub round_eq : (m a b : ℕ) → a / m ≡ b / m → a - a % m ≡ b - b % m
round_eq m a b e = omega (arith, div-add-mod a m, div-add-mod b m, ap (λ (t : ℕ). m * t) e)

pub div-round : (m a : ℕ) → 0 < m → (a - a % m) / m ≡ a / m
div-round m a h =
    let e : a - a % m ≡ m * (a / m) = omega (arith, div-add-mod a m) in
    ap (λ (t : ℕ). t / m) e ∙ mul-div_cancel_left (a / m) h

pub xor-lt_w64 :
    (a b : ℕ)
    → a < 0x1_0000_0000_0000_0000
    → b < 0x1_0000_0000_0000_0000
    → bit_xor a b < 0x1_0000_0000_0000_0000
xor-lt_w64 a b p q =
    let za : a / 2 ^ 64 ≡ 0 = omega arith in
    let zb : b / 2 ^ 64 ≡ 0 = omega arith in
    let e : bit_xor a b / 2 ^ 64 ≡ 0 = xor-shift 64 a b ∙ rw (za, zb) refl in omega (arith, e)
