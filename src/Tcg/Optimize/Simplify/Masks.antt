-- ===== src/Tcg/Optimize/Simplify/Masks.antt =====
-- What the masks of `tcg_constant_folding` say of the operations with two inputs.
use native.Mathlib.Nat.{one-le-pow, div-lt_iff_lt-mul, pow-le-pow_right, div-le_self}
use fist_ame.Base.{
  scale_mod, bit_and_comm, ltb, if◌then◌else◌, lt→ltb, Bool-cases, within_none, within_zero,
  within_le, within_low, bit_or_zero, w64, minus_one, ℕ, ◌+◌, ◌-◌, ◌*◌, ◌/◌, ◌%◌, ◌^◌, ◌≤◌, ◌<◌,
  bit_and, bit_or, ◌≡◌, refl, sym, ap, ◌∙◌, subst, inl, inr, true, Option, none, some, arith,
}
use fist_ame.Tcg.Op.{
  Width, op_bits, Binary, i32, i64, op_add, op_sub, op_mul, op_and, op_or, op_xor, op_shl, op_shr,
  op_sar, op_rotl, op_rotr, op_andc, op_orc, op_eqv, op_nand, op_nor,
}
use fist_ame.Tcg.Meaning.{words, binary}
use fist_ame.Tcg.Temps.{is_const, Temps}
use fist_ame.Tcg.Temps.Sound.{words_lt}
use fist_ame.Tcg.Optimize.Simplify.{mask_binary}
use fist_ame.Tcg.Fold.{left_shift, right_shift, right_shift_signed}

-- A shift by a constant count is defined.
abbrev pub IsShiftable : Width → Binary → ℕ → Type 0
IsShiftable w op_shl k = k < op_bits w
IsShiftable w op_shr k = k < op_bits w
IsShiftable w op_sar k = k < op_bits w
IsShiftable w op_rotl k = (0 < k) × (k < op_bits w)
IsShiftable w op_rotr k = (0 < k) × (k < op_bits w)
IsShiftable w _ k = Unit

bits_le : (w : Width) → op_bits w ≤ 64
bits_le i32 = omega arith
bits_le i64 = omega arith

div_small : (x k : ℕ) → x / 2 ^ k ≡ 0 → x < 2 ^ k
div_small x k z =
    let t : x < 1 * 2 ^ k =
      (div-lt_iff_lt-mul (one-le-pow k 2 (omega arith))).0 (omega (arith, z)) in
    omega (arith, t)

small_div : (x k : ℕ) → x < 2 ^ k → x / 2 ^ k ≡ 0
small_div x k p =
    let t : x / 2 ^ k < 1 =
      (div-lt_iff_lt-mul (one-le-pow k 2 (omega arith))).1 (omega (arith, p)) in
    omega (arith, t)

small_count : (w : Width) (k : ℕ) → k < op_bits w → k % words w ≡ k
small_count i32 k c = omega (arith, c)
small_count i64 k c = omega (arith, c)

half_pow : (w : Width) (k : ℕ) → k < op_bits w → 2 ^ k ≤ words w / 2
half_pow i32 k c = pow-le-pow_right {n = 2} (omega arith) {i = k} {j = 31} (omega (arith, c))
half_pow i64 k c = pow-le-pow_right {n = 2} (omega arith) {i = k} {j = 63} (omega (arith, c))

-- A word of a mask that is shifted out is shifted out.
module _ (w : Width) (x m k : ℕ) (q : m < w64) (h : bit_and x m ≡ x) (c : k < op_bits w) where
  shl_zero : m % 2 ^ 64 * 2 ^ k % 2 ^ 64 ≡ 0 → x * 2 ^ k % words w ≡ 0
  shl_zero z =
      let j : 64 - k + k ≡ 64 = omega (arith, c, bits_le w) in
      let scale : (y : ℕ) → y * 2 ^ k % 2 ^ 64 ≡ y % 2 ^ (64 - k) * 2 ^ k = λ y.
        subst (λ (t : ℕ). y * 2 ^ k % 2 ^ t ≡ y % 2 ^ (64 - k) * 2 ^ k) j
          (scale_mod (64 - k) k y) in
      let e : m % 2 ^ 64 ≡ m = omega (arith, q) in
      let m0 : m % 2 ^ (64 - k) * 2 ^ k ≡ 0 = sym (scale m) ∙ rw (← e) z in
      let pos = one-le-pow k 2 (omega arith) in
      let x0 = within_low (64 - k) x m h (no_factor _ _ pos m0) in
      low w (x * 2 ^ k) (scale x ∙ ap (λ (t : ℕ). t * 2 ^ k) x0)
    where
      no_factor : (a b : ℕ) → 0 < b → a * b ≡ 0 → a ≡ 0
      no_factor a b p z = grind (arith, p, z)

      low : (w : Width) (y : ℕ) → y % 2 ^ 64 ≡ 0 * 2 ^ k → y % words w ≡ 0
      low i32 y e = omega (arith, e)
      low i64 y e = omega (arith, e)

  shr_zero : m % 2 ^ 64 / 2 ^ k ≡ 0 → x / 2 ^ k ≡ 0
  shr_zero z =
      let e : m % 2 ^ 64 ≡ m = omega (arith, q) in
      let s = div_small m k (rw (← e) z) in small_div x k (omega (arith, s, within_le 64 x m q h))

  sar_zero :
      (if ltb (m % 2 ^ 64) (2 ^ 63)
          then m % 2 ^ 64 / 2 ^ k
          else w64 - 1 - (2 ^ 64 - 1 - m % 2 ^ 64) / 2 ^ k)
        ≡ 0
      → binary w op_sar x k ≡ 0
  unfolding binary
  sar_zero z = elim (Bool-cases (ltb (m % 2 ^ 64) (2 ^ 63))) [
    | inl n ↦
        let x0 = shr_zero (rw n at z) in
        let s : x < words w / 2 = omega (arith, div_small x k x0, half_pow w k c) in
        rw (lt→ltb x (words w / 2) s) x0
    | inr n ↦
        let big : 2 ^ 63 ≤ m = ground (arith, n, q) in
        absurd (omega (arith, rw n at z, div-le_self (2 ^ 64 - 1 - m % 2 ^ 64) (2 ^ k), big))
  ]

abbrev pub Zeroes : Width → Binary → ℕ → ℕ → Option ℕ → Type 0
Zeroes w f x y none = ⊥
Zeroes w f x y (some m) = m ≡ 0 → binary w f x y ≡ 0

-- The first inputs of the two operations and what the masks say of them.
module _ (w : Width) (temps : Temps) (a b x y : ℕ) (p : x < words w) (q : temps.mask a < w64)
    (ha : bit_and x (temps.mask a) ≡ x) (hb : bit_and y (temps.mask b) ≡ y) where
  or_zero : bit_or (temps.mask a) (temps.mask b) ≡ 0 → (x ≡ 0) × (y ≡ 0)
  or_zero z =
      let r = bit_or_zero 64 (temps.mask a) (temps.mask b) q z in
      (within_zero x (temps.mask a) ha r.0, within_zero y (temps.mask b) hb r.1)

  and_zero :
      temps.mask b < w64 → y < words w → bit_and (temps.mask a) (temps.mask b) ≡ 0 → bit_and x y ≡ 0
  and_zero qb py z =
      let px = words_lt w x p in
      let xb : bit_and x (temps.mask b) ≡ 0 =
        within_none 64 x (temps.mask a) (temps.mask b) px ha z in
      bit_and_comm 64 x y px (words_lt w y py)
      ∙ within_none 64 y (temps.mask b) x (words_lt w y py) hb
          (bit_and_comm 64 (temps.mask b) x qb px ∙ xb)

  shift_mask :
      (f : Binary) (shift : ℕ → ℕ → ℕ → Option ℕ)
      → (is_const (temps.state b) ≡ true → y ≡ temps.val b)
      → (is_const (temps.state b) ≡ true
          → Zeroes w f x (temps.val b) (shift 64 (temps.mask a) (temps.val b)))
      → Zeroes w f x y (
          if is_const (temps.state b)
          then shift 64 (temps.mask a) (temps.val b)
          else some minus_one)
  shift_mask f shift e z = elim (Bool-cases (is_const (temps.state b))) [
    | inl k ↦ rw (k, e k) (z k)
    | inr k ↦ rw k (λ t. absurd (omega (arith, t)))
  ]

  pub mask_binary-Zeroes :
      (f : Binary)
      → temps.mask b < w64
      → y < words w
      → (is_const (temps.state b) ≡ true → y ≡ temps.val b % words w)
      → (is_const (temps.state b) ≡ true → IsShiftable w f (temps.val b))
      → Zeroes w f x y (mask_binary temps f a b)
  unfolding mask_binary binary left_shift right_shift right_shift_signed
  mask_binary-Zeroes op_and qb py e c = λ z. and_zero qb py z
  mask_binary-Zeroes op_or qb py e c = λ z. let r = or_zero z in rw (r.0, r.1) refl
  mask_binary-Zeroes op_xor qb py e c = λ z. let r = or_zero z in rw (r.0, r.1) refl
  mask_binary-Zeroes op_shl qb py e c =
      shift_mask op_shl left_shift (λ k. e k ∙ small_count w (temps.val b) (c k))
        (λ k.
          let l : temps.val b < 64 = omega (arith, c k, bits_le w) in
          rw (left_shift, lt→ltb _ _ l) (shl_zero w x (temps.mask a) (temps.val b) q ha (c k)))
  mask_binary-Zeroes op_shr qb py e c =
      shift_mask op_shr right_shift (λ k. e k ∙ small_count w (temps.val b) (c k))
        (λ k.
          let l : temps.val b < 64 = omega (arith, c k, bits_le w) in
          rw (right_shift, lt→ltb _ _ l) (shr_zero w x (temps.mask a) (temps.val b) q ha (c k)))
  mask_binary-Zeroes op_sar qb py e c =
      shift_mask op_sar right_shift_signed (λ k. e k ∙ small_count w (temps.val b) (c k))
        (λ k.
          let l : temps.val b < 64 = omega (arith, c k, bits_le w) in
          rw (right_shift_signed, lt→ltb _ _ l)
            (sar_zero w x (temps.mask a) (temps.val b) q ha (c k)))
  mask_binary-Zeroes op_add qb py e c = λ t. absurd (omega (arith, t))
  mask_binary-Zeroes op_sub qb py e c = λ t. absurd (omega (arith, t))
  mask_binary-Zeroes op_mul qb py e c = λ t. absurd (omega (arith, t))
  mask_binary-Zeroes op_rotl qb py e c = λ t. absurd (omega (arith, t))
  mask_binary-Zeroes op_rotr qb py e c = λ t. absurd (omega (arith, t))
  mask_binary-Zeroes op_andc qb py e c = λ t. absurd (omega (arith, t))
  mask_binary-Zeroes op_orc qb py e c = λ t. absurd (omega (arith, t))
  mask_binary-Zeroes op_eqv qb py e c = λ t. absurd (omega (arith, t))
  mask_binary-Zeroes op_nand qb py e c = λ t. absurd (omega (arith, t))
  mask_binary-Zeroes op_nor qb py e c = λ t. absurd (omega (arith, t))
