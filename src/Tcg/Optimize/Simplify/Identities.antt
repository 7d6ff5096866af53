-- ===== src/Tcg/Optimize/Simplify/Identities.antt =====
-- Identities of the operations with two inputs that the simplifications use, and the range of the results.
use native.Mathlib.Nat.{mul-zero, zero-mul, zero-div, div-le_self}
use fist_ame.Base.{
  bit_and-zero, bit_or-zero, bit_and_lt, bit_or_lt, bit_xor_lt, ltb, Bool-cases, bit_and_self,
  bit_or_self, bit_xor_self, bit_xor-zero, ℕ, ◌-◌, ◌/◌, ◌^◌, ◌<◌, bit_and, bit_or, bit_xor, ◌≡◌,
  inl, inr, true, arith,
}
use fist_ame.Tcg.Op.{
  Width, op_bits, Binary, i32, i64, op_add, op_sub, op_mul, op_and, op_or, op_xor, op_shl, op_shr,
  op_sar, op_rotl, op_rotr, op_andc, op_orc, op_eqv, op_nand, op_nor,
}
use fist_ame.Tcg.Meaning.{words, complement, binary}
use fist_ame.Tcg.Temps.Sound.{words_lt, mod_words, zero_word}
use fist_ame.Tcg.Optimize.Simplify.Extensions.{words_pow}
use fist_ame.Tcg.Optimize.Tables.{
  is_shift, keeps_with_zero, clears_with_zero, keeps_same, clears_same,
}

pub zero_shift : (w : Width) (f : Binary) (y : ℕ) → is_shift f ≡ true → binary w f 0 y ≡ 0
unfolding binary
zero_shift w op_shl y e = rw (zero-mul (2 ^ y)) (zero_word w)
zero_shift w op_shr y e = zero-div (2 ^ y)
zero_shift i32 op_sar y e = zero-div (2 ^ y)
zero_shift i64 op_sar y e = zero-div (2 ^ y)
zero_shift w op_rotl y e =
    rw (zero-mul (2 ^ y), zero_word w) (rw (zero-div (2 ^ (op_bits w - y))) (zero_word w))
zero_shift w op_rotr y e =
    rw (zero-mul (2 ^ (op_bits w - y)), zero_word w) (rw (zero-div (2 ^ y)) (zero_word w))
zero_shift w _ y e = cc e

pub keep_zero :
    (w : Width) (f : Binary) (x : ℕ) → x < words w → keeps_with_zero f ≡ true → binary w f x 0 ≡ x
unfolding binary
keep_zero i32 op_add x p e = omega (arith, p)
keep_zero i64 op_add x p e = omega (arith, p)
keep_zero i32 op_sub x p e = omega (arith, p)
keep_zero i64 op_sub x p e = omega (arith, p)
keep_zero i32 op_shl x p e = omega (arith, p)
keep_zero i64 op_shl x p e = omega (arith, p)
keep_zero w op_shr x p e = omega arith
keep_zero i32 op_sar x p e = ground (arith, p)
keep_zero i64 op_sar x p e = ground (arith, p)
keep_zero i32 op_rotl x p e = omega (arith, p)
keep_zero i64 op_rotl x p e = omega (arith, p)
keep_zero i32 op_rotr x p e = omega (arith, p)
keep_zero i64 op_rotr x p e = omega (arith, p)
keep_zero w op_or x p e = bit_or-zero x
keep_zero w op_xor x p e = bit_xor-zero 64 x (words_lt w x p)
keep_zero w _ x p e = cc e

pub clear_zero : (w : Width) (f : Binary) (x : ℕ) → clears_with_zero f ≡ true → binary w f x 0 ≡ 0
unfolding binary
clear_zero w op_and x e = bit_and-zero x
clear_zero w op_mul x e = rw (mul-zero x) (zero_word w)
clear_zero w _ x e = cc e

pub keep_same :
    (w : Width) (f : Binary) (x : ℕ) → x < words w → keeps_same f ≡ true → binary w f x x ≡ x
unfolding binary
keep_same w op_or x p e = bit_or_self 64 x (words_lt w x p)
keep_same w op_and x p e = bit_and_self 64 x (words_lt w x p)
keep_same w _ x p e = cc e

pub clear_same :
    (w : Width) (f : Binary) (x : ℕ) → x < words w → clears_same f ≡ true → binary w f x x ≡ 0
unfolding binary
clear_same i32 op_sub x p e = omega arith
clear_same i64 op_sub x p e = omega arith
clear_same w op_xor x p e = bit_xor_self 64 x (words_lt w x p)
clear_same w _ x p e = cc e

bits_lt :
    (op : ℕ → ℕ → ℕ)
    → ((n a b : ℕ) → a < 2 ^ n → b < 2 ^ n → op a b < 2 ^ n)
    → (w : Width) (x y : ℕ) → x < words w
    → y < words w
    → op x y < words w
bits_lt op h w x y p q =
    rw (words_pow w) (h (op_bits w) x y (rw (← words_pow w) p) (rw (← words_pow w) q))

complement_lt : (w : Width) (x : ℕ) → complement w x < words w
complement_lt i32 x = omega arith
complement_lt i64 x = omega arith

pub binary_lt :
    (w : Width) (f : Binary) (x y : ℕ) → x < words w → y < words w → binary w f x y < words w
unfolding binary
binary_lt w op_add x y p q = mod_words w _
binary_lt w op_sub x y p q = mod_words w _
binary_lt w op_mul x y p q = mod_words w _
binary_lt w op_and x y p q = bits_lt bit_and (λ n a b r t. bit_and_lt n a b t) w x y p q
binary_lt w op_or x y p q = bits_lt bit_or bit_or_lt w x y p q
binary_lt w op_xor x y p q = bits_lt bit_xor bit_xor_lt w x y p q
binary_lt w op_shl x y p q = mod_words w _
binary_lt w op_shr x y p q = omega (arith, p, div-le_self x (2 ^ y))
binary_lt w op_sar x y p q = elim (Bool-cases (ltb x (words w / 2))) [
  | inl n ↦ rw n (omega (arith, p, div-le_self x (2 ^ y)))
  | inr n ↦ rw n (complement_lt w (complement w x / 2 ^ y))
]
binary_lt w op_rotl x y p q = mod_words w _
binary_lt w op_rotr x y p q = mod_words w _
binary_lt w op_andc x y p q =
    bits_lt bit_and (λ n a b r t. bit_and_lt n a b t) w x (complement w y) p (complement_lt w y)
binary_lt w op_orc x y p q = bits_lt bit_or bit_or_lt w x (complement w y) p (complement_lt w y)
binary_lt w op_eqv x y p q = complement_lt w _
binary_lt w op_nand x y p q = complement_lt w _
binary_lt w op_nor x y p q = complement_lt w _
