-- ===== src/Tcg/Fold/Sound.antt =====
-- Constant folding computes what the operations mean, at both widths.
use native.Mathlib.Nat.{div-le_self, add_comm}
use fist_ame.Base.{
  bit_and_mask, bit_and_lt, bit_or_lt, bit_xor_lt, lt→ltb, w64, w32, not64, ℕ, ◌-◌, ◌*◌, ◌/◌, ◌%◌,
  ◌^◌, ◌<◌, bit_and, bit_or, bit_xor, ◌≡◌, refl, ap, ◌∙◌, Option, none, some, arith,
}
use fist_ame.Tcg.Op.{
  Width, op_bits, Unary, Binary, i32, i64, op_not, op_neg, op_ext8s, op_ext8u, op_ext16s, op_ext16u,
  op_ext32s, op_ext32u, op_add, op_sub, op_mul, op_and, op_or, op_xor, op_shl, op_shr, op_sar,
  op_rotl, op_rotr, op_andc, op_orc, op_eqv, op_nand, op_nor,
}
use fist_ame.Tcg.Meaning.{words, complement, unary, binary}
use fist_ame.Tcg.Fold.{
  left_shift, right_shift, right_shift_signed, either, do_constant_folding_1, do_constant_folding_2,
  cut_result, do_constant_folding_unary, do_constant_folding,
}
use fist_ame.Tcg.Fold.Words.{
  and_words, or_words, xor_words, not_words, add_words, sub_words, mul_words, sar_value, rot_sub,
  mod_again, rot_lem, small_mod,
}

cut_mod : (w : Width) (res : ℕ) → res < w64 → cut_result w res ≡ res % words w
unfolding cut_result
cut_mod i32 res p = bit_and_mask 32 res
cut_mod i64 res p = omega (arith, p)

-- The value of an extension, cut to the width.
unary-lt : (op : Unary) (x : ℕ) → x < w64 → do_constant_folding_1 op x < w64
unfolding do_constant_folding_1
unary-lt op_not x p = omega (arith, p)
unary-lt op_neg x p = omega (arith, p)
unary-lt op_ext8s x p = ground (arith, p)
unary-lt op_ext16s x p = ground (arith, p)
unary-lt op_ext8u x p = omega (arith, p)
unary-lt op_ext16u x p = omega (arith, p)
unary-lt op_ext32s x p = ground (arith, p)
unary-lt op_ext32u x p = omega (arith, p)

pub do_constant_folding_unary-unary :
    (w : Width) (op : Unary) (x : ℕ)
    → x < w64
    → do_constant_folding_unary w op x ≡ unary w op (x % words w)
unfolding do_constant_folding_unary do_constant_folding_1 unary
do_constant_folding_unary-unary w op x p =
    cut_mod w (do_constant_folding_1 op x) (unary-lt op x p) ∙ agree w op
  where
    agree :
        (w : Width) (op : Unary) → do_constant_folding_1 op x % words w ≡ unary w op (x % words w)
    agree i32 op_not = omega arith
    agree i64 op_not = omega arith
    agree i32 op_neg = omega arith
    agree i64 op_neg = omega arith
    agree i32 op_ext8s = ground arith
    agree i64 op_ext8s = ground arith
    agree i32 op_ext16s = ground arith
    agree i64 op_ext16s = ground arith
    agree i32 op_ext8u = omega arith
    agree i64 op_ext8u = omega arith
    agree i32 op_ext16u = omega arith
    agree i64 op_ext16u = omega arith
    agree i32 op_ext32s = ground arith
    agree i64 op_ext32s = ground arith
    agree i32 op_ext32u = omega arith
    agree i64 op_ext32u = omega arith

-- The counts for which a shift of two words is defined in C as the code writes it.
abbrev pub Counts : Width → Binary → ℕ → Type 0
Counts w op_shl y = y % 2 ^ op_bits w < op_bits w
Counts w op_shr y = y % 2 ^ op_bits w < op_bits w
Counts w op_sar y = y % 2 ^ op_bits w < op_bits w
Counts w op_rotl y = (0 < y) × (y < op_bits w)
Counts w op_rotr y = (0 < y) × (y < op_bits w)
Counts w _ y = Unit

-- The result of the code has the meaning of the operation.
abbrev pub Folds : Width → Binary → ℕ → ℕ → Option ℕ → Type 0
Folds w op x y none = ⊥
Folds w op x y (some res) = res ≡ binary w op (x % words w) (y % words w)

-- A result of 64 bits that agrees below the width.
cut_lem :
    (w : Width) (op : Binary) (x y res : ℕ)
    → do_constant_folding_2 w op x y ≡ some res
    → res < w64
    → res % words w ≡ binary w op (x % words w) (y % words w)
    → Folds w op x y (do_constant_folding w op x y)
unfolding do_constant_folding
cut_lem w op x y res e p h = rw (do_constant_folding, e) (cut_mod w res p ∙ h)

shl_lem :
    (w : Width) (x y : ℕ)
    → y % 2 ^ op_bits w < op_bits w
    → Folds w op_shl x y (do_constant_folding w op_shl x y)
unfolding do_constant_folding_2 left_shift binary
shl_lem i32 x y c =
    cut_lem i32 op_shl x y (x % w32 * 2 ^ (y % w32) % w32)
      (rw (do_constant_folding_2, lt→ltb _ _ c) refl) (omega arith) (omega arith)
shl_lem i64 x y c =
    cut_lem i64 op_shl x y (x % w64 * 2 ^ (y % w64) % w64)
      (rw (do_constant_folding_2, lt→ltb _ _ c) refl) (omega arith) (omega arith)

shr_lem :
    (w : Width) (x y : ℕ)
    → y % 2 ^ op_bits w < op_bits w
    → Folds w op_shr x y (do_constant_folding w op_shr x y)
unfolding do_constant_folding_2 right_shift binary
shr_lem i32 x y c =
    let d = div-le_self (x % w32) (2 ^ (y % w32)) in
    cut_lem i32 op_shr x y (x % w32 / 2 ^ (y % w32)) (rw (do_constant_folding_2, lt→ltb _ _ c) refl)
      (omega arith) (omega arith)
shr_lem i64 x y c =
    let d = div-le_self (x % w64) (2 ^ (y % w64)) in
    cut_lem i64 op_shr x y (x % w64 / 2 ^ (y % w64)) (rw (do_constant_folding_2, lt→ltb _ _ c) refl)
      (omega arith) (omega arith)

sar_lem :
    (w : Width) (x y : ℕ)
    → y % 2 ^ op_bits w < op_bits w
    → Folds w op_sar x y (do_constant_folding w op_sar x y)
unfolding do_constant_folding_2 right_shift_signed binary
sar_lem i32 x y c =
    let v =
      sar_value i32 (x % w32) (x % w32 / 2 ^ (y % w32)) ((w32 - 1 - x % w32) / 2 ^ (y % w32))
        (omega arith) (div-le_self _ _) (div-le_self _ _) in
    cut_lem i32 op_sar x y _ (rw (do_constant_folding_2, lt→ltb _ _ c) refl) v.0 v.1
sar_lem i64 x y c =
    let v =
      sar_value i64 (x % w64) (x % w64 / 2 ^ (y % w64)) ((w64 - 1 - x % w64) / 2 ^ (y % w64))
        (omega arith) (div-le_self _ _) (div-le_self _ _) in
    cut_lem i64 op_sar x y _ (rw (do_constant_folding_2, lt→ltb _ _ c) refl) v.0 v.1

-- What the code makes of the two shifts.
either_lem :
    (n a b x y : ℕ)
    → a < n
    → b < n
    → either (left_shift n x a) (right_shift n x b)
      ≡ some (bit_or (x % 2 ^ n * 2 ^ a % 2 ^ n) (x % 2 ^ n / 2 ^ b))
unfolding either left_shift right_shift
either_lem n a b x y p q = rw (lt→ltb _ _ p, lt→ltb _ _ q) refl

rotl_lem :
    (w : Width) (x y : ℕ)
    → 0 < y
    → y < op_bits w
    → Folds w op_rotl x y (do_constant_folding w op_rotl x y)
unfolding do_constant_folding_2 binary
rotl_lem w x y z h =
    let r = rot_lem w (op_bits w - y) y x (omega arith) in
    cut_lem w op_rotl x y _
      (rw (rot_sub w y h z) (either_lem (op_bits w) y (op_bits w - y) x y h (omega arith))) r.0
      (rw (small_mod w y h) (mod_again w _ _ r.1))

rotr_lem :
    (w : Width) (x y : ℕ)
    → 0 < y
    → y < op_bits w
    → Folds w op_rotr x y (do_constant_folding w op_rotr x y)
unfolding do_constant_folding_2 binary
rotr_lem w x y z h =
    let r = rot_lem w y (op_bits w - y) x (omega arith) in
    cut_lem w op_rotr x y _
      (rw (rot_sub w y h z) (either_lem (op_bits w) (op_bits w - y) y x y (omega arith) h)) r.0
      (rw (small_mod w y h) (mod_again w _ _ (r.1 ∙ add_comm _ _)))

-- Constant folding of two values of 64 bits gives the word that the operation means, wherever the
-- count of a shift is below the width, and that of a rotation is above 0 too.
pub do_constant_folding-binary :
    (w : Width) (op : Binary) (x y : ℕ)
    → x < w64
    → y < w64
    → Counts w op y
    → Folds w op x y (do_constant_folding w op x y)
unfolding do_constant_folding_2 binary
do_constant_folding-binary w op_add x y p q c =
    cut_lem w op_add x y _ refl (omega arith) (add_words w x y)
do_constant_folding-binary w op_sub x y p q c =
    cut_lem w op_sub x y _ refl (omega arith) (sub_words w x y p q)
do_constant_folding-binary w op_mul x y p q c =
    cut_lem w op_mul x y _ refl (omega arith) (mul_words w x y)
do_constant_folding-binary w op_and x y p q c =
    cut_lem w op_and x y _ refl (bit_and_lt 64 x y q) (and_words w x y)
do_constant_folding-binary w op_or x y p q c =
    cut_lem w op_or x y _ refl (bit_or_lt 64 x y p q) (or_words w x y)
do_constant_folding-binary w op_xor x y p q c =
    cut_lem w op_xor x y _ refl (bit_xor_lt 64 x y p q) (xor_words w x y)
do_constant_folding-binary w op_shl x y p q c = shl_lem w x y c
do_constant_folding-binary w op_shr x y p q c = shr_lem w x y c
do_constant_folding-binary w op_sar x y p q c = sar_lem w x y c
do_constant_folding-binary w op_rotr x y p q c = rotr_lem w x y c.0 c.1
do_constant_folding-binary w op_rotl x y p q c = rotl_lem w x y c.0 c.1
do_constant_folding-binary w op_andc x y p q c =
    cut_lem w op_andc x y _ refl (bit_and_lt 64 x (not64 y) (omega arith))
      (and_words w x (not64 y) ∙ ap (bit_and (x % words w)) (not_words w y q))
do_constant_folding-binary w op_orc x y p q c =
    cut_lem w op_orc x y _ refl (bit_or_lt 64 x (not64 y) p (omega arith))
      (or_words w x (not64 y) ∙ ap (bit_or (x % words w)) (not_words w y q))
do_constant_folding-binary w op_eqv x y p q c =
    cut_lem w op_eqv x y _ refl (omega arith)
      (not_words w (bit_xor x y) (bit_xor_lt 64 x y p q) ∙ ap (complement w) (xor_words w x y))
do_constant_folding-binary w op_nand x y p q c =
    cut_lem w op_nand x y _ refl (omega arith)
      (not_words w (bit_and x y) (bit_and_lt 64 x y q) ∙ ap (complement w) (and_words w x y))
do_constant_folding-binary w op_nor x y p q c =
    cut_lem w op_nor x y _ refl (omega arith)
      (not_words w (bit_or x y) (bit_or_lt 64 x y p q) ∙ ap (complement w) (or_words w x y))
