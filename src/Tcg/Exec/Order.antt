-- ===== src/Tcg/Exec/Order.antt =====
-- The operations that the optimiser may turn round.
use native.Mathlib.Nat.{add_comm, mul_comm}
use fist_ame.Base.{bit_and_comm, bit_or_comm, bit_xor_comm, ℕ, ◌%◌, ◌^◌, ◌<◌, ◌≡◌, ap, true}
use fist_ame.Tcg.Op.{
  Width, op_bits, Binary, i32, i64, op_add, op_sub, op_mul, op_and, op_or, op_xor, op_shl, op_shr,
  op_sar, op_rotl, op_rotr, op_andc, op_orc, op_eqv, op_nand, op_nor,
}
use fist_ame.Tcg.Meaning.{words, complement, binary}
use fist_ame.Tcg.Optimize.{commutes}

words_pow : (w : Width) (x : ℕ) → x < words w → x < 2 ^ op_bits w
words_pow i32 x h = h
words_pow i64 x h = h

pub binary_comm :
    (w : Width) (f : Binary) (x y : ℕ)
    → commutes f ≡ true
    → x < words w
    → y < words w
    → binary w f x y ≡ binary w f y x
unfolding binary
binary_comm w op_add x y c p q = ap (λ (t : ℕ). t % words w) (add_comm x y)
binary_comm w op_mul x y c p q = ap (λ (t : ℕ). t % words w) (mul_comm x y)
binary_comm w op_and x y c p q = bit_and_comm (op_bits w) x y (words_pow w x p) (words_pow w y q)
binary_comm w op_or x y c p q = bit_or_comm (op_bits w) x y (words_pow w x p) (words_pow w y q)
binary_comm w op_xor x y c p q = bit_xor_comm (op_bits w) x y (words_pow w x p) (words_pow w y q)
binary_comm w op_eqv x y c p q =
    ap (complement w) (bit_xor_comm (op_bits w) x y (words_pow w x p) (words_pow w y q))
binary_comm w op_nand x y c p q =
    ap (complement w) (bit_and_comm (op_bits w) x y (words_pow w x p) (words_pow w y q))
binary_comm w op_nor x y c p q =
    ap (complement w) (bit_or_comm (op_bits w) x y (words_pow w x p) (words_pow w y q))
binary_comm w op_sub x y c p q = cc
binary_comm w op_shl x y c p q = cc
binary_comm w op_shr x y c p q = cc
binary_comm w op_sar x y c p q = cc
binary_comm w op_rotl x y c p q = cc
binary_comm w op_rotr x y c p q = cc
binary_comm w op_andc x y c p q = cc
binary_comm w op_orc x y c p q = cc
