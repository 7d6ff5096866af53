-- ===== src/Tcg/Fold.antt =====
-- `do_constant_folding` and the comparisons of tcg/optimize.c, on values of 64 bits (TCGArg). A
-- shift by the width of the word or more has no result in C: none.
pub mod Words
pub mod Sound
pub mod Compare
use fist_ame.Base.{
  ℕ, ◌+◌, ◌-◌, ◌*◌, ◌/◌, ◌%◌, ◌^◌, Bool, true, false, not, ltb, leb, ◌==◌, if◌then◌else◌, Option,
  none, some, bit_and, bit_or, bit_xor, w32, w64, add64, sub64, not64,
}
use fist_ame.Tcg.Op.{
  Width, i32, i64, op_bits, Unary, op_not, op_neg, op_ext8s, op_ext8u, op_ext16s, op_ext16u,
  op_ext32s, op_ext32u, Binary, op_add, op_sub, op_mul, op_and, op_or, op_xor, op_shl, op_shr,
  op_sar, op_rotl, op_rotr, op_andc, op_orc, op_eqv, op_nand, op_nor, Cond, never, always, cond_eq,
  cond_ne, lt, ge, le, gt, ltu, geu, leu, gtu,
}

-- `(intN_t)x` for N = n, as a word of 64 bits.
abbrev pub signed_cast : ℕ → ℕ → ℕ
signed_cast n x = if ltb (x % 2 ^ n) (2 ^ (n - 1)) then x % 2 ^ n else w64 - 2 ^ n + x % 2 ^ n

-- `(uintN_t)x << count`, `(uintN_t)x >> count` and `(intN_t)x >> count` for N = n.
unfoldable pub left_shift : ℕ → ℕ → ℕ → Option ℕ
left_shift n x count = if ltb count n then some (x % 2 ^ n * 2 ^ count % 2 ^ n) else none

unfoldable pub right_shift : ℕ → ℕ → ℕ → Option ℕ
right_shift n x count = if ltb count n then some (x % 2 ^ n / 2 ^ count) else none

-- The shift of a negative number rounds down.
unfoldable pub right_shift_signed : ℕ → ℕ → ℕ → Option ℕ
right_shift_signed n x count =
    if ltb count n
    then some (
        if ltb (x % 2 ^ n) (2 ^ (n - 1))
        then x % 2 ^ n / 2 ^ count
        else w64 - 1 - (2 ^ n - 1 - x % 2 ^ n) / 2 ^ count)
    else none

-- `a | b` of two shifts.
unfoldable pub either : Option ℕ → Option ℕ → Option ℕ
either none b = none
either (some a) none = none
either (some a) (some b) = some (bit_or a b)

unfoldable pub do_constant_folding_1 : Unary → ℕ → ℕ
do_constant_folding_1 op_not x = not64 x
do_constant_folding_1 op_neg x = sub64 0 x
do_constant_folding_1 op_ext8s x = signed_cast 8 x
do_constant_folding_1 op_ext16s x = signed_cast 16 x
do_constant_folding_1 op_ext8u x = x % 0x100
do_constant_folding_1 op_ext16u x = x % 0x1_0000
do_constant_folding_1 op_ext32s x = signed_cast 32 x
do_constant_folding_1 op_ext32u x = x % w32

unfoldable pub do_constant_folding_2 : Width → Binary → ℕ → ℕ → Option ℕ
do_constant_folding_2 w op_add x y = some (add64 x y)
do_constant_folding_2 w op_sub x y = some (sub64 x y)
do_constant_folding_2 w op_mul x y = some (x * y % w64)
do_constant_folding_2 w op_and x y = some (bit_and x y)
do_constant_folding_2 w op_or x y = some (bit_or x y)
do_constant_folding_2 w op_xor x y = some (bit_xor x y)
do_constant_folding_2 w op_shl x y = left_shift (op_bits w) x (y % 2 ^ op_bits w)
do_constant_folding_2 w op_shr x y = right_shift (op_bits w) x (y % 2 ^ op_bits w)
do_constant_folding_2 w op_sar x y = right_shift_signed (op_bits w) x (y % 2 ^ op_bits w)
do_constant_folding_2 w op_rotr x y =
    either (left_shift (op_bits w) x (sub64 (op_bits w) y)) (right_shift (op_bits w) x y)
do_constant_folding_2 w op_rotl x y =
    either (left_shift (op_bits w) x y) (right_shift (op_bits w) x (sub64 (op_bits w) y))
do_constant_folding_2 w op_andc x y = some (bit_and x (not64 y))
do_constant_folding_2 w op_orc x y = some (bit_or x (not64 y))
do_constant_folding_2 w op_eqv x y = some (not64 (bit_xor x y))
do_constant_folding_2 w op_nand x y = some (not64 (bit_and x y))
do_constant_folding_2 w op_nor x y = some (not64 (bit_or x y))

-- `do_constant_folding`: the result is cut to 32 bits for a 32-bit operation.
unfoldable pub cut_result : Width → ℕ → ℕ
cut_result i32 res = bit_and res 0xffff_ffff
cut_result i64 res = res

unfoldable pub do_constant_folding_unary : Width → Unary → ℕ → ℕ
do_constant_folding_unary w op x = cut_result w (do_constant_folding_1 op x)

unfoldable pub do_constant_folding : Width → Binary → ℕ → ℕ → Option ℕ
do_constant_folding w op x y = elim (do_constant_folding_2 w op x y) [
  | none ↦ none
  | some res ↦ some (cut_result w res)
]

-- `(intN_t)x < (intN_t)y` on words of N bits: the sign bit is turned.
abbrev pub less : ℕ → ℕ → ℕ → Bool
less n x y = ltb ((x + 2 ^ (n - 1)) % 2 ^ n) ((y + 2 ^ (n - 1)) % 2 ^ n)

-- `do_constant_folding_cond_32` and `do_constant_folding_cond_64`; none is `tcg_abort`.
unfoldable pub do_constant_folding_cond_n : ℕ → ℕ → ℕ → Cond → Option Bool
do_constant_folding_cond_n n x y never = none
do_constant_folding_cond_n n x y always = none
do_constant_folding_cond_n n x y cond_eq = some (x == y)
do_constant_folding_cond_n n x y cond_ne = some (not (x == y))
do_constant_folding_cond_n n x y lt = some (less n x y)
do_constant_folding_cond_n n x y ge = some (not (less n x y))
do_constant_folding_cond_n n x y le = some (not (less n y x))
do_constant_folding_cond_n n x y gt = some (less n y x)
do_constant_folding_cond_n n x y ltu = some (ltb x y)
do_constant_folding_cond_n n x y geu = some (not (ltb x y))
do_constant_folding_cond_n n x y leu = some (leb x y)
do_constant_folding_cond_n n x y gtu = some (ltb y x)

unfoldable pub do_constant_folding_cond_eq : Cond → Option Bool
do_constant_folding_cond_eq never = none
do_constant_folding_cond_eq always = none
do_constant_folding_cond_eq gt = some false
do_constant_folding_cond_eq ltu = some false
do_constant_folding_cond_eq lt = some false
do_constant_folding_cond_eq gtu = some false
do_constant_folding_cond_eq cond_ne = some false
do_constant_folding_cond_eq ge = some true
do_constant_folding_cond_eq geu = some true
do_constant_folding_cond_eq le = some true
do_constant_folding_cond_eq leu = some true
do_constant_folding_cond_eq cond_eq = some true
