-- ===== src/Tcg/Meaning.antt =====
-- What the operations compute, after tcg/README: on words of 32 or 64 bits, whatever the host does.
use fist_ame.Base.{
  ℕ, ◌+◌, ◌-◌, ◌*◌, ◌/◌, ◌%◌, ◌^◌, Bool, true, false, not, ltb, leb, ◌==◌, if◌then◌else◌, bit_and,
  bit_or, bit_xor,
}
use fist_ame.Tcg.Op.{
  Width, i32, i64, op_bits, Unary, op_not, op_neg, op_ext8s, op_ext8u, op_ext16s, op_ext16u,
  op_ext32s, op_ext32u, Binary, op_add, op_sub, op_mul, op_and, op_or, op_xor, op_shl, op_shr,
  op_sar, op_rotl, op_rotr, op_andc, op_orc, op_eqv, op_nand, op_nor, Cond, never, always, cond_eq,
  cond_ne, lt, ge, le, gt, ltu, geu, leu, gtu,
}

-- The number of words of a width.
abbrev pub words : Width → ℕ
words i32 = 0x1_0000_0000
words i64 = 0x1_0000_0000_0000_0000

abbrev pub complement : Width → ℕ → ℕ
complement w x = words w - 1 - x

-- The low `n` bits of `x` as a signed number, in a word of width `w`.
abbrev pub extended : Width → ℕ → ℕ → ℕ
extended w n x = if ltb (x % 2 ^ n) (2 ^ (n - 1)) then x % 2 ^ n else words w - 2 ^ n + x % 2 ^ n

unfoldable pub unary : Width → Unary → ℕ → ℕ
unary w op_not x = complement w x
unary w op_neg x = (words w - x) % words w
unary w op_ext8s x = extended w 8 x
unary w op_ext16s x = extended w 16 x
unary w op_ext32s x = extended w 32 x
unary w op_ext8u x = x % 2 ^ 8
unary w op_ext16u x = x % 2 ^ 16
unary w op_ext32u x = x % 2 ^ 32

-- Shifts and rotations are defined for a count below the width.
unfoldable pub binary : Width → Binary → ℕ → ℕ → ℕ
binary w op_add x y = (x + y) % words w
binary w op_sub x y = (x + words w - y) % words w
binary w op_mul x y = x * y % words w
binary w op_and x y = bit_and x y
binary w op_or x y = bit_or x y
binary w op_xor x y = bit_xor x y
binary w op_shl x y = x * 2 ^ y % words w
binary w op_shr x y = x / 2 ^ y
binary w op_sar x y =
    if ltb x (words w / 2) then x / 2 ^ y else complement w (complement w x / 2 ^ y)
binary w op_rotl x y = (x * 2 ^ y % words w + x / 2 ^ (op_bits w - y)) % words w
binary w op_rotr x y = (x / 2 ^ y + x * 2 ^ (op_bits w - y) % words w) % words w
binary w op_andc x y = bit_and x (complement w y)
binary w op_orc x y = bit_or x (complement w y)
binary w op_eqv x y = complement w (bit_xor x y)
binary w op_nand x y = complement w (bit_and x y)
binary w op_nor x y = complement w (bit_or x y)

-- A word below half of the words of its width is at or above 0.
abbrev pub negative : Width → ℕ → Bool
negative w x = leb (words w / 2) x

-- The order of two signed words.
abbrev pub below : Width → ℕ → ℕ → Bool
below w x y =
    if negative w x
    then (if negative w y then ltb x y else true)
    else (if negative w y then false else ltb x y)

unfoldable pub holds : Width → Cond → ℕ → ℕ → Bool
holds w never x y = false
holds w always x y = true
holds w cond_eq x y = x == y
holds w cond_ne x y = not (x == y)
holds w lt x y = below w x y
holds w ge x y = not (below w x y)
holds w le x y = not (below w y x)
holds w gt x y = below w y x
holds w ltu x y = ltb x y
holds w geu x y = not (ltb x y)
holds w leu x y = not (ltb y x)
holds w gtu x y = ltb y x
