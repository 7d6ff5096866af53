-- ===== src/Tcg/Optimize/Tables.antt =====
-- The opcodes of each of the simplifications in `tcg_constant_folding`, the labels of its switches.
use fist_ame.Base.{Bool, true, false}
use fist_ame.Tcg.Op.{
  Binary, op_add, op_sub, op_mul, op_and, op_or, op_xor, op_shl, op_shr, op_sar, op_rotl, op_rotr,
}

abbrev pub is_shift : Binary → Bool
is_shift op_shl = true
is_shift op_shr = true
is_shift op_sar = true
is_shift op_rotl = true
is_shift op_rotr = true
is_shift _ = false

-- The operations of "op r, a, 0 => mov r, a".
abbrev pub keeps_with_zero : Binary → Bool
keeps_with_zero op_add = true
keeps_with_zero op_sub = true
keeps_with_zero op_shl = true
keeps_with_zero op_shr = true
keeps_with_zero op_sar = true
keeps_with_zero op_rotl = true
keeps_with_zero op_rotr = true
keeps_with_zero op_or = true
keeps_with_zero op_xor = true
keeps_with_zero _ = false

-- The operations of "op r, a, 0 => movi r, 0", "op r, a, a => mov r, a" and "op r, a, a => movi r, 0".
abbrev pub clears_with_zero : Binary → Bool
clears_with_zero op_and = true
clears_with_zero op_mul = true
clears_with_zero _ = false

abbrev pub keeps_same : Binary → Bool
keeps_same op_or = true
keeps_same op_and = true
keeps_same _ = false

abbrev pub clears_same : Binary → Bool
clears_same op_sub = true
clears_same op_xor = true
clears_same _ = false
