-- ===== src/Tcg/Op.antt =====
-- The operations of the intermediate code, from tcg/tcg-opc.h and tcg/tcg.h. The width is the suffix
-- of an opcode, _i32 or _i64.
use fist_ame.Base.{
  bit_and, bit_xor, nz, ◌==◌, if◌then◌else◌, Option, none, some, [], ◌∷◌, ℕ, List, Bool,
}

pub data Width : Type 0 where
  i32 i64 : Width

-- `op_bits`
abbrev pub op_bits : Width → ℕ
op_bits i32 = 32
op_bits i64 = 64

-- The opcodes with one input that the optimiser evaluates.
pub data Unary : Type 0 where
  op_not op_neg op_ext8s op_ext8u op_ext16s op_ext16u op_ext32s op_ext32u : Unary

-- The opcodes with two.
pub data Binary : Type 0 where
  op_add op_sub op_mul op_and op_or op_xor op_shl op_shr op_sar op_rotl op_rotr : Binary
  op_andc op_orc op_eqv op_nand op_nor : Binary

-- TCGCond
pub data Cond : Type 0 where
  never always cond_eq cond_ne lt ge le gt ltu geu leu gtu : Cond

-- The number of a condition in the enumeration: bit 0 inverts, bit 1 is signed, bit 2 is unsigned, and
-- bit 3 is used with bit 0 for swapping.
abbrev pub cond_number : Cond → ℕ
cond_number never = 0
cond_number always = 1
cond_number lt = 2
cond_number ge = 3
cond_number ltu = 4
cond_number geu = 5
cond_number cond_eq = 8
cond_number cond_ne = 9
cond_number le = 10
cond_number gt = 11
cond_number leu = 12
cond_number gtu = 13

abbrev pub find_cond : ℕ → List Cond → Option Cond
find_cond n [] = none
find_cond n (c ∷ cs) = let rest = find_cond n cs in if cond_number c == n then some c else rest

-- `(TCGCond)n`. C casts any number; `other` is for a number of no condition.
abbrev pub to_cond : ℕ → Cond → Cond
to_cond n other =
    elim (find_cond n
      (never ∷ always ∷ cond_eq ∷ cond_ne ∷ lt ∷ ge ∷ le ∷ gt ∷ ltu ∷ geu ∷ leu ∷ gtu ∷ [])) [
        | none ↦ other
        | some c ↦ c
      ]

unfoldable pub tcg_invert_cond : Cond → Cond
tcg_invert_cond c = to_cond (bit_xor (cond_number c) 1) c

unfoldable pub tcg_swap_cond : Cond → Cond
tcg_swap_cond c =
    if nz (bit_and (cond_number c) 6) then to_cond (bit_xor (cond_number c) 9) c else c

-- TCGOpDef of an opcode that the optimiser does not look into: the end of a basic block resets all.
pub record OpDef : Type 0 where
  pub opcode : ℕ
  pub bb_end : Bool

-- An operation with its arguments, outputs first. A call and an operation that is not looked into
-- have lists of output and input temporaries, and constants.
pub data Op : Type 0 where
  nop : Op
  movi : (w : Width) (dst val : ℕ) → Op
  mov : (w : Width) (dst src : ℕ) → Op
  unary_op : (w : Width) → Unary → (dst a : ℕ) → Op
  binary_op : (w : Width) → Binary → (dst a b : ℕ) → Op
  deposit : (w : Width) (dst a b ofs len : ℕ) → Op
  setcond : (w : Width) (dst a b : ℕ) → Cond → Op
  movcond : (w : Width) (dst a b v1 v2 : ℕ) → Cond → Op
  brcond : (w : Width) (a b : ℕ) → Cond → (label : ℕ) → Op
  br : (label : ℕ) → Op
  set_label : (label : ℕ) → Op
  call : (outs ins : List ℕ) (flags : ℕ) (cargs : List ℕ) → Op
  other : OpDef → (outs ins cargs : List ℕ) → Op
