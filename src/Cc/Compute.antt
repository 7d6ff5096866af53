-- ===== src/Cc/Compute.antt =====
-- The flags of each operation; the result is the `int` that the source returns, with the bits of
-- EFLAGS.
pub mod Carry
pub mod Compare
use fist_ame.Base.{
  ℕ, ◌+◌, ◌-◌, ◌*◌, ◌/◌, ◌%◌, ◌^◌, Bool, ltb, leb, ◌==◌, nz, if◌then◌else◌, bit_and, bit_or,
  bit_xor, w64, w32, add64, sub64, minus_one,
}
use fist_ame.Cc.Parity.{parity_table}
use fist_ame.Cc.Size.{
  OpSize, byte, word, long, quad, data_bits, data_size, sign_mask, lshift_8, lshift_12,
}

abbrev pub cc_o : ℕ
cc_o = 0x800

-- A comparison as an `int`.
abbrev pub flag : Bool → ℕ
flag b = if b then 1 else 0

-- `cf | pf | af | zf | sf | of`
abbrev pub join : ℕ → ℕ → ℕ → ℕ → ℕ → ℕ → ℕ
join cf pf af zf sf of = bit_or (bit_or (bit_or (bit_or (bit_or cf pf) af) zf) sf) of

abbrev pub pf : ℕ → ℕ
pf dst = parity_table (dst % 0x100)

abbrev pub zf : OpSize → ℕ → ℕ
zf s dst = flag (dst % data_size s == 0) * 64

abbrev pub sf : OpSize → ℕ → ℕ
sf s dst = bit_and (lshift_8 s dst) 0x80

pub compute_c_add : OpSize → ℕ → ℕ → ℕ
compute_c_add s src dst = flag (ltb (dst % data_size s) (src % data_size s))

pub compute_c_adc : OpSize → ℕ → ℕ → ℕ
compute_c_adc s src dst = flag (leb (dst % data_size s) (src % data_size s))

pub compute_c_sub : OpSize → ℕ → ℕ → ℕ
compute_c_sub s src dst = flag (ltb (add64 dst src % data_size s) (src % data_size s))

pub compute_c_sbb : OpSize → ℕ → ℕ → ℕ
compute_c_sbb s src dst = flag (leb (add64 (add64 dst src) 1 % data_size s) (src % data_size s))

abbrev pub compute_c_logic : ℕ
compute_c_logic = 0

abbrev pub compute_c_inc : ℕ → ℕ
compute_c_inc src = src % w32

pub compute_c_shl : OpSize → ℕ → ℕ
compute_c_shl s src = bit_and (src / sign_mask s) 1

pub compute_c_sar : ℕ → ℕ
compute_c_sar src = bit_and src 1

pub compute_c_mul : ℕ → ℕ
compute_c_mul src = flag (nz src)

pub compute_all_add : OpSize → ℕ → ℕ → ℕ
compute_all_add s src dst =
    let src1 = src in
    let src2 : ℕ = sub64 dst src in
    join (flag (ltb (dst % data_size s) (src1 % data_size s))) (pf dst)
      (bit_and (bit_xor (bit_xor dst src1) src2) 0x10) (zf s dst) (sf s dst)
      (bit_and (lshift_12 s (bit_and (bit_xor (bit_xor src1 src2) minus_one) (bit_xor src1 dst)))
        cc_o)

pub compute_all_adc : OpSize → ℕ → ℕ → ℕ
compute_all_adc s src dst =
    let src1 = src in
    let src2 : ℕ = sub64 (sub64 dst src) 1 in
    join (flag (leb (dst % data_size s) (src1 % data_size s))) (pf dst)
      (bit_and (bit_xor (bit_xor dst src1) src2) 0x10) (zf s dst) (sf s dst)
      (bit_and (lshift_12 s (bit_and (bit_xor (bit_xor src1 src2) minus_one) (bit_xor src1 dst)))
        cc_o)

pub compute_all_sub : OpSize → ℕ → ℕ → ℕ
compute_all_sub s src dst =
    let src1 = add64 dst src in
    let src2 : ℕ = src in
    join (flag (ltb (src1 % data_size s) (src2 % data_size s))) (pf dst)
      (bit_and (bit_xor (bit_xor dst src1) src2) 0x10) (zf s dst) (sf s dst)
      (bit_and (lshift_12 s (bit_and (bit_xor src1 src2) (bit_xor src1 dst))) cc_o)

pub compute_all_sbb : OpSize → ℕ → ℕ → ℕ
compute_all_sbb s src dst =
    let src1 = add64 (add64 dst src) 1 in
    let src2 : ℕ = src in
    join (flag (leb (src1 % data_size s) (src2 % data_size s))) (pf dst)
      (bit_and (bit_xor (bit_xor dst src1) src2) 0x10) (zf s dst) (sf s dst)
      (bit_and (lshift_12 s (bit_and (bit_xor src1 src2) (bit_xor src1 dst))) cc_o)

pub compute_all_logic : OpSize → ℕ → ℕ
compute_all_logic s dst = join 0 (pf dst) 0 (zf s dst) (sf s dst) 0

pub compute_all_inc : OpSize → ℕ → ℕ → ℕ
compute_all_inc s src dst =
    let src1 = sub64 dst 1 in
    let src2 : ℕ = 1 in
    join (src % w32) (pf dst) (bit_and (bit_xor (bit_xor dst src1) src2) 0x10) (zf s dst) (sf s dst)
      (flag (dst % data_size s == sign_mask s) * 2048)

pub compute_all_dec : OpSize → ℕ → ℕ → ℕ
compute_all_dec s src dst =
    let src1 = add64 dst 1 in
    let src2 : ℕ = 1 in
    join (src % w32) (pf dst) (bit_and (bit_xor (bit_xor dst src1) src2) 0x10) (zf s dst) (sf s dst)
      (flag (dst % data_size s == sign_mask s - 1) * 2048)

pub compute_all_shl : OpSize → ℕ → ℕ → ℕ
compute_all_shl s src dst =
    join (bit_and (src / sign_mask s) 1) (pf dst) (0) (zf s dst) (sf s dst)
      (bit_and (lshift_12 s (bit_xor src dst)) cc_o)

pub compute_all_sar : OpSize → ℕ → ℕ → ℕ
compute_all_sar s src dst =
    join (bit_and src 1) (pf dst) (0) (zf s dst) (sf s dst)
      (bit_and (lshift_12 s (bit_xor src dst)) cc_o)

pub compute_all_mul : OpSize → ℕ → ℕ → ℕ
compute_all_mul s src dst =
    join (flag (nz src)) (pf dst) (0) (zf s dst) (sf s dst) (flag (nz src) * 2048)

-- CC_OP; `dynamic` stands for every value without a case.
pub data CcOp : Type 0 where
  dynamic eflags : CcOp
  mul add adc sub sbb logic inc dec shl sar : OpSize → CcOp

unfoldable pub helper_cc_compute_all : CcOp → ℕ → ℕ → ℕ
helper_cc_compute_all op src dst = elim op [
  | dynamic ↦ 0
  | eflags ↦ src % w32
  | mul s ↦ compute_all_mul s src dst
  | add s ↦ compute_all_add s src dst
  | adc s ↦ compute_all_adc s src dst
  | sub s ↦ compute_all_sub s src dst
  | sbb s ↦ compute_all_sbb s src dst
  | logic s ↦ compute_all_logic s dst
  | inc s ↦ compute_all_inc s src dst
  | dec s ↦ compute_all_dec s src dst
  | shl s ↦ compute_all_shl s src dst
  | sar s ↦ compute_all_sar s src dst
]

pub helper_cc_compute_c : CcOp → ℕ → ℕ → ℕ
helper_cc_compute_c op src dst = elim op [
  | dynamic ↦ 0
  | eflags ↦ bit_and src 1
  | mul s ↦ compute_c_mul src
  | add s ↦ compute_c_add s src dst
  | adc s ↦ compute_c_adc s src dst
  | sub s ↦ compute_c_sub s src dst
  | sbb s ↦ compute_c_sbb s src dst
  | logic s ↦ compute_c_logic
  | inc s ↦ compute_c_inc src
  | dec s ↦ compute_c_inc src
  | shl s ↦ compute_c_shl s src
  | sar s ↦ compute_c_sar src
]
