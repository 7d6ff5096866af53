-- ===== src/Cc/Compute/Carry.antt =====
-- `helper_cc_compute_c`, the short way to the carry, against `helper_cc_compute_all`.
use fist_ame.Base.{
  ℕ, ◌-◌, ◌*◌, ◌/◌, suc, ◌^◌, ◌%◌, ◌≤◌, ◌≡◌, refl, ◌∙◌, sym, bit, bit_and, bit-bit_or, bit-bit_and,
  bit_and_flag, arith, Bool, true, false, ◌==◌, nz, w32,
}
use native.Mathlib.Nat.{pow-suc}
use fist_ame.Cc.Parity.{parity_table_lem}
use fist_ame.Cc.Size.{data_size, sign_mask, lshift_8}
use fist_ame.Cc.Compute.{
  CcOp, dynamic, eflags, mul, add, adc, sub, sbb, logic, inc, dec, shl, sar, helper_cc_compute_all,
  helper_cc_compute_c, flag, join, pf, compute_all_mul, compute_all_add, compute_all_adc,
  compute_all_sub, compute_all_sbb, compute_all_logic, compute_all_inc, compute_all_dec,
  compute_all_shl, compute_all_sar, compute_c_mul, compute_c_add, compute_c_adc, compute_c_sub,
  compute_c_sbb, compute_c_shl, compute_c_sar,
}

-- The parity flag is bit 2 alone.
pub pf_low : (dst : ℕ) → bit (pf dst) 0 ≡ 0
pf_low dst = rw (parity_table_lem (dst % 0x100) (omega arith)) (ground arith)

pub flag_low : (b : Bool) → bit (flag b) 0 ≡ flag b
flag_low true = refl
flag_low false = refl

-- Among the six flags only the carry has bit 0.
join_low :
    (c p a z s o : ℕ)
    → bit p 0 ≡ 0
    → bit a 0 ≡ 0
    → bit z 0 ≡ 0
    → bit s 0 ≡ 0
    → bit o 0 ≡ 0
    → bit_and (join c p a z s o) 1 ≡ bit c 0
join_low c p a z s o hp ha hz hs ho =
    bit_and_flag 0 (join c p a z s o) ∙ simp (bit-bit_or) (omega arith)

high_low : (x k : ℕ) → bit (bit_and x (2 ^ suc k)) 0 ≡ 0
high_low x k = simp (bit-bit_and) (omega (arith, pow-suc 2 k))

scaled_low : (b : Bool) (k : ℕ) → bit (flag b * (k * 2)) 0 ≡ 0
scaled_low b k = omega arith

one_low : (x : ℕ) → bit (bit_and x 1) 0 ≡ bit_and x 1
one_low x = omega (arith, bit_and_flag 0 x)

abbrev pub IsCarry : CcOp → ℕ → Type 0
IsCarry (inc s) src = src ≤ 1
IsCarry (dec s) src = src ≤ 1
IsCarry dynamic src = Unit
IsCarry eflags src = Unit
IsCarry (mul s) src = Unit
IsCarry (add s) src = Unit
IsCarry (adc s) src = Unit
IsCarry (sub s) src = Unit
IsCarry (sbb s) src = Unit
IsCarry (logic s) src = Unit
IsCarry (shl s) src = Unit
IsCarry (sar s) src = Unit

-- `helper_cc_compute_c` is bit 0 of `helper_cc_compute_all`, for every operation, where after INC and
-- DEC the source operand is a carry, 0 or 1, as the translator leaves it.
pub helper_cc_compute_c-all :
    (op : CcOp) (src dst : ℕ)
    → IsCarry op src
    → helper_cc_compute_c op src dst ≡ bit_and (helper_cc_compute_all op src dst) 1
unfolding helper_cc_compute_c helper_cc_compute_all compute_all_mul compute_all_add compute_all_adc
    compute_all_sub compute_all_sbb compute_all_logic compute_all_inc compute_all_dec
    compute_all_shl compute_all_sar compute_c_mul compute_c_add compute_c_adc compute_c_sub
    compute_c_sbb compute_c_shl compute_c_sar
helper_cc_compute_c-all dynamic src dst c = refl
helper_cc_compute_c-all eflags src dst c =
    omega (arith, bit_and_flag 0 src, bit_and_flag 0 (src % w32))
helper_cc_compute_c-all (mul s) src dst c = sym (
    join_low _ _ _ _ _ _ (pf_low dst) refl (scaled_low (dst % data_size s == 0) 32)
      (high_low (lshift_8 s dst) 6) (scaled_low (nz src) 1024)
    ∙ flag_low (nz src))
helper_cc_compute_c-all (add s) src dst c = sym (
    join_low _ _ _ _ _ _ (pf_low dst) (high_low _ 3) (scaled_low (dst % data_size s == 0) 32)
      (high_low (lshift_8 s dst) 6) (high_low _ 10)
    ∙ flag_low _)
helper_cc_compute_c-all (adc s) src dst c = sym (
    join_low _ _ _ _ _ _ (pf_low dst) (high_low _ 3) (scaled_low (dst % data_size s == 0) 32)
      (high_low (lshift_8 s dst) 6) (high_low _ 10)
    ∙ flag_low _)
helper_cc_compute_c-all (sub s) src dst c = sym (
    join_low _ _ _ _ _ _ (pf_low dst) (high_low _ 3) (scaled_low (dst % data_size s == 0) 32)
      (high_low (lshift_8 s dst) 6) (high_low _ 10)
    ∙ flag_low _)
helper_cc_compute_c-all (sbb s) src dst c = sym (
    join_low _ _ _ _ _ _ (pf_low dst) (high_low _ 3) (scaled_low (dst % data_size s == 0) 32)
      (high_low (lshift_8 s dst) 6) (high_low _ 10)
    ∙ flag_low _)
helper_cc_compute_c-all (logic s) src dst c = sym (
    join_low _ _ _ _ _ _ (pf_low dst) refl (scaled_low (dst % data_size s == 0) 32)
      (high_low (lshift_8 s dst) 6) refl
    ∙ refl)
helper_cc_compute_c-all (inc s) src dst c = sym (
    join_low _ _ _ _ _ _ (pf_low dst) (high_low _ 3) (scaled_low (dst % data_size s == 0) 32)
      (high_low (lshift_8 s dst) 6) (scaled_low (dst % data_size s == sign_mask s) 1024)
    ∙ omega (arith, c))
helper_cc_compute_c-all (dec s) src dst c = sym (
    join_low _ _ _ _ _ _ (pf_low dst) (high_low _ 3) (scaled_low (dst % data_size s == 0) 32)
      (high_low (lshift_8 s dst) 6) (scaled_low (dst % data_size s == sign_mask s - 1) 1024)
    ∙ omega (arith, c))
helper_cc_compute_c-all (shl s) src dst c = sym (
    join_low _ _ _ _ _ _ (pf_low dst) refl (scaled_low (dst % data_size s == 0) 32)
      (high_low (lshift_8 s dst) 6) (high_low _ 10)
    ∙ one_low (src / sign_mask s))
helper_cc_compute_c-all (sar s) src dst c = sym (
    join_low _ _ _ _ _ _ (pf_low dst) refl (scaled_low (dst % data_size s == 0) 32)
      (high_low (lshift_8 s dst) 6) (high_low _ 10)
    ∙ one_low src)
