-- ===== src/Cc/Saved.antt =====
-- EFLAGS around a run: cpu_exec of vx64/qemu/cpu-exec.c takes the condition codes and the direction
-- out of EFLAGS when it starts and puts them back when it ends.
use native.Mathlib.Nat.{pow-suc, mod-eq_of_lt}
use fist_ame.Base.{
  ℕ, suc, zero, ◌-◌, ◌+◌, ◌/◌, ◌%◌, ◌^◌, ◌<◌, ◌≡◌, ◌≢◌, refl, ◌∙◌, ap, bit_and, bit_or, bit_and_low,
  bit_or_low, bit_and-zero, bit_and_flag, bit_and_mask, bit_and_le, not64, arith, w32,
  if◌then◌else◌, ◌==◌, ==_iff, Bool-cases, inl, inr,
}
use fist_ame.Control.{clear}
use fist_ame.Cc.Compute.{CcOp, helper_cc_compute_all}

half_and : (a b : ℕ) → bit_and a b / 2 ≡ bit_and (a / 2) (b / 2)
half_and a b = omega (arith, bit_and_low a b)

-- `&` distributes over `|`.
pub bit_and-bit_or :
    (n e a b : ℕ)
    → a < 2 ^ n
    → b < 2 ^ n
    → bit_or (bit_and e a) (bit_and e b) ≡ bit_and e (bit_or a b)
bit_and-bit_or zero e a b p q =
    let pa : a ≡ 0 = omega arith in let pb : b ≡ 0 = omega arith in rw (pa, pb, bit_and-zero e) refl
bit_and-bit_or (suc n) e a b p q =
    let i =
      bit_and-bit_or n (e / 2) (a / 2) (b / 2) (omega (arith, pow-suc 2 n))
        (omega (arith, pow-suc 2 n)) in
    let x : bit_or (bit_and e a / 2) (bit_and e b / 2) ≡ bit_and (e / 2) (bit_or (a / 2) (b / 2)) =
      rw (half_and e a, half_and e b) i in
    let y : bit_or a b / 2 ≡ bit_or (a / 2) (b / 2) = omega (arith, bit_or_low a b) in
    omega (
      arith,
      x,
      bit_or_low (bit_and e a) (bit_and e b),
      bit_and_low e a,
      bit_and_low e b,
      bit_and_low e (bit_or a b),
      ap (λ (t : ℕ). bit_and (e / 2) t) y,
      bit_or_low a b,
    )

-- The condition codes, as the generated code keeps them: the last operation with its operands.
pub record Lazy : Type 0 where
  pub eflags : ℕ
  pub cc_op : CcOp
  pub cc_src : ℕ
  pub cc_dst : ℕ
  pub df : ℕ

abbrev cc_mask : ℕ
cc_mask = 0x8d5

abbrev pub df_mask : ℕ
df_mask = 0x400

-- The flags in the temporary format; DF is 1 or -1, an int.
pub start : Lazy → Lazy
start env = record env {
  cc_src = bit_and env.eflags cc_mask;
  df = if bit_and (env.eflags / 1024) 1 == 0 then 1 else w32 - 1;
  cc_op = CcOp.eflags;
  eflags = clear env.eflags (df_mask + cc_mask);
}

-- The flags in the standard format.
pub restore : Lazy → Lazy
restore env = record env {
  eflags =
      bit_or (bit_or env.eflags (helper_cc_compute_all env.cc_op env.cc_src env.cc_dst))
        (bit_and env.df df_mask);
}

df_lem :
    (e : ℕ) → bit_and (if bit_and (e / 1024) 1 == 0 then 1 else w32 - 1) 0x400 ≡ bit_and e 0x400
df_lem e = elim (Bool-cases (bit_and (e / 1024) 1 == 0)) [
  | inl h ↦ rw h (
      omega (
        arith,
        bit_and_flag 10 e,
        bit_and_flag 0 (e / 1024),
        (==_iff (bit_and (e / 1024) 1) 0).0 h,
      ))
  | inr h ↦
      let set : bit_and (e / 1024) 1 ≢ 0 = ground (arith, h) in
      rw h (omega (arith, bit_and_flag 10 e, bit_and_flag 0 (e / 1024), set))
]

-- What `start` takes out of EFLAGS `restore` puts back: with nothing run in between, a 64-bit EFLAGS
-- is the same.
pub restore-start : (env : Lazy) → env.eflags < 2 ^ 64 → (restore (start env)).eflags ≡ env.eflags
unfolding restore start helper_cc_compute_all
restore-start env h =
    let e = env.eflags in
    let low : bit_and e cc_mask % w32 ≡ bit_and e cc_mask =
      omega (arith, bit_and_le 12 e cc_mask (omega arith)) in
    let one : bit_or (clear e 0xcd5) (bit_and e 0x8d5) ≡ bit_and e (bit_or (not64 0xcd5) 0x8d5) =
      bit_and-bit_or 64 e _ _ (omega arith) (omega arith) in
    let two : bit_or (bit_and e (bit_or (not64 0xcd5) 0x8d5)) (bit_and e 0x400)
        ≡ bit_and e (2 ^ 64 - 1) =
      bit_and-bit_or 64 e _ _ (omega arith) (omega arith) in
    rw (low, df_lem e, one, two) (bit_and_mask 64 e ∙ mod-eq_of_lt h)
