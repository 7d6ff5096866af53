-- ===== src/Debug/Accept.antt =====
-- Which watchpoints `cpu_watchpoint_insert` accepts, and that an access to a watched page cannot
-- take the fast path of the TLB.
use native.Mathlib.Nat.{pow-suc, one-le-pow, mod_self, div-add-mod, mul-add-div, div-eq_of_lt}
use native.Mathlib.Decide.{dec_lt}
use fist_ame.Base.{
  ℕ, zero, suc, ◌+◌, ◌-◌, ◌*◌, ◌/◌, ◌%◌, ◌^◌, ◌≤◌, ◌<◌, ◌≡◌, refl, ap, ◌∙◌, sym, false, ◌||◌, ◌==◌,
  nz, ltb, bit_and, arith, Bool-cases, inl, inr, w64, sub64, not64, bit_and_mask, bit_and_low,
  pow_mono, ◌↔◌, div-pow_le, round_eq, page_mask_lem,
}
use fist_ame.Cpu.{Env, Tlb, nb_mmu_modes}
use fist_ame.Tlb.{tlb_flush_page}
use fist_ame.Tlb.Flush.{hit, page_of, hit-tlb_flush_page}
use fist_ame.Debug.{refused, ok, cpu_watchpoint_insert}

-- `len & (len - 1)` is 0 for a power of 2 alone.
and-pred_pow : (k : ℕ) → bit_and (2 ^ k) (2 ^ k - 1) ≡ 0
and-pred_pow k = bit_and_mask k (2 ^ k) ∙ mod_self (2 ^ k)

-- A power of 2, as a number of bits.
record PowerOfTwo (n : ℕ) : Type 0 where
  bits : ℕ
  pow : n ≡ 2 ^ bits

and_self_below : (fuel n : ℕ) → n ≤ fuel → bit_and n n ≡ n
and_self_below fuel zero h = refl
and_self_below zero (suc n) h = absurd (omega arith)
and_self_below (suc fuel) (suc n) h =
    omega (arith, bit_and_low (suc n) (suc n), and_self_below fuel (suc n / 2) (omega arith))

power_of_one : (n : ℕ) → n ≡ 1 → PowerOfTwo n
power_of_one n e = record { bits = 0; pow = e }

power_of_half : (n : ℕ) → n % 2 ≡ 0 → PowerOfTwo (n / 2) → PowerOfTwo n
power_of_half n e p = record { bits = suc p.bits; pow = omega (arith, p.pow, pow-suc 2 p.bits) }

and_pred_low : (n : ℕ) → 0 < n → n % 2 ≡ 0 → bit_and n (n - 1) ≡ bit_and (n / 2) (n / 2 - 1) * 2
and_pred_low n h e =
    let half : (n - 1) / 2 ≡ n / 2 - 1 = omega arith in
    omega (arith, bit_and_low n (n - 1), ap (λ (t : ℕ). bit_and (n / 2) t) half)

and_pred_odd : (n : ℕ) → n % 2 ≡ 1 → bit_and n (n - 1) ≡ n - 1
and_pred_odd n e =
    let half : (n - 1) / 2 ≡ n / 2 = omega arith in
    omega (
      arith,
      bit_and_low n (n - 1),
      ap (λ (t : ℕ). bit_and (n / 2) t) half,
      and_self_below (n / 2) (n / 2) (omega arith),
    )

power_of_and : (fuel n : ℕ) → n ≤ fuel → 0 < n → bit_and n (n - 1) ≡ 0 → PowerOfTwo n
power_of_and zero n h p e = absurd (omega arith)
power_of_and (suc fuel) n h p e = elim (dec_lt (n % 2) 1) [
  | yes even ↦ power_of_half n (omega arith) (
      power_of_and fuel (n / 2) (omega arith) (omega arith)
        (omega (arith, e, and_pred_low n p (omega arith))))
  | no odd ↦ power_of_one n (omega (arith, e, and_pred_odd n (omega arith)))
]

-- The checks of the source, in words: a block of `2 ^ k` bytes, within a page, at a multiple of
-- its size.
pub record IsBlock (addr len : ℕ) : Type 0 where
  pub bits : ℕ
  pub small : bits ≤ 12
  pub size : len ≡ 2 ^ bits
  pub aligned : addr % 2 ^ bits ≡ 0

bits_small : (k : ℕ) → 2 ^ k ≤ 4096 → k ≤ 12
bits_small k h = elim (dec_lt 12 k) [
  | yes p ↦ absurd (omega (arith, pow_mono 13 k p))
  | no p ↦ omega arith
]

low_of_pow : (addr len k : ℕ) → len ≡ 2 ^ k → bit_and addr (len - 1) ≡ addr % 2 ^ k
low_of_pow addr len k e = ap (λ (t : ℕ). bit_and addr (t - 1)) e ∙ bit_and_mask k addr

not_mask : (len : ℕ) → 0 < len → len < w64 → not64 (not64 (sub64 len 1)) ≡ len - 1
not_mask len p h = omega arith

pred64 : (len : ℕ) → 0 < len → len < w64 → sub64 len 1 ≡ len - 1
pred64 len p h = omega arith

accepted_tests :
    (addr len : ℕ)
    → 0 < len
    → len < w64
    → refused addr len
      ≡ (nz (bit_and len (len - 1)) || nz (bit_and addr (len - 1)) || len == 0 || ltb 4096 len)
unfolding refused
accepted_tests addr len p h = rw (not_mask len p h, pred64 len p h)

-- `cpu_watchpoint_insert` refuses no more and no less than what is not a block: on 64-bit
-- operands its checks pass exactly when the length is a power of 2 of at most a page and the
-- address a multiple of it.
pub refused_iff : (addr len : ℕ) → len < w64 → (refused addr len ≡ false) ↔ IsBlock addr len
unfolding refused
refused_iff addr len h = (forth, back)
  where
    forth : refused addr len ≡ false → IsBlock addr len
    forth e =
        let pos : 0 < len = ground arith in
        let t = sym (accepted_tests addr len pos h) ∙ e in
        let p = power_of_and len len (omega arith) pos (ground arith) in
        let small : len ≤ 4096 = ground arith in
        record {
          bits = p.bits;
          small = bits_small p.bits (omega (arith, p.pow));
          size = p.pow;
          aligned = sym (low_of_pow addr len p.bits p.pow) ∙ ground arith;
        }

    back : IsBlock addr len → refused addr len ≡ false
    back b =
        let pos : 0 < len = omega (arith, b.size, one-le-pow b.bits 2 (omega arith)) in
        accepted_tests addr len pos h
        ∙ ground (
          arith,
          low_of_pow addr len b.bits b.size,
          low_of_pow len len b.bits b.size,
          b.size,
          b.aligned,
          mod_self (2 ^ b.bits),
          ap (λ (t : ℕ). t % 2 ^ b.bits) b.size,
          pow_mono b.bits 12 b.small,
        )

-- The addresses of a block have one page.
block_page :
    (addr len a : ℕ) → IsBlock addr len → addr ≤ a → a < addr + len → a / 4096 ≡ addr / 4096
block_page addr len a b lo hi =
    let m = 2 ^ b.bits in
    let pos : 0 < m = one-le-pow b.bits 2 (omega arith) in
    let split : a ≡ m * (addr / m) + (a - addr) = omega (arith, div-add-mod addr m, b.aligned) in
    let same : a / m ≡ addr / m =
      ap (λ (t : ℕ). t / m) split
      ∙ mul-add-div pos (addr / m) (a - addr)
      ∙ omega (arith, div-eq_of_lt {n = a - addr} {m = m} (omega (arith, b.size))) in
    div-pow_le b.bits 12 a addr b.small same

hit_same_page :
    (t : Tlb) (mode a b : ℕ) → a < w64 → b < w64 → a / 4096 ≡ b / 4096 → hit t mode a ≡ hit t mode b
hit_same_page t mode a b p q e =
    let pages : page_of a ≡ page_of b =
      omega (arith, page_mask_lem a p, page_mask_lem b q, round_eq 4096 a b e) in
    rw (e, pages)

-- After a watchpoint is accepted, no address of the watched block hits in the TLB in any mode, so
-- that the next access to it goes through the slow path, which sees the watchpoint.
pub hit-cpu_watchpoint_insert :
    (fresh : ℕ) (env : Env) (addr len flags mode a : ℕ)
    → (cpu_watchpoint_insert fresh env addr len flags).0 ≡ ok
    → len < w64
    → addr + len ≤ w64
    → addr ≤ a
    → a < addr + len
    → mode < nb_mmu_modes
    → hit (cpu_watchpoint_insert fresh env addr len flags).1.tlb mode a ≡ false
unfolding cpu_watchpoint_insert
hit-cpu_watchpoint_insert fresh env addr len flags mode a done small fits lo hi m =
    elim (Bool-cases (refused addr len)) [
      | inl e ↦ absurd (ground (arith, e, done))
      | inr e ↦
          let b = (refused_iff addr len small).0 e in
          rw e (
            hit_same_page (tlb_flush_page env.tlb addr) mode a addr (omega arith) (omega arith)
              (block_page addr len a b lo hi)
            ∙ hit-tlb_flush_page env.tlb mode addr m (omega arith))
    ]
