-- ===== src/Api/Regs/Start.antt =====
-- The CPU that `vx64_init` leaves.
use fist_ame.Base.{
  ℕ, ◌≡◌, ◌≤◌, refl, ap, ◌∙◌, sym, some, none, Option, Option-cases, inl, inr, bit, bit_or, arith,
  ◌==◌, bit-bit_and,
}
use mathlib.Core.Path.{subst}
use fist_ame.Cpu.{
  Env, TbCache, cr0_pe_mask, cr0_pg_mask, cr0_wp_mask, cr4_pae_mask, msr_efer_lme, hf_lma_mask,
  hf_svme_mask,
}
use fist_ame.Tlb.{tlb_flush}
use fist_ame.Debug.{tb_flush}
use fist_ame.Debug.Stepping.{HasRoom, Flushed, tb_flush-Flushed}
use fist_ame.Control.{has, clear, cpu_x86_set_cpl, cpu_x86_update_cr0, cpu_x86_update_cr4}
use fist_ame.Control.Flags.{
  IsConsistent, has-bit, cpu_x86_update_cr0-IsConsistent, cpu_x86_update_cr0-enter,
  cpu_x86_update_cr0-plain,
}
use fist_ame.Control.Steps.{
  cpl-IsConsistent, cr4-IsConsistent, efer-IsConsistent, cr4-pae, tb-cpu_x86_set_cpl,
}
use fist_ame.Api.Regs.{vx64_init, vx64_reset, cpu_load_efer}

-- In long mode with paging, CR0 as `vx64_init` wrote it: PG, WP and ET, and not PE.
pub record InLongMode (env : Env) : Type 0 where
  pub cr0 : env.cr 0 ≡ 0x8001_0010
  pub efer : env.efer ≡ 0x500
  pub consistent : IsConsistent env

abbrev pub Started : Option Env → Type 0
Started none = ⊥
Started (some env) = InLongMode env

-- A flush of the TLB, and of the code, leaves the control state.
flushed_lem :
    (env env' : Env)
    → env'.cr ≡ env.cr
    → env'.efer ≡ env.efer
    → env'.hflags ≡ env.hflags
    → InLongMode env
    → InLongMode (record env' { tlb = tlb_flush env'.tlb })
flushed_lem env env' c e g l = record {
  cr0 = ap (λ (f : ℕ → ℕ). f 0) c ∙ l.cr0;
  efer = e ∙ l.efer;
  consistent = record {
    pe = rw (c, g) l.consistent.pe;
    lma = rw (e, g) l.consistent.lma;
    active = rw (c, e) l.consistent.active;
  };
}

reset_lem : (env : Env) → HasRoom env → InLongMode env → Started (vx64_reset env)
unfolding vx64_reset
reset_lem env h l = elim (Option-cases (tb_flush env)) [
  | inl e ↦ absurd (subst (Flushed env) e (tb_flush-Flushed env h))
  | inr (env', e) ↦
      let (c, f, g) = subst (Flushed env) e (tb_flush-Flushed env h) in
      rw (e, vx64_reset) (flushed_lem env env' c f g l)
]

module _ (env : Env) (h : HasRoom env) (c : IsConsistent env) where
  abbrev protected : Env
  protected = cpu_x86_update_cr0 (cpu_x86_set_cpl env 3) cr0_pe_mask

  abbrev pae : Env
  pae = cpu_x86_update_cr4 protected cr4_pae_mask

  abbrev lme : Env
  lme = cpu_load_efer pae msr_efer_lme

  protected_cr0 : (protected.cr 0 ≡ 0x11) × (protected.tb ≡ (cpu_x86_set_cpl env 3).tb)
  protected_cr0 = cpu_x86_update_cr0-plain (cpu_x86_set_cpl env 3) cr0_pe_mask refl

  pae-IsConsistent : IsConsistent pae
  pae-IsConsistent = cr4-IsConsistent protected cr4_pae_mask (
      cpu_x86_update_cr0-IsConsistent (cpu_x86_set_cpl env 3) cr0_pe_mask
        (cpl-IsConsistent env 3 (omega arith) c))

  pae_cr0 : pae.cr 0 ≡ 0x11
  pae_cr0 = (cr4-pae protected cr4_pae_mask refl).1 ∙ protected_cr0.0

  lme-IsConsistent : IsConsistent lme
  unfolding cpu_load_efer
  lme-IsConsistent =
      efer-IsConsistent pae (clear pae.hflags (bit_or hf_lma_mask hf_svme_mask)) msr_efer_lme
        pae-IsConsistent (ap (λ (t : ℕ). bit t 31) pae_cr0) refl (simp bit-bit_and (omega arith))
        (simp bit-bit_and (omega arith))

  abbrev entered : Env
  entered = cpu_x86_update_cr0 lme (bit_or cr0_pg_mask cr0_wp_mask)

  entered_lem : (entered.cr 0 ≡ 0x8001_0010) × (entered.efer ≡ 0x500) × (entered.tb ≡ lme.tb)
  unfolding cpu_load_efer
  entered_lem =
      cpu_x86_update_cr0-enter lme (bit_or cr0_pg_mask cr0_wp_mask)
        (ap (λ (t : ℕ). has t cr0_pg_mask) pae_cr0) refl refl
        (has-bit 5 (pae.cr 4) ∙ ap (λ (t : ℕ). t == 1) (cr4-pae protected cr4_pae_mask refl).0)

  same_tb : entered.tb ≡ env.tb
  unfolding cpu_load_efer
  same_tb =
      entered_lem.2
      ∙ (cr4-pae protected cr4_pae_mask refl).3
      ∙ protected_cr0.1
      ∙ tb-cpu_x86_set_cpl env 3

  entered-InLongMode : InLongMode entered
  entered-InLongMode = record {
    cr0 = entered_lem.0;
    efer = entered_lem.1;
    consistent =
        cpu_x86_update_cr0-IsConsistent lme (bit_or cr0_pg_mask cr0_wp_mask) lme-IsConsistent;
  }

-- On a CPU whose control state is consistent and whose code fits its buffer, `vx64_init` succeeds,
-- whatever was in the registers: paging is on and long mode active, the hidden flags agree, and
-- CR0 holds PG, WP and ET. CR0.PE, which it set before, is clear again.
pub vx64_init-InLongMode : (env : Env) → HasRoom env → IsConsistent env → Started (vx64_init env)
unfolding vx64_init
vx64_init-InLongMode env h c =
    reset_lem (entered env h c)
      (subst (λ (t : TbCache). t.code_gen_used ≤ t.code_gen_buffer_size) (sym (same_tb env h c)) h)
      (entered-InLongMode env h c)
