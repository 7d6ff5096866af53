-- ===== src/Api/Regs.antt =====
-- vx64/vx64.c: start and reset, the registers and the descriptor tables.
pub mod Access
pub mod Start
use fist_ame.Base.{ℕ, Option, none, some, bit_or, if◌then◌else◌, ltb, update}
use fist_ame.Cpu.{
  Env, cr0_pe_mask, cr0_pg_mask, cr0_wp_mask, cr4_pae_mask, msr_efer_lme, msr_efer_lma,
  msr_efer_svme, hf_lma_mask, hf_svme_mask,
}
use fist_ame.Tlb.{tlb_flush}
use fist_ame.Debug.{tb_flush}
use fist_ame.Control.{
  has, clear, cpu_x86_set_cpl, cpu_x86_update_cr0, cpu_x86_update_cr3, cpu_x86_update_cr4,
  cpu_x86_load_seg_cache,
}
use fist_ame.Hw.{helper_movl_drn_t0}

-- `VXError`
pub data VxError : Type 0 where
  vxerr_insuf_buf vxerr_fail vxerr_ok : VxError

-- `TransReg`; `other` stands for every number that the type does not name.
pub data TransReg : Type 0 where
  vxr_eax vxr_ecx vxr_edx vxr_ebx vxr_esp vxr_ebp vxr_esi vxr_edi vxr_eflags vxr_eip : TransReg
  vxr_es vxr_cs vxr_ss vxr_ds vxr_fs vxr_gs : TransReg
  vxr_dr0 vxr_dr1 vxr_dr2 vxr_dr3 vxr_dr6 vxr_dr7 : TransReg
  vxr_cr0 vxr_cr2 vxr_cr3 vxr_cr4 vxr_gdt vxr_ldt : TransReg
  other : TransReg

pub cpu_load_efer : Env → ℕ → Env
cpu_load_efer env val =
    let h1 = clear env.hflags (bit_or hf_lma_mask hf_svme_mask) in
    let h2 = if has val msr_efer_lma then bit_or h1 hf_lma_mask else h1 in
    let h3 = if has val msr_efer_svme then bit_or h2 hf_svme_mask else h2 in
    record env { efer = val; hflags = h3 }

-- `none` is the abort of `tb_flush`.
pub vx64_reset : Env → Option Env
vx64_reset env = elim (tb_flush env) [
  | some env' ↦ some (record env' { tlb = tlb_flush env'.tlb })
  | none ↦ none
]

-- The part of `vx64_init` that follows `cpu_init`, on the CPU that it returns.
pub vx64_init : Env → Option Env
vx64_init env =
    let protected = cpu_x86_update_cr0 (cpu_x86_set_cpl env 3) cr0_pe_mask in
    let pae = cpu_x86_update_cr4 protected cr4_pae_mask in
    let lme = cpu_load_efer pae msr_efer_lme in
    vx64_reset (cpu_x86_update_cr0 lme (bit_or cr0_pg_mask cr0_wp_mask))

-- `none` is VXERR_FAIL, which leaves the result unwritten.
pub vx64_get_reg : Env → TransReg → Option ℕ
vx64_get_reg env id = elim id [
  | vxr_eax ↦ some (env.regs 0)
  | vxr_ecx ↦ some (env.regs 1)
  | vxr_edx ↦ some (env.regs 2)
  | vxr_ebx ↦ some (env.regs 3)
  | vxr_esp ↦ some (env.regs 4)
  | vxr_ebp ↦ some (env.regs 5)
  | vxr_esi ↦ some (env.regs 6)
  | vxr_edi ↦ some (env.regs 7)
  | vxr_eflags ↦ some env.eflags
  | vxr_eip ↦ some env.eip
  | vxr_es ↦ some (env.segs 0).selector
  | vxr_cs ↦ some (env.segs 1).selector
  | vxr_ss ↦ some (env.segs 2).selector
  | vxr_ds ↦ some (env.segs 3).selector
  | vxr_fs ↦ some (env.segs 4).selector
  | vxr_gs ↦ some (env.segs 5).selector
  | vxr_dr0 ↦ some (env.dr 0)
  | vxr_dr1 ↦ some (env.dr 1)
  | vxr_dr2 ↦ some (env.dr 2)
  | vxr_dr3 ↦ some (env.dr 3)
  | vxr_dr6 ↦ some (env.dr 6)
  | vxr_dr7 ↦ some (env.dr 7)
  | vxr_cr0 ↦ some (env.cr 0)
  | vxr_cr2 ↦ some (env.cr 2)
  | vxr_cr3 ↦ some (env.cr 3)
  | vxr_cr4 ↦ some (env.cr 4)
  | vxr_gdt ↦ none
  | vxr_ldt ↦ none
  | other ↦ none
]

abbrev set_gpr : Env → ℕ → ℕ → Env
set_gpr env r v = record env { regs = update env.regs r v }

-- A debug register; `none` is a use after free in `helper_movl_drN_T0`.
set_dr : (ℕ → ℕ) → Env → ℕ → ℕ → Option (VxError × Env)
set_dr fresh env reg v = elim (helper_movl_drn_t0 fresh env reg v) [
  | some env' ↦ some (vxerr_ok, env')
  | none ↦ none
]

-- `fresh` is as in `helper_movl_drn_t0`.
pub vx64_set_reg : (ℕ → ℕ) → Env → TransReg → ℕ → Option (VxError × Env)
unfolding set_dr
vx64_set_reg fresh env id v = elim id [
  | vxr_eax ↦ some (vxerr_ok, set_gpr env 0 v)
  | vxr_ecx ↦ some (vxerr_ok, set_gpr env 1 v)
  | vxr_edx ↦ some (vxerr_ok, set_gpr env 2 v)
  | vxr_ebx ↦ some (vxerr_ok, set_gpr env 3 v)
  | vxr_esp ↦ some (vxerr_ok, set_gpr env 4 v)
  | vxr_ebp ↦ some (vxerr_ok, set_gpr env 5 v)
  | vxr_esi ↦ some (vxerr_ok, set_gpr env 6 v)
  | vxr_edi ↦ some (vxerr_ok, set_gpr env 7 v)
  | vxr_eflags ↦ some (vxerr_ok, record env { eflags = v })
  | vxr_eip ↦ some (vxerr_ok, record env { eip = v })
  | vxr_cr3 ↦ some (vxerr_ok, cpu_x86_update_cr3 env v)
  | vxr_dr0 ↦ set_dr fresh env 0 v
  | vxr_dr1 ↦ set_dr fresh env 1 v
  | vxr_dr2 ↦ set_dr fresh env 2 v
  | vxr_dr3 ↦ set_dr fresh env 3 v
  | vxr_dr6 ↦ set_dr fresh env 6 v
  | vxr_dr7 ↦ set_dr fresh env 7 v
  | vxr_es ↦ some (vxerr_fail, env)
  | vxr_cs ↦ some (vxerr_fail, env)
  | vxr_ss ↦ some (vxerr_fail, env)
  | vxr_ds ↦ some (vxerr_fail, env)
  | vxr_fs ↦ some (vxerr_fail, env)
  | vxr_gs ↦ some (vxerr_fail, env)
  | vxr_cr0 ↦ some (vxerr_fail, env)
  | vxr_cr2 ↦ some (vxerr_fail, env)
  | vxr_cr4 ↦ some (vxerr_fail, env)
  | vxr_gdt ↦ some (vxerr_fail, env)
  | vxr_ldt ↦ some (vxerr_fail, env)
  | other ↦ some (vxerr_fail, env)
]

-- `index` is `id - VXR_ES`, and `sel` is cut to its 16 bits by the caller's type. The id is not checked:
-- `none` is a write outside the six segments of the CPU.
pub vx64_load_seg_cache : Env → ℕ → ℕ → ℕ → ℕ → ℕ → Option (VxError × Env)
vx64_load_seg_cache env index sel va_base limit flags =
    if ltb index 6
    then some (vxerr_ok, cpu_x86_load_seg_cache env index sel va_base limit flags)
    else none

pub vx64_load_xdt : Env → TransReg → ℕ → ℕ → VxError × Env
vx64_load_xdt env id base limit = elim id [
  | vxr_gdt ↦ (vxerr_ok, record env { gdt = record (env.gdt) { base = base; limit = limit } })
  | vxr_ldt ↦ (vxerr_ok, record env { ldt = record (env.ldt) { base = base; limit = limit } })
  | _ ↦ (vxerr_fail, env)
]
