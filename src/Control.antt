-- ===== src/Control.antt =====
-- The control registers and segment caches: `cpu_x86_update_cr0`, `cpu_x86_update_cr3` and
-- `cpu_x86_update_cr4` of vx64/qemu/target-i386/helper.c, and `cpu_x86_load_seg_cache` and
-- `cpu_x86_set_cpl` of vx64/qemu/target-i386/cpu.h. The new values of CR0 and CR4 are uint32_t
-- arguments: a caller with a wider value cuts it to 32 bits first.
pub mod Flags
pub mod Steps
use fist_ame.Base.{
  ℕ, ◌+◌, ◌*◌, ◌/◌, ◌%◌, ◌≡◌, Bool, ◌&&◌, ◌||◌, ◌==◌, nz, not, bit_and, bit_or, bit_xor,
  if◌then◌else◌, update, w32, w64, not64,
}
use fist_ame.Cpu.{
  Env, Segment, r_es, r_cs, r_ss, r_ds, cr0_pe_mask, cr0_et_mask, cr0_wp_mask, cr0_pg_mask,
  cr4_pae_mask, cr4_pge_mask, cr4_pse_mask, cr4_osfxsr_mask, cr4_smep_mask, cr4_smap_mask,
  msr_efer_lme, msr_efer_lma, hf_cs32_mask, hf_ss32_mask, hf_addseg_mask, hf_pe_mask, hf_mp_mask,
  hf_em_mask, hf_ts_mask, hf_lma_mask, hf_cs64_mask, hf_osfxsr_mask, hf_smap_mask, vm_mask,
  desc_b_mask, desc_l_mask, cpuid_sse, cpuid_7_0_ebx_smap,
}
use fist_ame.Tlb.{tlb_flush}

-- `x & mask` as a condition, `x & ~mask`, `x | mask`
abbrev pub has : ℕ → ℕ → Bool
has x mask = nz (bit_and x mask)

abbrev pub clear : ℕ → ℕ → ℕ
clear x mask = bit_and x (not64 mask)

-- The bits of CR0 whose change drops the TLB.
abbrev cr0_flush_mask : ℕ
cr0_flush_mask = bit_or (bit_or cr0_pg_mask cr0_wp_mask) cr0_pe_mask

cr0_flush : Env → ℕ → Env
cr0_flush env new_cr0 =
    if bit_and new_cr0 cr0_flush_mask == bit_and (env.cr 0) cr0_flush_mask
    then env
    else record env { tlb = tlb_flush env.tlb }

-- The writes to CR0 and to the hidden flags that end the function.
cr0_store : Env → ℕ → Env
cr0_store env new_cr0 =
    let cr0 = bit_or new_cr0 cr0_et_mask in
    let pe_state = bit_and cr0 cr0_pe_mask in
    let pe = bit_or (clear env.hflags hf_pe_mask) (pe_state * 128) in
    let addseg = bit_or pe (bit_xor pe_state 1 * 64) in
    let fpu = bit_or (bit_or hf_mp_mask hf_em_mask) hf_ts_mask in
    record env {
      cr = update env.cr 0 cr0;
      hflags = bit_or (clear addseg fpu) (bit_and (new_cr0 * 256 % w32) fpu);
    }

-- Long mode is entered, but not without CR4.PAE, or left, as paging is.
cr0_switch : Env → ℕ → Env
unfolding cr0_store
cr0_switch env new_cr0 =
    if not (has (env.cr 0) cr0_pg_mask) && has new_cr0 cr0_pg_mask && has env.efer msr_efer_lme
    then (if not (has (env.cr 4) cr4_pae_mask)
        then env
        else cr0_store
            (record env {
              efer = bit_or env.efer msr_efer_lma;
              hflags = bit_or env.hflags hf_lma_mask;
            })
            new_cr0)
    else (if has (env.cr 0) cr0_pg_mask
          && not (has new_cr0 cr0_pg_mask)
          && has env.efer msr_efer_lma
        then cr0_store
            (record env {
              efer = clear env.efer msr_efer_lma;
              hflags = clear env.hflags (bit_or hf_lma_mask hf_cs64_mask);
              eip = bit_and env.eip 0xffff_ffff;
            })
            new_cr0
        else cr0_store env new_cr0)

pub cpu_x86_update_cr0 : Env → ℕ → Env
unfolding cr0_flush cr0_switch
cpu_x86_update_cr0 env new_cr0 = cr0_switch (cr0_flush env new_cr0) new_cr0

pub cpu_x86_update_cr3 : Env → ℕ → Env
cpu_x86_update_cr3 env new_cr3 =
    let env' = record env { cr = update env.cr 3 new_cr3 } in
    if has (env.cr 0) cr0_pg_mask then record env' { tlb = tlb_flush env.tlb } else env'

abbrev cr4_flush_mask : ℕ
cr4_flush_mask =
    bit_or (bit_or (bit_or (bit_or cr4_pge_mask cr4_pae_mask) cr4_pse_mask) cr4_smep_mask)
      cr4_smap_mask

-- A hidden flag that follows a control bit: cleared, then set.
abbrev copy_flag : ℕ → ℕ → Bool → ℕ
copy_flag hflags mask set = let h = clear hflags mask in if set then bit_or h mask else h

pub cpu_x86_update_cr4 : Env → ℕ → Env
cpu_x86_update_cr4 env new_cr4 =
    let tlb =
      if has (bit_xor new_cr4 (env.cr 4)) cr4_flush_mask then tlb_flush env.tlb else env.tlb in
    let sse = if has env.cpuid_features cpuid_sse then new_cr4 else clear new_cr4 cr4_osfxsr_mask in
    let h = copy_flag env.hflags hf_osfxsr_mask (has sse cr4_osfxsr_mask) in
    let smap =
      if has env.cpuid_7_0_ebx_features cpuid_7_0_ebx_smap then sse else clear sse cr4_smap_mask in
    record env {
      tlb = tlb;
      hflags = copy_flag h hf_smap_mask (has smap cr4_smap_mask);
      cr = update env.cr 4 smap;
    }

-- The hidden flags of the code segment.
cs_hflags : Env → ℕ → ℕ
cs_hflags env flags =
    if has env.hflags hf_lma_mask && has flags desc_l_mask
    then clear (bit_or env.hflags (bit_or (bit_or hf_cs32_mask hf_ss32_mask) hf_cs64_mask))
        hf_addseg_mask
    else bit_or (clear env.hflags (bit_or hf_cs32_mask hf_cs64_mask))
        (bit_and flags desc_b_mask / 0x4_0000)

-- The hidden flags of the stack segment and of the segment bases.
ss_hflags : Env → ℕ
ss_hflags env =
    let ss32 = bit_and (env.segs r_ss).flags desc_b_mask / 0x2_0000 in
    let bases = bit_or (bit_or (env.segs r_ds).base (env.segs r_es).base) (env.segs r_ss).base in
    let new_hflags =
      if has env.hflags hf_cs64_mask
      then ss32
      else (if not (has (env.cr 0) cr0_pe_mask)
            || has env.eflags vm_mask
            || not (has env.hflags hf_cs32_mask)
          then bit_or ss32 hf_addseg_mask
          else bit_or ss32 (if nz bases then hf_addseg_mask else 0)) in
    bit_or (clear env.hflags (bit_or hf_ss32_mask hf_addseg_mask)) new_hflags

with_cs : Env → ℕ → ℕ → Env
unfolding cs_hflags
with_cs env seg_reg flags =
    if seg_reg == r_cs then record env { hflags = cs_hflags env flags } else env

with_ss : Env → Env
unfolding ss_hflags
with_ss env = record env { hflags = ss_hflags env }

pub cpu_x86_load_seg_cache : Env → ℕ → ℕ → ℕ → ℕ → ℕ → Env
unfolding with_cs with_ss
cpu_x86_load_seg_cache env seg_reg selector base limit flags =
    let sc : Segment = record { selector = selector; base = base; limit = limit; flags = flags } in
    with_ss (with_cs (record env { segs = update env.segs seg_reg sc }) seg_reg flags)

pub cpu_x86_set_cpl : Env → ℕ → Env
cpu_x86_set_cpl env cpl = record env { hflags = bit_or (clear env.hflags 3) cpl }
