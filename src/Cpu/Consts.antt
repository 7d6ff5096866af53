-- ===== src/Cpu/Consts.antt =====
-- The masks and numbers of vx64/qemu/target-i386/cpu.h, vx64/qemu/include/exec/cpu-all.h and
-- vx64/qemu/include/exec/cpu-defs.h.
use fist_ame.Base.{ℕ}

abbrev pub bp_mem_read : ℕ
bp_mem_read = 0x01

abbrev pub bp_mem_write : ℕ
bp_mem_write = 0x02

abbrev pub bp_mem_access : ℕ
bp_mem_access = 0x03

abbrev pub bp_watchpoint_hit : ℕ
bp_watchpoint_hit = 0x08

abbrev pub bp_gdb : ℕ
bp_gdb = 0x10

abbrev pub bp_cpu : ℕ
bp_cpu = 0x20

abbrev pub tlb_invalid_mask : ℕ
tlb_invalid_mask = 0x08

abbrev pub tlb_notdirty : ℕ
tlb_notdirty = 0x10

abbrev pub tlb_mmio : ℕ
tlb_mmio = 0x20

abbrev pub page_read : ℕ
page_read = 1

abbrev pub page_write : ℕ
page_write = 2

abbrev pub page_exec : ℕ
page_exec = 4

abbrev pub cpu_tlb_size : ℕ
cpu_tlb_size = 256

abbrev pub nb_mmu_modes : ℕ
nb_mmu_modes = 3

abbrev pub tb_jmp_cache_size : ℕ
tb_jmp_cache_size = 4096

abbrev pub tb_jmp_page_size : ℕ
tb_jmp_page_size = 64

abbrev pub tb_jmp_page_mask : ℕ
tb_jmp_page_mask = 0xfc0

abbrev pub excp_divz : ℕ
excp_divz = 0

abbrev pub excp_db : ℕ
excp_db = 1

abbrev pub excp_dble : ℕ
excp_dble = 8

abbrev pub excp_gpf : ℕ
excp_gpf = 13

abbrev pub excp_page : ℕ
excp_page = 14

abbrev pub excp_interrupt : ℕ
excp_interrupt = 0x10000

abbrev pub excp_hlt : ℕ
excp_hlt = 0x10001

abbrev pub excp_debug : ℕ
excp_debug = 0x10002

abbrev pub excp_halted : ℕ
excp_halted = 0x10003

abbrev pub vxwp_read : ℕ
vxwp_read = 1

abbrev pub vxwp_write : ℕ
vxwp_write = 2

abbrev pub vxr_dbg : ℕ
vxr_dbg = 256

abbrev pub vxr_none : ℕ
vxr_none = 257

abbrev pub r_es : ℕ
r_es = 0

abbrev pub r_cs : ℕ
r_cs = 1

abbrev pub r_ss : ℕ
r_ss = 2

abbrev pub r_ds : ℕ
r_ds = 3

abbrev pub cr0_pe_mask : ℕ
cr0_pe_mask = 0x1

abbrev pub cr0_et_mask : ℕ
cr0_et_mask = 0x10

abbrev pub cr0_wp_mask : ℕ
cr0_wp_mask = 0x10000

abbrev pub cr0_pg_mask : ℕ
cr0_pg_mask = 0x80000000

abbrev pub cr4_pse_mask : ℕ
cr4_pse_mask = 0x10

abbrev pub cr4_pae_mask : ℕ
cr4_pae_mask = 0x20

abbrev pub cr4_pge_mask : ℕ
cr4_pge_mask = 0x80

abbrev pub cr4_osfxsr_mask : ℕ
cr4_osfxsr_mask = 0x200

abbrev pub cr4_smep_mask : ℕ
cr4_smep_mask = 0x100000

abbrev pub cr4_smap_mask : ℕ
cr4_smap_mask = 0x200000

abbrev pub msr_efer_lme : ℕ
msr_efer_lme = 0x100

abbrev pub msr_efer_lma : ℕ
msr_efer_lma = 0x400

abbrev pub msr_efer_nxe : ℕ
msr_efer_nxe = 0x800

abbrev pub hf_cs32_mask : ℕ
hf_cs32_mask = 0x10

abbrev pub hf_ss32_mask : ℕ
hf_ss32_mask = 0x20

abbrev pub hf_addseg_mask : ℕ
hf_addseg_mask = 0x40

abbrev pub hf_pe_mask : ℕ
hf_pe_mask = 0x80

abbrev pub hf_mp_mask : ℕ
hf_mp_mask = 0x200

abbrev pub hf_em_mask : ℕ
hf_em_mask = 0x400

abbrev pub hf_ts_mask : ℕ
hf_ts_mask = 0x800

abbrev pub hf_lma_mask : ℕ
hf_lma_mask = 0x4000

abbrev pub hf_cs64_mask : ℕ
hf_cs64_mask = 0x8000

abbrev pub hf_svmi_mask : ℕ
hf_svmi_mask = 0x200000

abbrev pub hf_svme_mask : ℕ
hf_svme_mask = 0x100000

abbrev pub msr_efer_svme : ℕ
msr_efer_svme = 0x1000

abbrev pub hf_osfxsr_mask : ℕ
hf_osfxsr_mask = 0x400000

abbrev pub hf_smap_mask : ℕ
hf_smap_mask = 0x800000

abbrev pub vm_mask : ℕ
vm_mask = 0x20000

abbrev pub desc_b_mask : ℕ
desc_b_mask = 0x400000

abbrev pub desc_l_mask : ℕ
desc_l_mask = 0x200000

abbrev pub cpuid_sse : ℕ
cpuid_sse = 0x2000000

abbrev pub cpuid_7_0_ebx_smap : ℕ
cpuid_7_0_ebx_smap = 0x100000

abbrev pub dr7_max_bp : ℕ
dr7_max_bp = 4

abbrev pub code_gen_phys_hash_size : ℕ
code_gen_phys_hash_size = 0x8000
