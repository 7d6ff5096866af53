-- ===== src/Cpu/State.antt =====
-- The state record.
use fist_ame.Base.{ℕ, Option, List}

-- `SegmentCache`
pub record Segment : Type 0 where
  pub selector : ℕ
  pub base : ℕ
  pub limit : ℕ
  pub flags : ℕ

-- `CPUTLBEntry`: the comparators of the three kinds of access, and the host offset.
pub record TlbEntry : Type 0 where
  pub addr_read : ℕ
  pub addr_write : ℕ
  pub addr_code : ℕ
  pub addend : ℕ

-- `CPU_COMMON_TLB` with the caches that a flush drops. An array is a function of its index; a
-- table of the TLB goes by MMU mode, then slot.
pub record Tlb : Type 0 where
  pub tlb_table : ℕ → ℕ → TlbEntry
  pub iotlb : ℕ → ℕ → ℕ
  pub tlb_flush_addr : ℕ
  pub tlb_flush_mask : ℕ
  pub tlb_flush_count : ℕ
  pub current_tb : Option ℕ
  pub tb_jmp_cache : ℕ → Option ℕ

-- `CPUBreakpoint`; `ref` is the address that `malloc` returned for it.
pub record Breakpoint : Type 0 where
  pub ref : ℕ
  pub pc : ℕ
  pub flags : ℕ

-- `CPUWatchpoint`
pub record Watchpoint : Type 0 where
  pub ref : ℕ
  pub vaddr : ℕ
  pub len_mask : ℕ
  pub flags : ℕ

-- The translation cache of vx64/qemu/translate-all.c, as far as a flush touches it: the number of
-- blocks, the bytes of code generated and the size of their buffer, and the heads of the two
-- tables by which blocks are found.
pub record TbCache : Type 0 where
  pub nb_tbs : ℕ
  pub code_gen_used : ℕ
  pub code_gen_buffer_size : ℕ
  pub tb_phys_hash : ℕ → Option ℕ
  pub page_first_tb : ℕ → Option ℕ
  pub tb_flush_count : ℕ

-- `CPUX86State`. Words are kept as the numbers of their bit patterns, so that an `int` of -1 is
-- 2 ^ 32 - 1. `hw` is the union of `cpu_breakpoint` and `cpu_watchpoint`. `invalidated` lists the
-- addresses whose blocks `breakpoint_invalidate` gave up, latest first.
pub record Env : Type 0 where
  pub regs : ℕ → ℕ
  pub eip : ℕ
  pub eflags : ℕ
  pub hflags : ℕ
  pub a20_mask : ℕ
  pub segs : ℕ → Segment
  pub ldt : Segment
  pub gdt : Segment
  pub cr : ℕ → ℕ
  pub efer : ℕ
  pub error_code : ℕ
  pub exception_is_int : ℕ
  pub exception_next_eip : ℕ
  pub exception_index : ℕ
  pub old_exception : ℕ
  pub dr : ℕ → ℕ
  pub hw : ℕ → Option ℕ
  pub breakpoints : List Breakpoint
  pub watchpoints : List Watchpoint
  pub watchpoint_hit : Option ℕ
  pub singlestep_enabled : ℕ
  pub icount_extra : ℕ
  pub intercept : ℕ
  pub intercept_cr_read : ℕ
  pub intercept_cr_write : ℕ
  pub intercept_dr_read : ℕ
  pub intercept_dr_write : ℕ
  pub intercept_exceptions : ℕ
  pub vm_vmcb : ℕ
  pub cpuid_features : ℕ
  pub cpuid_7_0_ebx_features : ℕ
  pub tlb : Tlb
  pub tb : TbCache
  pub invalidated : List ℕ
