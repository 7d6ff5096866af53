-- ===== src/Tests/Cases.antt =====
-- The CPUs that the tests start from.
use fist_ame.Base.{none, some, [], ◌∷◌, ◌==◌, if◌then◌else◌, minus_one}
use fist_ame.Cpu.{Env, Tlb, TlbEntry, TbCache, Segment, Breakpoint, Watchpoint}
use fist_ame.Tlb.{empty_entry}

-- The page at 0x5000 is mapped for reading, in slot 5 of each mode.
abbrev pub page_5 : TlbEntry
page_5 = record {
  addr_read = 0x5000;
  addr_write = minus_one;
  addr_code = minus_one;
  addend = 0x7f00_0000;
}

abbrev pub small_tlb : Tlb
small_tlb = record {
  tlb_table = λ mode i. if i == 5 then page_5 else empty_entry;
  iotlb = λ mode i. 0;
  tlb_flush_addr = minus_one;
  tlb_flush_mask = 0;
  tlb_flush_count = 3;
  current_tb = some 7;
  tb_jmp_cache = λ i. some i;
}

-- With a large page of 2 MB remembered, at 0x40_0000.
abbrev pub large_tlb : Tlb
large_tlb = record small_tlb { tlb_flush_addr = 0x40_0000; tlb_flush_mask = 0xffff_ffff_ffe0_0000 }

abbrev pub code_cache : TbCache
code_cache = record {
  nb_tbs = 2;
  code_gen_used = 100;
  code_gen_buffer_size = 1000;
  tb_phys_hash = λ i. some i;
  page_first_tb = λ i. some i;
  tb_flush_count = 0;
}

abbrev null_segment : Segment
null_segment = record { selector = 0; base = 0; limit = 0; flags = 0 }

abbrev pub blank : Env
blank = record {
  regs = λ i. 0;
  eip = 0x1000;
  eflags = 2;
  hflags = 0x80;
  a20_mask = minus_one;
  segs = λ i. null_segment;
  ldt = null_segment;
  gdt = null_segment;
  cr = λ i. if i == 0 then 0x11 else 0;
  efer = 0;
  error_code = 0;
  exception_is_int = 0;
  exception_next_eip = 0;
  exception_index = 0;
  old_exception = 0;
  dr = λ i. if i == 7 then 0x400 else 0;
  hw = λ i. none;
  breakpoints = [];
  watchpoints = [];
  watchpoint_hit = none;
  singlestep_enabled = 0;
  icount_extra = 0;
  intercept = 0;
  intercept_cr_read = 0;
  intercept_cr_write = 0;
  intercept_dr_read = 0;
  intercept_dr_write = 0;
  intercept_exceptions = 0;
  vm_vmcb = 0;
  cpuid_features = 0;
  cpuid_7_0_ebx_features = 0;
  tlb = small_tlb;
  tb = code_cache;
  invalidated = [];
}

abbrev pub bp_host : Breakpoint
bp_host = record { ref = 11; pc = 0x1000; flags = 0x10 }

abbrev pub bp_own : Breakpoint
bp_own = record { ref = 12; pc = 0x2000; flags = 0x20 }

abbrev pub wp_host : Watchpoint
wp_host = record { ref = 21; vaddr = 0x5008; len_mask = 0xffff_ffff_ffff_fff8; flags = 0x13 }

abbrev pub wp_own : Watchpoint
wp_own = record { ref = 22; vaddr = 0x6000; len_mask = minus_one; flags = 0x22 }

-- With a point of the host before one of the CPU's own in each queue.
abbrev pub watched : Env
watched = record blank { breakpoints = bp_host ∷ bp_own ∷ []; watchpoints = wp_host ∷ wp_own ∷ [] }
