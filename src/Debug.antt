-- ===== src/Debug.antt =====
-- The breakpoints and watchpoints of vx64/qemu/exec.c.
pub mod Queues
pub mod Clear
pub mod Accept
pub mod Stepping
use fist_ame.Base.{
  ℕ, zero, suc, ◌+◌, Bool, ◌&&◌, ◌||◌, ◌==◌, nz, ltb, not, none, some, Option, List, [], ◌∷◌,
  bit_and, bit_or, if◌then◌else◌, sub64, not64, target_page_size,
}
use fist_ame.Cpu.{
  Env, Breakpoint, Watchpoint, TbCache, bp_gdb, bp_watchpoint_hit, tb_jmp_cache_size,
}
use fist_ame.Tlb.{tlb_flush_page, clear_cache}
use fist_ame.Tailq.{insert_head, insert_tail, first, remove}

-- 0, -EINVAL and -ENOENT
pub data Status : Type 0 where
  ok einval enoent : Status

-- `breakpoint_invalidate`: the blocks that hold `pc` are given up.
abbrev pub breakpoint_invalidate : Env → ℕ → Env
breakpoint_invalidate env pc = record env { invalidated = pc ∷ env.invalidated }

-- `fresh` is the address that `malloc` returns; the caller's `*breakpoint` receives it.
unfoldable pub cpu_breakpoint_insert : ℕ → Env → ℕ → ℕ → Status × Env
cpu_breakpoint_insert fresh env pc flags =
    let bp : Breakpoint = record { ref = fresh; pc = pc; flags = flags } in
    let list =
      if nz (bit_and flags bp_gdb)
      then insert_head bp env.breakpoints
      else insert_tail bp env.breakpoints in
    (ok, breakpoint_invalidate (record env { breakpoints = list }) pc)

unfoldable pub cpu_breakpoint_remove_by_ref : Env → Breakpoint → Env
cpu_breakpoint_remove_by_ref env bp =
    breakpoint_invalidate (record env { breakpoints = remove (λ b. b.ref) bp.ref env.breakpoints })
      bp.pc

pub cpu_breakpoint_remove : Env → ℕ → ℕ → Status × Env
cpu_breakpoint_remove env pc flags =
    elim (first (λ b. b.pc == pc && b.flags == flags) env.breakpoints) [
      | some bp ↦ (ok, cpu_breakpoint_remove_by_ref env bp)
      | none ↦ (enoent, env)
    ]

-- The loop of `cpu_breakpoint_remove_all`; the list is what is left to visit.
pub remove_all_breakpoints : List Breakpoint → ℕ → Env → Env
remove_all_breakpoints [] mask env = env
remove_all_breakpoints (bp ∷ next) mask env =
    remove_all_breakpoints next mask
      (if nz (bit_and bp.flags mask) then cpu_breakpoint_remove_by_ref env bp else env)

pub cpu_breakpoint_remove_all : Env → ℕ → Env
cpu_breakpoint_remove_all env mask = remove_all_breakpoints env.breakpoints mask env

-- `~(len - 1)`
abbrev pub len_mask_of : ℕ → ℕ
len_mask_of len = not64 (sub64 len 1)

-- The sanity checks: a length that is no power of 2, an unaligned address, and a length of 0 or
-- above a page are refused.
pub refused : ℕ → ℕ → Bool
refused addr len =
    nz (bit_and len (sub64 len 1))
    || nz (bit_and addr (not64 (len_mask_of len)))
    || len == 0
    || ltb target_page_size len

unfoldable pub cpu_watchpoint_insert : ℕ → Env → ℕ → ℕ → ℕ → Status × Env
cpu_watchpoint_insert fresh env addr len flags =
    if refused addr len
    then (einval, env)
    else (let wp : Watchpoint = record {
      ref = fresh;
      vaddr = addr;
      len_mask = len_mask_of len;
      flags = flags;
    } in
        let list =
          if nz (bit_and flags bp_gdb)
          then insert_head wp env.watchpoints
          else insert_tail wp env.watchpoints in
        (ok, record env { watchpoints = list; tlb = tlb_flush_page env.tlb addr }))

unfoldable pub cpu_watchpoint_remove_by_ref : Env → Watchpoint → Env
cpu_watchpoint_remove_by_ref env wp = record env {
  watchpoints = remove (λ w. w.ref) wp.ref env.watchpoints;
  tlb = tlb_flush_page env.tlb wp.vaddr;
}

-- `flags & ~BP_WATCHPOINT_HIT`
abbrev pub without_hit : ℕ → ℕ
without_hit flags = bit_and flags (not64 bp_watchpoint_hit)

abbrev pub same_watchpoint : ℕ → ℕ → ℕ → Watchpoint → Bool
same_watchpoint addr len flags w =
    addr == w.vaddr && len_mask_of len == w.len_mask && flags == without_hit w.flags

pub cpu_watchpoint_remove : Env → ℕ → ℕ → ℕ → Status × Env
cpu_watchpoint_remove env addr len flags =
    elim (first (same_watchpoint addr len flags) env.watchpoints) [
      | some wp ↦ (ok, cpu_watchpoint_remove_by_ref env wp)
      | none ↦ (enoent, env)
    ]

pub remove_all_watchpoints : List Watchpoint → ℕ → Env → Env
remove_all_watchpoints [] mask env = env
remove_all_watchpoints (wp ∷ next) mask env =
    remove_all_watchpoints next mask
      (if nz (bit_and wp.flags mask) then cpu_watchpoint_remove_by_ref env wp else env)

pub cpu_watchpoint_remove_all : Env → ℕ → Env
cpu_watchpoint_remove_all env mask = remove_all_watchpoints env.watchpoints mask env

-- `tb_flush` of translate-all.c; `none` is `cpu_abort`, on an overflow of the code buffer.
pub tb_flush : Env → Option Env
tb_flush env =
    if ltb env.tb.code_gen_buffer_size env.tb.code_gen_used
    then none
    else some (record env {
      tlb = record (env.tlb) {
        tb_jmp_cache = clear_cache tb_jmp_cache_size 0 env.tlb.tb_jmp_cache;
      };
      tb = record (env.tb) {
        nb_tbs = 0;
        tb_phys_hash = λ _. none;
        page_first_tb = λ _. none;
        code_gen_used = 0;
        tb_flush_count = env.tb.tb_flush_count + 1;
      };
    })

pub cpu_single_step : Env → ℕ → Option Env
cpu_single_step env enabled =
    if env.singlestep_enabled == enabled
    then some env
    else tb_flush (record env { singlestep_enabled = enabled })
