-- ===== src/Api/Points.antt =====
-- vx64/vx64.c: the debugger's breakpoints and watchpoints.
pub mod Answer
use fist_ame.Base.{ℕ, ◌+◌, Bool, List, [], ◌∷◌, ◌++◌, ◌==◌, ltb, nz, bit_and, bit_or, if◌then◌else◌}
use fist_ame.Cpu.{Env, bp_gdb, bp_mem_read, bp_mem_write, vxwp_read, vxwp_write}
use fist_ame.Tlb.{tlb_flush_page}
use fist_ame.Debug.{
  Status, ok, einval, enoent, cpu_breakpoint_insert, cpu_breakpoint_remove,
  cpu_breakpoint_remove_all, cpu_watchpoint_insert, cpu_watchpoint_remove,
  cpu_watchpoint_remove_all,
}
use fist_ame.Api.Regs.{VxError, vxerr_ok, vxerr_fail, vxerr_insuf_buf}
use fist_ame.Api.Go.{VxWatchPoint, report}

-- `r == 0 ? VXERR_OK : VXERR_FAIL`
abbrev ok_or_fail : Status × Env → VxError × Env
ok_or_fail (s, env) = elim s [
  | ok ↦ (vxerr_ok, env)
  | einval ↦ (vxerr_fail, env)
  | enoent ↦ (vxerr_fail, env)
]

pub vx64_flush_tlb : Env → ℕ → VxError × Env
vx64_flush_tlb env guest_pa = (vxerr_ok, record env { tlb = tlb_flush_page env.tlb guest_pa })

pub vx64_insert_bp : ℕ → Env → ℕ → VxError × Env
vx64_insert_bp fresh env vma_guest = ok_or_fail (cpu_breakpoint_insert fresh env vma_guest bp_gdb)

pub vx64_remove_bp : Env → ℕ → VxError × Env
vx64_remove_bp env vma_guest = ok_or_fail (cpu_breakpoint_remove env vma_guest bp_gdb)

-- The flags of an access type, before BP_GDB is added.
abbrev pub access_flags : ℕ → ℕ
access_flags type =
    bit_or (if nz (bit_and type vxwp_read) then bp_mem_read else 0)
      (if nz (bit_and type vxwp_write) then bp_mem_write else 0)

pub vx64_insert_wp : ℕ → Env → ℕ → ℕ → ℕ → VxError × Env
vx64_insert_wp fresh env vma_guest size type =
    let flags = access_flags type in
    if nz flags
    then ok_or_fail (cpu_watchpoint_insert fresh env vma_guest size (bit_or flags bp_gdb))
    else (vxerr_fail, env)

pub vx64_remove_wp : Env → ℕ → ℕ → ℕ → VxError × Env
vx64_remove_wp env vma_guest size type =
    let flags = access_flags type in
    if nz flags
    then ok_or_fail (cpu_watchpoint_remove env vma_guest size (bit_or flags bp_gdb))
    else (vxerr_fail, env)

pub vx64_remove_all_bps : Env → VxError × Env
vx64_remove_all_bps env = (vxerr_ok, cpu_breakpoint_remove_all env bp_gdb)

pub vx64_remove_all_wps : Env → VxError × Env
vx64_remove_all_wps env = (vxerr_ok, cpu_watchpoint_remove_all env bp_gdb)

-- The buffer that a query has written, and its two counters.
pub record Query (A : Type 0) : Type 0 where
  pub copied : List A
  pub num_copied : ℕ
  pub total : ℕ

-- The loop of both queries: `len` is the room in the caller's buffer.
pub query_from : {A B : Type 0} → (A → Bool) → (A → B) → ℕ → List A → Query B → Query B
query_from is_gdb out len [] q = q
query_from is_gdb out len (x ∷ xs) q = query_from is_gdb out len xs (
    if is_gdb x
    then (if ltb q.num_copied len
        then record {
          copied = q.copied ++ out x ∷ [];
          num_copied = q.num_copied + 1;
          total = q.total + 1;
        }
        else record q { total = q.total + 1 })
    else q)

query_result : {B : Type 0} → Query B → VxError × List B × ℕ
query_result q =
    ((if q.num_copied == q.total then vxerr_ok else vxerr_insuf_buf), q.copied, q.total)

empty_query : {B : Type 0} → Query B
empty_query = record { copied = []; num_copied = 0; total = 0 }

-- The error, the elements written to the buffer, and the new `*len`; `len` is not negative.
pub vx64_query_bps : Env → ℕ → VxError × List ℕ × ℕ
unfolding query_result empty_query
vx64_query_bps env len =
    query_result
      (query_from (λ b. nz (bit_and b.flags bp_gdb)) (λ b. b.pc) len env.breakpoints empty_query)

pub vx64_query_wps : Env → ℕ → VxError × List VxWatchPoint × ℕ
unfolding query_result empty_query
vx64_query_wps env len =
    query_result
      (query_from (λ w. nz (bit_and w.flags bp_gdb)) report len env.watchpoints empty_query)
