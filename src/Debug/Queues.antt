-- ===== src/Debug/Queues.antt =====
-- What the debug calls of exec.c do to the two queues.
use fist_ame.Base.{
  ℕ, Bool, List, [], ◌∷◌, ◌==◌, nz, bit_and, Bool-cases, inl, inr, Option-cases, ◌&&◌,
}
use fist_ame.Cpu.{Env, Breakpoint, Watchpoint, bp_gdb}
use fist_ame.Tailq.{first}
use fist_ame.Tailq.Laws.{
  Fresh, Distinct, InFront, Distinct-remove, Distinct-insert, InFront-insert, InFront-remove,
}
use fist_ame.Debug.{
  cpu_breakpoint_insert, cpu_breakpoint_remove, cpu_breakpoint_remove_by_ref,
  cpu_breakpoint_remove_all, remove_all_breakpoints, cpu_watchpoint_insert, cpu_watchpoint_remove,
  cpu_watchpoint_remove_by_ref, cpu_watchpoint_remove_all, remove_all_watchpoints, refused,
  same_watchpoint, len_mask_of,
}

abbrev pub bp_ref : Breakpoint → ℕ
bp_ref b = b.ref

abbrev pub wp_ref : Watchpoint → ℕ
wp_ref w = w.ref

abbrev pub bp_is_gdb : Breakpoint → Bool
bp_is_gdb b = nz (bit_and b.flags bp_gdb)

abbrev pub wp_is_gdb : Watchpoint → Bool
wp_is_gdb w = nz (bit_and w.flags bp_gdb)

-- Both queues: distinct nodes, and those injected by the debugger in front of the CPU's own.
pub record IsTidy (env : Env) : Type 0 where
  pub bps_distinct : Distinct bp_ref env.breakpoints
  pub wps_distinct : Distinct wp_ref env.watchpoints
  pub bps_front : InFront bp_is_gdb env.breakpoints
  pub wps_front : InFront wp_is_gdb env.watchpoints

module _ (env : Env) (v : IsTidy env) where
  breakpoint_insert-IsTidy :
      (fresh pc flags : ℕ)
      → Fresh bp_ref fresh env.breakpoints
      → IsTidy (cpu_breakpoint_insert fresh env pc flags).1
  unfolding cpu_breakpoint_insert
  breakpoint_insert-IsTidy fresh pc flags new =
      let bp : Breakpoint = record { ref = fresh; pc = pc; flags = flags } in
      record {
        bps_distinct = Distinct-insert bp_ref _ bp env.breakpoints new v.bps_distinct;
        wps_distinct = v.wps_distinct;
        bps_front = InFront-insert bp_is_gdb bp env.breakpoints v.bps_front;
        wps_front = v.wps_front;
      }

  remove_bp-IsTidy : (bp : Breakpoint) → IsTidy (cpu_breakpoint_remove_by_ref env bp)
  unfolding cpu_breakpoint_remove_by_ref
  remove_bp-IsTidy bp = record {
    bps_distinct = Distinct-remove bp_ref bp.ref env.breakpoints v.bps_distinct;
    wps_distinct = v.wps_distinct;
    bps_front = InFront-remove bp_ref bp_is_gdb bp.ref env.breakpoints v.bps_front;
    wps_front = v.wps_front;
  }

  watchpoint_insert-IsTidy :
      (fresh addr len flags : ℕ)
      → Fresh wp_ref fresh env.watchpoints
      → IsTidy (cpu_watchpoint_insert fresh env addr len flags).1
  unfolding cpu_watchpoint_insert
  watchpoint_insert-IsTidy fresh addr len flags new =
      let wp : Watchpoint = record {
        ref = fresh;
        vaddr = addr;
        len_mask = len_mask_of len;
        flags = flags;
      } in
      elim (Bool-cases (refused addr len)) [
        | inl e ↦ rw e v
        | inr e ↦ rw e (record {
          bps_distinct = v.bps_distinct;
          wps_distinct = Distinct-insert wp_ref _ wp env.watchpoints new v.wps_distinct;
          bps_front = v.bps_front;
          wps_front = InFront-insert wp_is_gdb wp env.watchpoints v.wps_front;
        })
      ]

  remove_wp-IsTidy : (wp : Watchpoint) → IsTidy (cpu_watchpoint_remove_by_ref env wp)
  unfolding cpu_watchpoint_remove_by_ref
  remove_wp-IsTidy wp = record {
    bps_distinct = v.bps_distinct;
    wps_distinct = Distinct-remove wp_ref wp.ref env.watchpoints v.wps_distinct;
    bps_front = v.bps_front;
    wps_front = InFront-remove wp_ref wp_is_gdb wp.ref env.watchpoints v.wps_front;
  }

remove_all_bps-IsTidy :
    (xs : List Breakpoint) (mask : ℕ) (env : Env)
    → IsTidy env
    → IsTidy (remove_all_breakpoints xs mask env)
unfolding remove_all_breakpoints
remove_all_bps-IsTidy [] mask env v = v
remove_all_bps-IsTidy (x ∷ xs) mask env v = elim (Bool-cases (nz (bit_and x.flags mask))) [
  | inl e ↦ rw e (remove_all_bps-IsTidy xs mask _ (remove_bp-IsTidy env v x))
  | inr e ↦ rw e (remove_all_bps-IsTidy xs mask env v)
]

remove_all_wps-IsTidy :
    (xs : List Watchpoint) (mask : ℕ) (env : Env)
    → IsTidy env
    → IsTidy (remove_all_watchpoints xs mask env)
unfolding remove_all_watchpoints
remove_all_wps-IsTidy [] mask env v = v
remove_all_wps-IsTidy (x ∷ xs) mask env v = elim (Bool-cases (nz (bit_and x.flags mask))) [
  | inl e ↦ rw e (remove_all_wps-IsTidy xs mask _ (remove_wp-IsTidy env v x))
  | inr e ↦ rw e (remove_all_wps-IsTidy xs mask env v)
]

-- A call of the debug interface. A node is allocated at an address that no node of its queue has.
pub data Step : Env → Env → Type 0 where
  insert_bp :
      (env : Env) (fresh pc flags : ℕ)
      → Fresh bp_ref fresh env.breakpoints
      → Step env (cpu_breakpoint_insert fresh env pc flags).1
  remove_bp : (env : Env) (pc flags : ℕ) → Step env (cpu_breakpoint_remove env pc flags).1
  remove_all_bps : (env : Env) (mask : ℕ) → Step env (cpu_breakpoint_remove_all env mask)
  insert_wp :
      (env : Env) (fresh addr len flags : ℕ)
      → Fresh wp_ref fresh env.watchpoints
      → Step env (cpu_watchpoint_insert fresh env addr len flags).1
  remove_wp :
      (env : Env) (addr len flags : ℕ) → Step env (cpu_watchpoint_remove env addr len flags).1
  remove_all_wps : (env : Env) (mask : ℕ) → Step env (cpu_watchpoint_remove_all env mask)

pub data Reach (env : Env) : Env → Type 0 where
  here : Reach env env
  next : {e f : Env} → Reach env e → Step e f → Reach env f

Step-IsTidy : {e f : Env} → Step e f → IsTidy e → IsTidy f
unfolding cpu_breakpoint_remove cpu_breakpoint_remove_all cpu_watchpoint_remove
    cpu_watchpoint_remove_all
Step-IsTidy (insert_bp env fresh pc flags new) v = breakpoint_insert-IsTidy env v fresh pc flags new
Step-IsTidy (remove_bp env pc flags) v =
    elim (Option-cases (first (λ b. b.pc == pc && b.flags == flags) env.breakpoints)) [
      | inl e ↦ rw (e, cpu_breakpoint_remove) v
      | inr (bp, e) ↦ rw (e, cpu_breakpoint_remove) (remove_bp-IsTidy env v bp)
    ]
Step-IsTidy (remove_all_bps env mask) v = remove_all_bps-IsTidy env.breakpoints mask env v
Step-IsTidy (insert_wp env fresh addr len flags new) v =
    watchpoint_insert-IsTidy env v fresh addr len flags new
Step-IsTidy (remove_wp env addr len flags) v =
    elim (Option-cases (first (same_watchpoint addr len flags) env.watchpoints)) [
      | inl e ↦ rw (e, cpu_watchpoint_remove) v
      | inr (wp, e) ↦ rw (e, cpu_watchpoint_remove) (remove_wp-IsTidy env v wp)
    ]
Step-IsTidy (remove_all_wps env mask) v = remove_all_wps-IsTidy env.watchpoints mask env v

-- From a CPU with empty queues, no sequence of insertions and removals, of single points or of all
-- by mask, puts one node in a queue twice or a CPU point in front of a debugger's.
pub Reach-IsTidy : {e f : Env} → IsTidy e → Reach e f → IsTidy f
Reach-IsTidy v here = v
Reach-IsTidy v (next r s) = Step-IsTidy s (Reach-IsTidy v r)
