-- ===== src/Debug/Clear.antt =====
-- `cpu_breakpoint_remove_all`, `cpu_watchpoint_remove_all`, and removal as the inverse of
-- insertion.
use fist_ame.Base.{
  ℕ, ◌≡◌, refl, ◌∙◌, Bool, true, false, not, List, [], ◌∷◌, keep, nz, bit_and, arith, Bool-cases,
  inl, inr,
}
use fist_ame.Cpu.{Env, Breakpoint, Watchpoint, bp_gdb}
use fist_ame.Tailq.Laws.{remove_each, remove_each-keep}
use fist_ame.Debug.{
  ok, cpu_breakpoint_insert, cpu_breakpoint_remove, cpu_breakpoint_remove_by_ref,
  cpu_breakpoint_remove_all, remove_all_breakpoints, cpu_watchpoint_insert, cpu_watchpoint_remove,
  cpu_watchpoint_remove_by_ref, cpu_watchpoint_remove_all, remove_all_watchpoints, refused,
  without_hit, len_mask_of,
}
use fist_ame.Debug.Queues.{bp_ref, wp_ref, IsTidy}

abbrev bp_in : ℕ → Breakpoint → Bool
bp_in mask b = nz (bit_and b.flags mask)

abbrev wp_in : ℕ → Watchpoint → Bool
wp_in mask w = nz (bit_and w.flags mask)

remove_all_bps-each :
    (xs : List Breakpoint) (mask : ℕ) (env : Env)
    → ((remove_all_breakpoints xs mask env).breakpoints
        ≡ remove_each bp_ref (bp_in mask) xs env.breakpoints)
      × ((remove_all_breakpoints xs mask env).watchpoints ≡ env.watchpoints)
unfolding remove_all_breakpoints cpu_breakpoint_remove_by_ref
remove_all_bps-each [] mask env = (refl, refl)
remove_all_bps-each (x ∷ xs) mask env = elim (Bool-cases (bp_in mask x)) [
  | inl e ↦
      rw (e, remove_all_breakpoints)
        (remove_all_bps-each xs mask (cpu_breakpoint_remove_by_ref env x))
  | inr e ↦ rw (e, remove_all_breakpoints) (remove_all_bps-each xs mask env)
]

remove_all_wps-each :
    (xs : List Watchpoint) (mask : ℕ) (env : Env)
    → ((remove_all_watchpoints xs mask env).watchpoints
        ≡ remove_each wp_ref (wp_in mask) xs env.watchpoints)
      × ((remove_all_watchpoints xs mask env).breakpoints ≡ env.breakpoints)
unfolding remove_all_watchpoints cpu_watchpoint_remove_by_ref
remove_all_wps-each [] mask env = (refl, refl)
remove_all_wps-each (x ∷ xs) mask env = elim (Bool-cases (wp_in mask x)) [
  | inl e ↦
      rw (e, remove_all_watchpoints)
        (remove_all_wps-each xs mask (cpu_watchpoint_remove_by_ref env x))
  | inr e ↦ rw (e, remove_all_watchpoints) (remove_all_wps-each xs mask env)
]

-- `cpu_breakpoint_remove_all` keeps, in their order, exactly the breakpoints that have no flag of
-- the mask, and every watchpoint.
pub breakpoints-cpu_breakpoint_remove_all :
    (env : Env) (mask : ℕ)
    → IsTidy env
    → let env' = cpu_breakpoint_remove_all env mask in
      (env'.breakpoints ≡ keep (λ b. not (nz (bit_and b.flags mask))) env.breakpoints)
      × (env'.watchpoints ≡ env.watchpoints)
unfolding cpu_breakpoint_remove_all
breakpoints-cpu_breakpoint_remove_all env mask v =
    let (b, w) = remove_all_bps-each env.breakpoints mask env in
    (b ∙ remove_each-keep bp_ref (bp_in mask) env.breakpoints v.bps_distinct, w)

-- `cpu_watchpoint_remove_all` keeps, in their order, exactly the watchpoints that have no flag of
-- the mask, and every breakpoint.
pub watchpoints-cpu_watchpoint_remove_all :
    (env : Env) (mask : ℕ)
    → IsTidy env
    → let env' = cpu_watchpoint_remove_all env mask in
      (env'.watchpoints ≡ keep (λ w. not (nz (bit_and w.flags mask))) env.watchpoints)
      × (env'.breakpoints ≡ env.breakpoints)
unfolding cpu_watchpoint_remove_all
watchpoints-cpu_watchpoint_remove_all env mask v =
    let (w, b) = remove_all_wps-each env.watchpoints mask env in
    (w ∙ remove_each-keep wp_ref (wp_in mask) env.watchpoints v.wps_distinct, b)

-- A breakpoint of the debugger (`BP_GDB`) that was just set is the one that is removed: the queue is
-- as it was, also where the same breakpoint had been set before.
pub cpu_breakpoint_remove-cpu_breakpoint_insert :
    (fresh : ℕ) (env : Env) (pc flags : ℕ)
    → nz (bit_and flags bp_gdb) ≡ true
    → let r = cpu_breakpoint_remove (cpu_breakpoint_insert fresh env pc flags).1 pc flags in
      (r.0 ≡ ok) × (r.1.breakpoints ≡ env.breakpoints) × (r.1.watchpoints ≡ env.watchpoints)
unfolding cpu_breakpoint_remove cpu_breakpoint_insert cpu_breakpoint_remove_by_ref
cpu_breakpoint_remove-cpu_breakpoint_insert fresh env pc flags g = ground arith

-- A watchpoint of the debugger that was just accepted, with no `BP_WATCHPOINT_HIT` in its flags, is
-- the one that is removed: the queue is as it was, also where the same one had been set before.
pub cpu_watchpoint_remove-cpu_watchpoint_insert :
    (fresh : ℕ) (env : Env) (addr len flags : ℕ)
    → refused addr len ≡ false
    → nz (bit_and flags bp_gdb) ≡ true
    → without_hit flags ≡ flags
    → let r =
        cpu_watchpoint_remove (cpu_watchpoint_insert fresh env addr len flags).1 addr len flags in
      (r.0 ≡ ok) × (r.1.watchpoints ≡ env.watchpoints) × (r.1.breakpoints ≡ env.breakpoints)
unfolding cpu_watchpoint_remove cpu_watchpoint_insert cpu_watchpoint_remove_by_ref
cpu_watchpoint_remove-cpu_watchpoint_insert fresh env addr len flags a g p = ground arith

-- A breakpoint of the debugger goes to the front.
pub inserted_bp :
    (fresh : ℕ) (env : Env) (pc flags : ℕ)
    → nz (bit_and flags bp_gdb) ≡ true
    → let (s, env') = cpu_breakpoint_insert fresh env pc flags in
      (s ≡ ok)
      × (env'.breakpoints ≡ (record { ref = fresh; pc = pc; flags = flags }) ∷ env.breakpoints)
unfolding cpu_breakpoint_insert
inserted_bp fresh env pc flags g = rw g (refl, refl)

-- So does a watchpoint that is accepted.
pub inserted_wp :
    (fresh : ℕ) (env : Env) (addr len flags : ℕ)
    → refused addr len ≡ false
    → nz (bit_and flags bp_gdb) ≡ true
    → let (s, env') = cpu_watchpoint_insert fresh env addr len flags in
      (s ≡ ok)
      × (env'.watchpoints
          ≡ (record { ref = fresh; vaddr = addr; len_mask = len_mask_of len; flags = flags })
            ∷ env.watchpoints)
unfolding cpu_watchpoint_insert
inserted_wp fresh env addr len flags a g = rw (a, g) (refl, refl)
