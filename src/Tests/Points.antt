-- ===== src/Tests/Points.antt =====
-- The queues and the host's view of them at concrete inputs.
use fist_ame.Base.{◌≡◌, ◌↔◌, refl, false, [], ◌∷◌, arith}
use fist_ame.Cpu.{Env, bp_gdb}
use fist_ame.Debug.{
  ok, cpu_breakpoint_insert, cpu_breakpoint_remove, cpu_breakpoint_remove_all,
  cpu_watchpoint_insert, cpu_watchpoint_remove, cpu_watchpoint_remove_all, refused,
}
use fist_ame.Debug.Queues.{IsTidy, here, next, insert_bp, insert_wp, remove_all_bps, Reach-IsTidy}
use fist_ame.Debug.Clear.{
  inserted_wp, breakpoints-cpu_breakpoint_remove_all, watchpoints-cpu_watchpoint_remove_all,
  cpu_breakpoint_remove-cpu_breakpoint_insert, cpu_watchpoint_remove-cpu_watchpoint_insert,
}
use fist_ame.Debug.Accept.{IsBlock, refused_iff, hit-cpu_watchpoint_insert}
use fist_ame.Tlb.Flush.{hit}
use fist_ame.Api.Regs.{vxerr_ok, vxerr_insuf_buf}
use fist_ame.Api.Go.{report}
use fist_ame.Api.Points.{vx64_query_bps, vx64_query_wps, vx64_insert_wp}
use fist_ame.Api.Points.Answer.{
  vx64_query_bps_lem, vx64_query_wps_lem, vx64_query_wps-vx64_insert_wp,
}
use fist_ame.Tests.Cases.{blank, watched, bp_host, bp_own, wp_host, wp_own}

blank-IsTidy : IsTidy blank
blank-IsTidy = record { bps_distinct = tt; wps_distinct = tt; bps_front = tt; wps_front = tt }

watched-IsTidy : IsTidy watched
watched-IsTidy = record {
  bps_distinct = (((λ e. absurd (ground (arith, e))), tt), (tt, tt));
  wps_distinct = (((λ e. absurd (ground (arith, e))), tt), (tt, tt));
  bps_front = ((λ e. absurd (ground (arith, e))), ((λ e. tt), tt));
  wps_front = ((λ e. absurd (ground (arith, e))), ((λ e. tt), tt));
}

-- Two points are set, and all of the host's breakpoints are taken away.
abbrev set_one : Env
set_one = (cpu_breakpoint_insert 31 blank 0x1000 0x10).1

abbrev set_two : Env
set_two = (cpu_watchpoint_insert 41 set_one 0x5008 8 0x13).1

Reach-IsTidy_example : IsTidy (cpu_breakpoint_remove_all set_two bp_gdb)
unfolding cpu_breakpoint_insert
Reach-IsTidy_example = Reach-IsTidy blank-IsTidy (
    next
      (next (next here (insert_bp blank 31 0x1000 0x10 tt)) (insert_wp set_one 41 0x5008 8 0x13 tt))
      (remove_all_bps set_two bp_gdb))

breakpoints-cpu_breakpoint_remove_all_example :
    let env' = cpu_breakpoint_remove_all watched 0x10 in
    (env'.breakpoints ≡ bp_own ∷ []) × (env'.watchpoints ≡ wp_host ∷ wp_own ∷ [])
breakpoints-cpu_breakpoint_remove_all_example =
    breakpoints-cpu_breakpoint_remove_all watched 0x10 watched-IsTidy

watchpoints-cpu_watchpoint_remove_all_example :
    let env' = cpu_watchpoint_remove_all watched 0x10 in
    (env'.watchpoints ≡ wp_own ∷ []) × (env'.breakpoints ≡ bp_host ∷ bp_own ∷ [])
watchpoints-cpu_watchpoint_remove_all_example =
    watchpoints-cpu_watchpoint_remove_all watched 0x10 watched-IsTidy

cpu_breakpoint_remove-cpu_breakpoint_insert_example :
    let r = cpu_breakpoint_remove (cpu_breakpoint_insert 13 watched 0x1000 0x10).1 0x1000 0x10 in
    (r.0 ≡ ok) × (r.1.breakpoints ≡ watched.breakpoints) × (r.1.watchpoints ≡ watched.watchpoints)
cpu_breakpoint_remove-cpu_breakpoint_insert_example =
    cpu_breakpoint_remove-cpu_breakpoint_insert 13 watched 0x1000 0x10 refl

IsBlock-8 : IsBlock 0x5008 8
IsBlock-8 = record { bits = 3; small = omega arith; size = refl; aligned = refl }

accepted : refused 0x5008 8 ≡ false
accepted = (refused_iff 0x5008 8 (omega arith)).1 IsBlock-8

cpu_watchpoint_remove-cpu_watchpoint_insert_example :
    let r =
      cpu_watchpoint_remove (cpu_watchpoint_insert 23 watched 0x5008 8 0x11).1 0x5008 8 0x11 in
    (r.0 ≡ ok) × (r.1.watchpoints ≡ watched.watchpoints) × (r.1.breakpoints ≡ watched.breakpoints)
cpu_watchpoint_remove-cpu_watchpoint_insert_example =
    cpu_watchpoint_remove-cpu_watchpoint_insert 23 watched 0x5008 8 0x11 accepted refl refl

refused_iff_example : (refused 0x5008 8 ≡ false) ↔ IsBlock 0x5008 8
refused_iff_example = refused_iff 0x5008 8 (omega arith)

hit-cpu_watchpoint_insert_example :
    hit (cpu_watchpoint_insert 23 watched 0x5008 8 0x11).1.tlb 1 0x500b ≡ false
hit-cpu_watchpoint_insert_example =
    hit-cpu_watchpoint_insert 23 watched 0x5008 8 0x11 1 0x500b
      (inserted_wp 23 watched 0x5008 8 0x11 accepted refl).0 (omega arith) (omega arith)
      (omega arith) (omega arith) (omega arith)

vx64_query_bps_lem_example : vx64_query_bps watched 0 ≡ (vxerr_insuf_buf, [], 1)
vx64_query_bps_lem_example = vx64_query_bps_lem watched 0

vx64_query_wps_lem_example : vx64_query_wps watched 4 ≡ (vxerr_ok, report wp_host ∷ [], 1)
vx64_query_wps_lem_example = vx64_query_wps_lem watched 4

vx64_query_wps-vx64_insert_wp_example :
    let (err, env') = vx64_insert_wp 23 watched 0x5008 8 2 in
    (err ≡ vxerr_ok)
    × ((vx64_query_wps env' 5).1
        ≡ (record { kind = 2; gvma = 0x5008; size = 8 }) ∷ (vx64_query_wps watched 4).1)
vx64_query_wps-vx64_insert_wp_example =
    vx64_query_wps-vx64_insert_wp 23 watched 0x5008 8 2 4 (omega arith) (omega arith) (omega arith)
      accepted
