-- ===== src/Api/Go.antt =====
-- vx64/vx64.c: running the CPU. `exec` is `cpu_x86_exec`: it runs the code that the translator
-- generates, and returns the number of the trap that stopped it.
pub mod Stop
use fist_ame.Base.{
  ℕ, Bool, true, false, ◌&&◌, not, Option, none, some, ◌==◌, ltb, nz, bit_and, bit_or,
  if◌then◌else◌, not64, add64,
}
use fist_ame.Cpu.{
  Env, Watchpoint, excp_debug, excp_interrupt, bp_mem_read, bp_mem_write, vxwp_read, vxwp_write,
  vxr_dbg, vxr_none,
}
use fist_ame.Tailq.{first}
use fist_ame.Debug.{cpu_single_step}
use fist_ame.Api.Regs.{VxError, vxerr_ok, vxerr_fail}

-- `VXWatchPoint`; `type` is spelled `kind`.
pub record VxWatchPoint : Type 0 where
  pub kind : ℕ
  pub gvma : ℕ
  pub size : ℕ

-- The union of `VXResult`: all 0, `trapData`, or one of the two forms of `dbgData`.
pub data VxData : Type 0 where
  zeroed : VxData
  trap_data : (error_code is_int next_rip : ℕ) → VxData
  watch_point : VxWatchPoint → VxData
  bwp_address : ℕ → VxData

pub record VxResult : Type 0 where
  pub result : ℕ
  pub data_of : VxData

abbrev pub is_watch_point : VxData → Bool
is_watch_point (watch_point w) = true
is_watch_point (bwp_address a) = false
is_watch_point zeroed = false
is_watch_point (trap_data e i n) = nz e

-- The `VXWP_` type of a watchpoint, and its report to the host.
abbrev pub vxwp_type : ℕ → ℕ
vxwp_type flags =
    bit_or (if nz (bit_and flags bp_mem_read) then vxwp_read else 0)
      (if nz (bit_and flags bp_mem_write) then vxwp_write else 0)

abbrev pub report : Watchpoint → VxWatchPoint
report w = record { kind = vxwp_type w.flags; gvma = w.vaddr; size = add64 (not64 w.len_mask) 1 }

-- `env->old_exception = -1; env->exception_index = -1`
abbrev pub rearmed : Env → Env
rearmed env = record env { old_exception = 0xffff_ffff; exception_index = 0xffff_ffff }

go_debug : Env → Option (VxError × VxResult × Env)
go_debug env = elim (env.watchpoint_hit) [
  | none ↦
      some (vxerr_ok, (record { result = vxr_dbg; data_of = bwp_address env.eip }), rearmed env)
  | some r ↦ elim (first (λ w. w.ref == r) env.watchpoints) [
    | some w ↦ some (
      vxerr_ok,
      (record { result = vxr_dbg; data_of = watch_point (report w) }),
      rearmed (record env { watchpoint_hit = none }),
    )
    | none ↦ none
  ]
]

-- The report of a stop by trap `trapno`. `none` is a use after free of the watchpoint that was hit.
stop : ℕ → Env → Option (VxError × VxResult × Env)
unfolding go_debug
stop trapno env =
    if ltb trapno 256
    then some (
      vxerr_ok,
      (record {
        result = trapno;
        data_of = trap_data env.error_code env.exception_is_int env.exception_next_eip;
      }),
      rearmed env,
    )
    else (if trapno == excp_debug
        then go_debug env
        else (if trapno == excp_interrupt
            then some (vxerr_ok, (record { result = vxr_none; data_of = zeroed }), rearmed env)
            else some (vxerr_fail, (record { result = 0; data_of = zeroed }), env)))

-- A step onto the next instruction is no event of its own.
quiet : VxResult → VxResult
quiet gr =
    if gr.result == vxr_dbg && not (is_watch_point gr.data_of)
    then record gr { result = vxr_none }
    else gr

-- The end of a step, after `vx64_go`; the error of `vx64_go` is dropped.
end_step : VxResult → Env → Option (VxError × VxResult × Env)
unfolding quiet
end_step gr env = elim (cpu_single_step env 0) [
  | none ↦ none
  | some env' ↦ some (vxerr_ok, quiet gr, env')
]

module _ (exec : Env → ℕ × Env) where
  pub vx64_go : Env → Option (VxError × VxResult × Env)
  unfolding stop
  vx64_go env =
      let (trapno, env') = exec (record env { icount_extra = 10_000_000 }) in stop trapno env'

  pub vx64_go_step : Env → Option (VxError × VxResult × Env)
  unfolding end_step
  vx64_go_step env = elim (cpu_single_step env 1) [
    | none ↦ none
    | some env1 ↦ elim (vx64_go env1) [ none ↦ none | some (err, gr, env2) ↦ end_step gr env2 ]
  ]
