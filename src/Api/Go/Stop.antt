-- ===== src/Api/Go/Stop.antt =====
-- What a host is told when the CPU stops.
use fist_ame.Base.{
  ℕ, w64, nz, bit_and, bit_or, false, ◌<◌, ◌≡◌, ◌≤◌, ◌⊎◌, ◌↔◌, refl, ap, ◌∙◌, sym, Bool, true,
  Bool-cases, inl, inr, some, none, Option, ◌==◌, ==_iff, ltb, if◌then◌else◌, arith,
}
use mathlib.Core.Path.{subst}
use fist_ame.Cpu.{
  TbCache, Env, Watchpoint, excp_debug, excp_interrupt, vxr_dbg, vxr_none, vxwp_read, vxwp_write,
  bp_mem_read, bp_mem_write,
}
use fist_ame.Tailq.{first}
use fist_ame.Debug.{cpu_single_step, len_mask_of}
use fist_ame.Debug.Stepping.{HasRoom, Steps-some, cpu_single_step_lem}
use fist_ame.Api.Regs.{VxError, vxerr_ok, vxerr_fail}
use fist_ame.Api.Go.{
  VxWatchPoint, VxData, rearmed, zeroed, trap_data, watch_point, bwp_address, report, VxResult,
  is_watch_point, vx64_go, vx64_go_step, go_debug, stop, quiet, end_step,
}

-- The watchpoint that was hit, if any, is still in the queue.
abbrev pub HitIsLive : Env → Type 0
HitIsLive env =
    (env.watchpoint_hit ≡ none)
    ⊎ ((r : ℕ) × (w : Watchpoint) × (env.watchpoint_hit ≡ some r)
        × (first (λ x. x.ref == r) env.watchpoints ≡ some w))

-- The traps that `vx64_go` reports to the host.
abbrev pub reported : ℕ → Bool
reported trapno =
    if ltb trapno 256 then true else if trapno == excp_debug then true else trapno == excp_interrupt

-- A watchpoint as the host is told of it: its address, the length that it was set with, and whether
-- it stops reads and writes.
pub record IsShown (w : Watchpoint) (shown : VxWatchPoint) : Type 0 where
  pub gvma : shown.gvma ≡ w.vaddr
  pub size : (len : ℕ) → 0 < len → len < w64 → w.len_mask ≡ len_mask_of len → shown.size ≡ len
  pub reads : nz (bit_and shown.kind vxwp_read) ≡ nz (bit_and w.flags bp_mem_read)
  pub writes : nz (bit_and shown.kind vxwp_write) ≡ nz (bit_and w.flags bp_mem_write)
  pub no_more : shown.kind < 4

abbrev pub Shows : Watchpoint → VxData → Type 0
Shows w (watch_point shown) = IsShown w shown
Shows w _ = ⊥

-- What a debug event is: the watchpoint that was hit, or the address of the instruction.
abbrev pub ShowsEvent : Env → VxData → Type 0
ShowsEvent after shown = elim (after.watchpoint_hit) [
  | none ↦ shown ≡ bwp_address after.eip
  | some r ↦ elim (first (λ w. w.ref == r) after.watchpoints) [ none ↦ ⊥ | some w ↦ Shows w shown ]
]

-- A report, against the trap number and the CPU that stopped: the error tells whether the trap is
-- one of those above; then no exception is pending, and otherwise the CPU is as it stopped. The
-- result is a debug event exactly where the trap is, and a reported hit is forgotten. The result of
-- a trap is its number, with the error code, the kind and the next address of the exception; an
-- interrupt is no event, and what is not reported leaves the report zeroed. Nothing else of the CPU
-- changes.
pub record IsReport (trapno : ℕ) (after : Env) (err : VxError) (gr : VxResult) (env : Env)
    : Type 0 where
  pub error : err ≡ (if reported trapno then vxerr_ok else vxerr_fail)
  pub pending :
      if reported trapno
      then (env.exception_index ≡ 0xffff_ffff) × (env.old_exception ≡ 0xffff_ffff)
      else env ≡ after
  pub debug : (gr.result ≡ vxr_dbg) ↔ (trapno ≡ excp_debug)
  pub forgotten : trapno ≡ excp_debug → env.watchpoint_hit ≡ none
  pub same_room : env.tb ≡ after.tb
  pub trap :
      trapno < 256
      → (gr.result ≡ trapno)
        × (gr.data_of ≡ trap_data after.error_code after.exception_is_int after.exception_next_eip)
  pub event : trapno ≡ excp_debug → ShowsEvent after gr.data_of
  pub interrupt : trapno ≡ excp_interrupt → (gr.result ≡ vxr_none) × (gr.data_of ≡ zeroed)
  pub unknown : reported trapno ≡ false → (gr.result ≡ 0) × (gr.data_of ≡ zeroed)
  pub rest :
      let hit = if trapno == excp_debug then none else after.watchpoint_hit in
      env ≡ (record after {
        watchpoint_hit = hit;
        exception_index = env.exception_index;
        old_exception = env.old_exception;
      })

-- The call returned, with such a report.
abbrev pub Reports : ℕ → Env → Option (VxError × VxResult × Env) → Type 0
Reports trapno after none = ⊥
Reports trapno after (some (err, gr, env)) = IsReport trapno after err gr env

Reports-some :
    (trapno : ℕ) (after : Env) (o : Option (VxError × VxResult × Env))
    → Reports trapno after o
    → (err : VxError) × (gr : VxResult) × (env : Env) × (o ≡ some (err, gr, env))
      × IsReport trapno after err gr env
Reports-some trapno after none r = elim r [ ]
Reports-some trapno after (some (err, gr, env)) r = (err, gr, env, refl, r)

kind_lem :
    (r v : Bool)
    → let kind = bit_or (if r then vxwp_read else 0) (if v then vxwp_write else 0) in
      (nz (bit_and kind vxwp_read) ≡ r) × (nz (bit_and kind vxwp_write) ≡ v) × (kind < 4)
kind_lem true true = (refl, refl, omega arith)
kind_lem true false = (refl, refl, omega arith)
kind_lem false true = (refl, refl, omega arith)
kind_lem false false = (refl, refl, omega arith)

report-IsShown : (w : Watchpoint) → IsShown w (report w)
report-IsShown w =
    let k = kind_lem (nz (bit_and w.flags bp_mem_read)) (nz (bit_and w.flags bp_mem_write)) in
    record {
      gvma = refl;
      size = λ len p l e. rw e (omega (arith, p, l));
      reads = k.0;
      writes = k.1;
      no_more = k.2;
    }

go_debug-Reports : (env : Env) → HitIsLive env → Reports excp_debug env (go_debug env)
unfolding go_debug
go_debug-Reports env (inl e) =
    rw (e, go_debug)
      (record {
        error = refl;
        pending = (refl, refl);
        debug = ((λ _. refl), (λ _. refl));
        forgotten = λ _. e;
        same_room = refl;
        trap = λ l. absurd (omega (arith, l));
        event = λ _. refl;
        interrupt = λ d. absurd (omega (arith, d));
        unknown = λ d. cc d;
        rest = ap (λ h. rearmed (record env { watchpoint_hit = h })) e;
      })
go_debug-Reports env (inr (r, w, e, f)) =
    rw (e, f, go_debug)
      (record {
        error = refl;
        pending = (refl, refl);
        debug = ((λ _. refl), (λ _. refl));
        forgotten = λ _. refl;
        same_room = refl;
        trap = λ l. absurd (omega (arith, l));
        event = λ _. rw (f, ShowsEvent) (report-IsShown w);
        interrupt = λ d. absurd (omega (arith, d));
        unknown = λ d. cc d;
        rest = refl;
      })

stop-Reports : (trapno : ℕ) (env : Env) → HitIsLive env → Reports trapno env (stop trapno env)
unfolding stop
stop-Reports trapno env h = elim (Bool-cases (ltb trapno 256)) [
  | inl e ↦
      let not_debug : (trapno == excp_debug) ≡ false = ground (arith, e) in
      rw (e, stop)
        (record {
          error = rw e refl;
          pending = rw e (refl, refl);
          debug = ((λ d. ground (arith, e, d)), (λ d. ground (arith, e, d)));
          forgotten = λ d. absurd (ground (arith, e, d));
          same_room = refl;
          trap = λ _. (refl, refl);
          event = λ d. absurd (ground (arith, e, d));
          interrupt = λ d. absurd (ground (arith, e, d));
          unknown = λ d. cc (d, e);
          rest = rw not_debug refl;
        })
  | inr e ↦ elim (Bool-cases (trapno == excp_debug)) [
    | inl g ↦ let p = (==_iff trapno excp_debug).0 g in rw (p, stop) (go_debug-Reports env h)
    | inr g ↦ elim (Bool-cases (trapno == excp_interrupt)) [
      | inl i ↦
          rw (e, g, i, stop)
            (record {
              error = rw (e, g, i) refl;
              pending = rw (e, g, i) (refl, refl);
              debug = ((λ d. ground (arith, d)), (λ d. ground (arith, g, d)));
              forgotten = λ d. absurd (ground (arith, g, d));
              same_room = refl;
              trap = λ l. absurd (ground (arith, e, l));
              event = λ d. absurd (ground (arith, g, d));
              interrupt = λ _. (refl, refl);
              unknown = λ d. cc (rw (e, g, i) at d);
              rest = rw g refl;
            })
      | inr i ↦
          rw (e, g, i, stop)
            (record {
              error = rw (e, g, i) refl;
              pending = rw (e, g, i) refl;
              debug = ((λ d. ground (arith, d)), (λ d. ground (arith, g, d)));
              forgotten = λ d. absurd (ground (arith, g, d));
              same_room = refl;
              trap = λ l. absurd (ground (arith, e, l));
              event = λ d. absurd (ground (arith, g, d));
              interrupt = λ d. absurd (ground (arith, i, d));
              unknown = λ _. (refl, refl);
              rest = rw g refl;
            })
    ]
  ]
]

-- Whatever `cpu_x86_exec` returns, `vx64_go` returns too: it reports the traps below 256, a debug
-- event and an interrupt with VXERR_OK and no exception left pending, and anything else with
-- VXERR_FAIL, the CPU as it stopped and a zeroed report. The result of a trap is its number, with the
-- error code, the kind and the next address of the exception. It is VXR_DBG exactly on a debug event,
-- whose data are the watchpoint that was hit (its address, the length that it was set with, whether it
-- stops reads and writes), which is then forgotten, or else the address of the instruction. An
-- interrupt is VXR_NONE. Nothing else of the CPU changes. The condition is that the watchpoint that was
-- hit, if there is one, is still set.
pub vx64_go-Reports :
    (exec : Env → ℕ × Env) (env : Env)
    → let (trapno, after) = exec (record env { icount_extra = 10_000_000 }) in
      HitIsLive after → Reports trapno after (vx64_go exec env)
unfolding vx64_go
vx64_go-Reports exec env h =
    let (trapno, after) = exec (record env { icount_extra = 10_000_000 }) in
    stop-Reports trapno after h

-- A step, ended: single stepping is off, and a debug event is a watchpoint.
abbrev pub Stepped : Option (VxError × VxResult × Env) → Type 0
Stepped none = ⊥
Stepped (some (err, gr, env)) =
    (err ≡ vxerr_ok)
    × (env.singlestep_enabled ≡ 0)
    × (gr.result ≡ vxr_dbg → is_watch_point gr.data_of ≡ true)

quiet_lem : (gr : VxResult) → (quiet gr).result ≡ vxr_dbg → is_watch_point (quiet gr).data_of ≡ true
unfolding quiet
quiet_lem gr h = elim (Bool-cases (gr.result == vxr_dbg)) [
  | inr n ↦
      let same : quiet gr ≡ gr = rw (n, quiet) refl in
      absurd (ground (arith, n, ap (λ (g : VxResult). g.result) (sym same) ∙ h))
  | inl d ↦ elim (Bool-cases (is_watch_point gr.data_of)) [
    | inl e ↦
        let same : quiet gr ≡ gr = rw (d, e, quiet) refl in
        ap (λ (g : VxResult). is_watch_point g.data_of) same ∙ e
    | inr e ↦
        let none_event : quiet gr ≡ record gr { result = vxr_none } = rw (d, e, quiet) refl in
        absurd (ground (arith, ap (λ (g : VxResult). g.result) (sym none_event) ∙ h))
  ]
]

end_step-Stepped : (gr : VxResult) (env : Env) → HasRoom env → Stepped (end_step gr env)
unfolding end_step
end_step-Stepped gr env h =
    let (env', e, s, _) = Steps-some 0 (cpu_single_step env 0) (cpu_single_step_lem env 0 h) in
    rw (e, end_step) (refl, s, quiet_lem gr)

-- Where the code fits its buffer before and after the run, and the watchpoint that was hit is still
-- set, `vx64_go_step` returns with single stepping off, and reports a debug event only for a
-- watchpoint: the stop after the instruction is VXR_NONE. Its error is VXERR_OK, also where that of
-- `vx64_go` was VXERR_FAIL.
pub vx64_go_step-Stepped :
    (exec : Env → ℕ × Env) (env : Env)
    → HasRoom env
    → ((e : Env) → HasRoom e → HasRoom (exec e).1 × HitIsLive (exec e).1)
    → Stepped (vx64_go_step exec env)
unfolding vx64_go_step
vx64_go_step-Stepped exec env h x =
    let (env1, e, _, h1) = Steps-some 1 (cpu_single_step env 1) (cpu_single_step_lem env 1 h) in
    let (room, hit) = x (record env1 { icount_extra = 10_000_000 }) h1 in
    let (err, gr, env2, f, r) =
      Reports-some _ _ (vx64_go exec env1) (vx64_go-Reports exec env1 hit) in
    rw (e, f, vx64_go_step)
      (end_step-Stepped gr env2
        (subst (λ (t : TbCache). t.code_gen_used ≤ t.code_gen_buffer_size) (sym r.same_room) room))
