-- ===== src/Tests/Host.antt =====
-- The host's runs of the CPU and the control registers at concrete inputs.
use fist_ame.Base.{ℕ, ◌≡◌, refl, some, [], ◌∷◌, inr, arith}
use fist_ame.Cpu.{Env}
use fist_ame.Control.{cpu_x86_update_cr0, cpu_x86_load_seg_cache, cpu_x86_set_cpl}
use fist_ame.Control.Steps.{here, next, update_cr0, load_seg, set_cpl, Reach-IsConsistent}
use fist_ame.Api.Regs.Start.{Started, vx64_init-InLongMode}
use fist_ame.Control.Flags.{IsConsistent}
use fist_ame.Hw.Live.Loops.{IsLive}
use fist_ame.Hw.Live.Safe.{IsFresh}
use fist_ame.Api.Regs.{vxr_dr0, vxerr_ok, vx64_set_reg, vx64_get_reg, vx64_init}
use fist_ame.Api.Regs.Access.{vx64_get_reg-vx64_set_reg}
use fist_ame.Api.Go.{vx64_go, vx64_go_step}
use fist_ame.Api.Go.Stop.{Reports, Stepped, vx64_go-Reports, vx64_go_step-Stepped}
use fist_ame.Tests.Cases.{blank, watched, wp_host}

-- A run that ends on the watchpoint of the host.
abbrev run_to_hit : Env → ℕ × Env
run_to_hit env = (0x10002, record env { watchpoint_hit = some 21; watchpoints = wp_host ∷ [] })

vx64_go-Reports_example :
    Reports 0x10002
      (record watched {
        icount_extra = 10_000_000;
        watchpoint_hit = some 21;
        watchpoints = wp_host ∷ [];
      })
      (vx64_go run_to_hit watched)
vx64_go-Reports_example = vx64_go-Reports run_to_hit watched (inr (21, wp_host, refl, refl))

vx64_go_step-Stepped_example : Stepped (vx64_go_step run_to_hit watched)
vx64_go_step-Stepped_example =
    vx64_go_step-Stepped run_to_hit watched (omega arith)
      (λ e h. (h, inr (21, wp_host, refl, refl)))

blank-IsConsistent : IsConsistent blank
blank-IsConsistent = record { pe = refl; lma = refl; active = refl }

-- A code segment is loaded after protection is turned on, and the privilege level changed.
abbrev guarded : Env
guarded = cpu_x86_update_cr0 blank 0x1_0001

abbrev loaded : Env
loaded = cpu_x86_load_seg_cache guarded 1 0x33 0 0xffff_ffff 0x20_9a00

Reach-IsConsistent_example : IsConsistent (cpu_x86_set_cpl loaded 3)
Reach-IsConsistent_example = Reach-IsConsistent blank-IsConsistent (
    next
      (next (next here (update_cr0 blank 0x1_0001))
        (load_seg guarded 1 0x33 0 0xffff_ffff 0x20_9a00))
      (set_cpl loaded 3 (omega arith)))

vx64_init-InLongMode_example : Started (vx64_init blank)
vx64_init-InLongMode_example = vx64_init-InLongMode blank (omega arith) blank-IsConsistent

blank-IsLive : IsLive blank
blank-IsLive = record {
  live = λ i r h e. absurd (ground (arith, e));
  apart = λ i j r hi hj n ei ej t. absurd (ground (arith, ei));
}

abbrev spread : ℕ → ℕ
spread = λ i. i

spread-IsFresh : (reg : ℕ) → IsFresh spread blank reg
spread-IsFresh reg = record {
  injective = λ i j hi hj e. e;
  unused = λ j h n t e. absurd (ground (arith, e));
}

vx64_get_reg-vx64_set_reg_example :
    (env' : Env) × (vx64_set_reg spread blank vxr_dr0 0x5000 ≡ some (vxerr_ok, env'))
    × (vx64_get_reg env' vxr_dr0 ≡ some 0x5000)
vx64_get_reg-vx64_set_reg_example =
    vx64_get_reg-vx64_set_reg spread blank vxr_dr0 0x5000 blank-IsLive spread-IsFresh
