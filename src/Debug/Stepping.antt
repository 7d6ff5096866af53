-- ===== src/Debug/Stepping.antt =====
-- `cpu_single_step` with room in the buffer of generated code.
use fist_ame.Base.{
  ℕ, ◌≡◌, ◌≤◌, refl, Bool-cases, inl, inr, some, none, Option, ◌==◌, ==_iff, ltb, arith, false,
}
use fist_ame.Cpu.{Env}
use fist_ame.Debug.{cpu_single_step, tb_flush}

-- The generated code fits its buffer.
abbrev pub HasRoom : Env → Type 0
HasRoom env = env.tb.code_gen_used ≤ env.tb.code_gen_buffer_size

-- The call was no abort, and gave a CPU that runs in the mode `enabled`.
abbrev pub Steps : ℕ → Option Env → Type 0
Steps enabled none = ⊥
Steps enabled (some env) = (env.singlestep_enabled ≡ enabled) × HasRoom env

pub cpu_single_step_lem :
    (env : Env) (enabled : ℕ) → HasRoom env → Steps enabled (cpu_single_step env enabled)
unfolding cpu_single_step tb_flush
cpu_single_step_lem env enabled h = elim (Bool-cases (env.singlestep_enabled == enabled)) [
  | inl e ↦ rw (e, cpu_single_step) ((==_iff _ _).0 e, h)
  | inr e ↦
      let fits : ltb env.tb.code_gen_buffer_size env.tb.code_gen_used ≡ false = ground (arith, h) in
      rw (e, cpu_single_step, fits, tb_flush) (refl, omega arith)
]

pub Steps-some :
    (enabled : ℕ) (o : Option Env)
    → Steps enabled o
    → (env : Env) × (o ≡ some env) × (env.singlestep_enabled ≡ enabled) × HasRoom env
Steps-some enabled none s = elim s [ ]
Steps-some enabled (some env) (e, h) = (env, refl, e, h)

-- A flush of the code that was no abort, and the control state as it was.
abbrev pub Flushed : Env → Option Env → Type 0
Flushed env none = ⊥
Flushed env (some env') = (env'.cr ≡ env.cr) × (env'.efer ≡ env.efer) × (env'.hflags ≡ env.hflags)

pub tb_flush-Flushed : (env : Env) → HasRoom env → Flushed env (tb_flush env)
unfolding tb_flush
tb_flush-Flushed env h =
    let fits : ltb env.tb.code_gen_buffer_size env.tb.code_gen_used ≡ false = ground (arith, h) in
    rw (fits, tb_flush) (refl, refl, refl)
