-- ===== src/Hw.antt =====
-- The debug registers: `hw_breakpoint_insert`, `hw_breakpoint_remove` and their readers of DR7
-- in vx64/qemu/target-i386/helper.c and cpu.h, and `helper_movl_drN_T0` of misc_helper.c.
-- A pointer in `cpu_breakpoint`/`cpu_watchpoint` is the address of a node; to follow one that
-- is in no queue is a use after free, and gives `none`.
pub mod Live
use fist_ame.Base.{
  ℕ, zero, suc, ◌+◌, ◌*◌, ◌/◌, ◌^◌, Bool, ◌||◌, ◌==◌, nz, ltb, bit_and, bit_or, none, some, Option,
  if◌then◌else◌, update,
}
use fist_ame.Cpu.{Env, bp_cpu, bp_mem_write, bp_mem_access}
use fist_ame.Tailq.{first}
use fist_ame.Debug.{
  Status, ok, einval, enoent, cpu_breakpoint_insert, cpu_breakpoint_remove_by_ref,
  cpu_watchpoint_insert, cpu_watchpoint_remove_by_ref,
}

pub hw_local_breakpoint_enabled : ℕ → ℕ → Bool
hw_local_breakpoint_enabled dr7 index = nz (bit_and (dr7 / 2 ^ (index * 2)) 1)

pub hw_global_breakpoint_enabled : ℕ → ℕ → Bool
hw_global_breakpoint_enabled dr7 index = nz (bit_and (dr7 / 2 ^ (index * 2)) 2)

pub hw_breakpoint_enabled : ℕ → ℕ → Bool
hw_breakpoint_enabled dr7 index =
    hw_global_breakpoint_enabled dr7 index || hw_local_breakpoint_enabled dr7 index

-- The values of the two type bits: DR7_TYPE_BP_INST, DATA_WR, IO_RW and DATA_RW.
pub data HwType : Type 0 where
  inst data_wr io_rw data_rw : HwType

pub hw_type_of : ℕ → HwType
hw_type_of n =
    if n == 0 then inst else if n == 1 then data_wr else if n == 2 then io_rw else data_rw

pub hw_breakpoint_type : ℕ → ℕ → HwType
hw_breakpoint_type dr7 index = hw_type_of (bit_and (dr7 / 2 ^ (16 + index * 4)) 3)

pub hw_breakpoint_len : ℕ → ℕ → ℕ
hw_breakpoint_len dr7 index =
    let len = bit_and (dr7 / 2 ^ (18 + index * 4)) 3 in if len == 2 then 8 else len + 1

-- What becomes of the pointer: where the watchpoint is refused it is cleared.
store_pointer : ℕ → ℕ → Status × Env → Env
store_pointer fresh index (err, env) = elim err [
  | ok ↦ record env { hw = update env.hw index (some fresh) }
  | einval ↦ record env { hw = update env.hw index none }
  | enoent ↦ record env { hw = update env.hw index none }
]

-- The watchpoint of a data register.
insert_data : ℕ → Env → ℕ → ℕ → Env
unfolding store_pointer
insert_data fresh env index type =
    store_pointer fresh index
      (cpu_watchpoint_insert fresh env (env.dr index) (hw_breakpoint_len (env.dr 7) index) type)

pub hw_breakpoint_insert : ℕ → Env → ℕ → Env
unfolding insert_data
hw_breakpoint_insert fresh env index = elim (hw_breakpoint_type (env.dr 7) index) [
  | inst ↦
      if hw_breakpoint_enabled (env.dr 7) index
      then record (cpu_breakpoint_insert fresh env (env.dr index) bp_cpu).1 {
        hw = update env.hw index (some fresh);
      }
      else env
  | data_wr ↦ insert_data fresh env index (bit_or bp_cpu bp_mem_write)
  | io_rw ↦ env
  | data_rw ↦ insert_data fresh env index (bit_or bp_cpu bp_mem_access)
]

remove_inst : Env → ℕ → ℕ → Option Env
remove_inst env index r =
    if hw_breakpoint_enabled (env.dr 7) index
    then elim (first (λ b. b.ref == r) env.breakpoints) [
      | some bp ↦ some (cpu_breakpoint_remove_by_ref env bp)
      | none ↦ none
    ]
    else some env

remove_data : Env → ℕ → Option Env
remove_data env r = elim (first (λ w. w.ref == r) env.watchpoints) [
  | some wp ↦ some (cpu_watchpoint_remove_by_ref env wp)
  | none ↦ none
]

pub hw_breakpoint_remove : Env → ℕ → Option Env
unfolding remove_inst remove_data
hw_breakpoint_remove env index = elim (env.hw index) [
  | none ↦ some env
  | some r ↦ elim (hw_breakpoint_type (env.dr 7) index) [
    | inst ↦ remove_inst env index r
    | data_wr ↦ remove_data env r
    | io_rw ↦ some env
    | data_rw ↦ remove_data env r
  ]
]

infixl 5 ◌>>=◌
abbrev ◌>>=◌ : {A B : Type 0} → Option A → (A → Option B) → Option B
none >>= f = none
some a >>= f = f a

-- The two loops over the four registers, from `index` on, `n` left.
pub remove_from : ℕ → ℕ → Env → Option Env
remove_from zero index env = some env
remove_from (suc n) index env = hw_breakpoint_remove env index >>= remove_from n (index + 1)

pub insert_from : (ℕ → ℕ) → ℕ → ℕ → Env → Env
insert_from fresh zero index env = env
insert_from fresh (suc n) index env =
    insert_from fresh n (index + 1) (hw_breakpoint_insert (fresh index) env index)

-- `fresh index` is what `malloc` returns for the node of a register.
pub helper_movl_drn_t0 : (ℕ → ℕ) → Env → ℕ → ℕ → Option Env
helper_movl_drn_t0 fresh env reg t0 =
    if ltb reg 4
    then (do
      env' ← hw_breakpoint_remove env reg
      some (hw_breakpoint_insert (fresh reg) (record env' { dr = update env'.dr reg t0 }) reg))
    else (if reg == 7
        then (do
          env' ← remove_from 4 0 env
          some (insert_from fresh 4 0 (record env' { dr = update env'.dr 7 t0 })))
        else some (record env { dr = update env.dr reg t0 }))
