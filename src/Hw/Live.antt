-- ===== src/Hw/Live.antt =====
-- The pointers of the debug registers: after any write of a debug register each pointer that will
-- be followed leads to a node of its queue.
pub mod Remove
pub mod Insert
pub mod Loops
pub mod Safe
pub mod Tests
use fist_ame.Base.{
  ◌⊎◌, ℕ, zero, suc, ◌+◌, ◌≡◌, ◌≢◌, refl, ap, ◌∙◌, sym, Bool, true, false, Option, none, some, List,
  [], ◌∷◌, ◌++◌, ◌==◌, ltb, update, update_self, update_ne, if◌then◌else◌, arith, Bool-cases,
  Option-cases, inl, inr, ==_iff, bit_or, ◌<◌, nz, bit_and,
}
use fist_ame.Cpu.{Env, Breakpoint, Watchpoint, bp_cpu, bp_gdb, bp_mem_write, bp_mem_access}
use fist_ame.Tailq.{first, remove}
use fist_ame.Debug.Queues.{bp_ref, wp_ref}
use fist_ame.Debug.{
  cpu_breakpoint_remove_by_ref, cpu_watchpoint_remove_by_ref, cpu_breakpoint_insert, Status, ok,
  einval, len_mask_of, cpu_watchpoint_insert, refused,
}
use fist_ame.Tlb.{tlb_flush_page}
use fist_ame.Hw.{
  store_pointer, HwType, inst, data_wr, io_rw, data_rw, hw_breakpoint_type, hw_breakpoint_enabled,
  hw_breakpoint_insert, hw_breakpoint_remove, helper_movl_drn_t0, insert_data, remove_data,
  remove_inst, remove_from, insert_from, hw_breakpoint_len, hw_type_of,
}

module _ {A : Type 0} (ref : A → ℕ) where
  -- A node of the queue stands at the address.
  abbrev pub held : ℕ → List A → Bool
  held r xs = elim (first (λ x. ref x == r) xs) [ some x ↦ true | none ↦ false ]

  pub held-remove :
      (r s : ℕ) (xs : List A) → r ≢ s → held r xs ≡ true → held r (remove ref s xs) ≡ true
  held-remove r s [] n h = h
  held-remove r s (x ∷ xs) n h = ground (arith, held-remove r s xs n)

  pub held-append : (r : ℕ) (xs ys : List A) → held r xs ≡ true → held r (xs ++ ys) ≡ true
  held-append r [] ys h = absurd (ground (arith, h))
  held-append r (x ∷ xs) ys h = ground (arith, held-append r xs ys)

  pub held-insert : (x : A) (xs : List A) → held (ref x) (xs ++ x ∷ []) ≡ true
  held-insert x [] = ground arith
  held-insert x (y ∷ xs) = ground (arith, held-insert x xs)

  pub held-first :
      (r : ℕ) (xs : List A)
      → held r xs ≡ true
      → (x : A) × (first (λ x. ref x == r) xs ≡ some x) × (ref x ≡ r)
  held-first r [] h = absurd (ground (arith, h))
  held-first r (x ∷ xs) h = elim (Bool-cases (ref x == r)) [
    | inl e ↦ rw e (x, refl, (==_iff (ref x) r).0 e)
    | inr e ↦ rw e (held-first r xs (rw (held, e) at h))
  ]

-- The queue that the pointer of a register leads to, as DR7 says.
pub data Target : Type 0 where
  nothing in_breakpoints in_watchpoints : Target

pub target : ℕ → ℕ → Target
target dr7 index = elim (hw_breakpoint_type dr7 index) [
  | inst ↦ if hw_breakpoint_enabled dr7 index then in_breakpoints else nothing
  | data_wr ↦ in_watchpoints
  | io_rw ↦ nothing
  | data_rw ↦ in_watchpoints
]

pub Live : Target → ℕ → Env → Type 0
Live nothing r env = Unit
Live in_breakpoints r env = held bp_ref r env.breakpoints ≡ true
Live in_watchpoints r env = held wp_ref r env.watchpoints ≡ true

-- Instruction, data, or port.
pub type_cases : (t : HwType) → (t ≡ inst) ⊎ (t ≡ data_wr) ⊎ (t ≡ data_rw) ⊎ (t ≡ io_rw)
type_cases inst = inl refl
type_cases data_wr = inr (inl refl)
type_cases data_rw = inr (inr (inl refl))
type_cases io_rw = inr (inr (inr refl))

-- Pointers stay live where the queues only grow.
pub grown :
    (e f : Env)
    → ((r : ℕ) → held bp_ref r e.breakpoints ≡ true → held bp_ref r f.breakpoints ≡ true)
    → ((r : ℕ) → held wp_ref r e.watchpoints ≡ true → held wp_ref r f.watchpoints ≡ true)
    → (t : Target) (r : ℕ) → Live t r e
    → Live t r f
unfolding Live
grown e f b w nothing r h = tt
grown e f b w in_breakpoints r h = b r h
grown e f b w in_watchpoints r h = w r h

-- To show a pointer live, it may be taken to be followed.
pub nothing_or : (t : Target) (r : ℕ) (env : Env) → (t ≢ nothing → Live t r env) → Live t r env
unfolding Live
nothing_or nothing r env h = tt
nothing_or in_breakpoints r env h = h (λ e. ground (arith, e))
nothing_or in_watchpoints r env h = h (λ e. ground (arith, e))

pub nothing_unless : (t : Target) → ¬ (t ≢ nothing) → t ≡ nothing
nothing_unless nothing h = refl
nothing_unless in_breakpoints h = absurd (h (λ e. ground (arith, e)))
nothing_unless in_watchpoints h = absurd (h (λ e. ground (arith, e)))
