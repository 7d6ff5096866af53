-- ===== src/Hw/Live/Remove.antt =====
-- `hw_breakpoint_remove` follows a live pointer only, and leaves the others live.
use fist_ame.Base.{
  ℕ, ◌≡◌, ◌≢◌, refl, sym, Option, some, if◌then◌else◌, Bool-cases, Option-cases, inl, inr,
}
use fist_ame.Cpu.{Env, Breakpoint, Watchpoint}
use fist_ame.Debug.Queues.{bp_ref, wp_ref}
use fist_ame.Debug.{cpu_breakpoint_remove_by_ref, cpu_watchpoint_remove_by_ref}
use fist_ame.Hw.{
  hw_breakpoint_type, hw_breakpoint_enabled, hw_breakpoint_remove, remove_data, remove_inst,
}
use fist_ame.Hw.Live.{
  held-remove, held-first, Target, nothing, in_breakpoints, in_watchpoints, target, Live,
  type_cases,
}

-- The effect of one removal.
pub record Removed (env : Env) (index : ℕ) (env' : Env) : Type 0 where
  pub same_hw : env'.hw ≡ env.hw
  pub same_dr : env'.dr ≡ env.dr
  pub others_live :
      (t : Target) (r : ℕ)
      → (t ≡ target (env.dr 7) index → env.hw index ≢ some r)
      → Live t r env
      → Live t r env'

module _ (env : Env) (index r : ℕ) (e : env.hw index ≡ some r) where
  others : (s : ℕ) → env.hw index ≢ some s → s ≢ r
  others s n h = n (rw h e)

  Removed-bp :
      target (env.dr 7) index ≡ in_breakpoints
      → (bp : Breakpoint) → bp.ref ≡ r
      → Removed env index (cpu_breakpoint_remove_by_ref env bp)
  unfolding cpu_breakpoint_remove_by_ref Live
  Removed-bp t bp b = record {
    same_hw = refl;
    same_dr = refl;
    others_live = λ u s n h.
        elim u
            as (λ u.
              (u ≡ target (env.dr 7) index → env.hw index ≢ some s)
              → Live u s env
              → Live u s (cpu_breakpoint_remove_by_ref env bp)) [
                | nothing ↦ λ n h. tt
                | in_watchpoints ↦ λ n h. h
                | in_breakpoints ↦ λ n h.
                    held-remove bp_ref s bp.ref env.breakpoints (rw b (others s (n (sym t)))) h
              ]
          n h;
  }

  Removed-wp :
      target (env.dr 7) index ≡ in_watchpoints
      → (wp : Watchpoint) → wp.ref ≡ r
      → Removed env index (cpu_watchpoint_remove_by_ref env wp)
  unfolding cpu_watchpoint_remove_by_ref Live
  Removed-wp t wp b = record {
    same_hw = refl;
    same_dr = refl;
    others_live = λ u s n h.
        elim u
            as (λ u.
              (u ≡ target (env.dr 7) index → env.hw index ≢ some s)
              → Live u s env
              → Live u s (cpu_watchpoint_remove_by_ref env wp)) [
                | nothing ↦ λ n h. tt
                | in_breakpoints ↦ λ n h. h
                | in_watchpoints ↦ λ n h.
                    held-remove wp_ref s wp.ref env.watchpoints (rw b (others s (n (sym t)))) h
              ]
          n h;
  }

  abbrev Done : Option Env → Type 0
  Done o = (env' : Env) × (o ≡ some env') × Removed env index env'

  unchanged : Done (some env)
  unchanged = (env, refl, record { same_hw = refl; same_dr = refl; others_live = λ t r n h. h })

  remove_inst_lem :
      (target (env.dr 7) index
        ≡ (if hw_breakpoint_enabled (env.dr 7) index then in_breakpoints else nothing))
      → Live (target (env.dr 7) index) r env
      → Done (remove_inst env index r)
  unfolding remove_inst Live
  remove_inst_lem t l = elim (Bool-cases (hw_breakpoint_enabled (env.dr 7) index)) [
    | inr g ↦ rw g unchanged
    | inl g ↦
        let t' = rw g at t in
        let (bp, f, b) = held-first bp_ref r env.breakpoints (rw t' at l) in
        rw (g, f) (_, refl, Removed-bp t' bp b)
  ]

  remove_data_lem :
      target (env.dr 7) index ≡ in_watchpoints
      → Live (target (env.dr 7) index) r env
      → Done (remove_data env r)
  unfolding remove_data Live
  remove_data_lem t l =
      let (wp, f, w) = held-first wp_ref r env.watchpoints (rw t at l) in
      rw (f, remove_data) (_, refl, Removed-wp t wp w)

pub remove_lem :
    (env : Env) (index : ℕ)
    → ((r : ℕ) → env.hw index ≡ some r → Live (target (env.dr 7) index) r env)
    → (env' : Env) × (hw_breakpoint_remove env index ≡ some env') × Removed env index env'
unfolding hw_breakpoint_remove target
remove_lem env index l = elim (Option-cases (env.hw index)) [
  | inl e ↦ (
    env,
    rw (e, hw_breakpoint_remove) refl,
    record { same_hw = refl; same_dr = refl; others_live = λ t r n h. h },
  )
  | inr (r, e) ↦ elim (type_cases (hw_breakpoint_type (env.dr 7) index)) [
    | inl k ↦
        rw (e, k, hw_breakpoint_remove)
          (remove_inst_lem env index r e (rw (k, target) refl) (l r e))
    | inr (inl k) ↦
        rw (e, k, hw_breakpoint_remove)
          (remove_data_lem env index r e (rw (k, target) refl) (l r e))
    | inr (inr (inl k)) ↦
        rw (e, k, hw_breakpoint_remove)
          (remove_data_lem env index r e (rw (k, target) refl) (l r e))
    | inr (inr (inr k)) ↦ rw (e, k, hw_breakpoint_remove) (unchanged env index r e)
  ]
]
