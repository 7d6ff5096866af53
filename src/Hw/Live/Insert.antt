-- ===== src/Hw/Live/Insert.antt =====
-- `hw_breakpoint_insert` leaves a live pointer, or none.
use fist_ame.Base.{
  ℕ, ◌≡◌, ◌≢◌, refl, false, none, some, [], ◌∷◌, ◌++◌, update, update_ne, arith, Bool-cases, inl,
  inr, bit_or, nz, bit_and,
}
use fist_ame.Cpu.{Env, Watchpoint, bp_cpu, bp_gdb, bp_mem_write, bp_mem_access}
use fist_ame.Debug.Queues.{bp_ref, wp_ref}
use fist_ame.Debug.{cpu_breakpoint_insert, ok, einval, len_mask_of, cpu_watchpoint_insert, refused}
use fist_ame.Tlb.{tlb_flush_page}
use fist_ame.Hw.{
  store_pointer, hw_breakpoint_type, hw_breakpoint_enabled, hw_breakpoint_insert, insert_data,
  hw_breakpoint_len,
}
use fist_ame.Hw.Live.{
  held-append, held-insert, Target, nothing, in_breakpoints, in_watchpoints, target, Live,
  type_cases, grown,
}

-- The effect of one insertion.
pub record Inserted (fresh : ℕ) (env : Env) (index : ℕ) (env' : Env) : Type 0 where
  pub kept_dr : env'.dr ≡ env.dr
  pub all_live : (t : Target) (r : ℕ) → Live t r env → Live t r env'
  pub hw_other : (j : ℕ) → j ≢ index → env'.hw j ≡ env.hw j
  pub hw_here :
      (r : ℕ)
      → env'.hw index ≡ some r
      → target (env.dr 7) index ≢ nothing
      → (r ≡ fresh) × Live (target (env.dr 7) index) r env'

module _ (fresh : ℕ) (env : Env) (index : ℕ) where
  no_target : target (env.dr 7) index ≡ nothing → Inserted fresh env index env
  no_target t = record {
    kept_dr = refl;
    all_live = λ t r h. h;
    hw_other = λ j n. refl;
    hw_here = λ r h n. absurd (n t);
  }

  some_eq : (r s : ℕ) → update env.hw index (some r) index ≡ some s → s ≡ r
  some_eq r s h = ground (arith, h)

  not_none : (s : ℕ) → update env.hw index none index ≢ some s
  not_none s h = ground (arith, h)

  Inserted-bp :
      target (env.dr 7) index ≡ in_breakpoints
      → Inserted fresh env index (record (cpu_breakpoint_insert fresh env (env.dr index) bp_cpu).1 {
        hw = update env.hw index (some fresh);
      })
  unfolding cpu_breakpoint_insert Live
  Inserted-bp t = record {
    kept_dr = refl;
    all_live = grown _ _ (λ r h. held-append bp_ref r env.breakpoints _ h) (λ r h. h);
    hw_other = λ j n. update_ne env.hw index (some fresh) j n;
    hw_here = λ r h n.
        let s = some_eq fresh r h in
        (
          s,
          rw (t, s)
              (held-insert bp_ref (record { ref = fresh; pc = env.dr index; flags = bp_cpu })
                env.breakpoints),
        );
  }

  Inserted-wp :
      (type : ℕ)
      → nz (bit_and type bp_gdb) ≡ false
      → target (env.dr 7) index ≡ in_watchpoints
      → Inserted fresh env index (insert_data fresh env index type)
  unfolding cpu_watchpoint_insert Live insert_data store_pointer
  Inserted-wp type g t =
      let result =
        cpu_watchpoint_insert fresh env (env.dr index) (hw_breakpoint_len (env.dr 7) index) type in
      elim (Bool-cases (refused (env.dr index) (hw_breakpoint_len (env.dr 7) index))) [
        | inl e ↦
            let r : result ≡ (einval, env) = rw (e, cpu_watchpoint_insert) refl in
            rw (r, insert_data)
              (record {
                kept_dr = refl;
                all_live = grown _ _ (λ r h. h) (λ r h. h);
                hw_other = λ j n. update_ne env.hw index none j n;
                hw_here = λ r h n. absurd (not_none r h);
              })
        | inr e ↦
            let wp : Watchpoint = record {
              ref = fresh;
              vaddr = env.dr index;
              len_mask = len_mask_of (hw_breakpoint_len (env.dr 7) index);
              flags = type;
            } in
            let tlb = tlb_flush_page env.tlb (env.dr index) in
            let r : result
                ≡ (ok, record env { watchpoints = env.watchpoints ++ wp ∷ []; tlb = tlb }) =
              rw (e, g, cpu_watchpoint_insert) refl in
            rw (r, insert_data)
              (record {
                kept_dr = refl;
                all_live =
                    grown _ _ (λ r h. h) (λ r h. held-append wp_ref r env.watchpoints (wp ∷ []) h);
                hw_other = λ j n. update_ne env.hw index (some fresh) j n;
                hw_here = λ r h n.
                    let s = some_eq fresh r h in
                    (s, rw (t, s) (held-insert wp_ref wp env.watchpoints));
              })
      ]

pub insert_lem :
    (fresh : ℕ) (env : Env) (index : ℕ)
    → Inserted fresh env index (hw_breakpoint_insert fresh env index)
unfolding hw_breakpoint_insert target
insert_lem fresh env index = elim (type_cases (hw_breakpoint_type (env.dr 7) index)) [
  | inl k ↦ elim (Bool-cases (hw_breakpoint_enabled (env.dr 7) index)) [
    | inl g ↦ rw (k, g, hw_breakpoint_insert) (Inserted-bp fresh env index (rw (k, g, target) refl))
    | inr g ↦ rw (k, g, hw_breakpoint_insert) (no_target fresh env index (rw (k, g, target) refl))
  ]
  | inr (inl k) ↦
      rw (k, hw_breakpoint_insert)
        (Inserted-wp fresh env index (bit_or bp_cpu bp_mem_write) refl (rw (k, target) refl))
  | inr (inr (inl k)) ↦
      rw (k, hw_breakpoint_insert)
        (Inserted-wp fresh env index (bit_or bp_cpu bp_mem_access) refl (rw (k, target) refl))
  | inr (inr (inr k)) ↦
      rw (k, hw_breakpoint_insert) (no_target fresh env index (rw (k, target) refl))
]
