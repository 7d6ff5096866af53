-- ===== src/Control/Steps.antt =====
-- The control state over any sequence of the calls that change it.
use fist_ame.Base.{
  ℕ, ◌≡◌, ◌<◌, refl, ap, ◌∙◌, sym, Bool, true, false, ◌&&◌, ◌||◌, not, nz, ◌==◌, bit, bit_or,
  bit-bit_or, bit-bit_and, bit_and_flag, update, arith, Bool-cases, inl, inr,
}
use fist_ame.Cpu.{
  Env, Segment, r_es, r_cs, r_ss, r_ds, cr0_pe_mask, cr0_pg_mask, hf_lma_mask, hf_cs64_mask,
  hf_cs32_mask, hf_osfxsr_mask, hf_smap_mask, desc_l_mask, vm_mask, cpuid_sse, cpuid_7_0_ebx_smap,
}
use fist_ame.Control.{
  has, cpu_x86_update_cr0, cpu_x86_update_cr3, cpu_x86_update_cr4, cpu_x86_load_seg_cache,
  cpu_x86_set_cpl, cs_hflags, ss_hflags, with_cs, with_ss, copy_flag,
}
use fist_ame.Control.Flags.{IsConsistent, cpu_x86_update_cr0-IsConsistent}

-- Hidden flags that agree on HF_PE and HF_LMA.
abbrev Same : ℕ → ℕ → Type 0
Same h g = (bit h 7 ≡ bit g 7) × (bit h 14 ≡ bit g 14)

Same-IsConsistent :
    (env env' : Env)
    → env'.efer ≡ env.efer
    → env'.cr 0 ≡ env.cr 0
    → Same env'.hflags env.hflags
    → IsConsistent env
    → IsConsistent env'
Same-IsConsistent env env' e r s c = record {
  pe = s.0 ∙ c.pe ∙ ap (λ (t : ℕ). bit t 0) (sym r);
  lma = s.1 ∙ c.lma ∙ ap (λ (t : ℕ). bit t 10) (sym e);
  active = rw (e, r) c.active;
}

cs_hflags-Same : (env : Env) (flags : ℕ) → Same (cs_hflags env flags) env.hflags
unfolding cs_hflags
cs_hflags-Same env flags = elim (Bool-cases (has env.hflags hf_lma_mask && has flags desc_l_mask)) [
  | inl e ↦
      rw (e, cs_hflags)
        (simp (bit-bit_or, bit-bit_and) (omega arith), simp (bit-bit_or, bit-bit_and) (omega arith))
  | inr e ↦
      rw (e, cs_hflags)
        (
          simp (bit-bit_or, bit-bit_and) (omega (arith, bit_and_flag 22 flags)),
          simp (bit-bit_or, bit-bit_and) (omega (arith, bit_and_flag 22 flags)),
        )
]

ss_hflags-Same : (env : Env) → Same (ss_hflags env) env.hflags
unfolding ss_hflags
ss_hflags-Same env =
    let ss = (env.segs r_ss).flags in
    let bases = bit_or (bit_or (env.segs r_ds).base (env.segs r_es).base) (env.segs r_ss).base in
    let real =
      not (has (env.cr 0) cr0_pe_mask)
      || has env.eflags vm_mask
      || not (has env.hflags hf_cs32_mask) in
    elim (Bool-cases (has env.hflags hf_cs64_mask)) [
      | inl e ↦
          rw (e, ss_hflags)
            (
              simp (bit-bit_or, bit-bit_and) (omega (arith, bit_and_flag 22 ss)),
              simp (bit-bit_or, bit-bit_and) (omega (arith, bit_and_flag 22 ss)),
            )
      | inr e ↦ elim (Bool-cases real) [
        | inl g ↦
            rw (e, g, ss_hflags)
              (
                simp (bit-bit_or, bit-bit_and) (omega (arith, bit_and_flag 22 ss)),
                simp (bit-bit_or, bit-bit_and) (omega (arith, bit_and_flag 22 ss)),
              )
        | inr g ↦ elim (Bool-cases (nz bases)) [
          | inl n ↦
              rw (e, g, n, ss_hflags)
                (
                  simp (bit-bit_or, bit-bit_and) (omega (arith, bit_and_flag 22 ss)),
                  simp (bit-bit_or, bit-bit_and) (omega (arith, bit_and_flag 22 ss)),
                )
          | inr n ↦
              rw (e, g, n, ss_hflags)
                (
                  simp (bit-bit_or, bit-bit_and) (omega (arith, bit_and_flag 22 ss)),
                  simp (bit-bit_or, bit-bit_and) (omega (arith, bit_and_flag 22 ss)),
                )
        ]
      ]
    ]

with_cs-IsConsistent :
    (env : Env) (seg_reg flags : ℕ) → IsConsistent env → IsConsistent (with_cs env seg_reg flags)
unfolding with_cs
with_cs-IsConsistent env seg_reg flags c = elim (Bool-cases (seg_reg == r_cs)) [
  | inl e ↦
      rw (e, with_cs)
        (Same-IsConsistent env (record env { hflags = cs_hflags env flags }) refl refl
          (cs_hflags-Same env flags) c)
  | inr e ↦ rw (e, with_cs) c
]

seg_cache-IsConsistent :
    (env : Env) (seg_reg selector base limit flags : ℕ)
    → IsConsistent env
    → IsConsistent (cpu_x86_load_seg_cache env seg_reg selector base limit flags)
unfolding cpu_x86_load_seg_cache with_ss
seg_cache-IsConsistent env seg_reg selector base limit flags c =
    let sc : Segment = record { selector = selector; base = base; limit = limit; flags = flags } in
    let stored = record env { segs = update env.segs seg_reg sc } in
    let c1 : IsConsistent stored = record { pe = c.pe; lma = c.lma; active = c.active } in
    let cs = with_cs stored seg_reg flags in
    Same-IsConsistent cs (record cs { hflags = ss_hflags cs }) refl refl (ss_hflags-Same cs)
      (with_cs-IsConsistent stored seg_reg flags c1)

cr3-IsConsistent : (env : Env) (v : ℕ) → IsConsistent env → IsConsistent (cpu_x86_update_cr3 env v)
unfolding cpu_x86_update_cr3
cr3-IsConsistent env v c = elim (Bool-cases (has (env.cr 0) cr0_pg_mask)) [
  | inl e ↦ rw (e, cpu_x86_update_cr3) (record { pe = c.pe; lma = c.lma; active = c.active })
  | inr e ↦ rw (e, cpu_x86_update_cr3) (record { pe = c.pe; lma = c.lma; active = c.active })
]

osfxsr-Same : (h : ℕ) (b : Bool) → Same (copy_flag h hf_osfxsr_mask b) h
osfxsr-Same h true =
    (simp (bit-bit_or, bit-bit_and) (omega arith), simp (bit-bit_or, bit-bit_and) (omega arith))
osfxsr-Same h false =
    (simp (bit-bit_or, bit-bit_and) (omega arith), simp (bit-bit_or, bit-bit_and) (omega arith))

smap-Same : (h : ℕ) (b : Bool) → Same (copy_flag h hf_smap_mask b) h
smap-Same h true =
    (simp (bit-bit_or, bit-bit_and) (omega arith), simp (bit-bit_or, bit-bit_and) (omega arith))
smap-Same h false =
    (simp (bit-bit_or, bit-bit_and) (omega arith), simp (bit-bit_or, bit-bit_and) (omega arith))

pub cr4-IsConsistent :
    (env : Env) (v : ℕ) → IsConsistent env → IsConsistent (cpu_x86_update_cr4 env v)
unfolding cpu_x86_update_cr4
cr4-IsConsistent env v c =
    let (p, q) = smap-Same _ _ in
    let (u, w) = osfxsr-Same env.hflags _ in Same-IsConsistent env _ refl refl (p ∙ u, q ∙ w) c

pub cpl-IsConsistent :
    (env : Env) (cpl : ℕ) → cpl < 4 → IsConsistent env → IsConsistent (cpu_x86_set_cpl env cpl)
unfolding cpu_x86_set_cpl
cpl-IsConsistent env cpl h c =
    Same-IsConsistent env _ refl refl
      (
        simp (bit-bit_or, bit-bit_and) (omega (arith, h)),
        simp (bit-bit_or, bit-bit_and) (omega (arith, h)),
      )
      c

-- A call that changes the control state; a privilege level has two bits.
pub data Step : Env → Env → Type 0 where
  update_cr0 : (env : Env) (v : ℕ) → Step env (cpu_x86_update_cr0 env v)
  update_cr3 : (env : Env) (v : ℕ) → Step env (cpu_x86_update_cr3 env v)
  update_cr4 : (env : Env) (v : ℕ) → Step env (cpu_x86_update_cr4 env v)
  load_seg :
      (env : Env) (seg_reg selector base limit flags : ℕ)
      → Step env (cpu_x86_load_seg_cache env seg_reg selector base limit flags)
  set_cpl : (env : Env) (cpl : ℕ) → cpl < 4 → Step env (cpu_x86_set_cpl env cpl)

pub data Reach (env : Env) : Env → Type 0 where
  here : Reach env env
  next : {e f : Env} → Reach env e → Step e f → Reach env f

Step-IsConsistent : {e f : Env} → Step e f → IsConsistent e → IsConsistent f
Step-IsConsistent (update_cr0 env v) c = cpu_x86_update_cr0-IsConsistent env v c
Step-IsConsistent (update_cr3 env v) c = cr3-IsConsistent env v c
Step-IsConsistent (update_cr4 env v) c = cr4-IsConsistent env v c
Step-IsConsistent (load_seg env seg_reg selector base limit flags) c =
    seg_cache-IsConsistent env seg_reg selector base limit flags c
Step-IsConsistent (set_cpl env cpl h) c = cpl-IsConsistent env cpl h c

-- Over any sequence of writes of CR0, CR3 and CR4, segment loads and changes of the privilege level,
-- HF_PE stays the copy of CR0.PE, HF_LMA that of EFER.LMA, and EFER.LMA says that CR0.PG and
-- EFER.LME are set.
pub Reach-IsConsistent : {e f : Env} → IsConsistent e → Reach e f → IsConsistent f
Reach-IsConsistent c here = c
Reach-IsConsistent c (next r s) = Step-IsConsistent s (Reach-IsConsistent c r)

pub efer-IsConsistent :
    (env : Env) (hflags efer : ℕ)
    → IsConsistent env
    → bit (env.cr 0) 31 ≡ 0
    → bit efer 10 ≡ 0
    → bit hflags 7 ≡ bit env.hflags 7
    → bit hflags 14 ≡ 0
    → IsConsistent (record env { efer = efer; hflags = hflags })
efer-IsConsistent env hflags efer c p e h l = record {
  pe = h ∙ c.pe;
  lma = l ∙ sym e;
  active = omega (arith, p, e);
}

pub cr4-pae :
    (env : Env) (v : ℕ)
    → bit v 5 ≡ 1
    → (bit ((cpu_x86_update_cr4 env v).cr 4) 5 ≡ 1)
      × ((cpu_x86_update_cr4 env v).cr 0 ≡ env.cr 0)
      × ((cpu_x86_update_cr4 env v).efer ≡ env.efer)
      × ((cpu_x86_update_cr4 env v).tb ≡ env.tb)
unfolding cpu_x86_update_cr4
cr4-pae env v h = elim (Bool-cases (has env.cpuid_features cpuid_sse)) [
  | inl e ↦ elim (Bool-cases (has env.cpuid_7_0_ebx_features cpuid_7_0_ebx_smap)) [
    | inl g ↦ rw (e, g) (h, refl, refl, refl)
    | inr g ↦ rw (e, g) (simp bit-bit_and (omega (arith, h)), refl, refl, refl)
  ]
  | inr e ↦ elim (Bool-cases (has env.cpuid_7_0_ebx_features cpuid_7_0_ebx_smap)) [
    | inl g ↦ rw (e, g) (simp bit-bit_and (omega (arith, h)), refl, refl, refl)
    | inr g ↦ rw (e, g) (simp bit-bit_and (omega (arith, h)), refl, refl, refl)
  ]
]

pub tb-cpu_x86_set_cpl : (env : Env) (cpl : ℕ) → (cpu_x86_set_cpl env cpl).tb ≡ env.tb
unfolding cpu_x86_set_cpl
tb-cpu_x86_set_cpl env cpl = refl
