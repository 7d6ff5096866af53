-- ===== src/Control/Flags.antt =====
-- The effects of the control register writes on the other control state.
use fist_ame.Base.{
  ℕ, ◌-◌, ◌≡◌, ◌<◌, refl, ap, ◌∙◌, sym, true, false, ◌==◌, bit_and, bit_or, bit_xor, ◌^◌, bit,
  bit-bit_or, bit-bit_and, bit_and_flag, min, max, update_self, arith, Bool-cases, inl, inr, ==_iff,
}
use native.Mathlib.Nat.{one-le-pow}
use fist_ame.Cpu.{
  Env, cr0_pe_mask, cr0_et_mask, cr0_pg_mask, cr4_pae_mask, msr_efer_lme, msr_efer_lma, hf_lma_mask,
  hf_cs64_mask,
}
use fist_ame.Control.{
  has, clear, cpu_x86_update_cr0, cpu_x86_update_cr3, cr0_flush, cr0_flush_mask, cr0_switch,
  cr0_store,
}

pub cr3-cpu_x86_update_cr3 : (env : Env) (v : ℕ) → (cpu_x86_update_cr3 env v).cr 3 ≡ v
unfolding cpu_x86_update_cr3
cr3-cpu_x86_update_cr3 env v = elim (Bool-cases (has (env.cr 0) cr0_pg_mask)) [
  | inl e ↦ rw e (update_self env.cr 3 v)
  | inr e ↦ rw e (update_self env.cr 3 v)
]

-- A test of one flag is a test of its bit.
pub has-bit : (k x : ℕ) → has x (2 ^ k) ≡ (bit x k == 1)
has-bit k x = elim (Bool-cases (bit x k == 1)) [
  | inl e ↦
      let b = (==_iff (bit x k) 1).0 e in
      let p : bit_and x (2 ^ k) ≡ 2 ^ k = bit_and_flag k x ∙ rw b (omega arith) in
      rw (p, e) (ground (arith, one-le-pow k 2 (omega arith)))
  | inr e ↦
      let b : bit x k ≡ 0 = ground (arith, e) in
      let p : bit_and x (2 ^ k) ≡ 0 = bit_and_flag k x ∙ rw b (omega arith) in rw (p, e) refl
]

pub has-true : (k x : ℕ) → has x (2 ^ k) ≡ true → bit x k ≡ 1
has-true k x h = (==_iff (bit x k) 1).0 (sym (has-bit k x) ∙ h)

pub has-false : (k x : ℕ) → has x (2 ^ k) ≡ false → bit x k ≡ 0
has-false k x h = ground (arith, sym (has-bit k x) ∙ h)

-- CR0.PE as the code takes it out of the new value, and its complement.
pe_lem : (x : ℕ) → bit_and (bit_or x cr0_et_mask) cr0_pe_mask ≡ bit x 0
pe_lem x = omega (arith, bit_and_flag 0 (bit_or x cr0_et_mask), bit-bit_or x cr0_et_mask 0)

xor_one : (b : ℕ) → b < 2 → bit_xor b 1 ≡ 1 - b
xor_one b h = elim (Bool-cases (b == 0)) [
  | inl e ↦ let p = (==_iff b 0).0 e in rw p refl
  | inr e ↦ let p : b ≡ 1 = ground (arith, e, h) in rw p refl
]

module _ (env : Env) (new_cr0 : ℕ) where
  store_pe : bit (cr0_store env new_cr0).hflags 7 ≡ bit new_cr0 0
  unfolding cr0_store
  store_pe =
      simp (bit-bit_or, bit-bit_and)
        (omega (
          arith,
          pe_lem new_cr0,
          ap (λ (t : ℕ). bit_xor t 1) (pe_lem new_cr0),
          xor_one (bit new_cr0 0) (omega arith),
        ))

  store_lma : bit (cr0_store env new_cr0).hflags 14 ≡ bit env.hflags 14
  unfolding cr0_store
  store_lma =
      simp (bit-bit_or, bit-bit_and)
        (omega (
          arith,
          pe_lem new_cr0,
          ap (λ (t : ℕ). bit_xor t 1) (pe_lem new_cr0),
          xor_one (bit new_cr0 0) (omega arith),
        ))

  store_cr0 :
      (k : ℕ) → bit ((cr0_store env new_cr0).cr 0) k ≡ max (bit new_cr0 k) (bit cr0_et_mask k)
  unfolding cr0_store
  store_cr0 k =
      ap (λ (t : ℕ). bit t k) (update_self env.cr 0 (bit_or new_cr0 cr0_et_mask))
      ∙ bit-bit_or new_cr0 cr0_et_mask k

-- The copies of control bits in the hidden flags agree with the bits that they copy: HF_PE with
-- CR0.PE and HF_LMA with EFER.LMA; and long mode is active, EFER.LMA, exactly where paging is on,
-- CR0.PG, and long mode enabled, EFER.LME.
pub record IsConsistent (env : Env) : Type 0 where
  pub pe : bit env.hflags 7 ≡ bit (env.cr 0) 0
  pub lma : bit env.hflags 14 ≡ bit env.efer 10
  pub active : bit env.efer 10 ≡ min (bit (env.cr 0) 31) (bit env.efer 8)

-- What `cpu_x86_update_cr0` does before it stores the new value leaves these bits right.
store-IsConsistent :
    (env : Env) (new_cr0 : ℕ)
    → bit env.hflags 14 ≡ bit env.efer 10
    → bit env.efer 10 ≡ min (bit new_cr0 31) (bit env.efer 8)
    → IsConsistent (cr0_store env new_cr0)
unfolding cr0_store
store-IsConsistent env new_cr0 l a = record {
  pe = store_pe env new_cr0 ∙ omega (arith, store_cr0 env new_cr0 0);
  lma = store_lma env new_cr0 ∙ l;
  active = omega (arith, a, store_cr0 env new_cr0 31);
}

flush-IsConsistent :
    (env : Env) (new_cr0 : ℕ) → IsConsistent env → IsConsistent (cr0_flush env new_cr0)
unfolding cr0_flush
flush-IsConsistent env new_cr0 c =
    elim (Bool-cases (bit_and new_cr0 cr0_flush_mask == bit_and (env.cr 0) cr0_flush_mask)) [
      | inl e ↦ rw (e, cr0_flush) c
      | inr e ↦ rw (e, cr0_flush) (record { pe = c.pe; lma = c.lma; active = c.active })
    ]

module _ (env : Env) (new_cr0 : ℕ) (c : IsConsistent env) where
  entered :
      bit new_cr0 31 ≡ 1
      → bit env.efer 8 ≡ 1
      → IsConsistent (
          cr0_store
            (record env {
              efer = bit_or env.efer msr_efer_lma;
              hflags = bit_or env.hflags hf_lma_mask;
            })
            new_cr0)
  entered p e =
      store-IsConsistent _ new_cr0 (simp (bit-bit_or) (omega arith))
        (simp (bit-bit_or) (omega (arith, p, e)))

  left :
      bit new_cr0 31 ≡ 0
      → IsConsistent (
          cr0_store
            (record env {
              efer = clear env.efer msr_efer_lma;
              hflags = clear env.hflags (bit_or hf_lma_mask hf_cs64_mask);
              eip = bit_and env.eip 0xffff_ffff;
            })
            new_cr0)
  left p =
      store-IsConsistent _ new_cr0 (simp (bit-bit_and) (omega arith))
        (simp (bit-bit_and) (omega (arith, p)))

  kept :
      min (bit (env.cr 0) 31) (bit env.efer 8) ≡ min (bit new_cr0 31) (bit env.efer 8)
      → IsConsistent (cr0_store env new_cr0)
  kept p = store-IsConsistent env new_cr0 c.lma (c.active ∙ p)

  switch-IsConsistent : IsConsistent (cr0_switch env new_cr0)
  unfolding cr0_switch
  switch-IsConsistent = elim (Bool-cases (has (env.cr 0) cr0_pg_mask)) [
    | inl o ↦ elim (Bool-cases (has new_cr0 cr0_pg_mask)) [
      | inl n ↦
          rw (o, n, cr0_switch)
            (kept (omega (arith, has-true 31 (env.cr 0) o, has-true 31 new_cr0 n)))
      | inr n ↦ elim (Bool-cases (has env.efer msr_efer_lma)) [
        | inl m ↦ rw (o, n, m, cr0_switch) (left (has-false 31 new_cr0 n))
        | inr m ↦
            rw (o, n, m, cr0_switch)
              (kept (omega (arith, c.active, has-false 10 env.efer m, has-false 31 new_cr0 n)))
      ]
    ]
    | inr o ↦ elim (Bool-cases (has new_cr0 cr0_pg_mask)) [
      | inl n ↦ elim (Bool-cases (has env.efer msr_efer_lme)) [
        | inl m ↦ elim (Bool-cases (has (env.cr 4) cr4_pae_mask)) [
          | inl q ↦
              rw (o, n, m, q, cr0_switch) (entered (has-true 31 new_cr0 n) (has-true 8 env.efer m))
          | inr q ↦ rw (o, n, m, q, cr0_switch) c
        ]
        | inr m ↦ rw (o, n, m, cr0_switch) (kept (omega (arith, has-false 8 env.efer m)))
      ]
      | inr n ↦
          rw (o, n, cr0_switch)
            (kept (omega (arith, has-false 31 (env.cr 0) o, has-false 31 new_cr0 n)))
    ]
  ]

-- A write of CR0 keeps the hidden flags consistent with CR0 and EFER on each branch: long mode
-- entered, left, refused for want of CR4.PAE, or not concerned.
pub cpu_x86_update_cr0-IsConsistent :
    (env : Env) (new_cr0 : ℕ) → IsConsistent env → IsConsistent (cpu_x86_update_cr0 env new_cr0)
unfolding cpu_x86_update_cr0
cpu_x86_update_cr0-IsConsistent env new_cr0 c =
    switch-IsConsistent (cr0_flush env new_cr0) new_cr0 (flush-IsConsistent env new_cr0 c)

-- Where long mode is enabled and may be entered, turning paging on enters it.
pub cpu_x86_update_cr0-enter :
    (env : Env) (new_cr0 : ℕ)
    → has (env.cr 0) cr0_pg_mask ≡ false
    → has new_cr0 cr0_pg_mask ≡ true
    → has env.efer msr_efer_lme ≡ true
    → has (env.cr 4) cr4_pae_mask ≡ true
    → ((cpu_x86_update_cr0 env new_cr0).cr 0 ≡ bit_or new_cr0 cr0_et_mask)
      × ((cpu_x86_update_cr0 env new_cr0).efer ≡ bit_or env.efer msr_efer_lma)
      × ((cpu_x86_update_cr0 env new_cr0).tb ≡ env.tb)
unfolding cpu_x86_update_cr0 cr0_flush cr0_switch cr0_store
cpu_x86_update_cr0-enter env new_cr0 o n m q =
    elim (Bool-cases (bit_and new_cr0 cr0_flush_mask == bit_and (env.cr 0) cr0_flush_mask)) [
      | inl e ↦ rw (cr0_flush, e, cr0_switch, o, n, m, q, cr0_store) (refl, refl, refl)
      | inr e ↦ rw (cr0_flush, e, cr0_switch, o, n, m, q, cr0_store) (refl, refl, refl)
    ]

-- A value without CR0.PG is always stored.
pub cpu_x86_update_cr0-plain :
    (env : Env) (new_cr0 : ℕ)
    → has new_cr0 cr0_pg_mask ≡ false
    → ((cpu_x86_update_cr0 env new_cr0).cr 0 ≡ bit_or new_cr0 cr0_et_mask)
      × ((cpu_x86_update_cr0 env new_cr0).tb ≡ env.tb)
unfolding cpu_x86_update_cr0 cr0_flush cr0_switch cr0_store
cpu_x86_update_cr0-plain env new_cr0 n =
    elim (Bool-cases (bit_and new_cr0 cr0_flush_mask == bit_and (env.cr 0) cr0_flush_mask)) [
      | inl e ↦ elim (Bool-cases (has (env.cr 0) cr0_pg_mask)) [
        | inl o ↦ elim (Bool-cases (has env.efer msr_efer_lma)) [
          | inl m ↦ rw (cr0_flush, e, cr0_switch, o, n, m, cr0_store) (refl, refl)
          | inr m ↦ rw (cr0_flush, e, cr0_switch, o, n, m, cr0_store) (refl, refl)
        ]
        | inr o ↦ rw (cr0_flush, e, cr0_switch, o, n, cr0_store) (refl, refl)
      ]
      | inr e ↦ elim (Bool-cases (has (env.cr 0) cr0_pg_mask)) [
        | inl o ↦ elim (Bool-cases (has env.efer msr_efer_lma)) [
          | inl m ↦ rw (cr0_flush, e, cr0_switch, o, n, m, cr0_store) (refl, refl)
          | inr m ↦ rw (cr0_flush, e, cr0_switch, o, n, m, cr0_store) (refl, refl)
        ]
        | inr o ↦ rw (cr0_flush, e, cr0_switch, o, n, cr0_store) (refl, refl)
      ]
    ]
