-- ===== src/Api/Regs/Access.antt =====
-- Reading back what `vx64_set_reg` wrote.
use fist_ame.Base.{ℕ, ◌≡◌, refl, ap, ◌∙◌, some, update, update_self, Bool, true, false}
use fist_ame.Cpu.{Env}
use fist_ame.Control.Flags.{cr3-cpu_x86_update_cr3}
use fist_ame.Hw.Live.Loops.{IsLive}
use fist_ame.Hw.Live.Safe.{IsFresh, helper_movl_drn_t0-IsLive}
use fist_ame.Api.Regs.{
  vxerr_ok, vxerr_fail, TransReg, vxr_eax, vxr_ecx, vxr_edx, vxr_ebx, vxr_esp, vxr_ebp, vxr_esi,
  vxr_edi, vxr_eflags, vxr_eip, vxr_es, vxr_cs, vxr_ss, vxr_ds, vxr_fs, vxr_gs, vxr_dr0, vxr_dr1,
  vxr_dr2, vxr_dr3, vxr_dr6, vxr_dr7, vxr_cr0, vxr_cr2, vxr_cr3, vxr_cr4, vxr_gdt, vxr_ldt, other,
  vx64_get_reg, vx64_set_reg, set_dr,
}

-- The registers that a host may write.
abbrev pub writable : TransReg → Bool
writable vxr_eax = true
writable vxr_ecx = true
writable vxr_edx = true
writable vxr_ebx = true
writable vxr_esp = true
writable vxr_ebp = true
writable vxr_esi = true
writable vxr_edi = true
writable vxr_eflags = true
writable vxr_eip = true
writable vxr_cr3 = true
writable vxr_dr0 = true
writable vxr_dr1 = true
writable vxr_dr2 = true
writable vxr_dr3 = true
writable vxr_dr6 = true
writable vxr_dr7 = true
writable vxr_es = false
writable vxr_cs = false
writable vxr_ss = false
writable vxr_ds = false
writable vxr_fs = false
writable vxr_gs = false
writable vxr_cr0 = false
writable vxr_cr2 = false
writable vxr_cr4 = false
writable vxr_gdt = false
writable vxr_ldt = false
writable other = false

abbrev pub Written : (ℕ → ℕ) → Env → TransReg → ℕ → Bool → Type 0
Written fresh env id v true =
    (env' : Env) × (vx64_set_reg fresh env id v ≡ some (vxerr_ok, env'))
    × (vx64_get_reg env' id ≡ some v)
Written fresh env id v false = vx64_set_reg fresh env id v ≡ some (vxerr_fail, env)

module _ (fresh : ℕ → ℕ) (env : Env) (v : ℕ) where
  stored : (f : ℕ → ℕ) (i : ℕ) → some (update f i v i) ≡ some v
  stored f i = ap (λ (x : ℕ). some x) (update_self f i v)

  set_dr_lem :
      (reg : ℕ)
      → IsLive env
      → IsFresh fresh env reg
      → (env' : Env) × (set_dr fresh env reg v ≡ some (vxerr_ok, env'))
        × (some (env'.dr reg) ≡ some v)
  unfolding set_dr
  set_dr_lem reg l f =
      let (env', e, _, d) = helper_movl_drn_t0-IsLive fresh env reg v l f in
      (env', rw (e, set_dr) refl, ap (λ (u : ℕ → ℕ). some (u reg)) d ∙ stored env.dr reg)

-- A register that the host may write reads back as what was written to it; any other is refused and
-- nothing changes. The pointers of the debug registers are live, and the addresses of new nodes
-- are fresh.
pub vx64_get_reg-vx64_set_reg :
    (fresh : ℕ → ℕ) (env : Env) (id : TransReg) (v : ℕ)
    → IsLive env
    → ((reg : ℕ) → IsFresh fresh env reg)
    → Written fresh env id v (writable id)
unfolding vx64_set_reg vx64_get_reg
vx64_get_reg-vx64_set_reg fresh env vxr_eax v l f = (_, refl, stored fresh env v env.regs 0)
vx64_get_reg-vx64_set_reg fresh env vxr_ecx v l f = (_, refl, stored fresh env v env.regs 1)
vx64_get_reg-vx64_set_reg fresh env vxr_edx v l f = (_, refl, stored fresh env v env.regs 2)
vx64_get_reg-vx64_set_reg fresh env vxr_ebx v l f = (_, refl, stored fresh env v env.regs 3)
vx64_get_reg-vx64_set_reg fresh env vxr_esp v l f = (_, refl, stored fresh env v env.regs 4)
vx64_get_reg-vx64_set_reg fresh env vxr_ebp v l f = (_, refl, stored fresh env v env.regs 5)
vx64_get_reg-vx64_set_reg fresh env vxr_esi v l f = (_, refl, stored fresh env v env.regs 6)
vx64_get_reg-vx64_set_reg fresh env vxr_edi v l f = (_, refl, stored fresh env v env.regs 7)
vx64_get_reg-vx64_set_reg fresh env vxr_eflags v l f = (_, refl, refl)
vx64_get_reg-vx64_set_reg fresh env vxr_eip v l f = (_, refl, refl)
vx64_get_reg-vx64_set_reg fresh env vxr_cr3 v l f =
    (_, refl, ap (λ (x : ℕ). some x) (cr3-cpu_x86_update_cr3 env v))
vx64_get_reg-vx64_set_reg fresh env vxr_dr0 v l f = set_dr_lem fresh env v 0 l (f 0)
vx64_get_reg-vx64_set_reg fresh env vxr_dr1 v l f = set_dr_lem fresh env v 1 l (f 1)
vx64_get_reg-vx64_set_reg fresh env vxr_dr2 v l f = set_dr_lem fresh env v 2 l (f 2)
vx64_get_reg-vx64_set_reg fresh env vxr_dr3 v l f = set_dr_lem fresh env v 3 l (f 3)
vx64_get_reg-vx64_set_reg fresh env vxr_dr6 v l f = set_dr_lem fresh env v 6 l (f 6)
vx64_get_reg-vx64_set_reg fresh env vxr_dr7 v l f = set_dr_lem fresh env v 7 l (f 7)
vx64_get_reg-vx64_set_reg fresh env vxr_es v l f = refl
vx64_get_reg-vx64_set_reg fresh env vxr_cs v l f = refl
vx64_get_reg-vx64_set_reg fresh env vxr_ss v l f = refl
vx64_get_reg-vx64_set_reg fresh env vxr_ds v l f = refl
vx64_get_reg-vx64_set_reg fresh env vxr_fs v l f = refl
vx64_get_reg-vx64_set_reg fresh env vxr_gs v l f = refl
vx64_get_reg-vx64_set_reg fresh env vxr_cr0 v l f = refl
vx64_get_reg-vx64_set_reg fresh env vxr_cr2 v l f = refl
vx64_get_reg-vx64_set_reg fresh env vxr_cr4 v l f = refl
vx64_get_reg-vx64_set_reg fresh env vxr_gdt v l f = refl
vx64_get_reg-vx64_set_reg fresh env vxr_ldt v l f = refl
vx64_get_reg-vx64_set_reg fresh env other v l f = refl
