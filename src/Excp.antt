-- ===== src/Excp.antt =====
-- target-i386/excp_helper.c: how an exception or a software interrupt is raised, with the intercepts
-- of svm_helper.c. To leave by cpu_loop_exit or helper_vmexit is a value.
pub mod Faults
use fist_ame.Cpu.{Env, hf_svmi_mask, excp_dble, excp_hlt, excp_page}
use fist_ame.Base.{
  true, w32, w64, ◌%◌, ◌/◌, ◌*◌, leb, ◌==◌, nz, if◌then◌else◌, add64, ℕ, ◌+◌, ◌-◌, ◌^◌, bit_and,
  Bool, false, not, ◌&&◌, ◌||◌,
}

abbrev pub svm_exit_read_cr0 : ℕ
svm_exit_read_cr0 = 0

abbrev pub svm_exit_write_cr0 : ℕ
svm_exit_write_cr0 = 0x10

abbrev pub svm_exit_read_dr0 : ℕ
svm_exit_read_dr0 = 0x20

abbrev pub svm_exit_write_dr0 : ℕ
svm_exit_write_dr0 = 0x30

abbrev pub svm_exit_excp_base : ℕ
svm_exit_excp_base = 0x40

abbrev pub svm_exit_intr : ℕ
svm_exit_intr = 0x60

abbrev pub svm_exit_swint : ℕ
svm_exit_swint = 0x75

abbrev pub svm_exit_msr : ℕ
svm_exit_msr = 0x7c

abbrev pub svm_exit_shutdown : ℕ
svm_exit_shutdown = 0x7f

-- offsetof(struct vmcb, control.msrpm_base_pa)
abbrev pub msrpm_base_pa : ℕ
msrpm_base_pa = 0x48

-- `case base ... base + n`, and the bit of the type in a mask.
abbrev in_case : ℕ → ℕ → ℕ → Bool
in_case type base n = leb base type && leb type (base + n)

abbrev bit_of : ℕ → ℕ → ℕ → Bool
bit_of mask type base = nz (bit_and mask (2 ^ (type - base)))

-- The bit of a read (0) or a write (1) of the MSR in ECX, in the bitmap of the guest; a number without
-- a bit is intercepted.
bitmap_bit : (ℕ → ℕ) → ℕ → ℕ → ℕ → Bool
bitmap_bit ldub_phys addr t param =
    nz (bit_and (ldub_phys (add64 addr (t / 8))) (2 ^ param * 2 ^ (t % 8)))

is_msr_intercepted : (ldq_phys ldub_phys : ℕ → ℕ) → Env → ℕ → Bool
unfolding bitmap_bit
is_msr_intercepted ldq_phys ldub_phys env param =
    let addr = ldq_phys (add64 env.vm_vmcb msrpm_base_pa) in
    let ecx = env.regs 1 in
    let low = ecx % w32 in
    if leb low 0x1fff
    then nz
        (bit_and (ldub_phys (add64 addr (ecx * 2 % w64 / 8 % w32))) (2 ^ param * 2 ^ (ecx * 2 % 8)))
    else (if in_case low 0xc000_0000 0x1fff
        then bitmap_bit ldub_phys addr ((8192 + low - 0xc000_0000) * 2) param
        else (if in_case low 0xc001_0000 0x1fff
            then bitmap_bit ldub_phys addr ((16384 + low - 0xc001_0000) * 2) param
            else true))

-- `helper_svm_check_intercept_param`: whether it calls helper_vmexit. `ldq_phys` and `ldub_phys` read
-- the memory of the guest.
pub is_intercepted : (ldq_phys ldub_phys : ℕ → ℕ) → Env → ℕ → ℕ → Bool
unfolding is_msr_intercepted
is_intercepted ldq_phys ldub_phys env type param =
    if not (nz (bit_and env.hflags hf_svmi_mask))
    then false
    else (if in_case type svm_exit_read_cr0 8
        then bit_of env.intercept_cr_read type svm_exit_read_cr0
        else (if in_case type svm_exit_write_cr0 8
            then bit_of env.intercept_cr_write type svm_exit_write_cr0
            else (if in_case type svm_exit_read_dr0 7
                then bit_of env.intercept_dr_read type svm_exit_read_dr0
                else (if in_case type svm_exit_write_dr0 7
                    then bit_of env.intercept_dr_write type svm_exit_write_dr0
                    else (if in_case type svm_exit_excp_base 31
                        then bit_of env.intercept_exceptions type svm_exit_excp_base
                        else (if type == svm_exit_msr
                            then bit_of env.intercept svm_exit_msr svm_exit_intr
                              && is_msr_intercepted ldq_phys ldub_phys env param
                            else bit_of env.intercept type svm_exit_intr))))))

-- cpu_loop_exit with the exception in the CPU, or helper_vmexit with an exit code and its information.
pub data Raised : Type 0 where
  loop_exit : Env → Raised
  vmexit : (code info : ℕ) → Env → Raised

-- `check_exception`: the new exception number and error code, or the shutdown of a nested guest.
pub data Checked : Type 0 where
  checked : Env → (intno error_code : ℕ) → Checked
  shutdown : Checked

is_contributory : ℕ → Bool
is_contributory n = n == 0 || (leb 10 n && leb n 13)

-- The end of `check_exception`, with the new number.
remembered : Env → Bool → ℕ → ℕ → Checked
remembered env second_contributory intno error_code =
    checked
      (record env {
        old_exception =
            if second_contributory || intno == excp_page || intno == excp_dble
            then intno
            else env.old_exception;
      })
      intno error_code

pub check_exception : Env → ℕ → ℕ → Checked
unfolding is_contributory remembered
check_exception env intno error_code =
    let first_contributory = is_contributory env.old_exception in
    let second_contributory = is_contributory intno in
    if env.old_exception == excp_dble
    then (if nz (bit_and env.hflags hf_svmi_mask)
        then shutdown
        else checked env excp_hlt error_code)
    else (if first_contributory && second_contributory
          || env.old_exception == excp_page && (second_contributory || intno == excp_page)
        then remembered env second_contributory excp_dble 0
        else remembered env second_contributory intno error_code)

raised : Env → (intno is_int error_code next_eip_addend : ℕ) → Raised
raised env intno is_int error_code next_eip_addend = loop_exit (record env {
  exception_index = intno;
  error_code = error_code;
  exception_is_int = is_int;
  exception_next_eip = add64 env.eip next_eip_addend;
})

module _ (ldq_phys ldub_phys : ℕ → ℕ) where
  pub raise_interrupt2 : Env → (intno is_int error_code next_eip_addend : ℕ) → Raised
  unfolding raised
  raise_interrupt2 env intno is_int error_code next_eip_addend =
      if is_int == 0
      then (if is_intercepted ldq_phys ldub_phys env (svm_exit_excp_base + intno) error_code
          then vmexit (svm_exit_excp_base + intno) error_code env
          else elim (check_exception env intno error_code) [
            | shutdown ↦ vmexit svm_exit_shutdown 0 env
            | checked env' intno' error_code' ↦
                raised env' intno' is_int error_code' next_eip_addend
          ])
      else (if is_intercepted ldq_phys ldub_phys env svm_exit_swint 0
          then vmexit svm_exit_swint 0 env
          else raised env intno is_int error_code next_eip_addend)

  pub raise_interrupt : Env → (intno is_int error_code next_eip_addend : ℕ) → Raised
  unfolding raise_interrupt2
  raise_interrupt env intno is_int error_code next_eip_addend =
      raise_interrupt2 env intno is_int error_code next_eip_addend

  pub raise_exception_err : Env → (exception_index error_code : ℕ) → Raised
  unfolding raise_interrupt2
  raise_exception_err env exception_index error_code =
      raise_interrupt2 env exception_index 0 error_code 0

  pub raise_exception : Env → ℕ → Raised
  unfolding raise_interrupt2
  raise_exception env exception_index = raise_interrupt2 env exception_index 0 0 0

  pub helper_raise_interrupt : Env → (intno next_eip_addend : ℕ) → Raised
  unfolding raise_interrupt
  helper_raise_interrupt env intno next_eip_addend = raise_interrupt env intno 1 0 next_eip_addend

  pub helper_raise_exception : Env → ℕ → Raised
  unfolding raise_exception
  helper_raise_exception env exception_index = raise_exception env exception_index
