-- ===== src/Excp/Faults.antt =====
-- Faults that come while another fault is delivered.
use fist_ame.Cpu.{Env, hf_svmi_mask, excp_dble, excp_hlt}
use fist_ame.Base.{
  arith, ◌==◌, nz, if◌then◌else◌, add64, ℕ, bit_and, ◌≡◌, refl, Bool, true, false, ◌&&◌, ◌||◌,
}
use fist_ame.Excp.{
  is_contributory, remembered, raised, shutdown, checked, Raised, Checked, loop_exit, vmexit,
  svm_exit_shutdown, check_exception, is_intercepted, raise_exception_err, is_intercepted, Checked,
  check_exception, raise_exception_err, loop_exit, checked,
}

-- The classes of the exceptions, after the table of double faults of the processor manuals.
pub data Class : Type 0 where
  benign contributory page_fault double_fault : Class

unfoldable pub class_of : ℕ → Class
class_of n =
    if n == 8
    then double_fault
    else (if n == 14
        then page_fault
        else (if n == 0 || n == 10 || n == 11 || n == 12 || n == 13 then contributory else benign))

pub data Delivery : Type 0 where
  delivered doubled stopped : Delivery

abbrev pub delivery : Class → Class → Delivery
delivery double_fault second = stopped
delivery contributory contributory = doubled
delivery page_fault contributory = doubled
delivery page_fault page_fault = doubled
delivery _ _ = delivered

abbrev pub is_benign : Class → Bool
is_benign benign = true
is_benign _ = false

-- The CPU as it should leave the loop.
abbrev pub delivers : Delivery → Env → Class → ℕ → ℕ → Env
delivers delivered env class intno error = record env {
  exception_index = intno;
  error_code = error;
  exception_is_int = 0;
  exception_next_eip = add64 env.eip 0;
  old_exception = if is_benign class then env.old_exception else intno;
}
delivers doubled env class intno error = record env {
  exception_index = 8;
  error_code = 0;
  exception_is_int = 0;
  exception_next_eip = add64 env.eip 0;
  old_exception = 8;
}
delivers stopped env class intno error = record env {
  exception_index = excp_hlt;
  error_code = error;
  exception_is_int = 0;
  exception_next_eip = add64 env.eip 0;
}

abbrev is_contrib : Class → Bool
is_contrib contributory = true
is_contrib _ = false

abbrev is_page : Class → Bool
is_page page_fault = true
is_page _ = false

abbrev is_double : Class → Bool
is_double double_fault = true
is_double _ = false

contributory_class : (n : ℕ) → is_contributory n ≡ is_contrib (class_of n)
unfolding is_contributory class_of
contributory_class n = ground arith

page_class : (n : ℕ) → (n == 14) ≡ is_page (class_of n)
unfolding class_of
page_class n = ground arith

double_class : (n : ℕ) → (n == 8) ≡ is_double (class_of n)
unfolding class_of
double_class n = ground arith

-- What the tests of the code come to, on the classes.
leaves : Env → Class → Class → ℕ → ℕ → Checked
leaves env a b intno error =
    if is_double a
    then checked env excp_hlt error
    else (if is_contrib a && is_contrib b || is_page a && (is_contrib b || is_page b)
        then remembered env (is_contrib b) excp_dble 0
        else checked
            (record env {
              old_exception =
                  if is_contrib b || is_page b || is_double b then intno else env.old_exception;
            })
            intno error)

check_exception-leaves :
    (env : Env) (intno error : ℕ)
    → nz (bit_and env.hflags hf_svmi_mask) ≡ false
    → check_exception env intno error
      ≡ leaves env (class_of env.old_exception) (class_of intno) intno error
unfolding leaves remembered check_exception
check_exception-leaves env intno error n =
    rw
      (
        check_exception,
        n,
        contributory_class env.old_exception,
        contributory_class intno,
        page_class env.old_exception,
        page_class intno,
        double_class env.old_exception,
        double_class intno,
      )
      refl

leaves_delivers :
    (env : Env) (a b : Class) (intno error : ℕ)
    → Path Raised
        (elim (leaves env a b intno error) as (λ _. Raised) [
          | shutdown ↦ vmexit svm_exit_shutdown 0 env
          | checked env' intno' error' ↦ raised env' intno' 0 error' 0
        ])
        (loop_exit (delivers (delivery a b) env b intno error))
unfolding leaves raised remembered
leaves_delivers env double_fault b intno error = refl
leaves_delivers env benign benign intno error = refl
leaves_delivers env benign contributory intno error = refl
leaves_delivers env benign page_fault intno error = refl
leaves_delivers env benign double_fault intno error = refl
leaves_delivers env contributory benign intno error = refl
leaves_delivers env contributory contributory intno error = refl
leaves_delivers env contributory page_fault intno error = refl
leaves_delivers env contributory double_fault intno error = refl
leaves_delivers env page_fault benign intno error = refl
leaves_delivers env page_fault contributory intno error = refl
leaves_delivers env page_fault page_fault intno error = refl
leaves_delivers env page_fault double_fault intno error = refl

eight : class_of 8 ≡ double_fault
unfolding class_of
eight = refl

module _ (ldq_phys ldub_phys : ℕ → ℕ) where
  -- An exception without intercepts leaves the loop as the table of double faults says: it is delivered,
  -- becomes a double fault of error code 0, or stops the CPU when it follows a double fault.
  pub raise_exception_err-delivers :
      (env : Env) (intno error : ℕ)
      → nz (bit_and env.hflags hf_svmi_mask) ≡ false
      → raise_exception_err ldq_phys ldub_phys env intno error
        ≡ loop_exit (
            delivers
              (delivery (class_of env.old_exception) (class_of intno))
              env
              (class_of intno)
              intno
              error)
  unfolding raise_exception_err is_intercepted
  raise_exception_err-delivers env intno error n =
      rw (is_intercepted, n, check_exception-leaves env intno error n)
        (leaves_delivers env (class_of env.old_exception) (class_of intno) intno error)

  abbrev pub left_by : Raised → Env
  left_by (loop_exit env) = env
  left_by (vmexit code info env) = env

  first_fault :
      (env : Env) (i c : ℕ)
      → nz (bit_and env.hflags hf_svmi_mask) ≡ false
      → class_of env.old_exception ≡ benign
      → class_of i ≡ contributory
      → left_by (raise_exception_err ldq_phys ldub_phys env i c)
        ≡ delivers delivered env contributory i c
  first_fault env i c n b k = rw (raise_exception_err-delivers env i c n, b, k) refl

  second_fault :
      (env : Env) (i c : ℕ)
      → nz (bit_and env.hflags hf_svmi_mask) ≡ false
      → class_of env.old_exception ≡ contributory
      → class_of i ≡ contributory
      → left_by (raise_exception_err ldq_phys ldub_phys env i c)
        ≡ delivers doubled env contributory i c
  second_fault env i c n b k = rw (raise_exception_err-delivers env i c n, b, k) refl

  third_fault :
      (env : Env) (i c : ℕ)
      → nz (bit_and env.hflags hf_svmi_mask) ≡ false
      → env.old_exception ≡ 8
      → (left_by (raise_exception_err ldq_phys ldub_phys env i c)).exception_index ≡ excp_hlt
  third_fault env i c n b = rw (raise_exception_err-delivers env i c n, b, eight) refl

  -- Two contributory exceptions in a row and any third one, each raised before the one before it was
  -- delivered and none intercepted, stop the CPU: the exception that the loop sees is EXCP_HLT.
  pub raise_exception_err-triple :
      (env : Env) (i1 c1 i2 c2 i3 c3 : ℕ)
      → nz (bit_and env.hflags hf_svmi_mask) ≡ false
      → class_of env.old_exception ≡ benign
      → class_of i1 ≡ contributory
      → class_of i2 ≡ contributory
      → let e1 = left_by (raise_exception_err ldq_phys ldub_phys env i1 c1) in
        let e2 = left_by (raise_exception_err ldq_phys ldub_phys e1 i2 c2) in
        (left_by (raise_exception_err ldq_phys ldub_phys e2 i3 c3)).exception_index ≡ excp_hlt
  raise_exception_err-triple env i1 c1 i2 c2 i3 c3 n b k1 k2 =
      let d1 = delivers delivered env contributory i1 c1 in
      rw (first_fault env i1 c1 n b k1, second_fault d1 i2 c2 n k1 k2)
        (third_fault (delivers doubled d1 contributory i2 c2) i3 c3 n refl)
