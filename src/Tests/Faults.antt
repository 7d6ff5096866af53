-- ===== src/Tests/Faults.antt =====
-- Exceptions at concrete CPUs.
use fist_ame.Cpu.{Env, excp_hlt}
use fist_ame.Base.{ℕ, ◌≡◌, refl}
use fist_ame.Excp.{raise_exception_err, loop_exit}
use fist_ame.Excp.Faults.{
  class_of, delivery, delivers, raise_exception_err-delivers, left_by, raise_exception_err-triple,
}
use fist_ame.Tests.Cases.{blank}

abbrev calm : Env
calm = record blank { old_exception = 0xffff_ffff }

-- A memory of zeros.
abbrev zeros : ℕ → ℕ
zeros addr = 0

raise_exception_err-delivers_example :
    raise_exception_err zeros zeros calm 13 0
    ≡ loop_exit
        (delivers (delivery (class_of calm.old_exception) (class_of 13)) calm (class_of 13) 13 0)
raise_exception_err-delivers_example = raise_exception_err-delivers zeros zeros calm 13 0 refl

raise_exception_err-triple_example :
    let e1 = left_by zeros zeros (raise_exception_err zeros zeros calm 13 0) in
    let e2 = left_by zeros zeros (raise_exception_err zeros zeros e1 11 0x18) in
    (left_by zeros zeros (raise_exception_err zeros zeros e2 14 2)).exception_index ≡ excp_hlt
unfolding class_of
raise_exception_err-triple_example =
    raise_exception_err-triple zeros zeros calm 13 0 11 0x18 14 2 refl refl refl refl
