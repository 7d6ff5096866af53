-- ===== src/Hw/Live/Tests.antt =====
-- A write of DR7 on a CPU with two debug registers in use.
use fist_ame.Base.{
  ℕ, ◌+◌, ◌≡◌, refl, some, none, arith, ◌==◌, if◌then◌else◌, update, Bool-cases, inl, inr, ==_iff,
}
use fist_ame.Cpu.{Env}
use fist_ame.Hw.{
  helper_movl_drn_t0, hw_breakpoint_type, hw_type_of, hw_breakpoint_enabled,
  hw_local_breakpoint_enabled, hw_global_breakpoint_enabled,
}
use fist_ame.Hw.Live.{Live, target}
use fist_ame.Hw.Live.Loops.{IsLive}
use fist_ame.Hw.Live.Safe.{IsFresh, helper_movl_drn_t0-IsLive}
use fist_ame.Tests.Cases.{watched}

-- Register 0 has the breakpoint at 12, and register 1 the watchpoint at 22, a write of one byte.
abbrev traced : Env
traced = record watched {
  dr = λ i. if i == 7 then 0x10_0402 else if i == 0 then 0x2000 else if i == 1 then 0x6000 else 0;
  hw = λ i. if i == 0 then some 12 else if i == 1 then some 22 else none;
}

traced-IsLive : IsLive traced
unfolding Live target hw_breakpoint_type hw_type_of hw_breakpoint_enabled
    hw_local_breakpoint_enabled hw_global_breakpoint_enabled
traced-IsLive = record {
  live = λ i r h e. elim (Bool-cases (i == 0)) [
    | inl p ↦ let q = (==_iff i 0).0 p in let w : r ≡ 12 = ground (arith, p, e) in rw (q, w) refl
    | inr n ↦ elim (Bool-cases (i == 1)) [
      | inl p ↦
          let q = (==_iff i 1).0 p in let w : r ≡ 22 = ground (arith, p, n, e) in rw (q, w) refl
      | inr m ↦ absurd (ground (arith, n, m, e))
    ]
  ];
  apart = λ i j r hi hj n ei ej t. absurd (ground (arith, n, ei, ej));
}

abbrev fresh : ℕ → ℕ
fresh i = i + 30

fresh-IsFresh : IsFresh fresh traced 7
fresh-IsFresh = record {
  injective = λ i j hi hj e. omega (arith, e);
  unused = λ j h n t e. absurd (ground (arith, e));
}

helper_movl_drn_t0-IsLive_example :
    (env' : Env) × (helper_movl_drn_t0 fresh traced 7 0x1_0403 ≡ some env')
    × IsLive env'
    × (env'.dr ≡ update traced.dr 7 0x1_0403)
helper_movl_drn_t0-IsLive_example =
    helper_movl_drn_t0-IsLive fresh traced 7 0x1_0403 traced-IsLive fresh-IsFresh
