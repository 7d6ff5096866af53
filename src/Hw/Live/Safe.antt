-- ===== src/Hw/Live/Safe.antt =====
-- `helper_movl_drN_T0` follows no pointer to a node that was freed.
use fist_ame.Base.{
  ℕ, ◌≡◌, ◌≢◌, refl, ap, ◌∙◌, sym, Option, some, ◌==◌, ltb, update, update_ne, arith, Bool-cases,
  inl, inr, ==_iff, ◌<◌, ltb→lt,
}
use mathlib.Core.Path.{subst}
use fist_ame.Cpu.{Env}
use fist_ame.Hw.{insert_from, helper_movl_drn_t0}
use fist_ame.Hw.Live.Loops.{
  IsLive, remove_keeps, remove_from_lem, insert_from_lem, insert_from-dr, Filled-IsLive,
}
use fist_ame.Hw.Live.{grown, Target, nothing, target, Live, nothing_or, nothing_unless}
use fist_ame.Hw.Live.Remove.{Removed, remove_lem}
use fist_ame.Hw.Live.Insert.{Inserted, insert_lem}

-- The addresses that `malloc` returns for the nodes of a write of `reg`: distinct, and the one for
-- `reg` is not that of a node that another register holds.
pub record IsFresh (fresh : ℕ → ℕ) (env : Env) (reg : ℕ) : Type 0 where
  pub injective : (i j : ℕ) → i < 4 → j < 4 → fresh i ≡ fresh j → i ≡ j
  pub unused :
      (j : ℕ) → j < 4 → j ≢ reg → target (env.dr 7) j ≢ nothing → env.hw j ≢ some (fresh reg)

-- A write of one of the four address registers.
module _ (fresh : ℕ → ℕ) (env env1 env3 : Env) (reg t0 : ℕ) (hr : reg < 4) (l : IsLive env)
    (f : IsFresh fresh env reg) (m : Removed env reg env1)
    (n : Inserted (fresh reg) (record env1 { dr = update env1.dr reg t0 }) reg env3) where
  dr7 : update env1.dr reg t0 7 ≡ env.dr 7
  dr7 =
      update_ne env1.dr reg t0 7 (λ e. absurd (omega (arith, e)))
      ∙ ap (λ (d : ℕ → ℕ). d 7) m.same_dr

  dr7' : env3.dr 7 ≡ env.dr 7
  dr7' = ap (λ (d : ℕ → ℕ). d 7) n.kept_dr ∙ dr7

  own :
      (r : ℕ)
      → env3.hw reg ≡ some r
      → target (env.dr 7) reg ≢ nothing
      → (r ≡ fresh reg) × Live (target (env.dr 7) reg) r env3
  own r e t =
      subst (λ d. target d reg ≢ nothing → (r ≡ fresh reg) × Live (target d reg) r env3) dr7
        (n.hw_here r e) t

  same_pointer : (i r : ℕ) → i ≢ reg → env3.hw i ≡ some r → env.hw i ≡ some r
  same_pointer i r w e = ap (λ (h : ℕ → Option ℕ). h i) (sym m.same_hw) ∙ sym (n.hw_other i w) ∙ e

  other-Live : (i r : ℕ) → i < 4 → i ≢ reg → env3.hw i ≡ some r → Live (target (env.dr 7) i) r env3
  other-Live i r h w e =
      let e' = same_pointer i r w e in
      let t : Target = target (env.dr 7) i in
      let l1 : Live t r env1 =
        subst (λ (d : ℕ → ℕ). Live (target (d 7) i) r env1) m.same_dr
          (remove_keeps env env1 reg hr m l.apart i r h w e' (l.live i r h e')) in
      n.all_live t r
        (grown env1 (record env1 { dr = update env1.dr reg t0 }) (λ r h. h) (λ r h. h) t r l1)

  clash :
      (j r : ℕ)
      → j < 4
      → j ≢ reg
      → env3.hw reg ≡ some r
      → env3.hw j ≡ some r
      → target (env.dr 7) reg ≡ target (env.dr 7) j
      → target (env.dr 7) reg ≡ nothing
  clash j r h w e e' t = nothing_unless (target (env.dr 7) reg) (λ u.
      f.unused j h w (λ c. u (t ∙ c))
        (same_pointer j r w e' ∙ ap (λ (x : ℕ). some x) (own r e u).0))

  written_apart :
      (i j r : ℕ)
      → i < 4
      → j < 4
      → i ≢ j
      → env3.hw i ≡ some r
      → env3.hw j ≡ some r
      → target (env.dr 7) i ≡ target (env.dr 7) j
      → target (env.dr 7) i ≡ nothing
  written_apart i j r hi hj w ei ej t = elim (Bool-cases (i == reg)) [
    | inl q ↦
        let p = (==_iff i reg).0 q in
        rw p (clash j r hj (λ c. w (p ∙ sym c)) (rw p at ei) ej (rw p at t))
    | inr q ↦ elim (Bool-cases (j == reg)) [
      | inl k ↦
          let p = (==_iff j reg).0 k in
          t ∙ rw p (clash i r hi (λ c. w (c ∙ sym p)) (rw p at ej) ei (sym (rw p at t)))
      | inr k ↦
          l.apart i j r hi hj w (same_pointer i r (λ p. absurd (ground (arith, q, p))) ei)
            (same_pointer j r (λ p. absurd (ground (arith, k, p))) ej) t
    ]
  ]

  written-IsLive : IsLive env3
  written-IsLive = record {
    live = λ i r h e.
        subst (λ d. Live (target d i) r env3) (sym dr7')
          (elim (Bool-cases (i == reg)) [
            | inl q ↦
                let p = (==_iff i reg).0 q in
                rw p (nothing_or (target (env.dr 7) reg) r env3 (λ t. (own r (rw p at e) t).1))
            | inr q ↦ other-Live i r h (λ p. absurd (ground (arith, q, p))) e
          ]);
    apart = λ i j r hi hj w ei ej.
        subst (λ d. target d i ≡ target d j → target d i ≡ nothing) (sym dr7')
          (written_apart i j r hi hj w ei ej);
  }

dr-IsLive :
    (env : Env) (dr dr' : ℕ → ℕ)
    → dr' 7 ≡ dr 7
    → IsLive (record env { dr = dr })
    → IsLive (record env { dr = dr' })
dr-IsLive env dr dr' d l = record {
  live = λ i r h e.
      subst (λ x. Live (target x i) r (record env { dr = dr' })) (sym d)
        (grown (record env { dr = dr }) (record env { dr = dr' }) (λ r h. h) (λ r h. h) _ r
          (l.live i r h e));
  apart = λ i j r hi hj w ei ej.
      subst (λ x. target x i ≡ target x j → target x i ≡ nothing) (sym d)
        (l.apart i j r hi hj w ei ej);
}

-- From a CPU whose debug registers' pointers are live, a write of any debug register follows no
-- pointer to a freed node, leaves the pointers live, so that they stay so in any sequence of writes,
-- and changes the one register.
pub helper_movl_drn_t0-IsLive :
    (fresh : ℕ → ℕ) (env : Env) (reg t0 : ℕ)
    → IsLive env
    → IsFresh fresh env reg
    → (env' : Env) × (helper_movl_drn_t0 fresh env reg t0 ≡ some env')
      × IsLive env'
      × (env'.dr ≡ update env.dr reg t0)
unfolding helper_movl_drn_t0
helper_movl_drn_t0-IsLive fresh env reg t0 l f = elim (Bool-cases (ltb reg 4)) [
  | inl e ↦
      let h = ltb→lt reg 4 e in
      let (env1, q, m) = remove_lem env reg (λ r. l.live reg r h) in
      let n = insert_lem (fresh reg) (record env1 { dr = update env1.dr reg t0 }) reg in
      (
        _,
        rw (e, q, helper_movl_drn_t0) refl,
        written-IsLive fresh env env1 _ reg t0 h l f m n,
        n.kept_dr ∙ ap (λ (d : ℕ → ℕ). update d reg t0) m.same_dr,
      )
  | inr e ↦ elim (Bool-cases (reg == 7)) [
    | inl g ↦
        let (env1, q, _, dr1) = remove_from_lem 4 0 env refl (λ i r _. l.live i r) l.apart in
        let env2 = record env1 { dr = update env1.dr 7 t0 } in
        let full = insert_from_lem fresh 4 0 4 env2 refl (λ i r h. absurd (omega (arith, h))) in
        (
          insert_from fresh 4 0 env2,
          rw (e, g, q, helper_movl_drn_t0) refl,
          Filled-IsLive fresh _ f.injective full,
          insert_from-dr fresh 4 0 env2
              ∙ ap (λ (d : ℕ → ℕ). update d 7 t0) dr1
              ∙ ap (λ (r : ℕ). update env.dr r t0) (sym ((==_iff reg 7).0 g)),
        )
    | inr g ↦
        let d : update env.dr reg t0 7 ≡ env.dr 7 =
          update_ne env.dr reg t0 7 (λ p. absurd (ground (arith, g, p))) in
        (
          record env { dr = update env.dr reg t0 },
          rw (e, g, helper_movl_drn_t0) refl,
          dr-IsLive env env.dr _ d l,
          refl,
        )
  ]
]
