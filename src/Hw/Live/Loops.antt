-- ===== src/Hw/Live/Loops.antt =====
-- The loops of a write of DR7: four removals, then four insertions.
use fist_ame.Base.{
  ℕ, zero, suc, ◌+◌, ◌≡◌, ◌≢◌, refl, ap, ◌∙◌, sym, some, ◌==◌, arith, Bool-cases, inl, inr, ==_iff,
  ◌<◌, ◌≤◌,
}
use mathlib.Core.Path.{subst}
use fist_ame.Cpu.{Env}
use fist_ame.Hw.{hw_breakpoint_insert, remove_from, insert_from}
use fist_ame.Hw.Live.{Target, nothing, target, Live, nothing_or, nothing_unless}
use fist_ame.Hw.Live.Remove.{Removed, remove_lem}
use fist_ame.Hw.Live.Insert.{Inserted, insert_lem}

-- Each pointer that DR7 says is followed leads to a node of the queue it names, and no two of them
-- to the same node.
pub record IsLive (env : Env) : Type 0 where
  pub live : (i r : ℕ) → i < 4 → env.hw i ≡ some r → Live (target (env.dr 7) i) r env
  pub apart :
      (i j r : ℕ)
      → i < 4
      → j < 4
      → i ≢ j
      → env.hw i ≡ some r
      → env.hw j ≡ some r
      → target (env.dr 7) i ≡ target (env.dr 7) j
      → target (env.dr 7) i ≡ nothing

abbrev pub Apart : Env → Type 0
Apart env =
    (i j r : ℕ)
    → i < 4
    → j < 4
    → i ≢ j
    → env.hw i ≡ some r
    → env.hw j ≡ some r
    → target (env.dr 7) i ≡ target (env.dr 7) j
    → target (env.dr 7) i ≡ nothing

abbrev pub LiveFrom : ℕ → Env → Type 0
LiveFrom lo env = (i r : ℕ) → lo ≤ i → i < 4 → env.hw i ≡ some r → Live (target (env.dr 7) i) r env

-- One removal leaves the pointers of the registers other than its own as they are.
pub remove_keeps :
    (env env' : Env) (k : ℕ)
    → k < 4
    → Removed env k env'
    → Apart env
    → (i r : ℕ) → i < 4
    → i ≢ k
    → env.hw i ≡ some r
    → Live (target (env.dr 7) i) r env
    → Live (target (env'.dr 7) i) r env'
remove_keeps env env' k hk m a i r hi n e l =
    subst (λ (d : ℕ → ℕ). Live (target (d 7) i) r env') (sym m.same_dr)
      (nothing_or (target (env.dr 7) i) r env'
        (λ w. m.others_live (target (env.dr 7) i) r (λ t c. w (a i k r hi hk n e c t)) l))

pub remove_from_lem :
    (n lo : ℕ) (env : Env)
    → lo + n ≡ 4
    → LiveFrom lo env
    → Apart env
    → (env' : Env) × (remove_from n lo env ≡ some env') × (env'.hw ≡ env.hw) × (env'.dr ≡ env.dr)
unfolding remove_from
remove_from_lem zero lo env h l a = (env, refl, refl, refl)
remove_from_lem (suc n) lo env h l a =
    let (env1, e, m) = remove_lem env lo (λ r. l lo r (omega arith) (omega arith)) in
    let l1 : LiveFrom (lo + 1) env1 = λ i r li hi c.
      let c' = rw m.same_hw at c in
      remove_keeps env env1 lo (omega arith) m a i r hi (λ q. absurd (omega (arith, q))) c'
        (l i r (omega arith) hi c') in
    let a1 : Apart env1 = rw (m.same_hw, m.same_dr) a in
    let (env2, f, hw2, dr2) = remove_from_lem n (lo + 1) env1 (omega arith) l1 a1 in
    (env2, rw (e, remove_from) f, hw2 ∙ m.same_hw, dr2 ∙ m.same_dr)

-- After an insertion below `k` each pointer that is followed is the fresh node of its register.
abbrev pub Filled : (ℕ → ℕ) → ℕ → Env → Type 0
Filled fresh k env =
    (i r : ℕ)
    → i < k
    → env.hw i ≡ some r
    → target (env.dr 7) i ≢ nothing
    → (r ≡ fresh i) × Live (target (env.dr 7) i) r env

Filled-step :
    (fresh : ℕ → ℕ) (k : ℕ) (env env1 : Env)
    → Inserted (fresh k) env k env1
    → Filled fresh k env
    → Filled fresh (k + 1) env1
Filled-step fresh k env env1 m f i r h e t =
    let same : target (env1.dr 7) ≡ target (env.dr 7) =
      ap (λ (d : ℕ → ℕ). target (d 7)) m.kept_dr in
    let there : (j : ℕ)
        → (r ≡ fresh j) × Live (target (env.dr 7) j) r env1
        → (r ≡ fresh j) × Live (target (env1.dr 7) j) r env1 =
      λ j l. (l.0, subst (λ (u : ℕ → Target). Live (u j) r env1) (sym same) l.1) in
    elim (Bool-cases (i == k)) [
      | inl q ↦
          let p = (==_iff i k).0 q in
          rw p (
            there k (
              m.hw_here r (rw p at e)
                (λ c. t (ap (λ (u : ℕ → Target). u i) same ∙ ap (target (env.dr 7)) p ∙ c))))
      | inr q ↦
          let o = m.hw_other i (λ (p : i ≡ k). ground (arith, q, p)) in
          let (w, l) =
            f i r (ground (arith, q, h)) (sym o ∙ e)
              (λ c. t (ap (λ (u : ℕ → Target). u i) same ∙ c)) in
          there i (w, m.all_live (target (env.dr 7) i) r l)
    ]

pub insert_from_lem :
    (fresh : ℕ → ℕ) (n k m : ℕ) (env : Env)
    → k + n ≡ m
    → Filled fresh k env
    → Filled fresh m (insert_from fresh n k env)
unfolding insert_from
insert_from_lem fresh zero k m env h f = λ i r l. f i r (omega arith)
insert_from_lem fresh (suc n) k m env h f =
    insert_from_lem fresh n (k + 1) m (hw_breakpoint_insert (fresh k) env k) (omega arith)
      (Filled-step fresh k env _ (insert_lem (fresh k) env k) f)

pub insert_from-dr : (fresh : ℕ → ℕ) (n k : ℕ) (env : Env) → (insert_from fresh n k env).dr ≡ env.dr
unfolding insert_from
insert_from-dr fresh zero k env = refl
insert_from-dr fresh (suc n) k env =
    insert_from-dr fresh n (k + 1) (hw_breakpoint_insert (fresh k) env k)
    ∙ (insert_lem (fresh k) env k).kept_dr

-- Registers that were all filled with distinct nodes are live.
pub Filled-IsLive :
    (fresh : ℕ → ℕ) (env : Env)
    → ((i j : ℕ) → i < 4 → j < 4 → fresh i ≡ fresh j → i ≡ j)
    → Filled fresh 4 env
    → IsLive env
Filled-IsLive fresh env inj f = record {
  live = λ i r h e. nothing_or (target (env.dr 7) i) r env (λ t. (f i r h e t).1);
  apart = λ i j r hi hj n ei ej t.
      nothing_unless (target (env.dr 7) i)
        (λ w. n (inj i j hi hj (sym (f i r hi ei w).0 ∙ (f j r hj ej (λ c. w (t ∙ c))).0)));
}
