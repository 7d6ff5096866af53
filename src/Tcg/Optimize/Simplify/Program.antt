-- ===== src/Tcg/Optimize/Simplify/Program.antt =====
-- Lists of operations: what the optimiser accepts, what it emits, and how a list is run.
use mathlib.Core.Option.{some-injective}
use fist_ame.Base.{
  if◌then◌else◌, Bool-cases, ℕ, zero, suc, ◌≤◌, ◌≡◌, refl, ap, ◌∙◌, subst, inl, inr, true, Option,
  none, some, List, [], ◌∷◌,
}
use fist_ame.Tcg.Op.{Op, set_label}
use fist_ame.Tcg.Temps.{Temps, Context, reset_all_temps}
use fist_ame.Tcg.Temps.Sound.{IsSound}
use fist_ame.Tcg.Exec.{World, Outcome, values, is_label, exec, next, jump, leave}
use fist_ame.Tcg.Exec.Typed.{IsTyped}
use fist_ame.Tcg.Optimize.{propagate, canonical}
use fist_ame.Tcg.Optimize.Simulation.{Simulates}
use fist_ame.Tcg.Optimize.Simplify.{fold_op, fold_step, fold_ops, tcg_optimize}
use fist_ame.Tcg.Optimize.Simplify.Steps.{IsAccepted, fold_step-Simulates}
use fist_ame.Tcg.Temps.Resets.{InRange, reset_all_temps-IsSound}

-- The operations after a label.
pub at_label : ℕ → List Op → Option (List Op)
at_label label [] = none
at_label label (op ∷ ops) =
    let rest = at_label label ops in if is_label label op then some ops else rest

abbrev pub AcceptsLater : (Temps → Type 0) → Option (Op × Temps) → Type 0
AcceptsLater later none = Unit
AcceptsLater later (some (o, t)) = later t

-- Each operation is well typed, and the optimiser accepts it with what it then knows.
unfoldable pub Accepts : Context → Temps → List Op → Type 0
Accepts s temps [] = Unit
Accepts s temps (op ∷ ops) =
    IsTyped s op
    × IsAccepted temps (canonical temps (propagate s temps op))
    × AcceptsLater (λ t. Accepts s t ops) (fold_step s temps op)

-- The second list is what the rounds of the loop emit for the first.
abbrev Continues : (Temps → List Op → Type 0) → Option (Op × Temps) → List Op → Type 0
Continues later none os = ⊥
Continues later (some (o, t)) [] = ⊥
Continues later (some (o, t)) (o' ∷ os) = (o ≡ o') × later t os

Emits : Context → Temps → List Op → List Op → Type 0
Emits s temps [] os = os ≡ []
Emits s temps (op ∷ ops) os = Continues (λ t. Emits s t ops) (fold_step s temps op) os

abbrev Given : (List Op → Type 0) → Option (List Op) → Type 0
Given P none = ⊥
Given P (some os) = P os

-- What both lists go on with after a label.
record Resumed (s : Context) (ops ops' : List Op) : Type 0 where
  temps : Temps
  accepts : Accepts s (reset_all_temps temps s.nb_temps) ops
  emits : Emits s (reset_all_temps temps s.nb_temps) ops ops'

abbrev Resumes : Context → Option (List Op) → Option (List Op) → Type 0
Resumes s none none = Unit
Resumes s none (some ops') = ⊥
Resumes s (some ops) none = ⊥
Resumes s (some ops) (some ops') = Resumed s ops ops'

module _ {M : Type 0} (world : World M) (s : Context) where
  -- The values at the end of a run; none is a label that is not there, or more operations than the fuel.
  pub run : List Op → ℕ → List Op → (ℕ → ℕ) → M → Option ((ℕ → ℕ) × M)
  run all zero ops vals m = none
  run all (suc n) [] vals m = some (vals, m)
  run all (suc n) (op ∷ ops) vals m = elim (exec world s op vals m) [
    | next vals' m' ↦ run all n ops vals' m'
    | leave vals' m' ↦ some (vals', m')
    | jump label vals' m' ↦ elim (at_label label all) [
      | none ↦ none
      | some ops' ↦ run all n ops' vals' m'
    ]
  ]

  module _ (m : M) (g : s.nb_globals ≤ s.nb_temps) where
    -- The optimiser emits a list.
    fold_ops-Emits :
        (ops : List Op) (temps : Temps) (vals : ℕ → ℕ)
        → IsSound s temps vals
        → Accepts s temps ops
        → Given (Emits s temps ops) (fold_ops s temps ops)
    unfolding fold_ops Emits Accepts
    fold_ops-Emits [] temps vals h acc = refl
    fold_ops-Emits (op ∷ ops) temps vals h acc =
        spread (fold_step s temps op) (fold_step-Simulates world s temps vals m g h op acc.0 acc.1)
          acc.2 (λ t v hs a. fold_ops-Emits ops t v hs a)
      where
        emitted :
            (o : Op) (t : Temps) (r : Option (List Op))
            → Given (Emits s t ops) r
            → Given
                (Continues (λ (t : Temps). Emits s t ops) (some (o, t)))
                (elim r as (λ _. Option (List Op)) [ none ↦ none | some os ↦ some (o ∷ os) ])
        emitted o t none e = e
        emitted o t (some os) e = (refl, e)

        spread :
            (r : Option (Op × Temps))
            → Simulates world s vals m op r
            → AcceptsLater (λ (t : Temps). Accepts s t ops) r
            → ((t : Temps) (v : ℕ → ℕ)
                → IsSound s t v
                → Accepts s t ops
                → Given (Emits s t ops) (fold_ops s t ops))
            → Given
                (Continues (λ (t : Temps). Emits s t ops) r)
                (elim r as (λ _. Option (List Op)) [
                  | none ↦ none
                  | some (o, t) ↦ elim (fold_ops s t ops) [ none ↦ none | some os ↦ some (o ∷ os) ]
                ])
        spread none e a later = e
        spread (some (o, t)) e a later =
            emitted o t (fold_ops s t ops) (later t (values (exec world s op vals m)) e.1 a)

    label_step :
        (label : ℕ) (temps : Temps) (op : Op)
        → is_label label op ≡ true
        → fold_step s temps op ≡ some (op, reset_all_temps temps s.nb_temps)
    unfolding fold_step propagate canonical fold_op
    label_step label temps (set_label k) i = refl
    label_step label temps _ i = cc i

    -- Where the one list goes on after a label the other one does.
    at_label-Resumes :
        (label : ℕ) (ops ops' : List Op) (temps : Temps) (vals : ℕ → ℕ)
        → IsSound s temps vals
        → Accepts s temps ops
        → Emits s temps ops ops'
        → Resumes s (at_label label ops) (at_label label ops')
    unfolding at_label Accepts Emits
    at_label-Resumes label [] ops' temps vals h acc e = rw e tt
    at_label-Resumes label (op ∷ ops) ops' temps vals h acc e =
        spread ops' (fold_step s temps op)
          (fold_step-Simulates world s temps vals m g h op acc.0 acc.1) acc.2 e
          (label_step label temps op) (λ os t v hs a c. at_label-Resumes label ops os t v hs a c)
      where
        resume :
            {o : Op} {t : Temps} {os : List Op}
            → Path (Option (Op × Temps)) (some (o, t)) (some (op, reset_all_temps temps s.nb_temps))
            → Accepts s t ops
            → Emits s t ops os
            → Resumed s ops os
        resume {o} {t} {os} q a c =
            let e : t ≡ reset_all_temps temps s.nb_temps =
              ap (λ (p : Op × Temps). p.1) (some-injective _ _ q) in
            record {
              temps = temps;
              accepts = subst (λ (t : Temps). Accepts s t ops) e a;
              emits = subst (λ (t : Temps). Emits s t ops os) e c;
            }

        spread :
            (os : List Op) (r : Option (Op × Temps))
            → Simulates world s vals m op r
            → AcceptsLater (λ (t : Temps). Accepts s t ops) r
            → Continues (λ (t : Temps). Emits s t ops) r os
            → (is_label label op ≡ true → r ≡ some (op, reset_all_temps temps s.nb_temps))
            → ((os : List Op) (t : Temps) (v : ℕ → ℕ)
                → IsSound s t v
                → Accepts s t ops
                → Emits s t ops os
                → Resumes s (at_label label ops) (at_label label os))
            → Resumes s
                (if is_label label op then some ops else at_label label ops)
                (at_label label os)
        spread os none e a c i later = absurd e
        spread [] (some (o, t)) e a c i later = absurd c
        spread (o' ∷ os) (some (o, t)) e a c i later = elim (Bool-cases (is_label label op)) [
          | inr n ↦
              rw (n, ← c.0, e.2 label ∙ n) (later os t (values (exec world s op vals m)) e.1 a c.1)
          | inl n ↦ rw (n, ← c.0, e.2 label ∙ n) (resume (i n) a c.1)
        ]

  -- The emitted list runs like the list itself, from `vals` and `m` and with any fuel.
  abbrev pub RunsLike : List Op → (ℕ → ℕ) → M → Option (List Op) → Type 0
  RunsLike ops vals m none = ⊥
  RunsLike ops vals m (some ops') = (n : ℕ) → run ops' n ops' vals m ≡ run ops n ops vals m

  module _ (g : s.nb_globals ≤ s.nb_temps) (all all' : List Op)
      (labels : (label : ℕ) → Resumes s (at_label label all) (at_label label all')) where
    run-Emits :
        (n : ℕ) (ops ops' : List Op) (temps : Temps) (vals : ℕ → ℕ) (m : M)
        → IsSound s temps vals
        → Accepts s temps ops
        → Emits s temps ops ops'
        → run all' n ops' vals m ≡ run all n ops vals m
    unfolding run Accepts Emits
    run-Emits zero ops ops' temps vals m h acc e = refl
    run-Emits (suc n) [] ops' temps vals m h acc e = rw e refl
    run-Emits (suc n) (op ∷ ops) ops' temps vals m h acc e =
        spread ops' (fold_step s temps op)
          (fold_step-Simulates world s temps vals m g h op acc.0 acc.1) acc.2 e
          (λ ops os t v m' hs a c. run-Emits n ops os t v m' hs a c)
      where
        Later : Type 0
        Later =
            (ops os : List Op) (t : Temps) (v : ℕ → ℕ) (m' : M)
            → IsSound s t v
            → Accepts s t ops
            → Emits s t ops os
            → run all' n os v m' ≡ run all n ops v m'

        jumped :
            (v : ℕ → ℕ) (m' : M) (r r' : Option (List Op))
            → InRange s v
            → Resumes s r r'
            → Later
            → elim r' as (λ _. Option ((ℕ → ℕ) × M)) [ none ↦ none | some os ↦ run all' n os v m' ]
              ≡ elim r as (λ _. Option ((ℕ → ℕ) × M)) [
                | none ↦ none
                | some ops ↦ run all n ops v m'
              ]
        jumped v m' none none i q later = refl
        jumped v m' none (some os) i q later = absurd q
        jumped v m' (some ops) none i q later = absurd q
        jumped v m' (some ops) (some os) i q later =
            later ops os (reset_all_temps q.temps s.nb_temps) v m'
              (reset_all_temps-IsSound s q.temps v i) q.accepts q.emits

        outcome :
            (out : Outcome M) (os : List Op) (t : Temps)
            → IsSound s t (values out)
            → Accepts s t ops
            → Emits s t ops os
            → Later
            → elim out as (λ _. Option ((ℕ → ℕ) × M)) [
              | next v m' ↦ run all' n os v m'
              | leave v m' ↦ some (v, m')
              | jump l v m' ↦ elim (at_label l all') [ none ↦ none | some os ↦ run all' n os v m' ]
            ]
              ≡ elim out as (λ _. Option ((ℕ → ℕ) × M)) [
                | next v m' ↦ run all n ops v m'
                | leave v m' ↦ some (v, m')
                | jump l v m' ↦ elim (at_label l all) [
                  | none ↦ none
                  | some ops ↦ run all n ops v m'
                ]
              ]
        outcome (next v m') os t hs a c later = later ops os t v m' hs a c
        outcome (leave v m') os t hs a c later = refl
        outcome (jump l v m') os t hs a c later =
            jumped v m' (at_label l all) (at_label l all') hs.range (labels l) later

        spread :
            (os : List Op) (r : Option (Op × Temps))
            → Simulates world s vals m op r
            → AcceptsLater (λ (t : Temps). Accepts s t ops) r
            → Continues (λ (t : Temps). Emits s t ops) r os
            → Later
            → run all' (suc n) os vals m ≡ run all (suc n) (op ∷ ops) vals m
        spread os none e a c later = absurd e
        spread [] (some (o, t)) e a c later = absurd c
        spread (o' ∷ os) (some (o, t)) e a c later =
            rw (← c.0, run, e.0) (outcome (exec world s op vals m) os t e.1 a c.1 later)

  -- The optimiser emits a list for every list of well typed operations that it accepts, and from
  -- words of the types the two lists run alike, with any fuel: to the same values at the end, or
  -- where the block is left, and to none in the same cases. Accepted are shifts and rotations by
  -- constants in range, conditions that compare, fields of less than 64 bits, and no `or` of a
  -- constant with itself.
  pub tcg_optimize-RunsLike :
      (ops : List Op) (temps : Temps) (vals : ℕ → ℕ) (m : M)
      → s.nb_globals ≤ s.nb_temps
      → InRange s vals
      → Accepts s (reset_all_temps temps s.nb_temps) ops
      → RunsLike ops vals m (tcg_optimize s temps ops)
  unfolding tcg_optimize
  tcg_optimize-RunsLike ops temps vals m g i acc =
      spread (fold_ops s (reset_all_temps temps s.nb_temps) ops)
        (fold_ops-Emits m g ops (reset_all_temps temps s.nb_temps) vals sound acc)
    where
      sound : IsSound s (reset_all_temps temps s.nb_temps) vals
      sound = reset_all_temps-IsSound s temps vals i

      spread :
          (r : Option (List Op))
          → Given (Emits s (reset_all_temps temps s.nb_temps) ops) r
          → RunsLike ops vals m r
      spread none e = e
      spread (some ops') e = λ n.
          run-Emits g ops ops'
            (λ label.
              at_label-Resumes m g label ops ops' (reset_all_temps temps s.nb_temps) vals sound acc
                e)
            n ops ops' (reset_all_temps temps s.nb_temps) vals m sound acc e
