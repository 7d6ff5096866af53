-- ===== src/Tcg/Optimize/Simulation.antt =====
-- What it means that a simplified operation does what the operation does.
use fist_ame.Base.{update, ℕ, ◌<◌, ◌≡◌, sym, ◌∙◌, false, Option, none, some, arith}
use fist_ame.Tcg.Op.{Op}
use fist_ame.Tcg.Meaning.{words}
use fist_ame.Tcg.Temps.{Temps, Context}
use fist_ame.Tcg.Temps.Sound.{IsSound}
use fist_ame.Tcg.Exec.{World, values, is_label, exec, next}
use fist_ame.Tcg.Optimize.Moves.{Assigns}
use fist_ame.Tcg.Temps.Resets.{InRange}

-- The emitted operation has the same outcome and is the place of the same labels, and what is then known
-- is true of the values.
abbrev pub Simulates :
    {M : Type 0} → World M → Context → (ℕ → ℕ) → M → Op → Option (Op × Temps) → Type 0
Simulates world s vals m op none = ⊥
Simulates world s vals m op (some (op', temps)) =
    (exec world s op' vals m ≡ exec world s op vals m)
    × IsSound s temps (values (exec world s op vals m))
    × ((label : ℕ) → is_label label op' ≡ is_label label op)

module _ {M : Type 0} (world : World M) (s : Context) (vals : ℕ → ℕ) (m : M) where
  pub Assigns-Simulates :
      (op : Op) (dst v : ℕ) (r : Option (Op × Temps))
      → exec world s op vals m ≡ next (update vals dst v) m
      → ((label : ℕ) → is_label label op ≡ false)
      → Assigns world s vals m dst v r
      → Simulates world s vals m op r
  Assigns-Simulates op dst v none e i a = a
  Assigns-Simulates op dst v (some (op', temps)) e i a =
      rw e (a.0, a.1, λ label. a.2 label ∙ sym (i label))

  pub update-InRange :
      (dst v : ℕ) → InRange s vals → v < words (s.type dst) → InRange s (update vals dst v)
  update-InRange dst v h p = λ x l. ground (arith, h x l, p)
