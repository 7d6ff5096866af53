-- ===== src/Tcg/Optimize/Simplify/Calls.antt =====
-- What is forgotten at calls and at the operations that the optimiser does not look into.
use fist_ame.Base.{
  nz, if◌then◌else◌, Bool-cases, update, ℕ, zero, suc, ◌%◌, ◌≤◌, ◌<◌, bit_and, refl, inl, inr, Bool,
  true, false, List, [], ◌∷◌, map, arith,
}
use fist_ame.Tcg.Op.{Width, OpDef, i32, i64, call, other}
use fist_ame.Tcg.Meaning.{words}
use fist_ame.Tcg.Temps.{Temps, Context, reset_temp, reset_all_temps}
use fist_ame.Tcg.Temps.Sound.{IsSound, mod_words, reset_temp-IsSound}
use fist_ame.Tcg.Temps.Resets.{reset_all_temps-IsSound}
use fist_ame.Tcg.Exec.{World, values, set_outs, set_globals, exec, next, leave}
use fist_ame.Tcg.Exec.Typed.{AllTemps}
use fist_ame.Tcg.Optimize.Simulation.{Simulates}
use fist_ame.Tcg.Optimize.Simplify.{reset_temps, reset_globals, keeps_globals, fold_op}

module _ (s : Context) where
  pub reset_temps-IsSound :
      (outs rs : List ℕ) (temps : Temps) (vals : ℕ → ℕ)
      → AllTemps s outs
      → IsSound s temps vals
      → IsSound s (reset_temps temps outs) (set_outs s vals outs rs)
  unfolding reset_temps set_outs
  reset_temps-IsSound [] rs temps vals t h = h
  reset_temps-IsSound (o ∷ os) [] temps vals t h =
      reset_temps-IsSound os [] (reset_temp temps o) (update vals o 0) t.1
        (reset_temp-IsSound s temps vals h o t.0 0 (zero_lt (s.type o)))
    where
      zero_lt : (w : Width) → 0 < words w
      zero_lt i32 = omega arith
      zero_lt i64 = omega arith
  reset_temps-IsSound (o ∷ os) (r ∷ rs) temps vals t h =
      reset_temps-IsSound os rs (reset_temp temps o) (update vals o (r % words (s.type o))) t.1
        (reset_temp-IsSound s temps vals h o t.0 (r % words (s.type o)) (mod_words (s.type o) r))

  pub reset_globals-IsSound :
      (n : ℕ) (new : ℕ → ℕ) (temps : Temps) (vals : ℕ → ℕ)
      → n ≤ s.nb_temps
      → IsSound s temps vals
      → IsSound s (reset_globals temps n) (set_globals s vals new n)
  unfolding reset_globals set_globals
  reset_globals-IsSound zero new temps vals l h = h
  reset_globals-IsSound (suc i) new temps vals l h =
      reset_temp-IsSound s (reset_globals temps i) (set_globals s vals new i)
        (reset_globals-IsSound i new temps vals (omega (arith, l)) h) i (omega (arith, l))
        (new i % words (s.type i)) (mod_words (s.type i) (new i))

  module _ {M : Type 0} (world : World M) (temps : Temps) (vals : ℕ → ℕ) (m : M)
      (h : IsSound s temps vals) where
    pub call-Simulates :
        (outs ins : List ℕ) (flags : ℕ) (cargs : List ℕ)
        → s.nb_globals ≤ s.nb_temps
        → AllTemps s outs
        → Simulates world s vals m
            (call outs ins flags cargs)
            (fold_op s temps (call outs ins flags cargs))
    unfolding fold_op exec
    call-Simulates outs ins flags cargs g t =
        (refl, after (world.run_call cargs (map vals ins) vals m), λ label. refl)
      where
        globals :
            (new : ℕ → ℕ)
            → IsSound s
                (if keeps_globals flags then temps else reset_globals temps s.nb_globals)
                (if nz (bit_and flags 0x30) then vals else set_globals s vals new s.nb_globals)
        globals new = elim (Bool-cases (nz (bit_and flags 0x30))) [
          | inl k ↦ rw k h
          | inr k ↦ rw k (reset_globals-IsSound s.nb_globals new temps vals g h)
        ]

        after :
            (r : (ℕ → ℕ) × List ℕ × M)
            → IsSound s
                (reset_temps
                  (if keeps_globals flags then temps else reset_globals temps s.nb_globals)
                  outs)
                (set_outs s
                  (if nz (bit_and flags 0x30) then vals else set_globals s vals r.0 s.nb_globals)
                  outs
                  r.1)
        after (new, rs, m') = reset_temps-IsSound outs rs _ _ t (globals new)

    pub other-Simulates :
        (def : OpDef) (outs ins cargs : List ℕ)
        → AllTemps s outs
        → Simulates world s vals m
            (other def outs ins cargs)
            (fold_op s temps (other def outs ins cargs))
    unfolding fold_op exec
    other-Simulates def outs ins cargs t =
        (refl, after (world.run def.opcode cargs (map vals ins) m), λ label. refl)
      where
        known :
            (rs : List ℕ)
            → IsSound s
                (if def.bb_end then reset_all_temps temps s.nb_temps else reset_temps temps outs)
                (set_outs s vals outs rs)
        known rs = elim (Bool-cases def.bb_end) [
          | inr b ↦ rw b (reset_temps-IsSound outs rs temps vals t h)
          | inl b ↦ rw b (
              reset_all_temps-IsSound s temps (set_outs s vals outs rs)
                (reset_temps-IsSound outs rs temps vals t h).range)
        ]

        after :
            (r : Bool × List ℕ × M)
            → IsSound s
                (if def.bb_end then reset_all_temps temps s.nb_temps else reset_temps temps outs)
                (values (
                  if r.0
                  then leave (set_outs s vals outs r.1) r.2
                  else next (set_outs s vals outs r.1) r.2))
        after (true, rs, m') = known rs
        after (false, rs, m') = known rs
