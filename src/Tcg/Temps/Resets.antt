-- ===== src/Tcg/Temps/Resets.antt =====
-- Resetting all temporaries, at the end of a basic block.
use native.Mathlib.Nat.{mod-eq_of_lt}
use fist_ame.Base.{
  bit_and_mask, ◌==◌, Bool-cases, minus_one, ℕ, zero, suc, ◌<◌, ◌≡◌, refl, ◌∙◌, inl, inr, arith,
}
use fist_ame.Tcg.Meaning.{words}
use fist_ame.Tcg.Temps.{Temps, Context, forget, reset_all_temps, temp_undef}
use fist_ame.Tcg.Temps.Sound.{IsSound, words_lt}

-- The temporaries hold words of their types.
abbrev pub InRange : Context → (ℕ → ℕ) → Type 0
InRange s vals = (x : ℕ) → x < s.nb_temps → vals x < words (s.type x)

-- After all is reset nothing is claimed but the types.
module _ (s : Context) (temps : Temps) (vals : ℕ → ℕ) where
  reset_all-state : (n x : ℕ) → x < n → (reset_all_temps temps n).state x ≡ temp_undef
  unfolding reset_all_temps forget
  reset_all-state zero x p = absurd (omega (arith, p))
  reset_all-state (suc n) x p = elim (Bool-cases (x == n)) [
    | inl e ↦ rw e refl
    | inr e ↦ rw e (reset_all-state n x (ground (arith, e, p)))
  ]

  reset_all-mask : (n x : ℕ) → x < n → (reset_all_temps temps n).mask x ≡ minus_one
  unfolding reset_all_temps forget
  reset_all-mask zero x p = absurd (omega (arith, p))
  reset_all-mask (suc n) x p = elim (Bool-cases (x == n)) [
    | inl e ↦ rw e refl
    | inr e ↦ rw e (reset_all-mask n x (ground (arith, e, p)))
  ]

  -- Once all is reset, what is known is true of any words of the types.
  pub reset_all_temps-IsSound : InRange s vals → IsSound s (reset_all_temps temps s.nb_temps) vals
  reset_all_temps-IsSound h = record {
    range = h;
    known = λ x l c. cc (c, reset_all-state s.nb_temps x l);
    exact = λ x l c. cc (c, reset_all-state s.nb_temps x l);
    masked = λ x l.
        rw (reset_all-mask s.nb_temps x l)
          (bit_and_mask 64 (vals x) ∙ mod-eq_of_lt (words_lt (s.type x) (vals x) (h x l)));
    mask_lt = λ x l. rw (reset_all-mask s.nb_temps x l) (omega arith);
    linked = λ x l c. cc (c, reset_all-state s.nb_temps x l);
  }
