-- ===== src/Tcg/Optimize/Simplify/Conditions.antt =====
-- The simplifications of comparisons: setcond, movcond and brcond.
use fist_ame.Base.{
  ◌==◌, if◌then◌else◌, ==_iff, Bool-cases, within_zero, bit_or_zero, ℕ, ◌%◌, ◌<◌, bit_or, ◌≡◌, refl,
  sym, ap, inl, inr, Bool, true, false, ◌&&◌, Option, none, some, arith,
}
use fist_ame.Tcg.Op.{Width, Cond, i32, i64, ltu, geu, nop, setcond, movcond, brcond, br}
use fist_ame.Tcg.Meaning.{words, holds}
use fist_ame.Tcg.Temps.{is_const, Temps, Context, reset_temp, reset_all_temps, temps_are_copies}
use fist_ame.Tcg.Temps.Sound.{IsSound, mod_words, zero_word, within_word}
use fist_ame.Tcg.Temps.Copies.{temps_are_copies-SameAs}
use fist_ame.Tcg.Fold.Compare.{
  Compares, do_constant_folding_cond_n-holds, do_constant_folding_cond_eq-holds,
}
use fist_ame.Tcg.Exec.{World, values, read, exec, next, jump}
use fist_ame.Tcg.Exec.Typed.{Has}
use fist_ame.Tcg.Optimize.{is_zero, gen_movi, gen_mov_const}
use fist_ame.Tcg.Optimize.Moves.{
  Assigns, gen_movi-Assigns, kept-Assigns, const_word, gen_mov_const-Assigns,
}
use fist_ame.Tcg.Optimize.Simplify.{
  do_constant_folding_cond, fold_setcond, fold_brcond, fold_movcond,
}
use fist_ame.Tcg.Optimize.Simplify.OneInput.{Has-HasWord, zero_is}
use fist_ame.Tcg.Optimize.Simplify.Extensions.{words_pow}
use fist_ame.Tcg.Temps.Resets.{reset_all_temps-IsSound}
use fist_ame.Tcg.Optimize.Simulation.{Simulates}

-- A comparison that is decided is decided the way it holds.
abbrev pub Decides : Width → Cond → ℕ → ℕ → Option (Option Bool) → Type 0
Decides w c x y none = ⊥
Decides w c x y (some none) = Unit
Decides w c x y (some (some r)) = r ≡ holds w c x y

below_zero :
    (w : Width) (c : Cond) (x y : ℕ)
    → y ≡ 0
    → Decides w c x y (elim c as (λ _. Option (Option Bool)) [
      | ltu ↦ some (some false)
      | geu ↦ some (some true)
      | _ ↦ some none
    ])
unfolding holds
below_zero w ltu x y e = rw e (ground arith)
below_zero w geu x y e = rw e (ground arith)
below_zero w _ x y e = tt

module _ {M : Type 0} (world : World M) (s : Context) (temps : Temps) (vals : ℕ → ℕ) (m : M)
    (h : IsSound s temps vals) where
  word_of :
      (w : Width) (x : ℕ)
      → Has s w x
      → is_const (temps.state x) ≡ true
      → read w vals x ≡ temps.val x % words w
  word_of w x t = const_word world s temps vals m h w x (Has-HasWord s w x t)

  decided :
      (w : Width) (c : Cond) (x y : ℕ) (r : Option Bool)
      → r ≡ some (holds w c x y)
      → Decides w c x y (elim r [ none ↦ none | some b ↦ some (some b) ])
  decided w c x y r e = rw e refl

  do_constant_folding_cond-Decides :
      (w : Width) (x y : ℕ) (c : Cond)
      → Has s w x
      → Has s w y
      → Compares c
      → Decides w c (read w vals x) (read w vals y) (do_constant_folding_cond s temps w x y c)
  unfolding do_constant_folding_cond
  do_constant_folding_cond-Decides w x y c tx ty v =
      elim (Bool-cases (is_const (temps.state x) && is_const (temps.state y))) [
        | inl k ↦
            let kx : is_const (temps.state x) ≡ true = ground (arith, k) in
            let ky : is_const (temps.state y) ≡ true = ground (arith, k) in
            rw (do_constant_folding_cond, k)
              (decided w c (read w vals x) (read w vals y) _ (
                rw (← words_pow w, word_of w x tx kx, word_of w y ty ky)
                  (do_constant_folding_cond_n-holds w c _ _ (mod_words w (temps.val x))
                    (mod_words w (temps.val y)) v)))
        | inr k ↦ elim (Bool-cases (temps_are_copies s temps x y)) [
          | inl p ↦
              let q : read w vals y ≡ read w vals x =
                ap (λ (t : ℕ). t % words w)
                  (temps_are_copies-SameAs s temps vals h x y tx.lt p).val in
              rw (do_constant_folding_cond, k, p, q)
                (decided w c (read w vals x) (read w vals x) _
                  (do_constant_folding_cond_eq-holds w c (read w vals x) v))
          | inr p ↦ elim (Bool-cases (is_zero temps y)) [
            | inr z ↦ rw (do_constant_folding_cond, k, p, z) tt
            | inl z ↦
                rw (do_constant_folding_cond, k, p, z)
                  (below_zero w c (read w vals x) (read w vals y)
                    (zero_is world s temps vals m h w y ty z))
          ]
        ]
      ]

  bit_words : (w : Width) (b : Bool) → (if b then 1 else 0) ≡ (if b then 1 else 0) % words w
  bit_words i32 true = refl
  bit_words i32 false = refl
  bit_words i64 true = refl
  bit_words i64 false = refl

  one_lt : (w : Width) (b : Bool) → (if b then 1 else 0) < words w
  one_lt i32 b = ground arith
  one_lt i64 b = ground arith

  pub fold_setcond-Assigns :
      (w : Width) (dst a b : ℕ) (c : Cond)
      → Has s w dst
      → Has s w a
      → Has s w b
      → Compares c
      → Assigns world s vals m dst
          (if holds w c (read w vals a) (read w vals b) then 1 else 0)
          (fold_setcond s temps w dst a b c)
  unfolding fold_setcond exec
  fold_setcond-Assigns w dst a b c d ta tb v =
      spread (do_constant_folding_cond s temps w a b c)
        (do_constant_folding_cond-Decides w a b c ta tb v)
    where
      spread :
          (r : Option (Option Bool))
          → Decides w c (read w vals a) (read w vals b) r
          → Assigns world s vals m dst
              (if holds w c (read w vals a) (read w vals b) then 1 else 0)
              (elim r [
                | none ↦ none
                | some none ↦ some (setcond w dst a b c, reset_temp temps dst)
                | some (some tmp) ↦ gen_movi temps w dst (if tmp then 1 else 0)
              ])
      spread none e = absurd e
      spread (some none) e =
          kept-Assigns world s temps vals m h (setcond w dst a b c) w dst _ d (one_lt w _) refl
            (λ label. refl)
      spread (some (some tmp)) e = rw (← e) (
          gen_movi-Assigns world s temps vals m h w dst (if tmp then 1 else 0) _ d (ground arith)
            (bit_words w tmp))

  pub fold_brcond-Simulates :
      (w : Width) (a b : ℕ) (c : Cond) (label : ℕ)
      → Has s w a
      → Has s w b
      → Compares c
      → Simulates world s vals m (brcond w a b c label) (fold_brcond s temps w a b c label)
  unfolding fold_brcond exec
  fold_brcond-Simulates w a b c label ta tb v =
      spread (do_constant_folding_cond s temps w a b c)
        (do_constant_folding_cond-Decides w a b c ta tb v)
    where
      after :
          (r : Bool)
          → IsSound s
              (reset_all_temps temps s.nb_temps)
              (values (if r then jump label vals m else next vals m))
      after true = reset_all_temps-IsSound s temps vals h.range
      after false = reset_all_temps-IsSound s temps vals h.range

      spread :
          (r : Option (Option Bool))
          → Decides w c (read w vals a) (read w vals b) r
          → Simulates world s vals m (brcond w a b c label) (elim r [
            | none ↦ none
            | some none ↦ some (brcond w a b c label, reset_all_temps temps s.nb_temps)
            | some (some true) ↦ some (br label, reset_all_temps temps s.nb_temps)
            | some (some false) ↦ some (nop, temps)
          ])
      spread none e = absurd e
      spread (some none) e =
          (refl, after (holds w c (read w vals a) (read w vals b)), λ label'. refl)
      spread (some (some true)) e =
          rw (← e) (refl, reset_all_temps-IsSound s temps vals h.range, λ label'. refl)
      spread (some (some false)) e = rw (← e) (refl, h, λ label'. refl)

  pub fold_movcond-Assigns :
      (w : Width) (dst a b v1 v2 : ℕ) (c : Cond)
      → Has s w dst
      → Has s w a
      → Has s w b
      → Has s w v1
      → Has s w v2
      → Compares c
      → Assigns world s vals m dst
          (if holds w c (read w vals a) (read w vals b) then read w vals v1 else read w vals v2)
          (fold_movcond s temps w dst a b v1 v2 c)
  unfolding fold_movcond exec
  fold_movcond-Assigns w dst a b v1 v2 c d ta tb t1 t2 v =
      elim (Bool-cases (bit_or (temps.mask v1) (temps.mask v2) == 0)) [
        | inl z ↦
            let r =
              bit_or_zero 64 (temps.mask v1) (temps.mask v2) (h.mask_lt v1 t1.lt)
                ((==_iff _ 0).0 z) in
            let r1 =
              within_zero _ _ (within_word w (vals v1) (temps.mask v1) (h.masked v1 t1.lt)) r.0 in
            let r2 =
              within_zero _ _ (within_word w (vals v2) (temps.mask v2) (h.masked v2 t2.lt)) r.1 in
            rw (fold_movcond, z, r1, r2)
              (gen_movi-Assigns world s temps vals m h w dst 0 _ d (omega arith)
                (zero_if (holds w c (read w vals a) (read w vals b))))
        | inr z ↦
            rw (fold_movcond, z)
              (spread (do_constant_folding_cond s temps w a b c)
                (do_constant_folding_cond-Decides w a b c ta tb v))
      ]
    where
      zero_if : (r : Bool) → (if r then 0 else 0) ≡ 0 % words w
      zero_if true = sym (zero_word w)
      zero_if false = sym (zero_word w)

      chosen : (r : Bool) → Has s w (if r then v1 else v2)
      chosen true = t1
      chosen false = t2

      chosen_read :
          (r : Bool)
          → read w vals (if r then v1 else v2) ≡ (if r then read w vals v1 else read w vals v2)
      chosen_read true = refl
      chosen_read false = refl

      chosen_lt : (r : Bool) → (if r then read w vals v1 else read w vals v2) < words w
      chosen_lt true = mod_words w (vals v1)
      chosen_lt false = mod_words w (vals v2)

      spread :
          (r : Option (Option Bool))
          → Decides w c (read w vals a) (read w vals b) r
          → Assigns world s vals m dst
              (if holds w c (read w vals a) (read w vals b) then read w vals v1 else read w vals v2)
              (elim r [
                | none ↦ none
                | some none ↦ some (movcond w dst a b v1 v2 c, reset_temp temps dst)
                | some (some tmp) ↦ gen_mov_const s temps w dst (if tmp then v1 else v2)
              ])
      spread none e = absurd e
      spread (some none) e =
          kept-Assigns world s temps vals m h (movcond w dst a b v1 v2 c) w dst _ d (chosen_lt _)
            refl (λ label. refl)
      spread (some (some tmp)) e =
          rw (← e, ← chosen_read tmp)
            (gen_mov_const-Assigns world s temps vals m h w dst (if tmp then v1 else v2) d
              (chosen tmp).lt (word_of w (if tmp then v1 else v2) (chosen tmp)))
