-- ===== src/Tests/Optimizer.antt =====
-- The optimiser of the intermediate code on a short list of operations.
use fist_ame.Base.{
  bit_and_mask, ◌==◌, update, ℕ, ◌+◌, ◌<◌, ◌≡◌, refl, ◌≢◌, ◌↔◌, true, false, Option, none, some,
  List, [], ◌∷◌, arith,
}
use fist_ame.Tcg.Op.{
  cond_number, tcg_invert_cond, tcg_swap_cond, leu, Op, i32, i64, op_mul, op_shl, op_rotl, lt, gtu,
  movi, mov, binary_op, brcond, set_label,
}
use fist_ame.Tcg.Temps.{
  is_copy, Temps, Context, unlink, forget, reset_temp, reset_all_temps, search_copies, other_copy,
  find_better_copy, temps_are_copies, link, tcg_opt_gen_mov, tcg_opt_gen_movi, temp_undef,
}
use fist_ame.Tcg.Fold.{
  left_shift, do_constant_folding_2, cut_result, do_constant_folding, do_constant_folding_cond_n,
}
use fist_ame.Tcg.Exec.{World, exec}
use fist_ame.Tcg.Exec.Typed.{Has}
use fist_ame.Tcg.Optimize.{better, propagate, swap_commutative, canonical, is_zero, gen_movi}
use fist_ame.Tcg.Optimize.Simplify.{
  mask_binary, affected_binary, evaluate_binary, same_binary, mask_binary_step, fold_binary,
  do_constant_folding_cond, fold_brcond, fold_op, fold_step, tcg_optimize,
}
use fist_ame.Tcg.Optimize.Simplify.Program.{Accepts, RunsLike, tcg_optimize-RunsLike}
use fist_ame.Tcg.Temps.Resets.{reset_all_temps-IsSound}
use fist_ame.Tcg.Temps.Sound.{IsSound, reset_temp-IsSound}
use fist_ame.Tcg.Fold.Sound.{Counts, Folds, do_constant_folding-binary}
use fist_ame.Tcg.Fold.Compare.{
  do_constant_folding_cond_n-holds, do_constant_folding_cond_n-turned, opposite,
  do_constant_folding-none,
}
use fist_ame.Tcg.Meaning.{holds}
use fist_ame.Tcg.Temps.Gen.{Moved, tcg_opt_gen_mov-IsSound}
use fist_ame.Tcg.Optimize.Simulation.{Simulates}
use fist_ame.Tcg.Optimize.Simplify.Steps.{fold_step-Simulates}
use fist_ame.Tcg.Optimize.Copies.{exec-propagate}
use fist_ame.Tcg.Optimize.Turned.{exec-canonical}
use fist_ame.Tcg.Temps.Rings.{search_copies-ends}

-- Helpers give their inputs back and count.
abbrev outside : World ℕ
outside = record {
  run = λ op cargs ins m. (false, ins, m + 1);
  run_call = λ cargs ins vals m. (vals, ins, m + 1);
}

-- Two globals and two temporaries.
abbrev four : Context
four = record { nb_temps = 4; nb_globals = 2; temp_local = λ x. false; type = λ x. i64 }

abbrev blank : Temps
blank = record {
  state = λ x. temp_undef;
  prev_copy = λ x. 0;
  next_copy = λ x. 0;
  val = λ x. 0;
  mask = λ x. 0;
}

-- 5 << 5 is more than 5, so the branch is taken.
abbrev branch : List Op
branch =
    movi i64 2 5
    ∷ binary_op i64 op_shl 3 2 2
    ∷ brcond i64 3 2 gtu 7
    ∷ movi i64 3 0
    ∷ set_label 7
    ∷ []

has : (x : ℕ) → x < 4 → Has four i64 x
has x p = record { lt = p; type = refl }

branch-Accepts : Accepts four (reset_all_temps blank 4) branch
unfolding Accepts fold_step propagate canonical fold_op fold_binary fold_brcond mask_binary
    mask_binary_step same_binary evaluate_binary affected_binary do_constant_folding_cond gen_movi
    is_zero better swap_commutative reset_all_temps forget tcg_opt_gen_movi reset_temp unlink
    find_better_copy other_copy search_copies temps_are_copies do_constant_folding left_shift
    do_constant_folding_2 cut_result do_constant_folding_cond_n
branch-Accepts =
    let h2 = has 2 (omega arith) in
    let h3 = has 3 (omega arith) in
    (
      (h2, omega arith),
      tt,
      (
        (h3, h2, h2),
        record { counts = λ k. omega arith; apart = λ e k. cc e },
        ((h3, h2), tt, ((h3, omega arith), tt, (tt, tt, tt))),
      ),
    )

tcg_optimize-RunsLike_example :
    RunsLike outside four branch (λ x. x + 1) 0 (tcg_optimize four blank branch)
tcg_optimize-RunsLike_example =
    tcg_optimize-RunsLike outside four branch blank (λ x. x + 1) 0 (omega arith)
      (λ x p. omega (arith, p)) branch-Accepts

start-IsSound : IsSound four (reset_all_temps blank 4) (λ x. x + 1)
start-IsSound = reset_all_temps-IsSound four blank (λ x. x + 1) (λ x p. omega (arith, p))

fold_step-Simulates_example :
    Simulates outside four
      (λ x. x + 1)
      0
      (movi i64 2 5)
      (fold_step four (reset_all_temps blank 4) (movi i64 2 5))
unfolding canonical propagate
fold_step-Simulates_example =
    fold_step-Simulates outside four (reset_all_temps blank 4) (λ x. x + 1) 0 (omega arith)
      start-IsSound (movi i64 2 5) (has 2 (omega arith), omega arith) tt

do_constant_folding-binary_example :
    Folds i32 op_rotl 0x8000_0001 4 (do_constant_folding i32 op_rotl 0x8000_0001 4)
do_constant_folding-binary_example =
    do_constant_folding-binary i32 op_rotl 0x8000_0001 4 (omega arith) (omega arith)
      (omega arith, omega arith)

do_constant_folding-none_example :
    (¬ Counts i64 op_rotl 0) ↔ (do_constant_folding i64 op_rotl 5 0 ≡ none)
do_constant_folding-none_example =
    do_constant_folding-none i64 op_rotl 5 0 (omega arith) (omega arith)

do_constant_folding_cond_n-holds_example :
    do_constant_folding_cond_n 32 0xffff_ffff 1 lt ≡ some (holds i32 lt 0xffff_ffff 1)
do_constant_folding_cond_n-holds_example =
    do_constant_folding_cond_n-holds i32 lt 0xffff_ffff 1 (omega arith) (omega arith) tt

tcg_opt_gen_mov-IsSound_example :
    Moved four (update (λ x. x + 1) 2 2) (tcg_opt_gen_mov four (reset_all_temps blank 4) 2 1)
unfolding reset_all_temps forget
tcg_opt_gen_mov-IsSound_example =
    tcg_opt_gen_mov-IsSound four (reset_all_temps blank 4) (λ x. x + 1) 2 1 2 start-IsSound
      (omega arith) (omega arith) (omega arith) refl (omega arith) (bit_and_mask 64 2) (λ e. refl)

exec-canonical_example :
    exec outside four (canonical blank (binary_op i64 op_mul 2 1 2)) (λ x. x + 1) 0
    ≡ exec outside four (binary_op i64 op_mul 2 1 2) (λ x. x + 1) 0
exec-canonical_example =
    exec-canonical outside four blank (λ x. x + 1) 0 (binary_op i64 op_mul 2 1 2)

exec-propagate_example :
    exec outside four (propagate four (reset_all_temps blank 4) (mov i64 2 1)) (λ x. x + 1) 0
    ≡ exec outside four (mov i64 2 1) (λ x. x + 1) 0
exec-propagate_example =
    exec-propagate outside four (reset_all_temps blank 4) (λ x. x + 1) start-IsSound (mov i64 2 1) 0
      (has 2 (omega arith), record { lt = omega arith; type = λ e. refl })

reset_temp-IsSound_example :
    IsSound four (reset_temp (reset_all_temps blank 4) 3) (update (λ x. x + 1) 3 9)
reset_temp-IsSound_example =
    reset_temp-IsSound four (reset_all_temps blank 4) (λ x. x + 1) start-IsSound 3 (omega arith) 9
      (omega arith)

do_constant_folding_cond_n-turned_example :
    (cond_number (tcg_invert_cond leu) ≡ 13)
    × (do_constant_folding_cond_n 32 3 5 (tcg_invert_cond leu)
        ≡ opposite (do_constant_folding_cond_n 32 3 5 leu))
    × (cond_number (tcg_swap_cond leu) ≡ 5)
    × (do_constant_folding_cond_n 32 5 3 (tcg_swap_cond leu)
        ≡ do_constant_folding_cond_n 32 3 5 leu)
do_constant_folding_cond_n-turned_example = do_constant_folding_cond_n-turned 32 3 5 leu

-- What is known after temporary 2 got the value of global 1.
abbrev known_of : Option Temps → Temps
known_of none = blank
known_of (some temps) = temps

abbrev ringed : Temps
ringed = known_of (tcg_opt_gen_mov four (reset_all_temps blank 4) 2 1)

known_of-IsSound :
    (s : Context) (v : ℕ → ℕ) (r : Option Temps) → Moved s v r → IsSound s (known_of r) v
unfolding Moved
known_of-IsSound s v none e = absurd e
known_of-IsSound s v (some temps) e = e

ringed_copy : is_copy (ringed.state 2) ≡ true
unfolding tcg_opt_gen_mov reset_all_temps forget reset_temp unlink link
ringed_copy = refl

search_copies-ends_example : search_copies (λ i. i == 0) ringed 4 2 (ringed.next_copy 2) ≢ none
search_copies-ends_example =
    search_copies-ends four ringed (update (λ x. x + 1) 2 2)
      (known_of-IsSound four (update (λ x. x + 1) 2 2)
        (tcg_opt_gen_mov four (reset_all_temps blank 4) 2 1) tcg_opt_gen_mov-IsSound_example)
      2 (λ i. i == 0) (omega arith) ringed_copy
