-- ===== src/Tcg/Optimize/Simplify/Steps.antt =====
-- One round of the loop of `tcg_constant_folding` keeps what the operation does.
use fist_ame.Base.{if◌then◌else◌, ℕ, ◌+◌, ◌%◌, ◌≤◌, ◌<◌, ◌≡◌, refl, ◌∙◌, Option, none, some, arith}
use fist_ame.Tcg.Op.{
  Width, op_bits, Op, i32, i64, nop, movi, mov, unary_op, binary_op, deposit, setcond, movcond,
  brcond, br, set_label, call, other,
}
use fist_ame.Tcg.Meaning.{words, unary, binary, holds}
use fist_ame.Tcg.Temps.{Temps, Context}
use fist_ame.Tcg.Temps.Sound.{IsSound}
use fist_ame.Tcg.Temps.Resets.{reset_all_temps-IsSound}
use fist_ame.Tcg.Fold.Compare.{Compares}
use fist_ame.Tcg.Exec.{World, is_label, read, with_field, exec}
use fist_ame.Tcg.Exec.Typed.{IsTyped}
use fist_ame.Tcg.Optimize.{propagate, swap_cond_args, canonical}
use fist_ame.Tcg.Optimize.Copies.{propagate-IsTyped, exec-propagate}
use fist_ame.Tcg.Optimize.Turned.{exec-canonical, canonical-IsTyped}
use fist_ame.Tcg.Optimize.Moves.{gen_movi-Assigns, const_word, gen_mov_const-Assigns}
use fist_ame.Tcg.Optimize.Simulation.{Simulates, Assigns-Simulates}
use fist_ame.Tcg.Optimize.Simplify.{fold_mov, fold_op, fold_step}
use fist_ame.Tcg.Optimize.Simplify.OneInput.{fold_unary-Assigns}
use fist_ame.Tcg.Optimize.Simplify.TwoInputs.{IsFoldable, fold_binary-Assigns}
use fist_ame.Tcg.Optimize.Simplify.Conditions.{
  fold_setcond-Assigns, fold_brcond-Simulates, fold_movcond-Assigns,
}
use fist_ame.Tcg.Optimize.Simplify.Deposits.{fold_deposit-Assigns}
use fist_ame.Tcg.Optimize.Simplify.Calls.{call-Simulates, other-Simulates}

-- The operations for which the code has a result: shifts and rotations by constants below the width (and
-- rotations by more than 0), conditions that compare, fields of less than 64 bits.
abbrev pub IsAccepted : Temps → Op → Type 0
IsAccepted temps (binary_op w f dst a b) = IsFoldable temps w f a b
IsAccepted temps (setcond w dst a b c) = Compares c
IsAccepted temps (movcond w dst a b v1 v2 c) = Compares c
IsAccepted temps (brcond w a b c label) = Compares c
IsAccepted temps (deposit w dst a b ofs len) = len < 64
IsAccepted temps _ = Unit

propagate_label :
    (s : Context) (temps : Temps) (op : Op) (label : ℕ)
    → is_label label (propagate s temps op) ≡ is_label label op
unfolding propagate
propagate_label s temps (set_label k) label = refl
propagate_label s temps _ label = refl

canonical_label :
    (temps : Temps) (op : Op) (label : ℕ) → is_label label (canonical temps op) ≡ is_label label op
unfolding canonical swap_cond_args
canonical_label temps (binary_op w f dst a b) label = ground arith
canonical_label temps (setcond w dst a b c) label = ground arith
canonical_label temps (movcond w dst a b v1 v2 c) label = ground arith
canonical_label temps (brcond w a b c l) label = ground arith
canonical_label temps (set_label k) label = refl
canonical_label temps _ label = refl

module _ {M : Type 0} (world : World M) (s : Context) (temps : Temps) (vals : ℕ → ℕ) (m : M)
    (g : s.nb_globals ≤ s.nb_temps) (h : IsSound s temps vals) where
  pub fold_op-Simulates :
      (op : Op)
      → IsTyped s op
      → IsAccepted temps op
      → Simulates world s vals m op (fold_op s temps op)
  unfolding fold_op fold_mov exec
  fold_op-Simulates nop t ok = (refl, h, λ label. refl)
  fold_op-Simulates (movi w dst val) t ok =
      Assigns-Simulates world s vals m (movi w dst val) dst (val % words w)
        (fold_op s temps (movi w dst val)) refl (λ label. refl)
        (gen_movi-Assigns world s temps vals m h w dst val (val % words w) t.0 t.1 refl)
  fold_op-Simulates (mov w dst src) t ok =
      Assigns-Simulates world s vals m (mov w dst src) dst (read w vals src)
        (fold_op s temps (mov w dst src)) refl (λ label. refl)
        (gen_mov_const-Assigns world s temps vals m h w dst src t.0 t.1.lt
          (const_word world s temps vals m h w src t.1))
  fold_op-Simulates (unary_op w f dst a) t ok =
      Assigns-Simulates world s vals m (unary_op w f dst a) dst (unary w f (read w vals a))
        (fold_op s temps (unary_op w f dst a)) refl (λ label. refl)
        (fold_unary-Assigns world s temps vals m h w f dst a t.0 t.1)
  fold_op-Simulates (binary_op w f dst a b) t ok =
      Assigns-Simulates world s vals m (binary_op w f dst a b) dst
        (binary w f (read w vals a) (read w vals b)) (fold_op s temps (binary_op w f dst a b)) refl
        (λ label. refl) (fold_binary-Assigns world s temps vals m h w f dst a b t.0 t.1 t.2 ok)
  fold_op-Simulates (deposit w dst a b ofs len) t ok =
      Assigns-Simulates world s vals m (deposit w dst a b ofs len) dst
        (with_field ofs len (read w vals a) (read w vals b))
        (fold_op s temps (deposit w dst a b ofs len)) refl (λ label. refl)
        (fold_deposit-Assigns world s temps vals m h w dst a b ofs len t.0 t.1 t.2 t.4 ok
          (offset_lt w t.3 t.4))
    where
      offset_lt : (w : Width) → 0 < len → ofs + len ≤ op_bits w → ofs < 64
      offset_lt i32 p l = omega (arith, p, l)
      offset_lt i64 p l = omega (arith, p, l)
  fold_op-Simulates (setcond w dst a b c) t ok =
      Assigns-Simulates world s vals m (setcond w dst a b c) dst
        (if holds w c (read w vals a) (read w vals b) then 1 else 0)
        (fold_op s temps (setcond w dst a b c)) refl (λ label. refl)
        (fold_setcond-Assigns world s temps vals m h w dst a b c t.0 t.1 t.2 ok)
  fold_op-Simulates (movcond w dst a b v1 v2 c) t ok =
      Assigns-Simulates world s vals m (movcond w dst a b v1 v2 c) dst
        (if holds w c (read w vals a) (read w vals b) then read w vals v1 else read w vals v2)
        (fold_op s temps (movcond w dst a b v1 v2 c)) refl (λ label. refl)
        (fold_movcond-Assigns world s temps vals m h w dst a b v1 v2 c t.0 t.1 t.2 t.3 t.4 ok)
  fold_op-Simulates (brcond w a b c label) t ok =
      fold_brcond-Simulates world s temps vals m h w a b c label t.0 t.1 ok
  fold_op-Simulates (br label) t ok =
      (refl, reset_all_temps-IsSound s temps vals h.range, λ label'. refl)
  fold_op-Simulates (set_label label) t ok =
      (refl, reset_all_temps-IsSound s temps vals h.range, λ label'. refl)
  fold_op-Simulates (call outs ins flags cargs) t ok =
      call-Simulates s world temps vals m h outs ins flags cargs g t.0
  fold_op-Simulates (other def outs ins cargs) t ok =
      other-Simulates s world temps vals m h def outs ins cargs t.0

  -- One round of the optimiser, on a well typed operation that it accepts and where what is known
  -- is true, emits an operation with the same outcome, and what is known afterwards is true of the
  -- values of that outcome.
  pub fold_step-Simulates :
      (op : Op)
      → IsTyped s op
      → IsAccepted temps (canonical temps (propagate s temps op))
      → Simulates world s vals m op (fold_step s temps op)
  unfolding fold_step
  fold_step-Simulates op t ok =
      let e : exec world s (canonical temps (propagate s temps op)) vals m
          ≡ exec world s op vals m =
        exec-canonical world s temps vals m (propagate s temps op)
        ∙ exec-propagate world s temps vals h op m t in
      let r =
        fold_op-Simulates (canonical temps (propagate s temps op))
          (canonical-IsTyped s temps _ (propagate-IsTyped world s temps vals h op t)) ok in
      same _ (fold_op s temps (canonical temps (propagate s temps op))) e
        (λ label.
          canonical_label temps (propagate s temps op) label ∙ propagate_label s temps op label)
        r
    where
      same :
          (op' : Op) (r : Option (Op × Temps))
          → exec world s op' vals m ≡ exec world s op vals m
          → ((label : ℕ) → is_label label op' ≡ is_label label op)
          → Simulates world s vals m op' r
          → Simulates world s vals m op r
      same op' none e i a = a
      same op' (some (o, t)) e i a = rw (← e) (a.0, a.1, λ label. a.2 label ∙ i label)
