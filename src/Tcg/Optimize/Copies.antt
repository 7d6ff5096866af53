-- ===== src/Tcg/Optimize/Copies.antt =====
-- Copy propagation and the order of arguments change nothing of what an operation does.
use fist_ame.Base.{Bool-cases, ℕ, ◌<◌, ◌≡◌, refl, ◌∙◌, inl, inr, List, [], ◌∷◌, map}
use fist_ame.Tcg.Op.{
  Width, Unary, Op, op_not, op_neg, op_ext8s, op_ext8u, op_ext16s, op_ext16u, op_ext32s, op_ext32u,
  nop, movi, mov, unary_op, binary_op, deposit, setcond, movcond, brcond, br, set_label, call,
  other,
}
use fist_ame.Tcg.Temps.{is_copy, Temps, Context}
use fist_ame.Tcg.Temps.Sound.{IsSound}
use fist_ame.Tcg.Temps.Copies.{SameAs, find_better_copy-SameAs}
use fist_ame.Tcg.Optimize.{better, propagate}
use fist_ame.Tcg.Exec.{World, exec}
use fist_ame.Tcg.Exec.Typed.{Has, HasWord, HasSource, AllTemps, IsTyped}

module _ {M : Type 0} (world : World M) (s : Context) (temps : Temps) (vals : ℕ → ℕ)
    (h : IsSound s temps vals) where
  pub better-SameAs : (x : ℕ) → x < s.nb_temps → SameAs s vals x (better s temps x)
  unfolding better
  better-SameAs x xl = elim (Bool-cases (is_copy (temps.state x))) [
    | inl c ↦ rw (better, c) (find_better_copy-SameAs s temps vals h x xl c)
    | inr c ↦ rw (better, c) (record { lt = xl; val = refl; type = refl })
  ]

  better-Has : {w : Width} {x : ℕ} → Has s w x → Has s w (better s temps x)
  better-Has {w} {x} t =
      let b = better-SameAs x t.lt in record { lt = b.lt; type = b.type ∙ t.type }

  better-HasWord : {w : Width} {x : ℕ} → HasWord s w x → HasWord s w (better s temps x)
  better-HasWord {w} {x} t =
      let b = better-SameAs x t.lt in record { lt = b.lt; type = λ e. b.type ∙ t.type e }

  better-HasSource :
      (w : Width) (f : Unary) (x : ℕ) → HasSource s w f x → HasSource s w f (better s temps x)
  better-HasSource w op_ext32s x t = (t.0, (better-SameAs x t.1).lt)
  better-HasSource w op_ext32u x t = (t.0, (better-SameAs x t.1).lt)
  better-HasSource w op_not x t = better-Has t
  better-HasSource w op_neg x t = better-Has t
  better-HasSource w op_ext8s x t = better-Has t
  better-HasSource w op_ext8u x t = better-Has t
  better-HasSource w op_ext16s x t = better-Has t
  better-HasSource w op_ext16u x t = better-Has t

  source_lt : (w : Width) (f : Unary) (x : ℕ) → HasSource s w f x → x < s.nb_temps
  source_lt w op_ext32s x t = t.1
  source_lt w op_ext32u x t = t.1
  source_lt w op_not x t = t.lt
  source_lt w op_neg x t = t.lt
  source_lt w op_ext8s x t = t.lt
  source_lt w op_ext8u x t = t.lt
  source_lt w op_ext16s x t = t.lt
  source_lt w op_ext16u x t = t.lt

  better-AllTemps : (xs : List ℕ) → AllTemps s xs → AllTemps s (map (better s temps) xs)
  better-AllTemps [] t = tt
  better-AllTemps (x ∷ xs) t = ((better-SameAs x t.0).lt, better-AllTemps xs t.1)

  pub propagate-IsTyped : (op : Op) → IsTyped s op → IsTyped s (propagate s temps op)
  unfolding propagate
  propagate-IsTyped nop t = t
  propagate-IsTyped (movi w dst val) t = t
  propagate-IsTyped (mov w dst src) t = (t.0, better-HasWord t.1)
  propagate-IsTyped (unary_op w f dst a) t = (t.0, better-HasSource w f a t.1)
  propagate-IsTyped (binary_op w f dst a b) t = (t.0, better-Has t.1, better-Has t.2)
  propagate-IsTyped (deposit w dst a b ofs len) t = (t.0, better-Has t.1, better-Has t.2, t.3, t.4)
  propagate-IsTyped (setcond w dst a b c) t = (t.0, better-Has t.1, better-Has t.2)
  propagate-IsTyped (movcond w dst a b v1 v2 c) t =
      (t.0, better-Has t.1, better-Has t.2, better-Has t.3, better-Has t.4)
  propagate-IsTyped (brcond w a b c label) t = (better-Has t.0, better-Has t.1)
  propagate-IsTyped (br label) t = t
  propagate-IsTyped (set_label label) t = t
  propagate-IsTyped (call outs ins flags cargs) t = (t.0, better-AllTemps ins t.1)
  propagate-IsTyped (other def outs ins cargs) t = (t.0, better-AllTemps ins t.1)

  better_val : (x : ℕ) → x < s.nb_temps → vals (better s temps x) ≡ vals x
  better_val x xl = (better-SameAs x xl).val

  better_vals : (xs : List ℕ) → AllTemps s xs → map vals (map (better s temps) xs) ≡ map vals xs
  better_vals [] t = refl
  better_vals (x ∷ xs) t = rw (better_val x t.0, better_vals xs t.1) refl

  -- To read the better copy of each input changes nothing of what a well typed operation does,
  -- where what is known is true.
  pub exec-propagate :
      (op : Op) (m : M)
      → IsTyped s op
      → exec world s (propagate s temps op) vals m ≡ exec world s op vals m
  unfolding propagate exec
  exec-propagate nop m t = refl
  exec-propagate (movi w dst val) m t = refl
  exec-propagate (mov w dst src) m t = rw (better_val src t.1.lt) refl
  exec-propagate (unary_op w f dst a) m t = rw (better_val a (source_lt w f a t.1)) refl
  exec-propagate (binary_op w f dst a b) m t = rw (better_val a t.1.lt, better_val b t.2.lt) refl
  exec-propagate (deposit w dst a b ofs len) m t =
      rw (better_val a t.1.lt, better_val b t.2.lt) refl
  exec-propagate (setcond w dst a b c) m t = rw (better_val a t.1.lt, better_val b t.2.lt) refl
  exec-propagate (movcond w dst a b v1 v2 c) m t =
      rw (better_val a t.1.lt, better_val b t.2.lt, better_val v1 t.3.lt, better_val v2 t.4.lt) refl
  exec-propagate (brcond w a b c label) m t = rw (better_val a t.0.lt, better_val b t.1.lt) refl
  exec-propagate (br label) m t = refl
  exec-propagate (set_label label) m t = refl
  exec-propagate (call outs ins flags cargs) m t = rw (better_vals ins t.1) refl
  exec-propagate (other def outs ins cargs) m t = rw (better_vals ins t.1) refl
