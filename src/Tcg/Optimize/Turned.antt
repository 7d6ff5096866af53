-- ===== src/Tcg/Optimize/Turned.antt =====
-- The order of the arguments that the optimiser prefers changes nothing of what an operation does.
use fist_ame.Base.{
  if◌then◌else◌, Bool-cases, update, minus_one, ℕ, ◌<◌, ◌≡◌, refl, ap, ◌∙◌, inl, inr, Bool, true,
  false, not, ◌&&◌,
}
use fist_ame.Tcg.Op.{
  Width, Cond, tcg_swap_cond, Op, nop, movi, mov, unary_op, binary_op, deposit, setcond, movcond,
  brcond, br, set_label, call, other,
}
use fist_ame.Tcg.Meaning.{words, holds}
use fist_ame.Tcg.Temps.{Temps, Context}
use fist_ame.Tcg.Temps.Sound.{mod_words}
use fist_ame.Tcg.Optimize.{swap_commutative, commutes, swap_cond_args, canonical}
use fist_ame.Tcg.Exec.{World, read, exec, next}
use fist_ame.Tcg.Exec.Typed.{IsTyped}
use fist_ame.Tcg.Exec.Order.{binary_comm}
use fist_ame.Tcg.Fold.Compare.{holds-tcg_swap_cond, holds-tcg_invert_cond}

read_lt : (w : Width) (vals : ℕ → ℕ) (x : ℕ) → read w vals x < words w
read_lt w vals x = mod_words w (vals x)

if_not {ℓ} : {A : Type ℓ} (b : Bool) (x y : A) → (if not b then x else y) ≡ (if b then y else x)
if_not true x y = refl
if_not false x y = refl

module _ {M : Type 0} (world : World M) (s : Context) (temps : Temps) (vals : ℕ → ℕ) (m : M) where
  exec-swap_cond_args :
      (w : Width) (dst a b v1 v2 : ℕ) (c : Cond)
      → exec world s (swap_cond_args temps w dst a b v1 v2 c) vals m
        ≡ exec world s (movcond w dst a b v1 v2 c) vals m
  unfolding swap_cond_args exec
  exec-swap_cond_args w dst a b v1 v2 c = elim (Bool-cases (swap_commutative temps dst v2 v1)) [
    | inl e ↦
        rw (swap_cond_args, e, holds-tcg_invert_cond w c (read w vals a) (read w vals b))
          (ap (λ (v : ℕ). next (update vals dst v) m)
            (if_not (holds w c (read w vals a) (read w vals b)) _ _))
    | inr e ↦ rw (swap_cond_args, e) refl
  ]

  -- The order of the arguments that the optimiser prefers, with the condition swapped or inverted
  -- to match, changes nothing of what an operation does.
  pub exec-canonical : (op : Op) → exec world s (canonical temps op) vals m ≡ exec world s op vals m
  unfolding canonical exec
  exec-canonical nop = refl
  exec-canonical (movi w dst val) = refl
  exec-canonical (mov w dst src) = refl
  exec-canonical (unary_op w f dst a) = refl
  exec-canonical (deposit w dst a b ofs len) = refl
  exec-canonical (br label) = refl
  exec-canonical (set_label label) = refl
  exec-canonical (call outs ins flags cargs) = refl
  exec-canonical (other def outs ins cargs) = refl
  exec-canonical (binary_op w f dst a b) = elim (Bool-cases (commutes f)) [
    | inr c ↦ rw c refl
    | inl c ↦ elim (Bool-cases (swap_commutative temps dst a b)) [
      | inl e ↦
          rw (c, e)
            (ap (λ (v : ℕ). next (update vals dst v) m)
              (binary_comm w f (read w vals b) (read w vals a) c (read_lt w vals b)
                (read_lt w vals a)))
      | inr e ↦ rw (c, e) refl
    ]
  ]
  exec-canonical (setcond w dst a b c) = elim (Bool-cases (swap_commutative temps dst a b)) [
    | inl e ↦ rw (e, holds-tcg_swap_cond w c (read w vals a) (read w vals b)) refl
    | inr e ↦ rw e refl
  ]
  exec-canonical (brcond w a b c label) = elim (Bool-cases (swap_commutative temps minus_one a b)) [
    | inl e ↦ rw (e, holds-tcg_swap_cond w c (read w vals a) (read w vals b)) refl
    | inr e ↦ rw e refl
  ]
  exec-canonical (movcond w dst a b v1 v2 c) =
      elim (Bool-cases (swap_commutative temps minus_one a b)) [
        | inl e ↦ rw e (
            exec-swap_cond_args w dst b a v1 v2 (tcg_swap_cond c)
            ∙ rw (holds-tcg_swap_cond w c (read w vals a) (read w vals b)) refl)
        | inr e ↦ rw e (exec-swap_cond_args w dst a b v1 v2 c)
      ]

swap_cond_args-IsTyped :
    (s : Context) (temps : Temps) (w : Width) (dst a b v1 v2 : ℕ) (c : Cond)
    → IsTyped s (movcond w dst a b v1 v2 c)
    → IsTyped s (swap_cond_args temps w dst a b v1 v2 c)
unfolding swap_cond_args
swap_cond_args-IsTyped s temps w dst a b v1 v2 c t =
    elim (Bool-cases (swap_commutative temps dst v2 v1)) [
      | inl e ↦ rw (swap_cond_args, e) (t.0, t.1, t.2, t.4, t.3)
      | inr e ↦ rw (swap_cond_args, e) t
    ]

pub canonical-IsTyped :
    (s : Context) (temps : Temps) (op : Op) → IsTyped s op → IsTyped s (canonical temps op)
unfolding canonical
canonical-IsTyped s temps nop t = t
canonical-IsTyped s temps (movi w dst val) t = t
canonical-IsTyped s temps (mov w dst src) t = t
canonical-IsTyped s temps (unary_op w f dst a) t = t
canonical-IsTyped s temps (deposit w dst a b ofs len) t = t
canonical-IsTyped s temps (br label) t = t
canonical-IsTyped s temps (set_label label) t = t
canonical-IsTyped s temps (call outs ins flags cargs) t = t
canonical-IsTyped s temps (other def outs ins cargs) t = t
canonical-IsTyped s temps (binary_op w f dst a b) t =
    elim (Bool-cases (commutes f && swap_commutative temps dst a b)) [
      | inl e ↦ rw e (t.0, t.2, t.1)
      | inr e ↦ rw e t
    ]
canonical-IsTyped s temps (setcond w dst a b c) t =
    elim (Bool-cases (swap_commutative temps dst a b)) [
      | inl e ↦ rw e (t.0, t.2, t.1)
      | inr e ↦ rw e t
    ]
canonical-IsTyped s temps (brcond w a b c label) t =
    elim (Bool-cases (swap_commutative temps minus_one a b)) [
      | inl e ↦ rw e (t.1, t.0)
      | inr e ↦ rw e t
    ]
canonical-IsTyped s temps (movcond w dst a b v1 v2 c) t =
    elim (Bool-cases (swap_commutative temps minus_one a b)) [
      | inl e ↦ rw e (
          swap_cond_args-IsTyped s temps w dst b a v1 v2 (tcg_swap_cond c)
            (t.0, t.2, t.1, t.3, t.4))
      | inr e ↦ rw e (swap_cond_args-IsTyped s temps w dst a b v1 v2 c t)
    ]
