-- ===== src/Tcg/Optimize/Simplify/OneInput.antt =====
-- The simplifications of an operation with one input give what the operation gives.
use fist_ame.Base.{
  bit_and-mod_self, ◌==◌, nz, ==_iff, Bool-cases, w64, not64, ℕ, ◌%◌, ◌^◌, ◌<◌, bit_and, ◌≡◌, refl,
  sym, ap, ◌∙◌, subst, inl, inr, true, arith,
}
use fist_ame.Tcg.Op.{
  Width, Unary, i32, i64, op_not, op_neg, op_ext8s, op_ext8u, op_ext16s, op_ext16u, op_ext32s,
  op_ext32u, unary_op,
}
use fist_ame.Tcg.Meaning.{words, unary}
use fist_ame.Tcg.Temps.{is_const, Temps, Context}
use fist_ame.Tcg.Temps.Sound.{
  IsSound, const_lt, words_lt, mod_words, zero_word, within_word, whole_word,
}
use fist_ame.Tcg.Fold.{do_constant_folding_unary}
use fist_ame.Tcg.Fold.Sound.{do_constant_folding_unary-unary}
use fist_ame.Tcg.Exec.{World, read, exec}
use fist_ame.Tcg.Exec.Typed.{Has, HasWord, HasSource}
use fist_ame.Tcg.Optimize.Moves.{
  Assigns, gen_movi-Assigns, kept-Assigns, const_word, gen_mov_const-Assigns,
}
use fist_ame.Tcg.Optimize.Simplify.{
  extension_mask, mask_unary, affected_unary, evaluate_unary, fold_unary,
}
use fist_ame.Tcg.Optimize.Simplify.Extensions.{unary_lt, low_all, mask_zero, affected_zero}
use fist_ame.Tcg.Optimize.{is_zero}

pub Has-HasWord : (s : Context) (w : Width) (x : ℕ) → Has s w x → HasWord s w x
Has-HasWord s w x t = record { lt = t.lt; type = λ e. t.type ∙ e }

module _ {M : Type 0} (world : World M) (s : Context) (temps : Temps) (vals : ℕ → ℕ) (m : M)
    (h : IsSound s temps vals) where
  source_lt : (w : Width) (f : Unary) (x : ℕ) → HasSource s w f x → x < s.nb_temps
  source_lt w op_ext32s x t = t.1
  source_lt w op_ext32u x t = t.1
  source_lt w op_not x t = t.lt
  source_lt w op_neg x t = t.lt
  source_lt w op_ext8s x t = t.lt
  source_lt w op_ext8u x t = t.lt
  source_lt w op_ext16s x t = t.lt
  source_lt w op_ext16u x t = t.lt

  -- A temporary that is known to be 0.
  pub zero_is : (w : Width) (x : ℕ) → Has s w x → is_zero temps x ≡ true → read w vals x ≡ 0
  unfolding is_zero
  zero_is w x t z =
      let k : is_const (temps.state x) ≡ true = ground (arith, z) in
      let v : temps.val x ≡ 0 = ground (arith, z) in
      const_word world s temps vals m h w x (Has-HasWord s w x t) k
      ∙ ap (λ (t : ℕ). t % words w) v
      ∙ zero_word w

  -- The extensions of 32 bits read the same of a constant of either type.
  low_words : (v : Width) (x : ℕ) → x % words v % w64 % 2 ^ 32 ≡ x % w64 % 2 ^ 32
  low_words i32 x = omega arith
  low_words i64 x = omega arith

  source_unary :
      (w : Width) (f : Unary) (a : ℕ)
      → HasSource s w f a
      → is_const (temps.state a) ≡ true
      → unary w f (read w vals a) ≡ unary w f (temps.val a % words w)
  unfolding unary
  source_unary i64 op_ext32s a t k = rw (h.known a t.1 k, low_words (s.type a) (temps.val a)) refl
  source_unary i64 op_ext32u a t k = rw (h.known a t.1 k, low_words (s.type a) (temps.val a)) refl
  source_unary i32 op_ext32s a t k = cc (t.0)
  source_unary i32 op_ext32u a t k = cc (t.0)
  source_unary w op_not a t k =
      rw (const_word world s temps vals m h w a (Has-HasWord s w a t) k) refl
  source_unary w op_neg a t k =
      rw (const_word world s temps vals m h w a (Has-HasWord s w a t) k) refl
  source_unary w op_ext8s a t k =
      rw (const_word world s temps vals m h w a (Has-HasWord s w a t) k) refl
  source_unary w op_ext8u a t k =
      rw (const_word world s temps vals m h w a (Has-HasWord s w a t) k) refl
  source_unary w op_ext16s a t k =
      rw (const_word world s temps vals m h w a (Has-HasWord s w a t) k) refl
  source_unary w op_ext16u a t k =
      rw (const_word world s temps vals m h w a (Has-HasWord s w a t) k) refl

  short_word :
      (v : Width) (x : ℕ)
      → x < w64
      → bit_and x (not64 0xffff_ffff) ≡ 0
      → x % words v % w64 ≡ x % w64
  short_word i64 x p z = omega arith
  short_word i32 x p z =
      let e : x % 2 ^ 32 ≡ x = low_all i64 x x p (self x p) 32 (omega arith) z in omega (arith, e)
    where
      self : (x : ℕ) → x < w64 → bit_and x x ≡ x
      self x p =
          let e : x % 2 ^ 64 ≡ x = omega (arith, p) in
          subst (λ (t : ℕ). bit_and t x ≡ t) e (bit_and-mod_self 64 x)

  source_word :
      (w : Width) (f : Unary) (a : ℕ)
      → HasSource s w f a
      → affected_unary temps f a ≡ 0
      → is_const (temps.state a) ≡ true
      → read w vals a ≡ temps.val a % words w
  unfolding affected_unary extension_mask
  source_word i64 op_ext32s a t z k =
      rw (h.known a t.1 k) (elim (Bool-cases (nz (bit_and (temps.mask a) 0x8000_0000))) [
        | inl n ↦ absurd (omega (arith, rw (affected_unary, extension_mask, n) at z))
        | inr n ↦
            short_word (s.type a) (temps.val a) (const_lt s temps vals h a t.1 k)
              (rw (← h.exact a t.1 k) (rw (affected_unary, extension_mask, n) at z))
      ])
  source_word i64 op_ext32u a t z k = rw (h.known a t.1 k) (
      short_word (s.type a) (temps.val a) (const_lt s temps vals h a t.1 k)
        (rw (← h.exact a t.1 k) z))
  source_word i32 op_ext32s a t z k = cc (t.0)
  source_word i32 op_ext32u a t z k = cc (t.0)
  source_word w op_not a t z k = const_word world s temps vals m h w a (Has-HasWord s w a t) k
  source_word w op_neg a t z k = const_word world s temps vals m h w a (Has-HasWord s w a t) k
  source_word w op_ext8s a t z k = const_word world s temps vals m h w a (Has-HasWord s w a t) k
  source_word w op_ext8u a t z k = const_word world s temps vals m h w a (Has-HasWord s w a t) k
  source_word w op_ext16s a t z k = const_word world s temps vals m h w a (Has-HasWord s w a t) k
  source_word w op_ext16u a t z k = const_word world s temps vals m h w a (Has-HasWord s w a t) k

  module _ (w : Width) (f : Unary) (dst a : ℕ) (d : Has s w dst) (t : HasSource s w f a) where
    value : ℕ
    value = unary w f (read w vals a)

    value_lt : unary w f (read w vals a) < words w
    value_lt = unary_lt w f (read w vals a) (mod_words w (vals a))

    evaluate_unary-Assigns :
        Assigns world s vals m dst (unary w f (read w vals a)) (evaluate_unary s temps w f dst a)
    unfolding evaluate_unary exec
    evaluate_unary-Assigns = elim (Bool-cases (is_const (temps.state a))) [
      | inl k ↦
          let e =
            do_constant_folding_unary-unary w f (temps.val a)
              (const_lt s temps vals h a (source_lt w f a t) k) in
          rw (evaluate_unary, k)
            (gen_movi-Assigns world s temps vals m h w dst
              (do_constant_folding_unary w f (temps.val a)) (unary w f (read w vals a)) d
              (rw e (words_lt w _ (unary_lt w f _ (mod_words w (temps.val a)))))
              (rw (source_unary w f a t k, e)
                (sym (whole_word w _ (unary_lt w f _ (mod_words w (temps.val a)))))))
      | inr k ↦
          rw (evaluate_unary, k)
            (kept-Assigns world s temps vals m h (unary_op w f dst a) w dst
              (unary w f (read w vals a)) d value_lt refl (λ label. refl))
    ]

    pub fold_unary-Assigns :
        Assigns world s vals m dst (unary w f (read w vals a)) (fold_unary s temps w f dst a)
    unfolding fold_unary
    fold_unary-Assigns =
        let al = source_lt w f a t in
        let p = mod_words w (vals a) in
        let i = within_word w (vals a) (temps.mask a) (h.masked a al) in
        elim (Bool-cases (mask_unary temps f a == 0)) [
          | inl z ↦
              rw (fold_unary, z)
                (gen_movi-Assigns world s temps vals m h w dst 0 (unary w f (read w vals a)) d
                  (omega arith)
                  (mask_zero w temps a (read w vals a) p i f (h.mask_lt a al)
                      ((==_iff (mask_unary temps f a) 0).0 z)
                    ∙ sym (zero_word w)))
          | inr z ↦ elim (Bool-cases (affected_unary temps f a == 0)) [
            | inl u ↦
                let u0 = (==_iff (affected_unary temps f a) 0).0 u in
                rw (fold_unary, z, u, affected_zero w temps a (read w vals a) p i f u0)
                  (gen_mov_const-Assigns world s temps vals m h w dst a d al
                    (source_word w f a t u0))
            | inr u ↦ rw (fold_unary, z, u) evaluate_unary-Assigns
          ]
        ]
