-- ===== src/Tcg/Optimize/Simplify/TwoInputs.antt =====
-- The simplifications of an operation with two inputs give what the operation gives.
use fist_ame.Base.{
  ◌==◌, ==_iff, Bool-cases, within_all, bit_and_not, w64, not64, ℕ, ◌%◌, ◌<◌, bit_and, ◌≡◌, refl,
  sym, ap, ◌∙◌, subst, ◌≢◌, ◌⊎◌, inl, inr, true, false, not, ◌&&◌, Option, none, some, arith,
}
use fist_ame.Tcg.Op.{
  Width, Binary, i32, i64, op_and, op_or, op_shl, op_shr, op_sar, op_rotl, op_rotr, binary_op,
}
use fist_ame.Tcg.Meaning.{words, binary}
use fist_ame.Tcg.Temps.{is_const, Temps, Context, temps_are_copies}
use fist_ame.Tcg.Temps.Sound.{
  IsSound, const_lt, words_lt, mod_words, zero_word, within_word, whole_word,
}
use fist_ame.Tcg.Temps.Copies.{temps_are_copies-SameAs, copies_const}
use fist_ame.Tcg.Fold.Sound.{Counts, Folds, do_constant_folding-binary}
use fist_ame.Tcg.Exec.{World, read, exec}
use fist_ame.Tcg.Exec.Typed.{Has}
use fist_ame.Tcg.Optimize.{is_zero, gen_movi}
use fist_ame.Tcg.Optimize.Moves.{
  Assigns, gen_movi-Assigns, kept-Assigns, gen_mov-Assigns, const_word, gen_mov_const-Assigns,
}
use fist_ame.Tcg.Optimize.Simplify.{
  affected_binary, evaluate_binary, same_binary, mask_binary_step, fold_binary,
}
use fist_ame.Tcg.Optimize.Simplify.OneInput.{Has-HasWord, zero_is}
use fist_ame.Tcg.Optimize.Simplify.Masks.{IsShiftable, Zeroes, mask_binary-Zeroes}
use fist_ame.Tcg.Optimize.Simplify.Identities.{
  zero_shift, keep_zero, clear_zero, keep_same, clear_same, binary_lt,
}
use fist_ame.Tcg.Fold.Words.{and_words}
use fist_ame.Tcg.Optimize.Tables.{
  is_shift, keeps_with_zero, clears_with_zero, keeps_same, clears_same,
}

-- The counts of constant shifts are below the width, and no constant is combined with itself by `or`, where
-- the code fails an assertion.
pub record IsFoldable (temps : Temps) (w : Width) (f : Binary) (a b : ℕ) : Type 0 where
  pub counts : is_const (temps.state b) ≡ true → IsShiftable w f (temps.val b)
  pub apart : f ≡ op_or → is_const (temps.state a) ≡ true → a ≢ b

IsShiftable-Counts : (w : Width) (f : Binary) (k : ℕ) → IsShiftable w f k → Counts w f k
IsShiftable-Counts i32 op_shl k c = omega (arith, c)
IsShiftable-Counts i64 op_shl k c = omega (arith, c)
IsShiftable-Counts i32 op_shr k c = omega (arith, c)
IsShiftable-Counts i64 op_shr k c = omega (arith, c)
IsShiftable-Counts i32 op_sar k c = omega (arith, c)
IsShiftable-Counts i64 op_sar k c = omega (arith, c)
IsShiftable-Counts w op_rotl k c = c
IsShiftable-Counts w op_rotr k c = c
IsShiftable-Counts w _ k c = tt

and_word :
    (w : Width) (x v : ℕ) → x < words w → bit_and x v ≡ x → binary w op_and x (v % words w) ≡ x
unfolding binary
and_word w x v p e =
    let r = and_words w x v in
    let l : x % words w ≡ x = whole_word w x p in
    subst (λ (t : ℕ). bit_and t (v % words w) ≡ t) l (sym r ∙ ap (λ (t : ℕ). t % words w) e)

keeps_same_cases : (f : Binary) → keeps_same f ≡ true → (f ≡ op_or) ⊎ (f ≡ op_and)
keeps_same_cases op_or e = inl refl
keeps_same_cases op_and e = inr refl
keeps_same_cases _ e = cc e

affected_self :
    (temps : Temps) (f : Binary) (a b : ℕ)
    → f ≡ op_and
    → a ≡ b
    → is_const (temps.state a) ≡ true
    → temps.mask a < w64
    → affected_binary temps f a b ≡ 0
unfolding affected_binary
affected_self temps f a b o ab k p =
    rw (o, ← ab, affected_binary, k) (bit_and_not 64 (temps.mask a) p)

only_and :
    (temps : Temps) (f : Binary) (a b : ℕ)
    → affected_binary temps f a b ≡ 0
    → (f ≡ op_and)
      × (is_const (temps.state b) ≡ true)
      × (bit_and (temps.mask a) (not64 (temps.mask b)) ≡ 0)
unfolding affected_binary
only_and temps op_and a b z = elim (Bool-cases (is_const (temps.state b))) [
  | inl k ↦ (refl, k, rw (affected_binary, k) at z)
  | inr k ↦ absurd (omega (arith, rw (affected_binary, k) at z))
]
only_and temps _ a b z = absurd (omega (arith, z))

module _ {M : Type 0} (world : World M) (s : Context) (temps : Temps) (vals : ℕ → ℕ) (m : M)
    (h : IsSound s temps vals) where
  module _ (w : Width) (f : Binary) (dst a b : ℕ) (d : Has s w dst) (ta : Has s w a)
      (tb : Has s w b) (ok : IsFoldable temps w f a b) where
    const_a : is_const (temps.state a) ≡ true → read w vals a ≡ temps.val a % words w
    const_a = const_word world s temps vals m h w a (Has-HasWord s w a ta)

    const_b : is_const (temps.state b) ≡ true → read w vals b ≡ temps.val b % words w
    const_b = const_word world s temps vals m h w b (Has-HasWord s w b tb)

    -- A result that is 0 for certain.
    movi_zero :
        binary w f (read w vals a) (read w vals b) ≡ 0
        → Assigns world s vals m dst
            (binary w f (read w vals a) (read w vals b))
            (gen_movi temps w dst 0)
    movi_zero z =
        gen_movi-Assigns world s temps vals m h w dst 0 _ d (omega arith) (z ∙ sym (zero_word w))

    folded :
        (r : Option ℕ)
        → Folds w f (temps.val a) (temps.val b) r
        → is_const (temps.state a) ≡ true
        → is_const (temps.state b) ≡ true
        → Assigns world s vals m dst
            (binary w f (read w vals a) (read w vals b))
            (elim r [ none ↦ none | some tmp ↦ gen_movi temps w dst tmp ])
    folded none e ka kb = absurd e
    folded (some tmp) e ka kb =
        let v : tmp ≡ binary w f (read w vals a) (read w vals b) = rw (const_a ka, const_b kb) e in
        let lt : tmp < words w =
          rw v (binary_lt w f _ _ (mod_words w (vals a)) (mod_words w (vals b))) in
        gen_movi-Assigns world s temps vals m h w dst tmp _ d (words_lt w tmp lt)
          (sym v ∙ sym (whole_word w tmp lt))

    evaluate_binary-Assigns :
        Assigns world s vals m dst
          (binary w f (read w vals a) (read w vals b))
          (evaluate_binary s temps w f dst a b)
    unfolding evaluate_binary exec
    evaluate_binary-Assigns =
        elim (Bool-cases (is_const (temps.state a) && is_const (temps.state b))) [
          | inl k ↦
              let ka : is_const (temps.state a) ≡ true = ground (arith, k) in
              let kb : is_const (temps.state b) ≡ true = ground (arith, k) in
              let r =
                do_constant_folding-binary w f (temps.val a) (temps.val b)
                  (const_lt s temps vals h a ta.lt ka) (const_lt s temps vals h b tb.lt kb)
                  (IsShiftable-Counts w f _ (ok.counts kb)) in
              rw (evaluate_binary, k) (folded _ r ka kb)
          | inr k ↦
              rw (evaluate_binary, k)
                (kept-Assigns world s temps vals m h (binary_op w f dst a b) w dst _ d
                  (binary_lt w f _ _ (mod_words w (vals a)) (mod_words w (vals b))) refl
                  (λ label. refl))
        ]

    same_read : temps_are_copies s temps a b ≡ true → read w vals b ≡ read w vals a
    same_read t =
        ap (λ (t : ℕ). t % words w) (temps_are_copies-SameAs s temps vals h a b ta.lt t).val

    same_binary-Assigns :
        (affected_binary temps f a b ≢ 0)
        → Assigns world s vals m dst
            (binary w f (read w vals a) (read w vals b))
            (same_binary s temps w f dst a b)
    unfolding same_binary
    same_binary-Assigns na = elim (Bool-cases (clears_with_zero f && is_zero temps b)) [
      | inl z ↦
          let cz : clears_with_zero f ≡ true = ground (arith, z) in
          let zb : is_zero temps b ≡ true = ground (arith, z) in
          rw (same_binary, z)
            (movi_zero (
              ap (binary w f (read w vals a)) (zero_is world s temps vals m h w b tb zb)
              ∙ clear_zero w f (read w vals a) cz))
      | inr z ↦ elim (Bool-cases (keeps_same f && temps_are_copies s temps a b)) [
        | inl k ↦
            let ks : keeps_same f ≡ true = ground (arith, k) in
            let cp : temps_are_copies s temps a b ≡ true = ground (arith, k) in
            rw
              (
                same_binary,
                z,
                k,
                same_read cp,
                keep_same w f (read w vals a) (mod_words w (vals a)) ks,
              )
              (gen_mov-Assigns world s temps vals m h w dst a d ta.lt (no_const ks cp))
        | inr k ↦ elim (Bool-cases (clears_same f && temps_are_copies s temps a b)) [
          | inl c ↦
              let cs : clears_same f ≡ true = ground (arith, c) in
              let cp : temps_are_copies s temps a b ≡ true = ground (arith, c) in
              rw (same_binary, z, k, c)
                (movi_zero (
                  ap (binary w f (read w vals a)) (same_read cp)
                  ∙ clear_same w f (read w vals a) (mod_words w (vals a)) cs))
          | inr c ↦ rw (same_binary, z, k, c) evaluate_binary-Assigns
        ]
      ]
    ]
      where
        no_const :
            keeps_same f ≡ true
            → temps_are_copies s temps a b ≡ true
            → is_const (temps.state a) ≡ false
        no_const ks cp = elim (Bool-cases (is_const (temps.state a))) [
          | inr k ↦ k
          | inl k ↦
              let ab = copies_const s temps a b cp k in
              elim (keeps_same_cases f ks) [
                | inl o ↦ absurd (ok.apart o k ab)
                | inr o ↦ absurd (na (affected_self temps f a b o ab k (h.mask_lt a ta.lt)))
              ]
        ]

    mask_step-Assigns :
        (r : Option ℕ)
        → Zeroes w f (read w vals a) (read w vals b) r
        → Assigns world s vals m dst
            (binary w f (read w vals a) (read w vals b))
            (elim r [ none ↦ none | some mask ↦ mask_binary_step s temps w f dst a b mask ])
    unfolding mask_binary_step
    mask_step-Assigns none z = absurd z
    mask_step-Assigns (some mask) z = elim (Bool-cases (mask == 0)) [
      | inl e ↦ rw (mask_binary_step, e) (movi_zero (z ((==_iff mask 0).0 e)))
      | inr e ↦ elim (Bool-cases (affected_binary temps f a b == 0)) [
        | inl u ↦
            let o = only_and temps f a b ((==_iff _ 0).0 u) in
            rw (mask_binary_step, e, u, covered o)
              (gen_mov_const-Assigns world s temps vals m h w dst a d ta.lt const_a)
        | inr u ↦
            rw (mask_binary_step, e, u) (same_binary-Assigns (λ q. absurd (ground (arith, u, q))))
      ]
    ]
      where
        covered :
            (f ≡ op_and)
              × (is_const (temps.state b) ≡ true)
              × (bit_and (temps.mask a) (not64 (temps.mask b)) ≡ 0)
            → binary w f (read w vals a) (read w vals b) ≡ read w vals a
        covered o =
            let x = read w vals a in
            let inside : bit_and x (temps.val b) ≡ x =
              within_all 64 x (temps.mask a) (temps.val b) (words_lt w x (mod_words w (vals a)))
                (const_lt s temps vals h b tb.lt o.1)
                (within_word w (vals a) (temps.mask a) (h.masked a ta.lt))
                (rw (← h.exact b tb.lt o.1) o.2) in
            rw (o.0, const_b o.1) (and_word w x (temps.val b) (mod_words w (vals a)) inside)

    -- An operation with two inputs whose counts are defined is simplified to one that assigns the same.
    pub fold_binary-Assigns :
        Assigns world s vals m dst
          (binary w f (read w vals a) (read w vals b))
          (fold_binary s temps w f dst a b)
    unfolding fold_binary
    fold_binary-Assigns = elim (Bool-cases (is_shift f && is_zero temps a)) [
      | inl z ↦
          let sf : is_shift f ≡ true = ground (arith, z) in
          let za : is_zero temps a ≡ true = ground (arith, z) in
          rw (fold_binary, z)
            (movi_zero (
              ap (λ (t : ℕ). binary w f t (read w vals b))
                (zero_is world s temps vals m h w a ta za)
              ∙ zero_shift w f (read w vals b) sf))
      | inr z ↦
          elim (Bool-cases
            (keeps_with_zero f && not (is_const (temps.state a)) && is_zero temps b)) [
              | inl k ↦
                  let kf : keeps_with_zero f ≡ true = ground (arith, k) in
                  let nc : is_const (temps.state a) ≡ false = ground (arith, k) in
                  let zb : is_zero temps b ≡ true = ground (arith, k) in
                  rw
                    (
                      fold_binary,
                      z,
                      k,
                      zero_is world s temps vals m h w b tb zb,
                      keep_zero w f (read w vals a) (mod_words w (vals a)) kf,
                    )
                    (gen_mov-Assigns world s temps vals m h w dst a d ta.lt nc)
              | inr k ↦
                  rw (fold_binary, z, k)
                    (mask_step-Assigns _ (
                      mask_binary-Zeroes w temps a b (read w vals a) (read w vals b)
                        (mod_words w (vals a)) (h.mask_lt a ta.lt)
                        (within_word w (vals a) (temps.mask a) (h.masked a ta.lt))
                        (within_word w (vals b) (temps.mask b) (h.masked b tb.lt)) f
                        (h.mask_lt b tb.lt) (mod_words w (vals b)) const_b ok.counts))
            ]
    ]
