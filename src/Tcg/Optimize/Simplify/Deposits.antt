-- ===== src/Tcg/Optimize/Simplify/Deposits.antt =====
-- The simplifications of deposit.
use native.Mathlib.Nat.{mod-eq_of_lt, one-le-pow, zero-mul}
use mathlib.Core.Path.{ap₂}
use fist_ame.Base.{
  bit_and_mask, bit_or_lt, bit_and_lt_left, ◌==◌, lt→ltb, ==_iff, Bool-cases, within_none,
  within_low, bit_or_zero, w64, ℕ, ◌+◌, ◌-◌, ◌*◌, ◌%◌, ◌^◌, ◌≤◌, ◌<◌, bit_and, ◌≡◌, refl, sym, ap,
  ◌∙◌, inl, inr, true, ◌&&◌, arith,
}
use fist_ame.Tcg.Op.{Width, op_bits, i32, i64, deposit}
use fist_ame.Tcg.Meaning.{words}
use fist_ame.Tcg.Temps.{is_const, Temps, Context}
use fist_ame.Tcg.Temps.Sound.{IsSound, const_lt, words_lt, mod_words, within_word, whole_word}
use fist_ame.Tcg.Exec.{World, read, with_field, exec}
use fist_ame.Tcg.Exec.Typed.{Has}
use fist_ame.Tcg.Optimize.Moves.{Assigns, gen_movi-Assigns, kept-Assigns, const_word}
use fist_ame.Tcg.Optimize.Simplify.{field_mask, insert_field, fold_deposit}
use fist_ame.Tcg.Optimize.Simplify.OneInput.{Has-HasWord}
use fist_ame.Tcg.Optimize.Simplify.Fields.{field_lt, insert_field-with_field}

insert_field_lt : (t ofs x y : ℕ) → x < w64 → insert_field t ofs x y < w64
unfolding insert_field
insert_field_lt t ofs x y p = bit_or_lt 64 _ _ (bit_and_lt_left 64 x _ p) (omega arith)

factor_zero : (a b : ℕ) → 0 < b → a * b ≡ 0 → a ≡ 0
factor_zero a b p z = grind (arith, p, z)

bits_most : (w : Width) → op_bits w ≤ 64
bits_most i32 = omega arith
bits_most i64 = omega arith

-- A field of masks that is 0 is 0 for the words within them.
insert_field_zero :
    (len ofs x y mx my : ℕ)
    → x < w64
    → mx < w64
    → bit_and x mx ≡ x
    → bit_and y my ≡ y
    → ofs + len ≤ 64
    → insert_field (2 ^ len - 1) ofs mx my ≡ 0
    → insert_field (2 ^ len - 1) ofs x y ≡ 0
unfolding insert_field
insert_field_zero len ofs x y mx my px pm hx hy l z =
    let r = bit_or_zero 64 _ _ (bit_and_lt_left 64 mx _ pm) z in
    let x0 = within_none 64 x mx _ px hx r.0 in
    let cut : (v : ℕ) → v % 2 ^ len * 2 ^ ofs % w64 ≡ v % 2 ^ len * 2 ^ ofs =
      λ v. mod-eq_of_lt (field_lt i64 ofs len v l) in
    let my0 : my % 2 ^ len ≡ 0 =
      factor_zero _ (2 ^ ofs) (one-le-pow ofs 2 (omega arith))
        (sym (cut my) ∙ rw (← bit_and_mask len my) r.1) in
    let y0 = within_low len y my hy my0 in
    rw (x0, bit_and_mask len y, y0, zero-mul (2 ^ ofs)) (refl)

module _ {M : Type 0} (world : World M) (s : Context) (temps : Temps) (vals : ℕ → ℕ) (m : M)
    (h : IsSound s temps vals) where
  module _ (w : Width) (dst a b ofs len : ℕ) (d : Has s w dst) (ta : Has s w a) (tb : Has s w b)
      (l : ofs + len ≤ op_bits w) (len_lt : len < 64) (ofs_lt : ofs < 64) where
    field_read :
        insert_field (2 ^ len - 1) ofs (read w vals a) (read w vals b) % words w
        ≡ with_field ofs len (read w vals a) (read w vals b)
    field_read =
        let pa = mod_words w (vals a) in
        let pb = mod_words w (vals b) in
        insert_field-with_field w ofs len (read w vals a) (read w vals b) l (words_lt w _ pa)
          (words_lt w _ pb)
        ∙ ap₂ (with_field ofs len) (whole_word w _ pa) (whole_word w _ pb)

    pub fold_deposit-Assigns :
        Assigns world s vals m dst
          (with_field ofs len (read w vals a) (read w vals b))
          (fold_deposit temps w dst a b ofs len)
    unfolding fold_deposit field_mask exec
    fold_deposit-Assigns =
        elim (Bool-cases (insert_field (2 ^ len - 1) ofs (temps.mask a) (temps.mask b) == 0)) [
          | inl z ↦
              rw (fold_deposit, lt→ltb _ _ ofs_lt, field_mask, lt→ltb _ _ len_lt, z, ← field_read)
                (gen_movi-Assigns world s temps vals m h w dst 0 _ d (omega arith) (
                  ap (λ (t : ℕ). t % words w)
                    (insert_field_zero len ofs _ _ (temps.mask a) (temps.mask b)
                      (words_lt w _ (mod_words w (vals a))) (h.mask_lt a ta.lt)
                      (within_word w (vals a) (temps.mask a) (h.masked a ta.lt))
                      (within_word w (vals b) (temps.mask b) (h.masked b tb.lt))
                      (omega (arith, l, bits_most w)) ((==_iff _ 0).0 z))))
          | inr z ↦ elim (Bool-cases (is_const (temps.state a) && is_const (temps.state b))) [
            | inl k ↦
                let ka : is_const (temps.state a) ≡ true = ground (arith, k) in
                let kb : is_const (temps.state b) ≡ true = ground (arith, k) in
                rw
                  (
                    fold_deposit,
                    lt→ltb _ _ ofs_lt,
                    field_mask,
                    lt→ltb _ _ len_lt,
                    z,
                    k,
                    const_word world s temps vals m h w a (Has-HasWord s w a ta) ka,
                    const_word world s temps vals m h w b (Has-HasWord s w b tb) kb,
                  )
                  (gen_movi-Assigns world s temps vals m h w dst
                    (insert_field (2 ^ len - 1) ofs (temps.val a) (temps.val b)) _ d
                    (insert_field_lt _ ofs (temps.val a) (temps.val b)
                      (const_lt s temps vals h a ta.lt ka))
                    (sym (
                      insert_field-with_field w ofs len (temps.val a) (temps.val b) l
                        (const_lt s temps vals h a ta.lt ka) (const_lt s temps vals h b tb.lt kb))))
            | inr k ↦
                rw (fold_deposit, lt→ltb _ _ ofs_lt, field_mask, lt→ltb _ _ len_lt, z, k)
                  (kept-Assigns world s temps vals m h (deposit w dst a b ofs len) w dst _ d
                    (rw (← field_read) (mod_words w _)) refl (λ label. refl))
          ]
        ]
