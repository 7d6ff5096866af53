-- ===== src/Tcg/Temps/Gen.antt =====
-- What a move leaves known.
use fist_ame.Base.{
  bit_and-mod_self, ◌==◌, ==_iff, Bool-cases, update, update_self, update_ne, w64, ℕ, ◌%◌, ◌<◌,
  bit_and, ◌≡◌, refl, sym, ◌∙◌, ◌≢◌, inl, inr, true, false, Option, none, some, arith,
}
use fist_ame.Tcg.Op.{Width, i32, i64}
use fist_ame.Tcg.Meaning.{words}
use fist_ame.Tcg.Temps.{
  is_const, is_copy, Temps, Context, same_type, reset_temp, tcg_opt_gen_mov, tcg_opt_gen_movi,
  temp_undef, temp_const,
}
use fist_ame.Tcg.Temps.Sound.{
  IsSound, mod_words, mask-reset, state-reset_self, const-reset, reset_temp-IsSound,
}
use fist_ame.Tcg.Temps.Links.{link-IsSound}

masked_by_self : (w : Width) (v : ℕ) → bit_and (v % words w) v ≡ v % words w
masked_by_self i32 v = bit_and-mod_self 32 v
masked_by_self i64 v = bit_and-mod_self 64 v

-- A temporary of which nothing was known becomes a constant.
set_const :
    (s : Context) (temps : Temps) (vals : ℕ → ℕ) (d v : ℕ)
    → IsSound s temps vals
    → temps.state d ≡ temp_undef
    → vals d ≡ v % words (s.type d)
    → v < w64
    → IsSound s
        (record temps {
          state = update temps.state d temp_const;
          val = update temps.val d v;
          mask = update temps.mask d v;
        })
        vals
set_const s temps vals d v h u e p = record {
  range = h.range;
  known = λ x xl c. ground (arith, h.known x xl);
  exact = λ x xl c. ground (arith, h.exact x xl);
  masked = λ x xl. elim (Bool-cases (x == d)) [
    | inl q ↦ rw (q, (==_iff x d).0 q, e) (masked_by_self (s.type d) v)
    | inr q ↦ rw q (h.masked x xl)
  ];
  mask_lt = λ x xl. ground (arith, h.mask_lt x xl);
  linked = λ x xl c.
      let cx : is_copy (temps.state x) ≡ true = ground (arith, c) in
      let l = h.linked x xl cx in
      record {
        next_lt = l.next_lt;
        prev_lt = l.prev_lt;
        next_is = ground (arith, l.next_is);
        prev_is = ground (arith, l.prev_is);
        prev_next = l.prev_next;
        next_prev = l.next_prev;
        next_type = l.next_type;
        next_val = l.next_val;
      };
}

pub tcg_opt_gen_movi-IsSound :
    (s : Context) (temps : Temps) (vals : ℕ → ℕ) (d v : ℕ)
    → IsSound s temps vals
    → d < s.nb_temps
    → v < w64
    → IsSound s (tcg_opt_gen_movi temps d v) (update vals d (v % words (s.type d)))
unfolding tcg_opt_gen_movi
tcg_opt_gen_movi-IsSound s temps vals d v h dl p =
    let n = v % words (s.type d) in
    set_const s (reset_temp temps d) (update vals d n) d v
      (reset_temp-IsSound s temps vals h d dl n (mod_words (s.type d) v))
      (state-reset_self s temps vals h d dl n) (update_self vals d n) p

-- Two types are the same for the code when they are.
same_type_lem : (v w : Width) → same_type v w ≡ true → v ≡ w
same_type_lem i32 i32 h = refl
same_type_lem i32 i64 h = cc
same_type_lem i64 i32 h = cc
same_type_lem i64 i64 h = refl

-- The mask of a source holds for a value whose bits are the source's.
set_mask :
    (s : Context) (temps : Temps) (vals : ℕ → ℕ) (d m : ℕ)
    → IsSound s temps vals
    → is_const (temps.state d) ≡ false
    → bit_and (vals d) m ≡ vals d
    → m < w64
    → IsSound s (record temps { mask = update temps.mask d m }) vals
set_mask s temps vals d m h k e p = record {
  range = h.range;
  known = h.known;
  exact = λ x xl c. ground (arith, h.exact x xl c, k, c);
  masked = λ x xl. elim (Bool-cases (x == d)) [
    | inl q ↦ rw (q, (==_iff x d).0 q) e
    | inr q ↦ rw q (h.masked x xl)
  ];
  mask_lt = λ x xl. ground (arith, h.mask_lt x xl);
  linked = λ x xl c.
      let l = h.linked x xl c in
      record {
        next_lt = l.next_lt;
        prev_lt = l.prev_lt;
        next_is = l.next_is;
        prev_is = l.prev_is;
        prev_next = l.prev_next;
        next_prev = l.next_prev;
        next_type = l.next_type;
        next_val = l.next_val;
      };
}

unfoldable pub Moved : Context → (ℕ → ℕ) → Option Temps → Type 0
Moved s vals none = ⊥
Moved s vals (some temps) = IsSound s temps vals

-- A move to another temporary is recorded truly, if the source is no constant, the word that is
-- moved fits the type and has no bit outside of the mask of the source, and is the value of the
-- source where the types are the same. The assertion of the code holds.
pub tcg_opt_gen_mov-IsSound :
    (s : Context) (temps : Temps) (vals : ℕ → ℕ) (d src v : ℕ)
    → IsSound s temps vals
    → d < s.nb_temps
    → src < s.nb_temps
    → d ≢ src
    → is_const (temps.state src) ≡ false
    → v < words (s.type d)
    → bit_and v (temps.mask src) ≡ v
    → (s.type src ≡ s.type d → v ≡ vals src)
    → Moved s (update vals d v) (tcg_opt_gen_mov s temps d src)
unfolding tcg_opt_gen_mov Moved
tcg_opt_gen_mov-IsSound s temps vals d src v h dl sl ne k fits bits same =
    let r = reset_temp-IsSound s temps vals h d dl v fits in
    let sd : (src == d) ≡ false = ground arith in
    let u = state-reset_self s temps vals h d dl v in
    let km : (reset_temp temps d).mask src ≡ temps.mask src =
      mask-reset s temps vals h d dl v src ∙ rw sd refl in
    let kk : is_const ((reset_temp temps d).state src) ≡ false =
      elim (Bool-cases (is_const ((reset_temp temps d).state src))) [
        | inl c ↦ absurd (ground (arith, k, (const-reset s temps vals h d dl v src c).1))
        | inr c ↦ c
      ] in
    let m =
      set_mask s (reset_temp temps d) (update vals d v) d ((reset_temp temps d).mask src) r
        (ground (arith, u)) (rw (update_self vals d v, km) bits) (rw km (h.mask_lt src sl)) in
    elim (Bool-cases (same_type (s.type src) (s.type d))) [
      | inl t ↦
          let ty = same_type_lem _ _ t in
          rw (tcg_opt_gen_mov, kk, t)
            (link-IsSound s _ (update vals d v) d src m dl sl ne u kk
              (rw (update_self vals d v, update_ne vals d v src (λ e. ne (sym e))) (same ty))
              (sym ty))
      | inr t ↦ rw (tcg_opt_gen_mov, kk, t) m
    ]
