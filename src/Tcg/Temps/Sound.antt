-- ===== src/Tcg/Temps/Sound.antt =====
-- What the optimiser knows is true of the values that the temporaries have.
use native.Mathlib.Nat.{mod-eq_of_lt}
use fist_ame.Base.{
  bit_and_mask, bit_and-mod_within, ◌==◌, if◌then◌else◌, ==_iff, Bool-cases, update, update_ne, w64,
  minus_one, ℕ, ◌%◌, ◌<◌, bit_and, ◌≡◌, refl, ◌∙◌, ◌≢◌, inl, inr, true, false, arith,
}
use fist_ame.Tcg.Op.{Width, i32, i64}
use fist_ame.Tcg.Meaning.{words}
use fist_ame.Tcg.Temps.{is_const, is_copy, Temps, Context, unlink, forget, reset_temp, temp_undef}

-- A copy in its ring: the neighbours are copies, point back, and hold the same value.
pub record Linked (s : Context) (temps : Temps) (vals : ℕ → ℕ) (x : ℕ) : Type 0 where
  pub next_lt : temps.next_copy x < s.nb_temps
  pub prev_lt : temps.prev_copy x < s.nb_temps
  pub next_is : is_copy (temps.state (temps.next_copy x)) ≡ true
  pub prev_is : is_copy (temps.state (temps.prev_copy x)) ≡ true
  pub prev_next : temps.prev_copy (temps.next_copy x) ≡ x
  pub next_prev : temps.next_copy (temps.prev_copy x) ≡ x
  pub next_type : s.type (temps.next_copy x) ≡ s.type x
  pub next_val : vals (temps.next_copy x) ≡ vals x

pub record IsSound (s : Context) (temps : Temps) (vals : ℕ → ℕ) : Type 0 where
  pub range : (x : ℕ) → x < s.nb_temps → vals x < words (s.type x)
  pub known :
      (x : ℕ)
      → x < s.nb_temps
      → is_const (temps.state x) ≡ true
      → vals x ≡ temps.val x % words (s.type x)
  pub exact :
      (x : ℕ) → x < s.nb_temps → is_const (temps.state x) ≡ true → temps.mask x ≡ temps.val x
  pub masked : (x : ℕ) → x < s.nb_temps → bit_and (vals x) (temps.mask x) ≡ vals x
  pub mask_lt : (x : ℕ) → x < s.nb_temps → temps.mask x < w64
  pub linked : (x : ℕ) → x < s.nb_temps → is_copy (temps.state x) ≡ true → Linked s temps vals x

-- The value of a constant has 64 bits.
pub const_lt :
    (s : Context) (temps : Temps) (vals : ℕ → ℕ)
    → IsSound s temps vals
    → (x : ℕ) → x < s.nb_temps
    → is_const (temps.state x) ≡ true
    → temps.val x < w64
const_lt s temps vals h x l k = omega (arith, h.exact x l k, h.mask_lt x l)

pub words_lt : (w : Width) (v : ℕ) → v < words w → v < w64
words_lt i32 v h = omega arith
words_lt i64 v h = omega arith

pub mod_words : (w : Width) (v : ℕ) → v % words w < words w
mod_words i32 v = omega arith
mod_words i64 v = omega arith

pub zero_word : (w : Width) → 0 % words w ≡ 0
zero_word i32 = refl
zero_word i64 = refl

pub within_word : (w : Width) (x k : ℕ) → bit_and x k ≡ x → bit_and (x % words w) k ≡ x % words w
within_word i32 x k e = bit_and-mod_within 32 x k e
within_word i64 x k e = bit_and-mod_within 64 x k e

pub whole_word : (w : Width) (x : ℕ) → x < words w → x % words w ≡ x
whole_word w x p = mod-eq_of_lt p

module _ (s : Context) (temps : Temps) (vals : ℕ → ℕ) (h : IsSound s temps vals) (d : ℕ)
    (dl : d < s.nb_temps) (v : ℕ) where
  reset-Linked :
      (x : ℕ)
      → x < s.nb_temps
      → x ≢ d
      → is_copy ((reset_temp temps d).state x) ≡ true
      → Linked s (reset_temp temps d) (update vals d v) x
  unfolding reset_temp unlink forget
  reset-Linked x xl ne c = elim (Bool-cases (is_copy (temps.state d))) [
    | inr e ↦
        let cx : is_copy (temps.state x) ≡ true = ground (arith, rw (reset_temp, unlink, e) at c) in
        let l = h.linked x xl cx in
        rw (reset_temp, unlink, e)
          (record {
            next_lt = l.next_lt;
            prev_lt = l.prev_lt;
            next_is = ground (arith, l.next_is);
            prev_is = ground (arith, l.prev_is);
            prev_next = l.prev_next;
            next_prev = l.next_prev;
            next_type = l.next_type;
            next_val = ground (arith, l.next_is, l.next_val);
          })
    | inl e ↦
        let o = h.linked d dl e in
        let op = h.linked (temps.prev_copy d) o.prev_lt o.prev_is in
        elim (Bool-cases (temps.prev_copy d == temps.next_copy d)) [
          | inl q ↦
              let cx : (is_copy (temps.state x) ≡ true) × (x ≢ temps.next_copy d) =
                ground (arith, rw (reset_temp, unlink, e, q) at c) in
              let l = h.linked x xl cx.0 in
              rw (reset_temp, unlink, e, q)
                (record {
                  next_lt = l.next_lt;
                  prev_lt = l.prev_lt;
                  next_is = ground (arith, l.next_is, l.prev_next, o.prev_next);
                  prev_is = ground (arith, l.prev_is, l.next_prev, o.next_prev);
                  prev_next = l.prev_next;
                  next_prev = l.next_prev;
                  next_type = l.next_type;
                  next_val = ground (arith, l.prev_next, l.next_val);
                })
          | inr q ↦
              let cx : is_copy (temps.state x) ≡ true =
                ground (arith, rw (reset_temp, unlink, e, q) at c) in
              let l = h.linked x xl cx in
              rw (reset_temp, unlink, e, q)
                (record {
                  next_lt = ground (arith, l.next_lt, o.next_lt);
                  prev_lt = ground (arith, l.prev_lt, o.prev_lt);
                  next_is = ground (arith, l.next_is, l.prev_next, o.prev_next, o.next_is);
                  prev_is = ground (arith, l.prev_is, l.next_prev, o.next_prev, o.prev_is);
                  prev_next = ground (arith, l.prev_next, o.prev_next);
                  next_prev = ground (arith, l.next_prev, o.next_prev);
                  next_type = ground (arith, l.next_type, o.next_type, op.next_type, o.next_prev);
                  next_val = ground (
                    arith, l.next_val, l.prev_next, o.next_val, op.next_val, o.next_prev,
                    o.prev_next,
                  );
                })
        ]
  ]

  pub mask-reset :
      (x : ℕ) → (reset_temp temps d).mask x ≡ (if x == d then minus_one else temps.mask x)
  unfolding reset_temp unlink forget
  mask-reset x = elim (Bool-cases (is_copy (temps.state d))) [
    | inr e ↦ rw (reset_temp, unlink, e) refl
    | inl e ↦ elim (Bool-cases (temps.prev_copy d == temps.next_copy d)) [
      | inl q ↦ rw (reset_temp, unlink, e, q) refl
      | inr q ↦ rw (reset_temp, unlink, e, q) refl
    ]
  ]

  pub val-reset : (reset_temp temps d).val ≡ temps.val
  unfolding reset_temp unlink forget
  val-reset = elim (Bool-cases (is_copy (temps.state d))) [
    | inr e ↦ rw (reset_temp, unlink, e) refl
    | inl e ↦ elim (Bool-cases (temps.prev_copy d == temps.next_copy d)) [
      | inl q ↦ rw (reset_temp, unlink, e, q) refl
      | inr q ↦ rw (reset_temp, unlink, e, q) refl
    ]
  ]

  pub state-reset_self : (reset_temp temps d).state d ≡ temp_undef
  unfolding reset_temp unlink forget
  state-reset_self = ground arith

  -- Of the others a constant stays one, and nothing becomes one.
  pub const-reset :
      (x : ℕ)
      → is_const ((reset_temp temps d).state x) ≡ true
      → (x ≢ d) × (is_const (temps.state x) ≡ true)
  unfolding reset_temp unlink forget
  const-reset x c = elim (Bool-cases (is_copy (temps.state d))) [
    | inr e ↦ ground (arith, rw (reset_temp, unlink, e) at c)
    | inl e ↦ elim (Bool-cases (temps.prev_copy d == temps.next_copy d)) [
      | inl q ↦ ground (arith, rw (reset_temp, unlink, e, q) at c)
      | inr q ↦ ground (arith, rw (reset_temp, unlink, e, q) at c)
    ]
  ]

  -- What is known stays true when a temporary is reset and given any word of its type: constants,
  -- masks, and the rings of copies, also the one that it leaves.
  pub reset_temp-IsSound : v < words (s.type d) → IsSound s (reset_temp temps d) (update vals d v)
  reset_temp-IsSound fits = record {
    range = λ x xl. ground (arith, h.range x xl);
    known = λ x xl c.
        let k = const-reset x c in rw (val-reset, update_ne vals d v x k.0) (h.known x xl k.1);
    exact = λ x xl c.
        let k = const-reset x c in
        let kd : (x == d) ≡ false = ground (arith, k.0) in
        rw (val-reset, mask-reset x, kd) (h.exact x xl k.1);
    masked = λ x xl. elim (Bool-cases (x == d)) [
      | inl e ↦ rw (mask-reset x, e) (bit_and_mask 64 v ∙ mod-eq_of_lt (words_lt (s.type d) v fits))
      | inr e ↦ rw (mask-reset x, e) (h.masked x xl)
    ];
    mask_lt = λ x xl. rw (mask-reset x) (ground (arith, h.mask_lt x xl));
    linked = λ x xl c. elim (Bool-cases (x == d)) [
      | inl e ↦ absurd (ground (arith, c, state-reset_self, (==_iff x d).0 e))
      | inr e ↦ reset-Linked x xl (ground (arith, e)) c
    ];
  }
