-- ===== src/Tcg/Optimize/Simplify/Extensions.antt =====
-- What the masks of `tcg_constant_folding` say of the operations with one input.
use native.Mathlib.Nat.{mod-lt, pow-suc, one-le-pow, div-lt_iff_lt-mul}
use fist_ame.Base.{
  bit_and_low, bit, bit_and_flag, bit_and_mask, bit_and-zero_left, bit_and_comm, bit_and_lt_left,
  ◌==◌, nz, lt→ltb, ==_iff, Bool-cases, within_bit, within_none, within_all, w64, sub64, not64,
  minus_one, ℕ, zero, suc, ◌-◌, ◌*◌, ◌/◌, ◌%◌, ◌^◌, ◌<◌, bit_and, ◌≡◌, refl, sym, ◌∙◌, subst, inl,
  inr, false, Option, none, some, arith,
}
use fist_ame.Tcg.Op.{
  Width, op_bits, Unary, i32, i64, op_not, op_neg, op_ext8s, op_ext8u, op_ext16s, op_ext16u,
  op_ext32s, op_ext32u,
}
use fist_ame.Tcg.Meaning.{words, extended, unary}
use fist_ame.Tcg.Temps.Sound.{words_lt}
use fist_ame.Tcg.Temps.{Temps}
use fist_ame.Tcg.Optimize.Simplify.{extension_mask, mask_unary, affected_unary}

pub words_pow : (w : Width) → words w ≡ 2 ^ op_bits w
words_pow i32 = refl
words_pow i64 = refl

pub unary_lt : (w : Width) (f : Unary) (x : ℕ) → x < words w → unary w f x < words w
unfolding unary
unary_lt i32 op_not x p = omega arith
unary_lt i64 op_not x p = omega arith
unary_lt i32 op_neg x p = omega arith
unary_lt i64 op_neg x p = omega arith
unary_lt i32 op_ext8s x p = ground arith
unary_lt i64 op_ext8s x p = ground arith
unary_lt i32 op_ext16s x p = ground arith
unary_lt i64 op_ext16s x p = ground arith
unary_lt i32 op_ext32s x p = ground arith
unary_lt i64 op_ext32s x p = ground arith
unary_lt i32 op_ext8u x p = omega arith
unary_lt i64 op_ext8u x p = omega arith
unary_lt i32 op_ext16u x p = omega arith
unary_lt i64 op_ext16u x p = omega arith
unary_lt i32 op_ext32u x p = omega arith
unary_lt i64 op_ext32u x p = omega arith

-- A mask and its negation have a bit in common, unless the mask is 0.
neg_meets : (n m : ℕ) → 0 < m → m < 2 ^ n → bit_and m (2 ^ n - m) ≡ 0 → ⊥
neg_meets zero m q p h = absurd (omega (arith, p, q))
neg_meets (suc n) m q p h = elim (Bool-cases (m % 2 == 1)) [
  | inl o ↦
      let odd = (==_iff (m % 2) 1).0 o in
      omega (arith, bit_and_low m (2 ^ suc n - m), pow-suc 2 n, odd)
  | inr o ↦
      let even : m % 2 ≡ 0 = ground (arith, o) in
      let half : (2 ^ suc n - m) / 2 ≡ 2 ^ n - m / 2 = omega (arith, pow-suc 2 n, even) in
      let low : bit_and (m / 2) ((2 ^ suc n - m) / 2) ≡ 0 =
        omega (arith, bit_and_low m (2 ^ suc n - m)) in
      neg_meets n (m / 2) (omega (arith, even)) (omega (arith, pow-suc 2 n)) (rw half at low)
]

neg_mask : (m : ℕ) → m < w64 → bit_and m (sub64 0 m) ≡ 0 → m ≡ 0
neg_mask m p h = elim (Bool-cases (m == 0)) [
  | inl z ↦ (==_iff m 0).0 z
  | inr z ↦
      let q : 0 < m = ground (arith, z) in
      let e : sub64 0 m ≡ 2 ^ 64 - m = omega (arith, q) in absurd (neg_meets 64 m q p (rw e at h))
]

-- An extension of a word within a mask that ends below the sign bit, or that has no bit at all.
module _ (w : Width) (x m : ℕ) (p : x < words w) (h : bit_and x m ≡ x) where
  low_zero : (k : ℕ) → bit_and m (2 ^ k - 1) ≡ 0 → x % 2 ^ k ≡ 0
  low_zero k z = sym (bit_and_mask k x) ∙ within_none 64 x m (2 ^ k - 1) (words_lt w x p) h z

  pub low_all : (k : ℕ) → 2 ^ k - 1 < w64 → bit_and m (not64 (2 ^ k - 1)) ≡ 0 → x % 2 ^ k ≡ x
  low_all k q z = sym (bit_and_mask k x) ∙ within_all 64 x m (2 ^ k - 1) (words_lt w x p) q h z

  no_sign : (k : ℕ) → nz (bit_and m (2 ^ k)) ≡ false → bit x k ≡ 0
  no_sign k z =
      let b : bit m k * 2 ^ k ≡ 0 = sym (bit_and_flag k m) ∙ ground (arith, z) in
      sym (within_bit x m k h) ∙ elim (Bool-cases (bit m k == 1)) [
        | inl o ↦
            let one = (==_iff (bit m k) 1).0 o in
            absurd (omega (arith, rw one at b, one-le-pow k 2 (omega arith)))
        | inr o ↦ ground (arith, o)
      ]

-- What follows from the two tests of the mask of an extension.
Extends : Width → Unary → ℕ → ℕ → Option ℕ → Type 0
Extends w f x m none = Unit
Extends w f x m (some k) =
    (bit_and m k ≡ 0 → unary w f x ≡ 0) × (bit_and m (not64 k) ≡ 0 → unary w f x ≡ x)

signed_zero : (w : Width) (x : ℕ) (k : ℕ) → x % 2 ^ k ≡ 0 → 0 < k → extended w k x ≡ 0
signed_zero w x k z p = rw (z, lt→ltb 0 (2 ^ (k - 1)) (one-le-pow (k - 1) 2 (omega arith))) refl

signed_all : (w : Width) (x j : ℕ) → x % 2 ^ suc j ≡ x → bit x j ≡ 0 → extended w (suc j) x ≡ x
signed_all w x j e b =
    let pos = one-le-pow j 2 (omega arith) in
    let top : x < 2 ^ suc j =
      subst (λ (t : ℕ). t < 2 ^ suc j) e (mod-lt x (one-le-pow (suc j) 2 (omega arith))) in
    let half : x / 2 ^ j < 2 = (div-lt_iff_lt-mul pos).1 (omega (arith, top, pow-suc 2 j)) in
    let small : x < 1 * 2 ^ j = (div-lt_iff_lt-mul pos).0 (omega (arith, half, b)) in
    let j' : suc j - 1 ≡ j = omega arith in rw (e, j', lt→ltb x (2 ^ j) (omega (arith, small))) refl

signed :
    (w : Width) (temps : Temps) (a x : ℕ)
    → x < words w
    → bit_and x (temps.mask a) ≡ x
    → (j : ℕ) → nz (bit_and (temps.mask a) (2 ^ j)) ≡ false
    → 2 ^ suc j - 1 < w64
    → (bit_and (temps.mask a) (2 ^ suc j - 1) ≡ 0 → extended w (suc j) x ≡ 0)
      × (bit_and (temps.mask a) (not64 (2 ^ suc j - 1)) ≡ 0 → extended w (suc j) x ≡ x)
signed w temps a x p h j n q = (
  λ z. signed_zero w x (suc j) (low_zero w x (temps.mask a) p h (suc j) z) (omega arith),
  λ z.
      signed_all w x j (low_all w x (temps.mask a) p h (suc j) q z)
        (no_sign w x (temps.mask a) p h j n),
)

extension_mask-Extends :
    (w : Width) (temps : Temps) (f : Unary) (a x : ℕ)
    → x < words w
    → bit_and x (temps.mask a) ≡ x
    → Extends w f x (temps.mask a) (extension_mask temps f a)
unfolding extension_mask Extends unary
extension_mask-Extends w temps op_not a x p h = tt
extension_mask-Extends w temps op_neg a x p h = tt
extension_mask-Extends w temps op_ext8u a x p h =
    (low_zero w x (temps.mask a) p h 8, low_all w x (temps.mask a) p h 8 (omega arith))
extension_mask-Extends w temps op_ext16u a x p h =
    (low_zero w x (temps.mask a) p h 16, low_all w x (temps.mask a) p h 16 (omega arith))
extension_mask-Extends w temps op_ext32u a x p h =
    (low_zero w x (temps.mask a) p h 32, low_all w x (temps.mask a) p h 32 (omega arith))
extension_mask-Extends w temps op_ext8s a x p h =
    elim (Bool-cases (nz (bit_and (temps.mask a) 0x80))) [
      | inl n ↦ rw (extension_mask, n) tt
      | inr n ↦ rw (extension_mask, n) (signed w temps a x p h 7 n (omega arith))
    ]
extension_mask-Extends w temps op_ext16s a x p h =
    elim (Bool-cases (nz (bit_and (temps.mask a) 0x8000))) [
      | inl n ↦ rw (extension_mask, n) tt
      | inr n ↦ rw (extension_mask, n) (signed w temps a x p h 15 n (omega arith))
    ]
extension_mask-Extends w temps op_ext32s a x p h =
    elim (Bool-cases (nz (bit_and (temps.mask a) 0x8000_0000))) [
      | inl n ↦ rw (extension_mask, n) tt
      | inr n ↦ rw (extension_mask, n) (signed w temps a x p h 31 n (omega arith))
    ]

-- A mask without a bit, and a mask that the extension leaves alone.
module _ (w : Width) (temps : Temps) (a x : ℕ) (p : x < words w)
    (h : bit_and x (temps.mask a) ≡ x) where
  zero_of :
      (f : Unary) (r : Option ℕ)
      → Extends w f x (temps.mask a) r
      → elim r as (λ _. ℕ) [ none ↦ minus_one | some k ↦ bit_and (temps.mask a) k ] ≡ 0
      → unary w f x ≡ 0
  unfolding Extends
  zero_of f none e z = absurd (omega (arith, z))
  zero_of f (some k) e z = e.0 z

  same_of :
      (f : Unary) (r : Option ℕ)
      → Extends w f x (temps.mask a) r
      → elim r as (λ _. ℕ) [ none ↦ minus_one | some k ↦ bit_and (temps.mask a) (not64 k) ] ≡ 0
      → unary w f x ≡ x
  unfolding Extends
  same_of f none e z = absurd (omega (arith, z))
  same_of f (some k) e z = e.1 z

  zero_neg : temps.mask a < w64 → mask_unary temps op_neg a ≡ 0 → unary w op_neg x ≡ 0
  unfolding mask_unary unary
  zero_neg q z =
      let t = bit_and_lt_left 64 (temps.mask a) (sub64 0 (temps.mask a)) q in
      let c : bit_and (temps.mask a) (sub64 0 (temps.mask a)) ≡ 0 = omega (arith, z, t, q) in
      let m0 : temps.mask a ≡ 0 = neg_mask (temps.mask a) q c in
      let x0 : x ≡ 0 =
        sym h ∙ rw m0 (bit_and_comm 64 x 0 (words_lt w x p) (omega arith) ∙ bit_and-zero_left x) in
      rw x0 (neg_zero w)
    where
      neg_zero : (w : Width) → (words w - 0) % words w ≡ 0
      neg_zero i32 = refl
      neg_zero i64 = refl

  pub mask_zero : (f : Unary) → temps.mask a < w64 → mask_unary temps f a ≡ 0 → unary w f x ≡ 0
  unfolding mask_unary
  mask_zero op_neg q z = zero_neg q z
  mask_zero op_not q z = zero_of op_not _ (extension_mask-Extends w temps op_not a x p h) z
  mask_zero op_ext8s q z = zero_of op_ext8s _ (extension_mask-Extends w temps op_ext8s a x p h) z
  mask_zero op_ext8u q z = zero_of op_ext8u _ (extension_mask-Extends w temps op_ext8u a x p h) z
  mask_zero op_ext16s q z = zero_of op_ext16s _ (extension_mask-Extends w temps op_ext16s a x p h) z
  mask_zero op_ext16u q z = zero_of op_ext16u _ (extension_mask-Extends w temps op_ext16u a x p h) z
  mask_zero op_ext32s q z = zero_of op_ext32s _ (extension_mask-Extends w temps op_ext32s a x p h) z
  mask_zero op_ext32u q z = zero_of op_ext32u _ (extension_mask-Extends w temps op_ext32u a x p h) z

  pub affected_zero : (f : Unary) → affected_unary temps f a ≡ 0 → unary w f x ≡ x
  unfolding affected_unary
  affected_zero f z = same_of f _ (extension_mask-Extends w temps f a x p h) z
