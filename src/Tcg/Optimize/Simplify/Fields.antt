-- ===== src/Tcg/Optimize/Simplify/Fields.antt =====
-- The field of a deposit, in masks and shifts and in digits.
use native.Mathlib.Nat.{
  mod-eq_of_lt, pow-suc, one-le-pow, zero-add, mul_assoc, mod-one, pow-le-pow_right, suc-add,
  mul_comm, suc-mul, mod-lt, mul-le-mul_right,
}
use mathlib.Core.Path.{ap₂}
use fist_ame.Base.{
  bit_and_low, bit_or_low, bit_or-zero, bit_and_mask, mod-pow_suc, bit_ext, bit_mod, div_pow_suc,
  pow-add, w64, not64, ℕ, zero, suc, ◌+◌, ◌-◌, ◌*◌, ◌/◌, ◌%◌, ◌^◌, ◌≤◌, ◌<◌, bit_and, bit_or, ◌≡◌,
  sym, ap, ◌∙◌, arith,
}
use fist_ame.Tcg.Op.{Width, op_bits}
use fist_ame.Tcg.Exec.{with_field}
use fist_ame.Tcg.Meaning.{words, complement}
use fist_ame.Tcg.Fold.Words.{and_words, or_words, not_words}
use fist_ame.Tcg.Optimize.Simplify.{insert_field}
use fist_ame.Tcg.Temps.Sound.{words_lt, whole_word}
use fist_ame.Tcg.Optimize.Simplify.Extensions.{words_pow}

twice : (a k : ℕ) → a * 2 ^ suc k ≡ a * 2 ^ k * 2
twice a k = omega (arith, ap (λ (t : ℕ). a * t) (pow-suc 2 k), mul_assoc a (2 ^ k) 2)

-- A field at the bottom.
low_field :
    (n len x y : ℕ)
    → len ≤ n
    → x < 2 ^ n
    → bit_or (bit_and x (2 ^ n - 2 ^ len)) (y % 2 ^ len) ≡ y % 2 ^ len + x / 2 ^ len * 2 ^ len
low_field n zero x y l p =
    let e : x % 2 ^ n ≡ x = mod-eq_of_lt p in
    rw (mod-one y, bit_and_mask n x, e, bit_or-zero x) (omega arith)
low_field zero (suc len) x y l p = absurd (omega (arith, l))
low_field (suc n) (suc len) x y l p =
    let m : 2 ^ suc n - 2 ^ suc len ≡ (2 ^ n - 2 ^ len) * 2 =
      omega (arith, pow-suc 2 n, pow-suc 2 len) in
    let a = bit_and_low x ((2 ^ n - 2 ^ len) * 2) in
    let m2 : (2 ^ n - 2 ^ len) * 2 / 2 ≡ 2 ^ n - 2 ^ len = omega arith in
    let half_a : bit_and x ((2 ^ n - 2 ^ len) * 2) / 2 ≡ bit_and (x / 2) (2 ^ n - 2 ^ len) =
      omega (arith, a, ap (bit_and (x / 2)) m2) in
    let even_a : bit_and x ((2 ^ n - 2 ^ len) * 2) % 2 ≡ 0 = omega (arith, a) in
    let b = mod-pow_suc y len in
    let half_b : y % 2 ^ suc len / 2 ≡ y / 2 % 2 ^ len = omega (arith, b) in
    let ih = low_field n len (x / 2) (y / 2) (omega (arith, l)) (omega (arith, p, pow-suc 2 n)) in
    let o = bit_or_low (bit_and x ((2 ^ n - 2 ^ len) * 2)) (y % 2 ^ suc len) in
    let q : bit_or (bit_and x ((2 ^ n - 2 ^ len) * 2) / 2) (y % 2 ^ suc len / 2)
        ≡ y / 2 % 2 ^ len + x / 2 / 2 ^ len * 2 ^ len =
      rw (half_a, half_b) ih in
    let z : x / 2 ^ suc len * 2 ^ suc len ≡ x / 2 / 2 ^ len * 2 ^ len * 2 =
      twice (x / 2 ^ suc len) len ∙ ap (λ (t : ℕ). t * 2 ^ len * 2) (div_pow_suc x len) in
    rw m (omega (arith, o, q, even_a, b, z))

one_less : (a b : ℕ) → 0 < a → (a - 1) * b + b ≡ a * b
one_less zero b p = absurd (omega (arith, p))
one_less (suc a) b p = let e : suc a - 1 ≡ a = omega arith in rw e (sym (suc-mul a b))

low_low : (n k y : ℕ) → k ≤ n → y % 2 ^ n % 2 ^ k ≡ y % 2 ^ k
low_low n k y l =
    bit_ext k _ _ (mod-lt _ (one-le-pow k 2 (omega arith)))
      (mod-lt _ (one-le-pow k 2 (omega arith)))
      (λ j p.
        bit_mod k j (y % 2 ^ n) p ∙ bit_mod n j y (omega (arith, p, l)) ∙ sym (bit_mod k j y p))

field_fits : (ofs n len : ℕ) → ofs + len ≤ n → (2 ^ len - 1) * 2 ^ ofs < 2 ^ n
field_fits ofs n len l =
    let p : 2 ^ (ofs + len) ≤ 2 ^ n =
      pow-le-pow_right {n = 2} (omega arith) {i = ofs + len} {j = n} l in
    let q : 2 ^ (ofs + len) ≡ 2 ^ ofs * 2 ^ len = pow-add ofs len in
    let d : (2 ^ len - 1) * 2 ^ ofs + 2 ^ ofs ≡ 2 ^ len * 2 ^ ofs =
      one_less (2 ^ len) (2 ^ ofs) (one-le-pow len 2 (omega arith)) in
    omega (arith, p, q, d, mul_comm (2 ^ len) (2 ^ ofs), one-le-pow ofs 2 (omega arith))

field_lem :
    (ofs n len x y : ℕ)
    → ofs + len ≤ n
    → x < 2 ^ n
    → bit_or (bit_and x (2 ^ n - 1 - (2 ^ len - 1) * 2 ^ ofs)) (y % 2 ^ len * 2 ^ ofs)
      ≡ with_field ofs len x y
field_lem zero n len x y l p =
    let m : 2 ^ n - 1 - (2 ^ len - 1) * 2 ^ 0 ≡ 2 ^ n - 2 ^ len =
      omega (arith, one-le-pow len 2 (omega arith)) in
    let one : y % 2 ^ len * 2 ^ 0 ≡ y % 2 ^ len = omega arith in
    rw (m, one, zero-add len) (low_field n len x y (omega (arith, l)) p ∙ omega arith)
field_lem (suc ofs) zero len x y l p = absurd (omega (arith, l))
field_lem (suc ofs) (suc n) len x y l p =
    let t = twice (2 ^ len - 1) ofs in
    let v = twice (y % 2 ^ len) ofs in
    let lo : (2 ^ len - 1) * 2 ^ ofs < 2 ^ n = field_fits ofs n len (omega (arith, l)) in
    let m2 : (2 ^ suc n - 1 - (2 ^ len - 1) * 2 ^ suc ofs) / 2
        ≡ 2 ^ n - 1 - (2 ^ len - 1) * 2 ^ ofs =
      omega (arith, t, pow-suc 2 n, lo) in
    let mo : (2 ^ suc n - 1 - (2 ^ len - 1) * 2 ^ suc ofs) % 2 ≡ 1 =
      omega (arith, t, pow-suc 2 n, lo) in
    let a = bit_and_low x (2 ^ suc n - 1 - (2 ^ len - 1) * 2 ^ suc ofs) in
    let half_a : bit_and x (2 ^ suc n - 1 - (2 ^ len - 1) * 2 ^ suc ofs) / 2
        ≡ bit_and (x / 2) (2 ^ n - 1 - (2 ^ len - 1) * 2 ^ ofs) =
      omega (arith, a, ap (bit_and (x / 2)) m2) in
    let odd_a : bit_and x (2 ^ suc n - 1 - (2 ^ len - 1) * 2 ^ suc ofs) % 2 ≡ x % 2 =
      omega (arith, a, mo) in
    let half_b : y % 2 ^ len * 2 ^ suc ofs / 2 ≡ y % 2 ^ len * 2 ^ ofs = omega (arith, v) in
    let even_b : y % 2 ^ len * 2 ^ suc ofs % 2 ≡ 0 = omega (arith, v) in
    let ih = field_lem ofs n len (x / 2) y (omega (arith, l)) (omega (arith, p, pow-suc 2 n)) in
    let o =
      bit_or_low (bit_and x (2 ^ suc n - 1 - (2 ^ len - 1) * 2 ^ suc ofs))
        (y % 2 ^ len * 2 ^ suc ofs) in
    let q : bit_or (bit_and x (2 ^ suc n - 1 - (2 ^ len - 1) * 2 ^ suc ofs) / 2)
          (y % 2 ^ len * 2 ^ suc ofs / 2)
        ≡ x / 2 % 2 ^ ofs + y % 2 ^ len * 2 ^ ofs + x / 2 / 2 ^ (ofs + len) * 2 ^ (ofs + len) =
      rw (half_a, half_b) ih in
    let z : x / 2 ^ suc (ofs + len) * 2 ^ suc (ofs + len)
        ≡ x / 2 / 2 ^ (ofs + len) * 2 ^ (ofs + len) * 2 =
      twice (x / 2 ^ suc (ofs + len)) (ofs + len)
      ∙ ap (λ (t : ℕ). t * 2 ^ (ofs + len) * 2) (div_pow_suc x (ofs + len)) in
    rw (suc-add ofs len) (omega (arith, o, q, odd_a, even_b, mod-pow_suc x ofs, v, z))

fits : (w : Width) (ofs len : ℕ) → ofs + len ≤ op_bits w → (2 ^ len - 1) * 2 ^ ofs < words w
fits w ofs len l = rw (words_pow w) (field_fits ofs (op_bits w) len l)

pub field_lt : (w : Width) (ofs len y : ℕ) → ofs + len ≤ op_bits w → y % 2 ^ len * 2 ^ ofs < words w
field_lt w ofs len y l =
    let p : y % 2 ^ len ≤ 2 ^ len - 1 = omega (arith, mod-lt y (one-le-pow len 2 (omega arith))) in
    omega (arith, fits w ofs len l, mul-le-mul_right (2 ^ ofs) p)

-- What the code computes of two words, with the field inside of the width.
module _ (w : Width) (ofs len x y : ℕ) (l : ofs + len ≤ op_bits w) (x64 : x < w64)
    (y64 : y < w64) where
  whole :
      bit_or
        (bit_and (x % words w) (complement w ((2 ^ len - 1) * 2 ^ ofs)))
        (y % words w % 2 ^ len * 2 ^ ofs)
      ≡ with_field ofs len (x % words w) (y % words w)
  whole = rw (words_pow w) (
      field_lem ofs (op_bits w) len (x % 2 ^ op_bits w) (y % 2 ^ op_bits w) l
        (mod-lt x (one-le-pow (op_bits w) 2 (omega arith))))

  pub insert_field-with_field :
      insert_field (2 ^ len - 1) ofs x y % words w ≡ with_field ofs len (x % words w) (y % words w)
  unfolding insert_field
  insert_field-with_field =
      let t = (2 ^ len - 1) * 2 ^ ofs in
      let t64 : t % w64 ≡ t = mod-eq_of_lt (words_lt w t (fits w ofs len l)) in
      let tw : t % words w ≡ t = whole_word w t (fits w ofs len l) in
      let py : y % 2 ^ len ≡ y % words w % 2 ^ len =
        rw (words_pow w) (sym (low_low (op_bits w) len y (omega (arith, l)))) in
      rw (bit_and_mask len y, t64)
        (or_words w (bit_and x (not64 t)) (y % 2 ^ len * 2 ^ ofs % w64)
          ∙ ap₂ bit_or
              (and_words w x (not64 t)
                ∙ ap (bit_and (x % words w))
                    (not_words w t (words_lt w t (fits w ofs len l)) ∙ ap (complement w) tw))
              (ap (λ (t : ℕ). t % words w) (mod-eq_of_lt (words_lt w _ (field_lt w ofs len y l)))
                ∙ whole_word w _ (field_lt w ofs len y l)
                ∙ ap (λ (t : ℕ). t * 2 ^ ofs) py)
          ∙ whole)
