-- ===== src/Tcg/Fold/Words.antt =====
-- The results of the code, of 64 bits, cut to the width of an operation.
use native.Mathlib.Nat.{div-le_self, mod-lt, one-le-pow, lt_of_le_of_lt}
use fist_ame.Base.{
  bit_and-mod, bit_or-mod, bit_xor-mod, mul_mod, bit_or_lt, rotate_lem, ltb, if◌then◌else◌, w64,
  w32, sub64, not64, ℕ, ◌+◌, ◌-◌, ◌*◌, ◌/◌, ◌%◌, ◌^◌, ◌≤◌, ◌<◌, bit_and, bit_or, bit_xor, ◌≡◌, sym,
  subst, arith,
}
use fist_ame.Tcg.Op.{Width, op_bits, i32, i64}
use fist_ame.Tcg.Meaning.{words, complement}

-- The operations on whole words of 64 bits, cut to the width.
pub and_words : (w : Width) (x y : ℕ) → bit_and x y % words w ≡ bit_and (x % words w) (y % words w)
and_words i32 x y = bit_and-mod 32 x y
and_words i64 x y = bit_and-mod 64 x y

pub or_words : (w : Width) (x y : ℕ) → bit_or x y % words w ≡ bit_or (x % words w) (y % words w)
or_words i32 x y = bit_or-mod 32 x y
or_words i64 x y = bit_or-mod 64 x y

pub xor_words : (w : Width) (x y : ℕ) → bit_xor x y % words w ≡ bit_xor (x % words w) (y % words w)
xor_words i32 x y = bit_xor-mod 32 x y
xor_words i64 x y = bit_xor-mod 64 x y

pub not_words : (w : Width) (z : ℕ) → z < w64 → not64 z % words w ≡ complement w (z % words w)
not_words i32 z p = omega arith
not_words i64 z p = omega arith

pub add_words :
    (w : Width) (x y : ℕ) → (x + y) % w64 % words w ≡ (x % words w + y % words w) % words w
add_words i32 x y = omega arith
add_words i64 x y = omega arith

pub sub_words :
    (w : Width) (x y : ℕ)
    → x < w64
    → y < w64
    → sub64 x y % words w ≡ (x % words w + words w - y % words w) % words w
sub_words i32 x y p q = omega arith
sub_words i64 x y p q = omega arith

pub mul_words :
    (w : Width) (x y : ℕ) → x * y % w64 % words w ≡ x % words w * (y % words w) % words w
mul_words i32 x y = omega (arith, mul_mod x y w32)
mul_words i64 x y = omega (arith, mul_mod x y w64)

-- The shifted value and its meaning; `q` and `r` are the quotients.
abbrev pub shifted : Width → ℕ → ℕ → ℕ → ℕ
shifted w x q r = if ltb x (2 ^ (op_bits w - 1)) then q else w64 - 1 - r

pub sar_value :
    (w : Width) (x q r : ℕ)
    → x < words w
    → q ≤ x
    → r ≤ words w - 1 - x
    → (shifted w x q r < w64)
      × (shifted w x q r % words w ≡ (if ltb x (words w / 2) then q else complement w r))
sar_value i32 x q r p a b = ground arith
sar_value i64 x q r p a b = ground arith

-- A rotation of a word, and that it is one.
pub rotated :
    (n j k x : ℕ)
    → j + k ≡ n
    → x < 2 ^ n
    → (bit_or (x * 2 ^ k % 2 ^ n) (x / 2 ^ j) ≡ x * 2 ^ k % 2 ^ n + x / 2 ^ j)
      × (bit_or (x * 2 ^ k % 2 ^ n) (x / 2 ^ j) < 2 ^ n)
rotated n j k x e p =
    let right = div-le_self x (2 ^ j) in
    (
      subst (λ (m : ℕ). bit_or (x * 2 ^ k % 2 ^ m) (x / 2 ^ j) ≡ x * 2 ^ k % 2 ^ m + x / 2 ^ j) e
          (rotate_lem j k x (subst (λ (m : ℕ). x < 2 ^ m) (sym e) p)),
      bit_or_lt n _ _ (mod-lt (x * 2 ^ k) (one-le-pow n 2 (omega arith))) (lt_of_le_of_lt right p),
    )

pub rot_sub : (w : Width) (y : ℕ) → y < op_bits w → 0 < y → sub64 (op_bits w) y ≡ op_bits w - y
rot_sub i32 y h p = omega arith
rot_sub i64 y h p = omega arith

pub mod_again : (w : Width) (t v : ℕ) → t % words w ≡ v → t % words w ≡ v % words w
mod_again i32 t v e = omega (arith, e)
mod_again i64 t v e = omega (arith, e)

pub rot_lem :
    (w : Width) (j k x : ℕ)
    → j + k ≡ op_bits w
    → (bit_or (x % 2 ^ op_bits w * 2 ^ k % 2 ^ op_bits w) (x % 2 ^ op_bits w / 2 ^ j) < w64)
      × (bit_or (x % 2 ^ op_bits w * 2 ^ k % 2 ^ op_bits w) (x % 2 ^ op_bits w / 2 ^ j) % words w
          ≡ x % words w * 2 ^ k % words w + x % words w / 2 ^ j)
rot_lem i32 j k x e =
    let r = rotated 32 j k (x % w32) e (omega arith) in
    (omega (arith, r.1), omega (arith, r.0, r.1))
rot_lem i64 j k x e =
    let r = rotated 64 j k (x % w64) e (omega arith) in
    (omega (arith, r.1), omega (arith, r.0, r.1))

pub small_mod : (w : Width) (y : ℕ) → y < op_bits w → y % words w ≡ y
small_mod i32 y h = omega arith
small_mod i64 y h = omega arith
