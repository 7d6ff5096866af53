-- ===== src/Cc/Compute/Compare.antt =====
-- The flags of a comparison against the orders of the operands.
use fist_ame.Base.{
  ℕ, ◌+◌, ◌*◌, ◌/◌, ◌%◌, ◌<◌, ◌≡◌, refl, ap, ◌∙◌, max, min, bit, bit_and, bit_xor, bit-bit_or,
  bit-bit_and, bit-bit_xor, arith, Bool, true, false, Bool-cases, inl, inr, ltb, ◌==◌, w64, add64,
  sub64,
}
use fist_ame.Cc.Parity.{parity_table_lem, ones}
use fist_ame.Cc.Size.{OpSize, byte, word, long, quad, data_size, sign_mask, lshift_8, lshift_12}
use fist_ame.Cc.Compute.Carry.{flag_low}
use fist_ame.Cc.Compute.{helper_cc_compute_all, sub, compute_all_sub, flag, join, pf}

-- The sign bit of an operand.
abbrev top : OpSize → ℕ → ℕ
top s x = x / sign_mask s % 2

lshift_8-top : (s : OpSize) (x : ℕ) → bit (lshift_8 s x) 7 ≡ top s x
lshift_8-top byte x = omega arith
lshift_8-top word x = ground arith
lshift_8-top long x = ground arith
lshift_8-top quad x = ground arith

lshift_12-top : (s : OpSize) (x : ℕ) → bit (lshift_12 s x) 11 ≡ top s x
lshift_12-top byte x = omega arith
lshift_12-top word x = ground arith
lshift_12-top long x = ground arith
lshift_12-top quad x = ground arith

-- An operand in offset binary: the signed order is the order of these.
abbrev pub biased : OpSize → ℕ → ℕ
biased s x = (x + sign_mask s) % data_size s

-- Sign and overflow of the difference tell the signed order.
signed_lem :
    (s : OpSize) (a b : ℕ)
    → a < w64
    → b < w64
    → let d = sub64 a b in
      (top s d + min ((top s a + top s b) % 2) ((top s a + top s d) % 2)) % 2
      ≡ flag (ltb (biased s a) (biased s b))
signed_lem byte a b h k = ground arith
signed_lem word a b h k = ground arith
signed_lem long a b h k = ground arith
signed_lem quad a b h k = ground arith

-- The bit of the six flags joined.
bit-join :
    (k c p a z s o : ℕ)
    → bit (join c p a z s o) k
      ≡ max (max (max (max (max (bit c k) (bit p k)) (bit a k)) (bit z k)) (bit s k)) (bit o k)
bit-join k c p a z s o = simp (bit-bit_or) refl

flag_high :
    (b : Bool)
    → (bit (flag b) 2 ≡ 0) × (bit (flag b) 6 ≡ 0) × (bit (flag b) 7 ≡ 0) × (bit (flag b) 11 ≡ 0)
flag_high true = (refl, refl, refl, refl)
flag_high false = (refl, refl, refl, refl)

pf_bits :
    (d : ℕ)
    → (bit (pf d) 0 ≡ 0)
      × (bit (pf d) 2 ≡ flag (ones 8 (d % 0x100) % 2 == 0))
      × (bit (pf d) 6 ≡ 0)
      × (bit (pf d) 7 ≡ 0)
      × (bit (pf d) 11 ≡ 0)
pf_bits d =
    rw (parity_table_lem (d % 0x100) (omega arith))
      (elim (Bool-cases (ones 8 (d % 0x100) % 2 == 0)) [
        | inl e ↦ rw e (refl, refl, refl, refl, refl)
        | inr e ↦ rw e (refl, refl, refl, refl, refl)
      ])

zf_bits :
    (b : Bool)
    → (bit (flag b * 64) 0 ≡ 0)
      × (bit (flag b * 64) 2 ≡ 0)
      × (bit (flag b * 64) 6 ≡ flag b)
      × (bit (flag b * 64) 7 ≡ 0)
      × (bit (flag b * 64) 11 ≡ 0)
zf_bits true = (refl, refl, refl, refl, refl)
zf_bits false = (refl, refl, refl, refl, refl)

top-and : (s : OpSize) (x y : ℕ) → top s (bit_and x y) ≡ min (top s x) (top s y)
top-and byte x y = bit-bit_and x y 7
top-and word x y = bit-bit_and x y 15
top-and long x y = bit-bit_and x y 31
top-and quad x y = bit-bit_and x y 63

top-xor : (s : OpSize) (x y : ℕ) → top s (bit_xor x y) ≡ (top s x + top s y) % 2
top-xor byte x y = bit-bit_xor x y 7
top-xor word x y = bit-bit_xor x y 15
top-xor long x y = bit-bit_xor x y 31
top-xor quad x y = bit-bit_xor x y 63

-- The flags of operands `a` and `b`, by what the conditions of the jumps read: C is the unsigned
-- order, Z equality, S and O together the signed order, P the parity of the result's low byte.
pub record IsCompare (s : OpSize) (a b flags : ℕ) : Type 0 where
  pub carry : bit flags 0 ≡ flag (ltb (a % data_size s) (b % data_size s))
  pub zero_flag : bit flags 6 ≡ flag (a % data_size s == b % data_size s)
  pub signed : (bit flags 7 + bit flags 11) % 2 ≡ flag (ltb (biased s a) (biased s b))
  pub parity : bit flags 2 ≡ flag (ones 8 (sub64 a b % 0x100) % 2 == 0)

module _ (s : OpSize) (a b : ℕ) (h : a < w64) (k : b < w64) where
  abbrev d : ℕ
  d = sub64 a b

  abbrev all : ℕ
  all = compute_all_sub s b d

  back : add64 d b ≡ a
  back = omega arith

  zero_lem : flag (d % data_size s == 0) ≡ flag (a % data_size s == b % data_size s)
  zero_lem =
      elim s as (λ s. flag (d % data_size s == 0) ≡ flag (a % data_size s == b % data_size s)) [
        | byte ↦ ground arith
        | word ↦ ground arith
        | long ↦ ground arith
        | quad ↦ ground arith
      ]

  carry_lem : bit all 0 ≡ flag (ltb (a % data_size s) (b % data_size s))
  unfolding compute_all_sub
  carry_lem =
      bit-join 0 _ _ _ _ _ _
      ∙ simp (bit-bit_and, back)
          (omega (
            arith,
            pf_bits d,
            flag_low (ltb (a % data_size s) (b % data_size s)),
            zf_bits (d % data_size s == 0),
          ))

  zero_flag_lem : bit all 6 ≡ flag (a % data_size s == b % data_size s)
  unfolding compute_all_sub
  zero_flag_lem =
      bit-join 6 _ _ _ _ _ _
      ∙ simp (bit-bit_and, back)
          (omega (
            arith,
            pf_bits d,
            flag_high (ltb (a % data_size s) (b % data_size s)),
            zf_bits (d % data_size s == 0),
          ))
      ∙ zero_lem

  parity_lem : bit all 2 ≡ flag (ones 8 (d % 0x100) % 2 == 0)
  unfolding compute_all_sub
  parity_lem =
      bit-join 2 _ _ _ _ _ _
      ∙ simp (bit-bit_and, back)
          (omega (
            arith,
            pf_bits d,
            flag_high (ltb (a % data_size s) (b % data_size s)),
            zf_bits (d % data_size s == 0),
          ))

  sign_lem : bit all 7 ≡ top s d
  unfolding compute_all_sub
  sign_lem =
      bit-join 7 _ _ _ _ _ _
      ∙ simp (bit-bit_and, back)
          (omega (
            arith,
            lshift_8-top s d,
            pf_bits d,
            flag_high (ltb (a % data_size s) (b % data_size s)),
            zf_bits (d % data_size s == 0),
          ))

  overflow_lem : bit all 11 ≡ min ((top s a + top s b) % 2) ((top s a + top s d) % 2)
  unfolding compute_all_sub
  overflow_lem =
      bit-join 11 _ _ _ _ _ _
      ∙ simp (bit-bit_and, back)
          (omega (
            arith,
            lshift_12-top s (bit_and (bit_xor a b) (bit_xor a d)),
            top-and s (bit_xor a b) (bit_xor a d),
            top-xor s a b,
            top-xor s a d,
            pf_bits d,
            flag_high (ltb (a % data_size s) (b % data_size s)),
            zf_bits (d % data_size s == 0),
          ))

-- SUB and CMP of two 64-bit registers, at any operand size, set the flags by which the conditional
-- jumps order them: C unsigned, S and O signed, Z equal, and P the parity of the low byte.
pub compute_all_sub-IsCompare :
    (s : OpSize) (a b : ℕ)
    → a < w64
    → b < w64
    → IsCompare s a b (helper_cc_compute_all (sub s) b (sub64 a b))
unfolding helper_cc_compute_all
compute_all_sub-IsCompare s a b h k = record {
  carry = carry_lem s a b h k;
  zero_flag = zero_flag_lem s a b h k;
  signed =
      ap (λ (t : ℕ). (t + bit (all s a b h k) 11) % 2) (sign_lem s a b h k)
      ∙ ap (λ (t : ℕ). (top s (sub64 a b) + t) % 2) (overflow_lem s a b h k)
      ∙ signed_lem s a b h k;
  parity = parity_lem s a b h k;
}
