-- ===== src/Tcg/Fold/Compare.antt =====
-- The comparisons of the optimiser against the order of the words, and where folding has no result.
use fist_ame.Base.{
  bit_and, bit_xor, nz, if◌then◌else◌, ltb, leb, ◌==◌, ltb→lt, Bool-cases, w64, sub64, ℕ, ◌≤◌, ◌<◌,
  ◌≡◌, refl, sym, ap, subst, ◌↔◌, ◌⊎◌, inl, inr, Bool, true, false, not, Option, none, some, arith,
}
use fist_ame.Tcg.Op.{
  Width, op_bits, Binary, Cond, cond_number, tcg_invert_cond, tcg_swap_cond, i32, i64, op_add,
  op_sub, op_mul, op_and, op_or, op_xor, op_shl, op_shr, op_sar, op_rotl, op_rotr, op_andc, op_orc,
  op_eqv, op_nand, op_nor, never, always, cond_eq, cond_ne, lt, ge, le, gt, ltu, geu, leu, gtu,
}
use fist_ame.Tcg.Meaning.{words, below, holds}
use fist_ame.Tcg.Fold.{
  left_shift, right_shift, right_shift_signed, either, do_constant_folding_2, do_constant_folding,
  less, do_constant_folding_cond_n, do_constant_folding_cond_eq,
}
use fist_ame.Tcg.Fold.Sound.{Counts, Folds, do_constant_folding-binary}

-- The conditions that an operation can have.
abbrev pub Compares : Cond → Type 0
Compares never = ⊥
Compares always = ⊥
Compares _ = Unit

less-below : (w : Width) (x y : ℕ) → x < words w → y < words w → less (op_bits w) x y ≡ below w x y
less-below i32 x y p q = ground arith
less-below i64 x y p q = ground arith

leb-not : (x y : ℕ) → leb x y ≡ not (ltb y x)
leb-not x y = ground arith

-- A comparison of two constants is decided the way the condition holds of the words, for each of
-- the ten conditions that compare.
pub do_constant_folding_cond_n-holds :
    (w : Width) (c : Cond) (x y : ℕ)
    → x < words w
    → y < words w
    → Compares c
    → do_constant_folding_cond_n (op_bits w) x y c ≡ some (holds w c x y)
unfolding do_constant_folding_cond_n holds
do_constant_folding_cond_n-holds w never x y p q v = absurd v
do_constant_folding_cond_n-holds w always x y p q v = absurd v
do_constant_folding_cond_n-holds w cond_eq x y p q v = refl
do_constant_folding_cond_n-holds w cond_ne x y p q v = refl
do_constant_folding_cond_n-holds w lt x y p q v = rw (less-below w x y p q) refl
do_constant_folding_cond_n-holds w ge x y p q v = rw (less-below w x y p q) refl
do_constant_folding_cond_n-holds w le x y p q v = rw (less-below w y x q p) refl
do_constant_folding_cond_n-holds w gt x y p q v = rw (less-below w y x q p) refl
do_constant_folding_cond_n-holds w ltu x y p q v = refl
do_constant_folding_cond_n-holds w geu x y p q v = refl
do_constant_folding_cond_n-holds w leu x y p q v = ap some (leb-not x y)
do_constant_folding_cond_n-holds w gtu x y p q v = refl

below_irrefl : (w : Width) (x : ℕ) → below w x x ≡ false
below_irrefl w x = ground arith

ltb_irrefl : (x : ℕ) → ltb x x ≡ false
ltb_irrefl x = ground arith

eq_same : (x : ℕ) → (x == x) ≡ true
eq_same x = ground arith

-- So does the comparison of a word with a copy of itself.
pub do_constant_folding_cond_eq-holds :
    (w : Width) (c : Cond) (x : ℕ)
    → Compares c
    → do_constant_folding_cond_eq c ≡ some (holds w c x x)
unfolding do_constant_folding_cond_eq holds
do_constant_folding_cond_eq-holds w never x v = absurd v
do_constant_folding_cond_eq-holds w always x v = absurd v
do_constant_folding_cond_eq-holds w cond_eq x v = rw (eq_same x) refl
do_constant_folding_cond_eq-holds w cond_ne x v = rw (eq_same x) refl
do_constant_folding_cond_eq-holds w lt x v = rw (below_irrefl w x) refl
do_constant_folding_cond_eq-holds w ge x v = rw (below_irrefl w x) refl
do_constant_folding_cond_eq-holds w le x v = rw (below_irrefl w x) refl
do_constant_folding_cond_eq-holds w gt x v = rw (below_irrefl w x) refl
do_constant_folding_cond_eq-holds w ltu x v = rw (ltb_irrefl x) refl
do_constant_folding_cond_eq-holds w geu x v = rw (ltb_irrefl x) refl
do_constant_folding_cond_eq-holds w leu x v = rw (ltb_irrefl x) refl
do_constant_folding_cond_eq-holds w gtu x v = rw (ltb_irrefl x) refl

-- A condition with its operands swapped, and its negation.
pub holds-tcg_swap_cond :
    (w : Width) (c : Cond) (x y : ℕ) → holds w (tcg_swap_cond c) y x ≡ holds w c x y
unfolding holds tcg_swap_cond
holds-tcg_swap_cond w never x y = refl
holds-tcg_swap_cond w always x y = refl
holds-tcg_swap_cond w cond_eq x y = ground arith
holds-tcg_swap_cond w cond_ne x y = ground arith
holds-tcg_swap_cond w lt x y = refl
holds-tcg_swap_cond w ge x y = refl
holds-tcg_swap_cond w le x y = refl
holds-tcg_swap_cond w gt x y = refl
holds-tcg_swap_cond w ltu x y = refl
holds-tcg_swap_cond w geu x y = refl
holds-tcg_swap_cond w leu x y = refl
holds-tcg_swap_cond w gtu x y = refl

not-not : (b : Bool) → not (not b) ≡ b
not-not true = refl
not-not false = refl

-- The inverted condition holds exactly where the condition does not.
pub holds-tcg_invert_cond :
    (w : Width) (c : Cond) (x y : ℕ) → holds w (tcg_invert_cond c) x y ≡ not (holds w c x y)
unfolding holds tcg_invert_cond
holds-tcg_invert_cond w never x y = refl
holds-tcg_invert_cond w always x y = refl
holds-tcg_invert_cond w cond_eq x y = refl
holds-tcg_invert_cond w cond_ne x y = sym (not-not _)
holds-tcg_invert_cond w lt x y = refl
holds-tcg_invert_cond w ge x y = sym (not-not _)
holds-tcg_invert_cond w le x y = sym (not-not _)
holds-tcg_invert_cond w gt x y = refl
holds-tcg_invert_cond w ltu x y = refl
holds-tcg_invert_cond w geu x y = sym (not-not _)
holds-tcg_invert_cond w leu x y = sym (not-not _)
holds-tcg_invert_cond w gtu x y = refl

abbrev pub opposite : Option Bool → Option Bool
opposite none = none
opposite (some b) = some (not b)

-- To invert a condition flips bit 0 of its number, and to swap it flips bits 0 and 3 where it orders,
-- bit 1 or 2: the number is always that of a condition. The comparison of two constants by the
-- inverted condition has the opposite result, and by the swapped one, with the constants swapped, the
-- same result, or none where it has none.
pub do_constant_folding_cond_n-turned :
    (n x y : ℕ) (c : Cond)
    → (cond_number (tcg_invert_cond c) ≡ bit_xor (cond_number c) 1)
      × (do_constant_folding_cond_n n x y (tcg_invert_cond c)
          ≡ opposite (do_constant_folding_cond_n n x y c))
      × (cond_number (tcg_swap_cond c)
          ≡ (if nz (bit_and (cond_number c) 6) then bit_xor (cond_number c) 9 else cond_number c))
      × (do_constant_folding_cond_n n y x (tcg_swap_cond c) ≡ do_constant_folding_cond_n n x y c)
unfolding do_constant_folding_cond_n tcg_invert_cond tcg_swap_cond
do_constant_folding_cond_n-turned n x y never = (refl, refl, refl, refl)
do_constant_folding_cond_n-turned n x y always = (refl, refl, refl, refl)
do_constant_folding_cond_n-turned n x y cond_eq = (refl, refl, refl, ap some (ground arith))
do_constant_folding_cond_n-turned n x y cond_ne =
    (refl, ap some (sym (not-not _)), refl, ap some (ground arith))
do_constant_folding_cond_n-turned n x y lt = (refl, refl, refl, refl)
do_constant_folding_cond_n-turned n x y ge = (refl, ap some (sym (not-not _)), refl, refl)
do_constant_folding_cond_n-turned n x y le = (refl, ap some (sym (not-not _)), refl, refl)
do_constant_folding_cond_n-turned n x y gt = (refl, refl, refl, refl)
do_constant_folding_cond_n-turned n x y ltu = (refl, refl, refl, refl)
do_constant_folding_cond_n-turned n x y geu =
    (refl, ap some (sym (not-not _)), refl, ap some (leb-not y x))
do_constant_folding_cond_n-turned n x y leu =
    (refl, ap some (ground arith), refl, ap some (sym (leb-not x y)))
do_constant_folding_cond_n-turned n x y gtu = (refl, ap some (ground arith), refl, refl)

shift-none :
    (n x count : ℕ)
    → n ≤ count
    → (left_shift n x count ≡ none)
      × (right_shift n x count ≡ none)
      × (right_shift_signed n x count ≡ none)
unfolding left_shift right_shift right_shift_signed
shift-none n x count h = ground arith

not_below : (a b : ℕ) → ¬ (a < b) → b ≤ a
not_below a b h = elim (Bool-cases (ltb a b)) [
  | inl e ↦ absurd (h (ltb→lt a b e))
  | inr e ↦ ground (arith, e)
]

either-none : (a b : Option ℕ) → (a ≡ none) ⊎ (b ≡ none) → either a b ≡ none
unfolding either
either-none none b h = refl
either-none (some a) none h = refl
either-none (some a) (some b) (inl h) = cc
either-none (some a) (some b) (inr h) = cc

none_lem :
    (w : Width) (op : Binary) (x y : ℕ)
    → do_constant_folding_2 w op x y ≡ none
    → do_constant_folding w op x y ≡ none
unfolding do_constant_folding
none_lem w op x y e = rw (do_constant_folding, e) refl

-- The counts of a rotation that are too small or too large for one of its two shifts.
rotate-none :
    (w : Width) (x y : ℕ)
    → y < w64
    → ¬ ((0 < y) × (y < op_bits w))
    → (either (left_shift (op_bits w) x (sub64 (op_bits w) y)) (right_shift (op_bits w) x y) ≡ none)
      × (either (left_shift (op_bits w) x y) (right_shift (op_bits w) x (sub64 (op_bits w) y))
          ≡ none)
rotate-none w x y q h = elim (Bool-cases (ltb y (op_bits w))) [
  | inl e ↦
      let z : y ≡ 0 = small (λ p. h (p, ltb→lt _ _ e)) in
      let s : op_bits w ≤ sub64 (op_bits w) y = rw z (wide w) in
      let n = shift-none (op_bits w) x (sub64 (op_bits w) y) s in
      (either-none _ _ (inl n.0), either-none _ _ (inr n.1))
  | inr e ↦
      let n = shift-none (op_bits w) x y (ground (arith, e)) in
      (either-none _ _ (inr n.1), either-none _ _ (inl n.0))
]
  where
    small : ¬ (0 < y) → y ≡ 0
    small h = omega (arith, not_below 0 y h)

    wide : (w : Width) → op_bits w ≤ sub64 (op_bits w) 0
    wide i32 = omega arith
    wide i64 = omega arith

-- Constant folding of two values of 64 bits has no result exactly where the count of the shift or
-- the rotation is out of range: at or above the width, or 0 for a rotation.
pub do_constant_folding-none :
    (w : Width) (op : Binary) (x y : ℕ)
    → x < w64
    → y < w64
    → (¬ Counts w op y) ↔ (do_constant_folding w op x y ≡ none)
unfolding do_constant_folding_2
do_constant_folding-none w op x y p q =
    (undefined op, λ e c. subst (Folds w op x y) e (do_constant_folding-binary w op x y p q c))
  where
    undefined : (op : Binary) → ¬ Counts w op y → do_constant_folding w op x y ≡ none
    undefined op_shl h = none_lem w op_shl x y (shift-none _ x _ (not_below _ _ h)).0
    undefined op_shr h = none_lem w op_shr x y (shift-none _ x _ (not_below _ _ h)).1
    undefined op_sar h = none_lem w op_sar x y (shift-none _ x _ (not_below _ _ h)).2
    undefined op_rotl h = none_lem w op_rotl x y (rotate-none w x y q h).1
    undefined op_rotr h = none_lem w op_rotr x y (rotate-none w x y q h).0
    undefined op_add h = absurd (h tt)
    undefined op_sub h = absurd (h tt)
    undefined op_mul h = absurd (h tt)
    undefined op_and h = absurd (h tt)
    undefined op_or h = absurd (h tt)
    undefined op_xor h = absurd (h tt)
    undefined op_andc h = absurd (h tt)
    undefined op_orc h = absurd (h tt)
    undefined op_eqv h = absurd (h tt)
    undefined op_nand h = absurd (h tt)
    undefined op_nor h = absurd (h tt)
