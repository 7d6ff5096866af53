-- ===== src/Cc/Parity.antt =====
-- `parity_table` of vx64/qemu/target-i386/cc_helper.c.
use fist_ame.Base.{
  ℕ, zero, suc, ◌+◌, ◌/◌, ◌%◌, ◌<◌, ◌≡◌, refl, Bool, true, false, ◌&&◌, ◌==◌, if◌then◌else◌, List,
  [], ◌∷◌, get_elem?, none, some, arith, ==_iff, Bool-cases, inl, inr,
}

parity_values : List ℕ
parity_values =
    4 ∷ 0 ∷ 0 ∷ 4 ∷ 0 ∷ 4 ∷ 4 ∷ 0 ∷ 0 ∷ 4 ∷ 4 ∷ 0 ∷ 4 ∷ 0 ∷ 0 ∷ 4 ∷ 0 ∷ 4 ∷ 4 ∷ 0 ∷ 4 ∷ 0 ∷ 0 ∷ 4
    ∷ 4 ∷ 0 ∷ 0 ∷ 4 ∷ 0 ∷ 4 ∷ 4 ∷ 0 ∷ 0 ∷ 4 ∷ 4 ∷ 0 ∷ 4 ∷ 0 ∷ 0 ∷ 4 ∷ 4 ∷ 0 ∷ 0 ∷ 4 ∷ 0 ∷ 4 ∷ 4 ∷ 0
    ∷ 4 ∷ 0 ∷ 0 ∷ 4 ∷ 0 ∷ 4 ∷ 4 ∷ 0 ∷ 0 ∷ 4 ∷ 4 ∷ 0 ∷ 4 ∷ 0 ∷ 0 ∷ 4 ∷ 0 ∷ 4 ∷ 4 ∷ 0 ∷ 4 ∷ 0 ∷ 0 ∷ 4
    ∷ 4 ∷ 0 ∷ 0 ∷ 4 ∷ 0 ∷ 4 ∷ 4 ∷ 0 ∷ 4 ∷ 0 ∷ 0 ∷ 4 ∷ 0 ∷ 4 ∷ 4 ∷ 0 ∷ 0 ∷ 4 ∷ 4 ∷ 0 ∷ 4 ∷ 0 ∷ 0 ∷ 4
    ∷ 4 ∷ 0 ∷ 0 ∷ 4 ∷ 0 ∷ 4 ∷ 4 ∷ 0 ∷ 0 ∷ 4 ∷ 4 ∷ 0 ∷ 4 ∷ 0 ∷ 0 ∷ 4 ∷ 0 ∷ 4 ∷ 4 ∷ 0 ∷ 4 ∷ 0 ∷ 0 ∷ 4
    ∷ 4 ∷ 0 ∷ 0 ∷ 4 ∷ 0 ∷ 4 ∷ 4 ∷ 0 ∷ 0 ∷ 4 ∷ 4 ∷ 0 ∷ 4 ∷ 0 ∷ 0 ∷ 4 ∷ 4 ∷ 0 ∷ 0 ∷ 4 ∷ 0 ∷ 4 ∷ 4 ∷ 0
    ∷ 4 ∷ 0 ∷ 0 ∷ 4 ∷ 0 ∷ 4 ∷ 4 ∷ 0 ∷ 0 ∷ 4 ∷ 4 ∷ 0 ∷ 4 ∷ 0 ∷ 0 ∷ 4 ∷ 4 ∷ 0 ∷ 0 ∷ 4 ∷ 0 ∷ 4 ∷ 4 ∷ 0
    ∷ 0 ∷ 4 ∷ 4 ∷ 0 ∷ 4 ∷ 0 ∷ 0 ∷ 4 ∷ 0 ∷ 4 ∷ 4 ∷ 0 ∷ 4 ∷ 0 ∷ 0 ∷ 4 ∷ 4 ∷ 0 ∷ 0 ∷ 4 ∷ 0 ∷ 4 ∷ 4 ∷ 0
    ∷ 4 ∷ 0 ∷ 0 ∷ 4 ∷ 0 ∷ 4 ∷ 4 ∷ 0 ∷ 0 ∷ 4 ∷ 4 ∷ 0 ∷ 4 ∷ 0 ∷ 0 ∷ 4 ∷ 0 ∷ 4 ∷ 4 ∷ 0 ∷ 4 ∷ 0 ∷ 0 ∷ 4
    ∷ 4 ∷ 0 ∷ 0 ∷ 4 ∷ 0 ∷ 4 ∷ 4 ∷ 0 ∷ 0 ∷ 4 ∷ 4 ∷ 0 ∷ 4 ∷ 0 ∷ 0 ∷ 4 ∷ 4 ∷ 0 ∷ 0 ∷ 4 ∷ 0 ∷ 4 ∷ 4 ∷ 0
    ∷ 4 ∷ 0 ∷ 0 ∷ 4 ∷ 0 ∷ 4 ∷ 4 ∷ 0 ∷ 0 ∷ 4 ∷ 4 ∷ 0 ∷ 4 ∷ 0 ∷ 0 ∷ 4 ∷ []

-- The entry of a byte.
pub parity_table : ℕ → ℕ
unfolding parity_values
parity_table n = elim (get_elem? parity_values n) [ some v ↦ v | none ↦ 0 ]

-- The number of ones among the low `k` bits.
abbrev pub ones : ℕ → ℕ → ℕ
ones zero n = 0
ones (suc k) n = n % 2 + ones k (n / 2)

abbrev pub parity_of : ℕ → ℕ
parity_of n = if ones 8 n % 2 == 0 then 4 else 0

agree_below : ℕ → Bool
agree_below zero = true
agree_below (suc n) = (parity_table n == parity_of n) && agree_below n

all_agree : agree_below 256 ≡ true
unfolding agree_below parity_table parity_values ones
all_agree = refl

both : (a b : Bool) → (a && b) ≡ true → (a ≡ true) × (b ≡ true)
both true b h = (refl, h)
both false b h = absurd (ground (arith, h))

at_below : (m n : ℕ) → agree_below m ≡ true → n < m → parity_table n ≡ parity_of n
unfolding agree_below
at_below zero n h l = absurd (omega arith)
at_below (suc m) n h l =
    let (here, rest) = both (parity_table m == parity_of m) (agree_below m) h in
    elim (Bool-cases (n == m)) [
      | inl e ↦ rw ((==_iff n m).0 e) ((==_iff (parity_table m) (parity_of m)).0 here)
      | inr e ↦ at_below m n rest (ground (arith, e, l))
    ]

-- The table has CC_P, 4, for the bytes with an even number of ones, and 0 for the others.
pub parity_table_lem : (n : ℕ) → n < 256 → parity_table n ≡ parity_of n
parity_table_lem n h = at_below 256 n all_agree h
