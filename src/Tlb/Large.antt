-- ===== src/Tlb/Large.antt =====
-- The region of large pages that a flush of one page must not leave behind: `tlb_add_large_page`
-- widens it until it holds the new page and the old region.
use native.Mathlib.Nat.{pow-suc, one-le-pow, mod-lt, div-eq_of_lt, div-add-mod}
use fist_ame.Base.{
  ℕ, zero, suc, ◌+◌, ◌-◌, ◌*◌, ◌/◌, ◌%◌, ◌^◌, ◌≤◌, ◌<◌, ◌≡◌, ◌≢◌, ◌⊎◌, inl, inr, refl, sym, ap, ◌∙◌,
  ◌==◌, false, arith, bit_and, bit_xor, max, bit_and-zero, w64, minus_one, sub64, not64, high_mask,
  high_mask_lem, and-high_masks, pow_mono, xor-shift, eq_of_xor, xor-lt_w64, div-pow_le, round_eq,
  div-round, mod-pow_le, Bool-cases, ==_iff,
}
use native.Mathlib.Decide.{dec_lt}
use fist_ame.Cpu.{Tlb}
use fist_ame.Tlb.{widen, tlb_add_large_page, tlb_flush, tlb_flush_page}

-- The test by which `tlb_flush_page` falls back to a flush of everything.
abbrev pub Covered : Tlb → ℕ → Type 0
Covered t a = bit_and a t.tlb_flush_mask ≡ t.tlb_flush_addr

-- The region is an aligned block of `2 ^ k` bytes.
pub record Region (t : Tlb) (k : ℕ) : Type 0 where
  pub bits : k ≤ 64
  pub mask : t.tlb_flush_mask ≡ high_mask k
  pub small : t.tlb_flush_addr < w64
  pub aligned : t.tlb_flush_addr % 2 ^ k ≡ 0
  pub set : t.tlb_flush_addr ≢ minus_one

pub record NoRegion (t : Tlb) : Type 0 where
  pub addr : t.tlb_flush_addr ≡ minus_one
  pub mask : t.tlb_flush_mask ≡ 0

abbrev pub IsLarge : Tlb → Type 0
IsLarge t = NoRegion t ⊎ ((k : ℕ) × Region t k)

-- What the loop leaves: the mask of a block of `2 ^ n` bytes.
record Widened (d j m : ℕ) : Type 0 where
  bits : ℕ
  above : j ≤ bits
  below : bits ≤ 64
  mask : m ≡ high_mask bits
  done : bit_and d m ≡ 0

shift_mask : (j : ℕ) → j < 64 → high_mask j * 2 % w64 ≡ high_mask (suc j)
shift_mask j h = omega (arith, pow-suc 2 j, pow_mono (suc j) 64 h, one-le-pow j 2 (omega arith))

raise : (d j m : ℕ) → Widened d (suc j) m → Widened d j m
raise d j m w = record {
  bits = w.bits;
  above = omega arith;
  below = w.below;
  mask = w.mask;
  done = w.done;
}

below_top : (d j : ℕ) → j ≤ 64 → (bit_and d (high_mask j) == 0) ≡ false → j < 64
below_top d j h more = elim (dec_lt j 64) [
  | yes p ↦ p
  | no p ↦
      let e : j ≡ 64 = omega arith in
      absurd (ground (arith, bit_and-zero d, ap (λ (t : ℕ). bit_and d (high_mask t)) e))
]

-- The loop ends, within the fuel, at a mask under which the difference vanishes.
widen-Widened : (fuel d j : ℕ) → j ≤ 64 → 64 < fuel + j → Widened d j (widen fuel d (high_mask j))
unfolding widen
widen-Widened zero d j h f = absurd (omega arith)
widen-Widened (suc fuel) d j h f = elim (Bool-cases (bit_and d (high_mask j) == 0)) [
  | inl stop ↦
      rw (stop, widen)
        (record {
          bits = j;
          above = omega arith;
          below = h;
          mask = refl;
          done = (==_iff _ 0).0 stop;
        })
  | inr more ↦
      let j_lt = below_top d j h more in
      rw (more, widen)
        (rw (shift_mask j j_lt) (raise d j _ (widen-Widened fuel d (suc j) j_lt (omega arith))))
]

-- Two words whose difference a mask hides agree above its bits.
agree :
    (a b n : ℕ)
    → n ≤ 64
    → a < w64
    → b < w64
    → bit_and (bit_xor a b) (high_mask n) ≡ 0
    → a / 2 ^ n ≡ b / 2 ^ n
agree a b n h p q e = eq_of_xor (a / 2 ^ n) (b / 2 ^ n) (sym (xor-shift n a b) ∙ div-eq_of_lt low)
  where
    pos : 0 < 2 ^ n
    pos = one-le-pow n 2 (omega arith)

    low : bit_xor a b < 2 ^ n
    low =
        omega
          (arith, e, high_mask_lem n (bit_xor a b) h (xor-lt_w64 a b p q), mod-lt (bit_xor a b) pos)

large_mask : (k : ℕ) → k < 64 → not64 (sub64 (2 ^ k) 1) ≡ high_mask k
large_mask k h = omega (arith, one-le-pow k 2 (omega arith), pow_mono (suc k) 64 h, pow-suc 2 k)

-- An address rounded down by the mask of a block is a region.
rounded-Region :
    (u : Tlb) (a n : ℕ)
    → 1 ≤ n
    → n ≤ 64
    → a < w64
    → u.tlb_flush_mask ≡ high_mask n
    → u.tlb_flush_addr ≡ bit_and a (high_mask n)
    → Region u n × (u.tlb_flush_addr / 2 ^ n ≡ a / 2 ^ n)
rounded-Region u a n one h p m e =
    let pos : 0 < 2 ^ n = one-le-pow n 2 (omega arith) in
    let down : u.tlb_flush_addr ≡ a - a % 2 ^ n = e ∙ high_mask_lem n a h p in
    let same : u.tlb_flush_addr / 2 ^ n ≡ a / 2 ^ n =
      ap (λ (t : ℕ). t / 2 ^ n) down ∙ div-round (2 ^ n) a pos in
    let zero_low : u.tlb_flush_addr % 2 ^ n ≡ 0 = omega (
      arith,
      div-add-mod u.tlb_flush_addr (2 ^ n),
      div-add-mod a (2 ^ n),
      ap (λ (t : ℕ). 2 ^ n * t) same,
      down,
    ) in
    (
      record {
        bits = h;
        mask = m;
        small = omega (arith, down);
        aligned = zero_low;
        set = omega (arith, mod-pow_le 1 n u.tlb_flush_addr one zero_low);
      },
      same,
    )

-- Under a region, the test of `tlb_flush_page` is equality above bit `k`.
Covered-of_div :
    (t : Tlb) (k a : ℕ) → Region t k → a < w64 → a / 2 ^ k ≡ t.tlb_flush_addr / 2 ^ k → Covered t a
Covered-of_div t k a r h e =
    rw r.mask
      (omega (arith, high_mask_lem k a r.bits h, round_eq (2 ^ k) a t.tlb_flush_addr e, r.aligned))

div_of_Covered :
    (t : Tlb) (k a : ℕ) → Region t k → a < w64 → Covered t a → a / 2 ^ k ≡ t.tlb_flush_addr / 2 ^ k
div_of_Covered t k a r h c =
    let pos : 0 < 2 ^ k = one-le-pow k 2 (omega arith) in
    let down : a - a % 2 ^ k ≡ t.tlb_flush_addr =
      sym (high_mask_lem k a r.bits h) ∙ ap (λ (m : ℕ). bit_and a m) (sym r.mask) ∙ c in
    sym (div-round (2 ^ k) a pos) ∙ ap (λ (x : ℕ). x / 2 ^ k) down

-- What adding a page of `2 ^ k` bytes at `vaddr` leaves: a region that holds the page and all
-- that was covered.
record Grown (t u : Tlb) (vaddr k : ℕ) : Type 0 where
  bits : ℕ
  region : Region u bits
  above : k ≤ bits
  new : u.tlb_flush_addr / 2 ^ bits ≡ vaddr / 2 ^ bits
  old : (a : ℕ) → a < w64 → Covered t a → Covered u a

module _ (t : Tlb) (vaddr k : ℕ) (lo : 12 ≤ k) (hi : k < 64) (h : vaddr < w64) where
  added : Tlb
  added = tlb_add_large_page t vaddr (2 ^ k)

  first_fields :
      NoRegion t
      → (added.tlb_flush_mask ≡ high_mask k) × (added.tlb_flush_addr ≡ bit_and vaddr (high_mask k))
  unfolding added tlb_add_large_page
  first_fields free =
      rw ((==_iff t.tlb_flush_addr minus_one).1 free.addr)
        (large_mask k hi, ap (λ (m : ℕ). bit_and vaddr m) (large_mask k hi))

  first-Grown : NoRegion t → Grown t added vaddr k
  first-Grown free =
      let (m, e) = first_fields free in
      let (region, same) = rounded-Region added vaddr k (omega arith) (omega arith) h m e in
      record {
        bits = k;
        region = region;
        above = omega arith;
        new = same;
        old = λ a p c.
            absurd
              (omega (arith, free.addr, c, ap (λ (m : ℕ). bit_and a m) free.mask, bit_and-zero a));
      }

  module _ (j : ℕ) (r : Region t j) where
    both : ℕ
    both = max k j

    both_mask : bit_and (not64 (sub64 (2 ^ k) 1)) t.tlb_flush_mask ≡ high_mask both
    unfolding both
    both_mask =
        ap (λ (m : ℕ). bit_and m t.tlb_flush_mask) (large_mask k hi)
        ∙ ap (λ (m : ℕ). bit_and (high_mask k) m) r.mask
        ∙ and-high_masks k j (omega arith) r.bits

    diff : ℕ
    diff = bit_xor t.tlb_flush_addr vaddr

    wide : Widened diff both (widen 65 diff (high_mask both))
    wide = widen-Widened 65 diff both both_le (omega arith)
      where
        both_le : both ≤ 64
        both_le = unfold both in omega (arith, r.bits)

    next_fields :
        (added.tlb_flush_mask ≡ high_mask wide.bits)
        × (added.tlb_flush_addr ≡ bit_and t.tlb_flush_addr (high_mask wide.bits))
    unfolding added tlb_add_large_page diff
    next_fields =
        let e = ap (λ (m : ℕ). widen 65 diff m) both_mask ∙ wide.mask in
        rw (not_first) (e, ap (λ (m : ℕ). bit_and t.tlb_flush_addr m) e)
      where
        not_first : (t.tlb_flush_addr == minus_one) ≡ false
        not_first = ground (arith, r.set)

    next-Grown : Grown t added vaddr k
    next-Grown =
        let (m, e) = next_fields in
        let n = wide.bits in
        let k_le : k ≤ n = unfold both in omega (arith, wide.above) in
        let j_le : j ≤ n = unfold both in omega (arith, wide.above) in
        let done : bit_and (bit_xor t.tlb_flush_addr vaddr) (high_mask n) ≡ 0 =
          unfold diff in (sym (ap (λ (x : ℕ). bit_and diff x) wide.mask) ∙ wide.done) in
        let (region, same) =
          rounded-Region added t.tlb_flush_addr n (omega arith) wide.below r.small m e in
        record {
          bits = n;
          region = region;
          above = k_le;
          new = same ∙ agree t.tlb_flush_addr vaddr n wide.below r.small h done;
          old = λ a p c.
              Covered-of_div added n a region p
                (div-pow_le j n a t.tlb_flush_addr j_le (div_of_Covered t j a r p c) ∙ sym same);
        }

grown :
    (t : Tlb) (vaddr k : ℕ)
    → IsLarge t
    → 12 ≤ k
    → k < 64
    → vaddr < w64
    → Grown t (tlb_add_large_page t vaddr (2 ^ k)) vaddr k
unfolding added
grown t vaddr k (inl free) lo hi h = first-Grown t vaddr k lo hi h free
grown t vaddr k (inr (j, r)) lo hi h = next-Grown t vaddr k lo hi h j r

-- `tlb_add_large_page` keeps the remembered area an aligned block.
pub tlb_add_large_page-IsLarge :
    (t : Tlb) (vaddr k : ℕ)
    → IsLarge t
    → 12 ≤ k
    → k < 64
    → vaddr < w64
    → IsLarge (tlb_add_large_page t vaddr (2 ^ k))
tlb_add_large_page-IsLarge t vaddr k v lo hi h =
    let g = grown t vaddr k v lo hi h in inr (g.bits, g.region)

-- Once a page of `2 ^ k` bytes has been added, `tlb_flush_page` of any address inside that page is
-- a flush of the whole TLB, and so it stays for every address for which it was one before.
pub tlb_flush_page-tlb_add_large_page :
    (t : Tlb) (vaddr k a : ℕ)
    → IsLarge t
    → 12 ≤ k
    → k < 64
    → vaddr < w64
    → a < w64
    → (a / 2 ^ k ≡ vaddr / 2 ^ k) ⊎ Covered t a
    → let u = tlb_add_large_page t vaddr (2 ^ k) in tlb_flush_page u a ≡ tlb_flush u
unfolding tlb_flush_page
tlb_flush_page-tlb_add_large_page t vaddr k a v lo hi h p (inl same) =
    let g = grown t vaddr k v lo hi h in
    let c =
      Covered-of_div _ g.bits a g.region p (div-pow_le k g.bits a vaddr g.above same ∙ sym g.new) in
    rw ((==_iff _ _).1 c)
tlb_flush_page-tlb_add_large_page t vaddr k a v lo hi h p (inr was) =
    let g = grown t vaddr k v lo hi h in rw ((==_iff _ _).1 (g.old a p was))
